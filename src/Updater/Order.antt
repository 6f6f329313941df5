-- ===== src/Updater/Order.antt =====
-- That versions are in order.
use Prim.Native.Nat.{Ordering, compare}
use Prim.Native.Nat.Ordering.{lt, eq, gt}
use Prim.Native.Char.{Char, code}
use Prim.Native.String.compare
use Prim.Native.String.{then, compare as compare_text}
use text.Mathlib.TextEquality.{path_by_compare}
use text.Mathlib.TextPositions.{compare_refl}
use ai_agent_ollama.Base.{
  String, ◌≡◌, refl, sym, ◌∙◌, Bool, true, false, Option, none, some, is_some, not, ◌&&◌, ap, ◌↔◌,
  arith,
}
use ai_agent_ollama.Values.{pos}
use ai_agent_ollama.Updater.{
  Patterns, Version, compare_tuples, compare_parsed, compare_versions, parse_version, positive,
  sign, is_newer,
}

-- what an order promises
pub record IsOrder {A : Type 0} (cmp : A → A → Ordering) : Type 0 where
  pub same : (a : A) → cmp a a ≡ eq
  pub equal : (a b : A) → cmp a b ≡ eq → a ≡ b
  pub flip : (a b : A) → cmp a b ≡ lt → cmp b a ≡ gt
  pub flop : (a b : A) → cmp a b ≡ gt → cmp b a ≡ lt
  pub chain : (a b c : A) → cmp a b ≡ lt → cmp b c ≡ lt → cmp a c ≡ lt

compare-IsOrder : IsOrder compare
compare-IsOrder = record {
  same = ground arith;
  equal = ground arith;
  flip = ground arith;
  flop = ground arith;
  chain = ground arith;
}

nothing_below : (s : String) → compare_text s String.[] ≡ lt → ⊥
nothing_below String.[] h = cc (sym compare.nil-nil ∙ h)
nothing_below (String.◌∷◌ c s) h = cc (sym (compare.cons-nil c s) ∙ h)

flip_both :
    (c d : Char) (s t : String)
    → then (compare (code c) (code d)) (compare_text s t) ≡ lt
    → (compare_text s t ≡ lt → compare_text t s ≡ gt)
    → then (compare (code d) (code c)) (compare_text t s) ≡ gt
flip_both c d s t h k = ground arith

flip_text : (s t : String) → compare_text s t ≡ lt → compare_text t s ≡ gt
flip_text String.[] String.[] h = absurd (cc (sym compare.nil-nil ∙ h))
flip_text String.[] (String.◌∷◌ d t) h = compare.cons-nil d t
flip_text (String.◌∷◌ c s) String.[] h = absurd (cc (sym (compare.cons-nil c s) ∙ h))
flip_text (String.◌∷◌ c s) (String.◌∷◌ d t) h =
    compare.cons-cons d c t s
    ∙ flip_both c d s t (sym (compare.cons-cons c d s t) ∙ h) (flip_text s t)

flop_both :
    (c d : Char) (s t : String)
    → then (compare (code c) (code d)) (compare_text s t) ≡ gt
    → (compare_text s t ≡ gt → compare_text t s ≡ lt)
    → then (compare (code d) (code c)) (compare_text t s) ≡ lt
flop_both c d s t h k = ground arith

flop_text : (s t : String) → compare_text s t ≡ gt → compare_text t s ≡ lt
flop_text String.[] String.[] h = absurd (cc (sym compare.nil-nil ∙ h))
flop_text String.[] (String.◌∷◌ d t) h = absurd (cc (sym (compare.nil-cons d t) ∙ h))
flop_text (String.◌∷◌ c s) String.[] h = compare.nil-cons c s
flop_text (String.◌∷◌ c s) (String.◌∷◌ d t) h =
    compare.cons-cons d c t s
    ∙ flop_both c d s t (sym (compare.cons-cons c d s t) ∙ h) (flop_text s t)

chain_both :
    (c d e : Char) (s t u : String)
    → then (compare (code c) (code d)) (compare_text s t) ≡ lt
    → then (compare (code d) (code e)) (compare_text t u) ≡ lt
    → (compare_text s t ≡ lt → compare_text t u ≡ lt → compare_text s u ≡ lt)
    → then (compare (code c) (code e)) (compare_text s u) ≡ lt
chain_both c d e s t u h k f = ground arith

chain_text :
    (s t u : String) → compare_text s t ≡ lt → compare_text t u ≡ lt → compare_text s u ≡ lt
chain_text s t String.[] h k = absurd (nothing_below t k)
chain_text String.[] t (String.◌∷◌ e u) h k = compare.nil-cons e u
chain_text (String.◌∷◌ c s) String.[] (String.◌∷◌ e u) h k =
    absurd (nothing_below (String.◌∷◌ c s) h)
chain_text (String.◌∷◌ c s) (String.◌∷◌ d t) (String.◌∷◌ e u) h k =
    compare.cons-cons c e s u
    ∙ chain_both c d e s t u (sym (compare.cons-cons c d s t) ∙ h)
        (sym (compare.cons-cons d e t u) ∙ k) (chain_text s t u)

text-IsOrder : IsOrder compare_text
text-IsOrder = record {
  same = compare_refl;
  equal = path_by_compare;
  flip = flip_text;
  flop = flop_text;
  chain = chain_text;
}

version_flip : (a b : Version) → compare_tuples a b ≡ lt → compare_tuples b a ≡ gt
unfolding compare_tuples
version_flip a b h = ground (arith, flip_text a.label b.label)

version_flop : (a b : Version) → compare_tuples a b ≡ gt → compare_tuples b a ≡ lt
unfolding compare_tuples
version_flop a b h = ground (arith, flop_text a.label b.label)

version_same : (a : Version) → compare_tuples a a ≡ eq
unfolding compare_tuples
version_same a = ground (arith, compare_refl a.label)

version_equal : (a b : Version) → compare_tuples a b ≡ eq → a ≡ b
unfolding compare_tuples
version_equal a b h = ground (arith, path_by_compare a.label b.label)

version_chain :
    (a b c : Version) → compare_tuples a b ≡ lt → compare_tuples b c ≡ lt → compare_tuples a c ≡ lt
unfolding compare_tuples
version_chain a b c h k =
    ground (arith, chain_text a.label b.label c.label, path_by_compare a.label b.label)

abbrev newer_parsed : Option Version → Option Version → Bool
newer_parsed a b = positive (compare_parsed a b)

parsed_self : (a : Option Version) → newer_parsed a a ≡ false
unfolding compare_parsed
parsed_self none = refl
parsed_self (some a) = ground (arith, version_same a)

parsed_one_way : (a b : Option Version) → newer_parsed a b ≡ true → newer_parsed b a ≡ false
unfolding compare_parsed
parsed_one_way none none h = refl
parsed_one_way none (some b) h = absurd (cc h)
parsed_one_way (some a) none h = refl
parsed_one_way (some a) (some b) h = ground (arith, version_flop a b)

parsed_chain :
    (a b c : Option Version)
    → newer_parsed a b ≡ true
    → newer_parsed b c ≡ true
    → newer_parsed a c ≡ true
unfolding compare_parsed
parsed_chain none none c h k = absurd (cc h)
parsed_chain none (some b) c h k = absurd (cc h)
parsed_chain (some a) none none h k = refl
parsed_chain (some a) none (some c) h k = absurd (cc k)
parsed_chain (some a) (some b) none h k = refl
parsed_chain (some a) (some b) (some c) h k =
    ground (arith, version_flop a b, version_flop b c, version_chain c b a, version_flip c a)

zero_sign : (o : Ordering) → sign o ≡ pos 0 → o ≡ eq
zero_sign lt h = absurd (cc h)
zero_sign eq h = refl
zero_sign gt h = absurd (cc h)

version_injective : {a b : Version} → Path (Option Version) (some a) (some b) → a ≡ b
version_injective h = cc

not_both : (a b : Bool) → (a ≡ true → b ≡ false) → a && b ≡ false
not_both true b h = h refl
not_both false b h = refl

never : (a b c : Bool) → (a ≡ true → b ≡ true → c ≡ true) → (a && b) && not c ≡ false
never true true c h = ap not (h refl refl)
never true false c h = refl
never false b c h = refl

unparsed : (a b : Option Version) → newer_parsed a b && not (is_some a) ≡ false
unfolding compare_parsed
unparsed none none = refl
unparsed none (some b) = refl
unparsed (some a) none = refl
unparsed (some a) (some b) = ground arith

tie : (a b : Option Version) → (compare_parsed a b ≡ pos 0) ↔ (a ≡ b)
unfolding compare_parsed
tie none none = (λ h. refl, λ h. refl)
tie none (some b) = (λ h. absurd (cc h), λ h. absurd (cc h))
tie (some a) none = (λ h. absurd (cc h), λ h. absurd (cc h))
tie (some a) (some b) = (
  λ h. ap some (version_equal a b (zero_sign (compare_tuples a b) h)),
  λ h. rw (version_injective h) (ap sign (version_same b)),
)

-- `is_newer` is a strict order: no version is newer than itself, two are not newer than each other, and
-- newer than newer is newer. What cannot be parsed is newer than nothing, and two versions compare as
-- equal exactly if they are parsed alike.
pub newer_lem :
    (p : Patterns) (a b c : String)
    → (is_newer p a a ≡ false)
      × (is_newer p a b && is_newer p b a ≡ false)
      × ((is_newer p a b && is_newer p b c) && not (is_newer p a c) ≡ false)
      × (is_newer p a b && not (is_some (parse_version p a)) ≡ false)
      × ((compare_versions p a b ≡ pos 0) ↔ (parse_version p a ≡ parse_version p b))
unfolding is_newer compare_versions
newer_lem p a b c = (
  parsed_self (parse_version p a),
  not_both _ _ (parsed_one_way (parse_version p a) (parse_version p b)),
  never _ _ _ (parsed_chain (parse_version p a) (parse_version p b) (parse_version p c)),
  unparsed (parse_version p a) (parse_version p b),
  tie (parse_version p a) (parse_version p b),
)
