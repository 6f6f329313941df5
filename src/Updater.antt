-- ===== src/Updater.antt =====
-- local_agent/desktop/updater.py: how versions are compared.
pub mod Order
pub mod Check
pub mod Cooldown
mod Examples
use Prim.Native.Nat.{Ordering, compare}
use Prim.Native.Nat.Ordering.{lt, eq, gt}
use Prim.Native.String.{compare as compare_text}
use ai_agent_ollama.Base.{
  ℕ, zero, suc, String, Bool, true, false, Option, none, some, or_else, List, [], ◌∷◌, str_eq,
  if◌then◌else◌,
}
use ai_agent_ollama.Base.Dict.{Dict, lookup}
use ai_agent_ollama.Values.{ℤ, pos, negsuc}

-- the groups of `_VERSION_RE`, the numbers read by `int`; `pre` is empty where there is none
pub record Groups : Type 0 where
  pub major : ℕ
  pub minor : Option ℕ
  pub patch : Option ℕ
  pub pre : String

-- `matched` is `_VERSION_RE.match`, `lower` is `lower`, and `word` the letters that a label begins with
pub record Patterns : Type 0 where
  pub matched : String → Option Groups
  pub lower : String → String
  pub word : String → Option String

pub record Version : Type 0 where
  pub major : ℕ
  pub minor : ℕ
  pub patch : ℕ
  pub rank : ℕ
  pub label : String

abbrev pre_order : Dict ℕ
pre_order =
    ("dev", 0) ∷ ("alpha", 1) ∷ ("a", 1) ∷ ("beta", 2) ∷ ("b", 2) ∷ ("rc", 3) ∷ ("pre", 3) ∷ []

-- `_PRE_ORDER.get(label.group(0) if label else "", 0)`
unfoldable pub pre_rank : Option String → ℕ
unfolding lookup
pre_rank label = or_else (lookup (or_else label "") pre_order) 0

unfoldable pub version_of : Patterns → Groups → Version
unfolding pre_rank
version_of p g =
    let pre = p.lower g.pre in
    let final = str_eq pre "" in
    record {
      major = g.major;
      minor = or_else g.minor 0;
      patch = or_else g.patch 0;
      rank = if final then 4 else pre_rank (p.word pre);
      label = pre;
    }

unfoldable pub parse_version : Patterns → String → Option Version
unfolding version_of
parse_version p value =
    if str_eq value ""
    then none
    else elim (p.matched value) [ none ↦ none | some g ↦ some (version_of p g) ]

-- the order of pairs
abbrev pub lex : Ordering → Ordering → Ordering
lex lt second = lt
lex eq second = second
lex gt second = gt

-- Python's order of tuples
unfoldable pub compare_tuples : Version → Version → Ordering
compare_tuples a b = lex (compare a.major b.major) (
    lex (compare a.minor b.minor)
      (lex (compare a.patch b.patch) (lex (compare a.rank b.rank) (compare_text a.label b.label))))

-- `(a > b) - (a < b)`
abbrev pub sign : Ordering → ℤ
sign lt = negsuc 0
sign eq = pos 0
sign gt = pos 1

unfoldable pub compare_parsed : Option Version → Option Version → ℤ
unfolding compare_tuples
compare_parsed none none = pos 0
compare_parsed none (some b) = negsuc 0
compare_parsed (some a) none = pos 1
compare_parsed (some a) (some b) = sign (compare_tuples a b)

unfoldable pub compare_versions : Patterns → (left right : String) → ℤ
unfolding parse_version compare_parsed
compare_versions p left right = compare_parsed (parse_version p left) (parse_version p right)

abbrev pub positive : ℤ → Bool
positive (pos zero) = false
positive (pos (suc n)) = true
positive (negsuc n) = false

unfoldable pub is_newer : Patterns → (candidate current : String) → Bool
unfolding compare_versions
is_newer p candidate current = positive (compare_versions p candidate current)
