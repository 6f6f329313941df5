-- ===== src/Agent/Texts/Arguments.antt =====
-- What `normalize_tool_args` leaves in each argument.
use ai_agent_ollama.Base.{
  ℕ, zero, suc, String, ◌≡◌, refl, ◌∙◌, sym, ap, inl, inr, false, Option, none, some, List, [], ◌∷◌,
  str_eq, eq_iff, eq_refl, Bool-cases, Result, ok, >>=-eq-ok, arith,
}
use ai_agent_ollama.Base.Dict.{lookup}
use ai_agent_ollama.Values.{
  Value, Fields, null, bool, int, float, str, arr, obj, other, end, field, fields,
}
use ai_agent_ollama.Errors.{Exception}
use ai_agent_ollama.Agent.Texts.{
  Words, one_of, peel, set_field, normalize_tool_text, normalize_key, normalize_keys,
  normalize_tool_args,
}

pub lookup-set_other :
    (key read : String) (new : Value) (args : Fields)
    → str_eq key read ≡ false
    → lookup read (fields (set_field key new args)) ≡ lookup read (fields args)
unfolding lookup set_field
lookup-set_other key read new end h = refl
lookup-set_other key read new (field k v rest) h =
    ground (arith, eq_iff k key, eq_iff k read, lookup-set_other key read new rest)

pub lookup-set_self :
    (key : String) (old new : Value) (args : Fields)
    → lookup key (fields args) ≡ some old
    → lookup key (fields (set_field key new args)) ≡ some new
unfolding lookup set_field
lookup-set_self key old new end h = absurd (cc h)
lookup-set_self key old new (field k v rest) h = ground (arith, lookup-set_self key old new rest)

ok_injective : {x y : Fields} → Path (Result Exception Fields) (ok x) (ok y) → x ≡ y
ok_injective h = cc

module _ (w : Words) where
  -- one key of the loop does not touch another
  normalize_key_other :
      (key read : String) (value : Option Value) (args out : Fields)
      → str_eq key read ≡ false
      → normalize_key w key value args ≡ ok out
      → lookup read (fields out) ≡ lookup read (fields args)
  unfolding normalize_key
  normalize_key_other key read none args out n h = ground arith
  normalize_key_other key read (some (str text)) args out n h = elim (Bool-cases (str_eq text "")) [
    | inl e ↦ ap (λ fs. lookup read (fields fs)) (sym (ok_injective (rw e at h)))
    | inr e ↦
        let (cleaned, _, same) =
          >>=-eq-ok (normalize_tool_text w text) (λ cleaned. ok (set_field key (str cleaned) args))
            (rw e at h) in
        ap (λ fs. lookup read (fields fs)) (sym (ok_injective same))
        ∙ lookup-set_other key read (str cleaned) args n
  ]
  normalize_key_other key read (some null) args out n h = ground arith
  normalize_key_other key read (some (bool b)) args out n h = ground arith
  normalize_key_other key read (some (int i)) args out n h = ground arith
  normalize_key_other key read (some (float x)) args out n h = ground arith
  normalize_key_other key read (some (arr xs)) args out n h = ground arith
  normalize_key_other key read (some (obj fs)) args out n h = ground arith
  normalize_key_other key read (some (other s)) args out n h = ground arith

  pub lookup-normalize_keys :
      (keys : List String) (read : String) (args out : Fields)
      → one_of keys read ≡ false
      → normalize_keys w keys args ≡ ok out
      → lookup read (fields out) ≡ lookup read (fields args)
  unfolding normalize_keys
  lookup-normalize_keys [] read args out n h = ground arith
  lookup-normalize_keys (key ∷ rest) read args out n h =
      let (between, first, later) =
        >>=-eq-ok (normalize_key w key (lookup key (fields args)) args) (normalize_keys w rest) h in
      elim (Bool-cases (str_eq key read)) [
        | inl e ↦ absurd (cc (e, n))
        | inr e ↦
            lookup-normalize_keys rest read between out (ground arith) later
            ∙ normalize_key_other key read (lookup key (fields args)) args between e first
      ]

  abbrev other_keys : List String
  other_keys = "path" ∷ "cwd" ∷ "output_path" ∷ "url" ∷ []

  -- the command is cleaned first, and the other keys leave it
  pub lookup-normalize_command :
      (args out : Fields)
      → normalize_tool_args w args ≡ ok out
      → (between : Fields) × (normalize_key w "command" (lookup "command" (fields args)) args
          ≡ ok between)
        × (lookup "command" (fields out) ≡ lookup "command" (fields between))
  unfolding normalize_tool_args normalize_keys
  lookup-normalize_command args out h =
      let (between, first, later) =
        >>=-eq-ok (normalize_key w "command" (lookup "command" (fields args)) args)
          (normalize_keys w other_keys) h in
      (between, first, lookup-normalize_keys other_keys "command" between out refl later)

  pub normalized_text :
      (args out : Fields) (text : String)
      → normalize_tool_args w args ≡ ok out
      → lookup "command" (fields args) ≡ some (str text)
      → str_eq text "" ≡ false
      → (cleaned : String) × (normalize_tool_text w text ≡ ok cleaned)
        × (lookup "command" (fields out) ≡ some (str cleaned))
  unfolding normalize_key
  normalized_text args out text h e n =
      let (between, first, later) = lookup-normalize_command args out h in
      let (cleaned, good, same) =
        >>=-eq-ok (normalize_tool_text w text) (λ c. ok (set_field "command" (str c) args))
          (rw n at (rw e at first)) in
      (
        cleaned,
        good,
        later
            ∙ ap (λ fs. lookup "command" (fields fs)) (sym (ok_injective same))
            ∙ lookup-set_self "command" (str text) (str cleaned) args e,
      )

  -- no key of the loop is this one, or its value is no text to clean
  pub unchanged_command :
      (args out : Fields)
      → normalize_tool_args w args ≡ ok out
      → normalize_key w "command" (lookup "command" (fields args)) args ≡ ok args
      → lookup "command" (fields out) ≡ lookup "command" (fields args)
  unchanged_command args out h same =
      let (between, first, later) = lookup-normalize_command args out h in
      later ∙ ap (λ fs. lookup "command" (fields fs)) (ok_injective (sym first ∙ same))

  pub peel_still :
      (step : String → String) (rounds : ℕ) (text : String)
      → step text ≡ text
      → peel step rounds text ≡ text
  unfolding peel
  peel_still step zero text h = refl
  peel_still step (suc rounds) text h = ground (arith, eq_refl text, peel_still step rounds text)
