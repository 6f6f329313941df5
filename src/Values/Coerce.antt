-- ===== src/Values/Coerce.antt =====
-- `_coerce_value` of local_agent/actions/registry.py.
use ai_agent_ollama.Base.{◌≡◌, refl, ap}
use ai_agent_ollama.Values.{
  Value, Items, Fields, null, bool, int, float, str, arr, obj, other, nil, cons, end, field,
}

unfoldable mutual
  pub coerce_value : Value → Value
  coerce_value null = null
  coerce_value (bool b) = bool b
  coerce_value (int n) = int n
  coerce_value (float x) = float x
  coerce_value (str s) = str s
  coerce_value (arr xs) = arr (coerce_items xs)
  coerce_value (obj fs) = obj (coerce_fields fs)
  coerce_value (other s) = str s

  pub coerce_items : Items → Items
  coerce_items nil = nil
  coerce_items (cons v rest) = cons (coerce_value v) (coerce_items rest)

  pub coerce_fields : Fields → Fields
  coerce_fields end = end
  coerce_fields (field k v rest) = field k (coerce_value v) (coerce_fields rest)

-- A value that JSON can carry: no object of another class in it, at any depth.
abbrev mutual
  pub IsPlain : Value → Type 0
  IsPlain (other s) = ⊥
  IsPlain (arr xs) = ArePlain xs
  IsPlain (obj fs) = HasPlain fs
  IsPlain _ = Unit

  pub ArePlain : Items → Type 0
  ArePlain nil = Unit
  ArePlain (cons v rest) = IsPlain v × ArePlain rest

  pub HasPlain : Fields → Type 0
  HasPlain end = Unit
  HasPlain (field k v rest) = IsPlain v × HasPlain rest

mutual
  unfolding coerce_value coerce_items coerce_fields

  coerce-IsPlain : (v : Value) → IsPlain (coerce_value v)
  coerce-IsPlain (arr xs) = coerce-ArePlain xs
  coerce-IsPlain (obj fs) = coerce-HasPlain fs
  coerce-IsPlain _ = tt

  coerce-ArePlain : (xs : Items) → ArePlain (coerce_items xs)
  coerce-ArePlain nil = tt
  coerce-ArePlain (cons v rest) = (coerce-IsPlain v, coerce-ArePlain rest)

  coerce-HasPlain : (fs : Fields) → HasPlain (coerce_fields fs)
  coerce-HasPlain end = tt
  coerce-HasPlain (field k v rest) = (coerce-IsPlain v, coerce-HasPlain rest)

mutual
  unfolding coerce_value coerce_items coerce_fields

  coerce_plain : (v : Value) → IsPlain v → coerce_value v ≡ v
  coerce_plain (arr xs) h = ap arr (coerce_plain_items xs h)
  coerce_plain (obj fs) h = ap obj (coerce_plain_fields fs h)
  coerce_plain (other s) h = absurd h
  coerce_plain _ h = refl

  coerce_plain_items : (xs : Items) → ArePlain xs → coerce_items xs ≡ xs
  coerce_plain_items nil h = refl
  coerce_plain_items (cons v rest) h = cc (coerce_plain v h.0, coerce_plain_items rest h.1)

  coerce_plain_fields : (fs : Fields) → HasPlain fs → coerce_fields fs ≡ fs
  coerce_plain_fields end h = refl
  coerce_plain_fields (field k v rest) h = cc (coerce_plain v h.0, coerce_plain_fields rest h.1)

-- Coercion leaves only values that JSON can carry, and changes nothing in a value that is one.
coerce_value_lem : (v : Value) → IsPlain (coerce_value v) × (IsPlain v → coerce_value v ≡ v)
coerce_value_lem v = (coerce-IsPlain v, coerce_plain v)
