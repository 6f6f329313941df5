-- ===== src/Values.antt =====
-- The values that a tool call, a configuration file or a message carries: Python's `Any`, as far
-- as the program tells values apart.
pub mod Coerce
use ai_agent_ollama.Base.{
  ℕ, zero, suc, String, List, [], ◌∷◌, Bool, true, false, not, ◌||◌, str_eq, Option, none, some,
  ◌≡◌,
}
use ai_agent_ollama.Base.Dict.{Dict, lookup}

-- `negsuc n` is -(n + 1)
pub data ℤ : Type 0 where
  pos : ℕ → ℤ
  negsuc : ℕ → ℤ

-- A float is kept by its shortest decimal text, and an object of another class by what `str`
-- returns for it. The keys of a dict are texts, as in JSON.
mutual
  pub data Value : Type 0 where
    null : Value
    bool : Bool → Value
    int : ℤ → Value
    float : String → Value
    str : String → Value
    arr : Items → Value
    obj : Fields → Value
    other : String → Value

  pub data Fields : Type 0 where
    end : Fields
    field : String → Value → Fields → Fields

  pub data Items : Type 0 where
    nil : Items
    cons : Value → Items → Items

abbrev pub fields : Fields → Dict Value
fields end = []
fields (field k v rest) = (k, v) ∷ fields rest

abbrev pub items : Items → List Value
items nil = []
items (cons v rest) = v ∷ items rest

-- `bool(value)`: a container is true if something is in it, a number if it is not zero
unfoldable pub truthy : Value → Bool
truthy null = false
truthy (bool b) = b
truthy (int (pos zero)) = false
truthy (int n) = true
truthy (float x) = not (str_eq x "0.0" || str_eq x "-0.0")
truthy (str s) = not (str_eq s "")
truthy (arr nil) = false
truthy (arr (cons v rest)) = true
truthy (obj end) = false
truthy (obj (field k v rest)) = true
truthy (other s) = true

-- `payload.get(key, default)`
unfoldable pub get_or : Fields → String → Value → Value
unfolding lookup
get_or fs key default = elim (lookup key (fields fs)) [ none ↦ default | some v ↦ v ]

-- What Python's `str` and `float` do where the text of a value depends on more than is kept of it:
-- the text of a number or a container, and the float that a value reads as, if it reads as one.
pub record Conversions : Type 0 where
  pub render : Value → String
  pub as_float : Value → Option String
  pub as_float_float : (x : String) → as_float (float x) ≡ some x

-- `str(value)`
unfoldable pub text_of : Conversions → Value → String
text_of conv null = "None"
text_of conv (bool true) = "True"
text_of conv (bool false) = "False"
text_of conv (float x) = x
text_of conv (str s) = s
text_of conv (other s) = s
text_of conv v = conv.render v
