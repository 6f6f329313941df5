-- ===== src/Base/Dict.antt =====
-- A Python dict with text keys: an association list in insertion order. Assignment to a key that
-- is there keeps its place, as in Python.
use Prim.Native.Nat.{◌+◌, ◌≤◌}
use Prim.Native.String.{String}
use ai_agent_ollama.Base.Tests.{if◌then◌else◌, is_some}
use ai_agent_ollama.Base.Lists.{length}
use mathlib.Core.Bool.{Bool, true}
use mathlib.Core.Path.{◌≡◌, refl}
use mathlib.Core.Option.{Option, none, some}
use mathlib.Core.List.{List, [], ◌∷◌, ◌++◌}
use native.Mathlib.Omega.{arith}
use text.Mathlib.Text.{◌==◌}
use text.Mathlib.TextEquality.{eq_iff}

abbrev pub Dict {ℓ} : Type ℓ → Type ℓ
Dict V = List (String × V)

module _ {ℓ} {V : Type ℓ} where
  -- `d.get(key)`
  unfoldable pub lookup : String → Dict V → Option V
  lookup key [] = none
  lookup key ((other, value) ∷ rest) = if other == key then some value else lookup key rest

  unfoldable pub insert : String → V → Dict V → Dict V
  insert key new [] = (key, new) ∷ []
  insert key new ((other, value) ∷ rest) =
      if other == key then (other, new) ∷ rest else (other, value) ∷ insert key new rest

  -- `m.pop(k, None)`, on a dict whose keys differ
  unfoldable pub erase : String → Dict V → Dict V
  erase k [] = []
  erase k ((j, v) ∷ m) = let rest = erase k m in if j == k then rest else (j, v) ∷ rest

  abbrev pub contains : String → Dict V → Bool
  contains k m = is_some (lookup k m)

  unfoldable pub keys : Dict V → List String
  keys [] = []
  keys ((k, v) ∷ m) = k ∷ keys m

  unfoldable pub values : Dict V → List V
  values [] = []
  values ((k, v) ∷ m) = v ∷ values m

  pub lookup-insert :
      (written read : String) (new : V) (d : Dict V)
      → lookup read (insert written new d) ≡ (if written == read then some new else lookup read d)
  unfolding lookup insert
  lookup-insert written read new [] = refl
  lookup-insert written read new ((other, value) ∷ rest) = ground (
    arith,
    lookup-insert written read new rest,
    eq_iff other read,
    eq_iff other written,
    eq_iff written read,
  )

  pub lookup-erase :
      (k j : String) (m : Dict V) → lookup j (erase k m) ≡ (if k == j then none else lookup j m)
  unfolding lookup erase
  lookup-erase k j [] = ground arith
  lookup-erase k j ((i, w) ∷ m) =
      ground (arith, eq_iff k j, eq_iff i k, eq_iff i j, lookup-erase k j m)

  pub length-insert-le : (k : String) (v : V) (m : Dict V) → length (insert k v m) ≤ length m + 1
  unfolding insert
  length-insert-le k v [] = omega arith
  length-insert-le k v ((j, w) ∷ m) = ground (arith, length-insert-le k v m)

  pub length-erase-le : (k : String) (m : Dict V) → length (erase k m) ≤ length m
  unfolding erase
  length-erase-le k [] = omega arith
  length-erase-le k ((j, w) ∷ m) = ground (arith, length-erase-le k m)

  -- a key that is there is one entry at least
  pub length-erase-lt :
      (k : String) (m : Dict V) → contains k m ≡ true → length (erase k m) + 1 ≤ length m
  unfolding lookup erase
  length-erase-lt k [] h = ground arith
  length-erase-lt k ((j, w) ∷ m) h = ground (arith, length-erase-lt k m, length-erase-le k m)

  pub contains_later :
      (k j : String) (v : V) (m : Dict V) → contains k m ≡ true → contains k ((j, v) ∷ m) ≡ true
  unfolding lookup
  contains_later k j v m h = ground arith

  pub contains_apart :
      (k i j : String) (u v : V) (m : Dict V)
      → contains k ((i, u) ∷ m) ≡ true
      → contains k ((i, u) ∷ (j, v) ∷ m) ≡ true
  unfolding lookup
  contains_apart k i j u v m h = ground arith

  pub length-insert_old :
      (k : String) (v : V) (m : Dict V) → contains k m ≡ true → length (insert k v m) ≡ length m
  unfolding lookup insert
  length-insert_old k v [] h = cc
  length-insert_old k v ((j, w) ∷ m) h = ground (arith, length-insert_old k v m)

  -- a pop of what is not there changes nothing
  pub erase_absent : (k : String) (m : Dict V) → lookup k m ≡ none → erase k m ≡ m
  unfolding lookup erase
  erase_absent k [] h = refl
  erase_absent k ((j, w) ∷ m) h = ground (arith, erase_absent k m)

  pub erase_last :
      (k : String) (v : V) (m : Dict V) → lookup k m ≡ none → erase k (m ++ (k, v) ∷ []) ≡ m
  unfolding lookup erase
  erase_last k v [] h = ground (arith, eq_iff k k)
  erase_last k v ((j, w) ∷ m) h = ground (arith, erase_last k v m)

  pub insert_new :
      (k : String) (v : V) (m : Dict V) → lookup k m ≡ none → insert k v m ≡ m ++ (k, v) ∷ []
  unfolding lookup insert
  insert_new k v [] h = refl
  insert_new k v ((j, w) ∷ m) h = ground (arith, insert_new k v m)

pub ruleset dict_laws = (lookup-insert, lookup-erase)
