-- ===== src/Actions/Names.antt =====
-- The registry as a map from names to actions.
use ai_agent_ollama.Base.{String, ◌≡◌, ◌↔◌, false, some, eq_iff, eq_refl, ok, arith}
use ai_agent_ollama.Base.Dict.{lookup, insert, contains, lookup-insert}
use ai_agent_ollama.Actions.{Action, Registry, register, get}

get_iff :
    {W : Type 0} (name : String) (registry : Registry W) (action : Action W)
    → (get name registry ≡ ok action) ↔ (lookup name registry ≡ some action)
unfolding get
get_iff name registry action = ground arith

module _ {W : Type 0} (action : Action W) (registry : Registry W) where
  register_ok :
      {after : Registry W}
      → register action registry ≡ ok after
      → (contains action.name registry ≡ false) × (after ≡ insert action.name action registry)
  unfolding register
  register_ok h = ground arith

  -- A registration that succeeds adds the action under its name, and every action that was
  -- found before is found as before.
  register_keeps :
      {after : Registry W}
      → register action registry ≡ ok after
      → (get action.name after ≡ ok action)
        × ((name : String) (old : Action W) → get name registry ≡ ok old → get name after ≡ ok old)
  register_keeps h =
      let (free, e) = register_ok h in
      (
        (get_iff action.name _ action).1 (rw (e, lookup-insert, eq_refl)),
        λ name old g. (get_iff name _ old).1 (
            rw (e, lookup-insert)
              (ground (arith, eq_iff action.name name, (get_iff name registry old).0 g))),
      )
