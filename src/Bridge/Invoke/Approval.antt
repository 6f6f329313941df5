-- ===== src/Bridge/Invoke/Approval.antt =====
-- That an action which has to be confirmed runs only if the front ends approve that very request.
use ai_agent_ollama.Base.{
  String, ◌≡◌, refl, ◌∙◌, ap, inl, inr, Bool, true, false, Option, none, some, is_some, or_else,
  List, [], ◌∷◌, ◌||◌, str_eq, eq_iff, eq_refl, if◌then◌else◌, if_false, Result, ok, Bool-cases,
  Option-cases, arith,
}
use ai_agent_ollama.Base.Dict.{lookup, insert, lookup-insert}
use ai_agent_ollama.Values.{Fields, fields}
use ai_agent_ollama.Errors.{Exception}
use ai_agent_ollama.Actions.{Context, Action, Registry, needs_confirmation, get}
use ai_agent_ollama.Bridge.Artifacts.{Files}
use ai_agent_ollama.Bridge.Invoke.{
  ActionResult, PendingConfirmation, Bridge, failed, new_request, say, request,
  resolve_confirmation, resolve_all, decide, invoke_in, invoke_action_sync,
  invoke_with_bridge_confirmation,
}

-- the last answer that was given to a request
abbrev pub last_answer : String → List (String × Bool) → Option Bool
last_answer request_id [] = none
last_answer request_id ((k, approved) ∷ rest) = elim (last_answer request_id rest) [
  | some later ↦ some later
  | none ↦ if str_eq k request_id then some approved else none
]

-- a pending request after these answers
abbrev with_answers : String → List (String × Bool) → PendingConfirmation → PendingConfirmation
with_answers request_id [] p = p
with_answers request_id ((k, approved) ∷ rest) p =
    with_answers request_id rest
      (if str_eq k request_id then record p { approved = approved; decided = true } else p)

or_false : (b : Bool) → (b || false) ≡ b
or_false true = refl
or_false false = refl

with_answers_lem :
    (request_id : String) (answers : List (String × Bool)) (p : PendingConfirmation)
    → ((with_answers request_id answers p).approved
        ≡ or_else (last_answer request_id answers) p.approved)
      × ((with_answers request_id answers p).decided
          ≡ (is_some (last_answer request_id answers) || p.decided))
with_answers_lem request_id [] p = (refl, refl)
with_answers_lem request_id ((k, approved) ∷ rest) p = ground (
  arith,
  with_answers_lem request_id rest p,
  with_answers_lem request_id rest (record p { approved = approved; decided = true }),
)

module _ {W : Type 0} where
  context-resolve :
      (k : String) (approved : Bool) (b : Bridge W)
      → (resolve_confirmation k approved b).1.context ≡ b.context
  unfolding resolve_confirmation say
  context-resolve k approved b = elim (Option-cases (lookup k b.pending)) [
    | inl e ↦ rw (e, resolve_confirmation)
    | inr (p, e) ↦ rw (e, resolve_confirmation)
  ]

  context-resolve_all :
      (answers : List (String × Bool)) (b : Bridge W) → (resolve_all answers b).context ≡ b.context
  unfolding resolve_all
  context-resolve_all [] b = refl
  context-resolve_all ((k, approved) ∷ rest) b =
      context-resolve_all rest (resolve_confirmation k approved b).1 ∙ context-resolve k approved b

  resolve_absent :
      (k : String) (approved : Bool) (b : Bridge W)
      → lookup k b.pending ≡ none
      → (resolve_confirmation k approved b).1.pending ≡ b.pending
  unfolding resolve_confirmation
  resolve_absent k approved b e = rw (e, resolve_confirmation)

  resolve_present :
      (k : String) (approved : Bool) (b : Bridge W) (q : PendingConfirmation)
      → lookup k b.pending ≡ some q
      → (resolve_confirmation k approved b).1.pending
        ≡ insert k (record q { approved = approved; decided = true }) b.pending
  unfolding resolve_confirmation say
  resolve_present k approved b q e = rw (e, resolve_confirmation)

  pending-resolve :
      (request_id k : String) (approved : Bool) (b : Bridge W) (p : PendingConfirmation)
      → lookup request_id b.pending ≡ some p
      → lookup request_id (resolve_confirmation k approved b).1.pending
        ≡ some (if str_eq k request_id then record p { approved = approved; decided = true } else p)
  pending-resolve request_id k approved b p h = elim (Bool-cases (str_eq k request_id)) [
    | inl same ↦
        ap (lookup request_id) (
          resolve_present k approved b p
            (ap (λ x. lookup x b.pending) ((eq_iff k request_id).0 same) ∙ h))
        ∙ lookup-insert k request_id _ b.pending
        ∙ rw same refl
    | inr apart ↦ elim (Option-cases (lookup k b.pending)) [
      | inl e ↦ ap (lookup request_id) (resolve_absent k approved b e) ∙ rw apart h
      | inr (q, e) ↦
          ap (lookup request_id) (resolve_present k approved b q e)
          ∙ lookup-insert k request_id _ b.pending
          ∙ rw apart h
    ]
  ]

  pending-resolve_all :
      (request_id : String) (answers : List (String × Bool)) (b : Bridge W)
      (p : PendingConfirmation)
      → lookup request_id b.pending ≡ some p
      → lookup request_id (resolve_all answers b).pending ≡ some (with_answers request_id answers p)
  unfolding resolve_all
  pending-resolve_all request_id [] b p h = h
  pending-resolve_all request_id ((k, approved) ∷ rest) b p h =
      pending-resolve_all request_id rest (resolve_confirmation k approved b).1 _
        (pending-resolve request_id k approved b p h)

-- what the answers to a request make of it: without one it is refused when the wait ends
abbrev pub answered :
    {W : Type 0}
    → Files
    → Registry W
    → String
    → Fields
    → Option Bool
    → Context W
    → Result Exception ActionResult × Context W
answered fs registry name arguments none context =
    (ok (failed name "confirmation timed out (defaulting to refuse)" true none), context)
answered fs registry name arguments (some false) context =
    (ok (failed name "user declined via bridge" true none), context)
answered fs registry name arguments (some true) context =
    invoke_action_sync fs registry
      (record { name = name; arguments = arguments; auto_confirm = true }) context

module _ {W : Type 0} (fs : Files) (registry : Registry W) where
  decide_lem :
      (request_id name : String) (arguments : Fields) (p : PendingConfirmation)
      (answer : Option Bool) (b : Bridge W)
      → p.approved ≡ or_else answer false
      → p.decided ≡ is_some answer
      → ((decide fs registry request_id name arguments (some p) b).0
          ≡ (answered fs registry name arguments answer b.context).0)
        × ((decide fs registry request_id name arguments (some p) b).1.context
            ≡ (answered fs registry name arguments answer b.context).1)
  unfolding decide invoke_in
  decide_lem request_id name arguments p none b a d = rw d (refl, refl)
  decide_lem request_id name arguments p (some false) b a d = rw (a, d) (refl, refl)
  decide_lem request_id name arguments p (some true) b a d = rw (a, d) (refl, refl)

  asks :
      (request_id : String) (answers : List (String × Bool)) (name : String) (arguments : Fields)
      (run_id : String) (b : Bridge W) (action : Action W)
      → get name registry ≡ ok action
      → needs_confirmation action b.context.safety (fields arguments) ≡ true
      → b.context.gate.auto_approve_all ≡ false
      → let asked = resolve_all answers (request action request_id name arguments run_id b) in
        invoke_with_bridge_confirmation fs registry request_id answers name arguments run_id b
        ≡ decide fs registry request_id name arguments (lookup request_id asked.pending) asked
  unfolding invoke_with_bridge_confirmation
  asks request_id answers name arguments run_id b action found needs gate =
      rw (found, needs, invoke_with_bridge_confirmation) (if_false _ _ _ gate)

  waits :
      (request_id : String) (answers : List (String × Bool)) (name : String) (arguments : Fields)
      (run_id : String) (b : Bridge W) (action : Action W)
      → lookup request_id
          (resolve_all answers (request action request_id name arguments run_id b)).pending
        ≡ some (with_answers request_id answers (new_request request_id name arguments run_id))
  unfolding request say
  waits request_id answers name arguments run_id b action =
      pending-resolve_all request_id answers (request action request_id name arguments run_id b) _
        (lookup-insert request_id request_id _ b.pending ∙ rw (eq_refl request_id) refl)

  context-asked :
      (request_id : String) (answers : List (String × Bool)) (name : String) (arguments : Fields)
      (run_id : String) (b : Bridge W) (action : Action W)
      → (resolve_all answers (request action request_id name arguments run_id b)).context
        ≡ b.context
  unfolding request say
  context-asked request_id answers name arguments run_id b action =
      context-resolve_all answers (request action request_id name arguments run_id b)

  -- An action that has to be confirmed, while nothing is approved beforehand, runs exactly if the
  -- last answer to its own request, whose identifier was not in use, is an approval: the result
  -- and the context are then those of an invocation with `auto_confirm`. Without an answer, or
  -- with a refusal, the result is a refusal and the context is untouched, whatever the answers to
  -- other requests.
  pub bridge_confirmation_lem :
      (request_id : String) (answers : List (String × Bool)) (name : String) (arguments : Fields)
      (run_id : String) (b : Bridge W) (action : Action W)
      → get name registry ≡ ok action
      → needs_confirmation action b.context.safety (fields arguments) ≡ true
      → b.context.gate.auto_approve_all ≡ false
      → ((invoke_with_bridge_confirmation fs registry request_id answers name arguments run_id b).0
          ≡ (answered fs registry name arguments (last_answer request_id answers) b.context).0)
        × ((invoke_with_bridge_confirmation fs registry request_id answers name arguments run_id
              b).1.context
            ≡ (answered fs registry name arguments (last_answer request_id answers) b.context).1)
  bridge_confirmation_lem request_id answers name arguments run_id b action found needs gate =
      let asked = resolve_all answers (request action request_id name arguments run_id b) in
      let waiting =
        with_answers request_id answers (new_request request_id name arguments run_id) in
      let (approved, decided) =
        with_answers_lem request_id answers (new_request request_id name arguments run_id) in
      let run =
        asks request_id answers name arguments run_id b action found needs gate
        ∙ ap (λ w. decide fs registry request_id name arguments w asked)
            (waits request_id answers name arguments run_id b action) in
      let (result, after) =
        decide_lem request_id name arguments waiting (last_answer request_id answers) asked approved
          (decided ∙ or_false _) in
      let same = context-asked request_id answers name arguments run_id b action in
      let outcome = answered fs registry name arguments (last_answer request_id answers) in
      (
        ap (λ r. r.0) run ∙ result ∙ ap (λ c. (outcome c).0) same,
        ap (λ r. r.1.context) run ∙ after ∙ ap (λ c. (outcome c).1) same,
      )
