-- ===== src/Storage/Approvals.antt =====
-- The action of a chat that waits for an approval: `put_pending`, `pop_pending` and `_safe_detail` of
-- agent/storage.py.
use ai_agent_ollama.Base.{
  ==_iff, String, ◌≡◌, refl, ◌∙◌, sym, ap, inl, inr, Bool, true, false, not, ◌&&◌, ◌||◌, Option,
  none, some, List, [], ◌∷◌, ◌++◌, any, keep, str_eq, eq_refl, if◌then◌else◌, Bool-cases,
  Option-cases, concat, Result, ok, err, arith,
}
use ai_agent_ollama.Values.{ℤ, pos, negsuc, Value, Fields, str, obj, end, get_or}
use ai_agent_ollama.Errors.{Exception, other}
use ai_agent_ollama.Storage.{Storage, Pending, Texts, same, thread, find_chat, audit}

-- `args.get(key, "")` of a dict
abbrev argument : Texts → String → Fields → String
argument texts key args = texts.render (get_or args key (str ""))

-- `_safe_detail`
unfoldable pub safe_detail : Texts → Fields → String
safe_detail texts payload =
    let tool = texts.render (get_or payload "tool" (str "unknown")) in
    let otherwise = concat (tool ∷ ": approval requested" ∷ []) in
    elim (get_or payload "args" (obj end)) [
      | obj args ↦
          if str_eq tool "write_file" || str_eq tool "patch_file"
          then concat (tool ∷ ": " ∷ argument texts "path" args ∷ " (content not stored)" ∷ [])
          else if str_eq tool "run_command"
          then concat ("run_command: " ∷ texts.first_1000 (argument texts "command" args) ∷ [])
          else otherwise
      | _ ↦ otherwise
    ]

abbrev has_id : String → Pending → Bool
has_id action_id p = str_eq p.id action_id

abbrev pub not_of : ℤ → Pending → Bool
not_of chat_id p = not (same p.chat_id chat_id)

-- `put_pending`: an identifier that another chat uses breaks the primary key, and the exception rolls
-- the deletion back
unfoldable pub put_pending : Texts → String → ℤ → Fields → Storage → Result Exception Storage
unfolding safe_detail
put_pending texts action_id chat_id payload s =
    let left = keep (not_of chat_id) s.pending_actions in
    let new : Pending = record {
      id = action_id;
      chat_id = chat_id;
      payload = texts.dumps payload;
    } in
    if any (has_id action_id) left
    then err (other "IntegrityError" "UNIQUE constraint failed: pending_actions.id")
    else ok (
        audit texts chat_id "approval_requested" (safe_detail texts payload)
          (record s { pending_actions = left ++ new ∷ [] }))

-- `SELECT payload … WHERE id=? AND chat_id=?`
unfoldable pub find_pending : String → ℤ → List Pending → Option Pending
find_pending action_id chat_id [] = none
find_pending action_id chat_id (p ∷ rest) =
    if str_eq p.id action_id && same p.chat_id chat_id
    then some p
    else find_pending action_id chat_id rest

abbrev without : String → List Pending → List Pending
without action_id rows = keep (λ p. not (str_eq p.id action_id)) rows

-- what `pop_pending` does with the row: a payload that is no JSON raises, which rolls back
unfoldable pub popped :
    Texts → String → Option Pending → Storage → Result Exception (Option Value) × Storage
popped texts action_id none s = (ok none, s)
popped texts action_id (some p) s = elim (texts.loads p.payload) [
  | none ↦ (err (other "JSONDecodeError" "the payload is no JSON"), s)
  | some v ↦ (ok (some v), record s { pending_actions = without action_id s.pending_actions })
]

unfoldable pub pop_pending :
    Texts → String → ℤ → Storage → Result Exception (Option Value) × Storage
unfolding find_pending popped
pop_pending texts action_id chat_id s =
    popped texts action_id (find_pending action_id chat_id s.pending_actions) s

same_refl : (a : ℤ) → same a a ≡ true
same_refl (pos n) = (==_iff n n).1 refl
same_refl (negsuc n) = (==_iff n n).1 refl

find_own :
    (action_id : String) (chat_id : ℤ) (rows : List Pending) (q : Pending)
    → str_eq q.id action_id ≡ true
    → same q.chat_id chat_id ≡ true
    → find_pending action_id chat_id (keep (not_of chat_id) rows ++ q ∷ []) ≡ some q
unfolding find_pending
find_own action_id chat_id [] q i c = rw (i, c) refl
find_own action_id chat_id (p ∷ rest) q i c = ground (arith, find_own action_id chat_id rest q i c)

find_foreign :
    (action_id : String) (chat_id : ℤ) (rows : List Pending) (q : Pending)
    → any (has_id action_id) rows ≡ false
    → same q.chat_id chat_id ≡ false
    → find_pending action_id chat_id (rows ++ q ∷ []) ≡ none
unfolding find_pending
find_foreign action_id chat_id [] q n c = ground arith
find_foreign action_id chat_id (p ∷ rest) q n c =
    ground (arith, find_foreign action_id chat_id rest q)

find_without :
    (action_id : String) (chat_id : ℤ) (rows : List Pending)
    → find_pending action_id chat_id (without action_id rows) ≡ none
unfolding find_pending
find_without action_id chat_id [] = refl
find_without action_id chat_id (p ∷ rest) = ground (arith, find_without action_id chat_id rest)

pending-audit :
    (texts : Texts) (chat_id : ℤ) (event_type detail : String) (s : Storage)
    → (audit texts chat_id event_type detail s).pending_actions ≡ s.pending_actions
unfolding audit thread
pending-audit texts chat_id event_type detail s =
    elim (Option-cases (find_chat chat_id s.chat_state)) [
      | inl e ↦ rw (e, audit, thread) refl
      | inr (n, e) ↦ rw (e, audit, thread) refl
    ]

abbrev requested : Texts → String → ℤ → Fields → Pending
requested texts action_id chat_id payload = record {
  id = action_id;
  chat_id = chat_id;
  payload = texts.dumps payload;
}

pop_found :
    (texts : Texts) (action_id : String) (chat_id : ℤ) (s : Storage) (p : Pending) (v : Value)
    → find_pending action_id chat_id s.pending_actions ≡ some p
    → texts.loads p.payload ≡ some v
    → pop_pending texts action_id chat_id s
      ≡ (ok (some v), record s { pending_actions = without action_id s.pending_actions })
unfolding pop_pending popped
pop_found texts action_id chat_id s p v f l = rw (f, pop_pending) (rw (l, popped) refl)

pop_absent :
    (texts : Texts) (action_id : String) (chat_id : ℤ) (s : Storage)
    → find_pending action_id chat_id s.pending_actions ≡ none
    → pop_pending texts action_id chat_id s ≡ (ok none, s)
unfolding pop_pending popped
pop_absent texts action_id chat_id s f = rw (f, pop_pending) refl

value_or : {A : Type 0} → A → Result Exception A → A
value_or default (ok a) = a
value_or default (err e) = default

pub ok_injective : {A : Type 0} (x y : A) → Path (Result Exception A) (ok x) (ok y) → x ≡ y
unfolding value_or
ok_injective x y h = ap (value_or x) h

put_ok :
    (texts : Texts) (action_id : String) (chat_id : ℤ) (payload : Fields) (s after : Storage)
    → put_pending texts action_id chat_id payload s ≡ ok after
    → (any (has_id action_id) (keep (not_of chat_id) s.pending_actions) ≡ false)
      × (after.pending_actions
          ≡ keep (not_of chat_id) s.pending_actions
            ++ requested texts action_id chat_id payload ∷ [])
unfolding put_pending
put_ok texts action_id chat_id payload s after h =
    let left = keep (not_of chat_id) s.pending_actions in
    elim (Bool-cases (any (has_id action_id) left)) [
      | inl used ↦ absurd (cc (rw (used, put_pending) at h))
      | inr free ↦ (
        free,
        ap (λ x. x.pending_actions) (sym (ok_injective _ after (rw (free, put_pending) at h)))
            ∙ pending-audit texts chat_id "approval_requested" (safe_detail texts payload) _,
      )
    ]

-- An action that was put aside for a chat is handed out once, to that chat alone: the first time with
-- the payload it was stored with, if JSON reads back what it wrote, and then no more; another chat
-- gets nothing for its identifier and changes nothing.
pub pop_pending_lem :
    (texts : Texts) (action_id : String) (chat_id : ℤ) (payload : Fields) (s after : Storage)
    → put_pending texts action_id chat_id payload s ≡ ok after
    → texts.loads (texts.dumps payload) ≡ some (obj payload)
    → ((pop_pending texts action_id chat_id after).0 ≡ ok (some (obj payload)))
      × ((pop_pending texts action_id chat_id (pop_pending texts action_id chat_id after).1).0
          ≡ ok none)
      × ((foreign : ℤ)
          → same chat_id foreign ≡ false
          → pop_pending texts action_id foreign after ≡ (ok none, after))
pop_pending_lem texts action_id chat_id payload s after h l =
    let (free, rows) = put_ok texts action_id chat_id payload s after h in
    let new = requested texts action_id chat_id payload in
    let left = keep (not_of chat_id) s.pending_actions in
    let first =
      pop_found texts action_id chat_id after new (obj payload)
        (ap (find_pending action_id chat_id) rows
          ∙ find_own action_id chat_id s.pending_actions new (eq_refl action_id)
              (same_refl chat_id))
        l in
    (
      ap (λ r. r.0) first,
      ap (λ r. (pop_pending texts action_id chat_id r.1).0) first
          ∙ ap (λ r. r.0)
              (pop_absent texts action_id chat_id
                (record after { pending_actions = without action_id after.pending_actions })
                (find_without action_id chat_id after.pending_actions)),
      λ foreign n. pop_absent texts action_id foreign after (
          ap (find_pending action_id foreign) rows
          ∙ find_foreign action_id foreign left new free n),
    )
