-- ===== src/Storage/Isolation.antt =====
-- That the chats do not see each other's messages, and that a reset leaves none.
use ai_agent_ollama.Base.{
  ℕ, zero, suc, ==_iff, String, ◌≡◌, refl, ◌∙◌, sym, ap, inl, inr, Bool, true, false, not, some,
  List, [], ◌∷◌, ◌++◌, or_else, take, keep, keep-append, keep_drop, append-nil, Bool-cases,
  Option-cases, ok, arith,
}
use mathlib.Core.List.{reverse}
use ai_agent_ollama.Values.{ℤ, pos, negsuc}
use ai_agent_ollama.Storage.{
  Row, Storage, Texts, Table, same, thread, find_chat, set_chat, of_thread, is_role, add, reset,
  audit, select, recent, history,
}
use ai_agent_ollama.Storage.Approvals.{ok_injective}
use ai_agent_ollama.Storage.History.{messages-thread}

same_eq : (a b : ℤ) → same a b ≡ true → a ≡ b
same_eq (pos m) (pos n) h = ap pos ((==_iff m n).0 h)
same_eq (negsuc m) (negsuc n) h = ap negsuc ((==_iff m n).0 h)
same_eq (pos m) (negsuc n) h = cc
same_eq (negsuc m) (pos n) h = cc

same_self : (a : ℤ) → same a a ≡ true
same_self (pos n) = (==_iff n n).1 refl
same_self (negsuc n) = (==_iff n n).1 refl

find-set_other :
    {V : Type 0} (chat_id foreign : ℤ) (v : V) (t : Table V)
    → same chat_id foreign ≡ false
    → find_chat foreign (set_chat chat_id v t) ≡ find_chat foreign t
unfolding find_chat set_chat
find-set_other chat_id foreign v [] n = ground arith
find-set_other chat_id foreign v ((k, w) ∷ rest) n =
    ground (arith, same_eq k chat_id, find-set_other chat_id foreign v rest)

find-set_self :
    {V : Type 0} (chat_id : ℤ) (v : V) (t : Table V)
    → find_chat chat_id (set_chat chat_id v t) ≡ some v
unfolding find_chat set_chat
find-set_self chat_id v [] = ground (arith, same_self chat_id)
find-set_self chat_id v ((k, w) ∷ rest) = ground (arith, find-set_self chat_id v rest)

-- a history depends on the chat's thread and on the messages
history-rows :
    (texts : Texts) (chat_id : ℤ) (limit max_chars : ℕ) (s : Storage)
    → (history texts chat_id limit max_chars s).0
      ≡ reverse
          (select texts max_chars false 0 (recent chat_id (thread chat_id s).0 limit s.messages))
unfolding history
history-rows texts chat_id limit max_chars s =
    ap
      (λ rows.
        reverse (select texts max_chars false 0 (recent chat_id (thread chat_id s).0 limit rows)))
      (messages-thread chat_id s)

-- another chat's thread is not touched when a chat is given a row
thread-thread_other :
    (chat_id foreign : ℤ) (s : Storage)
    → same chat_id foreign ≡ false
    → find_chat foreign (thread chat_id s).1.chat_state ≡ find_chat foreign s.chat_state
unfolding thread
thread-thread_other chat_id foreign s n = elim (Option-cases (find_chat chat_id s.chat_state)) [
  | inl e ↦ rw (e, thread) (find-set_other chat_id foreign 1 s.chat_state n)
  | inr (m, e) ↦ rw (e, thread) refl
]

thread_number :
    (chat_id : ℤ) (s : Storage) → (thread chat_id s).0 ≡ or_else (find_chat chat_id s.chat_state) 1
unfolding thread
thread_number chat_id s = elim (Option-cases (find_chat chat_id s.chat_state)) [
  | inl e ↦ rw (e, thread) refl
  | inr (m, e) ↦ rw (e, thread) refl
]

same_number :
    (chat_id : ℤ) (s t : Storage)
    → find_chat chat_id s.chat_state ≡ find_chat chat_id t.chat_state
    → (thread chat_id s).0 ≡ (thread chat_id t).0
same_number chat_id s t h =
    thread_number chat_id s ∙ ap (λ o. or_else o 1) h ∙ sym (thread_number chat_id t)

-- the row that `add` writes
abbrev new_row : ℤ → String → String → Storage → Row
new_row chat_id role content s = record {
  chat_id = chat_id;
  thread = (thread chat_id s).0;
  role = role;
  content = content;
}

add_ok :
    (chat_id : ℤ) (role content : String) (s after : Storage)
    → add chat_id role content s ≡ ok after
    → (after.messages ≡ s.messages ++ new_row chat_id role content s ∷ [])
      × (after.chat_state ≡ (thread chat_id s).1.chat_state)
unfolding add
add_ok chat_id role content s after h = elim (Bool-cases (is_role role)) [
  | inr n ↦ absurd (cc (rw (n, add) at h))
  | inl y ↦
      let is = ok_injective _ after (rw (y, add) at h) in
      (
        ap (λ x. x.messages) (sym is)
            ∙ ap (λ m. m ++ new_row chat_id role content s ∷ []) (messages-thread chat_id s),
        ap (λ x. x.chat_state) (sym is),
      )
]

-- A message that is added to a chat changes no other chat's history.
pub add_elsewhere :
    (texts : Texts) (chat_id foreign : ℤ) (role content : String) (limit max_chars : ℕ)
    (s after : Storage)
    → same chat_id foreign ≡ false
    → add chat_id role content s ≡ ok after
    → (history texts foreign limit max_chars after).0 ≡ (history texts foreign limit max_chars s).0
unfolding recent
add_elsewhere texts chat_id foreign role content limit max_chars s after n h =
    let (rows, state) = add_ok chat_id role content s after h in
    let number =
      same_number foreign after s
        (ap (find_chat foreign) state ∙ thread-thread_other chat_id foreign s n) in
    let mine = of_thread foreign (thread foreign s).0 in
    let shown =
      λ (rows : List Row). reverse (select texts max_chars false 0 (take limit (reverse rows))) in
    history-rows texts foreign limit max_chars after
    ∙ ap (λ m. shown (keep (of_thread foreign m) after.messages)) number
    ∙ ap (λ r. shown (keep mine r)) rows
    ∙ ap shown (
        keep-append mine s.messages (new_row chat_id role content s ∷ [])
        ∙ ap (λ r. keep mine s.messages ++ r)
            (keep_drop mine (new_row chat_id role content s) [] (rw n refl))
        ∙ append-nil (keep mine s.messages))
    ∙ sym (history-rows texts foreign limit max_chars s)

kept_out : (p : Row → Bool) (rows : List Row) → keep p (keep (λ row. not (p row)) rows) ≡ []
kept_out p [] = refl
kept_out p (row ∷ rest) = ground (arith, kept_out p rest)

thread_known :
    (chat_id : ℤ) (s : Storage)
    → find_chat chat_id (thread chat_id s).1.chat_state ≡ some (thread chat_id s).0
unfolding thread
thread_known chat_id s = elim (Option-cases (find_chat chat_id s.chat_state)) [
  | inl e ↦ rw (e, thread) (find-set_self chat_id 1 s.chat_state)
  | inr (m, e) ↦ rw (e, thread) e
]

again_number :
    (chat_id : ℤ) (s t : Storage)
    → t.chat_state ≡ (thread chat_id s).1.chat_state
    → (thread chat_id t).0 ≡ (thread chat_id s).0
again_number chat_id s t h =
    thread_number chat_id t
    ∙ ap (λ c. or_else (find_chat chat_id c) 1) h
    ∙ ap (λ o. or_else o 1) (thread_known chat_id s)

audited :
    (texts : Texts) (chat_id : ℤ) (event_type detail : String) (t : Storage)
    → ((audit texts chat_id event_type detail t).messages ≡ t.messages)
      × ((thread chat_id (audit texts chat_id event_type detail t)).0 ≡ (thread chat_id t).0)
unfolding audit
audited texts chat_id event_type detail t =
    (messages-thread chat_id t, again_number chat_id t _ refl)

take_nothing : {A : Type 0} (n : ℕ) → Path (List A) (take n []) []
take_nothing zero = refl
take_nothing (suc n) = refl

-- After a reset the chat's history is empty.
reset_lem :
    (texts : Texts) (chat_id : ℤ) (limit max_chars : ℕ) (s : Storage)
    → (history texts chat_id limit max_chars (reset texts chat_id s)).0 ≡ []
unfolding reset recent select
reset_lem texts chat_id limit max_chars s =
    let n = (thread chat_id s).0 in
    let known = (thread chat_id s).1 in
    let cleared : Storage = record known {
      messages = keep (λ row. not (of_thread chat_id n row)) known.messages;
      pending_actions = keep (λ p. not (same p.chat_id chat_id)) known.pending_actions;
    } in
    let (rows, number) =
      audited texts chat_id "memory_reset" "the memory of this conversation was cleared" cleared in
    let shown =
      λ (rows : List Row). reverse (select texts max_chars false 0 (take limit (reverse rows))) in
    history-rows texts chat_id limit max_chars (reset texts chat_id s)
    ∙ ap (λ m. shown (keep (of_thread chat_id m) (reset texts chat_id s).messages))
        (number ∙ again_number chat_id s cleared refl)
    ∙ ap (λ r. shown (keep (of_thread chat_id n) r)) rows
    ∙ ap shown (kept_out (of_thread chat_id n) known.messages)
    ∙ ap (λ r. reverse (select texts max_chars false 0 r)) (take_nothing limit)
