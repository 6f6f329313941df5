-- ===== src/Storage.antt =====
-- agent/storage.py: what the agent of the Telegram bot keeps in SQLite, a table as the list of its
-- rows in the order of their identifiers.
pub mod History
pub mod Approvals
pub mod Isolation
mod Examples
use Prim.Native.String.{count}
use ai_agent_ollama.Base.{
  ℕ, zero, suc, ◌+◌, ◌==◌, ltb, String, Bool, true, false, not, ◌||◌, ◌&&◌, Option, none, some,
  or_else, List, [], ◌∷◌, ◌++◌, map, take, keep, str_eq, if◌then◌else◌, text_or, concat, Result, ok,
  err,
}
use mathlib.Core.List.{reverse}
use ai_agent_ollama.Values.{ℤ, pos, negsuc, Value, Fields, str, obj, end, get_or}
use ai_agent_ollama.Errors.{Exception, value_error}

abbrev pub same : ℤ → ℤ → Bool
same (pos m) (pos n) = m == n
same (negsuc m) (negsuc n) = m == n
same a b = false

-- a row of `messages`
pub record Row : Type 0 where
  pub chat_id : ℤ
  pub thread : ℕ
  pub role : String
  pub content : String

pub record Pending : Type 0 where
  pub id : String
  pub chat_id : ℤ
  pub payload : String

pub record AuditEvent : Type 0 where
  pub chat_id : ℤ
  pub thread : ℕ
  pub event_type : String
  pub detail : String

pub record Preference : Type 0 where
  pub provider : String
  pub model : String

abbrev pub Table : Type 0 → Type 0
Table V = List (ℤ × V)

pub record Storage : Type 0 where
  pub messages : List Row
  pub chat_state : Table ℕ
  pub pending_actions : List Pending
  pub chat_preferences : Table Preference
  pub audit_events : List AuditEvent

-- `SELECT … WHERE chat_id=?` on a table whose key is the chat
unfoldable pub find_chat : {V : Type 0} → ℤ → Table V → Option V
find_chat chat_id [] = none
find_chat chat_id ((key, v) ∷ rest) = if same key chat_id then some v else find_chat chat_id rest

-- `INSERT … ON CONFLICT(chat_id) DO UPDATE`
unfoldable pub set_chat : {V : Type 0} → ℤ → V → Table V → Table V
set_chat chat_id new [] = (chat_id, new) ∷ []
set_chat chat_id new ((key, v) ∷ rest) =
    let later = set_chat chat_id new rest in
    if same key chat_id then (key, new) ∷ rest else (key, v) ∷ later

-- `thread`: a chat without a row is given one
unfoldable pub thread : ℤ → Storage → ℕ × Storage
thread chat_id s = elim (find_chat chat_id s.chat_state) [
  | some n ↦ (n, s)
  | none ↦ (1, record s { chat_state = set_chat chat_id 1 s.chat_state })
]

-- `first_4000` and `first_14000` are the slices of the first characters, and `dumps` and `loads`
-- those of `json`
pub record Texts : Type 0 where
  pub first_1000 : String → String
  pub first_4000 : String → String
  pub first_14000 : String → String
  pub dumps : Fields → String
  pub loads : String → Option Value
  pub render : Value → String

unfoldable pub audit : Texts → ℤ → String → String → Storage → Storage
unfolding thread
audit texts chat_id event_type detail s =
    let (n, known) = thread chat_id s in
    record known {
      audit_events =
          known.audit_events
          ++ record {
            chat_id = chat_id;
            thread = n;
            event_type = event_type;
            detail = texts.first_4000 detail;
          }
            ∷ [];
    }

unfoldable pub next_thread : ℤ → Storage → ℕ
next_thread chat_id s = elim (find_chat chat_id s.chat_state) [ some n ↦ suc n | none ↦ 1 ]

-- `new_chat`: the first thread of a chat without a row, and else the next one; `number` writes a
-- number
unfoldable pub new_chat : Texts → (ℕ → String) → ℤ → Storage → ℕ × Storage
unfolding thread audit next_thread
new_chat texts number chat_id s =
    let counted = record s { chat_state = set_chat chat_id (next_thread chat_id s) s.chat_state } in
    let (n, known) = thread chat_id counted in
    (n, audit texts chat_id "new_thread" (concat ("thread " ∷ number n ∷ " was made" ∷ [])) known)

-- `chat_id=? AND thread=?`
abbrev pub of_thread : ℤ → ℕ → Row → Bool
of_thread chat_id n row = same row.chat_id chat_id && row.thread == n

unfoldable pub reset : Texts → ℤ → Storage → Storage
unfolding thread audit
reset texts chat_id s =
    let (n, known) = thread chat_id s in
    audit texts chat_id "memory_reset" "the memory of this conversation was cleared" (record known {
      messages = keep (λ row. not (of_thread chat_id n row)) known.messages;
      pending_actions = keep (λ p. not (same p.chat_id chat_id)) known.pending_actions;
    })

abbrev pub is_role : String → Bool
is_role role = str_eq role "system" || str_eq role "user" || str_eq role "assistant"

unfoldable pub add : ℤ → String → String → Storage → Result Exception Storage
unfolding thread
add chat_id role content s =
    let (n, known) = thread chat_id s in
    if is_role role
    then ok (record known {
      messages =
          known.messages
          ++ record { chat_id = chat_id; thread = n; role = role; content = content } ∷ [];
    })
    else err (value_error "invalid conversation role")

-- a long text is shortened for the history
unfoldable pub shortened : Texts → String → String
shortened texts content =
    if ltb 14000 (count content)
    then concat (texts.first_14000 content ∷ "\n… [shortened for the memory]" ∷ [])
    else content

pub record Entry : Type 0 where
  pub role : String
  pub content : String

abbrev pub entry : Texts → Row → Entry
entry texts row = record { role = row.role; content = shortened texts row.content }

-- the loop of `history`, newest first; `chosen` says that something was selected
unfoldable pub select : Texts → ℕ → Bool → ℕ → List Row → List Entry
select texts max_chars chosen used [] = []
select texts max_chars chosen used (row ∷ rest) =
    let size = used + count (shortened texts row.content) in
    let more = select texts max_chars true size rest in
    if chosen && ltb max_chars size then [] else entry texts row ∷ more

-- `WHERE chat_id=? AND thread=? ORDER BY id DESC LIMIT ?`
unfoldable pub recent : ℤ → ℕ → ℕ → List Row → List Row
recent chat_id n limit rows = take limit (reverse (keep (of_thread chat_id n) rows))

unfoldable pub history : Texts → ℤ → ℕ → ℕ → Storage → List Entry × Storage
unfolding thread select recent
history texts chat_id limit max_chars s =
    let (n, known) = thread chat_id s in
    (reverse (select texts max_chars false 0 (recent chat_id n limit known.messages)), known)

unfoldable pub transcript : ℤ → ℕ → Storage → List Row × Storage
unfolding thread recent
transcript chat_id limit s =
    let (n, known) = thread chat_id s in (reverse (recent chat_id n limit known.messages), known)

unfoldable pub set_preference : Texts → ℤ → String → String → Storage → Storage
unfolding audit
set_preference texts chat_id provider model s =
    audit texts chat_id "provider_changed"
      (concat ("provider: " ∷ provider ∷ " | model: " ∷ text_or model "default" ∷ []))
      (record s {
        chat_preferences =
            set_chat chat_id (record { provider = provider; model = model }) s.chat_preferences;
      })

unfoldable pub preference : ℤ → String → Storage → String × String
preference chat_id default_provider s = elim (find_chat chat_id s.chat_preferences) [
  | none ↦ (default_provider, "")
  | some p ↦ (p.provider, p.model)
]
