-- ===== src/Runtime/History.antt =====
-- The history file: a new runtime over it has the messages that the old one saved.
use ai_agent_ollama.Base.{
  ℕ, String, ◌≡◌, refl, ◌⊎◌, inl, inr, Option-cases, Bool, true, Option, none, some, List, [], ◌∷◌,
  ◌++◌, ok, err,
}
use ai_agent_ollama.Base.All.{All, All-append, All-split}
use ai_agent_ollama.Runtime.Replace.{Replaces, replace_last_lem}
use ai_agent_ollama.Runtime.Compact.{compacted_lem}
use ai_agent_ollama.Values.{Value, null, truthy, obj, end, Conversions}
use ai_agent_ollama.Errors.{other}
use ai_agent_ollama.Runtime.{
  Message, Runtime, Line, json, to_dict, from_dict, lines, persist_history, emit, append, clear,
  compact, replace_last, replace_last_assistant, streamed, load_lines, start,
}

-- `from_dict` reads an empty list of calls as no calls.
abbrev pub IsStored : Message → Type 0
IsStored m = (m.tool_calls ≡ null) ⊎ (truthy m.tool_calls ≡ true)

module _ (conv : Conversions) (now : String) where
  from_dict-to_dict : (m : Message) → IsStored m → from_dict conv now (to_dict m) ≡ ok m
  unfolding from_dict to_dict
  from_dict-to_dict m (inl n) = rw (conv.as_float_float m.timestamp, n, from_dict)
  from_dict-to_dict m (inr t) = rw (conv.as_float_float m.timestamp, t, from_dict)

  load_lines-lines : (ms : List Message) → All IsStored ms → load_lines conv now (lines ms) ≡ ok ms
  unfolding load_lines
  load_lines-lines [] h = refl
  load_lines-lines (m ∷ ms) h = rw (from_dict-to_dict m h.0, load_lines-lines ms h.1)

-- The methods that change the conversation. `replace` carries what `time.time()` returns.
pub data Edit : Type 0 where
  append_message : Message → Edit
  replace : (content now : String) → Edit
  clear_all : Edit
  compact_to : (max_messages max_chars : ℕ) → Edit

abbrev pub edit : Runtime → Edit → Runtime
edit r (append_message m) = append m r
edit r (replace content now) = replace_last_assistant content now r
edit r clear_all = clear r
edit r (compact_to max_messages max_chars) = compact max_messages max_chars r

abbrev pub edit_all : Runtime → List Edit → Runtime
edit_all r [] = r
edit_all r (e ∷ es) = edit_all (edit r e) es

abbrev pub IsStoredEdit : Edit → Type 0
IsStoredEdit (append_message m) = IsStored m
IsStoredEdit _ = Unit

-- The file can be written, and holds what the runtime holds.
pub record IsSaved (r : Runtime) : Type 0 where
  pub can_write : r.writable ≡ true
  pub saved : r.file ≡ some (lines r.messages)
  pub stored : All IsStored r.messages

wrote :
    (r : Runtime)
    → r.writable ≡ true
    → persist_history r ≡ record r { file = some (lines r.messages) }
unfolding persist_history
wrote r w = simp w

persist-IsSaved :
    (r : Runtime) → r.writable ≡ true → All IsStored r.messages → IsSaved (persist_history r)
persist-IsSaved r w h = rw (wrote r w) (record { can_write = w; saved = refl; stored = h })

emit-IsSaved :
    (event : String) (payload : Value) (r : Runtime) → IsSaved r → IsSaved (emit event payload r)
unfolding emit
emit-IsSaved event payload r h = record {
  can_write = h.can_write;
  saved = h.saved;
  stored = h.stored;
}

All-replace_last :
    (new : Message) (ms after : List Message)
    → IsStored new
    → All IsStored ms
    → replace_last new ms ≡ some after
    → All IsStored after
All-replace_last new ms after n h e =
    let found : Replaces new ms after = rw e at (replace_last_lem new ms) in
    let (a, b) = All-split IsStored found.earlier (found.old ∷ found.later) (rw found.was at h) in
    rw found.becomes (All-append IsStored found.earlier (new ∷ found.later) a (n, b.1))

edit-IsSaved : (r : Runtime) (e : Edit) → IsStoredEdit e → IsSaved r → IsSaved (edit r e)
unfolding append clear compact replace_last_assistant
edit-IsSaved r (append_message m) n h =
    emit-IsSaved "message" (to_dict m) _
      (persist-IsSaved _ h.can_write (All-append IsStored r.messages (m ∷ []) h.stored (n, tt)))
edit-IsSaved r (replace content now) n h =
    let new = streamed content now in
    elim (Option-cases (replace_last new r.messages)) [
      | inl e ↦ rw (e, replace_last_assistant) h
      | inr (after, e) ↦
          rw (e, replace_last_assistant)
            (persist-IsSaved (record r { messages = after }) h.can_write
              (All-replace_last new r.messages after (inl refl) h.stored e))
    ]
edit-IsSaved r clear_all n h = emit-IsSaved "cleared" (obj end) _ (persist-IsSaved _ h.can_write tt)
edit-IsSaved r (compact_to max_messages max_chars) n h =
    let (dropped, e, _, _, _) = compacted_lem max_messages max_chars r.messages in
    persist-IsSaved _ h.can_write (All-split IsStored dropped _ (rw (← e) at h.stored)).1

edit_all-IsSaved :
    (r : Runtime) (es : List Edit) → All IsStoredEdit es → IsSaved r → IsSaved (edit_all r es)
edit_all-IsSaved r [] n h = h
edit_all-IsSaved r (e ∷ es) n h = edit_all-IsSaved (edit r e) es n.1 (edit-IsSaved r e n.0 h)

-- After any edits of a saved conversation, a new runtime over the history file that they left has
-- exactly the messages of the old one.
pub restart_lem :
    (conv : Conversions) (now path : String) (own : Option String) (r : Runtime) (es : List Edit)
    → IsSaved r
    → All IsStoredEdit es
    → start conv now path own true (edit_all r es).file
      ≡ ok (record {
        messages = (edit_all r es).messages;
        system_prompt = none;
        listeners = [];
        delivered = [];
        settings_path = path;
        own_path = own;
        writable = true;
        file = (edit_all r es).file;
      })
unfolding start
restart_lem conv now path own r es saved stored =
    let h = edit_all-IsSaved r es stored saved in
    rw (h.saved, load_lines-lines conv now (edit_all r es).messages h.stored)

abbrev pub IsObject : Value → Type 0
IsObject (obj fs) = Unit
IsObject _ = ⊥

load_fails :
    (conv : Conversions) (now : String) (ms : List Message) (v : Value) (rest : List Line)
    → All IsStored ms
    → ¬ IsObject v
    → load_lines conv now (lines ms ++ json v ∷ rest)
      ≡ err (other "AttributeError" "object has no attribute 'get'")
unfolding load_lines
load_fails conv now [] (obj fs) rest h n = absurd (n tt)
load_fails conv now [] null rest h n = unfold from_dict in refl
load_fails conv now [] _ rest h n = unfold from_dict in refl
load_fails conv now (m ∷ ms) v rest h n =
    rw (from_dict-to_dict conv now m h.0, load_fails conv now ms v rest h.1 n)

-- A line of the history file that is JSON but no object stops the start of a runtime with an
-- AttributeError, however many good messages stand before it.
start_fails :
    (conv : Conversions) (now path : String) (own : Option String) (writable : Bool)
    (ms : List Message) (v : Value) (rest : List Line)
    → All IsStored ms
    → ¬ IsObject v
    → start conv now path own writable (some (lines ms ++ json v ∷ rest))
      ≡ err (other "AttributeError" "object has no attribute 'get'")
unfolding start
start_fails conv now path own writable ms v rest h n = rw (load_fails conv now ms v rest h n)
