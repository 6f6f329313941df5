-- ===== src/Bridge/Sessions.antt =====
-- `_runtime_for` and `_close_stale_sessions` of local_agent/bridge/api/handlers.py: the live chat
-- sessions, their cap and their timeout. Times are those of `time.monotonic`, in whole seconds.
pub mod Bound
pub mod Lost
mod Examples
use ai_agent_ollama.Base.{
  ℕ, zero, suc, ◌+◌, ◌-◌, ◌*◌, String, Bool, true, false, not, ◌||◌, Option, none, some, List, [],
  ◌∷◌, str_eq, ltb, length, keep, if◌then◌else◌, or_else,
}
use ai_agent_ollama.Base.Dict.{Dict, lookup, insert, erase, contains}

abbrev pub max_sessions : ℕ
max_sessions = 20

abbrev pub session_timeout_seconds : ℕ
session_timeout_seconds = 24 * 3600

-- A runtime with its attribute `_last_used`, which a new one lacks.
pub record Session (R : Type 0) : Type 0 where
  pub runtime : R
  pub last_used : Option ℕ

abbrev pub Sessions : Type 0 → Type 0
Sessions R = Dict (Session R)

module _ {R : Type 0} where
  unfoldable pub is_stale : ℕ → String × Session R → Bool
  is_stale now entry = ltb session_timeout_seconds (now - or_else entry.1.last_used now)

  -- the key of `min`: 0 for a runtime without the attribute
  abbrev pub use_time : Session R → ℕ
  use_time s = or_else s.last_used 0

  -- `min(sessions, key=…)`: the first of those with the least key
  unfoldable pub least : String → ℕ → Sessions R → String
  least best used [] = best
  least best used ((sid, s) ∷ rest) =
      least (if ltb (use_time s) used then sid else best)
        (if ltb (use_time s) used then use_time s else used) rest

  unfoldable pub oldest : Sessions R → String
  unfolding least
  oldest [] = ""
  oldest ((sid, s) ∷ rest) = least sid (use_time s) rest

  -- `while len(sessions) > MAX_SESSIONS`, on fuel: each round drops a session
  unfoldable pub evict : ℕ → Sessions R → Sessions R
  evict zero sessions = sessions
  evict (suc fuel) sessions =
      let rest = evict fuel (erase (oldest sessions) sessions) in
      if ltb max_sessions (length sessions) then rest else sessions

  unfoldable pub close_stale_sessions : ℕ → Sessions R → Sessions R
  close_stale_sessions now sessions =
      let live = keep (λ entry. not (is_stale now entry)) sessions in evict (length live) live

  -- `runtime._last_used = now`, seen through the dict
  unfoldable pub touch : String → ℕ → Sessions R → Sessions R
  touch sid now sessions = elim (lookup sid sessions) [
    | none ↦ sessions
    | some s ↦ insert sid (record s { last_used = some now }) sessions
  ]

  -- the branch of an unknown session
  unfoldable pub open_session : String → ℕ → R → Sessions R → Sessions R
  open_session sid now new sessions =
      let live = close_stale_sessions now sessions in
      let added = insert sid (record { runtime = new; last_used = none }) live in
      if ltb max_sessions (length added) then close_stale_sessions now added else added

  -- `default` is `self.runtime`, and `new` the runtime that is made over the session's history file.
  unfoldable pub runtime_for : Option String → ℕ → R → R → Sessions R → R × Sessions R
  runtime_for session_id now default new sessions =
      let sid = or_else session_id "default" in
      if str_eq sid "" || str_eq sid "default"
      then (default, sessions)
      else elim (lookup sid sessions) [
        | some s ↦ (s.runtime, touch sid now sessions)
        | none ↦ (new, touch sid now (open_session sid now new sessions))
      ]
