-- ===== src/Bridge/Sessions/Bound.antt =====
-- The cap on the live sessions.
use ai_agent_ollama.Base.{
  ℕ, zero, suc, ◌≤◌, String, ◌≡◌, true, false, Option, none, List, [], ◌∷◌, ltb, length, or_else,
  Bool-cases, Option-cases, inl, inr, arith, eq_refl,
}
use ai_agent_ollama.Base.Dict.{
  lookup, insert, erase, contains, length-erase-lt, length-insert_old, contains_later,
  contains_apart,
}
use ai_agent_ollama.Bridge.Sessions.{
  Session, Sessions, max_sessions, use_time, least, oldest, evict, close_stale_sessions, touch,
  open_session, runtime_for,
}

-- one of the two calls that change the sessions
pub data SessionCall (R : Type 0) : Type 0 where
  asked : (session_id : Option String) (now : ℕ) (new : R) → SessionCall R
  swept : (now : ℕ) → SessionCall R

module _ {R : Type 0} where
  pub least_less :
      (best sid : String) (used : ℕ) (s : Session R) (rest : Sessions R)
      → ltb (use_time s) used ≡ true
      → least best used ((sid, s) ∷ rest) ≡ least sid (use_time s) rest
  unfolding least
  least_less best sid used s rest h = rw h

  pub least_more :
      (best sid : String) (used : ℕ) (s : Session R) (rest : Sessions R)
      → ltb (use_time s) used ≡ false
      → least best used ((sid, s) ∷ rest) ≡ least best used rest
  unfolding least
  least_more best sid used s rest h = rw h

  -- the session that is dropped is there
  contains-least :
      (best : String) (used : ℕ) (rest : Sessions R) (s : Session R)
      → contains (least best used rest) ((best, s) ∷ rest) ≡ true
  contains-least best used [] s = unfold lookup least in rw eq_refl
  contains-least best used ((sid, s') ∷ rest) s = elim (Bool-cases (ltb (use_time s') used)) [
    | inl less ↦
        rw (least_less best sid used s' rest less)
          (contains_later _ best s _ (contains-least sid (use_time s') rest s'))
    | inr more ↦
        rw (least_more best sid used s' rest more)
          (contains_apart _ best sid s s' rest (contains-least best used rest s))
  ]

  evict-length :
      (fuel : ℕ) (sessions : Sessions R)
      → length sessions ≤ fuel
      → length (evict fuel sessions) ≤ max_sessions
  unfolding evict
  evict-length zero sessions h = omega arith
  evict-length (suc fuel) [] h = ground arith
  evict-length (suc fuel) ((sid, s) ∷ rest) h =
      let gone : contains (oldest ((sid, s) ∷ rest)) ((sid, s) ∷ rest) ≡ true =
        unfold oldest in contains-least sid (use_time s) rest s in
      ground (
        arith,
        evict-length fuel (erase (oldest ((sid, s) ∷ rest)) ((sid, s) ∷ rest)),
        length-erase-lt (oldest ((sid, s) ∷ rest)) ((sid, s) ∷ rest) gone,
      )

  pub close_stale_sessions-length :
      (now : ℕ) (sessions : Sessions R) → length (close_stale_sessions now sessions) ≤ max_sessions
  unfolding close_stale_sessions
  close_stale_sessions-length now sessions = evict-length _ _ (omega arith)

  length-touch :
      (sid : String) (now : ℕ) (sessions : Sessions R)
      → length (touch sid now sessions) ≡ length sessions
  unfolding touch
  length-touch sid now sessions = elim (Option-cases (lookup sid sessions)) [
    | inl e ↦ rw (e, touch)
    | inr (s, e) ↦ rw (e, touch) (length-insert_old sid _ sessions (rw e))
  ]

  open_session-length :
      (sid : String) (now : ℕ) (new : R) (sessions : Sessions R)
      → length (open_session sid now new sessions) ≤ max_sessions
  unfolding open_session
  open_session-length sid now new sessions =
      let added =
        insert sid (record { runtime = new; last_used = none })
          (close_stale_sessions now sessions) in
      ground (arith, close_stale_sessions-length now added)

  runtime_for-length :
      (session_id : Option String) (now : ℕ) (default new : R) (sessions : Sessions R)
      → length sessions ≤ max_sessions
      → length (runtime_for session_id now default new sessions).1 ≤ max_sessions
  unfolding runtime_for
  runtime_for-length session_id now default new sessions h =
      let sid = or_else session_id "default" in
      ground (
        arith,
        length-touch sid now sessions,
        length-touch sid now (open_session sid now new sessions),
        open_session-length sid now new sessions,
      )

  -- the sessions after some calls
  abbrev pub after_calls : R → List (SessionCall R) → Sessions R → Sessions R
  after_calls default [] sessions = sessions
  after_calls default (asked session_id now new ∷ rest) sessions =
      after_calls default rest (runtime_for session_id now default new sessions).1
  after_calls default (swept now ∷ rest) sessions =
      after_calls default rest (close_stale_sessions now sessions)

  still_bounded :
      (default : R) (calls : List (SessionCall R)) (sessions : Sessions R)
      → length sessions ≤ max_sessions
      → length (after_calls default calls sessions) ≤ max_sessions
  still_bounded default [] sessions h = h
  still_bounded default (asked session_id now new ∷ rest) sessions h =
      still_bounded default rest (runtime_for session_id now default new sessions).1
        (runtime_for-length session_id now default new sessions h)
  still_bounded default (swept now ∷ rest) sessions h =
      still_bounded default rest (close_stale_sessions now sessions)
        (close_stale_sessions-length now sessions)

  -- Whatever calls of `_runtime_for` and `_close_stale_sessions` are made from the start on, at any
  -- times, there are never more than `max_sessions` sessions.
  pub sessions_bounded :
      (default : R) (calls : List (SessionCall R))
      → length (after_calls default calls []) ≤ max_sessions
  sessions_bounded default calls = still_bounded default calls [] (omega arith)
