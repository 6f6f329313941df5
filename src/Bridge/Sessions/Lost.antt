-- ===== src/Bridge/Sessions/Lost.antt =====
-- What happens to a session that is opened while `max_sessions` others are live.
use ai_agent_ollama.Base.{
  ℕ, zero, suc, ◌-◌, ◌≤◌, ◌<◌, String, ◌≡◌, refl, false, not, none, some, [], ◌∷◌, ◌++◌, ltb,
  lt→ltb, length, length-append, keep, keep-append, or_else, Bool-cases, inl, inr, arith, str_eq,
}
use ai_agent_ollama.Base.All.{All}
use ai_agent_ollama.Base.Dict.{lookup, insert_new, erase_last}
use ai_agent_ollama.Bridge.Sessions.{
  Session, Sessions, max_sessions, session_timeout_seconds, is_stale, use_time, least, oldest,
  evict, close_stale_sessions, touch, open_session, runtime_for,
}
use ai_agent_ollama.Bridge.Sessions.Bound.{least_less, least_more}

-- A session that was used, at a time after the start of the clock, and has not timed out.
abbrev pub IsLive : {R : Type 0} → ℕ → String × Session R → Type 0
IsLive now entry =
    (0 < use_time entry.1) × (now - or_else entry.1.last_used now ≤ session_timeout_seconds)

module _ {R : Type 0} (now : ℕ) where
  not_stale : (entry : String × Session R) → IsLive now entry → is_stale now entry ≡ false
  unfolding is_stale
  not_stale entry h = ground arith

  keep_live :
      (sessions : Sessions R)
      → All (IsLive now) sessions
      → keep (λ entry. not (is_stale now entry)) sessions ≡ sessions
  keep_live [] h = refl
  keep_live (e ∷ es) h = ground (arith, not_stale e h.0, keep_live es h.1)

  evict_few :
      (fuel : ℕ) (sessions : Sessions R)
      → length sessions ≤ max_sessions
      → evict fuel sessions ≡ sessions
  unfolding evict
  evict_few zero sessions h = refl
  evict_few (suc fuel) sessions h = ground arith

  close_stale_live :
      (sessions : Sessions R)
      → All (IsLive now) sessions
      → length sessions ≤ max_sessions
      → close_stale_sessions now sessions ≡ sessions
  unfolding close_stale_sessions
  close_stale_live sessions h few = rw (keep_live sessions h) (evict_few _ sessions few)

  abbrev unused : R → Session R
  unused new = record { runtime = new; last_used = none }

  -- a session without the attribute is older than every other
  least-unused :
      (sid best : String) (used : ℕ) (new : R) (rest : Sessions R)
      → 0 < used
      → All (IsLive now) rest
      → least best used (rest ++ (sid, unused new) ∷ []) ≡ sid
  least-unused sid best used new [] pos h = unfold least in ground arith
  least-unused sid best used new ((k, s) ∷ rest) pos h = elim (Bool-cases (ltb (use_time s) used)) [
    | inl less ↦
        rw (least_less best k used s _ less) (least-unused sid k (use_time s) new rest h.0.0 h.1)
    | inr more ↦ rw (least_more best k used s _ more) (least-unused sid best used new rest pos h.1)
  ]

  oldest-unused :
      (sid : String) (new : R) (sessions : Sessions R)
      → 0 < length sessions
      → All (IsLive now) sessions
      → oldest (sessions ++ (sid, unused new) ∷ []) ≡ sid
  unfolding oldest
  oldest-unused sid new [] some_there h = absurd (omega arith)
  oldest-unused sid new ((k, s) ∷ rest) some_there h =
      least-unused sid k (use_time s) new rest h.0.0 h.1

  evict-unused :
      (fuel : ℕ) (sid : String) (new : R) (sessions : Sessions R)
      → length sessions ≡ max_sessions
      → All (IsLive now) sessions
      → lookup sid sessions ≡ none
      → evict (suc fuel) (sessions ++ (sid, unused new) ∷ []) ≡ sessions
  unfolding evict
  evict-unused fuel sid new sessions full h absent = ground (
    arith,
    length-append sessions ((sid, unused new) ∷ []),
    oldest-unused sid new sessions,
    erase_last sid (unused new) sessions absent,
    evict_few fuel sessions,
  )

  keep-unused :
      (sid : String) (new : R) (sessions : Sessions R)
      → All (IsLive now) sessions
      → keep (λ entry. not (is_stale now entry)) (sessions ++ (sid, unused new) ∷ [])
        ≡ sessions ++ (sid, unused new) ∷ []
  keep-unused sid new sessions h =
      rw (keep-append, keep_live sessions h) (unfold is_stale in ground arith)

  length_added :
      (sid : String) (new : R) (sessions : Sessions R)
      → length sessions ≡ max_sessions
      → length (sessions ++ (sid, unused new) ∷ []) ≡ suc max_sessions
  length_added sid new sessions full =
      omega (arith, length-append sessions ((sid, unused new) ∷ []))

  close_stale_added :
      (sid : String) (new : R) (sessions : Sessions R)
      → length sessions ≡ max_sessions
      → All (IsLive now) sessions
      → lookup sid sessions ≡ none
      → close_stale_sessions now (sessions ++ (sid, unused new) ∷ []) ≡ sessions
  unfolding close_stale_sessions
  close_stale_added sid new sessions full h absent =
      rw (keep-unused sid new sessions h, length_added sid new sessions full)
        (evict-unused max_sessions sid new sessions full h absent)

  open_lost :
      (sid : String) (new : R) (sessions : Sessions R)
      → length sessions ≡ max_sessions
      → All (IsLive now) sessions
      → lookup sid sessions ≡ none
      → open_session sid now new sessions ≡ sessions
  unfolding open_session
  open_lost sid new sessions full h absent =
      let added = sessions ++ (sid, unused new) ∷ [] in
      rw
        (
          close_stale_live sessions h (omega arith),
          insert_new sid (unused new) sessions absent,
          close_stale_added sid new sessions full h absent,
        )
        (rw
          (lt→ltb max_sessions (length added) (omega (arith, length_added sid new sessions full))))

  touch_absent :
      (sid : String) (sessions : Sessions R)
      → lookup sid sessions ≡ none
      → touch sid now sessions ≡ sessions
  unfolding touch
  touch_absent sid sessions e = rw (e, touch)

-- With `max_sessions` sessions live, a session that is not among them is dropped as soon as it is
-- opened: the request gets a runtime of its own, and the sessions are left as they were, though
-- the oldest of them should have made place.
pub new_session_lost :
    {R : Type 0} (sid : String) (now : ℕ) (default new : R) (sessions : Sessions R)
    → str_eq sid "" ≡ false
    → str_eq sid "default" ≡ false
    → length sessions ≡ max_sessions
    → All (IsLive now) sessions
    → lookup sid sessions ≡ none
    → runtime_for (some sid) now default new sessions ≡ (new, sessions)
unfolding runtime_for
new_session_lost sid now default new sessions n d full h absent =
    ground
      (arith, open_lost now sid new sessions full h absent, touch_absent now sid sessions absent)
