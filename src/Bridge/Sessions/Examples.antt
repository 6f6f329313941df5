-- ===== src/Bridge/Sessions/Examples.antt =====
-- Twenty live sessions, and one request more.
use ai_agent_ollama.Base.{
  ℕ, zero, suc, ◌≤◌, String, ◌≡◌, refl, some, List, [], ◌∷◌, length, arith, concat,
}
use ai_agent_ollama.Base.Dict.{lookup}
use ai_agent_ollama.Bridge.Sessions.{Sessions, max_sessions, runtime_for}
use ai_agent_ollama.Bridge.Sessions.Bound.{SessionCall, asked, swept, after_calls, sessions_bounded}
use ai_agent_ollama.Bridge.Sessions.Lost.{new_session_lost}

abbrev name : ℕ → String
name zero = "s"
name (suc n) = concat (name n ∷ "x" ∷ [])

-- used at the seconds 1 to n
abbrev live : ℕ → Sessions ℕ
live zero = []
live (suc n) = (name n, record { runtime = n; last_used = some (suc n) }) ∷ live n

-- calls for some sessions
abbrev calls : ℕ → List (SessionCall ℕ)
calls zero = swept 100 ∷ []
calls (suc n) = asked (some (name n)) n n ∷ calls n

sessions_bounded_example : length (after_calls 0 (calls 25) []) ≤ max_sessions
sessions_bounded_example = sessions_bounded 0 (calls 25)

new_session_lost_example : runtime_for (some "new") 100 0 99 (live 20) ≡ (99, live 20)
unfolding lookup
new_session_lost_example =
    new_session_lost "new" 100 0 99 (live 20) refl refl refl (omega arith) refl
