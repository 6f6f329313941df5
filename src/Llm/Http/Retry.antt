-- ===== src/Llm/Http/Retry.antt =====
-- How often a request is made, and which of them decides.
use ai_agent_ollama.Base.{
  ℕ, zero, suc, ◌+◌, ◌≤◌, ◌<◌, leb, le→leb, ◌≡◌, refl, ◌∙◌, ap, Bool, true, false, Option, none,
  some, Result, ok, err, arith,
}
use mathlib.Core.Path.{subst}
use ai_agent_ollama.Values.{Value}
use ai_agent_ollama.Errors.{Exception}
use ai_agent_ollama.Llm.Http.{
  Sent, timed_out, broken, response, LlmError, timeout, rate_limit, http_error, request_error,
  not_json, is_transient_status, raises, again, post_round, after_round, post_from, post_with_retry,
}

-- What is worth another attempt, and what it raises where there is none.
pub data IsPassing : Sent → LlmError → Type 0 where
  late : IsPassing timed_out timeout
  lost : (e : Exception) → IsPassing (broken e) (request_error e)
  busy :
      (status : ℕ) (body : Option Value)
      → is_transient_status status ≡ true
      → IsPassing (response status body) (rate_limit status)
  garbled :
      (status : ℕ)
      → is_transient_status status ≡ false
      → status < 400
      → IsPassing (response status none) not_json

-- What decides at once.
pub data IsFinal : Sent → Result LlmError Value → Type 0 where
  refused :
      (status : ℕ) (body : Option Value)
      → is_transient_status status ≡ false
      → 400 ≤ status
      → IsFinal (response status body) (err (http_error status))
  answered :
      (status : ℕ) (body : Value)
      → is_transient_status status ≡ false
      → status < 400
      → IsFinal (response status (some body)) (ok body)

lt→not_leb : (a b : ℕ) → a < b → leb b a ≡ false
lt→not_leb a b h = ground arith

passing_last :
    (last_exc : Option LlmError) (s : Sent) (e : LlmError)
    → IsPassing s e
    → post_round true last_exc s ≡ raises e
unfolding post_round
passing_last last_exc s e late = refl
passing_last last_exc s e (lost x) = refl
passing_last last_exc s e (busy status body t) = rw t refl
passing_last last_exc s e (garbled status t lt) = rw (t, lt→not_leb status 400 lt) refl

passing_more :
    (last_exc : Option LlmError) (s : Sent) (e : LlmError)
    → IsPassing s e
    → (x : Option LlmError) × (post_round false last_exc s ≡ again x)
unfolding post_round
passing_more last_exc s e late = (_, refl)
passing_more last_exc s e (lost x) = (_, refl)
passing_more last_exc s e (busy status body t) = (last_exc, rw t refl)
passing_more last_exc s e (garbled status t lt) =
    (some not_json, rw (t, lt→not_leb status 400 lt) refl)

final_round :
    (next : Option LlmError → Result LlmError Value × ℕ) (last : Bool) (last_exc : Option LlmError)
    (s : Sent) (r : Result LlmError Value)
    → IsFinal s r
    → after_round next (post_round last last_exc s) ≡ (r, 1)
unfolding post_round after_round
final_round next last last_exc s r (refused status body t le) = rw (t, le→leb 400 status le) refl
final_round next last last_exc s r (answered status body t lt) =
    rw (t, lt→not_leb status 400 lt) refl

plus_zero : (a : ℕ) → a + 0 ≡ a
plus_zero a = omega arith

zero_plus : (a : ℕ) → a ≡ 0 + a
zero_plus a = omega arith

plus_suc : (a j : ℕ) → a + suc j ≡ suc a + j
plus_suc a j = omega arith

below : (a k n : ℕ) → a + suc k ≤ n → a < n
below a k n h = omega arith

next_le : (a k n : ℕ) → a + suc k ≤ n → suc a + k ≤ n
next_le a k n h = omega arith

le_of_eq : (a b : ℕ) → a ≡ b → b ≤ a
le_of_eq a b h = omega arith

again_round :
    (next : Option LlmError → Result LlmError Value × ℕ) (x : Option LlmError)
    (r : Result LlmError Value) (n : ℕ)
    → next x ≡ (r, n)
    → after_round next (again x) ≡ (r, suc n)
unfolding after_round
again_round next x r n h = ap (λ q. (q.0, suc q.1)) h

module _ (sent : ℕ → Sent) (retries : ℕ) where
  -- The attempt that decides: a final one, or the last one that is allowed.
  pub data Decides (attempt : ℕ) (r : Result LlmError Value) : Type 0 where
    at_once : IsFinal (sent attempt) r → Decides attempt r
    at_last :
        (e : LlmError)
        → IsPassing (sent attempt) e
        → attempt ≡ retries
        → r ≡ err e
        → Decides attempt r

  conclusive_round :
      (next : Option LlmError → Result LlmError Value × ℕ) (attempt : ℕ)
      (last_exc : Option LlmError) (r : Result LlmError Value)
      → Decides attempt r
      → after_round next (post_round (leb retries attempt) last_exc (sent attempt)) ≡ (r, 1)
  unfolding after_round
  conclusive_round next attempt last_exc r (at_once f) = final_round next _ last_exc _ r f
  conclusive_round next attempt last_exc r (at_last e p end_ is) =
      rw (le→leb retries attempt (le_of_eq attempt retries end_))
        (rw (passing_last last_exc (sent attempt) e p, is) refl)

  post_from_lem :
      (k attempt left : ℕ) (last_exc : Option LlmError) (r : Result LlmError Value)
      → k < left
      → attempt + k ≤ retries
      → ((j : ℕ) → j < k → (e : LlmError) × IsPassing (sent (attempt + j)) e)
      → Decides (attempt + k) r
      → post_from sent retries left attempt last_exc ≡ (r, suc k)
  unfolding post_from
  post_from_lem k attempt zero last_exc r lt le passing d = absurd (omega (arith, lt))
  post_from_lem zero attempt (suc left) last_exc r lt le passing d =
      conclusive_round _ attempt last_exc r (rw (plus_zero attempt) at d)
  post_from_lem (suc k) attempt (suc left) last_exc r lt le passing d =
      let (e, p) = passing 0 (omega arith) in
      let (x, more) =
        passing_more last_exc (sent attempt) e
          (subst (λ n. IsPassing (sent n) e) (plus_zero attempt) p) in
      let rest =
        post_from_lem k (suc attempt) left x r (omega (arith, lt)) (next_le attempt k retries le)
          (λ j h.
            let (f, q) = passing (suc j) (omega (arith, h)) in
            (f, subst (λ n. IsPassing (sent n) f) (plus_suc attempt j) q))
          (subst (λ n. Decides n r) (plus_suc attempt k) d) in
      ap
        (λ b.
          after_round (post_from sent retries left (suc attempt))
            (post_round b last_exc (sent attempt)))
        (lt→not_leb attempt retries (below attempt k retries le))
      ∙ ap (after_round (post_from sent retries left (suc attempt))) more
      ∙ again_round (post_from sent retries left (suc attempt)) x r (suc k) rest

  -- The requests go on as long as they time out, fail, or meet a status that passes or a body that is
  -- no JSON; the first that does not, or else the last one allowed, decides the result; and no
  -- request is made after it. With `k` up to `retries` there are `k + 1` requests.
  pub post_with_retry_lem :
      (k : ℕ) (r : Result LlmError Value)
      → k ≤ retries
      → ((j : ℕ) → j < k → (e : LlmError) × IsPassing (sent j) e)
      → Decides k r
      → post_with_retry sent retries ≡ (r, suc k)
  unfolding post_with_retry
  post_with_retry_lem k r le passing d =
      post_from_lem k 0 (suc retries) none r (omega (arith, le)) (omega (arith, le))
        (λ j h. let (e, p) = passing j h in (e, subst (λ n. IsPassing (sent n) e) (zero_plus j) p))
        (subst (λ n. Decides n r) (zero_plus k) d)
