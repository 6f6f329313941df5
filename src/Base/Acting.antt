-- ===== src/Base/Acting.antt =====
-- A Python function that changes a state and may raise: what it changed before it raised stays.
use ai_agent_ollama.Base.Raising.{Result, ok, err}
use ai_agent_ollama.Base.Tests.{if◌then◌else◌, if_ind}
use mathlib.Core.Path.{◌≡◌}
use mathlib.Core.Bool.{Bool, true, false}

abbrev pub Act {ℓ} : Type ℓ → Type ℓ → Type ℓ → Type ℓ
Act S E A = S → Result E A × S

abbrev pub continue {ℓ} : {S E A B : Type ℓ} → Result E A × S → (A → Act S E B) → Result E B × S
continue (ok value, s) next = next value s
continue (err raised, s) next = (err raised, s)

infixl 5 ◌>>=◌ ◌>>◌
unfoldable pub ◌>>=◌ {ℓ} : {S E A B : Type ℓ} → Act S E A → (A → Act S E B) → Act S E B
(m >>= next) s = continue (m s) next

abbrev pub ◌>>◌ {ℓ} : {S E A B : Type ℓ} → Act S E A → Act S E B → Act S E B
m >> k = m >>= λ _. k

abbrev pub give {ℓ} : {S E A : Type ℓ} → A → Act S E A
give value s = (ok value, s)

abbrev pub raise {ℓ} : {S E A : Type ℓ} → E → Act S E A
raise e s = (err e, s)

-- a step that may raise and changes nothing
abbrev pub lift {ℓ} : {S E A : Type ℓ} → Result E A → Act S E A
lift r s = (r, s)

abbrev pub modify {ℓ} : {S E : Type ℓ} → (S → S) → Act S E (Unit {ℓ})
modify f s = (ok tt, f s)

-- `if test: raise e`
unfoldable pub guard {ℓ} : {S E : Type ℓ} → Bool → E → Act S E (Unit {ℓ})
guard true e = raise e
guard false e = give tt

-- `try: m … except: handler`, where the handler raises again what it does not name
abbrev pub handled {ℓ} : {S E A : Type ℓ} → Result E A × S → (E → Act S E A) → Result E A × S
handled (ok value, s) handler = (ok value, s)
handled (err raised, s) handler = handler raised s

unfoldable pub rescue {ℓ} : {S E A : Type ℓ} → Act S E A → (E → Act S E A) → Act S E A
rescue m handler s = handled (m s) handler

-- `try: m … finally: last`
abbrev pub finished {ℓ} : {S E A : Type ℓ} → Result E A → Result E (Unit {ℓ}) × S → Result E A × S
finished r (ok _, s) = (r, s)
finished r (err raised, s) = (err raised, s)

unfoldable pub finally {ℓ} : {S E A : Type ℓ} → Act S E A → Act S E (Unit {ℓ}) → Act S E A
finally m last s = finished (m s).0 (last (m s).1)

-- What a computation keeps, whether it returns or raises.
module _ {ℓ κ} {S E : Type ℓ} (P : S → Type κ) where
  abbrev pub Keeps : {A : Type ℓ} → Act S E A → Type (ℓ ⊔ κ)
  Keeps m = (s : S) → P s → P (m s).1

  pub continue-Keeps :
      {A B : Type ℓ} (r : Result E A × S) (next : A → Act S E B)
      → P r.1
      → ((value : A) → Keeps (next value))
      → P (continue r next).1
  continue-Keeps (ok value, s) next h k = k value s h
  continue-Keeps (err raised, s) next h k = h

  pub bind-Keeps :
      {A B : Type ℓ} (m : Act S E A) (next : A → Act S E B)
      → Keeps m
      → ((value : A) → Keeps (next value))
      → Keeps (m >>= next)
  unfolding ◌>>=◌
  bind-Keeps m next h k s p = continue-Keeps (m s) next (h s p) k

  pub handled-Keeps :
      {A : Type ℓ} (r : Result E A × S) (handler : E → Act S E A)
      → P r.1
      → ((raised : E) → Keeps (handler raised))
      → P (handled r handler).1
  handled-Keeps (ok value, s) handler h k = h
  handled-Keeps (err raised, s) handler h k = k raised s h

  pub rescue-Keeps :
      {A : Type ℓ} (m : Act S E A) (handler : E → Act S E A)
      → Keeps m
      → ((raised : E) → Keeps (handler raised))
      → Keeps (rescue m handler)
  unfolding rescue
  rescue-Keeps m handler h k s p = handled-Keeps (m s) handler (h s p) k

  pub guard-Keeps : (test : Bool) (e : E) → Keeps (guard test e)
  unfolding guard
  guard-Keeps true e s p = p
  guard-Keeps false e s p = p

  finished-Keeps :
      {A : Type ℓ} (r : Result E A) (end : Result E (Unit {ℓ}) × S) → P end.1 → P (finished r end).1
  finished-Keeps r (ok _, s) h = h
  finished-Keeps r (err raised, s) h = h

  pub finally-Keeps :
      {A : Type ℓ} (m : Act S E A) (last : Act S E (Unit {ℓ}))
      → Keeps m
      → Keeps last
      → Keeps (finally m last)
  unfolding finally
  finally-Keeps m last h k s p = finished-Keeps (m s).0 (last (m s).1) (k (m s).1 (h s p))

  -- the steps that change nothing
  pub guarded-Keeps :
      {A : Type ℓ} (test : Bool) (e : E) (next : Act S E A)
      → Keeps next
      → Keeps (guard test e >> next)
  guarded-Keeps test e next k = bind-Keeps (guard test e) (λ _. next) (guard-Keeps test e) (λ _. k)

  pub lifted-Keeps :
      {A B : Type ℓ} (r : Result E A) (next : A → Act S E B)
      → ((value : A) → Keeps (next value))
      → Keeps (lift r >>= next)
  lifted-Keeps r next k = bind-Keeps (lift r) next (λ s p. p) k

  pub if-Keeps :
      {A : Type ℓ} (test : Bool) (m n : Act S E A)
      → (test ≡ true → Keeps m)
      → (test ≡ false → Keeps n)
      → Keeps (if test then m else n)
  if-Keeps test m n h k = if_ind Keeps test h k
