-- ===== src/Runtime/Compact.antt =====
-- `compact` keeps the longest run of recent messages that fits the budget.
use Prim.Native.String.{count}
use mathlib.Core.List.{append_assoc}
use ai_agent_ollama.Base.{
  ℕ, ◌-◌, ◌≤◌, ◌≡◌, refl, ap, ◌⊎◌, inl, inr, List, [], ◌∷◌, ◌++◌, length, length-append, ltb,
  ltb→lt, Bool-cases, arith, ◌&&◌, ◌∙◌,
}
use ai_agent_ollama.Runtime.{Message, total_chars, drop_over, shrink, compacted}

-- What is left is a suffix of what was there.
abbrev IsSuffix : List Message → List Message → Type 0
IsSuffix kept messages = (dropped : List Message) × (dropped ++ kept ≡ messages)

module _ (limit : ℕ) where
  drop_over-suffix : (ms : List Message) → IsSuffix (drop_over limit ms) ms
  unfolding drop_over
  drop_over-suffix [] = ([], refl)
  drop_over-suffix (m ∷ ms) = elim (Bool-cases (ltb limit (length (m ∷ ms)))) [
    | inl over ↦ let (d, e) = drop_over-suffix ms in (m ∷ d, rw over (ap (λ l. m ∷ l) e))
    | inr fits ↦ ([], rw fits)
  ]

  drop_over-length : (ms : List Message) → length (drop_over limit ms) ≤ limit
  unfolding drop_over
  drop_over-length [] = omega arith
  drop_over-length (m ∷ ms) = ground (arith, drop_over-length ms)

  -- a suffix that is short enough is a suffix of what is left
  drop_over-keeps :
      (ms pre suf : List Message)
      → pre ++ suf ≡ ms
      → length suf ≤ limit
      → IsSuffix suf (drop_over limit ms)
  unfolding drop_over
  drop_over-keeps [] pre suf e h = (pre, e)
  drop_over-keeps (m ∷ ms) [] suf e h = elim (Bool-cases (ltb limit (length (m ∷ ms)))) [
    | inl over ↦ absurd (omega (arith, ap length e, ltb→lt _ _ over))
    | inr fits ↦ ([], rw fits e)
  ]
  drop_over-keeps (m ∷ ms) (p ∷ pre) suf e h = elim (Bool-cases (ltb limit (length (m ∷ ms)))) [
    | inl over ↦ rw over (drop_over-keeps ms pre suf (cc) h)
    | inr fits ↦ (p ∷ pre, rw fits e)
  ]

module _ (limit : ℕ) where
  shrink-suffix : (total : ℕ) (ms : List Message) → IsSuffix (shrink limit total ms) ms
  unfolding shrink
  shrink-suffix total [] = ([], refl)
  shrink-suffix total (m ∷ ms) = elim (Bool-cases (ltb limit total && ltb 1 (length (m ∷ ms)))) [
    | inl over ↦
        let (d, e) = shrink-suffix (total - count m.content) ms in
        (m ∷ d, rw over (ap (λ l. m ∷ l) e))
    | inr fits ↦ ([], rw fits)
  ]

  shrink-fits :
      (total : ℕ) (ms : List Message)
      → total ≡ total_chars ms
      → (total_chars (shrink limit total ms) ≤ limit) ⊎ (length (shrink limit total ms) ≤ 1)
  unfolding shrink total_chars
  shrink-fits total [] e = inr (omega arith)
  shrink-fits total (m ∷ ms) e = ground (arith, shrink-fits (total - count m.content) ms)

  shrink-longest :
      (total : ℕ) (ms pre suf : List Message)
      → total ≡ total_chars ms
      → pre ++ suf ≡ ms
      → total_chars suf ≤ limit
      → length suf ≤ length (shrink limit total ms)
  unfolding shrink total_chars
  shrink-longest total [] pre suf t e h = omega (arith, ap length e, length-append pre suf)
  shrink-longest total (m ∷ ms) [] suf t e h = ground (arith, ap total_chars e, ap length e)
  shrink-longest total (m ∷ ms) (p ∷ pre) suf t e h =
      let e' : pre ++ suf ≡ ms = cc in
      ground (
        arith,
        shrink-longest (total - count m.content) ms pre suf,
        e',
        ap length e,
        length-append pre suf,
      )

-- `compact` drops oldest messages alone; what it keeps has at most `max_messages` messages, and at
-- most `max_chars` characters unless it is a single message; and no run of recent messages that
-- fits both limits is longer than what it keeps.
pub compacted_lem :
    (max_messages max_chars : ℕ) (ms : List Message)
    → (dropped : List Message) × (dropped ++ compacted max_messages max_chars ms ≡ ms)
      × (length (compacted max_messages max_chars ms) ≤ max_messages)
      × ((total_chars (compacted max_messages max_chars ms) ≤ max_chars)
          ⊎ (length (compacted max_messages max_chars ms) ≤ 1))
      × ((pre suf : List Message)
          → pre ++ suf ≡ ms
          → length suf ≤ max_messages
          → total_chars suf ≤ max_chars
          → length suf ≤ length (compacted max_messages max_chars ms))
unfolding compacted
compacted_lem max_messages max_chars ms =
    let recent = drop_over max_messages ms in
    let (d, e) = drop_over-suffix max_messages ms in
    let (d', e') = shrink-suffix max_chars (total_chars recent) recent in
    (
      d ++ d',
      append_assoc d d' _ ∙ ap (λ l. d ++ l) e' ∙ e,
      omega (
        arith,
        drop_over-length max_messages ms,
        ap length e',
        length-append d' (shrink max_chars (total_chars recent) recent),
      ),
      shrink-fits max_chars (total_chars recent) recent refl,
      λ pre suf whole few short.
          let (pre', kept) = drop_over-keeps max_messages ms pre suf whole few in
          shrink-longest max_chars (total_chars recent) recent pre' suf refl kept short,
    )
