-- ===== src/Bridge/Chat/Window.antt =====
-- What part of the conversation the model gets.
use ai_agent_ollama.Base.{
  ℕ, suc, ◌-◌, ◌≤◌, ◌<◌, ◌≡◌, refl, ◌∙◌, ap, inl, inr, false, List, ◌∷◌, map, drop, length,
  length-map, length-drop, ltb, not_ltb→le, ltb→lt, str_eq, Bool-cases, arith, if_ind,
}
use ai_agent_ollama.Values.{Value, str, obj, field, end}
use ai_agent_ollama.Runtime.{Runtime, Message, to_openai, system_prompt, snapshot}
use ai_agent_ollama.Bridge.Chat.Model.{clipped, tail_slice, build_messages}

some_more : (k n : ℕ) → suc (suc k) < suc n → suc n - suc k ≡ suc (n - suc k)
some_more k n h = omega arith

none_less : (k n : ℕ) → suc n ≤ suc (suc k) → 0 ≡ n - suc k
none_less k n h = omega arith

within_limit : (k n m : ℕ) → m ≡ n - (n - suc k) → suc m ≤ suc (suc k)
within_limit k n m h = omega arith

module _ {ℓ} {A : Type ℓ} where
  -- the first item, and the latest ones after it
  clipped_lem :
      (k : ℕ) (x : A) (xs : List A)
      → clipped (suc (suc k)) (x ∷ xs) ≡ x ∷ drop (length xs - suc k) xs
  unfolding clipped tail_slice
  clipped_lem k x xs = elim (Bool-cases (ltb (suc (suc k)) (length (x ∷ xs)))) [
    | inl over ↦ rw over (ap (λ n. x ∷ drop n (x ∷ xs)) (some_more k (length xs) (ltb→lt _ _ over)))
    | inr fits ↦ rw fits (ap (λ n. x ∷ drop n xs) (none_less k (length xs) (not_ltb→le _ _ fits)))
  ]

  clipped-length :
      (k : ℕ) (x : A) (xs : List A) → length (clipped (suc (suc k)) (x ∷ xs)) ≤ suc (suc k)
  clipped-length k x xs =
      rw (clipped_lem k x xs) (within_limit k (length xs) _ (length-drop (length xs - suc k) xs))

exceeds : (n : ℕ) → suc (suc n) ≤ 1 → ⊥
exceeds n h = omega arith

clipped_one : {A : Type 0} (x y : A) (xs : List A) → clipped 1 (x ∷ y ∷ xs) ≡ x ∷ x ∷ y ∷ xs
unfolding clipped tail_slice
clipped_one {A} x y xs =
    if_ind {A = List A} (λ l. l ≡ x ∷ x ∷ y ∷ xs) (ltb 1 (length (x ∷ y ∷ xs))) (λ _. refl)
      (λ n. absurd (exceeds (length xs) (not_ltb→le 1 _ n)))

abbrev prompt_of : Runtime → Value
prompt_of r = obj (field "role" (str "system") (field "content" (str (system_prompt r)) end))

-- With a system prompt and a limit of two messages at least, the model gets the prompt first, after
-- it the latest messages of the conversation in their order, and no more than the limit in all.
pub build_messages_lem :
    (k : ℕ) (r : Runtime)
    → str_eq (system_prompt r) "" ≡ false
    → (build_messages (suc (suc k)) r
        ≡ obj (field "role" (str "system") (field "content" (str (system_prompt r)) end))
          ∷ drop (length (snapshot r) - suc k) (map to_openai (snapshot r)))
      × (length (build_messages (suc (suc k)) r) ≤ suc (suc k))
unfolding build_messages
build_messages_lem k r h =
    rw (h, build_messages)
      (
        clipped_lem k (prompt_of r) (map to_openai (snapshot r))
            ∙ ap (λ n. prompt_of r ∷ drop (n - suc k) (map to_openai (snapshot r)))
                (length-map to_openai (snapshot r)),
        clipped-length k (prompt_of r) (map to_openai (snapshot r)),
      )

-- With a limit of one message nothing is left out: once there is a message, the prompt is sent twice
-- and the whole conversation after it.
build_messages_one :
    (r : Runtime) (m : Message) (rest : List Message)
    → str_eq (system_prompt r) "" ≡ false
    → snapshot r ≡ m ∷ rest
    → let prompt =
        obj (field "role" (str "system") (field "content" (str (system_prompt r)) end)) in
      build_messages 1 r ≡ prompt ∷ prompt ∷ map to_openai (m ∷ rest)
unfolding build_messages
build_messages_one r m rest h s =
    rw (h, s, build_messages) (clipped_one (prompt_of r) (to_openai m) (map to_openai rest))
