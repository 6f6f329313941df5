-- ===== src/Storage/History.antt =====
-- What the history of a chat holds.
use Prim.Native.String.{count}
use ai_agent_ollama.Base.{ℕ, ◌+◌, ◌≡◌, refl, inl, inr, List, [], ◌∷◌, Option-cases}
use ai_agent_ollama.Values.{ℤ}
use ai_agent_ollama.Storage.{Row, Entry, Storage, Texts, thread, find_chat, shortened}

-- the characters of a history
abbrev pub chars : List Entry → ℕ
chars [] = 0
chars (e ∷ rest) = count e.content + chars rest

module _ (texts : Texts) (max_chars : ℕ) where
  abbrev size : Row → ℕ
  size row = count (shortened texts row.content)

pub messages-thread : (chat_id : ℤ) (s : Storage) → (thread chat_id s).1.messages ≡ s.messages
unfolding thread
messages-thread chat_id s = elim (Option-cases (find_chat chat_id s.chat_state)) [
  | inl e ↦ rw (e, thread) refl
  | inr (n, e) ↦ rw (e, thread) refl
]
