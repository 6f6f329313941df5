-- ===== src/Runtime/Replace.antt =====
-- `replace_last_assistant` replaces the last message of the assistant and nothing else.
use ai_agent_ollama.Base.{
  ◌≡◌, refl, ap, true, false, Option, none, some, List, [], ◌∷◌, ◌++◌, str_eq, Bool-cases, inl, inr,
}
use ai_agent_ollama.Base.All.{All}
use ai_agent_ollama.Runtime.{Message, replace_last}

abbrev pub IsOther : Message → Type 0
IsOther m = str_eq m.role "assistant" ≡ false

-- `after` is `before` with the last message of the assistant replaced by `new`.
pub record Replaces (new : Message) (before after : List Message) : Type 0 where
  pub earlier : List Message
  pub old : Message
  pub later : List Message
  pub was : before ≡ earlier ++ old ∷ later
  pub by_assistant : str_eq old.role "assistant" ≡ true
  pub last : All IsOther later
  pub becomes : after ≡ earlier ++ new ∷ later

-- What the search from the end came to.
abbrev pub Replacement : Message → List Message → Option (List Message) → Type 0
Replacement new before none = All IsOther before
Replacement new before (some after) = Replaces new before after

step :
    (new m : Message) (ms : List Message) (r : Option (List Message))
    → replace_last new ms ≡ r
    → Replacement new ms r
    → Replacement new (m ∷ ms) (replace_last new (m ∷ ms))
unfolding replace_last
step new m ms (some after) e h =
    rw (e, replace_last)
      (record {
        earlier = m ∷ h.earlier;
        old = h.old;
        later = h.later;
        was = ap (λ l. m ∷ l) h.was;
        by_assistant = h.by_assistant;
        last = h.last;
        becomes = ap (λ l. m ∷ l) h.becomes;
      })
step new m ms none e h = elim (Bool-cases (str_eq m.role "assistant")) [
  | inl yes_it_is ↦
      rw (e, yes_it_is, replace_last)
        (record {
          earlier = [];
          old = m;
          later = ms;
          was = refl;
          by_assistant = yes_it_is;
          last = h;
          becomes = refl;
        })
  | inr other ↦ rw (e, other, replace_last) (other, h)
]

-- The search replaces the last message of the assistant, and finds none only where there is none.
pub replace_last_lem :
    (new : Message) (before : List Message) → Replacement new before (replace_last new before)
unfolding replace_last
replace_last_lem new [] = tt
replace_last_lem new (m ∷ ms) = step new m ms (replace_last new ms) refl (replace_last_lem new ms)
