-- ===== src/Llm/Replies/Fragments.antt =====
-- That the fragments of interleaved tool calls are put together by their index.
use Prim.Native.String
use ai_agent_ollama.Base.{
  ℕ, ◌==◌, ==_iff, String, ◌≡◌, refl, ◌∙◌, sym, ap, true, false, List, [], ◌∷◌, map, if◌then◌else◌,
  concat, keep, keep_pass, keep_drop, Bool-cases, arith, inl, inr,
}
use text.Mathlib.TextLemmas.{append_assoc, append-nil}
use ai_agent_ollama.Llm.Replies.Stream.{
  Slot, Fragment, Partial, slot_at, put_slot, grown, merge, merge_all,
}

slot-put :
    (i j : ℕ) (new : Slot) (partial : Partial)
    → slot_at i (put_slot j new partial) ≡ (if j == i then new else slot_at i partial)
unfolding slot_at put_slot
slot-put i j new [] = refl
slot-put i j new ((k, s) ∷ rest) = ground (arith, slot-put i j new rest)

slot-merge_self :
    (f : Fragment) (partial : Partial)
    → slot_at f.index (merge f partial) ≡ grown f (slot_at f.index partial)
unfolding merge
slot-merge_self f partial =
    slot-put f.index f.index (grown f (slot_at f.index partial)) partial
    ∙ rw ((==_iff f.index f.index).1 refl) refl

slot-merge_ne :
    (i : ℕ) (f : Fragment) (partial : Partial)
    → (f.index == i) ≡ false
    → slot_at i (merge f partial) ≡ slot_at i partial
unfolding merge
slot-merge_ne i f partial n =
    slot-put i f.index (grown f (slot_at f.index partial)) partial ∙ rw n refl

-- the arguments that the fragments of one index carry, put together
abbrev pub written : ℕ → List Fragment → String
written i fs = concat (map (λ f. f.arguments) (keep (λ f. f.index == i) fs))

grown_arguments :
    (i : ℕ) (f : Fragment) (partial : Partial)
    → (f.index == i) ≡ true
    → (slot_at i (merge f partial)).arguments
      ≡ String.◌++◌ (slot_at i partial).arguments f.arguments
unfolding grown
grown_arguments i f partial same =
    rw (sym ((==_iff f.index i).0 same)) (ap (λ s. s.arguments) (slot-merge_self f partial))

-- However the fragments of several calls are interleaved, the arguments of the call with an index
-- are what was there and then those of the fragments with that index, in their order, and nothing of
-- another call.
pub merge_all_lem :
    (i : ℕ) (fs : List Fragment) (partial : Partial)
    → (slot_at i (merge_all fs partial)).arguments
      ≡ String.◌++◌ (slot_at i partial).arguments (written i fs)
unfolding merge_all
merge_all_lem i [] partial = sym (append-nil (slot_at i partial).arguments)
merge_all_lem i (f ∷ rest) partial = elim (Bool-cases (f.index == i)) [
  | inl same ↦
      merge_all_lem i rest (merge f partial)
      ∙ ap (λ s. String.◌++◌ s (written i rest)) (grown_arguments i f partial same)
      ∙ append_assoc (slot_at i partial).arguments f.arguments (written i rest)
      ∙ ap (λ l. String.◌++◌ (slot_at i partial).arguments (concat (map (λ g. g.arguments) l)))
          (sym (keep_pass (λ g. g.index == i) f rest same))
  | inr other ↦
      merge_all_lem i rest (merge f partial)
      ∙ ap (λ s. String.◌++◌ s.arguments (written i rest)) (slot-merge_ne i f partial other)
      ∙ ap (λ l. String.◌++◌ (slot_at i partial).arguments (concat (map (λ g. g.arguments) l)))
          (sym (keep_drop (λ g. g.index == i) f rest other))
]
