-- ===== src/Agent/Organize/Holds.antt =====
-- That `organize_files` keeps what it is refused, and overwrites nothing.
use ai_agent_ollama.Base.{
  ℕ, String, Bool, true, false, not, ◌||◌, ◌≡◌, refl, inl, inr, List, [], ◌∷◌, if_ind, Bool-cases,
  Result-cases, Result, ok, err,
}
use ai_agent_ollama.Base.Acting.{Keeps, bind-Keeps, guarded-Keeps, lifted-Keeps}
use ai_agent_ollama.Values.{Value, truthy}
use ai_agent_ollama.Errors.{Exception}
use ai_agent_ollama.Agent.{FilePath, ToolResult}
use ai_agent_ollama.Agent.Paths.{Root, assert_not_sensitive, visible}
use ai_agent_ollama.Agent.Disk.{
  Node, Disk, same_path, same_path_eq, exists, is_dir, child, name_of, move,
}
use ai_agent_ollama.Agent.Files.{temporary, is_file}
use ai_agent_ollama.Agent.Organize.{
  children, plan, apply_all, organize_at, organize_files, destination,
}
use ai_agent_ollama.Agent.Disk.Holds.{Holds, rename-Holds, folders-Holds}
use ai_agent_ollama.Agent.Files.Holds.{allowed_apart}

module _ (r : Root) (q : FilePath) (node : Node) (reason : Exception)
    (refused : assert_not_sensitive r q ≡ err reason)
    (not_temporary : (target : FilePath) → same_path (temporary target) q ≡ false) where
  -- the operations of a plan do not name the path
  abbrev Elsewhere : List (FilePath × FilePath) → Type 0
  Elsewhere [] = Unit
  Elsewhere ((source, to) ∷ rest) =
      (same_path source q ≡ false) × (same_path to q ≡ false) × Elsewhere rest

  absent_apart :
      (p : FilePath) (disk : Disk)
      → Holds q node disk
      → exists p disk ≡ false
      → same_path p q ≡ false
  unfolding Holds
  absent_apart p disk h e = elim (Bool-cases (same_path p q)) [
    | inr apart ↦ apart
    | inl same ↦ absurd (cc (rw (same_path_eq p q same, h) at e))
  ]

  move-Holds :
      (source target : FilePath)
      → same_path source q ≡ false
      → same_path target q ≡ false
      → Keeps (Holds q node) (move source target)
  unfolding move
  move-Holds source target s t disk h =
      if_ind {A = Result Exception Unit × Disk} (λ r. Holds q node r.1) (is_dir target disk)
        (λ _.
          if_ind {A = Result Exception Unit × Disk} (λ r. Holds q node r.1)
            (exists (child target (name_of source)) disk) (λ _. h)
            (λ e.
              rename-Holds q node source (child target (name_of source)) s
                (absent_apart (child target (name_of source)) disk h e) disk h))
        (λ _. rename-Holds q node source target s t disk h)

  apply_all-Holds :
      (operations : List (FilePath × FilePath))
      → Elsewhere operations
      → Keeps (Holds q node) (apply_all operations)
  unfolding apply_all
  apply_all-Holds [] e disk h = h
  apply_all-Holds ((source, to) ∷ rest) e disk h =
      bind-Keeps (Holds q node) _ _ (folders-Holds q node _ _)
        (λ _.
          bind-Keeps (Holds q node) _ _ (move-Holds source to e.0 e.1)
            λ _. bind-Keeps (Holds q node) _ _ (apply_all-Holds rest e.2) (λ _ d k. k))
        disk h

  visible_allowed : (p : FilePath) → visible r p ≡ true → assert_not_sensitive r p ≡ ok tt
  unfolding visible
  visible_allowed p h = elim (Result-cases (assert_not_sensitive r p)) [
    | inl (tt, e) ↦ e
    | inr (x, e) ↦ absurd (cc (rw (e, visible) at h))
  ]

  shown_file : (a b : Bool) → not a || not b ≡ false → b ≡ true
  shown_file true true h = refl
  shown_file true false h = absurd (cc h)
  shown_file false b h = absurd (cc h)

  plan-Elsewhere :
      (target : FilePath) (disk : Disk) (sources : List FilePath)
      → Holds q node disk
      → Elsewhere (plan r target disk sources).0
  unfolding plan
  plan-Elsewhere target disk [] h = tt
  plan-Elsewhere target disk (source ∷ rest) h =
      let later = plan-Elsewhere target disk rest h in
      if_ind {A = List (FilePath × FilePath) × List String} (λ p. Elsewhere p.0)
        (not (is_file source disk) || not (visible r source)) (λ _. later)
        (λ seen.
          if_ind {A = List (FilePath × FilePath) × List String} (λ p. Elsewhere p.0)
            (exists (destination r target source) disk) (λ _. later)
            (λ free. (
              allowed_apart r q node reason refused not_temporary source
                  (visible_allowed source (shown_file _ _ seen)),
              absent_apart (destination r target source) disk h free,
              later,
            )))

  organize_at-Holds :
      (sorted_names : List FilePath → List FilePath) (number : ℕ → String) (target : FilePath)
      (apply : Bool)
      → Keeps (Holds q node) (organize_at r sorted_names number target apply)
  unfolding organize_at
  organize_at-Holds sorted_names number target apply disk h =
      if_ind {A = Result Exception ToolResult × Disk} (λ x. Holds q node x.1) (not apply) (λ _. h)
        (λ _.
          bind-Keeps (Holds q node)
            (apply_all (plan r target disk (sorted_names (children target disk))).0) _
            (apply_all-Holds _ (plan-Elsewhere target disk (sorted_names (children target disk)) h))
            (λ _ d k. k) disk h)

  pub organize_files-Holds :
      (sorted_names : List FilePath → List FilePath) (number : ℕ → String) (path apply : Value)
      → Keeps (Holds q node) (organize_files r sorted_names number path apply)
  unfolding organize_files
  organize_files-Holds sorted_names number path apply = lifted-Keeps (Holds q node) _ _ λ target.
      lifted-Keeps (Holds q node) _ _ λ _ disk.
        guarded-Keeps (Holds q node) _ _ _
          (organize_at-Holds sorted_names number target (truthy apply)) disk
