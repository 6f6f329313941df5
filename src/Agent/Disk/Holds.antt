-- ===== src/Agent/Disk/Holds.antt =====
-- What keeps the entry of a path.
use ai_agent_ollama.Base.{
  ℕ, false, ◌≡◌, refl, ◌∙◌, ap, inl, inr, none, some, if◌then◌else◌, if_ind, Option-cases, Result,
}
use ai_agent_ollama.Base.Acting.{Keeps}
use ai_agent_ollama.Errors.{Exception}
use ai_agent_ollama.Agent.{FilePath}
use ai_agent_ollama.Agent.Disk.{
  Node, file, folder, Disk, same_path, look, look-put, look-remove, put, remove, is_dir,
  make_folders, unlink, rename,
}
use ai_agent_ollama.Agent.Disk.Folders.{make_folders-Keeps}

-- the entry of a path is this one
unfoldable pub Holds : FilePath → Node → Disk → Type 0
Holds q node disk = look q disk ≡ some node

module _ (q : FilePath) (node : Node) where
  pub put-Holds :
      (p : FilePath) (new : Node) (disk : Disk)
      → same_path p q ≡ false
      → Holds q node disk
      → Holds q node (put p new disk)
  unfolding Holds
  put-Holds p new disk apart h =
      look-put p q new disk ∙ ap (λ b. if b then some new else look q disk) apart ∙ h

  pub remove-Holds :
      (p : FilePath) (disk : Disk)
      → same_path p q ≡ false
      → Holds q node disk
      → Holds q node (remove p disk)
  unfolding Holds
  remove-Holds p disk apart h =
      look-remove p q disk ∙ ap (λ b. if b then none else look q disk) apart ∙ h

  pub unlink-Holds : (p : FilePath) → same_path p q ≡ false → Keeps (Holds q node) (unlink p)
  unfolding unlink
  unlink-Holds p apart disk h = elim (Option-cases (look p disk)) [
    | inl e ↦ rw (e, unlink) h
    | inr (folder, e) ↦ rw (e, unlink) h
    | inr (file text, e) ↦ rw (e, unlink) (remove-Holds p disk apart h)
  ]

  pub rename-Holds :
      (source target : FilePath)
      → same_path source q ≡ false
      → same_path target q ≡ false
      → Keeps (Holds q node) (rename source target)
  unfolding rename
  rename-Holds source target s t disk h = elim (Option-cases (look source disk)) [
    | inl e ↦ rw (e, rename) h
    | inr (moved, e) ↦
        rw (e, rename)
          (if_ind {A = Result Exception Unit × Disk} (λ r. Holds q node r.1) (is_dir target disk)
            (λ _. h)
            (λ _. put-Holds target moved (remove source disk) t (remove-Holds source disk s h)))
  ]

  pub folders-Holds : (depth : ℕ) (p : FilePath) → Keeps (Holds q node) (make_folders depth p)
  unfolding Holds
  folders-Holds depth p = make_folders-Keeps depth p q (some node) (inr (node, refl))
