-- ===== src/FileActions/Holds.antt =====
-- What the steps of the file actions leave as it is.
use ai_agent_ollama.Base.{
  String, Bool, true, false, not, ◌&&◌, ◌||◌, ◌≡◌, refl, sym, ◌∙◌, ap, inl, inr, none, some,
  is_some, [], ◌∷◌, ◌++◌, eq_refl, if◌then◌else◌, if_ind, Bool-cases, Option-cases, Result, arith,
}
use ai_agent_ollama.Base.Acting.{Keeps, guarded-Keeps}
use ai_agent_ollama.Errors.{Exception}
use ai_agent_ollama.Agent.{FilePath}
use ai_agent_ollama.Agent.Paths.{relative_to}
use ai_agent_ollama.Agent.Disk.{
  Node, file, Disk, same_path, same_path_eq, look, is_dir, child, parent,
}
use ai_agent_ollama.Agent.Disk.Holds.{Holds, put-Holds, unlink-Holds}
use ai_agent_ollama.Cleanup.{under, prune}
use ai_agent_ollama.Cleanup.Spares.{look-prune, under_trans}
use ai_agent_ollama.FileActions.{
  Drive, temporary, write_bytes, append_bytes, rmtree, delete_at, moved_to, relocate, move,
}

-- a path in a folder and the folder of it
under-parent :
    (root p : FilePath)
    → under root p ≡ true
    → same_path root p ≡ false
    → under root (parent p) ≡ true
unfolding relative_to same_path
under-parent [] p h k = refl
under-parent (a ∷ root) [] h k = h
under-parent (a ∷ []) (b ∷ []) h k = absurd (ground arith)
under-parent (a ∷ c ∷ root) (b ∷ []) h k = absurd (ground arith)
under-parent (a ∷ root) (b ∷ c ∷ p) h k = ground (arith, under-parent root (c ∷ p))

-- what is in the folder of a path is in each folder that has that folder
under_append :
    (root p : FilePath) (name : String) → under root p ≡ true → under root (child p name) ≡ true
unfolding relative_to
under_append [] p name h = refl
under_append (a ∷ root) [] name h = absurd (cc h)
under_append (a ∷ root) (b ∷ p) name h = ground (arith, under_append root p name)

under_joined : (root parts : FilePath) → under root (root ++ parts) ≡ true
unfolding relative_to
under_joined [] parts = refl
under_joined (a ∷ root) parts = ground (arith, eq_refl a, under_joined root parts)

module _ (root q : FilePath) (outside : under root q ≡ false) where
  pub below_apart : (p : FilePath) → under root p ≡ true → under p q ≡ false
  below_apart p h = elim (Bool-cases (under p q)) [
    | inr e ↦ e
    | inl e ↦ absurd (cc (sym outside ∙ under_trans root p q h e))
  ]

  pub other_path : (p : FilePath) → under root p ≡ true → same_path p q ≡ false
  other_path p h = elim (Bool-cases (same_path p q)) [
    | inr e ↦ e
    | inl e ↦ absurd (cc (sym outside ∙ ap (under root) (sym (same_path_eq p q e)) ∙ h))
  ]

  pub temporary_apart :
      (p : FilePath)
      → same_path (temporary root) q ≡ false
      → under root p ≡ true
      → same_path (temporary p) q ≡ false
  temporary_apart p apart h = elim (Bool-cases (same_path root p)) [
    | inl e ↦ ap (λ r. same_path (temporary r) q) (sym (same_path_eq root p e)) ∙ apart
    | inr e ↦ other_path (temporary p) (under_append root (parent p) _ (under-parent root p h e))
  ]

module _ (q : FilePath) (node : Node) where
  pub write_bytes-Holds :
      (drive : Drive) (p : FilePath) (content : String)
      → same_path p q ≡ false
      → Keeps (Holds q node) (write_bytes drive p content)
  unfolding write_bytes
  write_bytes-Holds drive p content apart disk h =
      if_ind {A = Result Exception Unit × Disk} (λ r. Holds q node r.1) (is_dir p disk) (λ _. h)
        (λ _. elim (Option-cases (drive.write_fails p)) [
          | inl e ↦ rw e (put-Holds q node p (file content) disk apart h)
          | inr (partial, e) ↦ rw e (put-Holds q node p (file partial) disk apart h)
        ])

  pub append_bytes-Holds :
      (drive : Drive) (p : FilePath) (content : String)
      → same_path p q ≡ false
      → Keeps (Holds q node) (append_bytes drive p content)
  unfolding append_bytes
  append_bytes-Holds drive p content apart disk h = write_bytes-Holds drive p _ apart disk h

  pruned-Holds :
      (gone : FilePath → Bool) (disk : Disk)
      → gone q ≡ false
      → Holds q node disk
      → Holds q node (prune gone disk)
  unfolding Holds
  pruned-Holds gone disk e h =
      look-prune gone q disk ∙ ap (λ b. if b then none else look q disk) e ∙ h

  rmtree-Holds :
      (drive : Drive) (p : FilePath) → under p q ≡ false → Keeps (Holds q node) (rmtree drive p)
  unfolding rmtree
  rmtree-Holds drive p apart disk h = elim (Option-cases (drive.rmtree_fails p)) [
    | inl e ↦ rw (e, rmtree) (pruned-Holds (under p) disk apart h)
    | inr (stays, e) ↦
        rw (e, rmtree)
          (pruned-Holds (λ r. under p r && not (stays r)) disk (ap (λ b. b && not (stays q)) apart)
            h)
  ]

  pub delete_at-Holds :
      (drive : Drive) (p : FilePath)
      → under p q ≡ false
      → same_path p q ≡ false
      → Keeps (Holds q node) (delete_at drive p)
  unfolding delete_at
  delete_at-Holds drive p apart different disk h =
      if_ind {A = Result Exception Unit × Disk} (λ r. Holds q node r.1) (is_dir p disk)
        (λ _. rmtree-Holds drive p apart disk h)
        (λ _. guarded-Keeps (Holds q node) _ _ _ (unlink-Holds q node p different) disk h)

  moved_apart :
      (source target p : FilePath)
      → under source q ≡ false
      → under target q ≡ false
      → same_path (moved_to source target p) q ≡ same_path p q
  unfolding relative_to
  moved_apart source target p s t = elim (Option-cases (relative_to source p)) [
    | inl e ↦ ap (λ r. same_path (elim r [ none ↦ p | some parts ↦ target ++ parts ]) q) e
    | inr (parts, e) ↦
        ap (λ r. same_path (elim r [ none ↦ p | some parts ↦ target ++ parts ]) q) e
        ∙ other_path target q t (target ++ parts) (under_joined target parts)
        ∙ sym (other_path source q s p (ap is_some e))
  ]

  relocate-Holds :
      (source target : FilePath) (disk : Disk)
      → under source q ≡ false
      → under target q ≡ false
      → look q (relocate source target disk) ≡ look q disk
  unfolding relocate look
  relocate-Holds source target [] s t = refl
  relocate-Holds source target ((p, n) ∷ rest) s t =
      rw (moved_apart source target p s t, relocate-Holds source target rest s t) refl

  pub move-Holds :
      (drive : Drive) (source target : FilePath)
      → under source q ≡ false
      → under target q ≡ false
      → Keeps (Holds q node) (move drive source target)
  unfolding move Holds
  move-Holds drive source target s t disk h =
      if_ind {A = Result Exception Unit × Disk} (λ r. look q r.1 ≡ some node)
        (drive.move_fails source || under source target) (λ _. h)
        (λ _. relocate-Holds source target disk s t ∙ h)
