-- ===== src/Agent/Files/Holds.antt =====
-- That the tools for one file keep what they are refused.
use ai_agent_ollama.Base.{
  String, Bool, false, ◌≡◌, ◌∙◌, sym, ap, inl, inr, Option, none, some, if_ind, Bool-cases,
  Option-cases, Result-cases, Result, ok, err,
}
use ai_agent_ollama.Base.Acting.{
  Act, ◌>>=◌, lift, Keeps, bind-Keeps, guarded-Keeps, lifted-Keeps, finally-Keeps,
}
use ai_agent_ollama.Values.{Value, null, bool, int, float, str, arr, obj, other}
use ai_agent_ollama.Errors.{Exception}
use ai_agent_ollama.Agent.{FilePath}
use ai_agent_ollama.Agent.Paths.{Root, assert_not_sensitive}
use ai_agent_ollama.Agent.Disk.{Node, file, Disk, same_path, same_path_eq, exists, is_dir}
use ai_agent_ollama.Agent.Files.{
  Faults, temporary, write_bytes, replace, clean, store, write_text, write_at, write_file,
  patch_text, patch_at, patch_file, create_at, create_directory,
}
use ai_agent_ollama.Agent.Disk.Holds.{Holds, put-Holds, unlink-Holds, rename-Holds, folders-Holds}

module _ (q : FilePath) (node : Node) where
  write_bytes-Holds :
      (faults : Faults) (p : FilePath) (content : String)
      → same_path p q ≡ false
      → Keeps (Holds q node) (write_bytes faults p content)
  unfolding write_bytes
  write_bytes-Holds faults p content apart disk h =
      if_ind {A = Result Exception Unit × Disk} (λ r. Holds q node r.1) (is_dir p disk) (λ _. h)
        (λ _. elim (Option-cases (faults.write_fails p)) [
          | inl e ↦ rw e (put-Holds q node p (file content) disk apart h)
          | inr (partial, e) ↦ rw e (put-Holds q node p (file partial) disk apart h)
        ])

  clean-Holds :
      (faults : Faults) (p : FilePath)
      → same_path p q ≡ false
      → Keeps (Holds q node) (clean faults p)
  unfolding clean
  clean-Holds faults p apart disk h =
      if_ind {A = Result Exception Unit × Disk} (λ r. Holds q node r.1) (exists p disk)
        (λ _. guarded-Keeps (Holds q node) _ _ _ (unlink-Holds q node p apart) disk h) (λ _. h)

  store-Holds :
      (faults : Faults) (target : FilePath) (content : String)
      → same_path target q ≡ false
      → same_path (temporary target) q ≡ false
      → Keeps (Holds q node) (store faults target content)
  unfolding store replace
  store-Holds faults target content t hidden =
      finally-Keeps (Holds q node) _ _
        (bind-Keeps (Holds q node) _ _ (write_bytes-Holds faults (temporary target) content hidden)
          (λ _.
            guarded-Keeps (Holds q node) _ _ _
              (rename-Holds q node (temporary target) target hidden t)))
        (clean-Holds faults (temporary target) hidden)

module _ (r : Root) (q : FilePath) (node : Node) (reason : Exception)
    (refused : assert_not_sensitive r q ≡ err reason)
    (not_temporary : (target : FilePath) → same_path (temporary target) q ≡ false) where
  pub allowed_apart : (p : FilePath) → assert_not_sensitive r p ≡ ok tt → same_path p q ≡ false
  allowed_apart p allowed = elim (Bool-cases (same_path p q)) [
    | inr e ↦ e
    | inl e ↦ absurd (cc (sym allowed ∙ ap (assert_not_sensitive r) (same_path_eq p q e) ∙ refused))
  ]

  pub checked-Keeps :
      {A : Type 0} (p : FilePath) (next : Unit → Act Disk Exception A)
      → (same_path p q ≡ false → Keeps (Holds q node) (next tt))
      → Keeps (Holds q node) (lift (assert_not_sensitive r p) >>= next)
  unfolding ◌>>=◌
  checked-Keeps p next k disk h = elim (Result-cases (assert_not_sensitive r p)) [
    | inl (tt, e) ↦ rw e (k (allowed_apart p e) disk h)
    | inr (x, e) ↦ rw e h
  ]

  pub write_text-Holds :
      (faults : Faults) (target : FilePath) (content : String)
      → Keeps (Holds q node) (write_text faults r target content)
  unfolding write_text
  write_text-Holds faults target content = guarded-Keeps (Holds q node) _ _ _ (
      checked-Keeps target _ λ apart.
        bind-Keeps (Holds q node) _ _ (folders-Holds q node _ _)
          λ _. store-Holds q node faults target content apart (not_temporary target))

  pub write_file-Holds :
      (faults : Faults) (path content : Value)
      → Keeps (Holds q node) (write_file faults r path content)
  unfolding write_file write_at
  write_file-Holds faults path (str content) disk h =
      lifted-Keeps (Holds q node) _ _
        (λ target known.
          bind-Keeps (Holds q node) _ _ (write_text-Holds faults target content) (λ _ d k. k) known)
        disk h
  write_file-Holds faults path null disk h = h
  write_file-Holds faults path (bool b) disk h = h
  write_file-Holds faults path (int i) disk h = h
  write_file-Holds faults path (float x) disk h = h
  write_file-Holds faults path (arr xs) disk h = h
  write_file-Holds faults path (obj fs) disk h = h
  write_file-Holds faults path (other s) disk h = h

  pub create_directory-Holds : (path : Value) → Keeps (Holds q node) (create_directory r path)
  unfolding create_directory create_at
  create_directory-Holds path = lifted-Keeps (Holds q node) _ _ λ target.
      lifted-Keeps (Holds q node) _ _ λ _ disk.
        guarded-Keeps (Holds q node) _ _ _
          (bind-Keeps (Holds q node) _ _ (folders-Holds q node _ _) (λ _ d k. k)) disk

  pub patch_at-Holds :
      (faults : Faults) (utf8 : String → Bool) (target : FilePath)
      (expected replacement : Option String)
      → Keeps (Holds q node) (patch_at faults r utf8 target expected replacement)
  unfolding patch_at patch_text
  patch_at-Holds faults utf8 target (some expected) (some replacement) disk =
      guarded-Keeps (Holds q node) _ _ _
        (guarded-Keeps (Holds q node) _ _ _ (
          lifted-Keeps (Holds q node) _ _ λ original.
            bind-Keeps (Holds q node) _ _
              (guarded-Keeps (Holds q node) _ _ _ (write_text-Holds faults target _)) (λ _ d k. k)))
        disk
  patch_at-Holds faults utf8 target none replacement disk =
      guarded-Keeps (Holds q node) _ _ _ (λ d k. k) disk
  patch_at-Holds faults utf8 target (some expected) none disk =
      guarded-Keeps (Holds q node) _ _ _ (λ d k. k) disk

  pub patch_file-Holds :
      (faults : Faults) (utf8 : String → Bool) (path expected replacement : Value)
      → Keeps (Holds q node) (patch_file faults r utf8 path expected replacement)
  unfolding patch_file
  patch_file-Holds faults utf8 path expected replacement =
      lifted-Keeps (Holds q node) _ _
        λ target. lifted-Keeps (Holds q node) _ _ λ _. patch_at-Holds faults utf8 target _ _
