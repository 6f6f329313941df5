-- ===== src/FileActions/Sandbox.antt =====
-- That the file actions stay in the working directory.
use Prim.Native.String.{len}
use ai_agent_ollama.Base.{
  ltb, String, Bool, true, false, not, ◌&&◌, ◌≡◌, refl, sym, ◌∙◌, ap, inl, inr, some, str_eq,
  if_ind, Result-cases, Result, ok,
}
use ai_agent_ollama.Base.Acting.{Act, ◌>>=◌, lift, Keeps, bind-Keeps, guarded-Keeps, rescue-Keeps}
use ai_agent_ollama.Values.{Value, null, bool, int, float, str, arr, obj, other}
use ai_agent_ollama.Errors.{Exception}
use ai_agent_ollama.Agent.{FilePath}
use ai_agent_ollama.Agent.Disk.{Node, Disk, same_path, look, exists}
use ai_agent_ollama.Agent.Disk.Holds.{Holds, rename-Holds, folders-Holds}
use ai_agent_ollama.Cleanup.{under}
use ai_agent_ollama.FileActions.{
  Place, Drive, assert_not_sensitive, accepted, resolve_path, temporary, replace, make_parents,
  write_file, append_file, make_directory, delete_path, move_path,
}
use ai_agent_ollama.FileActions.Holds.{
  below_apart, other_path, temporary_apart, write_bytes-Holds, append_bytes-Holds, delete_at-Holds,
  move-Holds,
}

-- an action that gets as far as a path has one in the working directory
accepted_same : (place : Place) (path p : FilePath) → accepted place path ≡ ok p → path ≡ p
unfolding accepted
accepted_same place path p h = elim (Result-cases (assert_not_sensitive place path)) [
  | inl (done, e) ↦ cc (rw (e, accepted) at h)
  | inr (x, e) ↦ absurd (cc (rw (e, accepted) at h))
]

inside : (full u : Bool) → full ≡ false → not full && not u ≡ false → u ≡ true
inside full true locked h = refl
inside true false locked h = absurd (cc locked)
inside false false locked h = absurd (cc h)

resolved_under :
    (place : Place) (path : Value) (p : FilePath)
    → place.full_system_access ≡ false
    → resolve_path place path ≡ ok p
    → under place.work_dir p ≡ true
unfolding resolve_path
resolved_under place (str raw) p locked h =
    if_ind {A = Result Exception FilePath} (λ r. r ≡ ok p → under place.work_dir p ≡ true)
      (str_eq (place.strip raw) "") (λ _ x. absurd (cc x))
      (λ _.
        if_ind {A = Result Exception FilePath} (λ r. r ≡ ok p → under place.work_dir p ≡ true)
          (ltb 1024 (len raw)) (λ _ x. absurd (cc x))
          (λ _.
            if_ind {A = Result Exception FilePath} (λ r. r ≡ ok p → under place.work_dir p ≡ true)
              (not place.full_system_access && not (under place.work_dir (place.located raw)))
              (λ _ x. absurd (cc x))
              (λ e x.
                ap (under place.work_dir) (sym (accepted_same place (place.located raw) p x))
                ∙ inside place.full_system_access _ locked e)))
      h
resolved_under place null p locked h = absurd (cc h)
resolved_under place (bool b) p locked h = absurd (cc h)
resolved_under place (int i) p locked h = absurd (cc h)
resolved_under place (float x) p locked h = absurd (cc h)
resolved_under place (arr xs) p locked h = absurd (cc h)
resolved_under place (obj fs) p locked h = absurd (cc h)
resolved_under place (other x) p locked h = absurd (cc h)

-- an action on one file or folder
pub data FileAction : Type 0 where
  writes appends : (path : Value) (content : String) → FileAction
  makes : (path : Value) → FileAction
  deletes : (path : Value) (recursive : Bool) → FileAction
  moves : (source destination : Value) → FileAction

-- the disk after an action
abbrev pub disk_after : Place → Drive → FileAction → Disk → Disk
disk_after place drive (writes path content) disk = (write_file place drive path content disk).1
disk_after place drive (appends path content) disk = (append_file place drive path content disk).1
disk_after place drive (makes path) disk = (make_directory place path disk).1
disk_after place drive (deletes path recursive) disk =
    (delete_path place drive path recursive disk).1
disk_after place drive (moves source target) disk = (move_path place drive source target disk).1

module _ (place : Place) (drive : Drive) (q : FilePath) (node : Node)
    (locked : place.full_system_access ≡ false) (outside : under place.work_dir q ≡ false)
    (not_temporary : same_path (temporary place.work_dir) q ≡ false) where
  resolved-Keeps :
      {A : Type 0} (path : Value) (next : FilePath → Act Disk Exception A)
      → ((p : FilePath) → under place.work_dir p ≡ true → Keeps (Holds q node) (next p))
      → Keeps (Holds q node) (lift (resolve_path place path) >>= next)
  unfolding ◌>>=◌
  resolved-Keeps path next k disk h = elim (Result-cases (resolve_path place path)) [
    | inl (p, e) ↦ rw e (k p (resolved_under place path p locked e) disk h)
    | inr (x, e) ↦ rw e h
  ]

  write_file-Holds :
      (path : Value) (content : String) → Keeps (Holds q node) (write_file place drive path content)
  unfolding write_file make_parents replace
  write_file-Holds path content = resolved-Keeps path _ λ p below.
      bind-Keeps (Holds q node) _ _ (folders-Holds q node _ _) λ _.
        guarded-Keeps (Holds q node) _ _ _ (
          rescue-Keeps (Holds q node) _ _
            (bind-Keeps (Holds q node) _ _
              (write_bytes-Holds q node drive (temporary p) content
                (temporary_apart place.work_dir q outside p not_temporary below))
              (λ _. guarded-Keeps (Holds q node) _ _ _ (
                rename-Holds q node (temporary p) p
                  (temporary_apart place.work_dir q outside p not_temporary below)
                  (other_path place.work_dir q outside p below))))
            (λ e d k. k))

  append_file-Holds :
      (path : Value) (content : String)
      → Keeps (Holds q node) (append_file place drive path content)
  unfolding append_file make_parents
  append_file-Holds path content = resolved-Keeps path _ λ p below.
      bind-Keeps (Holds q node) _ _ (folders-Holds q node _ _) λ _.
        rescue-Keeps (Holds q node) _ _
          (append_bytes-Holds q node drive p content (other_path place.work_dir q outside p below))
          (λ e d k. k)

  make_directory-Holds : (path : Value) → Keeps (Holds q node) (make_directory place path)
  unfolding make_directory
  make_directory-Holds path =
      resolved-Keeps path _
        λ p below disk. guarded-Keeps (Holds q node) _ _ _ (folders-Holds q node _ _) disk

  delete_path-Holds :
      (path : Value) (recursive : Bool)
      → Keeps (Holds q node) (delete_path place drive path recursive)
  unfolding delete_path
  delete_path-Holds path recursive = resolved-Keeps path _ λ p below disk h.
      if_ind {A = Result Exception Bool × Disk} (λ r. Holds q node r.1) (not (exists p disk))
        (λ _. h)
        (λ _.
          bind-Keeps (Holds q node) _ _
            (guarded-Keeps (Holds q node) _ _ _ (
              rescue-Keeps (Holds q node) _ _
                (delete_at-Holds q node drive p (below_apart place.work_dir q outside p below)
                  (other_path place.work_dir q outside p below))
                (λ e d k. k)))
            (λ _ d k. k) disk h)

  move_path-Holds :
      (source target : Value) → Keeps (Holds q node) (move_path place drive source target)
  unfolding move_path make_parents
  move_path-Holds source target = resolved-Keeps source _ λ src from.
      resolved-Keeps target _ λ dst to disk.
        guarded-Keeps (Holds q node) _ _ _
          (guarded-Keeps (Holds q node) _ _ _ (
            bind-Keeps (Holds q node) _ _ (folders-Holds q node _ _) λ _.
              move-Holds q node drive src dst (below_apart place.work_dir q outside src from)
                (below_apart place.work_dir q outside dst to)))
          disk

  -- Without full access to the system, writing, appending, making a folder, deleting and moving leave
  -- every entry outside of the working directory as it is, whatever the system refuses, but for the
  -- temporary file of the working directory itself.
  pub sandboxed :
      (action : FileAction) (disk : Disk)
      → look q disk ≡ some node
      → look q (disk_after place drive action disk) ≡ some node
  unfolding Holds
  sandboxed (writes path content) = write_file-Holds path content
  sandboxed (appends path content) = append_file-Holds path content
  sandboxed (makes path) = make_directory-Holds path
  sandboxed (deletes path recursive) = delete_path-Holds path recursive
  sandboxed (moves source target) = move_path-Holds source target
