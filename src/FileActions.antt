-- ===== src/FileActions.antt =====
-- The actions of local_agent/actions/file_ops.py that change one file or folder, on the file system of
-- Agent.Disk. They return what they do to it, without the texts.
pub mod Holds
pub mod Sandbox
mod Examples
use Prim.Native.String.{len}
use text.Mathlib.Text.{starts_with}
use ai_agent_ollama.Base.{
  ℕ, ltb, String, Bool, true, false, not, ◌&&◌, ◌||◌, Option, none, some, is_some, List, [], ◌∷◌,
  ◌++◌, map, any, length, str_eq, if◌then◌else◌, concat, Result, ok, err,
}
use ai_agent_ollama.Base.Acting.{Act, ◌>>=◌, ◌>>◌, give, raise, lift, guard, rescue}
use ai_agent_ollama.Values.{Value, str}
use ai_agent_ollama.Errors.{Exception, assistant, value_error, other}
use ai_agent_ollama.Agent.{FilePath, os_error}
use ai_agent_ollama.Agent.Texts.{has_part, one_of}
use ai_agent_ollama.Agent.Approval.{is_empty}
use ai_agent_ollama.Agent.Paths.{relative_to}
use ai_agent_ollama.Agent.Disk.{
  Node, file, folder, Disk, same_path, look, put, exists, is_dir, child, name_of, parent,
  make_folders, unlink, rename,
}
use ai_agent_ollama.Cleanup.{under, prune}

-- The working directory, resolved, and the setting `safety.full_system_access`. `located` is the
-- resolved path of a text, below the working directory if it is relative, and `printed` is
-- `str(path).lower().replace("\\", "/")`.
pub record Place : Type 0 where
  pub work_dir : FilePath
  pub full_system_access : Bool
  pub located : String → FilePath
  pub printed : FilePath → String
  pub lower : String → String
  pub strip : String → String

-- What the operating system refuses with an `OSError`: `write_fails` is what stands in the file when
-- writing breaks off, and `rmtree_fails` what stays of a folder.
pub record Drive : Type 0 where
  pub write_fails : FilePath → Option String
  pub replace_fails : FilePath → Bool
  pub unlink_fails : FilePath → Bool
  pub rmtree_fails : FilePath → Option (FilePath → Bool)
  pub move_fails : FilePath → Bool

-- the parts of SENSITIVE_PARTS, with the last name of each
abbrev pub sensitive_parts : List (String × String)
sensitive_parts =
    (".ssh", ".ssh")
    ∷ (".gnupg", ".gnupg")
    ∷ (".aws", ".aws")
    ∷ (".config/gcloud", "gcloud")
    ∷ (".docker", ".docker")
    ∷ []

abbrev pub sensitive_names : List String
sensitive_names =
    ".env" ∷ ".envrc" ∷ "id_rsa" ∷ "id_ed25519" ∷ "credentials" ∷ "credentials.json" ∷ ".netrc"
    ∷ ".git-credentials" ∷ []

-- the parts below the working directory, or all of them
abbrev pub parts_of : Place → FilePath → FilePath
parts_of place path = elim (relative_to place.work_dir path) [ none ↦ path | some parts ↦ parts ]

-- the path leads through a sensitive folder
unfoldable pub has_sensitive_part : Place → FilePath → Bool
unfolding has_part relative_to
has_sensitive_part place path =
    any
      (λ sensitive.
        one_of (map place.lower (parts_of place path)) sensitive.1
        && (any (has_part sensitive.0) (map place.lower (parts_of place path))
            || has_part sensitive.0 (place.printed path)))
      sensitive_parts

unfoldable pub is_secret_name : String → Bool
unfolding has_part
is_secret_name name =
    one_of sensitive_names name || starts_with name ".env." || has_part "credential" name

-- `_assert_not_sensitive`
unfoldable pub assert_not_sensitive : Place → FilePath → Result Exception Unit
unfolding has_sensitive_part is_secret_name
assert_not_sensitive place path =
    if has_sensitive_part place path
    then err (assistant "access to a sensitive path was stopped")
    else if is_secret_name (place.lower (name_of path))
    then err (assistant "a secret file is protected")
    else ok tt

-- the path, unless it is sensitive
unfoldable pub accepted : Place → FilePath → Result Exception FilePath
unfolding assert_not_sensitive
accepted place path = elim (assert_not_sensitive place path) [ ok _ ↦ ok path | err e ↦ err e ]

-- `_resolve_path`
unfoldable pub resolve_path : Place → Value → Result Exception FilePath
unfolding accepted relative_to
resolve_path place (str raw) =
    if str_eq (place.strip raw) ""
    then err (assistant "path must be a non-empty string")
    else if ltb 1024 (len raw)
    then err (assistant "the path is too long")
    else if not place.full_system_access && not (under place.work_dir (place.located raw))
    then err (assistant "the path is outside of the workspace")
    else accepted place (place.located raw)
resolve_path place raw = err (assistant "path must be a non-empty string")

-- `except OSError as exc: raise AssistantError(…)`
abbrev pub os_class : Exception → Bool
os_class (other class message) = str_eq class "OSError"
os_class e = false

abbrev pub translated : {A : Type 0} → String → Act Disk Exception A → Act Disk Exception A
translated text m = rescue m (λ e. raise (if os_class e then assistant text else e))

-- `target.with_suffix(target.suffix + ".tmp")` of a path with a name
abbrev pub temporary : FilePath → FilePath
temporary target = child (parent target) (concat (name_of target ∷ ".tmp" ∷ []))

-- `path.write_text(content)`, or the writing of a file that was opened
unfoldable pub write_bytes : Drive → FilePath → String → Act Disk Exception Unit
unfolding put look
write_bytes drive p content disk =
    if is_dir p disk then raise (os_error "Is a directory") disk else elim (drive.write_fails p) [
      | none ↦ (ok tt, put p (file content) disk)
      | some partial ↦ raise (os_error "No space left on device") (put p (file partial) disk)
    ]

unfoldable pub replace : Drive → (source target : FilePath) → Act Disk Exception Unit
unfolding rename
replace drive source target =
    guard (drive.replace_fails target) (os_error "Permission denied") >> rename source target

-- `target.parent.mkdir(parents=True, exist_ok=True)`
unfoldable pub make_parents : FilePath → Act Disk Exception Unit
unfolding make_folders
make_parents target = make_folders (length (parent target)) (parent target)

unfoldable pub write_file :
    Place → Drive → (path : Value) → (content : String) → Act Disk Exception Unit
unfolding resolve_path make_parents write_bytes replace
write_file place drive path content = do
  target ← lift (resolve_path place path)
  make_parents target
  guard (is_empty target) (value_error "the path has an empty name")
  translated "could not write"
      (write_bytes drive (temporary target) content >> replace drive (temporary target) target)

-- what stands in the file already
abbrev pub old_text : Option Node → String
old_text (some (file text)) = text
old_text _ = ""

unfoldable pub append_bytes : Drive → FilePath → String → Act Disk Exception Unit
unfolding write_bytes look
append_bytes drive p content disk =
    write_bytes drive p (concat (old_text (look p disk) ∷ content ∷ [])) disk

unfoldable pub append_file :
    Place → Drive → (path : Value) → (content : String) → Act Disk Exception Unit
unfolding resolve_path make_parents append_bytes
append_file place drive path content = do
  target ← lift (resolve_path place path)
  make_parents target
  translated "could not append" (append_bytes drive target content)

unfoldable pub make_directory : Place → (path : Value) → Act Disk Exception Unit
unfolding resolve_path make_folders look
make_directory place path = do
  target ← lift (resolve_path place path)
  λ disk.
      (guard (exists target disk && not (is_dir target disk))
            (assistant "a file already exists there")
          >> make_folders (length target) target)
        disk

-- `shutil.rmtree`
unfoldable pub rmtree : Drive → FilePath → Act Disk Exception Unit
unfolding prune relative_to
rmtree drive target disk = elim (drive.rmtree_fails target) [
  | none ↦ (ok tt, prune (under target) disk)
  | some stays ↦
      raise (os_error "Permission denied") (prune (λ p. under target p && not (stays p)) disk)
]

-- the folder or the file, as `delete_path` finds it
unfoldable pub delete_at : Drive → FilePath → Act Disk Exception Unit
unfolding rmtree unlink look
delete_at drive target disk =
    if is_dir target disk
    then rmtree drive target disk
    else (guard (drive.unlink_fails target) (os_error "Permission denied") >> unlink target) disk

-- `delete_path`; it returns whether there was anything
unfoldable pub delete_path :
    Place → Drive → (path : Value) → (recursive : Bool) → Act Disk Exception Bool
unfolding resolve_path delete_at look
delete_path place drive path recursive = do
  target ← lift (resolve_path place path)
  λ disk.
      if not (exists target disk)
      then (ok false, disk)
      else (guard (is_dir target disk && not recursive) (assistant "refusing to delete a directory")
            >> translated "delete failed" (delete_at drive target)
            >> give true)
          disk

-- where an entry is once `source` was renamed
abbrev pub moved_to : (source target p : FilePath) → FilePath
moved_to source target p = elim (relative_to source p) [ none ↦ p | some parts ↦ target ++ parts ]

-- all entries of a file or a folder under their new paths
unfoldable pub relocate : (source target : FilePath) → Disk → Disk
unfolding relative_to
relocate source target [] = []
relocate source target ((p, node) ∷ rest) =
    (moved_to source target p, node) ∷ relocate source target rest

-- `shutil.move` within one file system, onto a path where nothing is
unfoldable pub move : Drive → (source target : FilePath) → Act Disk Exception Unit
unfolding relocate relative_to
move drive source target disk =
    if drive.move_fails source || under source target
    then raise (os_error "Cannot move") disk
    else (ok tt, relocate source target disk)

unfoldable pub move_path : Place → Drive → (source destination : Value) → Act Disk Exception Unit
unfolding resolve_path make_parents move look
move_path place drive source destination = do
  src ← lift (resolve_path place source)
  dst ← lift (resolve_path place destination)
  λ disk.
      (do
        guard (not (exists src disk)) (assistant "source does not exist")
        guard (exists dst disk) (assistant "destination already exists")
        make_parents dst
        move drive src dst)
        disk
