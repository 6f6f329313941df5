-- ===== src/Cleanup.antt =====
-- local_agent/core/cleanup.py: what a purge deletes. The file system is that of Agent.Disk.
pub mod Purge
pub mod Spares
pub mod Steps
pub mod Safety
pub mod Gone
pub mod Complete
mod Examples
use ai_agent_ollama.Base.{
  ℕ, zero, suc, ltb, ◌==◌, String, Bool, true, false, not, ◌&&◌, ◌||◌, Option, none, some, is_some,
  List, [], ◌∷◌, ◌++◌, any, keep, str_eq, if◌then◌else◌, Result, ok, err, ◌>>=◌,
}
use ai_agent_ollama.Errors.{Exception, other}
use ai_agent_ollama.Values.{ℤ, pos, negsuc}
use ai_agent_ollama.Agent.{FilePath, os_error}
use ai_agent_ollama.Agent.Texts.{one_of}
use ai_agent_ollama.Agent.Approval.{is_empty}
use ai_agent_ollama.Agent.Paths.{relative_to}
use ai_agent_ollama.Agent.Disk.{
  Node, file, folder, Disk, same_path, look, is_dir, exists, child, name_of, parent,
}
use ai_agent_ollama.Agent.Organize.{children}

-- Where the start with the system is registered: in a file of the user on Linux, or by a Run key on
-- Windows, with what `_disable_windows` returns.
pub data Autostart : Type 0 where
  desktop_file : FilePath → Autostart
  run_key : Result Exception Bool → Autostart
  unsupported : Autostart

-- What the machine is outside of the program: `home` is `Path.home().resolve()`, `sorted_paths` is
-- `sorted`, `read_int` is `int` of a text. `rmtree_fails` says what stays of a folder whose deletion
-- breaks off; the other `_fails` that a call raises an `OSError`.
pub record Host : Type 0 where
  pub resolve : FilePath → FilePath
  pub home : Result Exception FilePath
  pub own_pid : ℕ
  pub stubborn : ℕ → Bool
  pub read_int : String → Option ℤ
  pub autostart : Autostart
  pub shutdown_logging : Result Exception Unit
  pub sorted_paths : List FilePath → List FilePath
  pub iterdir_fails : FilePath → Bool
  pub rmtree_fails : FilePath → Option (FilePath → Bool)
  pub unlink_fails : FilePath → Bool
  pub rmdir_fails : FilePath → Bool

-- what a purge changes; `registered` is the Run key
pub record Machine : Type 0 where
  pub disk : Disk
  pub running : List ℕ
  pub registered : Bool
  pub logging : Bool

abbrev pub Failure : Type 0
Failure = FilePath × String

-- `p` is this folder or lies in it
abbrev pub under : FilePath → FilePath → Bool
under above p = is_some (relative_to above p)

-- the entries but those that the test picks
unfoldable pub prune : (FilePath → Bool) → Disk → Disk
prune gone [] = []
prune gone ((p, node) ∷ rest) =
    let left = prune gone rest in if gone p then left else (p, node) ∷ left

-- `shutil.rmtree`
unfoldable pub rmtree : Host → FilePath → Disk → Result Exception Unit × Disk
unfolding prune relative_to
rmtree host target disk = elim (host.rmtree_fails target) [
  | none ↦ (ok tt, prune (under target) disk)
  | some stays ↦
      (err (os_error "Permission denied"), prune (λ p. under target p && not (stays p)) disk)
]

-- `entry.unlink()`
unfoldable pub delete_file : Host → FilePath → Disk → Result Exception Unit × Disk
unfolding prune
delete_file host p disk =
    if host.unlink_fails p
    then (err (os_error "Permission denied"), disk)
    else (ok tt, prune (same_path p) disk)

-- one entry of the loop of `_remove_tree`
unfoldable pub remove_entry : Host → FilePath → Disk → Result Exception Unit × Disk
unfolding rmtree delete_file look
remove_entry host entry disk =
    if is_dir entry disk then rmtree host entry disk else delete_file host entry disk

-- `tree_root.rmdir()`, of a folder that has nothing in it
unfoldable pub rmdir : Host → FilePath → Disk → Result Exception Unit × Disk
unfolding prune relative_to same_path
rmdir host p disk =
    if host.rmdir_fails p || any (λ entry. under p entry.0 && not (same_path p entry.0)) disk
    then (err (os_error "Directory not empty"), disk)
    else (ok tt, prune (same_path p) disk)

pub record Removal : Type 0 where
  pub removed : List FilePath
  pub failed : List Failure

abbrev pub nothing_removed : Removal
nothing_removed = record { removed = []; failed = [] }

-- `removed.append(…)`, or `failed.append(…)` for an exception
abbrev pub noted : FilePath → Result Exception Unit → Removal → Removal
noted p (ok done) r = record r { removed = r.removed ++ p ∷ [] }
noted p (err e) r = record r { failed = r.failed ++ (p, "could not be removed") ∷ [] }

-- the loop of `_remove_tree`
unfoldable pub remove_entries :
    Host → (dry : Bool) → List FilePath → Removal → Disk → Removal × Disk
unfolding remove_entry
remove_entries host dry [] r disk = (r, disk)
remove_entries host true (entry ∷ rest) r disk =
    remove_entries host true rest (noted entry (ok tt) r) disk
remove_entries host false (entry ∷ rest) r disk =
    let (done, left) = remove_entry host entry disk in
    remove_entries host false rest (noted entry done r) left

-- the end of `_remove_tree`: the folder itself
unfoldable pub remove_root : Host → (dry : Bool) → FilePath → Removal × Disk → Removal × Disk
unfolding rmdir
remove_root host true root (r, disk) = (if is_empty r.failed then noted root (ok tt) r else r, disk)
remove_root host false root (r, disk) =
    if is_empty r.failed
    then (let (done, left) = rmdir host root disk in (noted root done r, left))
    else (r, disk)

unfoldable pub remove_tree : Host → (dry : Bool) → FilePath → Disk → Removal × Disk
unfolding remove_entries remove_root children look
remove_tree host dry root disk =
    if not (is_dir root disk)
    then (nothing_removed, disk)
    else if host.iterdir_fails root
    then (record nothing_removed { failed = (root, "cannot be listed") ∷ [] }, disk)
    else remove_root host dry root
        (remove_entries host dry (host.sorted_paths (children root disk)) nothing_removed disk)

abbrev pub repo_cache_dirs : List String
repo_cache_dirs = "__pycache__" ∷ ".pytest_cache" ∷ ".ruff_cache" ∷ ".mypy_cache" ∷ []

abbrev pub repo_skip_dirs : List String
repo_skip_dirs =
    ".git" ∷ ".venv" ∷ "venv" ∷ "env" ∷ ".env" ∷ "node_modules" ∷ "site-packages" ∷ "dist" ∷ "build"
    ∷ []

-- the parts below the repository lead to a cache, and through none of the folders that are not walked
unfoldable pub leads_to_cache : List String → Bool
leads_to_cache [] = false
leads_to_cache (name ∷ []) = one_of repo_cache_dirs name
leads_to_cache (name ∷ next ∷ rest) =
    let later = leads_to_cache (next ∷ rest) in
    if one_of repo_skip_dirs name || one_of repo_cache_dirs name then false else later

abbrev pub below_parts : Option FilePath → Bool
below_parts none = false
below_parts (some parts) = leads_to_cache parts

unfoldable pub is_cache : (repo p : FilePath) → Bool
unfolding leads_to_cache relative_to
is_cache repo p = below_parts (relative_to repo p)

-- the caches that the walk meets, in the order of the disk
unfoldable pub caches : (repo : FilePath) → Disk → List FilePath
unfolding is_cache
caches repo [] = []
caches repo ((p, file text) ∷ rest) = caches repo rest
caches repo ((p, folder) ∷ rest) =
    let later = caches repo rest in if is_cache repo p then p ∷ later else later

unfoldable pub remove_caches : Host → (dry : Bool) → List FilePath → Removal → Disk → Removal × Disk
unfolding rmtree
remove_caches host dry [] r disk = (r, disk)
remove_caches host true (p ∷ rest) r disk = remove_caches host true rest (noted p (ok tt) r) disk
remove_caches host false (p ∷ rest) r disk =
    let (done, left) = rmtree host p disk in remove_caches host false rest (noted p done r) left

unfoldable pub clean_repo_caches : Host → (dry : Bool) → (repo : FilePath) → Disk → Removal × Disk
unfolding caches remove_caches look
clean_repo_caches host dry repo disk =
    if not (is_dir repo disk)
    then (nothing_removed, disk)
    else remove_caches host dry (caches repo disk) nothing_removed disk
