-- ===== src/Agent/Disk.antt =====
-- The file system that the tools of agent/tools.py work on, without links: each entry under its
-- path, and what `pathlib` and `shutil` do to it.
pub mod Folders
pub mod Holds
use ai_agent_ollama.Base.{
  ℕ, zero, suc, String, Bool, true, false, ◌&&◌, ◌≡◌, refl, ap, Option, none, some, is_some, List,
  [], ◌∷◌, ◌++◌, str_eq, eq_iff, eq_refl, if◌then◌else◌, ok, arith,
}
use ai_agent_ollama.Base.Acting.{Act, ◌>>=◌, ◌>>◌, give, raise}
use ai_agent_ollama.Errors.{Exception}
use ai_agent_ollama.Agent.{FilePath, os_error}

pub data Node : Type 0 where
  file : String → Node
  folder : Node

abbrev pub Disk : Type 0
Disk = List (FilePath × Node)

unfoldable pub same_path : FilePath → FilePath → Bool
same_path [] [] = true
same_path (a ∷ p) (b ∷ q) = str_eq a b && same_path p q
same_path p q = false

pub same_path_eq : (p q : FilePath) → same_path p q ≡ true → p ≡ q
unfolding same_path
same_path_eq [] [] h = refl
same_path_eq (a ∷ p) (b ∷ q) h = ground (arith, eq_iff a b, same_path_eq p q)
same_path_eq [] (b ∷ q) h = cc
same_path_eq (a ∷ p) [] h = cc

pub same_path_self : (p : FilePath) → same_path p p ≡ true
unfolding same_path
same_path_self [] = refl
same_path_self (a ∷ p) = ground (arith, eq_refl a, same_path_self p)

unfoldable pub look : FilePath → Disk → Option Node
look p [] = none
look p ((q, node) ∷ rest) = if same_path q p then some node else look p rest

unfoldable pub remove : FilePath → Disk → Disk
remove p [] = []
remove p ((q, node) ∷ rest) =
    let left = remove p rest in if same_path q p then left else (q, node) ∷ left

unfoldable pub put : FilePath → Node → Disk → Disk
unfolding remove
put p node disk = (p, node) ∷ remove p disk

pub look-remove :
    (p q : FilePath) (disk : Disk)
    → look q (remove p disk) ≡ (if same_path p q then none else look q disk)
unfolding look remove
look-remove p q [] = ground arith
look-remove p q ((r, node) ∷ rest) = ground (
  arith,
  look-remove p q rest,
  same_path_eq r p,
  same_path_eq r q,
  same_path_eq p q,
  same_path_self q,
  same_path_self p,
)

pub look-put :
    (p q : FilePath) (node : Node) (disk : Disk)
    → look q (put p node disk) ≡ (if same_path p q then some node else look q disk)
unfolding look put
look-put p q node disk = ground (arith, look-remove p q disk)

abbrev pub exists : FilePath → Disk → Bool
exists p disk = is_some (look p disk)

abbrev pub is_folder : Option Node → Bool
is_folder (some folder) = true
is_folder _ = false

abbrev pub is_dir : FilePath → Disk → Bool
is_dir p disk = is_folder (look p disk)

-- `path / name`
abbrev pub child : FilePath → String → FilePath
child p name = p ++ name ∷ []

-- `path.name`
abbrev pub name_of : FilePath → String
name_of [] = ""
name_of (name ∷ []) = name
name_of (part ∷ rest) = name_of rest

-- `path.parent`
abbrev pub parent : FilePath → FilePath
parent [] = []
parent (name ∷ []) = []
parent (part ∷ rest) = part ∷ parent rest

-- `path.mkdir(exist_ok=True)` where the parents are there
unfoldable pub make_folder : FilePath → Act Disk Exception Unit
unfolding look put
make_folder p disk = elim (look p disk) [
  | none ↦ (ok tt, put p folder disk)
  | some node ↦ elim node [
    | folder ↦ (ok tt, disk)
    | file text ↦ raise (os_error "File exists") disk
  ]
]

-- `path.mkdir(parents=True, exist_ok=True)`: from the entry up to the first that is there. A path has
-- at most `depth` parts.
unfoldable pub make_folders : (depth : ℕ) → FilePath → Act Disk Exception Unit
unfolding make_folder
make_folders zero p disk = make_folder p disk
make_folders (suc depth) p disk = elim (look p disk) [
  | some node ↦ make_folder p disk
  | none ↦ elim (look (parent p) disk) [
    | none ↦ (make_folders depth (parent p) >> make_folder p) disk
    | some above ↦ elim above [
      | folder ↦ make_folder p disk
      | file text ↦ raise (os_error "Not a directory") disk
    ]
  ]
]

-- `path.unlink()`
unfoldable pub unlink : FilePath → Act Disk Exception Unit
unfolding look remove
unlink p disk = elim (look p disk) [
  | none ↦ raise (os_error "No such file or directory") disk
  | some node ↦ elim node [
    | folder ↦ raise (os_error "Is a directory") disk
    | file text ↦ (ok tt, remove p disk)
  ]
]

-- `source.replace(target)`, of a file
unfoldable pub rename : (source target : FilePath) → Act Disk Exception Unit
unfolding look put remove
rename source target disk = elim (look source disk) [
  | none ↦ raise (os_error "No such file or directory") disk
  | some node ↦
      if is_dir target disk
      then raise (os_error "Is a directory") disk
      else (ok tt, put target node (remove source disk))
]

-- `shutil.move(source, target)`, of a file: into the target if that is a folder
unfoldable pub move : (source target : FilePath) → Act Disk Exception Unit
unfolding rename look
move source target disk =
    if is_dir target disk
    then (if exists (child target (name_of source)) disk
        then raise (os_error "Destination path already exists") disk
        else rename source (child target (name_of source)) disk)
    else rename source target disk
