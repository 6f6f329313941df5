-- ===== src/Agent/Files.antt =====
-- The tools of agent/tools.py that read and write one file or folder.
pub mod Atomic
pub mod Holds
use Prim.Native.String.{len, slice, find}
use ai_agent_ollama.Base.{
  ℕ, zero, suc, ◌+◌, ◌-◌, ltb, ◌==◌, String, Bool, true, false, not, ◌≡◌, Option, none, some, List,
  [], ◌∷◌, ◌++◌, length, str_eq, if◌then◌else◌, concat, Result, ok, err,
}
use ai_agent_ollama.Base.Acting.{Act, ◌>>=◌, ◌>>◌, give, raise, lift, guard, finally}
use ai_agent_ollama.Values.{Value, str}
use ai_agent_ollama.Errors.{Exception}
use ai_agent_ollama.Agent.{FilePath, ToolResult, result_of, tool_error, os_error}
use ai_agent_ollama.Agent.Texts.{has_part}
use ai_agent_ollama.Agent.Paths.{Root, relative_to, path_of, assert_not_sensitive}
use ai_agent_ollama.Agent.Disk.{
  Node, file, folder, Disk, look, put, exists, is_dir, child, name_of, parent, make_folders, unlink,
  rename,
}

-- What the operating system may refuse: `write_fails p` is what stands in the file when the writing of
-- it breaks off, and `rename_fails` and `unlink_fails` that a rename onto the path or its deletion does.
pub record Faults : Type 0 where
  pub write_fails : FilePath → Option String
  pub rename_fails : FilePath → Bool
  pub unlink_fails : FilePath → Bool

-- `str(path)` of a relative path
abbrev pub slashes : FilePath → String
slashes [] = "."
slashes (name ∷ []) = name
slashes (part ∷ rest) = concat (part ∷ "/" ∷ slashes rest ∷ [])

abbrev pub or_nothing : Option FilePath → FilePath
or_nothing none = []
or_nothing (some parts) = parts

abbrev pub shown : Root → FilePath → String
shown r target = slashes (or_nothing (relative_to r.root target))

-- `target.with_name(f".{target.name}.agent-tmp")`
abbrev pub temporary : FilePath → FilePath
temporary target = child (parent target) (concat ("." ∷ name_of target ∷ ".agent-tmp" ∷ []))

-- `path.write_text(content)`
unfoldable pub write_bytes : Faults → FilePath → String → Act Disk Exception Unit
unfolding put
write_bytes faults p content disk =
    if is_dir p disk then raise (os_error "Is a directory") disk else elim (faults.write_fails p) [
      | none ↦ (ok tt, put p (file content) disk)
      | some partial ↦ raise (os_error "No space left on device") (put p (file partial) disk)
    ]

-- `temporary.replace(target)`
unfoldable pub replace : Faults → (source target : FilePath) → Act Disk Exception Unit
unfolding rename
replace faults source target =
    guard (faults.rename_fails target) (os_error "Permission denied") >> rename source target

-- `if temporary.exists(): temporary.unlink(missing_ok=True)`
unfoldable pub clean : Faults → FilePath → Act Disk Exception Unit
unfolding unlink look
clean faults p disk =
    if exists p disk
    then (guard (faults.unlink_fails p) (os_error "Permission denied") >> unlink p) disk
    else (ok tt, disk)

-- the body of `_write_text` once the content and the path are accepted
unfoldable pub store : Faults → FilePath → String → Act Disk Exception Unit
unfolding write_bytes replace clean
store faults target content =
    finally
      (write_bytes faults (temporary target) content >> replace faults (temporary target) target)
      (clean faults (temporary target))

unfoldable pub write_text : Faults → Root → FilePath → String → Act Disk Exception Unit
unfolding assert_not_sensitive make_folders store
write_text faults r target content = do
  guard (ltb 1000000 (len content)) (tool_error "the content is larger than 1MB")
  lift (assert_not_sensitive r target)
  make_folders (length (parent target)) (parent target)
  store faults target content

-- `write_file` once its content is a text
unfoldable pub write_at : Faults → Root → FilePath → String → Act Disk Exception ToolResult
unfolding write_text look
write_at faults r target content disk =
    (write_text faults r target content
        >> give (
            result_of
              (concat (
                "file "
                ∷ (if exists target disk then "updated" else "created")
                ∷ ": "
                ∷ shown r target
                ∷ []))
              true))
      disk

unfoldable pub write_file : Faults → Root → Value → Value → Act Disk Exception ToolResult
unfolding path_of write_at
write_file faults r path (str content) = do
  target ← lift (path_of r path)
  write_at faults r target content
write_file faults r path content = raise (tool_error "the content of the file must be a text")

-- `text.count(part)`: the places of a part that is not empty, from the left, none in another
unfoldable pub count_of : (fuel : ℕ) → String → String → ℕ
unfolding has_part
count_of zero part text = 0
count_of (suc fuel) part text =
    let later = count_of fuel part (slice text (find text part + len part) (len text)) in
    if has_part part text then suc later else 0

-- `text.replace(part, new, 1)` of a text that has the part
unfoldable pub replace_first : String → String → String → String
replace_first part new text =
    concat
      (slice text 0 (find text part) ∷ new ∷ slice text (find text part + len part) (len text) ∷ [])

-- what `read_text` returns: `utf8` says that the bytes are a text
unfoldable pub read_text : (utf8 : String → Bool) → FilePath → Disk → Result Exception String
unfolding look
read_text utf8 target disk = elim (look target disk) [
  | none ↦ err (os_error "No such file or directory")
  | some node ↦ elim node [
    | folder ↦ err (os_error "Is a directory")
    | file text ↦ if utf8 text then ok text else err (tool_error "the file is not UTF-8 text")
  ]
]

abbrev pub is_node_file : Option Node → Bool
is_node_file (some (file text)) = true
is_node_file _ = false

-- `path.is_file()`
abbrev pub is_file : FilePath → Disk → Bool
is_file p disk = is_node_file (look p disk)

-- `patch_file` once its texts are accepted
unfoldable pub patch_text :
    Faults → Root → FilePath → String → String → String → Act Disk Exception Unit
unfolding count_of replace_first write_text
patch_text faults r target expected replacement original =
    guard (not (count_of (suc (len original)) expected original == 1))
      (tool_error "the fragment must be found exactly once")
    >> write_text faults r target (replace_first expected replacement original)

-- `isinstance(value, str)`
abbrev pub text_value : Value → Option String
text_value (str s) = some s
text_value _ = none

unfoldable pub patch_at :
    Faults
    → Root
    → (String → Bool)
    → FilePath
    → (expected replacement : Option String) → Act Disk Exception ToolResult
unfolding patch_text read_text look
patch_at faults r utf8 target (some expected) (some replacement) disk =
    (do
      guard (not (is_file target disk)) (tool_error "the file to patch must be there")
      guard (str_eq expected "") (tool_error "expected_text must not be empty")
      original ← lift (read_text utf8 target disk)
      patch_text faults r target expected replacement original
      give (result_of (concat ("patch applied: " ∷ shown r target ∷ [])) true))
      disk
patch_at faults r utf8 target none replacement disk =
    (guard (not (is_file target disk)) (tool_error "the file to patch must be there")
        >> raise (tool_error "expected_text must not be empty"))
      disk
patch_at faults r utf8 target (some expected) none disk =
    (guard (not (is_file target disk)) (tool_error "the file to patch must be there")
        >> raise (tool_error "replacement must be a text"))
      disk

unfoldable pub patch_file :
    Faults → Root → (String → Bool) → Value → Value → Value → Act Disk Exception ToolResult
unfolding path_of assert_not_sensitive patch_at
patch_file faults r utf8 path expected replacement = do
  target ← lift (path_of r path)
  lift (assert_not_sensitive r target)
  patch_at faults r utf8 target (text_value expected) (text_value replacement)

unfoldable pub create_at : Root → FilePath → Act Disk Exception ToolResult
unfolding make_folders look
create_at r target disk =
    let existed = exists target disk in
    (do
      guard (is_file target disk) (tool_error "there is a file in this path, not a folder")
      make_folders (length target) target
      give (
          result_of
            (concat (
              "folder "
              ∷ (if existed then "was there" else "created")
              ∷ ": "
              ∷ shown r target
              ∷ []))
            (not existed)))
      disk

unfoldable pub create_directory : Root → Value → Act Disk Exception ToolResult
unfolding path_of assert_not_sensitive create_at
create_directory r path = do
  target ← lift (path_of r path)
  lift (assert_not_sensitive r target)
  create_at r target
