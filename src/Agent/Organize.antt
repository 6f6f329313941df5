-- ===== src/Agent/Organize.antt =====
-- `organize_files` of agent/tools.py: the direct files of a folder are moved into a folder for each
-- category.
pub mod Holds
use ai_agent_ollama.Base.{
  ℕ, zero, suc, ltb, String, Bool, true, false, not, ◌||◌, List, [], ◌∷◌, map, length, take, ◌++◌,
  if◌then◌else◌, concat, ok,
}
use ai_agent_ollama.Base.Dict.{Dict}
use ai_agent_ollama.Base.Acting.{Act, ◌>>=◌, ◌>>◌, give, lift, guard}
use ai_agent_ollama.Values.{Value, Fields, truthy}
use ai_agent_ollama.Errors.{Exception}
use ai_agent_ollama.Agent.{FilePath, ToolResult, result_of, tool_error}
use ai_agent_ollama.Agent.Texts.{Words, one_of}
use ai_agent_ollama.Agent.Approval.{is_empty}
use ai_agent_ollama.Agent.Paths.{Root, path_of, assert_not_sensitive, visible}
use ai_agent_ollama.Agent.Disk.{
  Node, Disk, same_path, look, exists, is_dir, child, name_of, parent, make_folders, move,
}
use ai_agent_ollama.Agent.Files.{is_file, shown}

-- `EXTENSIONS`, with the folder that `CATEGORY_NAMES` gives each category
abbrev pub extensions : Dict (List String)
extensions =
    ("Images", ".jpg" ∷ ".jpeg" ∷ ".png" ∷ ".gif" ∷ ".webp" ∷ ".svg" ∷ ".bmp" ∷ ".ico" ∷ [])
    ∷ ("Documents", ".pdf" ∷ ".doc" ∷ ".docx" ∷ ".txt" ∷ ".rtf" ∷ ".odt" ∷ ".md" ∷ [])
    ∷ ("Archives", ".zip" ∷ ".rar" ∷ ".7z" ∷ ".tar" ∷ ".gz" ∷ ".bz2" ∷ ".xz" ∷ [])
    ∷ ("Audio", ".mp3" ∷ ".wav" ∷ ".flac" ∷ ".m4a" ∷ ".ogg" ∷ ".aac" ∷ [])
    ∷ ("Video", ".mp4" ∷ ".mkv" ∷ ".mov" ∷ ".avi" ∷ ".webm" ∷ [])
    ∷ (
      "Code",
      ".py" ∷ ".js" ∷ ".ts" ∷ ".tsx" ∷ ".jsx" ∷ ".java" ∷ ".go" ∷ ".rs" ∷ ".c" ∷ ".cpp" ∷ ".h"
          ∷ ".html" ∷ ".css" ∷ ".json" ∷ ".yaml" ∷ ".yml" ∷ ".toml" ∷ [],
    )
    ∷ ("Data", ".csv" ∷ ".xlsx" ∷ ".xls" ∷ ".sqlite" ∷ ".db" ∷ ".parquet" ∷ [])
    ∷ []

unfoldable pub category_in : Dict (List String) → String → String
category_in [] suffix = "Other"
category_in ((category, known) ∷ rest) suffix =
    let later = category_in rest suffix in if one_of known suffix then category else later

-- `CATEGORY_NAMES[_category(path)]`
abbrev pub category_of : Root → FilePath → String
category_of r path = category_in extensions (r.words.suffix (name_of path))

-- `target.iterdir()`
unfoldable pub children : FilePath → Disk → List FilePath
unfolding same_path
children target [] = []
children target ((path, node) ∷ rest) =
    let later = children target rest in
    if same_path path (child target (name_of path)) then path ∷ later else later

abbrev pub destination : Root → (target source : FilePath) → FilePath
destination r target source = child (child target (category_of r source)) (name_of source)

-- The loop that makes the plan: the files to move with their destinations, and the names that stay.
unfoldable pub plan :
    Root → FilePath → Disk → List FilePath → List (FilePath × FilePath) × List String
unfolding visible look category_in
plan r target disk [] = ([], [])
plan r target disk (source ∷ rest) =
    let (operations, skipped) = plan r target disk rest in
    if not (is_file source disk) || not (visible r source)
    then (operations, skipped)
    else if exists (destination r target source) disk
    then (operations, name_of source ∷ skipped)
    else ((source, destination r target source) ∷ operations, skipped)

-- the loop that carries the plan out, with the number of files moved
unfoldable pub apply_all : List (FilePath × FilePath) → Act Disk Exception ℕ
unfolding make_folders move
apply_all [] = give 0
apply_all ((source, to) ∷ rest) = do
  make_folders (length (parent to)) (parent to)
  move source to
  moved ← apply_all rest
  give (suc moved)

abbrev pub joined : String → List String → String
joined separator [] = ""
joined separator (line ∷ []) = line
joined separator (line ∷ rest) = concat (line ∷ separator ∷ joined separator rest ∷ [])

abbrev pub move_line : Root → FilePath × FilePath → String
move_line r (source, to) = concat ("- " ∷ name_of source ∷ " → " ∷ shown r to ∷ [])

-- the lines of the plan; `number` writes a number
unfoldable pub plan_lines :
    Root → (ℕ → String) → FilePath → List (FilePath × FilePath) → List String → List String
plan_lines r number target operations skipped =
    concat
        ("plan for " ∷ shown r target ∷ ": " ∷ number (length operations) ∷ " files to move" ∷ [])
      ∷ map (move_line r) (take 100 operations)
    ++ (if ltb 100 (length operations) then "… shows 100 at most" ∷ [] else [])
    ++ (if is_empty skipped
        then []
        else concat ("not moved, the destination is there: " ∷ joined ", " (take 20 skipped) ∷ [])
          ∷ [])

-- `sorted_names` puts the files in the order of their names
unfoldable pub organize_at :
    Root
    → (List FilePath → List FilePath)
    → (ℕ → String)
    → FilePath
    → Bool
    → Act Disk Exception ToolResult
unfolding plan children apply_all plan_lines
organize_at r sorted_names number target apply disk =
    let (operations, skipped) = plan r target disk (sorted_names (children target disk)) in
    let lines = plan_lines r number target operations skipped in
    if not apply
    then (ok (result_of (joined "\n" (lines ++ "preview: nothing was changed" ∷ [])) false), disk)
    else (apply_all operations >>= λ moved. give (
          result_of
            (joined "\n"
              (lines ++ concat (number moved ∷ " files moved; none was overwritten" ∷ []) ∷ []))
            (ltb 0 moved)))
        disk

unfoldable pub organize_files :
    Root
    → (List FilePath → List FilePath)
    → (ℕ → String)
    → Value
    → Value
    → Act Disk Exception ToolResult
unfolding path_of assert_not_sensitive organize_at look
organize_files r sorted_names number path apply = do
  target ← lift (path_of r path)
  lift (assert_not_sensitive r target)
  λ disk.
      (guard (not (is_dir target disk)) (tool_error "the path must be a folder")
          >> organize_at r sorted_names number target (truthy apply))
        disk
