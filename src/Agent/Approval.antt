-- ===== src/Agent/Approval.antt =====
-- Which calls of a tool need the user's consent, and which commands never run: `requires_approval`,
-- `is_read_only` and the guards of `run_command` in agent/tools.py.
pub mod Judged
use ai_agent_ollama.Base.{
  ℕ, String, Bool, true, false, not, ◌&&◌, ◌||◌, Option, none, some, List, [], ◌∷◌, any, str_eq,
  if◌then◌else◌, text_or, Result, ok, err,
}
use ai_agent_ollama.Base.Dict.{Dict, lookup}
use ai_agent_ollama.Values.{Value, Fields, bool, str, fields, get_or, truthy}
use ai_agent_ollama.Errors.{Exception}
use ai_agent_ollama.Agent.Texts.{Words, has_part, one_of, without_suffix, normalize_tool_text}

abbrev pub is_empty : {A : Type 0} → List A → Bool
is_empty [] = true
is_empty (x ∷ xs) = false

-- what `is_read_only` says of the program of a command and its arguments
unfoldable pub read_only_program : String → List String → Bool
read_only_program program arguments =
    if str_eq program "pwd"
    then is_empty arguments
    else if one_of ("ls" ∷ "tree" ∷ "cat" ∷ "head" ∷ "tail" ∷ "grep" ∷ "rg" ∷ []) program
    then true
    else if one_of ("dir" ∷ "type" ∷ "where" ∷ "findstr" ∷ []) program
    then true
    else if str_eq program "find"
    then not (
        any (one_of ("-delete" ∷ "-exec" ∷ "-execdir" ∷ "-ok" ∷ "-okdir" ∷ "-fls" ∷ "-fprint" ∷ []))
          arguments)
    else if str_eq program "git"
    then elim arguments [
      | [] ↦ false
      | verb ∷ rest ↦ one_of ("status" ∷ "diff" ∷ "log" ∷ "show" ∷ "branch" ∷ "ls-files" ∷ []) verb
    ]
    else false

unfoldable pub is_read_only : Words → String → Bool
unfolding read_only_program
is_read_only w command =
    if str_eq (w.strip command) "" || w.special command then false else elim (w.shlex command) [
      | none ↦ false
      | some tokens ↦ elim tokens [
        | [] ↦ false
        | program ∷ arguments ↦ read_only_program program arguments
      ]
    ]

unfoldable pub command_mentions_sensitive_data : Words → String → Bool
unfolding has_part
command_mentions_sensitive_data w command =
    any (λ marker. has_part marker (w.slashed (w.lower command)))
      (".env" ∷ ".ssh" ∷ "id_rsa" ∷ "id_ed25519" ∷ "credential" ∷ ".aws" ∷ ".gnupg" ∷ [])

-- the loop over the suffixes in `_segment_executable`
unfoldable pub strip_extension : List String → String → String
unfolding without_suffix
strip_extension [] name = name
strip_extension (suffix ∷ rest) name =
    let later = strip_extension rest name in
    elim (without_suffix suffix name) [ none ↦ later | some short ↦ short ]

unfoldable pub segment_executable : Words → String → String
unfolding strip_extension
segment_executable w segment = elim (w.words segment) [
  | [] ↦ ""
  | first ∷ rest ↦
      strip_extension (".exe" ∷ ".bat" ∷ ".cmd" ∷ ".ps1" ∷ []) (w.lower (w.file_name first))
]

abbrev pub dangerous_names : List String
dangerous_names = "del" ∷ "erase" ∷ "rmdir" ∷ "rd" ∷ "format" ∷ "diskpart" ∷ "remove-item" ∷ []

abbrev pub first_word : List String → String
first_word [] = ""
first_word (word ∷ rest) = word

-- the loop over the tokens of a segment whose program starts a shell
unfoldable pub wraps_dangerous : Words → List String → Bool
unfolding segment_executable
wraps_dangerous w [] = false
wraps_dangerous w (token ∷ rest) =
    (one_of ("/c" ∷ "/k" ∷ "-command" ∷ "-c" ∷ []) (w.lower token)
      && not (is_empty rest)
      && one_of dangerous_names (segment_executable w (first_word rest)))
    || wraps_dangerous w rest

unfoldable pub dangerous_segment : Words → String → Bool
unfolding segment_executable wraps_dangerous
dangerous_segment w segment =
    let name = segment_executable w segment in
    one_of dangerous_names name
    || (one_of ("cmd" ∷ "powershell" ∷ "pwsh" ∷ []) name && wraps_dangerous w (w.words segment))

-- `_windows_dangerous_executable`
unfoldable pub windows_dangerous_executable : Words → String → Bool
unfolding dangerous_segment
windows_dangerous_executable w command = any (dangerous_segment w) (w.segments command)

unfoldable pub command_is_hard_blocked : Words → String → Bool
unfolding windows_dangerous_executable
command_is_hard_blocked w command = w.hard_pattern command || windows_dangerous_executable w command

-- `inside` is `_windows_path_inside_root`, and `resolves_inside` is `_posix_path_inside_root`
unfoldable pub command_mentions_outside_paths :
    Words → (inside resolves_inside : String → Bool) → String → Bool
command_mentions_outside_paths w inside resolves_inside command =
    let cleaned = w.without_urls command in
    let foreign : String → Bool = λ path. not (str_eq path "") && not (inside path) in
    if w.escapes_parent cleaned
    then true
    else any foreign (w.unc_paths cleaned)
      || any foreign (w.windows_paths cleaned)
      || any (λ path. not (resolves_inside path)) (w.posix_paths cleaned)

-- Where the workspace is: `inside` and `resolves_inside` as above.
pub record Workspace : Type 0 where
  pub words : Words
  pub inside : String → Bool
  pub resolves_inside : String → Bool

-- the three guards of `run_command` that `requires_approval` asks too
unfoldable pub is_forbidden : Workspace → String → Bool
unfolding command_is_hard_blocked command_mentions_sensitive_data command_mentions_outside_paths
is_forbidden ws command =
    command_is_hard_blocked ws.words command
    || command_mentions_sensitive_data ws.words command
    || command_mentions_outside_paths ws.words ws.inside ws.resolves_inside command

-- what `requires_approval` says of a command
unfoldable pub command_requires : Workspace → Result Exception String → Bool
unfolding is_forbidden is_read_only
command_requires ws (err malformed) = true
command_requires ws (ok command) =
    if is_forbidden ws command then true else not (is_read_only ws.words command)

unfoldable pub requires_approval : Workspace → String → Fields → Bool
unfolding command_requires
requires_approval ws name args =
    if one_of ("write_file" ∷ "patch_file" ∷ "create_directory" ∷ "capture_screenshot" ∷ []) name
    then true
    else if str_eq name "organize_files"
    then truthy (get_or args "apply" (bool false))
    else if not (str_eq name "run_command")
    then false
    else command_requires ws
        (normalize_tool_text ws.words (ws.words.render (get_or args "command" (str ""))))
