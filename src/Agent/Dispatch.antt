-- ===== src/Agent/Dispatch.antt =====
-- `run_command` and `invoke` of agent/tools.py.
pub mod Consent
pub mod Protected
use Prim.Native.String.{count}
use ai_agent_ollama.Base.{
  ℕ, ltb, String, Bool, true, false, not, ◌&&◌, ◌||◌, Option, none, some, List, [], ◌∷◌, ◌++◌, all,
  any, str_eq, if◌then◌else◌, text_or, concat, Result, ok, err,
}
use ai_agent_ollama.Base.Dict.{Dict, keys, contains}
use ai_agent_ollama.Base.Acting.{Act, ◌>>=◌, ◌>>◌, give, raise, lift, guard, rescue}
use ai_agent_ollama.Values.{Value, Fields, null, bool, str, fields, get_or}
use ai_agent_ollama.Errors.{Exception, type_error, other}
use ai_agent_ollama.Agent.{FilePath, ToolResult, tool_error, os_error, result_of}
use ai_agent_ollama.Agent.Texts.{Words, one_of, normalize_tool_args}
use ai_agent_ollama.Agent.Approval.{
  Workspace, is_read_only, command_mentions_sensitive_data, command_is_hard_blocked,
  command_mentions_outside_paths,
}
use ai_agent_ollama.Agent.Paths.{Root, path_of, assert_not_sensitive}
use ai_agent_ollama.Agent.Disk.{Disk, is_dir}
use ai_agent_ollama.Agent.Files.{Faults, write_file, patch_file, create_directory}
use ai_agent_ollama.Agent.Organize.{organize_files}

-- what `subprocess.run` returns or raises
pub data Completed : Type 0 where
  exited : (stdout code : String) → Completed
  not_found : Completed
  timed_out : (stdout : String) → Completed
  failed : (class message : String) → Completed

-- The tools with what they call outside of this file: the shell, the browser, and the tools that only
-- read, by what they return.
pub record LocalTools : Type 0 where
  pub place : Root
  pub workspace : Workspace
  pub faults : Faults
  pub utf8 : String → Bool
  pub sorted_names : List FilePath → List FilePath
  pub number : ℕ → String
  pub max_output : ℕ
  pub shell_name : String
  pub timeout : String
  pub shell : String → FilePath → Disk → Completed × Disk
  pub screenshot : Fields → Act Disk Exception ToolResult
  pub reads : String → Fields → Disk → Result Exception ToolResult

-- what Python checks of keyword arguments before a call
unfoldable pub bind_arguments : (required optional : List String) → Fields → Result Exception Unit
bind_arguments required optional args =
    if not (all (λ key. contains key (fields args)) required)
    then err (type_error "missing a required argument")
    else if not (all (one_of (required ++ optional)) (keys (fields args)))
    then err (type_error "got an unexpected keyword argument")
    else ok tt

abbrev pub readers : List String
readers =
    "list_files" ∷ "read_file" ∷ "read_many_files" ∷ "search_files" ∷ "inspect_git"
    ∷ "inspect_project" ∷ "analyze_directory" ∷ "search_web" ∷ "diagnose_browser_runtime" ∷ []

abbrev pub writers : List String
writers =
    "write_file" ∷ "patch_file" ∷ "create_directory" ∷ "organize_files" ∷ "capture_screenshot"
    ∷ "run_command" ∷ []

abbrev pub argument : Fields → String → Value
argument args key = get_or args key null

-- the `except` clauses of `invoke`
unfoldable pub translate : Exception → Exception
translate (type_error text) =
    tool_error (concat ("the arguments of the tool are invalid: " ∷ text ∷ []))
translate (other class text) =
    if str_eq class "OSError"
    then tool_error (concat ("file/system error while the tool ran: " ∷ text ∷ []))
    else other class text
translate e = e

module _ (t : LocalTools) where
  abbrev words : Words
  words = t.workspace.words

  -- `_truncate`
  unfoldable pub truncate : String → String
  truncate text = concat (
      words.first t.max_output text
      ∷ (if ltb t.max_output (count text) then "\n… the output was cut" else "")
      ∷ [])

  abbrev terminal : String → Bool → ToolResult
  terminal text changed = record {
    text = text;
    changed = changed;
    needs_approval = false;
    artifacts = [];
    terminal_text = text;
  }

  -- what `run_command` makes of the end of the process
  unfoldable pub command_result : String → Completed → ToolResult
  unfolding truncate is_read_only
  command_result command (exited stdout code) =
      terminal
        (concat (
          "$ "
          ∷ command
          ∷ "\n\n"
          ∷ truncate (text_or stdout "(no output)")
          ∷ "\n\n[exit code: "
          ∷ code
          ∷ "]"
          ∷ []))
        (not (is_read_only words command))
  command_result command not_found =
      terminal
        (concat (
          "$ " ∷ command ∷ "\n\nthe shell (" ∷ t.shell_name
          ∷ ") was not found, and the command was not run.\n\n[exit code: unavailable]" ∷ []))
        false
  command_result command (timed_out stdout) =
      terminal
        (concat (
          "$ "
          ∷ command
          ∷ "\n\nthe command was ended after "
          ∷ t.timeout
          ∷ " seconds.\n"
          ∷ truncate stdout
          ∷ []))
        false
  command_result command (failed class message) =
      terminal
        (concat (
          "$ " ∷ command ∷ "\n\nthe shell could not be run (" ∷ class ∷ ": " ∷ message
          ∷ ").\n\n[exit code: unavailable]" ∷ []))
        false

  abbrev in_shell : String → FilePath → Act Disk Exception ToolResult
  in_shell command directory disk =
      let (end, after) = t.shell command directory disk in (ok (command_result command end), after)

  unfoldable pub run_command : Value → Value → Act Disk Exception ToolResult
  unfolding command_mentions_sensitive_data command_is_hard_blocked command_mentions_outside_paths
      path_of assert_not_sensitive command_result
  run_command (str command) cwd = do
    guard (ltb 4000 (count command)) (tool_error "a command is a text of 4000 characters at most")
    guard (command_mentions_sensitive_data words command)
        (tool_error "the command names secret data")
    guard (command_is_hard_blocked words command) (tool_error "the command is dangerous")
    guard
        (command_mentions_outside_paths words t.workspace.inside t.workspace.resolves_inside
          command)
        (tool_error "the command names a path outside of WORKSPACE_ROOT")
    directory ← lift (path_of t.place cwd)
    lift (assert_not_sensitive t.place directory)
    λ disk.
        (guard (not (is_dir directory disk)) (tool_error "cwd is not a folder")
            >> in_shell command directory)
          disk
  run_command command cwd = raise (tool_error "a command is a text of 4000 characters at most")

  -- `methods[name](**args)`
  unfoldable pub call : String → Fields → Act Disk Exception ToolResult
  unfolding write_file patch_file create_directory organize_files run_command bind_arguments
  call name args =
      if str_eq name "write_file"
      then lift (bind_arguments ("path" ∷ "content" ∷ []) [] args)
        >> write_file t.faults t.place (argument args "path") (argument args "content")
      else if str_eq name "patch_file"
      then lift (bind_arguments ("path" ∷ "expected_text" ∷ "replacement" ∷ []) [] args)
        >> patch_file t.faults t.place t.utf8 (argument args "path") (argument args "expected_text")
            (argument args "replacement")
      else if str_eq name "create_directory"
      then lift (bind_arguments ("path" ∷ []) [] args)
        >> create_directory t.place (argument args "path")
      else if str_eq name "organize_files"
      then lift (bind_arguments [] ("path" ∷ "apply" ∷ []) args)
        >> organize_files t.place t.sorted_names t.number (get_or args "path" (str "."))
            (get_or args "apply" (bool false))
      else if str_eq name "run_command"
      then lift (bind_arguments ("command" ∷ []) ("cwd" ∷ []) args)
        >> run_command (argument args "command") (get_or args "cwd" (str "."))
      else if str_eq name "capture_screenshot"
      then t.screenshot args
      else λ disk. (t.reads name args disk, disk)

  unfoldable pub invoke : String → Fields → Act Disk Exception ToolResult
  unfolding normalize_tool_args call translate
  invoke name args =
      if not (one_of (readers ++ writers) name)
      then raise (tool_error (concat ("unknown tool: " ∷ name ∷ [])))
      else do
        cleaned ← lift (normalize_tool_args words args)
        rescue (call name cleaned) (λ e. raise (translate e))
