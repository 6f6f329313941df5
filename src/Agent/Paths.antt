-- ===== src/Agent/Paths.antt =====
-- Which paths the tools may touch: `_path`, `_assert_not_sensitive` and `_visible` of agent/tools.py.
use text.Mathlib.Text.{starts_with}
use ai_agent_ollama.Base.{
  String, Bool, false, not, ◌||◌, ◌≡◌, Option, none, some, is_some, List, [], ◌∷◌, map, any, str_eq,
  if◌then◌else◌, Result, ok, err,
}
use ai_agent_ollama.Values.{Value, str}
use ai_agent_ollama.Errors.{Exception}
use ai_agent_ollama.Agent.{FilePath, tool_error}
use ai_agent_ollama.Agent.Texts.{Words, has_part, one_of}
use ai_agent_ollama.Agent.Disk.{name_of}

-- `located` is `(root / value).resolve()`, or `Path(value).resolve()` of an absolute path
pub record Root : Type 0 where
  pub root : FilePath
  pub located : String → FilePath
  pub words : Words

-- `path.relative_to(root)`, `none` for `ValueError`
unfoldable pub relative_to : (root path : FilePath) → Option FilePath
relative_to [] path = some path
relative_to (a ∷ root) [] = none
relative_to (a ∷ root) (b ∷ path) =
    let below = relative_to root path in if str_eq a b then below else none

-- `_path`
unfoldable pub path_of : Root → Value → Result Exception FilePath
unfolding relative_to
path_of r (str value) =
    if str_eq (r.words.strip value) ""
    then err (tool_error "the path must be a text that is not empty")
    else if is_some (relative_to r.root (r.located value))
    then ok (r.located value)
    else err (tool_error "no access outside of WORKSPACE_ROOT")
path_of r value = err (tool_error "the path must be a text that is not empty")

abbrev pub sensitive_parts : List String
sensitive_parts = ".ssh" ∷ ".gnupg" ∷ ".aws" ∷ ".config/gcloud" ∷ []

abbrev pub sensitive_names : List String
sensitive_names =
    ".env" ∷ ".envrc" ∷ "id_rsa" ∷ "id_ed25519" ∷ "credentials" ∷ "credentials.json" ∷ []

-- the test on the last name of the path
unfoldable pub is_secret_name : String → Bool
unfolding has_part
is_secret_name name =
    one_of sensitive_names name || starts_with name ".env." || has_part "credential" name

unfoldable pub assert_not_sensitive : Root → FilePath → Result Exception Unit
unfolding relative_to is_secret_name
assert_not_sensitive r path = elim (relative_to r.root path) [
  | none ↦ err (Exception.value_error "the path is not in the subpath of the root")
  | some parts ↦
      if any (λ part. one_of (map r.words.lower parts) part) sensitive_parts
      then err (tool_error "a sensitive file or folder cannot be read or changed by the agent")
      else if is_secret_name (r.words.lower (name_of path))
      then err (tool_error "a secret file (.env / credential / key) is protected")
      else ok tt
]

abbrev pub ignored_parts : List String
ignored_parts =
    ".git" ∷ "node_modules" ∷ ".venv" ∷ "venv" ∷ "__pycache__" ∷ ".gradle" ∷ ".cache" ∷ "appdata"
    ∷ []

unfoldable pub visible : Root → FilePath → Bool
unfolding assert_not_sensitive relative_to
visible r path = elim (assert_not_sensitive r path) [
  | err e ↦ false
  | ok _ ↦ elim (relative_to r.root path) [
    | none ↦ false
    | some parts ↦ not (any (one_of (map r.words.lower parts)) ignored_parts)
  ]
]

-- a path that the tools may touch: below the root, and not sensitive
abbrev pub IsAllowed : Root → FilePath → Type 0
IsAllowed r path = assert_not_sensitive r path ≡ ok tt
