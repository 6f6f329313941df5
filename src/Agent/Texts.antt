-- ===== src/Agent/Texts.antt =====
-- What agent/tools.py does to the texts that a model gives: `normalize_tool_text` and
-- `normalize_tool_args`, and the functions on texts that the tools use.
pub mod Arguments
use Prim.Native.String.{len, slice, find, count}
use ai_agent_ollama.Base.{
  ℕ, zero, suc, ◌-◌, leb, String, Bool, true, false, not, ◌&&◌, Option, none, some, List, [], ◌∷◌,
  str_eq, if◌then◌else◌, Result, ok, err, ◌>>=◌, any,
}
use ai_agent_ollama.Base.Dict.{Dict, lookup}
use ai_agent_ollama.Values.{Value, Fields, null, str, end, field, fields, get_or}
use ai_agent_ollama.Errors.{Exception}
use ai_agent_ollama.Agent.{tool_error}

-- The functions on texts of Python's library that depend on Unicode or HTML, and the regular
-- expressions of agent/tools.py by what they find.
pub record Words : Type 0 where
  pub lower : String → String  -- `s.lower()`
  pub strip : String → String  -- `s.strip()`
  pub words : String → List String  -- `s.split()`
  pub unescape : String → String  -- `html.unescape`
  pub resolve_links : String → String  -- `_MARKDOWN_LINK_RE.sub`, with the visible text
  pub malformed_link : String → Bool  -- `_MALFORMED_LINK_RE.search`
  pub shlex : String → Option (List String)  -- `shlex.split`, `none` for `ValueError`
  pub special : String → Bool  -- `[;|&><`$\n]` is in it
  pub segments : String → List String  -- `re.split(r"[;&|\r\n]+", …)`
  pub file_name : String → String  -- without quotes, and from the last slash on
  pub hard_pattern : String → Bool  -- one of `HARD_BLOCKS` is in it
  pub without_urls : String → String  -- `_URL_RE.sub`
  pub escapes_parent : String → Bool  -- `_PARENT_ESCAPE_RE.search`
  pub unc_paths : String → List String  -- the matches, stripped of ".,;)"
  pub windows_paths : String → List String
  pub posix_paths : String → List String
  pub slashed : String → String  -- `.replace("\\", "/")`
  pub suffix : String → String  -- `path.suffix.lower()` of a path with this name
  pub render : Value → String  -- `str(…)`
  pub first : ℕ → String → String  -- `text[:n]`

-- `part in text`
unfoldable pub has_part : String → String → Bool
has_part part text = leb (find text part) (len text)

-- `name in (…)`
abbrev pub one_of : List String → String → Bool
one_of names name = any (λ other. str_eq other name) names

-- one round of the loop of `normalize_tool_text` after another, until nothing changes
unfoldable pub peel : (String → String) → ℕ → String → String
peel step zero text = text
peel step (suc rounds) text =
    let more = peel step rounds (step text) in if str_eq (step text) text then text else more

unfoldable pub normalize_tool_text : Words → String → Result Exception String
unfolding peel
normalize_tool_text w value =
    let text = peel w.resolve_links 10 (peel w.unescape 4 value) in
    if w.malformed_link text
    then err (tool_error "the text has an invalid Markdown link; write the name as plain text")
    else ok text

abbrev pub normalized_keys : List String
normalized_keys = "command" ∷ "path" ∷ "cwd" ∷ "output_path" ∷ "url" ∷ []

-- `cleaned[key] = …` on a key that is there
unfoldable pub set_field : String → Value → Fields → Fields
set_field key new end = end
set_field key new (field k v rest) =
    let later = set_field key new rest in if str_eq k key then field k new rest else field k v later

-- one key of the loop of `normalize_tool_args`
unfoldable pub normalize_key : Words → String → Option Value → Fields → Result Exception Fields
unfolding set_field
normalize_key w key (some (str text)) args =
    if str_eq text ""
    then ok args
    else (normalize_tool_text w text >>= λ cleaned. ok (set_field key (str cleaned) args))
normalize_key w key value args = ok args

unfoldable pub normalize_keys : Words → List String → Fields → Result Exception Fields
normalize_keys w [] args = ok args
normalize_keys w (key ∷ rest) args =
    normalize_key w key (lookup key (fields args)) args >>= normalize_keys w rest

unfoldable pub normalize_tool_args : Words → Fields → Result Exception Fields
unfolding normalize_keys
normalize_tool_args w args = normalize_keys w normalized_keys args

-- `name[:-len(suffix)]` if it ends with the suffix
unfoldable pub without_suffix : String → String → Option String
without_suffix suffix name =
    if leb (len suffix) (len name) && str_eq (slice name (len name - len suffix) (len name)) suffix
    then some (slice name 0 (len name - len suffix))
    else none
