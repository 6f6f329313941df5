-- ===== src/Bridge/Artifacts.antt =====
-- `_collect_artifacts` of local_agent/bridge/api/handlers.py: the files that a tool's text names.
pub mod Inside
use ai_agent_ollama.Base.{
  String, Bool, true, false, Option, none, some, List, [], ◌∷◌, ◌++◌, any, str_eq, if◌then◌else◌,
  Result, ok, err, ◌>>=◌,
}
use ai_agent_ollama.Errors.{Exception, is_os_error}
use ai_agent_ollama.Values.{Value, str, obj, field, end}

-- Python's paths, regular expressions and `str` methods, over the file system that is there.
-- `tokens` are the matches of the token pattern without their trailing punctuation, and `relative path root` is none where `path` is not under `root`.
pub record Files : Type 0 where
  pub tokens : String → List String
  pub lower : String → String
  pub is_absolute : String → Bool
  pub join : String → String → String
  pub base_name : String → String
  pub suffix : String → String
  pub resolve : String → Result Exception String
  pub is_file : String → Result Exception Bool
  pub relative : String → String → Option String
  pub work_dir : String
  pub data_dir : String

pub record Artifact : Type 0 where
  pub name : String
  pub path : String
  pub kind : String

module _ (fs : Files) where
  -- `_IMAGE_EXT`
  abbrev image_extensions : List String
  image_extensions = ".png" ∷ ".jpg" ∷ ".jpeg" ∷ ".gif" ∷ ".webp" ∷ ".bmp" ∷ []

  unfoldable pub kind_of : String → String
  kind_of resolved =
      if any (str_eq (fs.lower (fs.suffix resolved))) image_extensions then "image" else "file"

  unfoldable pub artifact : String → String → Artifact
  unfolding kind_of
  artifact resolved relative_to = record {
    name = fs.base_name resolved;
    path = relative_to;
    kind = kind_of resolved;
  }

  -- `roots_to_try`
  unfoldable pub roots_to_try : String → List String
  roots_to_try token =
      if fs.is_absolute token
      then token ∷ []
      else fs.join fs.work_dir token
        ∷ fs.join fs.data_dir token
        ∷ fs.join (fs.join fs.data_dir "screenshots") (fs.base_name token)
        ∷ []

  -- the place of a file under one of the two directories
  unfoldable pub place : String → Option String
  place resolved = elim (fs.relative resolved fs.work_dir) [
    | some relative_to ↦ some relative_to
    | none ↦ fs.relative resolved fs.data_dir
  ]

  -- what a file gives
  abbrev pub placed : String → Option String → Option Artifact
  placed resolved none = none
  placed resolved (some relative_to) = some (artifact resolved relative_to)

  -- what one root gives: none where the loop goes on to the next root
  unfoldable pub descriptor : String → Result Exception (Option Artifact)
  unfolding place artifact
  descriptor raw = elim (fs.resolve raw) [
    | err e ↦ if is_os_error e then ok none else err e
    | ok resolved ↦ elim (fs.is_file resolved) [
      | err e ↦ err e
      | ok false ↦ ok none
      | ok true ↦ ok (placed resolved (place resolved))
    ]
  ]

  -- the inner loop, which ends at the first root that gives one
  unfoldable pub first_descriptor : List String → Result Exception (List Artifact)
  unfolding descriptor
  first_descriptor [] = ok []
  first_descriptor (raw ∷ rest) = elim (descriptor raw) [
    | err e ↦ err e
    | ok (some found) ↦ ok (found ∷ [])
    | ok none ↦ first_descriptor rest
  ]

  -- the outer loop: a token that was seen, in any case of its letters, is skipped
  unfoldable pub collect_tokens : List String → List String → Result Exception (List Artifact)
  unfolding first_descriptor roots_to_try
  collect_tokens seen [] = ok []
  collect_tokens seen (token ∷ rest) =
      let skipped = collect_tokens seen rest in
      let later = collect_tokens (fs.lower token ∷ seen) rest in
      if any (str_eq (fs.lower token)) seen
      then skipped
      else (do found ← first_descriptor (roots_to_try token); others ← later; ok (found ++ others))

  unfoldable pub collect_artifacts : String → Result Exception (List Artifact)
  unfolding collect_tokens
  collect_artifacts text = if str_eq text "" then ok [] else collect_tokens [] (fs.tokens text)
