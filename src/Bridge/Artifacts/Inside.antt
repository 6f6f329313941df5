-- ===== src/Bridge/Artifacts/Inside.antt =====
-- What is offered as an artifact lies in the workspace or in the data directory.
use ai_agent_ollama.Base.{String, ◌≡◌, true, Option, none, some, List, Result, ok}
use ai_agent_ollama.Base.All.{All}
use ai_agent_ollama.Errors.{Exception}
use ai_agent_ollama.Bridge.Artifacts.{Files, Artifact, artifact, place}

-- A path that was tried, resolved to an existing file, and described by the place of what it was
-- resolved to under one of the two directories.
pub record IsOffered (fs : Files) (a : Artifact) : Type 0 where
  pub raw : String
  pub resolved : String
  pub resolves : fs.resolve raw ≡ ok resolved
  pub exists : fs.is_file resolved ≡ ok true
  pub located : place fs resolved ≡ some a.path
  pub described : a ≡ artifact fs resolved a.path

module _ (fs : Files) where
  -- what one root may give
  abbrev Fine : Option Artifact → Type 0
  Fine none = Unit
  Fine (some a) = IsOffered fs a

  abbrev Offers : Result Exception (List Artifact) → Type 0
  Offers r = (found : List Artifact) → r ≡ ok found → All (IsOffered fs) found
