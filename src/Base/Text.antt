-- ===== src/Base/Text.antt =====
-- Texts built by f-strings.
use Prim.Native.String
use Prim.Native.String.{String}
use mathlib.Core.List.{List, [], ◌∷◌}
use text.Mathlib.Text.{◌==◌}
use ai_agent_ollama.Base.Tests.{if◌then◌else◌}

-- the parts of an f-string, put together
abbrev pub concat : List String → String
concat [] = ""
concat (s ∷ rest) = String.◌++◌ s (concat rest)

-- `a or b` on texts: the empty text is false
abbrev pub text_or : String → String → String
text_or a b = if a == "" then b else a

-- `repr` of a text that has no quote and no escape in it
abbrev pub quoted : String → String
quoted s = concat ("'" ∷ s ∷ "'" ∷ [])
