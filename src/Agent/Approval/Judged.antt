-- ===== src/Agent/Approval/Judged.antt =====
-- That `run_command` is given the command that `requires_approval` judged.
use ai_agent_ollama.Base.{
  String, ◌≡◌, refl, ◌∙◌, sym, inl, inr, Bool, true, false, not, Option, some, str_eq, eq_iff,
  Bool-cases, Result, ok, err, arith,
}
use mathlib.Core.Path.{subst}
use ai_agent_ollama.Base.Dict.{lookup}
use ai_agent_ollama.Values.{Value, Fields, null, bool, int, float, str, arr, obj, other, fields}
use ai_agent_ollama.Errors.{Exception}
use ai_agent_ollama.Agent.Texts.{Words, normalize_tool_text, normalize_key, normalize_tool_args}
use ai_agent_ollama.Agent.Texts.Arguments.{normalized_text, unchanged_command, peel_still}
use ai_agent_ollama.Agent.Approval.{Workspace, is_read_only, is_forbidden, command_requires}

-- what is used of the functions on texts
pub record IsWords (w : Words) : Type 0 where
  pub render-str : (s : String) → w.render (str s) ≡ s
  pub unescape_empty : w.unescape "" ≡ ""
  pub resolve_links_empty : w.resolve_links "" ≡ ""

-- a command that `is_read_only` accepts, and that none of the guards stops
abbrev pub IsQuiet : Workspace → String → Type 0
IsQuiet ws command = (is_read_only ws.words command ≡ true) × (is_forbidden ws command ≡ false)

not-false : (b : Bool) → not b ≡ false → b ≡ true
not-false true h = refl
not-false false h = absurd (cc h)

accepted-IsQuiet : (ws : Workspace) (c : String) → command_requires ws (ok c) ≡ false → IsQuiet ws c
unfolding command_requires
accepted-IsQuiet ws c h = elim (Bool-cases (is_forbidden ws c)) [
  | inl e ↦ absurd (cc (rw e at h))
  | inr e ↦ (not-false (is_read_only ws.words c) (rw e at h), e)
]

text_of_ok : {x y : String} → Path (Result Exception String) (ok x) (ok y) → x ≡ y
text_of_ok h = cc

normalize_empty : (w : Words) → IsWords w → (c : String) → normalize_tool_text w "" ≡ ok c → c ≡ ""
unfolding normalize_tool_text
normalize_empty w laws c h = ground (
  arith,
  peel_still w w.unescape 4 "" laws.unescape_empty,
  peel_still w w.resolve_links 10 "" laws.resolve_links_empty,
)

-- what `requires_approval` read is what `run_command` is given
module _ (ws : Workspace) (laws : IsWords ws.words) (args cleaned : Fields) where
  accepted :
      (t : String) (r : Result Exception String)
      → normalize_tool_text ws.words t ≡ r
      → command_requires ws r ≡ false
      → (c : String) × (normalize_tool_text ws.words t ≡ ok c) × IsQuiet ws c
  unfolding command_requires
  accepted t (ok c) e h = (c, e, accepted-IsQuiet ws c h)
  accepted t (err x) e h = absurd (cc h)

  text_injective : {x y : String} → Path Value (str x) (str y) → x ≡ y
  text_injective h = cc

  value_injective : {x y : Value} → Path (Option Value) (some x) (some y) → x ≡ y
  value_injective h = cc

  -- what `run_command` is given, if it is a text
  pub judged :
      (v : Value)
      → normalize_tool_args ws.words args ≡ ok cleaned
      → lookup "command" (fields args) ≡ some v
      → command_requires ws (normalize_tool_text ws.words (ws.words.render v)) ≡ false
      → (s : String) → lookup "command" (fields cleaned) ≡ some (str s)
      → IsQuiet ws s
  unfolding normalize_key
  judged (str t) n l h s e = elim (Bool-cases (str_eq t "")) [
    | inl empty ↦
        let blank : t ≡ "" = (eq_iff t "").0 empty in
        let (c, good, quiet) =
          accepted t (normalize_tool_text ws.words t) refl (rw (laws.render-str t) at h) in
        let same : lookup "command" (fields cleaned) ≡ some (str t) =
          unchanged_command ws.words args cleaned n (rw (l, empty)) ∙ l in
        let is_t : s ≡ t = text_injective (value_injective (sym e ∙ same)) in
        let is_c : c ≡ "" = normalize_empty ws.words laws c (rw blank at good) in
        subst (IsQuiet ws) (is_c ∙ sym blank ∙ sym is_t) quiet
    | inr full ↦
        let (c, good, quiet) =
          accepted t (normalize_tool_text ws.words t) refl (rw (laws.render-str t) at h) in
        let (d, cleaned_to, same) = normalized_text ws.words args cleaned t n l full in
        let is_d : s ≡ d = text_injective (value_injective (sym e ∙ same)) in
        subst (IsQuiet ws) (text_of_ok (sym good ∙ cleaned_to) ∙ sym is_d) quiet
  ]
  judged null n l h s e = absurd (cc (sym e ∙ unchanged_command ws.words args cleaned n (rw l) ∙ l))
  judged (bool b) n l h s e =
      absurd (cc (sym e ∙ unchanged_command ws.words args cleaned n (rw l) ∙ l))
  judged (int i) n l h s e =
      absurd (cc (sym e ∙ unchanged_command ws.words args cleaned n (rw l) ∙ l))
  judged (float x) n l h s e =
      absurd (cc (sym e ∙ unchanged_command ws.words args cleaned n (rw l) ∙ l))
  judged (arr xs) n l h s e =
      absurd (cc (sym e ∙ unchanged_command ws.words args cleaned n (rw l) ∙ l))
  judged (obj fs) n l h s e =
      absurd (cc (sym e ∙ unchanged_command ws.words args cleaned n (rw l) ∙ l))
  judged (other x) n l h s e =
      absurd (cc (sym e ∙ unchanged_command ws.words args cleaned n (rw l) ∙ l))
