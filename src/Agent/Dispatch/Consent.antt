-- ===== src/Agent/Dispatch/Consent.antt =====
-- What the tools do that need no approval: `invoke` of agent/tools.py where `requires_approval` says
-- no.
use ai_agent_ollama.Base.{
  String, ◌≡◌, refl, ◌∙◌, inl, inr, true, false, none, some, List, [], ◌∷◌, str_eq, eq_iff,
  Option-cases, Result, ok, err, arith,
}
use ai_agent_ollama.Base.Dict.{lookup}
use ai_agent_ollama.Base.Acting.{
  ◌>>=◌, raise, lift, rescue, Keeps, rescue-Keeps, guarded-Keeps, lifted-Keeps, if-Keeps,
}
use ai_agent_ollama.Values.{
  Value, Fields, null, bool, int, float, str, arr, obj, other, fields, get_or, truthy,
}
use ai_agent_ollama.Errors.{Exception}
use ai_agent_ollama.Agent.{FilePath}
use ai_agent_ollama.Agent.Texts.{
  one_of, normalize_tool_text, normalize_key, normalize_tool_args, normalized_keys,
}
use ai_agent_ollama.Agent.Texts.Arguments.{lookup-normalize_keys, unchanged_command}
use ai_agent_ollama.Agent.Approval.{command_requires, requires_approval}
use ai_agent_ollama.Agent.Disk.{Disk}
use ai_agent_ollama.Agent.Organize.{organize_at, organize_files}
use ai_agent_ollama.Agent.Dispatch.{LocalTools, run_command, call, translate, invoke}
use ai_agent_ollama.Agent.Approval.Judged.{IsWords, IsQuiet, judged}

module _ (t : LocalTools) (P : Disk → Type 0)
    (quiet : (command : String) (directory : FilePath) (disk : Disk)
      → IsQuiet t.workspace command
      → P disk
      → P (t.shell command directory disk).1) where
  run_command-Keeps :
      (command cwd : Value)
      → ((s : String) → command ≡ str s → IsQuiet t.workspace s)
      → Keeps P (run_command t command cwd)
  unfolding run_command
  run_command-Keeps (str s) cwd h disk p =
      guarded-Keeps P _ _ _
        (guarded-Keeps P _ _ _ (
          guarded-Keeps P _ _ _ (
            guarded-Keeps P _ _ _ (
              lifted-Keeps P _ _ λ directory.
                lifted-Keeps P _ _ λ _.
                  λ d q. guarded-Keeps P _ _ _ (λ d q. quiet s directory d (h s refl) q) d q))))
        disk p
  run_command-Keeps null cwd h s p = p
  run_command-Keeps (bool b) cwd h s p = p
  run_command-Keeps (int i) cwd h s p = p
  run_command-Keeps (float x) cwd h s p = p
  run_command-Keeps (arr xs) cwd h s p = p
  run_command-Keeps (obj fs) cwd h s p = p
  run_command-Keeps (other x) cwd h s p = p

  -- a preview moves nothing
  preview-Keeps :
      (path apply : Value)
      → truthy apply ≡ false
      → Keeps P (organize_files t.place t.sorted_names t.number path apply)
  unfolding organize_files organize_at
  preview-Keeps path apply h =
      lifted-Keeps P _ _
        λ target. lifted-Keeps P _ _ λ _ disk p. guarded-Keeps P _ _ _ (rw h (λ d q. q)) disk p

  reads-Keeps : (name : String) (args : Fields) → Keeps P (λ disk. (t.reads name args disk, disk))
  reads-Keeps name args disk p = p

  apply_kept :
      (args cleaned : Fields)
      → normalize_tool_args t.workspace.words args ≡ ok cleaned
      → get_or cleaned "apply" (bool false) ≡ get_or args "apply" (bool false)
  unfolding normalize_tool_args get_or
  apply_kept args cleaned n =
      rw
        (
          lookup-normalize_keys t.workspace.words normalized_keys "apply" args cleaned refl n,
          get_or,
        )
        refl

  abbrev needing : List String
  needing = "write_file" ∷ "patch_file" ∷ "create_directory" ∷ "capture_screenshot" ∷ []

  -- the names whose calls always need an approval
  refused :
      (listed name : String) (args : Fields)
      → one_of needing listed ≡ true
      → requires_approval t.workspace name args ≡ false
      → str_eq name listed ≡ true
      → ⊥
  unfolding requires_approval
  refused listed name args always h e = cc (rw ((eq_iff name listed).0 e, always) at h)

  organize_quiet :
      (name : String) (args cleaned : Fields)
      → normalize_tool_args t.workspace.words args ≡ ok cleaned
      → requires_approval t.workspace name args ≡ false
      → name ≡ "organize_files"
      → truthy (get_or cleaned "apply" (bool false)) ≡ false
  unfolding requires_approval
  organize_quiet name args cleaned n h e = rw (apply_kept args cleaned n) (rw e at h)

  command_judged :
      (name : String) (args : Fields)
      → requires_approval t.workspace name args ≡ false
      → name ≡ "run_command"
      → command_requires t.workspace (
          normalize_tool_text t.workspace.words
            (t.workspace.words.render (get_or args "command" (str ""))))
        ≡ false
  unfolding requires_approval
  command_judged name args h e = rw e at h

  missing_after :
      (args cleaned : Fields)
      → normalize_tool_args t.workspace.words args ≡ ok cleaned
      → lookup "command" (fields args) ≡ none
      → lookup "command" (fields cleaned) ≡ none
  unfolding normalize_key
  missing_after args cleaned n missing =
      unchanged_command t.workspace.words args cleaned n (rw missing refl) ∙ missing

  found_text :
      (cleaned : Fields) (s : String)
      → get_or cleaned "command" null ≡ str s
      → lookup "command" (fields cleaned) ≡ some (str s)
  unfolding get_or
  found_text cleaned s e = ground arith

  command-IsQuiet :
      (args cleaned : Fields)
      → IsWords t.workspace.words
      → normalize_tool_args t.workspace.words args ≡ ok cleaned
      → command_requires t.workspace (
          normalize_tool_text t.workspace.words
            (t.workspace.words.render (get_or args "command" (str ""))))
        ≡ false
      → (s : String) → get_or cleaned "command" null ≡ str s
      → IsQuiet t.workspace s
  unfolding get_or
  command-IsQuiet args cleaned laws n h s e = elim (Option-cases (lookup "command" (fields args))) [
    | inl missing ↦ absurd (cc (rw (missing_after args cleaned n missing, get_or) at e))
    | inr (v, found) ↦
        judged t.workspace laws args cleaned v n found (rw (found, get_or) at h) s
          (found_text cleaned s e)
  ]

  -- a call that needs no approval
  call-Keeps :
      (name : String) (args cleaned : Fields)
      → IsWords t.workspace.words
      → normalize_tool_args t.workspace.words args ≡ ok cleaned
      → requires_approval t.workspace name args ≡ false
      → Keeps P (call t name cleaned)
  unfolding call
  call-Keeps name args cleaned laws n h =
      if-Keeps P _ _ _ (λ e. absurd (refused "write_file" name args refl h e))
        λ _.
          if-Keeps P _ _ _ (λ e. absurd (refused "patch_file" name args refl h e))
            λ _.
              if-Keeps P _ _ _ (λ e. absurd (refused "create_directory" name args refl h e))
                λ _.
                  if-Keeps P _ _ _
                    (λ e. lifted-Keeps P _ _ λ _.
                      preview-Keeps _ _
                        (organize_quiet name args cleaned n h ((eq_iff name "organize_files").0 e)))
                    λ _.
                      if-Keeps P _ _ _
                        (λ e. lifted-Keeps P _ _ λ _. run_command-Keeps _ _ (
                          command-IsQuiet args cleaned laws n
                            (command_judged name args h ((eq_iff name "run_command").0 e))))
                        λ _.
                          if-Keeps P _ _ _
                            (λ e. absurd (refused "capture_screenshot" name args refl h e))
                            λ _. reads-Keeps name cleaned

  normalized-Keeps :
      (name : String) (args : Fields)
      → IsWords t.workspace.words
      → requires_approval t.workspace name args ≡ false
      → (r : Result Exception Fields) → normalize_tool_args t.workspace.words args ≡ r
      → Keeps P (lift r >>= λ cleaned. rescue (call t name cleaned) (λ e. raise (translate e)))
  unfolding ◌>>=◌
  normalized-Keeps name args laws h (ok cleaned) n disk p =
      rescue-Keeps P _ _ (call-Keeps name args cleaned laws n h) (λ e disk p. p) disk p
  normalized-Keeps name args laws h (err e) n disk p = p

  pub invoke-Keeps :
      (name : String) (args : Fields)
      → IsWords t.workspace.words
      → requires_approval t.workspace name args ≡ false
      → Keeps P (invoke t name args)
  unfolding invoke
  invoke-Keeps name args laws h =
      if-Keeps P _ _ _ (λ _ disk p. p)
        λ _. normalized-Keeps name args laws h (normalize_tool_args t.workspace.words args) refl
