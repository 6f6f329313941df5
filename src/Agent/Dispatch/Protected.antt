-- ===== src/Agent/Dispatch/Protected.antt =====
-- That the file tools of agent/tools.py leave alone what is outside of the workspace or sensitive.
use ai_agent_ollama.Base.{String, false, not, ◌≡◌, ◌∙◌, sym, some, ◌++◌, str_eq, err}
use ai_agent_ollama.Base.Acting.{
  ◌>>=◌, raise, lift, rescue, Keeps, rescue-Keeps, lifted-Keeps, if-Keeps,
}
use ai_agent_ollama.Values.{Fields}
use ai_agent_ollama.Errors.{Exception}
use ai_agent_ollama.Agent.{FilePath}
use ai_agent_ollama.Agent.Texts.{one_of, normalize_tool_args}
use ai_agent_ollama.Agent.Paths.{assert_not_sensitive}
use ai_agent_ollama.Agent.Disk.{Node, Disk, same_path, look}
use ai_agent_ollama.Agent.Files.{temporary}
use ai_agent_ollama.Agent.Dispatch.{LocalTools, readers, writers, call, invoke, translate}
use ai_agent_ollama.Agent.Disk.Holds.{Holds}
use ai_agent_ollama.Agent.Files.Holds.{write_file-Holds, patch_file-Holds, create_directory-Holds}
use ai_agent_ollama.Agent.Organize.Holds.{organize_files-Holds}

module _ (t : LocalTools) (q : FilePath) (node : Node) (reason : Exception)
    (refused : assert_not_sensitive t.place q ≡ err reason)
    (not_temporary : (target : FilePath) → same_path (temporary target) q ≡ false) (name : String)
    (no_command : str_eq name "run_command" ≡ false)
    (no_browser : str_eq name "capture_screenshot" ≡ false) where
  call-Holds : (args : Fields) → Keeps (Holds q node) (call t name args)
  unfolding call
  call-Holds args =
      if-Keeps (Holds q node) (str_eq name "write_file") _ _
        (λ _.
          lifted-Keeps (Holds q node) _ _
            λ _. write_file-Holds t.place q node reason refused not_temporary t.faults _ _)
        λ _.
          if-Keeps (Holds q node) (str_eq name "patch_file") _ _
            (λ _. lifted-Keeps (Holds q node) _ _ λ _.
              patch_file-Holds t.place q node reason refused not_temporary t.faults t.utf8 _ _ _)
            λ _.
              if-Keeps (Holds q node) (str_eq name "create_directory") _ _
                (λ _.
                  lifted-Keeps (Holds q node) _ _
                    λ _. create_directory-Holds t.place q node reason refused not_temporary _)
                λ _.
                  if-Keeps (Holds q node) (str_eq name "organize_files") _ _
                    (λ _. lifted-Keeps (Holds q node) _ _ λ _.
                      organize_files-Holds t.place q node reason refused not_temporary
                        t.sorted_names t.number _ _)
                    λ _.
                      if-Keeps (Holds q node) (str_eq name "run_command") _ _
                        (λ e. absurd (cc (sym no_command ∙ e)))
                        λ _.
                          if-Keeps (Holds q node) (str_eq name "capture_screenshot") _ _
                            (λ e. absurd (cc (sym no_browser ∙ e))) (λ _ disk h. h)

  translated-Holds :
      (args : Fields)
      → Keeps (Holds q node) (
          lift (normalize_tool_args t.workspace.words args) >>= λ cleaned.
          rescue (call t name cleaned) (λ e. raise (translate e)))
  translated-Holds args =
      lifted-Keeps (Holds q node) (normalize_tool_args t.workspace.words args) _ λ cleaned.
        rescue-Keeps (Holds q node) (call t name cleaned) (λ e. raise (translate e))
          (call-Holds cleaned) (λ e d k. k)

  invoke-Holds : (args : Fields) → Keeps (Holds q node) (invoke t name args)
  unfolding invoke
  invoke-Holds args =
      if-Keeps (Holds q node) (not (one_of (readers ++ writers) name)) _ _ (λ _ d k. k)
        (λ _. translated-Holds args)

  -- A call of a tool other than the shell and the browser leaves every file and folder that
  -- `_assert_not_sensitive` refuses, outside of the workspace too, as it is; a path of the form of a
  -- temporary file is left out.
  pub invoke_protects :
      (args : Fields) (disk : Disk)
      → look q disk ≡ some node
      → look q (invoke t name args disk).1 ≡ some node
  unfolding Holds
  invoke_protects args disk h = invoke-Holds args disk h
