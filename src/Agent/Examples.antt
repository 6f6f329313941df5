-- ===== src/Agent/Examples.antt =====
-- A workspace with a note and a secret, and an agent that lists files and answers.
use Prim.Native.String.{slice}
use text.Mathlib.TextPositions.{slice-append_left}
use mathlib.Core.Path.{subst}
use ai_agent_ollama.Base.{
  ℕ, zero, suc, String, ◌≡◌, refl, sym, ◌∙◌, ap, true, false, inl, inr, none, some, List, [], ◌∷◌,
  str_eq, if◌then◌else◌, concat, Bool-cases, Result, ok, err, arith,
}
use ai_agent_ollama.Values.{pos, Fields, str, end, field}
use ai_agent_ollama.Errors.{Exception, other, value_error}
use ai_agent_ollama.Storage.{Texts, Entry}
use ai_agent_ollama.Agent.{FilePath}
use ai_agent_ollama.Agent.Texts.{Words}
use ai_agent_ollama.Agent.Approval.{Workspace, is_read_only}
use ai_agent_ollama.Agent.Paths.{Root, assert_not_sensitive, relative_to}
use ai_agent_ollama.Agent.Disk.{file, folder, Disk, same_path, same_path_eq, look, name_of, parent}
use ai_agent_ollama.Agent.Files.{Faults, temporary, write_text}
use ai_agent_ollama.Agent.Files.Atomic.{AllOrNothing, write_text_lem, name_of-child}
use ai_agent_ollama.Agent.Dispatch.{LocalTools, Completed, exited, invoke}
use ai_agent_ollama.Agent.Approval.Judged.{IsWords, IsQuiet}
use ai_agent_ollama.Agent.Dispatch.Protected.{invoke_protects}
use ai_agent_ollama.Agent.Brain.{Agent, Memory, ModelReply, ModelClient}
use ai_agent_ollama.Agent.Brain.Loop.{run}
use ai_agent_ollama.Agent.Brain.Consent.{run_unapproved}
use ai_agent_ollama.Agent.Brain.Turns.{Ends, IsOurs}
use ai_agent_ollama.Agent.Brain.Ends.{run-Ends}

abbrev words : Words
words = record {
  lower = λ s. s;
  strip = λ s. s;
  words = λ s. s ∷ [];
  unescape = λ s. s;
  resolve_links = λ s. s;
  malformed_link = λ s. false;
  shlex = λ s. some (s ∷ []);
  special = λ s. false;
  segments = λ s. s ∷ [];
  file_name = λ s. s;
  hard_pattern = λ s. false;
  without_urls = λ s. s;
  escapes_parent = λ s. false;
  unc_paths = λ s. [];
  windows_paths = λ s. [];
  posix_paths = λ s. [];
  slashed = λ s. s;
  suffix = λ s. "";
  render = λ v. elim v [ str s ↦ s | _ ↦ "None" ];
  first = λ n s. s;
}

abbrev words-IsWords : IsWords words
words-IsWords = record { render-str = λ s. refl; unescape_empty = refl; resolve_links_empty = refl }

abbrev place : Root
place = record { root = "work" ∷ []; located = λ s. "work" ∷ s ∷ []; words = words }

abbrev workspace : Workspace
workspace = record { words = words; inside = λ s. false; resolves_inside = λ s. false }

abbrev faults : Faults
faults = record { write_fails = λ p. none; rename_fails = λ p. false; unlink_fails = λ p. false }

abbrev secret : FilePath
secret = "home" ∷ "id_rsa" ∷ []

abbrev disk : Disk
disk = ("work" ∷ [], folder) ∷ ("work" ∷ "a.txt" ∷ [], file "a note") ∷ (secret, file "a key") ∷ []

-- a shell that empties the disk, unless the command only reads
abbrev shell : String → FilePath → Disk → Completed × Disk
shell command directory before =
    (exited "done" "0", if is_read_only words command then before else [])

abbrev tools : LocalTools
tools = record {
  place = place;
  workspace = workspace;
  faults = faults;
  utf8 = λ s. true;
  sorted_names = λ ps. ps;
  number = λ n. "some";
  max_output = 1000;
  shell_name = "bash";
  timeout = "60";
  shell = shell;
  screenshot = λ args before. (err (other "ToolError" "no browser"), before);
  reads = λ name args before. err (other "ToolError" "not here");
}

write_text_lem_example :
    AllOrNothing faults
      ("work" ∷ "a.txt" ∷ [])
      "new"
      disk
      (write_text faults place ("work" ∷ "a.txt" ∷ []) "new" disk)
write_text_lem_example =
    write_text_lem faults ("work" ∷ "a.txt" ∷ []) "new" disk place (omega arith)

secret_outside :
    assert_not_sensitive place secret
    ≡ err (value_error "the path is not in the subpath of the root")
unfolding assert_not_sensitive relative_to
secret_outside = refl

undotted : ◌≡◌ {A = String} "." "i" → ⊥
undotted h = cc (ap (str_eq ".") h)

dotted : (name : String) → slice (concat ("." ∷ name ∷ ".agent-tmp" ∷ [])) 0 1 ≡ "."
dotted name = slice-append_left "." (concat (name ∷ ".agent-tmp" ∷ []))

secret_lasts : (target : FilePath) → same_path (temporary target) secret ≡ false
secret_lasts target = elim (Bool-cases (same_path (temporary target) secret)) [
  | inr e ↦ e
  | inl e ↦ absurd (
      undotted (
        sym (dotted (name_of target))
        ∙ ap (λ s. slice s 0 1)
            (sym (name_of-child (parent target) (concat ("." ∷ name_of target ∷ ".agent-tmp" ∷ [])))
              ∙ ap name_of (same_path_eq (temporary target) secret e))))
]

abbrev new_note : Fields
new_note = field "path" (str "a.txt") (field "content" (str "new") end)

invoke_protects_example :
    look secret (invoke tools "write_file" new_note disk).1 ≡ some (file "a key")
unfolding look same_path
invoke_protects_example =
    invoke_protects tools secret (file "a key")
      (value_error "the path is not in the subpath of the root") secret_outside secret_lasts
      "write_file" refl refl new_note disk refl

abbrev texts : Texts
texts = record {
  first_1000 = λ s. s;
  first_4000 = λ s. s;
  first_14000 = λ s. s;
  dumps = λ fs. "";
  loads = λ s. none;
  render = λ v. elim v [ str s ↦ s | _ ↦ "None" ];
}

-- the model lists the files, tries to write one, and is stopped
abbrev replies : ℕ → List Entry → Result Exception ModelReply
replies zero messages = ok (record {
  content = "";
  tool_calls = record { name = "run_command"; arguments = field "command" (str "ls") end } ∷ [];
})
replies (suc turn) messages = ok (record {
  content = "a new note";
  tool_calls = record { name = "write_file"; arguments = new_note } ∷ [];
})

abbrev agent : Agent
agent = record {
  tools = tools;
  texts = texts;
  unfenced = λ s. s;
  as_dict = λ v. ok end;
  default_provider = "ollama";
  max_agent_turns = 5;
  auto_approve_mutations = false;
  system = λ provider model. "work with the tools";
  client_for = λ chat provider model. ok (record { model = "local"; complete = replies });
}

abbrev memory : Memory
memory = record {
  storage = record {
    messages = [];
    chat_state = [];
    pending_actions = [];
    chat_preferences = [];
    audit_events = [];
  };
  disk = disk;
  said = [];
}

-- what the disk of this example keeps
abbrev HasNote : Disk → Type 0
HasNote d = look ("work" ∷ "a.txt" ∷ []) d ≡ some (file "a note")

quiet_shell :
    (command : String) (directory : FilePath) (before : Disk)
    → IsQuiet workspace command
    → HasNote before
    → HasNote (shell command directory before).1
quiet_shell command directory before quiet h = rw quiet.0 h

run_unapproved_example : HasNote (run agent (pos 7) "look around" end memory).1.disk
unfolding look same_path
run_unapproved_example =
    run_unapproved agent (pos 7) HasNote words-IsWords refl quiet_shell "look around" memory refl

abbrev NeverOurs : ModelClient → Type 0
NeverOurs client =
    (turn : ℕ) (messages : List Entry) (e : Exception)
    → client.complete turn messages ≡ err e
    → IsOurs e

replies_fine : NeverOurs (record { model = "local"; complete = replies })
replies_fine zero messages e h = absurd (cc h)
replies_fine (suc turn) messages e h = absurd (cc h)

client_injective : {c d : ModelClient} → Path (Result Exception ModelClient) (ok c) (ok d) → c ≡ d
client_injective h = cc

run-Ends_example : Ends agent (pos 7) (run agent (pos 7) "look around" end memory)
run-Ends_example =
    run-Ends agent (pos 7) (λ provider model e h. absurd (cc h))
      (λ provider model client h. subst NeverOurs (client_injective h) replies_fine) "look around"
      end memory
