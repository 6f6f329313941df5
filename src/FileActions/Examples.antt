-- ===== src/FileActions/Examples.antt =====
-- A working directory with a file, next to another folder.
use ai_agent_ollama.Base.{
  ◌≡◌, refl, String, true, false, none, some, [], ◌∷◌, str_eq, if◌then◌else◌,
}
use ai_agent_ollama.Base.Acting.{◌>>=◌, guard, rescue}
use ai_agent_ollama.Values.{str}
use ai_agent_ollama.Agent.{FilePath}
use ai_agent_ollama.Agent.Paths.{relative_to}
use ai_agent_ollama.Agent.Disk.{
  Disk, file, folder, look, same_path, put, remove, rename, make_folder, make_folders,
}
use ai_agent_ollama.Cleanup.{under}
use ai_agent_ollama.FileActions.{
  Place, Drive, temporary, write_file, resolve_path, accepted, assert_not_sensitive,
  has_sensitive_part, is_secret_name, make_parents, write_bytes, replace,
}
use ai_agent_ollama.Agent.Texts.{has_part}
use ai_agent_ollama.FileActions.Sandbox.{writes, deletes, disk_after, sandboxed}

abbrev work : FilePath
work = "home" ∷ "work" ∷ []

abbrev note : FilePath
note = "home" ∷ "note" ∷ []

-- the texts of the paths that the examples name
abbrev located : String → FilePath
located raw =
    if str_eq raw "."
    then work
    else if str_eq raw "../note"
    then note
    else "home" ∷ "work" ∷ raw ∷ []

abbrev place : Place
place = record {
  work_dir = work;
  full_system_access = false;
  located = located;
  printed = λ p. "";
  lower = λ s. s;
  strip = λ s. s;
}

abbrev drive : Drive
drive = record {
  write_fails = λ p. none;
  replace_fails = λ p. false;
  unlink_fails = λ p. false;
  rmtree_fails = λ p. none;
  move_fails = λ p. false;
}

abbrev disk : Disk
disk =
    ("home" ∷ [], folder)
    ∷ (work, folder)
    ∷ ("home" ∷ "work" ∷ "plan" ∷ [], file "a plan")
    ∷ (note, file "a note")
    ∷ []

outside : under work note ≡ false
unfolding relative_to
outside = refl

not_temporary : same_path (temporary work) note ≡ false
unfolding same_path
not_temporary = refl

note_there : look note disk ≡ some (file "a note")
unfolding look same_path
note_there = refl

sandboxed_example :
    look note (disk_after place drive (deletes (str ".") true) disk) ≡ some (file "a note")
sandboxed_example =
    sandboxed place drive note (file "a note") refl outside not_temporary (deletes (str ".") true)
      disk note_there

-- Writing to the working directory itself leaves a file next to it.
leaves_temporary :
    look ("home" ∷ "work.tmp" ∷ []) (disk_after place drive (writes (str ".") "text") disk)
    ≡ some (file "text")
unfolding write_file resolve_path relative_to accepted assert_not_sensitive has_sensitive_part
    is_secret_name has_part make_parents make_folders make_folder write_bytes replace rename put
    remove look same_path ◌>>=◌ guard rescue
leaves_temporary = refl
