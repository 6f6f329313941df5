-- ===== src/Cleanup/Examples.antt =====
-- A home with the data of the program, a note, and a repository.
use ai_agent_ollama.Base.{
  ◌≡◌, refl, sym, ◌∙◌, inl, inr, Bool-cases, is_ok, not, ◌&&◌, ◌||◌, true, false, Option, none,
  some, [], ◌∷◌, ok,
}
use mathlib.Core.Path.{subst}
use ai_agent_ollama.Values.{pos}
use ai_agent_ollama.Agent.{FilePath}
use ai_agent_ollama.Agent.Disk.{file, folder, look, is_dir, same_path}
use ai_agent_ollama.Agent.Paths.{relative_to}
use ai_agent_ollama.Cleanup.{
  desktop_file, Host, Machine, under, is_cache, leads_to_cache, remove_tree, remove_entries,
  remove_entry, remove_root, rmtree, delete_file, rmdir, prune, clean_repo_caches, caches,
  remove_caches,
}
use ai_agent_ollama.Cleanup.Purge.{
  Options, Report, resolve_data_dir, home_guard, purge_all, confirms, purge_with_confirmation,
  purge_steps, cleaned, deleted, released, unregistered, stopped, stop_recorded, stop_pid,
  terminate_pid, recorded_pid, unregister, disable, unregister_or_report, release_logs, delete_data,
  delete_caches,
}
use ai_agent_ollama.Cleanup.Complete.{purge_complete}
use ai_agent_ollama.Agent.Organize.{children}
use ai_agent_ollama.Cleanup.Spares.{under_trans, cache-under}
use ai_agent_ollama.Cleanup.Safety.{purge_spares, purge_untouched}

abbrev data_dir : FilePath
data_dir = "home" ∷ "user" ∷ "data" ∷ []

abbrev repo : FilePath
repo = "home" ∷ "user" ∷ "repo" ∷ []

abbrev host : Host
host = record {
  resolve = λ p. p;
  home = ok ("home" ∷ "user" ∷ []);
  own_pid = 1;
  stubborn = λ pid. false;
  read_int = λ text. some (pos 7);
  autostart = desktop_file ("home" ∷ "user" ∷ "assistant.desktop" ∷ []);
  shutdown_logging = ok tt;
  sorted_paths = λ paths. paths;
  iterdir_fails = λ p. false;
  rmtree_fails = λ p. none;
  unlink_fails = λ p. false;
  rmdir_fails = λ p. false;
}

abbrev options : Options
options = record {
  dry_run = false;
  kill_processes = true;
  include_autostart = true;
  include_repo_caches = true;
  close_logging = true;
  repo_root = some repo;
}

abbrev machine : Machine
machine = record {
  disk =
      ("home" ∷ [], folder)
      ∷ ("home" ∷ "user" ∷ [], folder)
      ∷ ("home" ∷ "user" ∷ "note" ∷ [], file "a note")
      ∷ ("home" ∷ "user" ∷ "assistant.desktop" ∷ [], file "[Desktop Entry]")
      ∷ (data_dir, folder)
      ∷ ("home" ∷ "user" ∷ "data" ∷ "desktop.pid" ∷ [], file "7")
      ∷ (repo, folder)
      ∷ ("home" ∷ "user" ∷ "repo" ∷ "__pycache__" ∷ [], folder)
      ∷ [];
  running = 7 ∷ [];
  registered = true;
  logging = true;
}

abbrev note : FilePath
note = "home" ∷ "user" ∷ "note" ∷ []

outside : under data_dir note ≡ false
unfolding relative_to
outside = refl

not_confirmed :
    (options.dry_run || not (is_ok (resolve_data_dir host data_dir)))
      || (not false && not (confirms (λ s. s) (some "no")))
    ≡ true
unfolding resolve_data_dir home_guard same_path
not_confirmed = refl

repo_apart : under repo note ≡ false
unfolding relative_to
repo_apart = refl

same_file : {p q : FilePath} → desktop_file p ≡ desktop_file q → p ≡ q
same_file h = cc

same_root : {p q : FilePath} → Path (Option FilePath) (some p) (some q) → q ≡ p
same_root h = cc

-- the note is not in a cache of the repository
apart :
    (root cache : FilePath)
    → some repo ≡ some root
    → is_cache root cache ≡ true
    → under cache note ≡ false
apart root cache e is = elim (Bool-cases (under cache note)) [
  | inl below ↦ absurd (
      cc (
        sym repo_apart
        ∙ under_trans repo cache note (cache-under repo cache (cc (same_root e, is))) below))
  | inr b ↦ b
]

elsewhere : (p : FilePath) → host.autostart ≡ desktop_file p → same_path p note ≡ false
unfolding same_path
elsewhere p at = subst (λ p. same_path p note ≡ false) (same_file at) refl

purge_spares_example :
    look note (purge_all host options data_dir machine).1.disk ≡ look note machine.disk
purge_spares_example =
    purge_spares host options data_dir machine (λ P paths h. h) note outside apart elsewhere

purge_untouched_example :
    (purge_with_confirmation host options (λ s. s) false (some "no") data_dir machine).1 ≡ machine
purge_untouched_example =
    purge_untouched host options (λ s. s) false (some "no") data_dir machine not_confirmed

-- The purge deletes the data and the cache. It reports the data folder as skipped, too, since it looks
-- for it after the deletion.
abbrev report : Report
report = record {
  ok = true;
  removed =
      ("home" ∷ "user" ∷ "data" ∷ "desktop.pid" ∷ [])
      ∷ data_dir
      ∷ ("home" ∷ "user" ∷ "repo" ∷ "__pycache__" ∷ [])
      ∷ [];
  failed = [];
  skipped = data_dir ∷ [];
  stopped_pids = 7 ∷ [];
  autostart_removed = some true;
  repo_caches = ("home" ∷ "user" ∷ "repo" ∷ "__pycache__" ∷ []) ∷ [];
  warnings = [];
}

abbrev purged : Machine
purged = record {
  disk =
      ("home" ∷ [], folder)
      ∷ ("home" ∷ "user" ∷ [], folder)
      ∷ ("home" ∷ "user" ∷ "note" ∷ [], file "a note")
      ∷ (repo, folder)
      ∷ [];
  running = [];
  registered = true;
  logging = false;
}

purge_run : purge_all host options data_dir machine ≡ (ok report, purged)
unfolding purge_all resolve_data_dir home_guard same_path purge_steps cleaned deleted released
    unregistered stopped stop_recorded stop_pid terminate_pid recorded_pid unregister disable
    unregister_or_report release_logs delete_data delete_caches remove_tree remove_entries
    remove_entry remove_root rmtree delete_file rmdir prune children look clean_repo_caches caches
    remove_caches is_cache leads_to_cache relative_to
purge_run = refl

data_is_dir : is_dir data_dir machine.disk ≡ true
unfolding look same_path
data_is_dir = refl

pid_inside : under data_dir ("home" ∷ "user" ∷ "data" ∷ "desktop.pid" ∷ []) ≡ true
unfolding relative_to
pid_inside = refl

purge_complete_example : look ("home" ∷ "user" ∷ "data" ∷ "desktop.pid" ∷ []) purged.disk ≡ none
purge_complete_example =
    purge_complete host options data_dir machine ("home" ∷ "user" ∷ "data" ∷ "desktop.pid" ∷ [])
      report purged purge_run refl refl data_is_dir pid_inside
