-- ===== src/Cleanup/Purge.antt =====
-- `purge_all` and `purge_with_confirmation` of local_agent/core/cleanup.py, without the texts that they
-- show.
use ai_agent_ollama.Base.{
  ℕ, ltb, ◌==◌, String, Bool, true, false, not, ◌&&◌, ◌||◌, Option, none, some, List, [], ◌∷◌, ◌++◌,
  any, keep, str_eq, if◌then◌else◌, Result, ok, err,
}
use ai_agent_ollama.Errors.{Exception, other}
use ai_agent_ollama.Values.{ℤ, pos, negsuc}
use ai_agent_ollama.Agent.{FilePath}
use ai_agent_ollama.Agent.Texts.{one_of}
use ai_agent_ollama.Agent.Approval.{is_empty}
use ai_agent_ollama.Agent.Disk.{Node, file, Disk, same_path, look, exists, child, parent}
use ai_agent_ollama.Agent.Files.{is_file}
use ai_agent_ollama.Cleanup.{
  Autostart, desktop_file, run_key, unsupported, delete_file, Host, Machine, Failure, Removal,
  remove_tree, clean_repo_caches,
}

abbrev pub refused : Exception
refused = other "PurgeRefused" "the address of the data folder is not safe"

abbrev class_of : Exception → String
class_of (other class message) = class
class_of e = ""

-- `except OSError` and `except PurgeRefused`
abbrev pub is_class : String → Exception → Bool
is_class name e = str_eq (class_of e) name

unfoldable pub home_guard : FilePath → Result Exception FilePath → Result Exception FilePath
unfolding same_path
home_guard resolved (ok home) =
    if same_path resolved home || same_path resolved (parent home) then err refused else ok resolved
home_guard resolved (err e) = if is_class "OSError" e then ok resolved else err e

-- `_resolve_data_dir`; the root of the file system has no parts
unfoldable pub resolve_data_dir : Host → FilePath → Result Exception FilePath
unfolding home_guard
resolve_data_dir host data_dir =
    if is_empty (host.resolve data_dir)
    then err refused
    else home_guard (host.resolve data_dir) host.home

-- the arguments of `purge_all` without the hook `autostart_disabler`, with the repository that `find_repo_root` or the caller gives
pub record Options : Type 0 where
  pub dry_run : Bool
  pub kill_processes : Bool
  pub include_autostart : Bool
  pub include_repo_caches : Bool
  pub close_logging : Bool
  pub repo_root : Option FilePath

pub record Report : Type 0 where
  pub ok : Bool
  pub removed : List FilePath
  pub failed : List Failure
  pub skipped : List FilePath
  pub stopped_pids : List ℕ
  pub autostart_removed : Option Bool
  pub repo_caches : List FilePath
  pub warnings : List String

abbrev pub blank : Report
blank = record {
  ok = true;
  removed = [];
  failed = [];
  skipped = [];
  stopped_pids = [];
  autostart_removed = none;
  repo_caches = [];
  warnings = [];
}

abbrev pid_file : FilePath → FilePath
pid_file data_dir = child data_dir "desktop.pid"

abbrev text_of : Option Node → Option String
text_of (some (file text)) = some text
text_of _ = none

-- what `desktop.pid` names
unfoldable pub recorded_pid : Host → FilePath → Disk → Option ℤ
unfolding look
recorded_pid host data_dir disk = elim (text_of (look (pid_file data_dir) disk)) [
  | none ↦ none
  | some text ↦ host.read_int text
]

-- `_terminate_pid` of a process that runs
unfoldable pub terminate_pid : Host → ℕ → List ℕ → Bool × List ℕ
terminate_pid host pid running =
    if host.stubborn pid then (false, running) else (true, keep (λ n. not (n == pid)) running)

-- the process that was recorded, as far as it runs and is another
unfoldable pub stop_pid : Host → Bool → FilePath → ℕ → Report → Machine → Report × Machine
unfolding terminate_pid
stop_pid host dry data_dir pid report m =
    let (gone, left) = terminate_pid host pid m.running in
    if ltb 0 pid && not (pid == host.own_pid) && any (λ n. n == pid) m.running
    then (if dry
        then (record report { stopped_pids = report.stopped_pids ++ pid ∷ [] }, m)
        else if gone
        then (
          record report { stopped_pids = report.stopped_pids ++ pid ∷ [] },
          record m { running = left },
        )
        else (
          record report {
            failed = report.failed ++ (pid_file data_dir, "could not be stopped") ∷ [];
          },
          record m { running = left },
        ))
    else if pid == host.own_pid
    then (record report { skipped = report.skipped ++ pid_file data_dir ∷ [] }, m)
    else (report, m)

-- step 1
unfoldable pub stop_recorded :
    Host → Bool → FilePath → Option ℤ → Report → Machine → Report × Machine
unfolding stop_pid
stop_recorded host dry data_dir none report m = (report, m)
stop_recorded host dry data_dir (some (negsuc n)) report m = (report, m)
stop_recorded host dry data_dir (some (pos pid)) report m = stop_pid host dry data_dir pid report m

-- `disable` of local_agent/desktop/autostart.py
unfoldable pub disable : Host → Autostart → Machine → Result Exception Bool × Machine
unfolding delete_file look
disable host (desktop_file p) m =
    if not (is_file p m.disk)
    then (ok true, m)
    else if host.unlink_fails p
    then (ok false, m)
    else (ok true, record m { disk = (delete_file host p m.disk).1 })
disable host (run_key (ok true)) m = (ok true, record m { registered = false })
disable host (run_key (ok false)) m = (ok false, m)
disable host (run_key (err e)) m = (err e, m)
disable host unsupported m = (ok false, m)

-- what the report says of it
abbrev pub autostart_report : Result Exception Bool × Machine → Report → Report × Machine
autostart_report (ok gone, m) report = (record report { autostart_removed = some gone }, m)
autostart_report (err e, m) report = (
  record report { autostart_removed = some false; warnings = report.warnings ++ "autostart" ∷ [] },
  m,
)

-- step 2
unfoldable pub unregister : Host → Report → Machine → Report × Machine
unfolding disable
unregister host report m = autostart_report (disable host host.autostart m) report

-- step 3
unfoldable pub release_logs : Result Exception Unit → Report → Machine → Report × Machine
release_logs (ok done) report m = (report, record m { logging = false })
release_logs (err e) report m = (record report { warnings = report.warnings ++ "logs" ∷ [] }, m)

abbrev add_removal : Removal → Report → Report
add_removal r report = record report {
  removed = report.removed ++ r.removed;
  failed = report.failed ++ r.failed;
}

-- step 4
unfoldable pub delete_data : Host → Bool → FilePath → Report → Machine → Report × Machine
unfolding remove_tree look
delete_data host dry data_dir report m =
    let (removal, left) = remove_tree host dry data_dir m.disk in
    (
      (λ (known : Report).
            if exists data_dir left
            then known
            else record known { skipped = known.skipped ++ data_dir ∷ [] })
          (add_removal removal report),
      record m { disk = left },
    )

-- step 5
unfoldable pub delete_caches : Host → Bool → Option FilePath → Report → Machine → Report × Machine
unfolding clean_repo_caches
delete_caches host dry none report m = (report, m)
delete_caches host dry (some repo) report m =
    let (removal, left) = clean_repo_caches host dry repo m.disk in
    (
      record (add_removal removal report) { repo_caches = removal.removed },
      record m { disk = left },
    )

abbrev pub step : Bool → (Report → Machine → Report × Machine) → Report × Machine → Report × Machine
step true act (report, m) = act report m
step false act (report, m) = (report, m)

-- in a preview the registration is only reported
unfoldable pub unregister_or_report : Bool → Host → Report → Machine → Report × Machine
unfolding unregister
unregister_or_report true host report m = (record report { autostart_removed = some true }, m)
unregister_or_report false host report m = unregister host report m

-- the steps of `purge_all` on an address that is safe, one after another
module _ (host : Host) (o : Options) (data_dir : FilePath) (m : Machine) where
  unfoldable pub stopped : Report × Machine
  unfolding recorded_pid stop_recorded
  stopped =
      step o.kill_processes
        (stop_recorded host o.dry_run data_dir (recorded_pid host data_dir m.disk)) (blank, m)

  unfoldable pub unregistered : Report × Machine
  unfolding stopped unregister_or_report
  unregistered = step o.include_autostart (unregister_or_report o.dry_run host) stopped

  unfoldable pub released : Report × Machine
  unfolding unregistered release_logs
  released =
      step (o.close_logging && not o.dry_run) (release_logs host.shutdown_logging) unregistered

  unfoldable pub deleted : Report × Machine
  unfolding released delete_data
  deleted = step true (delete_data host o.dry_run data_dir) released

  unfoldable pub cleaned : Report × Machine
  unfolding deleted delete_caches
  cleaned = step o.include_repo_caches (delete_caches host o.dry_run o.repo_root) deleted

  unfoldable pub purge_steps : Report × Machine
  unfolding cleaned
  purge_steps =
      let (report, after) = cleaned in (record report { ok = is_empty report.failed }, after)

-- `purge_all`; `settings.data_dir` is its only setting
unfoldable pub purge_all : Host → Options → FilePath → Machine → Result Exception Report × Machine
unfolding resolve_data_dir purge_steps
purge_all host o data_dir m = elim (resolve_data_dir host data_dir) [
  | ok resolved ↦ let (report, after) = purge_steps host o resolved m in (ok report, after)
  | err e ↦
      if is_class "PurgeRefused" e
      then (ok (record blank { ok = false; failed = (data_dir, "refused") ∷ [] }), m)
      else (err e, m)
]

-- what the user typed, with two Persian answers; `none` for the end of the input
abbrev pub confirms : (strip : String → String) → Option String → Bool
confirms strip none = false
confirms strip (some answer) =
    one_of ("\u{67e}\u{627}\u{6a9} \u{6a9}\u{646}" ∷ "\u{628}\u{644}\u{647}" ∷ "yes" ∷ "y" ∷ [])
      (strip answer)

-- the exit code of a purge
abbrev exit_code : Result Exception Report → Result Exception ℕ
exit_code (ok report) = ok (if report.ok then 0 else 2)
exit_code (err e) = err e

-- `purge_with_confirmation`, with the exit code
unfoldable pub purge_with_confirmation :
    Host
    → Options
    → (strip : String → String) → (assume_yes : Bool) → (answer : Option String) → FilePath
    → Machine
    → Result Exception ℕ × Machine
unfolding purge_all
purge_with_confirmation host o strip assume_yes answer data_dir m =
    if not assume_yes && not (confirms strip answer)
    then (ok 1, m)
    else (let (report, after) = purge_all host o data_dir m in (exit_code report, after))
