-- ===== src/Cleanup/Safety.antt =====
-- That a purge keeps to the data folder and the caches.
use ai_agent_ollama.Base.{
  ℕ, String, Bool, true, false, not, ◌&&◌, ◌||◌, ◌≡◌, refl, sym, ◌∙◌, ap, Option, none, some, List,
  if_ind, is_ok, Result, ok, err,
}
use ai_agent_ollama.Base.All.{All}
use ai_agent_ollama.Errors.{Exception}
use ai_agent_ollama.Values.{ℤ}
use ai_agent_ollama.Agent.{FilePath}
use ai_agent_ollama.Agent.Disk.{same_path, look}
use ai_agent_ollama.Cleanup.{desktop_file, Host, Machine, under, is_cache}
use ai_agent_ollama.Cleanup.Spares.{deleted-Same, tree-Same, repo-Same, tree_dry, repo_dry}
use ai_agent_ollama.Cleanup.Purge.{
  Options, confirms, purge_with_confirmation, Report, blank, is_class, resolve_data_dir,
  recorded_pid, stop_recorded, unregister, release_logs, delete_data, delete_caches,
  unregister_or_report, stopped, unregistered, released, deleted, cleaned, purge_steps, purge_all,
}
use ai_agent_ollama.Cleanup.Steps.{
  recorded_disk, recorded_dry, resolved_to, unregister_kept, logs_disk, step-lem,
}

module _ (host : Host) (o : Options) (data_dir : FilePath) (m : Machine) where
  reported_kept :
      (P : Machine → Type 0) (dry : Bool) (report : Report) (n : Machine)
      → (dry ≡ false → P n → P (unregister host report n).1)
      → P n
      → P (unregister_or_report dry host report n).1
  unfolding unregister_or_report
  reported_kept P true report n k h = h
  reported_kept P false report n k h = k refl h

  steps_kept :
      (P : Machine → Type 0)
      → P m
      → ((pid : Option ℤ) (report : Report) (n : Machine)
          → P n
          → P (stop_recorded host o.dry_run data_dir pid report n).1)
      → ((report : Report) (n : Machine) → o.dry_run ≡ false → P n → P (unregister host report n).1)
      → ((report : Report) (n : Machine)
          → o.close_logging && not o.dry_run ≡ true
          → P n
          → P (release_logs host.shutdown_logging report n).1)
      → ((report : Report) (n : Machine) → P n → P (delete_data host o.dry_run data_dir report n).1)
      → ((report : Report) (n : Machine)
          → P n
          → P (delete_caches host o.dry_run o.repo_root report n).1)
      → P (purge_steps host o data_dir m).1
  unfolding purge_steps cleaned deleted released unregistered stopped
  steps_kept P start stop unregister_kept logs delete repo =
      step-lem P o.include_repo_caches (delete_caches host o.dry_run o.repo_root)
        (deleted host o data_dir m) (λ _. repo)
        (step-lem P true (delete_data host o.dry_run data_dir) (released host o data_dir m)
          (λ _. delete)
          (step-lem P (o.close_logging && not o.dry_run) (release_logs host.shutdown_logging)
            (unregistered host o data_dir m) (λ e report n. logs report n e)
            (step-lem P o.include_autostart (unregister_or_report o.dry_run host)
              (stopped host o data_dir m)
              (λ _ report n. reported_kept P o.dry_run report n (unregister_kept report n))
              (step-lem P o.kill_processes
                (stop_recorded host o.dry_run data_dir (recorded_pid host data_dir m.disk))
                (blank, m) (λ _. stop (recorded_pid host data_dir m.disk)) start))))

  no_logs : (a b : Bool) → b ≡ true → a && not b ≡ true → ⊥
  no_logs true true e h = cc h
  no_logs false b e h = cc h
  no_logs true false e h = cc e

  data_dry :
      (report : Report) (n : Machine)
      → o.dry_run ≡ true
      → (delete_data host o.dry_run data_dir report n).1 ≡ n
  unfolding delete_data
  data_dry report n dry = rw dry (ap (λ d. record n { disk = d }) (tree_dry host data_dir n.disk))

  caches_dry :
      (repo : Option FilePath) (report : Report) (n : Machine)
      → o.dry_run ≡ true
      → (delete_caches host o.dry_run repo report n).1 ≡ n
  unfolding delete_caches
  caches_dry none report n dry = refl
  caches_dry (some repo) report n dry =
      rw dry (ap (λ d. record n { disk = d }) (repo_dry host repo n.disk))

  steps_dry : o.dry_run ≡ true → (purge_steps host o data_dir m).1 ≡ m
  steps_dry dry =
      steps_kept (λ n. n ≡ m) refl
        (λ pid report n h. recorded_dry host o.dry_run data_dir pid report n dry ∙ h)
        (λ report n wet h. absurd (cc (sym dry ∙ wet)))
        (λ report n e h. absurd (no_logs o.close_logging o.dry_run dry e))
        (λ report n h. data_dry report n dry ∙ h)
        (λ report n h. caches_dry o.repo_root report n dry ∙ h)

module _ (host : Host) (o : Options) (data_dir : FilePath) (m : Machine)
    (sorted_All : (P : FilePath → Type 0) (paths : List FilePath)
      → All P paths
      → All P (host.sorted_paths paths)) where
  module _ (q : FilePath) where
    repo_kept :
        (repo : Option FilePath) (report : Report) (n : Machine)
        → ((root cache : FilePath)
            → repo ≡ some root
            → is_cache root cache ≡ true
            → under cache q ≡ false)
        → look q (delete_caches host o.dry_run repo report n).1.disk ≡ look q n.disk
    unfolding delete_caches
    repo_kept none report n h = refl
    repo_kept (some repo) report n h =
        repo-Same host q o.dry_run repo n.disk (λ cache is. h repo cache refl is)

    data_kept :
        (resolved : FilePath) (report : Report) (n : Machine)
        → under resolved q ≡ false
        → look q (delete_data host o.dry_run resolved report n).1.disk ≡ look q n.disk
    unfolding delete_data
    data_kept resolved report n h = tree-Same host q sorted_All o.dry_run resolved n.disk h

    steps_spare :
        (resolved : FilePath)
        → under resolved q ≡ false
        → ((root cache : FilePath)
            → o.repo_root ≡ some root
            → is_cache root cache ≡ true
            → under cache q ≡ false)
        → ((p : FilePath) → host.autostart ≡ desktop_file p → same_path p q ≡ false)
        → look q (purge_steps host o resolved m).1.disk ≡ look q m.disk
    steps_spare resolved outside apart elsewhere =
        steps_kept host o resolved m (λ n. look q n.disk ≡ look q m.disk) refl
          (λ pid report n h. ap (look q) (recorded_disk host o.dry_run resolved pid report n) ∙ h)
          (λ report n _ h.
            unregister_kept host (λ d. look q d ≡ look q m.disk) report n
              (λ p at there k. deleted-Same host q p n.disk (elsewhere p at) ∙ k) h)
          (λ report n _ h. ap (look q) (logs_disk host.shutdown_logging report n) ∙ h)
          (λ report n h. data_kept resolved report n outside ∙ h)
          (λ report n h. repo_kept o.repo_root report n apart ∙ h)

    -- what becomes of an address
    at_address :
        (r : Result Exception FilePath)
        → resolve_data_dir host data_dir ≡ r
        → under (host.resolve data_dir) q ≡ false
        → ((root cache : FilePath)
            → o.repo_root ≡ some root
            → is_cache root cache ≡ true
            → under cache q ≡ false)
        → ((p : FilePath) → host.autostart ≡ desktop_file p → same_path p q ≡ false)
        → look q (purge_all host o data_dir m).1.disk ≡ look q m.disk
    unfolding purge_all
    at_address (ok resolved) e outside apart elsewhere =
        rw (e, purge_all)
          (steps_spare resolved (rw (resolved_to host data_dir resolved e) at outside) apart
            elsewhere)
    at_address (err x) e outside apart elsewhere =
        rw (e, purge_all)
          (if_ind {A = Result Exception Report × Machine} (λ r. look q r.1.disk ≡ look q m.disk)
            (is_class "PurgeRefused" x) (λ _. refl) (λ _. refl))

  -- A purge leaves every entry that is not in the data folder, not in a cache folder of the repository
  -- and not the file of the start with the system as it is, whatever cannot be deleted, if `sorted`
  -- gives back what it is given.
  pub purge_spares :
      (q : FilePath)
      → under (host.resolve data_dir) q ≡ false
      → ((root cache : FilePath)
          → o.repo_root ≡ some root
          → is_cache root cache ≡ true
          → under cache q ≡ false)
      → ((p : FilePath) → host.autostart ≡ desktop_file p → same_path p q ≡ false)
      → look q (purge_all host o data_dir m).1.disk ≡ look q m.disk
  purge_spares q = at_address q (resolve_data_dir host data_dir) refl

wet_is_ok : (dry : Bool) → dry || false ≡ true → dry ≡ true
wet_is_ok true h = refl
wet_is_ok false h = h

left_of : (a b : Bool) → b ≡ false → a || b ≡ true → a ≡ true
left_of true b e h = refl
left_of false b e h = absurd (cc (e, h))

untouched :
    (host : Host) (o : Options) (data_dir : FilePath) (m : Machine) (r : Result Exception FilePath)
    → resolve_data_dir host data_dir ≡ r
    → o.dry_run || not (is_ok r) ≡ true
    → (purge_all host o data_dir m).1 ≡ m
unfolding purge_all
untouched host o data_dir m (ok resolved) e h =
    rw (e, purge_all) (steps_dry host o resolved m (wet_is_ok o.dry_run h))
untouched host o data_dir m (err x) e h =
    rw (e, purge_all)
      (if_ind {A = Result Exception Report × Machine} (λ r. r.1 ≡ m) (is_class "PurgeRefused" x)
        (λ _. refl) (λ _. refl))

-- A preview of a purge, a purge at an address that is refused, and a purge that is neither assumed nor
-- confirmed change nothing: no file, no process, no registration and no log.
pub purge_untouched :
    (host : Host) (o : Options) (strip : String → String) (assume_yes : Bool)
    (answer : Option String) (data_dir : FilePath) (m : Machine)
    → (o.dry_run || not (is_ok (resolve_data_dir host data_dir)))
        || (not assume_yes && not (confirms strip answer))
      ≡ true
    → (purge_with_confirmation host o strip assume_yes answer data_dir m).1 ≡ m
unfolding purge_with_confirmation
purge_untouched host o strip assume_yes answer data_dir m h =
    if_ind {A = Result Exception ℕ × Machine} (λ r. r.1 ≡ m)
      (not assume_yes && not (confirms strip answer)) (λ _. refl)
      (λ confirmed.
        untouched host o data_dir m (resolve_data_dir host data_dir) refl (left_of _ _ confirmed h))
