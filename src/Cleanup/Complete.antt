-- ===== src/Cleanup/Complete.antt =====
-- That a purge without failures deletes the whole data folder.
use ai_agent_ollama.Base.{
  Bool, true, false, not, ◌&&◌, ◌≡◌, refl, sym, ◌∙◌, ap, inl, inr, Option, none, some, Bool-cases,
  if_ind, Result, ok, err,
}
use ai_agent_ollama.Errors.{Exception}
use ai_agent_ollama.Agent.{FilePath}
use ai_agent_ollama.Agent.Approval.{is_empty}
use ai_agent_ollama.Agent.Disk.{
  Disk, Node, file, folder, same_path, same_path_eq, is_folder, look, is_dir,
}
use ai_agent_ollama.Agent.Files.{is_file, is_node_file}
use ai_agent_ollama.Cleanup.Spares.{deleted-Same}
use ai_agent_ollama.Cleanup.{Host, Machine, under}
use ai_agent_ollama.Cleanup.Purge.{
  Options, Report, blank, step, is_class, resolve_data_dir, recorded_pid, stop_recorded,
  release_logs, delete_data, delete_caches, unregister_or_report, stopped, unregistered, released,
  deleted, cleaned, purge_steps, purge_all,
}
use ai_agent_ollama.Cleanup.Steps.{unregister_kept, resolved_to, recorded_disk, logs_disk, step-lem}
use ai_agent_ollama.Cleanup.Gone.{Reported, data-Reported, caches-Reported}

no_both : (n : Option Node) → is_node_file n ≡ true → is_folder n ≡ true → ⊥
no_both none f d = cc f
no_both (some folder) f d = cc f
no_both (some (file text)) f d = cc d

module _ (host : Host) (o : Options) (root : FilePath) (m : Machine) where
  -- a folder is not the file of the start with the system
  other_file :
      (p : FilePath) (disk : Disk)
      → is_file p disk ≡ true
      → is_dir root disk ≡ true
      → same_path p root ≡ false
  other_file p disk f d = elim (Bool-cases (same_path p root)) [
    | inr e ↦ e
    | inl e ↦ absurd (no_both (look p disk) f (ap (λ r. is_dir r disk) (same_path_eq p root e) ∙ d))
  ]

  unregistered_dir :
      (dry : Bool) (report : Report) (n : Machine)
      → is_dir root n.disk ≡ true
      → is_dir root (unregister_or_report dry host report n).1.disk ≡ true
  unfolding unregister_or_report
  unregistered_dir true report n h = h
  unregistered_dir false report n h =
      unregister_kept host (λ d. is_dir root d ≡ true) report n
        (λ p at there k.
          ap is_folder (deleted-Same host root p n.disk (other_file p n.disk there k)) ∙ k)
        h

  -- the folder is there when the fourth step begins
  released_dir : is_dir root m.disk ≡ true → is_dir root (released host o root m).1.disk ≡ true
  unfolding released unregistered stopped
  released_dir dir =
      step-lem (λ n. is_dir root n.disk ≡ true) (o.close_logging && not o.dry_run)
        (release_logs host.shutdown_logging) (unregistered host o root m)
        (λ _ report n h. ap (is_dir root) (logs_disk host.shutdown_logging report n) ∙ h)
        (step-lem (λ n. is_dir root n.disk ≡ true) o.include_autostart
          (unregister_or_report o.dry_run host) (stopped host o root m)
          (λ _. unregistered_dir o.dry_run)
          (step-lem (λ n. is_dir root n.disk ≡ true) o.kill_processes
            (stop_recorded host o.dry_run root (recorded_pid host root m.disk)) (blank, m)
            (λ _ report n h.
              ap (is_dir root)
                (recorded_disk host o.dry_run root (recorded_pid host root m.disk) report n)
              ∙ h)
            dir))

  step-Reported :
      (q : FilePath) (dry taken : Bool) (now : Report × Machine)
      → dry ≡ false
      → Reported host q now
      → Reported host q (step taken (delete_caches host dry o.repo_root) now)
  step-Reported q true taken now wet h = absurd (cc wet)
  step-Reported q false true now wet h = caches-Reported host q o.repo_root now.0 now.1 h
  step-Reported q false false now wet h = h

  deleted-Reported :
      (q : FilePath) (dry : Bool) (report : Report) (n : Machine)
      → under root q ≡ true
      → is_dir root n.disk ≡ true
      → dry ≡ false
      → Reported host q (delete_data host dry root report n)
  deleted-Reported q true report n h dir wet = absurd (cc wet)
  deleted-Reported q false report n h dir wet = data-Reported host q root report n h dir

  steps-Reported :
      (q : FilePath)
      → under root q ≡ true
      → is_dir root m.disk ≡ true
      → o.dry_run ≡ false
      → Reported host q (purge_steps host o root m)
  unfolding purge_steps cleaned deleted
  steps-Reported q h dir wet =
      step-Reported q o.dry_run o.include_repo_caches (deleted host o root m) wet (
        deleted-Reported q o.dry_run (released host o root m).0 (released host o root m).1 h
          (released_dir dir) wet)

-- the last step sets `ok` from the failures
ok_none_failed :
    (host : Host) (o : Options) (root : FilePath) (m : Machine)
    → (purge_steps host o root m).0.ok ≡ is_empty (purge_steps host o root m).0.failed
unfolding purge_steps
ok_none_failed host o root m = refl

answered :
    {x y : Report} {m n : Machine}
    → Path (Result Exception Report × Machine) (ok x, m) (ok y, n)
    → (x ≡ y) × (m ≡ n)
answered h = (cc, cc)

module _ (host : Host) (o : Options) (data_dir : FilePath) (m : Machine) (q : FilePath) where
  purge_ok :
      (root : FilePath)
      → resolve_data_dir host data_dir ≡ ok root
      → purge_all host o data_dir m
        ≡ (ok (purge_steps host o root m).0, (purge_steps host o root m).1)
  unfolding purge_all
  purge_ok root e = rw (e, purge_all) refl

  purge_refused :
      (x : Exception) (report : Report) (after : Machine)
      → resolve_data_dir host data_dir ≡ err x
      → purge_all host o data_dir m ≡ (ok report, after)
      → report.ok ≡ false
  unfolding purge_all
  purge_refused x report after e =
      rw (e, purge_all)
        (if_ind {A = Result Exception Report × Machine}
          (λ r. r ≡ (ok report, after) → report.ok ≡ false) (is_class "PurgeRefused" x)
          (λ _ h. ap (λ r. r.ok) (sym (answered h).0)) (λ _ h. absurd (cc h)))

  of_steps :
      (r : Result Exception FilePath) (report : Report) (after : Machine)
      → resolve_data_dir host data_dir ≡ r
      → purge_all host o data_dir m ≡ (ok report, after)
      → report.ok ≡ true
      → o.dry_run ≡ false
      → is_dir (host.resolve data_dir) m.disk ≡ true
      → under (host.resolve data_dir) q ≡ true
      → look q after.disk ≡ none
  of_steps (ok root) report after e h done wet dir inside =
      let (same_report, same_machine) = answered (sym (purge_ok root e) ∙ h) in
      let none_failed = sym (ok_none_failed host o root m) ∙ ap (λ r. r.ok) same_report ∙ done in
      let at_root = resolved_to host data_dir root e in
      ap (λ n. look q n.disk) (sym same_machine)
      ∙ steps-Reported host o root m q (ap (λ p. under p q) (sym at_root) ∙ inside)
          (ap (λ p. is_dir p m.disk) (sym at_root) ∙ dir) wet none_failed
  of_steps (err x) report after e h done wet dir inside =
      absurd (cc (sym (purge_refused x report after e h) ∙ done))

  -- After a purge that is no preview and reports success, nothing is left of a data folder that was
  -- there, whatever else the machine refused on the way.
  pub purge_complete :
      (report : Report) (after : Machine)
      → purge_all host o data_dir m ≡ (ok report, after)
      → report.ok ≡ true
      → o.dry_run ≡ false
      → is_dir (host.resolve data_dir) m.disk ≡ true
      → under (host.resolve data_dir) q ≡ true
      → look q after.disk ≡ none
  purge_complete report after = of_steps (resolve_data_dir host data_dir) report after refl
