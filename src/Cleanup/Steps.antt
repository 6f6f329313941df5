-- ===== src/Cleanup/Steps.antt =====
-- What the single steps of a purge leave as it is.
use ai_agent_ollama.Base.{
  ℕ, ltb, ◌==◌, Bool, true, false, not, ◌&&◌, ◌||◌, ◌≡◌, refl, sym, ◌∙◌, inl, inr, Option, none,
  some, any, if_ind, Bool-cases, Result, ok, err,
}
use ai_agent_ollama.Errors.{Exception}
use ai_agent_ollama.Values.{ℤ, pos, negsuc}
use ai_agent_ollama.Agent.{FilePath}
use ai_agent_ollama.Agent.Approval.{is_empty}
use ai_agent_ollama.Agent.Disk.{Disk, same_path, parent}
use ai_agent_ollama.Agent.Files.{is_file}
use mathlib.Core.Path.{subst}
use ai_agent_ollama.Cleanup.{
  Host, Machine, Autostart, desktop_file, run_key, unsupported, delete_file,
}
use ai_agent_ollama.Cleanup.Purge.{
  Report, step, is_class, home_guard, resolve_data_dir, terminate_pid, stop_pid, stop_recorded,
  disable, autostart_report, unregister, release_logs,
}

unnot : (b : Bool) → not b ≡ false → b ≡ true
unnot true h = refl
unnot false h = absurd (cc h)

found : {x y : FilePath} → Path (Result Exception FilePath) (ok x) (ok y) → x ≡ y
found h = cc

guarded_to :
    (resolved r : FilePath) (home : Result Exception FilePath)
    → home_guard resolved home ≡ ok r
    → resolved ≡ r
unfolding home_guard
guarded_to resolved r (ok home) h =
    elim (Bool-cases (same_path resolved home || same_path resolved (parent home))) [
      | inl e ↦ absurd (cc (rw e at h))
      | inr e ↦ found (rw e at h)
    ]
guarded_to resolved r (err x) h = elim (Bool-cases (is_class "OSError" x)) [
  | inl e ↦ found (rw e at h)
  | inr e ↦ absurd (cc (rw e at h))
]

-- the folder that is emptied is the one that was named
pub resolved_to :
    (host : Host) (data_dir r : FilePath)
    → resolve_data_dir host data_dir ≡ ok r
    → host.resolve data_dir ≡ r
unfolding resolve_data_dir
resolved_to host data_dir r h = elim (Bool-cases (is_empty (host.resolve data_dir))) [
  | inl e ↦ absurd (cc (rw e at h))
  | inr e ↦ guarded_to (host.resolve data_dir) r host.home (rw e at h)
]

module _ (host : Host) (dry : Bool) (data_dir : FilePath) where
  pid_disk :
      (pid : ℕ) (report : Report) (m : Machine)
      → (stop_pid host dry data_dir pid report m).1.disk ≡ m.disk
  unfolding stop_pid
  pid_disk pid report m =
      if_ind {A = Report × Machine} (λ x. x.1.disk ≡ m.disk)
        (ltb 0 pid && not (pid == host.own_pid) && any (λ n. n == pid) m.running)
        (λ _.
          if_ind {A = Report × Machine} (λ x. x.1.disk ≡ m.disk) dry (λ _. refl)
            (λ _.
              if_ind {A = Report × Machine} (λ x. x.1.disk ≡ m.disk)
                (terminate_pid host pid m.running).0 (λ _. refl) (λ _. refl)))
        (λ _.
          if_ind {A = Report × Machine} (λ x. x.1.disk ≡ m.disk) (pid == host.own_pid) (λ _. refl)
            (λ _. refl))

  pid_dry :
      (pid : ℕ) (report : Report) (m : Machine)
      → dry ≡ true
      → (stop_pid host dry data_dir pid report m).1 ≡ m
  unfolding stop_pid
  pid_dry pid report m e =
      if_ind {A = Report × Machine} (λ x. x.1 ≡ m)
        (ltb 0 pid && not (pid == host.own_pid) && any (λ n. n == pid) m.running)
        (λ _.
          if_ind {A = Report × Machine} (λ x. x.1 ≡ m) dry (λ _. refl)
            (λ wet. absurd (cc (sym e ∙ wet))))
        (λ _.
          if_ind {A = Report × Machine} (λ x. x.1 ≡ m) (pid == host.own_pid) (λ _. refl)
            (λ _. refl))

  pub recorded_disk :
      (pid : Option ℤ) (report : Report) (m : Machine)
      → (stop_recorded host dry data_dir pid report m).1.disk ≡ m.disk
  unfolding stop_recorded
  recorded_disk none report m = refl
  recorded_disk (some (pos n)) report m = pid_disk n report m
  recorded_disk (some (negsuc n)) report m = refl

  pub recorded_dry :
      (pid : Option ℤ) (report : Report) (m : Machine)
      → dry ≡ true
      → (stop_recorded host dry data_dir pid report m).1 ≡ m
  unfolding stop_recorded
  recorded_dry none report m e = refl
  recorded_dry (some (pos n)) report m e = pid_dry n report m e
  recorded_dry (some (negsuc n)) report m e = refl

reported_machine :
    (r : Result Exception Bool × Machine) (report : Report) → (autostart_report r report).1 ≡ r.1
reported_machine (ok gone, m) report = refl
reported_machine (err e, m) report = refl

-- the disk loses at most the file of the registration
disable_kept :
    (host : Host) (P : Disk → Type 0) (where_ : Autostart) (m : Machine)
    → ((p : FilePath)
        → where_ ≡ desktop_file p
        → is_file p m.disk ≡ true
        → P m.disk
        → P (delete_file host p m.disk).1)
    → P m.disk
    → P (disable host where_ m).1.disk
unfolding disable
disable_kept host P (desktop_file p) m k h =
    if_ind {A = Result Exception Bool × Machine} (λ r. P r.1.disk) (not (is_file p m.disk)) (λ _. h)
      (λ there.
        if_ind {A = Result Exception Bool × Machine} (λ r. P r.1.disk) (host.unlink_fails p)
          (λ _. h) (λ _. k p refl (unnot (is_file p m.disk) there) h))
disable_kept host P (run_key (ok true)) m k h = h
disable_kept host P (run_key (ok false)) m k h = h
disable_kept host P (run_key (err e)) m k h = h
disable_kept host P unsupported m k h = h

pub unregister_kept :
    (host : Host) (P : Disk → Type 0) (report : Report) (m : Machine)
    → ((p : FilePath)
        → host.autostart ≡ desktop_file p
        → is_file p m.disk ≡ true
        → P m.disk
        → P (delete_file host p m.disk).1)
    → P m.disk
    → P (unregister host report m).1.disk
unfolding unregister
unregister_kept host P report m k h =
    subst (λ n. P n.disk) (sym (reported_machine (disable host host.autostart m) report))
      (disable_kept host P host.autostart m k h)

pub logs_disk :
    (r : Result Exception Unit) (report : Report) (m : Machine)
    → (release_logs r report m).1.disk ≡ m.disk
unfolding release_logs
logs_disk (ok b) report m = refl
logs_disk (err e) report m = refl

-- a step that is taken or not
pub step-lem :
    (P : Machine → Type 0) (taken : Bool) (act : Report → Machine → Report × Machine)
    (now : Report × Machine)
    → (taken ≡ true → (report : Report) (m : Machine) → P m → P (act report m).1)
    → P now.1
    → P (step taken act now).1
step-lem P true act (report, m) k h = k refl report m h
step-lem P false act (report, m) k h = h
