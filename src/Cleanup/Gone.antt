-- ===== src/Cleanup/Gone.antt =====
-- When the deletion of a folder is complete.
use ai_agent_ollama.Base.{
  Bool, true, false, not, ◌&&◌, ◌||◌, ◌≡◌, refl, sym, ◌∙◌, ap, inl, inr, Option, none, some, List,
  [], ◌∷◌, ◌++◌, any, if◌then◌else◌, if_ind, Bool-cases, Option-cases, Result, arith,
}
use ai_agent_ollama.Errors.{Exception}
use ai_agent_ollama.Agent.{FilePath}
use ai_agent_ollama.Agent.Approval.{is_empty}
use ai_agent_ollama.Agent.Disk.{Disk, same_path, same_path_eq, look, is_dir, exists}
use ai_agent_ollama.Cleanup.{
  Host, Machine, Removal, nothing_removed, noted, under, prune, rmtree, rmdir, remove_root,
  remove_tree, caches, remove_caches, clean_repo_caches,
}
use ai_agent_ollama.Cleanup.Spares.{look-prune}
use ai_agent_ollama.Cleanup.Purge.{Report, delete_data, delete_caches}

-- a deletion that noted a failure did not go through
added : {A : Type 0} (xs : List A) (x : A) → is_empty (xs ++ x ∷ []) ≡ false
added [] x = refl
added (y ∷ xs) x = refl

both_empty : {A : Type 0} (xs ys : List A) → is_empty (xs ++ ys) ≡ true → is_empty xs ≡ true
both_empty [] ys h = refl
both_empty (x ∷ xs) ys h = h

later_empty : {A : Type 0} (xs ys : List A) → is_empty (xs ++ ys) ≡ true → is_empty ys ≡ true
later_empty [] ys h = h
later_empty (x ∷ xs) ys h = absurd (cc h)

right_false : (a b : Bool) → a || b ≡ false → b ≡ false
right_false true b h = absurd (cc h)
right_false false b h = h

module _ (host : Host) (q : FilePath) where
  abbrev Gone : Disk → Type 0
  Gone disk = look q disk ≡ none

  pruned-Gone : (gone : FilePath → Bool) (disk : Disk) → Gone disk → Gone (prune gone disk)
  pruned-Gone gone disk h = elim (Bool-cases (gone q)) [
    | inl e ↦ look-prune gone q disk ∙ ap (λ b. if b then none else look q disk) e
    | inr e ↦ look-prune gone q disk ∙ ap (λ b. if b then none else look q disk) e ∙ h
  ]

  -- a folder that has nothing in it
  none_inside :
      (root : FilePath) (disk : Disk)
      → under root q ≡ true
      → any (λ entry. under root entry.0 && not (same_path root entry.0)) disk ≡ false
      → same_path root q ≡ false
      → Gone disk
  unfolding look
  none_inside root [] h k apart = refl
  none_inside root ((p, node) ∷ rest) h k apart = elim (Bool-cases (same_path p q)) [
    | inl e ↦ absurd (ground (arith, same_path_eq p q e))
    | inr e ↦ ground (arith, none_inside root rest)
  ]

  pruned_root :
      (root : FilePath) (disk : Disk)
      → under root q ≡ true
      → any (λ entry. under root entry.0 && not (same_path root entry.0)) disk ≡ false
      → Gone (prune (same_path root) disk)
  pruned_root root disk h k = elim (Bool-cases (same_path root q)) [
    | inl e ↦ look-prune (same_path root) q disk ∙ ap (λ b. if b then none else look q disk) e
    | inr e ↦ pruned-Gone (same_path root) disk (none_inside root disk h k e)
  ]

  -- nothing is left, if no failure was noted
  abbrev Complete : Removal × Disk → Type 0
  Complete x = is_empty x.0.failed ≡ true → Gone x.1

  rmdir-Complete :
      (root : FilePath) (r : Removal) (disk : Disk)
      → under root q ≡ true
      → Complete (noted root (rmdir host root disk).0 r, (rmdir host root disk).1)
  unfolding rmdir
  rmdir-Complete root r disk h =
      if_ind {A = Result Exception Unit × Disk} (λ x. Complete (noted root x.0 r, x.1))
        (host.rmdir_fails root
          || any (λ entry. under root entry.0 && not (same_path root entry.0)) disk)
        (λ _ failed. absurd (cc (sym (added r.failed (root, "could not be removed")) ∙ failed)))
        (λ e _. pruned_root root disk h (right_false _ _ e))

  root-Complete :
      (root : FilePath) (r : Removal) (disk : Disk)
      → under root q ≡ true
      → Complete (remove_root host false root (r, disk))
  unfolding remove_root
  root-Complete root r disk h =
      if_ind {A = Removal × Disk} Complete (is_empty r.failed) (λ _. rmdir-Complete root r disk h)
        (λ some_failed none_failed. absurd (cc (sym some_failed ∙ none_failed)))

  tree-Complete :
      (root : FilePath) (disk : Disk)
      → under root q ≡ true
      → is_dir root disk ≡ true
      → Complete (remove_tree host false root disk)
  unfolding remove_tree
  tree-Complete root disk h dir =
      if_ind {A = Removal × Disk} Complete (not (is_dir root disk))
        (λ e. absurd (cc (sym (ap not dir) ∙ e)))
        (λ _.
          if_ind {A = Removal × Disk} Complete (host.iterdir_fails root)
            (λ _ failed. absurd (cc failed)) (λ _. root-Complete root _ _ h))

  rmtree-Gone : (p : FilePath) (disk : Disk) → Gone disk → Gone (rmtree host p disk).1
  unfolding rmtree
  rmtree-Gone p disk h = elim (Option-cases (host.rmtree_fails p)) [
    | inl e ↦ rw (e, rmtree) (pruned-Gone (under p) disk h)
    | inr (stays, e) ↦ rw (e, rmtree) (pruned-Gone (λ r. under p r && not (stays r)) disk h)
  ]

  remove_caches-Gone :
      (paths : List FilePath) (r : Removal) (disk : Disk)
      → Gone disk
      → Gone (remove_caches host false paths r disk).1
  unfolding remove_caches
  remove_caches-Gone [] r disk h = h
  remove_caches-Gone (p ∷ rest) r disk h =
      remove_caches-Gone rest _ (rmtree host p disk).1 (rmtree-Gone p disk h)

  repo-Gone :
      (repo : FilePath) (disk : Disk) → Gone disk → Gone (clean_repo_caches host false repo disk).1
  unfolding clean_repo_caches
  repo-Gone repo disk h =
      if_ind {A = Removal × Disk} (λ x. Gone x.1) (not (is_dir repo disk)) (λ _. h)
        (λ _. remove_caches-Gone (caches repo disk) nothing_removed disk h)

  -- the same of a report
  abbrev pub Reported : Report × Machine → Type 0
  Reported x = is_empty x.0.failed ≡ true → Gone x.1.disk

  pub data-Reported :
      (root : FilePath) (report : Report) (m : Machine)
      → under root q ≡ true
      → is_dir root m.disk ≡ true
      → Reported (delete_data host false root report m)
  unfolding delete_data
  data-Reported root report m h dir =
      if_ind {A = Report}
        (λ r. is_empty r.failed ≡ true → Gone (remove_tree host false root m.disk).1)
        (exists root (remove_tree host false root m.disk).1)
        (λ _ none_failed. tree-Complete root m.disk h dir (later_empty report.failed _ none_failed))
        (λ _ none_failed. tree-Complete root m.disk h dir (later_empty report.failed _ none_failed))

  pub caches-Reported :
      (repo : Option FilePath) (report : Report) (m : Machine)
      → Reported (report, m)
      → Reported (delete_caches host false repo report m)
  unfolding delete_caches
  caches-Reported none report m h = h
  caches-Reported (some repo) report m h =
      λ none_failed. repo-Gone repo m.disk (h (both_empty report.failed _ none_failed))
