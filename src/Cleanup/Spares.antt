-- ===== src/Cleanup/Spares.antt =====
-- What a purge leaves as it is.
use ai_agent_ollama.Base.{
  String, Bool, true, false, not, ◌&&◌, ◌||◌, ◌≡◌, refl, sym, ◌∙◌, ap, inl, inr, Option, none, some,
  is_some, List, [], ◌∷◌, any, eq_iff, eq_refl, if◌then◌else◌, if_ind, Bool-cases, Option-cases,
  Result, arith,
}
use ai_agent_ollama.Base.All.{All}
use ai_agent_ollama.Errors.{Exception}
use ai_agent_ollama.Agent.{FilePath}
use ai_agent_ollama.Agent.Paths.{relative_to}
use ai_agent_ollama.Agent.Disk.{
  file, folder, Disk, same_path, same_path_eq, look, is_dir, child, name_of,
}
use ai_agent_ollama.Agent.Approval.{is_empty}
use ai_agent_ollama.Agent.Organize.{children}
use ai_agent_ollama.Cleanup.{
  Host, Removal, nothing_removed, under, prune, rmtree, delete_file, remove_entry, rmdir,
  remove_entries, remove_root, remove_tree, is_cache, below_parts, leads_to_cache, caches,
  remove_caches, clean_repo_caches,
}

pub look-prune :
    (gone : FilePath → Bool) (q : FilePath) (disk : Disk)
    → look q (prune gone disk) ≡ (if gone q then none else look q disk)
unfolding look prune
look-prune gone q [] = ground arith
look-prune gone q ((p, node) ∷ rest) = elim (Bool-cases (same_path p q)) [
  | inl same ↦ ground (arith, look-prune gone q rest, ap gone (same_path_eq p q same))
  | inr apart ↦ ground (arith, look-prune gone q rest)
]

pub under_self : (p : FilePath) → under p p ≡ true
unfolding relative_to
under_self [] = refl
under_self (a ∷ p) = ground (arith, eq_refl a, under_self p)

under_apart : (p q : FilePath) → under p q ≡ false → same_path p q ≡ false
under_apart p q h = elim (Bool-cases (same_path p q)) [
  | inr e ↦ e
  | inl e ↦ absurd (cc (sym h ∙ ap (λ r. under r q) (same_path_eq p q e) ∙ under_self q))
]

under-child :
    (root : FilePath) (name : String) (q : FilePath)
    → under (child root name) q ≡ true
    → under root q ≡ true
unfolding relative_to
under-child [] name q h = refl
under-child (a ∷ root) name [] h = h
under-child (a ∷ root) name (b ∷ q) h = ground (arith, under-child root name q)

-- what is not under a folder is not under its entries
child_apart :
    (root : FilePath) (name : String) (q : FilePath)
    → under root q ≡ false
    → under (child root name) q ≡ false
child_apart root name q h = elim (Bool-cases (under (child root name) q)) [
  | inr e ↦ e
  | inl e ↦ absurd (cc (sym h ∙ under-child root name q e))
]

module _ (host : Host) (q : FilePath) where
  abbrev Same : Disk → Disk → Type 0
  Same before after = look q after ≡ look q before

  pruned-Same :
      (gone : FilePath → Bool) (disk : Disk) → gone q ≡ false → Same disk (prune gone disk)
  pruned-Same gone disk h = look-prune gone q disk ∙ ap (λ b. if b then none else look q disk) h

  rmtree-Same : (p : FilePath) (disk : Disk) → under p q ≡ false → Same disk (rmtree host p disk).1
  unfolding rmtree
  rmtree-Same p disk h = elim (Option-cases (host.rmtree_fails p)) [
    | inl e ↦ rw (e, rmtree) (pruned-Same (under p) disk h)
    | inr (stays, e) ↦
        rw (e, rmtree)
          (pruned-Same (λ r. under p r && not (stays r)) disk (ap (λ b. b && not (stays q)) h))
  ]

  pub deleted-Same :
      (p : FilePath) (disk : Disk) → same_path p q ≡ false → Same disk (delete_file host p disk).1
  unfolding delete_file
  deleted-Same p disk apart =
      if_ind {A = Result Exception Unit × Disk} (λ r. Same disk r.1) (host.unlink_fails p)
        (λ _. refl) (λ _. pruned-Same (same_path p) disk apart)

  entry-Same :
      (p : FilePath) (disk : Disk) → under p q ≡ false → Same disk (remove_entry host p disk).1
  unfolding remove_entry delete_file
  entry-Same p disk h =
      if_ind {A = Result Exception Unit × Disk} (λ r. Same disk r.1) (is_dir p disk)
        (λ _. rmtree-Same p disk h)
        (λ _.
          if_ind {A = Result Exception Unit × Disk} (λ r. Same disk r.1) (host.unlink_fails p)
            (λ _. refl) (λ _. pruned-Same (same_path p) disk (under_apart p q h)))

  abbrev Apart : FilePath → Type 0
  Apart p = under p q ≡ false

  entries-Same :
      (dry : Bool) (entries : List FilePath) (r : Removal) (disk : Disk)
      → All Apart entries
      → Same disk (remove_entries host dry entries r disk).1
  unfolding remove_entries
  entries-Same true [] r disk h = refl
  entries-Same false [] r disk h = refl
  entries-Same true (p ∷ rest) r disk h = entries-Same true rest _ disk h.1
  entries-Same false (p ∷ rest) r disk h =
      entries-Same false rest _ (remove_entry host p disk).1 h.1 ∙ entry-Same p disk h.0

  rmdir-Same : (p : FilePath) (disk : Disk) → under p q ≡ false → Same disk (rmdir host p disk).1
  unfolding rmdir
  rmdir-Same p disk h =
      if_ind {A = Result Exception Unit × Disk} (λ r. Same disk r.1)
        (host.rmdir_fails p || any (λ entry. under p entry.0 && not (same_path p entry.0)) disk)
        (λ _. refl) (λ _. pruned-Same (same_path p) disk (under_apart p q h))

  root-Same :
      (dry : Bool) (root : FilePath) (r : Removal) (disk : Disk)
      → under root q ≡ false
      → Same disk (remove_root host dry root (r, disk)).1
  unfolding remove_root
  root-Same true root r disk h = refl
  root-Same false root r disk h =
      if_ind {A = Removal × Disk} (λ x. Same disk x.1) (is_empty r.failed)
        (λ _. rmdir-Same root disk h) (λ _. refl)

  children-Apart :
      (root : FilePath) (disk : Disk) → under root q ≡ false → All Apart (children root disk)
  unfolding children
  children-Apart root [] h = tt
  children-Apart root ((p, node) ∷ rest) h =
      if_ind {A = List FilePath} (All Apart) (same_path p (child root (name_of p)))
        (λ e. (
          ap (λ r. under r q) (same_path_eq p (child root (name_of p)) e)
              ∙ child_apart root (name_of p) q h,
          children-Apart root rest h,
        ))
        (λ _. children-Apart root rest h)

  -- `sorted` gives back what it is given
  module _
      (sorted_All : (P : FilePath → Type 0) (paths : List FilePath)
        → All P paths
        → All P (host.sorted_paths paths)) where
    pub tree-Same :
        (dry : Bool) (root : FilePath) (disk : Disk)
        → under root q ≡ false
        → Same disk (remove_tree host dry root disk).1
    unfolding remove_tree
    tree-Same dry root disk h =
        if_ind {A = Removal × Disk} (λ x. Same disk x.1) (not (is_dir root disk)) (λ _. refl)
          (λ _.
            if_ind {A = Removal × Disk} (λ x. Same disk x.1) (host.iterdir_fails root) (λ _. refl)
              (λ _.
                root-Same dry root _ _ h
                ∙ entries-Same dry (host.sorted_paths (children root disk)) nothing_removed disk
                    (sorted_All Apart (children root disk) (children-Apart root disk h))))

  caches-Apart :
      (repo : FilePath) (disk : Disk)
      → ((cache : FilePath) → is_cache repo cache ≡ true → under cache q ≡ false)
      → All Apart (caches repo disk)
  unfolding caches
  caches-Apart repo [] h = tt
  caches-Apart repo ((p, file text) ∷ rest) h = caches-Apart repo rest h
  caches-Apart repo ((p, folder) ∷ rest) h =
      if_ind {A = List FilePath} (All Apart) (is_cache repo p)
        (λ e. (h p e, caches-Apart repo rest h)) (λ _. caches-Apart repo rest h)

  remove_caches-Same :
      (dry : Bool) (paths : List FilePath) (r : Removal) (disk : Disk)
      → All Apart paths
      → Same disk (remove_caches host dry paths r disk).1
  unfolding remove_caches
  remove_caches-Same true [] r disk h = refl
  remove_caches-Same false [] r disk h = refl
  remove_caches-Same true (p ∷ rest) r disk h = remove_caches-Same true rest _ disk h.1
  remove_caches-Same false (p ∷ rest) r disk h =
      remove_caches-Same false rest _ (rmtree host p disk).1 h.1 ∙ rmtree-Same p disk h.0

  pub repo-Same :
      (dry : Bool) (repo : FilePath) (disk : Disk)
      → ((cache : FilePath) → is_cache repo cache ≡ true → under cache q ≡ false)
      → Same disk (clean_repo_caches host dry repo disk).1
  unfolding clean_repo_caches
  repo-Same dry repo disk h =
      if_ind {A = Removal × Disk} (λ x. Same disk x.1) (not (is_dir repo disk)) (λ _. refl)
        (λ _.
          remove_caches-Same dry (caches repo disk) nothing_removed disk (caches-Apart repo disk h))

-- a preview removes nothing
module _ (host : Host) where
  entries_dry :
      (entries : List FilePath) (r : Removal) (disk : Disk)
      → (remove_entries host true entries r disk).1 ≡ disk
  unfolding remove_entries
  entries_dry [] r disk = refl
  entries_dry (p ∷ rest) r disk = entries_dry rest _ disk

  pub tree_dry : (root : FilePath) (disk : Disk) → (remove_tree host true root disk).1 ≡ disk
  unfolding remove_tree remove_root
  tree_dry root disk =
      if_ind {A = Removal × Disk} (λ x. x.1 ≡ disk) (not (is_dir root disk)) (λ _. refl)
        (λ _.
          if_ind {A = Removal × Disk} (λ x. x.1 ≡ disk) (host.iterdir_fails root) (λ _. refl)
            (λ _. entries_dry (host.sorted_paths (children root disk)) nothing_removed disk))

  caches_dry :
      (paths : List FilePath) (r : Removal) (disk : Disk)
      → (remove_caches host true paths r disk).1 ≡ disk
  unfolding remove_caches
  caches_dry [] r disk = refl
  caches_dry (p ∷ rest) r disk = caches_dry rest _ disk

  pub repo_dry : (repo : FilePath) (disk : Disk) → (clean_repo_caches host true repo disk).1 ≡ disk
  unfolding clean_repo_caches
  repo_dry repo disk =
      if_ind {A = Removal × Disk} (λ x. x.1 ≡ disk) (not (is_dir repo disk)) (λ _. refl)
        (λ _. caches_dry (caches repo disk) nothing_removed disk)

pub under_trans : (p q r : FilePath) → under p q ≡ true → under q r ≡ true → under p r ≡ true
unfolding relative_to
under_trans [] q r h k = refl
under_trans (a ∷ p) [] r h k = absurd (cc h)
under_trans (a ∷ p) (b ∷ q) [] h k = absurd (cc k)
under_trans (a ∷ p) (b ∷ q) (c ∷ r) h k =
    ground (arith, eq_iff a b, eq_iff a c, eq_iff b c, under_trans p q r)

below-some : (parts : Option FilePath) → below_parts parts ≡ true → is_some parts ≡ true
unfolding leads_to_cache
below-some none h = h
below-some (some p) h = refl

-- a cache lies in its repository
pub cache-under : (repo cache : FilePath) → is_cache repo cache ≡ true → under repo cache ≡ true
unfolding is_cache
cache-under repo cache = below-some (relative_to repo cache)
