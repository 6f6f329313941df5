-- ===== src/Agent/Files/Atomic.antt =====
-- That `_write_text` of agent/tools.py writes all of the content or nothing.
use Prim.Native.String.{len}
use text.Mathlib.TextPositions.{len-append}
use ai_agent_ollama.Base.{
  ℕ, ◌+◌, ltb, length, String, true, false, ◌≡◌, refl, ◌∙◌, sym, ap, ◌⊎◌, inl, inr, Option, none,
  some, [], ◌∷◌, concat, if◌then◌else◌, if_ind, Bool-cases, Option-cases, Result, ok, err, is_ok,
  Result-cases, length-append, ◌<◌, arith,
}
use ai_agent_ollama.Base.Acting.{◌>>=◌, ◌>>◌, continue, guard, finished, finally}
use ai_agent_ollama.Errors.{Exception}
use ai_agent_ollama.Agent.{FilePath, os_error, tool_error}
use ai_agent_ollama.Agent.Paths.{Root, assert_not_sensitive}
use ai_agent_ollama.Agent.Disk.Folders.{length-parent-lt, make_folders-Keeps}
use ai_agent_ollama.Agent.Disk.{
  Node, file, folder, Disk, same_path, same_path_eq, same_path_self, look, look-remove, look-put,
  remove, put, is_dir, child, name_of, parent, unlink, rename, make_folders,
}
use ai_agent_ollama.Agent.Files.{
  Faults, temporary, write_bytes, replace, clean, store, write_text, is_file,
}

pub name_of-child : (above : FilePath) (name : String) → name_of (child above name) ≡ name
name_of-child [] name = refl
name_of-child (a ∷ []) name = refl
name_of-child (a ∷ b ∷ rest) name = name_of-child (b ∷ rest) name

len-hidden : (name : String) → len (concat ("." ∷ name ∷ ".agent-tmp" ∷ [])) ≡ 1 + (len name + 10)
len-hidden name = rw (len-append, len-append) refl

longer : (a : ℕ) → 1 + (a + 10) ≡ a → ⊥
longer a h = omega arith

-- the temporary file has another name than its target
temporary_apart : (target : FilePath) → same_path (temporary target) target ≡ false
temporary_apart target = elim (Bool-cases (same_path (temporary target) target)) [
  | inr e ↦ e
  | inl e ↦ absurd (
      longer (len (name_of target)) (
        sym (len-hidden (name_of target))
        ∙ ap len (
            sym (name_of-child (parent target) (concat ("." ∷ name_of target ∷ ".agent-tmp" ∷ [])))
            ∙ ap name_of (same_path_eq (temporary target) target e))))
]

module _ (faults : Faults) (target : FilePath) (content : String) (before : Disk) where
  abbrev Written : Result Exception Unit × Disk → Type 0
  Written (ok done, disk) =
      (look target disk ≡ some (file content)) × (look (temporary target) disk ≡ none)
  Written (err e, disk) = look target disk ≡ look target before

  abbrev pub Stored : Result Exception Unit × Disk → Type 0
  Stored (ok done, disk) =
      (look target disk ≡ some (file content)) × (is_file (temporary target) disk ≡ false)
  Stored (err e, disk) =
      (look target disk ≡ look target before)
      × ((is_file (temporary target) disk ≡ false)
          ⊎ (faults.unlink_fails (temporary target) ≡ true))

  look-apart :
      (node : Node) (disk : Disk)
      → look target (put (temporary target) node disk) ≡ look target disk
  look-apart node disk =
      look-put (temporary target) target node disk
      ∙ ap (λ b. if b then some node else look target disk) (temporary_apart target)

  removed-apart : (disk : Disk) → look target (remove (temporary target) disk) ≡ look target disk
  removed-apart disk =
      look-remove (temporary target) target disk
      ∙ ap (λ b. if b then none else look target disk) (temporary_apart target)

  removed_self : (p : FilePath) (disk : Disk) → look p (remove p disk) ≡ none
  removed_self p disk =
      look-remove p p disk ∙ ap (λ b. if b then none else look p disk) (same_path_self p)

  unlink_file :
      (p : FilePath) (text : String) (disk : Disk)
      → look p disk ≡ some (file text)
      → unlink p disk ≡ (ok tt, remove p disk)
  unfolding unlink
  unlink_file p text disk e = rw (e, unlink) refl

  unlink_folder :
      (p : FilePath) (disk : Disk)
      → look p disk ≡ some folder
      → unlink p disk ≡ (err (os_error "Is a directory"), disk)
  unfolding unlink
  unlink_folder p disk e = rw (e, unlink) refl

  cleaned :
      (r : Result Exception Unit) (disk : Disk) (there : Option Node)
      → look (temporary target) disk ≡ there
      → Written (r, disk)
      → Stored (finished r (clean faults (temporary target) disk))
  unfolding clean ◌>>=◌ guard
  cleaned (ok done) disk there e h = rw h.1 (h.0, rw h.1 refl)
  cleaned (err x) disk none e h = rw e (h, inl (rw e refl))
  cleaned (err x) disk (some folder) e h =
      elim (Bool-cases (faults.unlink_fails (temporary target))) [
        | inl f ↦ rw (e, f) (h, inr f)
        | inr n ↦ rw (e, n, unlink_folder (temporary target) disk e) (h, inl (rw e refl))
      ]
  cleaned (err x) disk (some (file text)) e h =
      elim (Bool-cases (faults.unlink_fails (temporary target))) [
        | inl f ↦ rw (e, f) (h, inr f)
        | inr n ↦
            rw (e, n, unlink_file (temporary target) text disk e)
              (removed-apart disk ∙ h, inl (rw (removed_self (temporary target) disk) refl))
      ]

  abbrev written : Disk
  written = put (temporary target) (file content) before

  look-written : look (temporary target) written ≡ some (file content)
  look-written =
      look-put (temporary target) (temporary target) (file content) before
      ∙ ap (λ b. if b then some (file content) else look (temporary target) before)
          (same_path_self (temporary target))

  swapped : same_path target (temporary target) ≡ false
  swapped = elim (Bool-cases (same_path target (temporary target))) [
    | inr e ↦ e
    | inl e ↦ absurd (
        cc (
          sym (temporary_apart target)
          ∙ ap (same_path (temporary target)) (same_path_eq target (temporary target) e)
          ∙ same_path_self (temporary target)))
  ]

  moved_to : (disk : Disk) → look target (put target (file content) disk) ≡ some (file content)
  moved_to disk =
      look-put target target (file content) disk
      ∙ ap (λ b. if b then some (file content) else look target disk) (same_path_self target)

  moved_from :
      look (temporary target) (put target (file content) (remove (temporary target) written)) ≡ none
  moved_from =
      look-put target (temporary target) (file content) (remove (temporary target) written)
      ∙ ap
          (λ b.
            if b
            then some (file content)
            else look (temporary target) (remove (temporary target) written))
          swapped
      ∙ removed_self (temporary target) written

  -- the file is put in its place, or the target stays
  renamed : Written (replace faults (temporary target) target written)
  unfolding replace ◌>>=◌ guard
  renamed = elim (Bool-cases (faults.rename_fails target)) [
    | inl e ↦ rw e (look-apart (file content) before)
    | inr e ↦
        rw (e, look-written, rename)
          (if_ind {A = Result Exception Unit × Disk} Written (is_dir target written)
            (λ _. look-apart (file content) before)
            (λ _. (moved_to (remove (temporary target) written), moved_from)))
  ]

  attempted : Written (
      (write_bytes faults (temporary target) content >> replace faults (temporary target) target)
        before)
  unfolding write_bytes ◌>>=◌
  attempted =
      if_ind {A = Result Exception Unit × Disk}
        (λ r. Written (continue r (λ _. replace faults (temporary target) target)))
        (is_dir (temporary target) before) (λ _. refl)
        (λ _. elim (Option-cases (faults.write_fails (temporary target))) [
          | inl e ↦ rw e renamed
          | inr (partial, e) ↦ rw e (look-apart (file partial) before)
        ])

  pub store_lem : Stored (store faults target content before)
  unfolding store finally
  store_lem = cleaned _ _ (look (temporary target) _) refl attempted

module _ (faults : Faults) (target : FilePath) (content : String) (before : Disk) where
  -- What a call leaves: all of the content or the file as it was; and no temporary file, or one that
  -- was there, or one whose deletion was refused after the call failed.
  abbrev pub AllOrNothing : Result Exception Unit × Disk → Type 0
  AllOrNothing end =
      (look target end.1 ≡ (if is_ok end.0 then some (file content) else look target before))
      × ((is_file (temporary target) end.1 ≡ false)
          ⊎ (look (temporary target) end.1 ≡ look (temporary target) before)
          ⊎ ((is_ok end.0 ≡ false) × (faults.unlink_fails (temporary target) ≡ true)))

  from_store :
      (disk : Disk) (r : Result Exception Unit × Disk)
      → look target disk ≡ look target before
      → Stored faults target content disk r
      → AllOrNothing r
  from_store disk (ok done, after) e h = (h.0, inl h.1)
  from_store disk (err x, after) e h =
      (h.0 ∙ e, elim h.1 [ inl gone ↦ inl gone | inr refused ↦ inr (inr (refl, refused)) ])

  unchanged : (e : Exception) → AllOrNothing (err e, before)
  unchanged e = (refl, inr (inl refl))

  after_folders :
      (r : Result Exception Unit × Disk)
      → look target r.1 ≡ look target before
      → look (temporary target) r.1 ≡ look (temporary target) before
      → AllOrNothing (continue r (λ _. store faults target content))
  after_folders (ok done, disk) e h =
      from_store disk (store faults target content disk) e (store_lem faults target content disk)
  after_folders (err x, disk) e h = (e, inr (inl h))

  length-temporary : length (temporary target) ≡ length (parent target) + 1
  length-temporary = length-append (parent target) _

  -- The target holds all of the new content if `_write_text` returns, and what it held before if it
  -- raises, whatever the system refuses. A temporary file is left only if it was there before, or if the
  -- call raised and the system refused its deletion, too.
  pub write_text_lem :
      (r : Root) → 0 < length target → AllOrNothing (write_text faults r target content before)
  unfolding write_text ◌>>=◌ guard
  write_text_lem r named = elim (Bool-cases (ltb 1000000 (len content))) [
    | inl large ↦ rw large (unchanged (tool_error "the content is larger than 1MB"))
    | inr small ↦ rw small (elim (Result-cases (assert_not_sensitive r target)) [
      | inr (x, refused) ↦ rw refused (unchanged x)
      | inl (fine, allowed) ↦ rw allowed (
          after_folders (make_folders (length (parent target)) (parent target) before)
            (make_folders-Keeps (length (parent target)) (parent target) target (look target before)
              (inl (length-parent-lt target named)) before refl)
            (make_folders-Keeps (length (parent target)) (parent target) (temporary target)
              (look (temporary target) before) (inl (omega (arith, length-temporary))) before refl))
    ])
  ]
