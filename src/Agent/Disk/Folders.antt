-- ===== src/Agent/Disk/Folders.antt =====
-- What `mkdir` leaves as it is.
use ai_agent_ollama.Base.{
  ℕ, zero, suc, ◌≤◌, ◌<◌, length, false, ◌≡◌, refl, ◌∙◌, sym, ap, ◌⊎◌, inl, inr, Option, none, some,
  [], ◌∷◌, if◌then◌else◌, Bool-cases, Option-cases, arith,
}
use ai_agent_ollama.Base.Acting.{Keeps, bind-Keeps}
use ai_agent_ollama.Errors.{Exception}
use ai_agent_ollama.Agent.{FilePath}
use ai_agent_ollama.Agent.Disk.{
  Node, file, folder, Disk, same_path, same_path_eq, look, look-put, put, parent, make_folder,
  make_folders,
}

length-parent-le : (p : FilePath) → length (parent p) ≤ length p
length-parent-le [] = omega arith
length-parent-le (a ∷ []) = omega arith
length-parent-le (a ∷ b ∷ rest) = omega (arith, length-parent-le (b ∷ rest))

pub length-parent-lt : (p : FilePath) → 0 < length p → length (parent p) < length p
length-parent-lt [] h = h
length-parent-lt (a ∷ []) h = omega arith
length-parent-lt (a ∷ b ∷ rest) h = omega (arith, length-parent-lt (b ∷ rest) (omega arith))

shorter_apart : (p q : FilePath) → length p < length q → same_path p q ≡ false
shorter_apart p q h = elim (Bool-cases (same_path p q)) [
  | inr e ↦ e
  | inl e ↦ absurd (omega (arith, ap length (same_path_eq p q e)))
]

put_apart :
    (p q : FilePath) (node : Node) (disk : Disk)
    → same_path p q ≡ false
    → look q (put p node disk) ≡ look q disk
put_apart p q node disk e =
    look-put p q node disk ∙ ap (λ b. if b then some node else look q disk) e

-- `mkdir` writes nothing where something is
make_folder_there :
    (p : FilePath) (node : Node) (disk : Disk)
    → look p disk ≡ some node
    → (make_folder p disk).1 ≡ disk
unfolding make_folder
make_folder_there p folder disk e = rw (e, make_folder) refl
make_folder_there p (file text) disk e = rw (e, make_folder) refl

make_folder_new :
    (p : FilePath) (disk : Disk) → look p disk ≡ none → (make_folder p disk).1 ≡ put p folder disk
unfolding make_folder
make_folder_new p disk e = rw (e, make_folder) refl

-- what a call of `mkdir` cannot touch: another path, or one where something is
abbrev Spared : FilePath → FilePath → Option Node → Type 0
Spared p q there = (same_path p q ≡ false) ⊎ ((node : Node) × (there ≡ some node))

make_folder-Keeps :
    (p q : FilePath) (there : Option Node)
    → Spared p q there
    → Keeps {S = Disk} {E = Exception} (λ disk. look q disk ≡ there) (make_folder p)
make_folder-Keeps p q there spared disk e = elim (Option-cases (look p disk)) [
  | inr (node, old) ↦ ap (look q) (make_folder_there p node disk old) ∙ e
  | inl new ↦ ap (look q) (make_folder_new p disk new) ∙ elim spared [
    | inl apart ↦ put_apart p q folder disk apart ∙ e
    | inr (node, found) ↦ elim (Bool-cases (same_path p q)) [
      | inr apart ↦ put_apart p q folder disk apart ∙ e
      | inl same ↦ absurd (cc (sym new ∙ ap (λ r. look r disk) (same_path_eq p q same) ∙ e ∙ found))
    ]
  ]
]

Spared-parent :
    (p q : FilePath) (there : Option Node)
    → (length p < length q) ⊎ ((node : Node) × (there ≡ some node))
    → Spared p q there
Spared-parent p q there (inl short) = inl (shorter_apart p q short)
Spared-parent p q there (inr found) = inr found

shorter_still :
    (p q : FilePath) (there : Option Node)
    → (length p < length q) ⊎ ((node : Node) × (there ≡ some node))
    → (length (parent p) < length q) ⊎ ((node : Node) × (there ≡ some node))
shorter_still p q there (inl short) = inl (omega (arith, length-parent-le p))
shorter_still p q there (inr found) = inr found

-- a longer path, and one where something is, stays
pub make_folders-Keeps :
    (depth : ℕ) (p q : FilePath) (there : Option Node)
    → (length p < length q) ⊎ ((node : Node) × (there ≡ some node))
    → Keeps {S = Disk} {E = Exception} (λ disk. look q disk ≡ there) (make_folders depth p)
unfolding make_folders
make_folders-Keeps zero p q there h disk e =
    make_folder-Keeps p q there (Spared-parent p q there h) disk e
make_folders-Keeps (suc depth) p q there h disk e =
    let last = make_folder-Keeps p q there (Spared-parent p q there h) in
    elim (Option-cases (look p disk)) [
      | inr (node, old) ↦ rw (old, make_folders) (last disk e)
      | inl new ↦ elim (Option-cases (look (parent p) disk)) [
        | inl missing ↦
            rw (new, missing, make_folders)
              (bind-Keeps (λ disk. look q disk ≡ there) (make_folders depth (parent p))
                (λ _. make_folder p)
                (make_folders-Keeps depth (parent p) q there (shorter_still p q there h))
                (λ _. last) disk e)
        | inr (folder, above) ↦ rw (new, above, make_folders) (last disk e)
        | inr (file text, above) ↦ rw (new, above, make_folders) e
      ]
    ]
