-- ===== src/Pool/Folder.antt =====
-- Which folders `NewPool` of crates/lodger-core/src/xml/pool.rs accepts.
use lodger.Pool.New.{system_trees, system_folders, is_in_tree, is_system_path, pool_folder}
use lodger.Prelude.Equality.{text_beq, text_beq_iff}
use lodger.Prelude.{
  ◌≡◌, ◌≢◌, ◌↔◌, ◌⊎◌, refl, sym, subst, Bool, true, false, ◌||◌, text, ◌++◌, List, [], ◌∷◌, ok,
  arith, Result-cases, Bool-cases, inl, inr, any, All,
}
use lodger.Validate.{Text}
use lodger.Validate.Path.{parts, join, parse_path}
use lodger.Validate.Path.Laws.{IsPath, parse_path_iff}
use lodger.Xml.{starts_with}

-- The plain form of a path.
abbrev pub IsPlain : (value path : Text) → Type 0
IsPlain value path = (path ≡ b'/' ∷ join (parts value)) × IsPath value

-- The tree's folder, or a path below it.
abbrev pub IsBelow : (path tree : Text) → Type 0
IsBelow path tree = (path ≡ tree) ⊎ ((rest : Text) × (path ≡ tree ++ text "/" ++ rest))

-- No system folder, and nothing in a tree of the system.
abbrev pub IsSafe : Text → Type 0
IsSafe path =
    All (λ tree. ¬ IsBelow path tree) system_trees × All (λ folder. path ≢ folder) system_folders

starts_with_sound : (p t : Text) → starts_with p t ≡ true → (rest : Text) × (t ≡ p ++ rest)
unfolding starts_with
starts_with_sound [] t h = (t, refl)
starts_with_sound (x ∷ p) [] h = absurd (ground (arith, h))
starts_with_sound (x ∷ p) (y ∷ t) h =
    let (rest, same) = starts_with_sound p t (ground (arith, h)) in (rest, ground (arith, h, same))

starts_with_complete : (p rest : Text) → starts_with p (p ++ rest) ≡ true
unfolding starts_with
starts_with_complete [] rest = refl
starts_with_complete (x ∷ p) rest = ground (arith, starts_with_complete p rest)

is_in_tree_iff : (path tree : Text) → (is_in_tree path tree ≡ false) ↔ (¬ IsBelow path tree)
unfolding is_in_tree
is_in_tree_iff path tree = (
  λ h below. elim below [
    | inl same ↦ ground (arith, h, (text_beq_iff path tree).1 same)
    | inr (rest, same) ↦
        let starts : starts_with (tree ++ text "/") path ≡ true =
          rw same (starts_with_complete (tree ++ text "/") rest) in
        ground (arith, h, starts)
  ],
  λ free. elim (Bool-cases (text_beq path tree)) [
    | inl same ↦ absurd (free (inl ((text_beq_iff path tree).0 same)))
    | inr differs ↦ elim (Bool-cases (starts_with (tree ++ text "/") path)) [
      | inl starts ↦ absurd (free (inr (starts_with_sound (tree ++ text "/") path starts)))
      | inr apart ↦ ground (arith, differs, apart)
    ]
  ],
)

outside_iff :
    (path : Text) (trees : List Text)
    → (any (is_in_tree path) trees ≡ false) ↔ All (λ tree. ¬ IsBelow path tree) trees
outside_iff path [] = (λ h. tt, λ h. refl)
outside_iff path (tree ∷ trees) =
    let (sound, complete) = is_in_tree_iff path tree in
    let (sounds, completes) = outside_iff path trees in
    (
      λ h. (sound (ground (arith, h)), sounds (ground (arith, h))),
      λ (free, others). ground (arith, complete free, completes others),
    )

differs_iff :
    (path : Text) (folders : List Text)
    → (any (text_beq path) folders ≡ false) ↔ All (λ folder. path ≢ folder) folders
differs_iff path [] = (λ h. tt, λ h. refl)
differs_iff path (folder ∷ folders) =
    ground (arith, text_beq_iff path folder, differs_iff path folders)

or_left : (a b : Bool) → (a || b) ≡ false → a ≡ false
or_left a b h = ground (arith, h)

or_right : (a b : Bool) → (a || b) ≡ false → b ≡ false
or_right a b h = ground (arith, h)

system_path_iff : (path : Text) → (is_system_path path ≡ false) ↔ IsSafe path
unfolding is_system_path
system_path_iff path =
    let (out, back) = outside_iff path system_trees in
    let (differs, agrees) = differs_iff path system_folders in
    (
      λ h. (out (or_left _ _ h), differs (or_right _ _ h)),
      λ (trees, folders). rw (back trees) (agrees folders),
    )

-- A folder that a pool may have.
abbrev pub IsFolder : (value path : Text) → Type 0
IsFolder value path = IsPlain value path × IsSafe path

pub pool_folder_iff : (v p : Text) → (pool_folder v ≡ ok p) ↔ IsFolder v p
unfolding pool_folder
pool_folder_iff v p = elim (Result-cases (parse_path "Pool folder" v)) [
  | inr (e, bad) ↦ (
    λ h. absurd (ground (arith, bad, h)),
    λ (plain, _).
        let good = (parse_path_iff "Pool folder" v p).1 plain in ground (arith, bad, good),
  )
  | inl (q, read) ↦
      let (sound, complete) = system_path_iff q in
      let plain = (parse_path_iff "Pool folder" v q).0 read in
      elim (Bool-cases (is_system_path q)) [
        | inl system ↦ (
          λ h. absurd (ground (arith, read, system, h)),
          λ (other, safe).
              let good = (parse_path_iff "Pool folder" v p).1 other in
              let same : q ≡ p = ground (arith, read, good) in
              absurd (ground (arith, complete (subst IsSafe (sym same) safe), system)),
        )
        | inr safe ↦ (
          λ h.
              let same : q ≡ p = ground (arith, read, safe, h) in
              subst (IsFolder v) same (plain, sound safe),
          λ (other, _).
              let good = (parse_path_iff "Pool folder" v p).1 other in
              let same : q ≡ p = ground (arith, read, good) in ground (arith, read, safe, same),
        )
      ]
]
