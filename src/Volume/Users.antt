-- ===== src/Volume/Users.antt =====
-- The facts of a volume: `Volume` of crates/lodger-core/src/model/volume.rs, and the users of a file,
-- the closure `users` of `describe` in crates/lodger-virt/src/volume.rs.
use lodger.Prelude.Equality.{text_beq}
use lodger.Prelude.{
  ℕ, Bool, true, false, ◌&&◌, ◌||◌, List, [], ◌∷◌, Option, if◌then◌else◌, ◌==◌, ltb,
}
use lodger.Validate.{Text}

pub data VolumeKind : Type 0 where
  file block dir network net_dir ploop unknown : VolumeKind

-- `VolumeKind::from_code`.
unfoldable pub kind_from_code : (code : ℕ) → VolumeKind
kind_from_code code =
    if code == 0
    then file
    else if code == 1
    then block
    else if code == 2
    then dir
    else if code == 3
    then network
    else if code == 4
    then net_dir
    else if code == 5
    then ploop
    else unknown

-- `Volume` of the model. The sizes are in bytes.
pub record VolumeFacts : Type 0 where
  pub name : Text
  pub key : Text
  pub path : Text
  pub kind : VolumeKind
  pub format : Option Text
  pub capacity_bytes : ℕ
  pub allocation_bytes : ℕ
  pub used_by : List Text
  pub backing_for : List Text

-- One user of a file.
pub record UseOf : Type 0 where
  pub key : Text
  pub by : Text

-- `str::cmp`, and `BTreeSet::insert` on a sorted list.
unfoldable pub is_less : Text → Text → Bool
is_less [] [] = false
is_less [] (y ∷ ys) = true
is_less (x ∷ xs) [] = false
is_less (x ∷ xs) (y ∷ ys) = ltb x y || (x == y && is_less xs ys)

unfoldable pub set_insert : Text → List Text → List Text
set_insert x [] = x ∷ []
set_insert x (y ∷ ys) =
    let rest = set_insert x ys in
    if text_beq x y then y ∷ ys else if is_less x y then x ∷ y ∷ ys else y ∷ rest

-- The users of the file with this key, sorted, each once.
unfoldable pub users_of_key : (key : Text) → List UseOf → List Text
users_of_key key [] = []
users_of_key key (u ∷ uses) =
    let rest = users_of_key key uses in if text_beq u.key key then set_insert u.by rest else rest

-- `sort_by_name`, a stable sort.
unfoldable pub insert_by_name : VolumeFacts → List VolumeFacts → List VolumeFacts
insert_by_name v [] = v ∷ []
insert_by_name v (w ∷ ws) =
    let rest = insert_by_name v ws in if is_less w.name v.name then w ∷ rest else v ∷ w ∷ ws

unfoldable pub sort_by_name : List VolumeFacts → List VolumeFacts
sort_by_name [] = []
sort_by_name (v ∷ vs) = insert_by_name v (sort_by_name vs)
