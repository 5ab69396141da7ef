-- ===== src/Volume/Laws.antt =====
-- When `delete_volume` of crates/lodger-virt/src/volume.rs deletes.
use lodger.Host.{Error, in_use, lift, ◌>>=◌}
use lodger.Prelude.Equality.{text_beq}
use lodger.Prelude.{
  ℕ, Bool, true, false, ◌||◌, List, [], ◌∷◌, ◌++◌, map, err, text, any, ◌≡◌, refl, Bool-cases, inl,
  inr, sym, subst, Result, ok, ◌∙◌, Result-cases, arith,
}
use lodger.Volume.{VolumeApi, describe, delete_unused}
use lodger.Volume.Names.{IsUsers, users_of_key-IsUsers}
use lodger.Volume.Users.{UseOf, VolumeFacts, is_less, set_insert, users_of_key}
use lodger.Delete.{VmApi, canonical}
use lodger.Validate.{Text}
use lodger.Xml.{Element}

abbrev pub is_used : List ℕ → List UseOf → Bool
is_used key uses = any (λ u. text_beq u.key key) uses

cons_of :
    (x : List ℕ) (xs : List (List ℕ))
    → (y : List ℕ) × (ys : List (List ℕ)) × (set_insert x xs ≡ y ∷ ys)
unfolding set_insert
cons_of x [] = (x, [], refl)
cons_of x (y ∷ ys) = elim (Bool-cases (text_beq x y)) [
  | inl same ↦ (y, ys, rw same refl)
  | inr other ↦ elim (Bool-cases (is_less x y)) [
    | inl less ↦ (x, y ∷ ys, rw (other, less) refl)
    | inr more ↦ (y, set_insert x ys, rw (other, more) refl)
  ]
]

-- A file without a user has no users listed, and one with a user has.
users_unused :
    (key : List ℕ) (uses : List UseOf) → is_used key uses ≡ false → users_of_key key uses ≡ []
unfolding users_of_key
users_unused key [] h = refl
users_unused key (u ∷ uses) h = ground (arith, users_unused key uses)

users_used :
    (key : List ℕ) (uses : List UseOf)
    → is_used key uses ≡ true
    → (y : List ℕ) × (ys : List (List ℕ)) × (users_of_key key uses ≡ y ∷ ys)
unfolding users_of_key
users_used key [] h = absurd cc
users_used key (u ∷ uses) h = elim (Bool-cases (text_beq u.key key)) [
  | inl same ↦ let (y, ys, e) = cons_of u.by (users_of_key key uses) in (y, ys, rw (same, e) refl)
  | inr other ↦ let (y, ys, e) = users_used key uses (ground arith) in (y, ys, rw (other, e) refl)
]

module _ {S Domain Pool Volume : Type 0} (api : VolumeApi S Pool Volume)
    (vms : VmApi S Domain Pool Volume) where
  -- The file of a volume, resolved after its facts and its path were asked for in the state `s`.
  abbrev pub file_of : Volume → (path : Text) → S → Text
  file_of volume path s = canonical vms path (api.path volume (api.info volume s).0).0

  -- The facts name the users of this file.
  abbrev TellsUsers : Volume → (disks overlays : List UseOf) → S → Result Error VolumeFacts → Type 0
  TellsUsers volume disks overlays s (err e) = Unit
  TellsUsers volume disks overlays s (ok facts) =
      (facts.used_by ≡ users_of_key (file_of volume facts.path s) disks)
      × (facts.backing_for ≡ users_of_key (file_of volume facts.path s) overlays)

  describe-TellsUsers :
      (volume : Volume) (xml : Element) (disks overlays : List UseOf) (s : S)
      → TellsUsers volume disks overlays s (describe api vms volume xml disks overlays s).1
  unfolding describe ◌>>=◌
  describe-TellsUsers volume xml disks overlays s =
      let asked = (api.info volume s).0 in
      let found = (api.path volume asked).0 in
      let named = (api.name volume found).0 in
      elim (Result-cases (api.info volume s).1) [
        | inr (e, failed) ↦ rw failed tt
        | inl (info, told) ↦ elim (Result-cases (api.path volume asked).1) [
          | inr (e, failed) ↦ rw (told, failed) tt
          | inl (path, at) ↦ elim (Result-cases (api.name volume found).1) [
            | inr (e, failed) ↦ rw (told, at, failed) tt
            | inl (name, called) ↦ elim (Result-cases (api.key volume named).1) [
              | inr (e, failed) ↦ rw (told, at, called, failed) tt
              | inl (key, known) ↦ rw (told, at, called, known) (refl, refl)
            ]
          ]
        ]
      ]

  -- The facts of a volume name exactly the VMs and the overlays that use its file, sorted, each once. The
  -- volume is deleted when there is none. Else it is refused, with an error that gives the names of the
  -- VMs and then, each after the word `volume`, those of the overlays, and nothing changes.
  pub delete_unused-describe :
      (volume : Volume) (xml : Element) (disks overlays : List UseOf) (s s' : S)
      (facts : VolumeFacts)
      → describe api vms volume xml disks overlays s ≡ (s', ok facts)
      → let key = file_of volume facts.path s in
        IsUsers key disks facts.used_by
        × IsUsers key overlays facts.backing_for
        × ((is_used key disks || is_used key overlays) ≡ false
            → delete_unused api volume facts s' ≡ lift (api.delete volume) s')
        × ((is_used key disks || is_used key overlays) ≡ true
            → delete_unused api volume facts s' ≡ (
              s',
              err (in_use (facts.used_by ++ map (λ o. text "volume " ++ o) facts.backing_for)),
            ))
  unfolding delete_unused
  delete_unused-describe volume xml disks overlays s s' facts h =
      let key = file_of volume facts.path s in
      let (by_vms, by_overlays) =
        subst (λ r. TellsUsers volume disks overlays s r.1) h
          (describe-TellsUsers volume xml disks overlays s) in
      (
        subst (IsUsers key disks) (sym by_vms) (users_of_key-IsUsers key disks),
        subst (IsUsers key overlays) (sym by_overlays) (users_of_key-IsUsers key overlays),
        λ free.
            let no_disk = by_vms ∙ users_unused key disks (ground arith) in
            let no_overlay = by_overlays ∙ users_unused key overlays (ground arith) in
            rw (delete_unused, no_disk, no_overlay) refl,
        λ used. elim (Bool-cases (is_used key disks)) [
          | inl by_disk ↦
              let (y, ys, e) = users_used key disks by_disk in rw (delete_unused, by_vms ∙ e) refl
          | inr unused ↦
              let no_disk = by_vms ∙ users_unused key disks unused in
              let (y, ys, e) = users_used key overlays (ground arith) in
              rw (delete_unused, no_disk, by_overlays ∙ e) refl
        ],
      )
