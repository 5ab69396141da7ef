-- ===== src/Volume/Names.antt =====
-- The users of a file that `describe` of crates/lodger-virt/src/volume.rs collects in a `BTreeSet`.
use lodger.Prelude.Equality.{text_beq, text_beq_iff}
use lodger.Prelude.{true, List, [], ◌∷◌, ◌≡◌, ◌↔◌, ◌⊎◌, All, Bool-cases, inl, inr, arith}
use lodger.Validate.{Text}
use lodger.Volume.Order.{less_trans, less_total}
use lodger.Volume.Users.{UseOf, is_less, set_insert, users_of_key}

-- Some use of the file with this key is by `name`.
abbrev pub IsUser : (key name : Text) → List UseOf → Type 0
IsUser key name [] = ⊥
IsUser key name (u ∷ uses) = ((u.key ≡ key) × (u.by ≡ name)) ⊎ IsUser key name uses

abbrev pub IsListed : Text → List Text → Type 0
IsListed name [] = ⊥
IsListed name (x ∷ xs) = (x ≡ name) ⊎ IsListed name xs

-- Sorted, each once.
abbrev pub IsAscending : List Text → Type 0
IsAscending [] = Unit
IsAscending (x ∷ xs) = All (λ y. is_less x y ≡ true) xs × IsAscending xs

-- The list is exactly the users of the file, sorted, each once.
abbrev pub IsUsers : (key : Text) → List UseOf → List Text → Type 0
IsUsers key uses names =
    IsAscending names × ((name : Text) → IsListed name names ↔ IsUser key name uses)

set_insert-All :
    (P : Text → Type 0) (x : Text) (xs : List Text) → P x → All P xs → All P (set_insert x xs)
unfolding set_insert
set_insert-All P x [] p h = (p, tt)
set_insert-All P x (y ∷ xs) p (q, h) = ground (arith, set_insert-All P x xs p h)

All-later :
    (x y : Text) (ys : List Text)
    → is_less x y ≡ true
    → All (λ z. is_less y z ≡ true) ys
    → All (λ z. is_less x z ≡ true) ys
All-later x y [] less h = tt
All-later x y (z ∷ ys) less (first, rest) =
    (less_trans x y z less first, All-later x y ys less rest)

set_insert-IsAscending :
    (x : Text) (xs : List Text) → IsAscending xs → IsAscending (set_insert x xs)
unfolding set_insert
set_insert-IsAscending x [] h = (tt, tt)
set_insert-IsAscending x (y ∷ xs) (first, rest) = elim (Bool-cases (text_beq x y)) [
  | inl same ↦ rw same (first, rest)
  | inr other ↦ elim (Bool-cases (is_less x y)) [
    | inl less ↦ rw (other, less) ((less, All-later x y xs less first), (first, rest))
    | inr more ↦
        let differ = text_beq_iff x y in
        let before : is_less y x ≡ true = ground (arith, less_total x y, differ, other, more) in
        rw (other, more)
          (
            set_insert-All (λ z. is_less y z ≡ true) x xs before first,
            set_insert-IsAscending x xs rest,
          )
  ]
]

IsListed-set_insert :
    (name x : Text) (xs : List Text)
    → IsListed name (set_insert x xs) ↔ ((x ≡ name) ⊎ IsListed name xs)
unfolding set_insert
IsListed-set_insert name x [] = ground arith
IsListed-set_insert name x (y ∷ xs) =
    let same = text_beq_iff x y in ground (arith, same, IsListed-set_insert name x xs)

pub users_of_key-IsUsers :
    (key : Text) (uses : List UseOf) → IsUsers key uses (users_of_key key uses)
unfolding users_of_key
users_of_key-IsUsers key [] = (tt, λ name. (λ h. h, λ h. h))
users_of_key-IsUsers key (u ∷ uses) =
    let (ascending, listed) = users_of_key-IsUsers key uses in
    elim (Bool-cases (text_beq u.key key)) [
      | inl same ↦
          let equal = (text_beq_iff u.key key).0 same in
          rw same (
            set_insert-IsAscending u.by (users_of_key key uses) ascending,
            λ name.
                ground (
                  arith,
                  equal,
                  listed name,
                  IsListed-set_insert name u.by (users_of_key key uses),
                ),
          )
      | inr other ↦
          let differ = text_beq_iff u.key key in
          rw other (ascending, λ name. ground (arith, other, differ, listed name))
    ]
