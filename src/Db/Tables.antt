-- ===== src/Db/Tables.antt =====
-- The tables of crates/lodger/src/db/mod.rs: the constraints that the statements keep.
use lodger.Map.{get, contains_key, insert, remove, retain}
use lodger.Map.Laws.{Distinct, AllValues, kept, get-insert, get-remove}
use lodger.Prelude.Equality.{nat_eq, text_beq_iff}
use lodger.Prelude.{
  ℕ, ◌<◌, ◌≡◌, refl, Bool, true, false, not, none, some, List, [], ◌∷◌, arith, ◌==◌, if◌then◌else◌,
  Bool-cases, inl, inr, subst,
}
use lodger.Db.{Text, Account, SessionRow, Db, same_name, find_name, max_id, delete_others}

-- No two accounts have the same name but for case.
abbrev pub DistinctNames : List (ℕ × Account) → Type 0
DistinctNames [] = Unit
DistinctNames ((id, a) ∷ rows) = (find_name a.username rows ≡ none) × DistinctNames rows

abbrev pub OwnedBy : List (ℕ × Account) → SessionRow → Type 0
OwnedBy accounts s = contains_key s.account_id accounts ≡ true

-- The constraints of the schema.
pub record IsValid (db : Db) : Type 0 where
  pub accounts_distinct : Distinct db.accounts
  pub names_distinct : DistinctNames db.accounts
  pub sessions_distinct : Distinct db.sessions
  pub owned : AllValues (OwnedBy db.accounts) db.sessions

-- A fresh id.
get_above : (id : ℕ) (rows : List (ℕ × Account)) → max_id rows < id → get id rows ≡ none
unfolding max_id get
get_above id [] h = refl
get_above id ((j, a) ∷ rows) h = ground (arith, get_above id rows)

same_name_sym : (a b : Text) → same_name a b ≡ same_name b a
unfolding same_name
same_name_sym a b = grind (arith, text_beq_iff)

find-insert :
    (n : Text) (id : ℕ) (a : Account) (rows : List (ℕ × Account))
    → find_name n rows ≡ none
    → same_name a.username n ≡ false
    → find_name n (insert id a rows) ≡ none
unfolding insert find_name
find-insert n id a [] f q = ground arith
find-insert n id a ((j, b) ∷ rows) f q = ground (arith, find-insert n id a rows)

find-get :
    (n : Text) (id : ℕ) (a : Account) (rows : List (ℕ × Account))
    → find_name n rows ≡ none
    → get id rows ≡ some a
    → same_name a.username n ≡ false
unfolding get find_name
find-get n id a [] f g = cc
find-get n id a ((j, b) ∷ rows) f g = ground (arith, find-get n id a rows)

find-remove :
    (n : Text) (id : ℕ) (rows : List (ℕ × Account))
    → find_name n rows ≡ none
    → find_name n (remove id rows) ≡ none
unfolding remove find_name
find-remove n id [] f = refl
find-remove n id ((j, b) ∷ rows) f = ground (arith, find-remove n id rows)

pub insert-DistinctNames :
    (id : ℕ) (a : Account) (rows : List (ℕ × Account))
    → find_name a.username rows ≡ none
    → DistinctNames rows
    → DistinctNames (insert id a rows)
unfolding insert find_name
insert-DistinctNames id a [] f d = (refl, tt)
insert-DistinctNames id a ((j, b) ∷ rows) f (h, d) = ground (
  arith,
  same_name_sym a.username b.username,
  find-insert b.username id a rows h,
  insert-DistinctNames id a rows,
)

-- A row in place of one with the same name.
pub replace-DistinctNames :
    (id : ℕ) (a a' : Account) (rows : List (ℕ × Account))
    → a'.username ≡ a.username
    → get id rows ≡ some a
    → DistinctNames rows
    → DistinctNames (insert id a' rows)
unfolding insert get find_name
replace-DistinctNames id a a' [] e g d = (refl, tt)
replace-DistinctNames id a a' ((j, b) ∷ rows) e g (h, d) = elim (Bool-cases (j == id)) [
  | inl same ↦
      let stored : some b ≡ some a = rw same at g in
      let named : b.username ≡ a'.username = grind (arith, e) in
      rw same (subst (λ n. find_name n rows ≡ none) named h, d)
  | inr other ↦
      let below : get id rows ≡ some a = rw other at g in
      let differs : same_name a'.username b.username ≡ false =
        rw e (find-get b.username id a rows h below) in
      rw other
        (find-insert b.username id a' rows h differs, replace-DistinctNames id a a' rows e below d)
]

pub remove-DistinctNames :
    (id : ℕ) (rows : List (ℕ × Account)) → DistinctNames rows → DistinctNames (remove id rows)
unfolding remove
remove-DistinctNames id [] d = tt
remove-DistinctNames id ((j, b) ∷ rows) (h, d) =
    ground (arith, find-remove b.username id rows h, remove-DistinctNames id rows d)

pub retained-AllValues :
    {P Q : SessionRow → Type 0} (p : SessionRow → Bool) (rows : List (ℕ × SessionRow))
    → ((s : SessionRow) → p s ≡ true → P s → Q s)
    → AllValues P rows
    → AllValues Q (retain p rows)
unfolding retain
retained-AllValues p [] f h = tt
retained-AllValues {P} {Q} p ((k, s) ∷ rows) f (h, hs) =
    let later : AllValues Q (retain p rows) = retained-AllValues p rows f hs in
    elim (Bool-cases (p s)) [
      | inl passes ↦ rw passes (f s passes h, later)
      | inr fails ↦ rw fails later
    ]

pub AllValues-map :
    {P Q : SessionRow → Type 0} (rows : List (ℕ × SessionRow))
    → ((s : SessionRow) → P s → Q s)
    → AllValues P rows
    → AllValues Q rows
AllValues-map [] f h = tt
AllValues-map (r ∷ rows) f (p, h) = (f r.1 p, AllValues-map rows f h)

pub OwnedBy-insert :
    (id : ℕ) (a : Account) (rows : List (ℕ × Account)) (s : SessionRow)
    → OwnedBy rows s
    → OwnedBy (insert id a rows) s
unfolding contains_key
OwnedBy-insert id a rows s h = ground (arith, get-insert id s.account_id a rows)

pub OwnedBy-remove :
    (id : ℕ) (rows : List (ℕ × Account)) (s : SessionRow)
    → Distinct rows
    → not (s.account_id == id) ≡ true
    → OwnedBy rows s
    → OwnedBy (remove id rows) s
unfolding contains_key
OwnedBy-remove id rows s d n h = ground (arith, get-remove id s.account_id rows d)

-- The deletion of the other sessions of an account, row by row.
pub get-delete_others :
    (id current j : ℕ) (rows : List (ℕ × SessionRow))
    → Distinct rows
    → get j (delete_others id current rows)
      ≡ (if j == current then get j rows else kept (λ s. not (s.account_id == id)) (get j rows))
unfolding delete_others get
get-delete_others id current j [] d = ground arith
get-delete_others id current j ((t, s) ∷ rows) (h, d) =
    ground (arith, get-delete_others id current j rows d)

pub delete_others-Distinct :
    (id current : ℕ) (rows : List (ℕ × SessionRow))
    → Distinct rows
    → Distinct (delete_others id current rows)
unfolding delete_others
delete_others-Distinct id current [] d = tt
delete_others-Distinct id current ((t, s) ∷ rows) (h, d) =
    ground (arith, get-delete_others id current t rows d, delete_others-Distinct id current rows d)

pub delete_others-AllValues :
    (P : SessionRow → Type 0) (id current : ℕ) (rows : List (ℕ × SessionRow))
    → AllValues P rows
    → AllValues P (delete_others id current rows)
unfolding delete_others
delete_others-AllValues P id current [] h = tt
delete_others-AllValues P id current ((t, s) ∷ rows) (h, hs) =
    ground (arith, delete_others-AllValues P id current rows hs)
