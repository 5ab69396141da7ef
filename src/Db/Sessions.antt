-- ===== src/Db/Sessions.antt =====
-- How the calls of crates/lodger/src/db/mod.rs end the sessions of an account.
use lodger.Map.{get, insert, remove}
use lodger.Map.Laws.{kept, get-insert, get-remove, get-retain}
use lodger.Prelude.Equality.{nat_eq}
use lodger.Prelude.{
  ℕ, ◌<◌, ◌≡◌, sym, ap, not, Option, none, some, Option-cases, ok, arith, ◌==◌, if◌then◌else◌,
  Result-cases, inl, inr,
}
use lodger.Db.{
  Text, Account, SessionRow, Db, deleted, NewSession, find_name, account_count, delete_row,
  delete_account, set_password, insert_session, delete_others, change_password, reset_password,
}
use lodger.Db.Tables.{IsValid, get-delete_others, delete_others-Distinct}
use lodger.Db.Rows.{new_row, insert_session-stored, set_password-IsValid}

-- A session that is not of this account.
abbrev pub others_only : ℕ → Option SessionRow → Option SessionRow
others_only id = kept (λ s. not (s.account_id == id))

-- From tables that satisfy the constraints, `delete_account` deletes an account exactly if it exists
-- and is not the only one, and then ends every session of the account and no other.
pub delete_account-sessions :
    (id : ℕ) (u : Text) (db : Db)
    → IsValid db
    → (delete_account id db).1 ≡ deleted u
    → (1 < account_count db)
      × (get id (delete_account id db).0.accounts ≡ none)
      × ((token : ℕ)
          → get token (delete_account id db).0.sessions ≡ others_only id (get token db.sessions))
unfolding delete_account delete_row
delete_account-sessions id u db v done = elim (Option-cases (get id db.accounts)) [
  | inl missing ↦ absurd (ground (arith, missing, done))
  | inr (a, found) ↦
      let many : (1 < account_count db) = ground (arith, found, done) in
      let gone = get-remove id id db.accounts v.accounts_distinct in
      let ended = λ (token : ℕ).
        get-retain (λ s. not (s.account_id == id)) token db.sessions v.sessions_distinct in
      (many, ground (arith, found, many, gone), λ token. ground (arith, found, many, ended token))
]

pub set_password-sessions :
    (now id : ℕ) (h : Text) (db : Db) → (set_password now id h db).sessions ≡ db.sessions
unfolding set_password
set_password-sessions now id h db = ground arith

-- From tables that satisfy the constraints, a reset of a password ends every session of the account
-- and no other, and stores the new hash.
pub reset_password-sessions :
    (now n : ℕ) (u h : Text) (db : Db)
    → IsValid db
    → (reset_password now u h db).1 ≡ some n
    → (id : ℕ) × (a : Account) × (find_name u db.accounts ≡ some (id, a))
      × ((token : ℕ)
          → get token (reset_password now u h db).0.sessions
            ≡ others_only id (get token db.sessions))
unfolding reset_password
reset_password-sessions now n u h db v done = elim (Option-cases (find_name u db.accounts)) [
  | inl missing ↦ absurd (ground (arith, missing, done))
  | inr ((id, a), found) ↦ (
    id,
    a,
    found,
    λ token.
        let kept_ones =
          get-retain (λ s. not (s.account_id == id)) token db.sessions v.sessions_distinct in
        let same = set_password-sessions now id h db in rw (reset_password, found, same) kept_ones,
  )
]

-- From tables that satisfy the constraints, a change of password leaves the account one session, the
-- new one, and ends no session of another account but the current one.
pub change_password-sessions :
    (now id n : ℕ) (h : Text) (current : ℕ) (new : NewSession) (db : Db)
    → IsValid db
    → (change_password now id h current new db).1 ≡ ok n
    → (token : ℕ)
    → get token (change_password now id h current new db).0.sessions ≡ (
        if new.token_sha256 == token
        then some (new_row now new)
        else if current == token
        then none
        else others_only id (get token db.sessions))
unfolding change_password
change_password-sessions now id n h current new db v done token =
    let updated = set_password now id h db in
    let u : IsValid updated = set_password-IsValid now id h db v in
    let others = delete_others id current updated.sessions in
    elim (Result-cases
      (insert_session now new (record updated { sessions = remove current others }))) [
        | inl (db', stored) ↦
            let (written, _, _) = insert_session-stored now new _ db' stored in
            let read =
              get-insert new.token_sha256 token (new_row now new) (remove current others) in
            let cut =
              get-remove current token others
                (delete_others-Distinct id current updated.sessions u.sessions_distinct) in
            let swept = get-delete_others id current token updated.sessions u.sessions_distinct in
            let same : get token updated.sessions ≡ get token db.sessions =
              ap (get token) (set_password-sessions now id h db) in
            let result : get token db'.sessions
                ≡ get token (insert new.token_sha256 (new_row now new) (remove current others)) =
              ap (λ (d : Db). get token d.sessions) (sym written) in
            ground (arith, stored, result, read, cut, swept, same)
        | inr (e, failed) ↦ absurd (ground (arith, failed, done))
      ]
