-- ===== src/Db/Calls.antt =====
-- Histories of the calls of crates/lodger/src/db/mod.rs that change the tables: the constraints hold
-- after each one, and the last account stays.
use lodger.Map.{get, remove, retain}
use lodger.Map.Laws.{remove-Distinct, retain-Distinct, remove-AllValues, retain-AllValues}
use lodger.Prelude.Equality.{nat_eq}
use lodger.Prelude.{ℕ, not, Option-cases, List, [], ◌∷◌, arith, ◌==◌, Result-cases, inl, inr}
use lodger.Db.{
  Text, AuditRow, Db, NewSession, find_name, insert_account, create_first_account, create_account,
  delete_account, set_password, insert_session, delete_others, change_password, reset_password,
}
use lodger.Db.Queries.{
  is_alive, create_session, session, delete_session, audit, delete_old_audit_rows,
}
use lodger.Db.Tables.{IsValid, OwnedBy, delete_others-Distinct, delete_others-AllValues}
use lodger.Db.Rows.{
  put_sessions-IsValid, insert_account-IsValid, delete_row-IsValid, set_password-IsValid,
  insert_session-IsValid, touch_session-IsValid,
}

-- A call that writes.
pub data Call : Type 0 where
  creates_first : (now : ℕ) (username password_hash : Text) → Call
  creates : (now : ℕ) (username password_hash : Text) → Call
  deletes : (id : ℕ) → Call
  changes : (now id : ℕ) (password_hash : Text) (current : ℕ) → NewSession → Call
  resets : (now : ℕ) (username password_hash : Text) → Call
  opens : (now later : ℕ) → NewSession → Call
  uses : (now later token : ℕ) → Call
  ends : (token : ℕ) → Call
  audits : (now : ℕ) → AuditRow → Call
  purges : (now days : ℕ) → Call

unfoldable pub step : Db → Call → Db
step db (creates_first now username password_hash) =
    (create_first_account now username password_hash db).0
step db (creates now username password_hash) = (create_account now username password_hash db).0
step db (deletes id) = (delete_account id db).0
step db (changes now id password_hash current new) =
    (change_password now id password_hash current new db).0
step db (resets now username password_hash) = (reset_password now username password_hash db).0
step db (opens now later new) = (create_session now later new db).0
step db (uses now later token) = (session now later token db).0
step db (ends token) = delete_session token db
step db (audits now row) = audit now row db
step db (purges now days) = (delete_old_audit_rows now days db).0

unfoldable pub run : Db → List Call → Db
unfolding step
run db [] = db
run db (c ∷ cs) = run (step db c) cs

-- Sessions that only go keep the constraints.
fewer_sessions-IsValid :
    (id : ℕ) (db : Db)
    → IsValid db
    → IsValid (record db { sessions = retain (λ s. not (s.account_id == id)) db.sessions })
fewer_sessions-IsValid id db v =
    put_sessions-IsValid (retain (λ s. not (s.account_id == id)) db.sessions) db
      (retain-Distinct (λ s. not (s.account_id == id)) db.sessions v.sessions_distinct)
      (retain-AllValues (OwnedBy db.accounts) (λ s. not (s.account_id == id)) db.sessions v.owned) v

create_first_account-IsValid :
    (now : ℕ) (username password_hash : Text) (db : Db)
    → IsValid db
    → IsValid (create_first_account now username password_hash db).0
unfolding create_first_account
create_first_account-IsValid now username password_hash db v =
    elim (Result-cases (insert_account now username password_hash db)) [
      | inl ((db', id), stored) ↦
          let valid = insert_account-IsValid now username password_hash db db' id stored v in
          rw (create_first_account, stored) (ground (arith, valid, v))
      | inr (e, failed) ↦ rw (create_first_account, failed) (ground (arith, v))
    ]

create_account-IsValid :
    (now : ℕ) (username password_hash : Text) (db : Db)
    → IsValid db
    → IsValid (create_account now username password_hash db).0
unfolding create_account
create_account-IsValid now username password_hash db v =
    elim (Result-cases (insert_account now username password_hash db)) [
      | inl ((db', id), stored) ↦
          rw (create_account, stored)
            (insert_account-IsValid now username password_hash db db' id stored v)
      | inr (e, failed) ↦ rw (create_account, failed) v
    ]

delete_account-IsValid : (id : ℕ) (db : Db) → IsValid db → IsValid (delete_account id db).0
unfolding delete_account
delete_account-IsValid id db v = elim (Option-cases (get id db.accounts)) [
  | inl missing ↦ rw (delete_account, missing) v
  | inr (a, found) ↦ rw (delete_account, found) (ground (arith, v, delete_row-IsValid id db v))
]

change_password-IsValid :
    (now id : ℕ) (password_hash : Text) (current : ℕ) (new : NewSession) (db : Db)
    → IsValid db
    → IsValid (change_password now id password_hash current new db).0
unfolding change_password
change_password-IsValid now id password_hash current new db v =
    let updated = set_password now id password_hash db in
    let others = delete_others id current updated.sessions in
    let u : IsValid updated = set_password-IsValid now id password_hash db v in
    let cleared =
      put_sessions-IsValid (remove current others) updated
        (remove-Distinct current others
          (delete_others-Distinct id current updated.sessions u.sessions_distinct))
        (remove-AllValues (OwnedBy updated.accounts) current others
          (delete_others-AllValues (OwnedBy updated.accounts) id current updated.sessions u.owned))
        u in
    elim (Result-cases
      (insert_session now new (record updated { sessions = remove current others }))) [
        | inl (db', stored) ↦
            rw (change_password, stored) (insert_session-IsValid now new _ db' stored cleared)
        | inr (e, failed) ↦ rw (change_password, failed) v
      ]

reset_password-IsValid :
    (now : ℕ) (username password_hash : Text) (db : Db)
    → IsValid db
    → IsValid (reset_password now username password_hash db).0
unfolding reset_password
reset_password-IsValid now username password_hash db v =
    elim (Option-cases (find_name username db.accounts)) [
      | inl missing ↦ rw (reset_password, missing) v
      | inr ((id, a), found) ↦
          rw (reset_password, found)
            (fewer_sessions-IsValid id (set_password now id password_hash db)
              (set_password-IsValid now id password_hash db v))
    ]

pub create_session-IsValid :
    (now later : ℕ) (new : NewSession) (db : Db)
    → IsValid db
    → IsValid (create_session now later new db).0
unfolding create_session
create_session-IsValid now later new db v =
    let cleaned =
      put_sessions-IsValid (retain (is_alive now) db.sessions) db
        (retain-Distinct (is_alive now) db.sessions v.sessions_distinct)
        (retain-AllValues (OwnedBy db.accounts) (is_alive now) db.sessions v.owned) v in
    elim (Result-cases
      (insert_session later new (record db { sessions = retain (is_alive now) db.sessions }))) [
        | inl (db', stored) ↦
            rw (create_session, stored) (insert_session-IsValid later new _ db' stored cleaned)
        | inr (e, failed) ↦ rw (create_session, failed) cleaned
      ]

pub step-IsValid : (db : Db) (c : Call) → IsValid db → IsValid (step db c)
unfolding step session delete_session audit delete_old_audit_rows
step-IsValid db (creates_first now u h) v = create_first_account-IsValid now u h db v
step-IsValid db (creates now u h) v = create_account-IsValid now u h db v
step-IsValid db (deletes id) v = delete_account-IsValid id db v
step-IsValid db (changes now id h current new) v = change_password-IsValid now id h current new db v
step-IsValid db (resets now u h) v = reset_password-IsValid now u h db v
step-IsValid db (opens now later new) v = create_session-IsValid now later new db v
step-IsValid db (uses now later token) v = ground (arith, v, touch_session-IsValid later token db v)
step-IsValid db (ends token) v =
    put_sessions-IsValid (remove token db.sessions) db
      (remove-Distinct token db.sessions v.sessions_distinct)
      (remove-AllValues (OwnedBy db.accounts) token db.sessions v.owned) v
step-IsValid db (audits now row) v = record {
  accounts_distinct = v.accounts_distinct;
  names_distinct = v.names_distinct;
  sessions_distinct = v.sessions_distinct;
  owned = v.owned;
}
step-IsValid db (purges now days) v = record {
  accounts_distinct = v.accounts_distinct;
  names_distinct = v.names_distinct;
  sessions_distinct = v.sessions_distinct;
  owned = v.owned;
}

-- From tables that satisfy the constraints of the schema, any calls leave such tables: ids, names but
-- for case, and token hashes are unique, and every session belongs to an account.
pub db_run-IsValid : (db : Db) (cs : List Call) → IsValid db → IsValid (run db cs)
unfolding run
db_run-IsValid db [] v = v
db_run-IsValid db (c ∷ cs) v = db_run-IsValid (step db c) cs (step-IsValid db c v)
