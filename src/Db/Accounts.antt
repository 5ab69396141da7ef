-- ===== src/Db/Accounts.antt =====
-- The number of accounts in crates/lodger/src/db/mod.rs: setup closes with the first account, and
-- the last account stays.
use lodger.Map.{get, insert, remove, retain}
use lodger.Prelude.Equality.{nat_eq}
use lodger.Prelude.{
  ℕ, suc, ◌≤◌, ◌≡◌, sym, ap, true, false, Option-cases, List, [], ◌∷◌, ok, arith, length,
  Result-cases, inl, inr,
}
use lodger.Db.{
  Text, Account, Db, NewSession, find_name, max_id, insert_account, account_count,
  create_first_account, create_account, delete_row, delete_account, set_password, insert_session,
  delete_others, change_password, reset_password,
}
use lodger.Db.Queries.{
  is_alive, create_session, touch_session, session, delete_session, audit, delete_old_audit_rows,
}
use lodger.Db.Rows.{insert_session-stored}
use lodger.Db.Calls.{
  Call, creates_first, creates, deletes, changes, resets, opens, uses, ends, audits, purges, step,
  run,
}

length-remove_ge :
    (id : ℕ) (rows : List (ℕ × Account)) → length rows ≤ suc (length (remove id rows))
unfolding remove
length-remove_ge id [] = omega arith
length-remove_ge id ((j, a) ∷ rows) = ground (arith, length-remove_ge id rows)

length-insert_ge :
    (id : ℕ) (a : Account) (rows : List (ℕ × Account)) → length rows ≤ length (insert id a rows)
unfolding insert
length-insert_ge id a [] = omega arith
length-insert_ge id a ((j, b) ∷ rows) = ground (arith, length-insert_ge id a rows)

length-insert_pos :
    (id : ℕ) (a : Account) (rows : List (ℕ × Account)) → 1 ≤ length (insert id a rows)
unfolding insert
length-insert_pos id a [] = omega arith
length-insert_pos id a ((j, b) ∷ rows) = ground arith

insert_account-count :
    (now : ℕ) (u h : Text) (db db' : Db) (id : ℕ)
    → insert_account now u h db ≡ ok (db', id)
    → 1 ≤ account_count db'
unfolding insert_account account_count
insert_account-count now u h db db' id e =
    let row : Account = record {
      username = u;
      password_hash = h;
      created_at = now;
      password_changed_at = now;
    } in
    let fresh = suc (max_id db.accounts) in
    let stored : insert fresh row db.accounts ≡ db'.accounts = ground arith in
    omega (arith, ap length stored, length-insert_pos fresh row db.accounts)

set_password-count :
    (now id : ℕ) (h : Text) (db : Db) → account_count db ≤ account_count (set_password now id h db)
unfolding set_password account_count
set_password-count now id h db = elim (Option-cases (get id db.accounts)) [
  | inl missing ↦ rw (set_password, missing) (omega arith)
  | inr (a, found) ↦ rw (set_password, found) (length-insert_ge id _ db.accounts)
]

insert_session-accounts :
    (now : ℕ) (new : NewSession) (db db' : Db)
    → insert_session now new db ≡ ok db'
    → account_count db' ≡ account_count db
unfolding account_count
insert_session-accounts now new db db' h =
    ap (λ (d : Db). length d.accounts) (sym (insert_session-stored now new db db' h).0)

pub step-count : (db : Db) (c : Call) → 1 ≤ account_count db → 1 ≤ account_count (step db c)
unfolding step session delete_session audit delete_old_audit_rows create_first_account
    create_account delete_account delete_row change_password reset_password create_session
    account_count touch_session
step-count db (creates_first now u h) p = elim (Result-cases (insert_account now u h db)) [
  | inl ((db', id), stored) ↦ ground (arith, stored, insert_account-count now u h db db' id stored)
  | inr (e, failed) ↦ ground (arith, failed)
]
step-count db (creates now u h) p = elim (Result-cases (insert_account now u h db)) [
  | inl ((db', id), stored) ↦ ground (arith, stored, insert_account-count now u h db db' id stored)
  | inr (e, failed) ↦ ground (arith, failed)
]
step-count db (deletes id) p = ground (arith, length-remove_ge id db.accounts)
step-count db (changes now id h current new) p =
    let updated = set_password now id h db in
    let more = set_password-count now id h db in
    elim (Result-cases (
      insert_session now new (record updated {
        sessions = remove current (delete_others id current updated.sessions);
      }))) [
        | inl (db', stored) ↦
            ground (arith, more, stored, insert_session-accounts now new _ db' stored)
        | inr (e, failed) ↦ ground (arith, failed)
      ]
step-count db (resets now u h) p = elim (Option-cases (find_name u db.accounts)) [
  | inl missing ↦ ground (arith, missing)
  | inr ((id, a), found) ↦ ground (arith, found, set_password-count now id h db)
]
step-count db (opens now later new) p =
    elim (Result-cases
      (insert_session later new (record db { sessions = retain (is_alive now) db.sessions }))) [
        | inl (db', stored) ↦ ground (arith, stored, insert_session-accounts later new _ db' stored)
        | inr (e, failed) ↦ ground (arith, failed)
      ]
step-count db (uses now later token) p = ground arith
step-count db (ends token) p = p
step-count db (audits now row) p = p
step-count db (purges now days) p = p

-- Any calls on tables with an account leave an account: the last one cannot be deleted.
pub run-count : (db : Db) (cs : List Call) → 1 ≤ account_count db → 1 ≤ account_count (run db cs)
unfolding run
run-count db [] p = p
run-count db (c ∷ cs) p = run-count (step db c) cs (step-count db c p)

-- Where `create_first_account` makes an account, there was none.
pub create_first_account-made :
    (now : ℕ) (u h : Text) (db : Db)
    → (create_first_account now u h db).1 ≡ ok true
    → (account_count db ≡ 0) × (1 ≤ account_count (create_first_account now u h db).0)
unfolding create_first_account
create_first_account-made now u h db made = elim (Result-cases (insert_account now u h db)) [
  | inl ((db', id), stored) ↦
      let count = insert_account-count now u h db db' id stored in
      (ground (arith, stored, made), ground (arith, stored, made, count))
  | inr (e, failed) ↦ absurd (ground (arith, failed, made))
]

-- Setup closes for good: once a call of `create_first_account` made an account, then after any calls
-- another one makes none and changes nothing.
pub create_first_account-once :
    (now now' : ℕ) (u h u' h' : Text) (db : Db) (cs : List Call)
    → (create_first_account now u h db).1 ≡ ok true
    → create_first_account now' u' h' (run (create_first_account now u h db).0 cs)
      ≡ (run (create_first_account now u h db).0 cs, ok false)
unfolding create_first_account
create_first_account-once now now' u h u' h' db cs made =
    let (_, first) = create_first_account-made now u h db made in
    let kept = run-count (create_first_account now u h db).0 cs first in ground (arith, kept)
