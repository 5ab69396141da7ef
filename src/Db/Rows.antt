-- ===== src/Db/Rows.antt =====
-- Each statement on the tables of crates/lodger/src/db/mod.rs keeps the constraints of the schema.
use lodger.Map.{get, contains_key, insert}
use lodger.Map.Laws.{
  Distinct, AllValues, insert-Distinct, remove-Distinct, retain-Distinct, insert-AllValues,
  get-AllValues,
}
use lodger.Prelude.Equality.{nat_eq}
use lodger.Prelude.{
  ℕ, suc, ◌+◌, ◌≡◌, refl, true, not, none, Option-cases, List, ok, arith, ◌==◌, inl, inr, subst,
}
use lodger.Db.{
  Text, Account, SessionRow, Db, NewSession, absolute, find_name, max_id, insert_account,
  delete_row, set_password, insert_session,
}
use lodger.Db.Queries.{touch_session}
use lodger.Db.Tables.{
  DistinctNames, OwnedBy, insert-DistinctNames, replace-DistinctNames, remove-DistinctNames,
  retained-AllValues, AllValues-map, OwnedBy-insert, OwnedBy-remove, IsValid,
}

-- Each statement keeps the constraints.
put_account-IsValid :
    (id : ℕ) (a : Account) (db : Db)
    → DistinctNames (insert id a db.accounts)
    → IsValid db
    → IsValid (record db { accounts = insert id a db.accounts })
put_account-IsValid id a db names v = record {
  accounts_distinct = insert-Distinct id a db.accounts v.accounts_distinct;
  names_distinct = names;
  sessions_distinct = v.sessions_distinct;
  owned = AllValues-map db.sessions (OwnedBy-insert id a db.accounts) v.owned;
}

pub put_sessions-IsValid :
    (sessions : List (ℕ × SessionRow)) (db : Db)
    → Distinct sessions
    → AllValues (OwnedBy db.accounts) sessions
    → IsValid db
    → IsValid (record db { sessions = sessions })
put_sessions-IsValid sessions db d o v = record {
  accounts_distinct = v.accounts_distinct;
  names_distinct = v.names_distinct;
  sessions_distinct = d;
  owned = o;
}

pub insert_account-IsValid :
    (now : ℕ) (username password_hash : Text) (db db' : Db) (id : ℕ)
    → insert_account now username password_hash db ≡ ok (db', id)
    → IsValid db
    → IsValid db'
unfolding insert_account
insert_account-IsValid now username password_hash db db' id h v =
    elim (Option-cases (find_name username db.accounts)) [
      | inl free ↦
          let row : Account = record {
            username = username;
            password_hash = password_hash;
            created_at = now;
            password_changed_at = now;
          } in
          let fresh = suc (max_id db.accounts) in
          let stored : record db { accounts = insert fresh row db.accounts } ≡ db' =
            ground (arith, free) in
          subst IsValid stored (
            put_account-IsValid fresh row db
              (insert-DistinctNames fresh row db.accounts free v.names_distinct) v)
      | inr (found, taken) ↦ absurd (ground (arith, taken))
    ]

pub delete_row-IsValid : (id : ℕ) (db : Db) → IsValid db → IsValid (delete_row id db)
unfolding delete_row
delete_row-IsValid id db v = record {
  accounts_distinct = remove-Distinct id db.accounts v.accounts_distinct;
  names_distinct = remove-DistinctNames id db.accounts v.names_distinct;
  sessions_distinct =
      retain-Distinct (λ s. not (s.account_id == id)) db.sessions v.sessions_distinct;
  owned =
      retained-AllValues (λ s. not (s.account_id == id)) db.sessions
        (λ s p o. OwnedBy-remove id db.accounts s v.accounts_distinct p o) v.owned;
}

pub set_password-IsValid :
    (now id : ℕ) (password_hash : Text) (db : Db)
    → IsValid db
    → IsValid (set_password now id password_hash db)
unfolding set_password
set_password-IsValid now id password_hash db v = elim (Option-cases (get id db.accounts)) [
  | inl missing ↦ rw (set_password, missing) v
  | inr (a, found) ↦
      let a' : Account = record a { password_hash = password_hash; password_changed_at = now } in
      rw (set_password, found)
        (put_account-IsValid id a' db
          (replace-DistinctNames id a a' db.accounts refl found v.names_distinct) v)
]

abbrev pub new_row : ℕ → NewSession → SessionRow
new_row now new = record {
  account_id = new.account_id;
  csrf_token = new.csrf_token;
  created_at = now;
  last_seen_at = now;
  expires_at = now + absolute;
  client_ip = new.client_ip;
  user_agent = new.user_agent;
}

-- What an insert of a session that succeeds found and left.
pub insert_session-stored :
    (now : ℕ) (new : NewSession) (db db' : Db)
    → insert_session now new db ≡ ok db'
    → (record db { sessions = insert new.token_sha256 (new_row now new) db.sessions } ≡ db')
      × (get new.token_sha256 db.sessions ≡ none)
      × (contains_key new.account_id db.accounts ≡ true)
unfolding insert_session contains_key
insert_session-stored now new db db' h = (ground arith, ground arith, ground arith)

pub insert_session-IsValid :
    (now : ℕ) (new : NewSession) (db db' : Db)
    → insert_session now new db ≡ ok db'
    → IsValid db
    → IsValid db'
insert_session-IsValid now new db db' h v =
    let (stored, fresh, owner) = insert_session-stored now new db db' h in
    subst IsValid stored (
      put_sessions-IsValid (insert new.token_sha256 (new_row now new) db.sessions) db
        (insert-Distinct new.token_sha256 (new_row now new) db.sessions v.sessions_distinct)
        (insert-AllValues (OwnedBy db.accounts) new.token_sha256 (new_row now new) db.sessions owner
          v.owned)
        v)

pub touch_session-IsValid :
    (now token : ℕ) (db : Db) → IsValid db → IsValid (touch_session now token db)
unfolding touch_session
touch_session-IsValid now token db v = elim (Option-cases (get token db.sessions)) [
  | inl missing ↦ rw (touch_session, missing) v
  | inr (s, found) ↦
      let touched : SessionRow = record s { last_seen_at = now } in
      let owner = get-AllValues (OwnedBy db.accounts) token db.sessions v.owned found in
      let valid =
        put_sessions-IsValid (insert token touched db.sessions) db
          (insert-Distinct token touched db.sessions v.sessions_distinct)
          (insert-AllValues (OwnedBy db.accounts) token touched db.sessions owner v.owned) v in
      rw (touch_session, found) (ground (arith, valid, v))
]
