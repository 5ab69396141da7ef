-- ===== src/Db.antt =====
-- crates/lodger/src/db/mod.rs: the tables of accounts, sessions and the audit log, and the queries on
-- them. A table is a map from its primary key to the rest of a row, with the constraints of
-- db/migrations/0001_initial.sql. A time is a number of milliseconds; every SQL statement gets the
-- instant at which it runs. A failed statement gives its constraint; a failure of the disk, which
-- SQLite answers by a rollback, is left out. A token's SHA-256 is a number.
pub mod Queries
pub mod Rows
pub mod Tables
pub mod Calls
pub mod Accounts
pub mod Sessions
pub mod Lifetime
pub mod Expiry
pub mod Migrate
mod Tests
use lodger.Map.{get, contains_key, insert, remove, retain}
use lodger.Prelude.Equality.{nat_eq, text_beq}
use lodger.Prelude.{
  ℕ, suc, ◌+◌, ◌-◌, ◌*◌, max, ◌≡◌, refl, ◌⊎◌, inl, inr, Bool, true, false, not, ◌&&◌, ◌||◌, Option,
  none, some, List, [], ◌∷◌, map, Result, ok, err, length, ltb, leb, ◌==◌, if◌then◌else◌, is_some,
  is_some_and,
}

abbrev pub Text : Type 0
Text = List ℕ

abbrev pub minute : ℕ
minute = 60_000

-- `IDLE_CUTOFF`: a session ends after 60 minutes without use.
abbrev pub idle : ℕ
idle = 60 * minute

-- `ABSOLUTE_HOURS`: 24 hours.
abbrev pub absolute : ℕ
absolute = 24 * 60 * minute

-- A row of `accounts`, by its id.
pub record Account : Type 0 where
  pub username : Text
  pub password_hash : Text
  pub created_at : ℕ
  pub password_changed_at : ℕ

-- A row of `sessions`, by the hash of its token.
pub record SessionRow : Type 0 where
  pub account_id : ℕ
  pub csrf_token : Text
  pub created_at : ℕ
  pub last_seen_at : ℕ
  pub expires_at : ℕ
  pub client_ip : Text
  pub user_agent : Option Text

pub record AuditRow : Type 0 where
  pub event : Text
  pub account_name : Option Text
  pub client_ip : Option Text
  pub target_kind : Option Text
  pub target_name : Option Text
  pub result : Text
  pub detail_json : Option Text

pub record Db : Type 0 where
  pub accounts : List (ℕ × Account)
  pub sessions : List (ℕ × SessionRow)
  pub audit_log : List (ℕ × AuditRow)

-- The constraints that a statement can break: `UNIQUE` or `PRIMARY KEY`, and `REFERENCES`.
pub data DbError : Type 0 where
  unique : DbError
  foreign_key : DbError

pub data Deleted : Type 0 where
  deleted : (username : Text) → Deleted
  no_such_account : Deleted
  last_account : Deleted

pub Deleted-cases :
    (r : Deleted) → ((u : Text) × (r ≡ deleted u)) ⊎ ((r ≡ no_such_account) ⊎ (r ≡ last_account))
Deleted-cases (deleted u) = inl (u, refl)
Deleted-cases no_such_account = inr (inl refl)
Deleted-cases last_account = inr (inr refl)

pub record NewSession : Type 0 where
  pub token_sha256 : ℕ
  pub account_id : ℕ
  pub csrf_token : Text
  pub client_ip : Text
  pub user_agent : Option Text

pub record Session : Type 0 where
  pub account_id : ℕ
  pub username : Text
  pub csrf_token : Text

-- `COLLATE NOCASE`: the 26 upper case letters of ASCII are their lower case forms.
unfoldable pub fold_case : ℕ → ℕ
fold_case c = if leb b'A' c && leb c b'Z' then c + 32 else c

unfoldable pub same_name : Text → Text → Bool
same_name a b = text_beq (map fold_case a) (map fold_case b)

-- The row with this username.
unfoldable pub find_name : Text → List (ℕ × Account) → Option (ℕ × Account)
find_name name [] = none
find_name name ((id, a) ∷ rows) =
    if same_name a.username name then some (id, a) else find_name name rows

-- The id that SQLite gives a row without one: the largest so far and 1.
unfoldable pub max_id : List (ℕ × Account) → ℕ
max_id [] = 0
max_id ((id, a) ∷ rows) = max id (max_id rows)

-- `INSERT INTO accounts`.
unfoldable pub insert_account :
    (now : ℕ) (username password_hash : Text) → Db → Result DbError (Db × ℕ)
insert_account now username password_hash db =
    if is_some (find_name username db.accounts)
    then err unique
    else (let id = suc (max_id db.accounts) in
        let row : Account = record {
          username = username;
          password_hash = password_hash;
          created_at = now;
          password_changed_at = now;
        } in
        ok (record db { accounts = insert id row db.accounts }, id))

unfoldable pub account_count : Db → ℕ
account_count db = length db.accounts

unfoldable pub create_first_account :
    (now : ℕ) (username password_hash : Text) → Db → Db × Result DbError Bool
create_first_account now username password_hash db =
    if ltb 0 (account_count db)
    then (db, ok false)
    else (elim (insert_account now username password_hash db) [
      | ok (db', id) ↦ (db', ok true)
      | err e ↦ (db, err e)
    ])

unfoldable pub create_account : (now : ℕ) (username password_hash : Text) → Db → Db × Option ℕ
create_account now username password_hash db = elim (insert_account now username password_hash db) [
  | ok (db', id) ↦ (db', some id)
  | err e ↦ (db, none)
]

-- `DELETE FROM accounts`, with `ON DELETE CASCADE` of the sessions.
unfoldable pub delete_row : ℕ → Db → Db
delete_row id db = record db {
  accounts = remove id db.accounts;
  sessions = retain (λ s. not (s.account_id == id)) db.sessions;
}

unfoldable pub delete_account : ℕ → Db → Db × Deleted
delete_account id db = elim (get id db.accounts) [
  | none ↦ (db, no_such_account)
  | some a ↦
      if leb (account_count db) 1
      then (db, last_account)
      else (delete_row id db, deleted a.username)
]

unfoldable pub account_by_id : ℕ → Db → Option Account
account_by_id id db = get id db.accounts

unfoldable pub find_account : Text → Db → Option (ℕ × Account)
find_account username db = find_name username db.accounts

-- `UPDATE accounts SET password_hash, password_changed_at`.
unfoldable pub set_password : (now : ℕ) (id : ℕ) (password_hash : Text) → Db → Db
set_password now id password_hash db = elim (get id db.accounts) [
  | none ↦ db
  | some a ↦ record db {
    accounts =
        insert id (record a { password_hash = password_hash; password_changed_at = now })
          db.accounts;
  }
]

unfoldable pub insert_session : (now : ℕ) → NewSession → Db → Result DbError Db
insert_session now new db =
    if contains_key new.token_sha256 db.sessions
    then err unique
    else (if contains_key new.account_id db.accounts
        then ok (record db {
          sessions =
              insert new.token_sha256
                (record {
                  account_id = new.account_id;
                  csrf_token = new.csrf_token;
                  created_at = now;
                  last_seen_at = now;
                  expires_at = now + absolute;
                  client_ip = new.client_ip;
                  user_agent = new.user_agent;
                })
                db.sessions;
        })
        else err foreign_key)

-- `DELETE FROM sessions WHERE account_id = ?1 AND token_sha256 != ?2`.
unfoldable pub delete_others : (id current : ℕ) → List (ℕ × SessionRow) → List (ℕ × SessionRow)
delete_others id current [] = []
delete_others id current ((token, s) ∷ rows) =
    let kept = delete_others id current rows in
    if s.account_id == id && not (token == current) then kept else (token, s) ∷ kept

unfoldable pub change_password :
    (now : ℕ) (id : ℕ) (password_hash : Text) (current : ℕ)
    → NewSession
    → Db
    → Db × Result DbError ℕ
change_password now id password_hash current new db =
    let updated = set_password now id password_hash db in
    let others = delete_others id current updated.sessions in
    let cleared = record updated { sessions = remove current others } in
    elim (insert_session now new cleared) [
      | ok db' ↦ (db', ok (length updated.sessions - length others))
      | err e ↦ (db, err e)
    ]

unfoldable pub reset_password : (now : ℕ) (username password_hash : Text) → Db → Db × Option ℕ
reset_password now username password_hash db = elim (find_name username db.accounts) [
  | none ↦ (db, none)
  | some (id, a) ↦
      let updated = set_password now id password_hash db in
      let kept = retain (λ s. not (s.account_id == id)) updated.sessions in
      (record updated { sessions = kept }, some (length updated.sessions - length kept))
]
