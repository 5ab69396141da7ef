-- ===== src/Db/Queries.antt =====
-- The sessions in use and the audit log of crates/lodger/src/db/mod.rs.
use lodger.Map.{get, insert, remove, retain}
use lodger.Prelude.Equality.{nat_eq}
use lodger.Prelude.{
  ℕ, ◌+◌, ◌-◌, ◌*◌, Bool, ◌&&◌, Option, none, some, List, [], ◌∷◌, Result, ok, err, length, ltb,
  if◌then◌else◌, is_some, is_some_and,
}
use lodger.Db.{minute, idle, SessionRow, AuditRow, Db, DbError, NewSession, Session, insert_session}

-- `expires_at > NOW AND last_seen_at > IDLE_CUTOFF`.
unfoldable pub is_alive : (now : ℕ) → SessionRow → Bool
is_alive now s = ltb now s.expires_at && ltb now (s.last_seen_at + idle)

-- The cleaning and the insert are two statements without a transaction.
unfoldable pub create_session : (now later : ℕ) → NewSession → Db → Db × Result DbError (Unit {0})
create_session now later new db =
    let cleaned = record db { sessions = retain (is_alive now) db.sessions } in
    elim (insert_session later new cleaned) [ ok db' ↦ (db', ok tt) | err e ↦ (cleaned, err e) ]

-- `UPDATE sessions SET last_seen_at`, at most once a minute.
unfoldable pub touch_session : (now token : ℕ) → Db → Db
touch_session now token db = elim (get token db.sessions) [
  | none ↦ db
  | some s ↦
      if ltb (s.last_seen_at + minute) now
      then record db { sessions = insert token (record s { last_seen_at = now }) db.sessions }
      else db
]

-- The `SELECT` of `session`, with its join.
unfoldable pub live_session : (now token : ℕ) → Db → Option Session
live_session now token db = elim (get token db.sessions) [
  | none ↦ none
  | some s ↦
      if is_alive now s
      then (elim (get s.account_id db.accounts) [
        | none ↦ none
        | some a ↦
            some (record {
              account_id = s.account_id;
              username = a.username;
              csrf_token = s.csrf_token;
            })
      ])
      else none
]

unfoldable pub session : (now later token : ℕ) → Db → Db × Option Session
session now later token db =
    let found = live_session now token db in
    (if is_some found then touch_session later token db else db, found)

unfoldable pub session_alive : (now token : ℕ) → Db → Bool
session_alive now token db = is_some_and (is_alive now) (get token db.sessions)

unfoldable pub delete_session : ℕ → Db → Db
delete_session token db = record db { sessions = remove token db.sessions }

unfoldable pub audit : (now : ℕ) → AuditRow → Db → Db
audit now row db = record db { audit_log = (now, row) ∷ db.audit_log }

-- `WHERE ts < now - days`, of the log's rows.
unfoldable pub keep_recent : (now days : ℕ) → List (ℕ × AuditRow) → List (ℕ × AuditRow)
keep_recent now days [] = []
keep_recent now days ((ts, row) ∷ rows) =
    let kept = keep_recent now days rows in
    if ltb (ts + days * (24 * 60 * minute)) now then kept else (ts, row) ∷ kept

unfoldable pub delete_old_audit_rows : (now days : ℕ) → Db → Db × ℕ
delete_old_audit_rows now days db =
    let kept = keep_recent now days db.audit_log in
    (record db { audit_log = kept }, length db.audit_log - length kept)
