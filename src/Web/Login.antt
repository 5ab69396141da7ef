-- ===== src/Web/Login.antt =====
-- `throttled` and `login` of crates/lodger/src/auth.rs. The wait of a throttled attempt and the
-- warning in the log change no state.
use lodger.Db.{Text, Account, NewSession, find_account}
use lodger.Db.Queries.{create_session, delete_session, is_alive}
use lodger.Map.{retain}
use lodger.Net.{IpAddr}
use lodger.Prelude.{
  ℕ, Bool, true, false, ◌&&◌, Option, none, some, Result, ok, err, text, ◌/◌, if◌then◌else◌,
}
use lodger.Throttle.{Attempt, granted, refused, second, begin, succeed}
use lodger.Web.{
  HeaderMap, Response, Crates, Conditions, AppState, session_info, selects_account, deletes_session,
  cleans_sessions, inserts_session, text_value, number_value, reply, with_header, error,
}
use lodger.Web.Audit.{Entry, ok_entry, failed_entry, by_account, from_ip, log}
use lodger.Web.ClientIp.{client_ip}
use lodger.Web.Cookie.{set_cookie, session_key}
use lodger.Web.Session.{new_session}

pub record Login : Type 0 where
  pub username : Text
  pub password : Text

abbrev pub login_succeeded : Text
login_succeeded = text "login.succeeded"

abbrev pub login_failed : Text
login_failed = text "login.failed"

-- `retry.as_secs()`.
unfoldable pub too_many_attempts : (retry : ℕ) → Response
too_many_attempts retry =
    with_header (text "retry-after") (number_value (retry / second))
      (error 429 (text "too many password attempts. Try again later"))

unfoldable pub throttled :
    Crates → Conditions → (username : Text) → IpAddr → AppState → AppState × Result Response Attempt
throttled lib c username ip s =
    let (throttle, turn) = begin lib.to_lowercase username ip c.instant s.throttle in
    elim turn [
      | granted attempt ↦ (record s { throttle = throttle }, ok attempt)
      | refused retry ↦ (record s { throttle = throttle }, err (too_many_attempts retry))
    ]

-- `match stored`, under `passwords::run`: an account that does not exist has no right password.
unfoldable pub verified : Crates → Conditions → (password : Text) → Option (ℕ × Account) → Bool
verified lib c password none = false
verified lib c password (some (id, a)) = c.verifies && lib.verify password a.password_hash

unfoldable pub cannot_start : Response
cannot_start = error 500 (text "cannot start a session")

-- `Db::create_session`: the cleaning stays when the `INSERT` fails.
unfoldable pub store_session : Conditions → NewSession → AppState → AppState × Bool
store_session c new s =
    let cleaned = record s.db {
      sessions = retain (is_alive (c.clock cleans_sessions)) s.db.sessions;
    } in
    let (db, stored) =
      create_session (c.clock cleans_sessions) (c.clock inserts_session) new s.db in
    if c.fails cleans_sessions
    then (s, false)
    else if c.fails inserts_session
    then (record s { db = cleaned }, false)
    else (record s { db = db }, elim stored [ ok u ↦ true | err e ↦ false ])

-- The part of `login` that ends the session of before: `none` when the database fails.
unfoldable pub end_old_session : Crates → Conditions → HeaderMap → AppState → Option AppState
end_old_session lib c headers s = elim (session_key lib headers) [
  | none ↦ some s
  | some old ↦
      if c.fails deletes_session then none else some (record s { db = delete_session old s.db })
]

-- The part of `login` for a wrong password or an unknown name.
unfoldable pub refuse :
    Crates → Conditions → IpAddr → Option (ℕ × Account) → AppState → AppState × Response
refuse lib c ip account s =
    let entry : Entry = elim account [
      | none ↦ failed_entry login_failed (text "no_such_account")
      | some (id, a) ↦ by_account a.username (failed_entry login_failed (text "wrong_password"))
    ] in
    (log lib c (from_ip ip entry) s, error 401 (text "wrong username or password"))

-- The part of `login` that stores the session that `new_session` made.
unfoldable pub start_session :
    Crates
    → Conditions
    → (username : Text) → IpAddr
    → HeaderMap
    → (token : Text) → NewSession
    → AppState
    → AppState × Response
start_session lib c username ip headers token new s = elim (end_old_session lib c headers s) [
  | none ↦ (s, cannot_start)
  | some s' ↦
      let (stored, done) = store_session c new s' in
      let entry = from_ip ip (by_account username (ok_entry login_succeeded)) in
      if done
      then (
        log lib c entry stored,
        with_header (text "set-cookie") (text_value (set_cookie token))
            (reply 200 (session_info username new.csrf_token)),
      )
      else (stored, cannot_start)
]

-- The part of `login` after the check of the password.
unfoldable pub sign_in :
    Crates
    → Conditions
    → Login
    → IpAddr
    → HeaderMap
    → Attempt
    → (id : ℕ) → Account
    → AppState
    → AppState × Response
sign_in lib c login ip headers attempt id a s =
    let forgiven = record s {
      throttle = succeed lib.to_lowercase login.username ip attempt s.throttle;
    } in
    elim (new_session lib c id ip headers) [
      | none ↦ (forgiven, cannot_start)
      | some (token, new) ↦ start_session lib c a.username ip headers token new forgiven
    ]

-- The part of `login` that an attempt reaches.
unfoldable pub check_login :
    Crates → Conditions → Login → IpAddr → HeaderMap → Attempt → AppState → AppState × Response
check_login lib c login ip headers attempt s =
    let account = find_account login.username s.db in
    if c.fails selects_account
    then (s, error 500 (text "cannot check the login"))
    else (elim account [
      | none ↦ refuse lib c ip none s
      | some (id, a) ↦
          if verified lib c login.password (some (id, a))
          then sign_in lib c login ip headers attempt id a s
          else refuse lib c ip (some (id, a)) s
    ])

-- `login`. A body that is no login was answered by the extractor.
unfoldable pub login :
    Crates
    → Conditions
    → (peer : IpAddr) → HeaderMap
    → Result Response Login
    → AppState
    → AppState × Response
login lib c peer headers (err rejection) s = (s, rejection)
login lib c peer headers (ok l) s =
    let ip = client_ip lib peer headers in
    let (s', turn) = throttled lib c l.username ip s in
    elim turn [
      | err response ↦ (s', response)
      | ok attempt ↦ check_login lib c l ip headers attempt s'
    ]
