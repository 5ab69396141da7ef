-- ===== src/Web/Accounts.antt =====
-- crates/lodger/src/accounts.rs: adding and deleting accounts, and the change of one's own password.
-- The handlers run behind `require_session`, which gives them the caller's session.
use lodger.Db.{
  Text, Account, NewSession, Session, deleted, no_such_account, last_account, create_account,
  delete_account, account_by_id, change_password,
}
use lodger.Net.{IpAddr}
use lodger.Prelude.{ℕ, ◌&&◌, none, some, Result, ok, err, text, if◌then◌else◌}
use lodger.Throttle.{Attempt, succeed}
use lodger.Web.{
  HeaderMap, Response, Crates, Conditions, AppState, no_body, weak_password, name_exists,
  account_created, password_changed, inserts_account, deletes_account, selects_account,
  changes_password, text_value, reply, with_header, error, panicked,
}
use lodger.Web.Audit.{Entry, ok_entry, failed_entry, by_account, from_ip, target_account, log}
use lodger.Web.ClientIp.{client_ip}
use lodger.Web.Cookie.{set_cookie, session_key}
use lodger.Web.Login.{throttled}
use lodger.Web.Password.{check}
use lodger.Web.Session.{new_session, unauthorized}
use lodger.Web.Setup.{check_account, hash_password}

pub record NewAccount : Type 0 where
  pub username : Text
  pub password : Text

abbrev pub create_event : Text
create_event = text "account.create"

abbrev pub delete_event : Text
delete_event = text "account.delete"

abbrev pub change_event : Text
change_event = text "account.change_password"

-- The part of `create` from the transaction on.
unfoldable pub insert_new :
    Crates → Conditions → IpAddr → Session → (username hash : Text) → AppState → AppState × Response
insert_new lib c ip session username hash s =
    let by : Entry → Entry =
      λ e. target_account username (from_ip ip (by_account session.username e)) in
    let (db, created) = create_account (c.clock inserts_account) username hash s.db in
    if c.fails inserts_account
    then (s, error 500 (text "cannot create the account"))
    else (elim created [
      | some id ↦ (
        log lib c (by (ok_entry create_event)) (record s { db = db }),
        reply 201 (account_created id username),
      )
      | none ↦ (
        log lib c (by (failed_entry create_event (text "name_taken"))) (record s { db = db }),
        reply 409 (name_exists username),
      )
    ])

-- `create`.
unfoldable pub create :
    Crates
    → Conditions
    → (peer : IpAddr) → HeaderMap
    → Result Response NewAccount
    → Session
    → AppState
    → AppState × Response
create lib c peer headers (err rejection) session s = (s, rejection)
create lib c peer headers (ok new) session s = elim (check_account lib new.username new.password) [
  | err response ↦ (s, response)
  | ok username ↦ elim (hash_password c new.password) [
    | err response ↦ (s, response)
    | ok hash ↦ insert_new lib c (client_ip lib peer headers) session username hash s
  ]
]

-- `delete`.
unfoldable pub delete :
    Crates
    → Conditions
    → (peer : IpAddr) → HeaderMap
    → (id : ℕ) → Session
    → AppState
    → AppState × Response
delete lib c peer headers id session s =
    let by : Entry → Entry =
      λ e. from_ip (client_ip lib peer headers) (by_account session.username e) in
    let (db, result) = delete_account id s.db in
    if c.fails deletes_account
    then (s, error 500 (text "cannot delete the account"))
    else (elim result [
      | deleted name ↦ (
        log lib c (target_account name (by (ok_entry delete_event))) (record s { db = db }),
        reply 204 no_body,
      )
      | no_such_account ↦ (record s { db = db }, error 404 (text "no such account"))
      | last_account ↦ (
        log lib c
            (target_account session.username (by (failed_entry delete_event (text "last_account"))))
            (record s { db = db }),
        error 409 (text "this is the last account. Add another account before you delete this one"),
      )
    ])

pub record PasswordChange : Type 0 where
  pub current_password : Text
  pub new_password : Text

abbrev pub cannot_change : Response
cannot_change = error 500 (text "cannot change the password")

-- `by` of `change_password`.
unfoldable pub own_entry : IpAddr → (username : Text) → Entry → Entry
own_entry ip username e = target_account username (from_ip ip (by_account username e))

-- The part of `change_password` from its transaction on.
unfoldable pub replace_sessions :
    Crates
    → Conditions
    → IpAddr
    → (id : ℕ) (username hash : Text) (current : ℕ) (token : Text) → NewSession
    → AppState
    → AppState × Response
replace_sessions lib c ip id username hash current token new s =
    let (db, result) = change_password (c.clock changes_password) id hash current new s.db in
    if c.fails changes_password then (s, cannot_change) else (elim result [
      | err e ↦ (s, cannot_change)
      | ok ended ↦ (
        log lib c (own_entry ip username (ok_entry change_event)) (record s { db = db }),
        with_header (text "set-cookie") (text_value (set_cookie token))
            (reply 200 (password_changed ended new.csrf_token)),
      )
    ])

-- The part of `change_password` after the check of the current password.
unfoldable pub set_new_password :
    Crates
    → Conditions
    → IpAddr
    → HeaderMap
    → (id : ℕ) (username new_password : Text) → AppState
    → AppState × Response
set_new_password lib c ip headers id username new_password s = elim (hash_password c new_password) [
  | err response ↦ (s, response)
  | ok hash ↦ elim (session_key lib headers) [
    | none ↦ (s, panicked)
    | some current ↦ elim (new_session lib c id ip headers) [
      | none ↦ (s, cannot_change)
      | some (token, new) ↦ replace_sessions lib c ip id username hash current token new s
    ]
  ]
]

-- The part of `change_password` that the throttle lets through.
unfoldable pub check_current :
    Crates
    → Conditions
    → IpAddr
    → HeaderMap
    → (id : ℕ) → Account
    → PasswordChange
    → Attempt
    → AppState
    → AppState × Response
check_current lib c ip headers id a change attempt s =
    if c.verifies && lib.verify change.current_password a.password_hash
    then set_new_password lib c ip headers id a.username change.new_password
        (record s { throttle = succeed lib.to_lowercase a.username ip attempt s.throttle })
    else (
      log lib c (own_entry ip a.username (failed_entry change_event (text "wrong_password"))) s,
      error 403 (text "the current password is wrong"),
    )

-- The part of `change_password` after the policy.
unfoldable pub change_account :
    Crates
    → Conditions
    → IpAddr
    → HeaderMap
    → PasswordChange
    → (id : ℕ) → AppState
    → AppState × Response
change_account lib c ip headers change id s =
    if c.fails selects_account then (s, cannot_change) else (elim (account_by_id id s.db) [
      | none ↦ (s, unauthorized)
      | some a ↦
          let (s', turn) = throttled lib c a.username ip s in
          elim turn [
            | err response ↦ (s', response)
            | ok attempt ↦ check_current lib c ip headers id a change attempt s'
          ]
    ])

-- `change_password`.
unfoldable pub change_own_password :
    Crates
    → Conditions
    → (peer : IpAddr) → HeaderMap
    → Result Response PasswordChange
    → Session
    → AppState
    → AppState × Response
change_own_password lib c peer headers (err rejection) session s = (s, rejection)
change_own_password lib c peer headers (ok change) session s =
    elim (check lib change.new_password) [
      | err e ↦ (s, reply 422 (weak_password e))
      | ok u ↦ change_account lib c (client_ip lib peer headers) headers change session.account_id s
    ]
