-- ===== src/Web/Steps/Accounts.antt =====
-- The handlers of crates/lodger/src/accounts.rs as chains of steps.
use lodger.Db.{
  Text, Session, NewSession, Account, Deleted-cases, account_by_id, create_account, delete_account,
  change_password,
}
use lodger.Db.Calls.{creates, deletes, changes, step}
use lodger.Net.{IpAddr}
use lodger.Prelude.{ℕ, ◌&&◌, Option-cases, Result, ok, err, Bool-cases, Result-cases, inl, inr}
use lodger.Throttle.{Attempt}
use lodger.Web.{
  HeaderMap, Response, Crates, Conditions, AppState, inserts_account, deletes_account,
  changes_password, selects_account,
}
use lodger.Web.Accounts.{
  NewAccount, PasswordChange, insert_new, create, delete, replace_sessions, set_new_password,
  check_current, change_account, change_own_password,
}
use lodger.Web.ClientIp.{client_ip}
use lodger.Web.Cookie.{session_key}
use lodger.Web.Login.{throttled}
use lodger.Web.Password.{check}
use lodger.Web.Session.{new_session, current}
use lodger.Web.Setup.{check_account, hash_password}
use lodger.Web.Steps.{Drawn, Steps, queries, forgives}
use lodger.Web.Steps.Login.{log-Steps, throttled-Steps, new_session-Drawn}

module _ (lib : Crates) (c : Conditions) where
  insert_new-Steps :
      (ip : IpAddr) (session : Session) (username hash : Text) (s t : AppState)
      → Steps lib c s t
      → Steps lib c s (insert_new lib c ip session username hash t).0
  unfolding insert_new create_account step
  insert_new-Steps ip session username hash s t h =
      let made = queries s t (creates (c.clock inserts_account) username hash) tt h in
      elim (Bool-cases (c.fails inserts_account)) [
        | inl broken ↦ rw (insert_new, broken) h
        | inr works ↦
            elim (Option-cases (create_account (c.clock inserts_account) username hash t.db).1) [
              | inl taken ↦ rw (insert_new, works, taken) (log-Steps lib c _ s _ made)
              | inr (id, created) ↦ rw (insert_new, works, created) (log-Steps lib c _ s _ made)
            ]
      ]

  pub create-Steps :
      (peer : IpAddr) (headers : HeaderMap) (body : Result Response NewAccount) (session : Session)
      (s t : AppState)
      → Steps lib c s t
      → Steps lib c s (create lib c peer headers body session t).0
  unfolding create
  create-Steps peer headers (err rejection) session s t h = h
  create-Steps peer headers (ok new) session s t h =
      elim (Result-cases (check_account lib new.username new.password)) [
        | inr (e, refused) ↦ rw (create, refused) h
        | inl (username, named) ↦ elim (Result-cases (hash_password c new.password)) [
          | inr (e, failed) ↦ rw (create, named, failed) h
          | inl (hash, hashed) ↦
              rw (create, named, hashed)
                (insert_new-Steps (client_ip lib peer headers) session username hash s t h)
        ]
      ]

  pub delete-Steps :
      (peer : IpAddr) (headers : HeaderMap) (id : ℕ) (session : Session) (s t : AppState)
      → Steps lib c s t
      → Steps lib c s (delete lib c peer headers id session t).0
  unfolding delete delete_account step
  delete-Steps peer headers id session s t h =
      let gone = queries s t (deletes id) tt h in
      elim (Bool-cases (c.fails deletes_account)) [
        | inl broken ↦ rw (delete, broken) h
        | inr works ↦ elim (Deleted-cases (delete_account id t.db).1) [
          | inl (name, done) ↦ rw (delete, works, done) (log-Steps lib c _ s _ gone)
          | inr (inl missing) ↦ rw (delete, works, missing) gone
          | inr (inr last) ↦ rw (delete, works, last) (log-Steps lib c _ s _ gone)
        ]
      ]

  replace_sessions-Steps :
      (ip : IpAddr) (id : ℕ) (username hash : Text) (current : ℕ) (token : Text) (new : NewSession)
      (s t : AppState)
      → Drawn lib c new.token_sha256
      → Steps lib c s t
      → Steps lib c s (replace_sessions lib c ip id username hash current token new t).0
  unfolding replace_sessions change_password step
  replace_sessions-Steps ip id username hash current token new s t drawn h =
      let made = queries s t (changes (c.clock changes_password) id hash current new) drawn h in
      elim (Bool-cases (c.fails changes_password)) [
        | inl broken ↦ rw (replace_sessions, broken) h
        | inr works ↦
            elim (Result-cases
              (change_password (c.clock changes_password) id hash current new t.db).1) [
                | inr (e, failed) ↦ rw (replace_sessions, works, failed) h
                | inl (n, done) ↦ rw (replace_sessions, works, done) (log-Steps lib c _ s _ made)
              ]
      ]

  set_new_password-Steps :
      (ip : IpAddr) (headers : HeaderMap) (id : ℕ) (username new_password : Text) (s t : AppState)
      → Steps lib c s t
      → Steps lib c s (set_new_password lib c ip headers id username new_password t).0
  unfolding set_new_password
  set_new_password-Steps ip headers id username new_password s t h =
      elim (Result-cases (hash_password c new_password)) [
        | inr (e, failed) ↦ rw (set_new_password, failed) h
        | inl (hash, hashed) ↦ elim (Option-cases (session_key lib headers)) [
          | inl missing ↦ rw (set_new_password, hashed, missing) h
          | inr (current, found) ↦ elim (Option-cases (new_session lib c id ip headers)) [
            | inl failed ↦ rw (set_new_password, hashed, found, failed) h
            | inr ((token, new), made) ↦
                let (drawn, same, _, _) = new_session-Drawn lib c id ip headers made in
                rw (set_new_password, hashed, found, made)
                  (replace_sessions-Steps ip id username hash current token new s t
                    (token, drawn, same) h)
          ]
        ]
      ]

  check_current-Steps :
      (ip : IpAddr) (headers : HeaderMap) (id : ℕ) (a : Account) (change : PasswordChange)
      (attempt : Attempt) (s t : AppState)
      → Steps lib c s t
      → Steps lib c s (check_current lib c ip headers id a change attempt t).0
  unfolding check_current
  check_current-Steps ip headers id a change attempt s t h =
      elim (Bool-cases (c.verifies && lib.verify change.current_password a.password_hash)) [
        | inl right ↦
            rw (check_current, right)
              (set_new_password-Steps ip headers id a.username change.new_password s _
                (forgives s t a.username ip attempt h))
        | inr wrong ↦ rw (check_current, wrong) (log-Steps lib c _ s t h)
      ]

  change_account-Steps :
      (ip : IpAddr) (headers : HeaderMap) (change : PasswordChange) (id : ℕ) (s t : AppState)
      → Steps lib c s t
      → Steps lib c s (change_account lib c ip headers change id t).0
  unfolding change_account
  change_account-Steps ip headers change id s t h = elim (Bool-cases (c.fails selects_account)) [
    | inl broken ↦ rw (change_account, broken) h
    | inr works ↦ elim (Option-cases (account_by_id id t.db)) [
      | inl missing ↦ rw (change_account, works, missing) h
      | inr (a, found) ↦
          let turn = throttled-Steps lib c a.username ip s t h in
          elim (Result-cases (throttled lib c a.username ip t).1) [
            | inr (e, refused) ↦ rw (change_account, works, found, refused) turn
            | inl (attempt, granted) ↦
                rw (change_account, works, found, granted)
                  (check_current-Steps ip headers id a change attempt s _ turn)
          ]
    ]
  ]

  pub change_own_password-Steps :
      (peer : IpAddr) (headers : HeaderMap) (body : Result Response PasswordChange)
      (session : Session) (s t : AppState)
      → Steps lib c s t
      → Steps lib c s (change_own_password lib c peer headers body session t).0
  unfolding change_own_password
  change_own_password-Steps peer headers (err rejection) session s t h = h
  change_own_password-Steps peer headers (ok change) session s t h =
      elim (Result-cases (check lib change.new_password)) [
        | inr (e, weak) ↦ rw (change_own_password, weak) h
        | inl (u, strong) ↦
            rw (change_own_password, strong)
              (change_account-Steps (client_ip lib peer headers) headers change session.account_id s
                t h)
      ]
