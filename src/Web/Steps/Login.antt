-- ===== src/Web/Steps/Login.antt =====
-- The handlers of crates/lodger/src/auth.rs as chains of steps.
use lodger.Db.{NewSession, Account, find_account}
use lodger.Db.Queries.{session}
use lodger.Db.Calls.{opens, uses, ends, audits, step}
use lodger.Net.{IpAddr}
use lodger.Prelude.{
  ℕ, ◌≡◌, ◌&&◌, ◌||◌, some, Option-cases, List, Result, ok, err, is_some, arith, Bool-cases,
  Result-cases, inl, inr, subst,
}
use lodger.Throttle.{Attempt, Turn-cases, begin}
use lodger.Web.{
  HeaderMap, Response, Crates, Conditions, AppState, inserts_audit, selects_session,
  touches_session, deletes_session, cleans_sessions, inserts_session, selects_account, session_draw,
  csrf_draw,
}
use lodger.Web.Audit.{Entry, row, log}
use lodger.Web.ClientIp.{client_ip}
use lodger.Web.Cookie.{cookie_token, session_key}
use lodger.Web.Login.{
  Login, throttled, verified, store_session, end_old_session, refuse, start_session, sign_in,
  check_login, login,
}
use lodger.Web.Session.{find_session, lookup, new_session, logout}
use lodger.Web.Steps.{Drawn, Steps, stays, queries, begins, forgives, cleans}

module _ (lib : Crates) (c : Conditions) where
  pub log-Steps :
      (entry : Entry) (s t : AppState) → Steps lib c s t → Steps lib c s (log lib c entry t)
  unfolding step log
  log-Steps entry s t h = elim (Bool-cases (c.fails inserts_audit)) [
    | inl broken ↦ rw (log, broken) h
    | inr works ↦
        rw (log, works) (queries s t (audits (c.clock inserts_audit) (row lib entry)) tt h)
  ]

  find_session-Steps : (token : ℕ) (s : AppState) → Steps lib c s (find_session c token s).0
  unfolding step find_session
  find_session-Steps token s =
      let found = session (c.clock selects_session) (c.clock touches_session) token s.db in
      elim (Bool-cases (c.fails selects_session || (is_some found.1 && c.fails touches_session))) [
        | inl broken ↦ rw (find_session, broken) (stays s)
        | inr works ↦
            rw (find_session, works)
              (queries s s (uses (c.clock selects_session) (c.clock touches_session) token) tt
                (stays s))
      ]

  pub lookup-Steps : (headers : HeaderMap) (s : AppState) → Steps lib c s (lookup lib c headers s).0
  unfolding lookup
  lookup-Steps headers s = elim (Option-cases (cookie_token lib headers)) [
    | inl missing ↦ rw (lookup, missing) (stays s)
    | inr (token, found) ↦ rw (lookup, found) (find_session-Steps (lib.sha256 token) s)
  ]

  pub logout-Steps :
      (headers : HeaderMap) (s t : AppState)
      → Steps lib c s t
      → Steps lib c s (logout lib c headers t).0
  unfolding step logout
  logout-Steps headers s t h = elim (Option-cases (cookie_token lib headers)) [
    | inl missing ↦ rw (logout, missing) h
    | inr (token, found) ↦ elim (Bool-cases (c.fails deletes_session)) [
      | inl broken ↦ rw (logout, found, broken) h
      | inr works ↦ rw (logout, found, works) (queries s t (ends (lib.sha256 token)) tt h)
    ]
  ]

  pub throttled-Steps :
      (username : List ℕ) (ip : IpAddr) (s t : AppState)
      → Steps lib c s t
      → Steps lib c s (throttled lib c username ip t).0
  unfolding throttled
  throttled-Steps username ip s t h =
      let next = begins s t username ip c.instant h in
      elim (Turn-cases (begin lib.to_lowercase username ip c.instant t.throttle).1) [
        | inl (a, turn) ↦ rw (throttled, turn) next
        | inr (r, turn) ↦ rw (throttled, turn) next
      ]

  store_session-Steps :
      (new : NewSession) (s t : AppState)
      → Drawn lib c new.token_sha256
      → Steps lib c s t
      → Steps lib c s (store_session c new t).0
  unfolding step store_session
  store_session-Steps new s t drawn h = elim (Bool-cases (c.fails cleans_sessions)) [
    | inl broken ↦ rw (store_session, broken) h
    | inr cleaned ↦ elim (Bool-cases (c.fails inserts_session)) [
      | inl broken ↦ rw (store_session, cleaned, broken) (cleans s t (c.clock cleans_sessions) h)
      | inr works ↦
          rw (store_session, cleaned, works)
            (queries s t (opens (c.clock cleans_sessions) (c.clock inserts_session) new) drawn h)
    ]
  ]

  pub new_session-Drawn :
      (id : ℕ) (ip : IpAddr) (headers : HeaderMap) {token : List ℕ} {new : NewSession}
      → new_session lib c id ip headers ≡ some (token, new)
      → (c.random session_draw ≡ some token)
        × (new.token_sha256 ≡ lib.sha256 token)
        × (new.account_id ≡ id)
        × (c.random csrf_draw ≡ some new.csrf_token)
  unfolding new_session
  new_session-Drawn id ip headers made = elim (Option-cases (c.random session_draw)) [
    | inl failed ↦ absurd (ground (arith, failed))
    | inr (t, drawn) ↦ elim (Option-cases (c.random csrf_draw)) [
      | inl failed ↦ absurd (ground (arith, failed))
      | inr (u, csrf) ↦ (ground arith, ground arith, ground arith, ground arith)
    ]
  ]

  pub end_old_session-Steps :
      (headers : HeaderMap) (s t : AppState) {t' : AppState}
      → end_old_session lib c headers t ≡ some t'
      → Steps lib c s t
      → Steps lib c s t'
  unfolding end_old_session step
  end_old_session-Steps headers s t {t'} done h = elim (Option-cases (session_key lib headers)) [
    | inl missing ↦ subst (Steps lib c s) (ground (arith, missing)) h
    | inr (key, found) ↦ elim (Bool-cases (c.fails deletes_session)) [
      | inl broken ↦ absurd (ground (arith, found, broken))
      | inr works ↦
          subst (Steps lib c s) (ground (arith, found, works)) (queries s t (ends key) tt h)
    ]
  ]

  pub start_session-Steps :
      (username : List ℕ) (ip : IpAddr) (headers : HeaderMap) (token : List ℕ) (new : NewSession)
      (s t : AppState)
      → Drawn lib c new.token_sha256
      → Steps lib c s t
      → Steps lib c s (start_session lib c username ip headers token new t).0
  unfolding start_session
  start_session-Steps username ip headers token new s t drawn h =
      elim (Option-cases (end_old_session lib c headers t)) [
        | inl failed ↦ rw (start_session, failed) h
        | inr (t', ended) ↦
            let stored =
              store_session-Steps new s t' drawn (end_old_session-Steps headers s t ended h) in
            elim (Bool-cases (store_session c new t').1) [
              | inl done ↦ rw (start_session, ended, done) (log-Steps _ s _ stored)
              | inr failed ↦ rw (start_session, ended, failed) stored
            ]
      ]

  sign_in-Steps :
      (l : Login) (ip : IpAddr) (headers : HeaderMap) (attempt : Attempt) (id : ℕ) (a : Account)
      (s t : AppState)
      → Steps lib c s t
      → Steps lib c s (sign_in lib c l ip headers attempt id a t).0
  unfolding sign_in
  sign_in-Steps l ip headers attempt id a s t h =
      let forgiven = forgives s t l.username ip attempt h in
      elim (Option-cases (new_session lib c id ip headers)) [
        | inl failed ↦ rw (sign_in, failed) forgiven
        | inr ((token, new), made) ↦
            let (drawn, same, _, _) = new_session-Drawn id ip headers made in
            rw (sign_in, made)
              (start_session-Steps a.username ip headers token new s _ (token, drawn, same)
                forgiven)
      ]

  check_login-Steps :
      (l : Login) (ip : IpAddr) (headers : HeaderMap) (attempt : Attempt) (s t : AppState)
      → Steps lib c s t
      → Steps lib c s (check_login lib c l ip headers attempt t).0
  unfolding refuse check_login
  check_login-Steps l ip headers attempt s t h = elim (Bool-cases (c.fails selects_account)) [
    | inl broken ↦ rw (check_login, broken) h
    | inr works ↦ elim (Option-cases (find_account l.username t.db)) [
      | inl missing ↦ rw (check_login, works, missing) (log-Steps _ s t h)
      | inr ((id, a), found) ↦ elim (Bool-cases (verified lib c l.password (some (id, a)))) [
        | inl right ↦
            rw (check_login, works, found, right) (sign_in-Steps l ip headers attempt id a s t h)
        | inr wrong ↦ rw (check_login, works, found, wrong) (log-Steps _ s t h)
      ]
    ]
  ]

  pub login-Steps :
      (peer : IpAddr) (headers : HeaderMap) (body : Result Response Login) (s : AppState)
      → Steps lib c s (login lib c peer headers body s).0
  unfolding login
  login-Steps peer headers (err rejection) s = stays s
  login-Steps peer headers (ok l) s =
      let ip = client_ip lib peer headers in
      let turn = throttled-Steps l.username ip s s (stays s) in
      elim (Result-cases (throttled lib c l.username ip s).1) [
        | inl (attempt, granted) ↦
            rw (login, granted) (check_login-Steps l ip headers attempt s _ turn)
        | inr (response, refused) ↦ rw (login, refused) turn
      ]
