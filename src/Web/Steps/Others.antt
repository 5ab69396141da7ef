-- ===== src/Web/Steps/Others.antt =====
-- The handlers of crates/lodger/src/setup.rs and accounts.rs, the tickets, and a whole request, as
-- chains of steps.
use lodger.Db.{Text, Session, create_first_account}
use lodger.Db.Calls.{creates_first, step}
use lodger.Net.{IpAddr}
use lodger.Prelude.{
  true, false, ◌&&◌, ◌||◌, not, Option, none, some, Option-cases, Result, unwrap_or, text,
  Bool-cases, Result-cases, inl, inr, is_some_and, ltb,
}
use lodger.Web.{
  HeaderMap, Method, Response, Crates, Conditions, AppState, inserts_account, ticket_draw,
  header_text,
}
use lodger.Web.ClientIp.{client_ip}
use lodger.Web.Cookie.{session_key}
use lodger.Web.Routes.{
  Protected, reads_session, logs_out, asks_ticket, adds_account, drops_account, sets_password,
  Route, reads_setup, claims_setup, logs_in, protected, Request, Config, protected_method,
  route_method, handle_protected, dispatch, respond,
}
use lodger.Web.Security.{is_safe, from_lodger, require_same_origin}
use lodger.Web.Session.{lookup, current, csrf_matches, require_session}
use lodger.Web.Setup.{
  Claim, status, check_token, check_account, hash_password, make_first, claim_account, claim,
}
use lodger.Web.Socket.{issue_ticket, use_ticket, open_socket}
use lodger.Web.Steps.{Steps, stays, queries, issues, redeems, closes}
use lodger.Web.Steps.Login.{log-Steps, lookup-Steps, logout-Steps, login-Steps}
use lodger.Web.Steps.Accounts.{create-Steps, delete-Steps, change_own_password-Steps}

module _ (lib : Crates) (c : Conditions) where
  issue_ticket-Steps :
      (headers : HeaderMap) (s t : AppState)
      → Steps lib c s t
      → Steps lib c s (issue_ticket lib c headers t).0
  unfolding issue_ticket
  issue_ticket-Steps headers s t h = elim (Option-cases (session_key lib headers)) [
    | inl missing ↦ rw (issue_ticket, missing) h
    | inr (key, found) ↦
        rw (issue_ticket, found)
          (issues s t key (header_text lib headers (text "origin")) c.instant (c.random ticket_draw)
            h)
  ]

  use_ticket-Steps :
      (headers : HeaderMap) (ticket : Option Text) (s t : AppState)
      → Steps lib c s t
      → Steps lib c s (use_ticket lib c headers ticket t).0
  unfolding use_ticket
  use_ticket-Steps headers ticket s t h = elim (Option-cases (session_key lib headers)) [
    | inl missing ↦ rw (use_ticket, missing) h
    | inr (key, found) ↦
        rw (use_ticket, found)
          (redeems s t (unwrap_or (text "") ticket) key (header_text lib headers (text "origin"))
            c.instant h)
  ]

  pub open_socket-Steps :
      (headers : HeaderMap) (ticket : Option Text) (s : AppState)
      → Steps lib c s (open_socket lib c headers ticket s).0
  unfolding open_socket
  open_socket-Steps headers ticket s =
      let looked = lookup-Steps lib c headers s in
      elim (Result-cases (lookup lib c headers s).1) [
        | inr (e, failed) ↦ rw (open_socket, failed) looked
        | inl (none, found) ↦ rw (open_socket, found) looked
        | inl (some session, found) ↦
            rw (open_socket, found) (use_ticket-Steps headers ticket s _ looked)
      ]

  make_first-Steps :
      (ip : IpAddr) (username hash : Text) (s t : AppState)
      → Steps lib c s t
      → Steps lib c s (make_first lib c ip username hash t).0
  unfolding make_first create_first_account step
  make_first-Steps ip username hash s t h =
      let made = queries s t (creates_first (c.clock inserts_account) username hash) tt h in
      elim (Bool-cases (c.fails inserts_account)) [
        | inl broken ↦ rw (make_first, broken) h
        | inr works ↦
            elim (Result-cases
              (create_first_account (c.clock inserts_account) username hash t.db).1) [
                | inl (true, created) ↦
                    rw (make_first, works, created) (log-Steps lib c _ s _ (closes s _ made))
                | inl (false, created) ↦ rw (make_first, works, created) h
                | inr (e, failed) ↦ rw (make_first, works, failed) h
              ]
      ]

  claim_account-Steps :
      (ip : IpAddr) (claimed : Claim) (s : AppState)
      → Steps lib c s (claim_account lib c ip claimed s).0
  unfolding claim_account
  claim_account-Steps ip claimed s =
      elim (Result-cases (check_account lib claimed.username claimed.password)) [
        | inr (e, refused) ↦ rw (claim_account, refused) (stays s)
        | inl (username, named) ↦ elim (Result-cases (hash_password c claimed.password)) [
          | inr (e, failed) ↦ rw (claim_account, named, failed) (stays s)
          | inl (hash, hashed) ↦
              rw (claim_account, named, hashed) (make_first-Steps ip username hash s s (stays s))
        ]
      ]

  claim-Steps :
      (peer : IpAddr) (headers : HeaderMap) (body : Result Response Claim) (s : AppState)
      → Steps lib c s (claim lib c peer headers body s).0
  unfolding claim
  claim-Steps peer headers body s = elim (Option-cases s.setup) [
    | inl closed ↦ simp (claim, closed) (stays s)
    | inr (token, waiting) ↦ elim (Result-cases body) [
      | inr (e, rejected) ↦ simp (claim, waiting, rejected) (stays s)
      | inl (claimed, read) ↦ elim (Option-cases (check_token lib c.instant claimed token)) [
        | inr (response, refused) ↦ simp (claim, waiting, read, refused) (stays s)
        | inl passed ↦
            simp (claim, waiting, read, passed)
              (claim_account-Steps (client_ip lib peer headers) claimed s)
      ]
    ]
  ]

  handle_protected-Steps :
      (peer : IpAddr) (headers : HeaderMap) (p : Protected) (session : Session) (s t : AppState)
      → Steps lib c s t
      → Steps lib c s (handle_protected lib c peer headers p session t).0
  unfolding handle_protected current
  handle_protected-Steps peer headers reads_session session s t h = h
  handle_protected-Steps peer headers logs_out session s t h = logout-Steps lib c headers s t h
  handle_protected-Steps peer headers asks_ticket session s t h = issue_ticket-Steps headers s t h
  handle_protected-Steps peer headers (adds_account body) session s t h =
      (create-Steps lib c) peer headers body session s t h
  handle_protected-Steps peer headers (drops_account id) session s t h =
      (delete-Steps lib c) peer headers id session s t h
  handle_protected-Steps peer headers (sets_password body) session s t h =
      (change_own_password-Steps lib c) peer headers body session s t h

  require_session-Steps :
      (method : Method) (headers : HeaderMap) (next : Session → AppState → AppState × Response)
      → ((session : Session) (s t : AppState) → Steps lib c s t → Steps lib c s (next session t).0)
      → (s : AppState) → Steps lib c s (require_session lib c method headers next s).0
  unfolding require_session
  require_session-Steps method headers next keeps s =
      let looked = lookup-Steps lib c headers s in
      elim (Result-cases (lookup lib c headers s).1) [
        | inr (e, failed) ↦ rw (require_session, failed) looked
        | inl (none, found) ↦ rw (require_session, found) looked
        | inl (some session, found) ↦
            elim (Bool-cases (not (is_safe method) && not (csrf_matches headers session))) [
              | inl forged ↦ rw (require_session, found, forged) looked
              | inr passed ↦ rw (require_session, found, passed) (keeps session s _ looked)
            ]
      ]

  dispatch-Steps :
      (peer : IpAddr) (headers : HeaderMap) (route : Route) (s : AppState)
      → Steps lib c s (dispatch lib c peer headers route s).0
  unfolding dispatch status
  dispatch-Steps peer headers reads_setup s =
      elim (Bool-cases (is_some_and (λ t. ltb c.instant t.expires) s.setup)) [
        | inl is_open ↦ simp (dispatch, status, is_open) (stays s)
        | inr closed ↦ simp (dispatch, status, closed) (stays s)
      ]
  dispatch-Steps peer headers (claims_setup body) s = claim-Steps peer headers body s
  dispatch-Steps peer headers (logs_in body) s = login-Steps lib c peer headers body s
  dispatch-Steps peer headers (protected p) s =
      require_session-Steps (protected_method p) headers (handle_protected lib c peer headers p)
        (handle_protected-Steps peer headers p) s

  pub respond-Steps :
      (config : Config) (r : Request) (s : AppState) → Steps lib c s (respond lib config c r s).0
  unfolding respond require_same_origin
  respond-Steps config r s =
      elim (Bool-cases
        (is_safe (route_method r.route) || from_lodger lib r.headers config.public_origin)) [
          | inl passed ↦
              rw (respond, require_same_origin, passed) (dispatch-Steps r.peer r.headers r.route s)
          | inr foreign ↦ rw (respond, require_same_origin, foreign) (stays s)
        ]
