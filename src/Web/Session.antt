-- ===== src/Web/Session.antt =====
-- Sessions of crates/lodger/src/auth.rs: making one, finding a request's, the guard of the protected
-- routes, and logging out.
use lodger.Db.{Text, NewSession, Session}
use lodger.Db.Queries.{session, delete_session}
use lodger.Net.{IpAddr}
use lodger.Prelude.Equality.{text_beq}
use lodger.Prelude.{
  ℕ, Bool, not, ◌&&◌, ◌||◌, Option, none, some, Result, ok, err, text, take, if◌then◌else◌, is_some,
  is_some_and,
}
use lodger.Web.{
  HeaderMap, Method, Response, Crates, Conditions, AppState, session_info, no_body, selects_session,
  touches_session, deletes_session, session_draw, csrf_draw, text_value, reply, with_header, error,
  panicked, header_text,
}
use lodger.Web.Bytes.{as_bytes}
use lodger.Web.Cookie.{cookie_token, clear_cookie}
use lodger.Web.Security.{is_safe}

-- `new_session`: the token for the cookie and the row to store, or `none` when a draw fails.
unfoldable pub new_session :
    Crates → Conditions → (account_id : ℕ) → IpAddr → HeaderMap → Option (Text × NewSession)
new_session lib c account_id ip headers = elim (c.random session_draw) [
  | none ↦ none
  | some token ↦ elim (c.random csrf_draw) [
    | none ↦ none
    | some csrf ↦
        let agent : Option Text = elim (header_text lib headers (text "user-agent")) [
          | none ↦ none
          | some v ↦ some (take 256 v)
        ] in
        let new : NewSession = record {
          token_sha256 = lib.sha256 token;
          account_id = account_id;
          csrf_token = csrf;
          client_ip = lib.ip_to_string ip;
          user_agent = agent;
        } in
        some (token, new)
  ]
]

unfoldable pub unauthorized : Response
unauthorized = error 401 (text "log in first")

unfoldable pub lookup_failed : Response
lookup_failed = error 500 (text "cannot check the session")

-- `Db::session`, whose `SELECT` or `UPDATE` may fail. A failed `UPDATE` changes nothing.
unfoldable pub find_session :
    Conditions → (token : ℕ) → AppState → AppState × Result (Unit {0}) (Option Session)
find_session c token s =
    let (db, found) = session (c.clock selects_session) (c.clock touches_session) token s.db in
    if c.fails selects_session || (is_some found && c.fails touches_session)
    then (s, err tt)
    else (record s { db = db }, ok found)

unfoldable pub lookup :
    Crates → Conditions → HeaderMap → AppState → AppState × Result (Unit {0}) (Option Session)
lookup lib c headers s = elim (cookie_token lib headers) [
  | none ↦ (s, ok none)
  | some token ↦ find_session c (lib.sha256 token) s
]

-- `csrf_matches`: the bytes of the header are those of the token.
unfoldable pub csrf_matches : HeaderMap → Session → Bool
csrf_matches headers session =
    is_some_and (λ sent. text_beq sent (as_bytes session.csrf_token))
      (headers.get_first (text "x-csrf-token"))

-- `require_session`, with the handler as `next`.
unfoldable pub require_session :
    Crates
    → Conditions
    → Method
    → HeaderMap
    → (Session → AppState → AppState × Response)
    → AppState
    → AppState × Response
require_session lib c method headers next s =
    let (s', found) = lookup lib c headers s in
    elim found [
      | err e ↦ (s', lookup_failed)
      | ok none ↦ (s', unauthorized)
      | ok (some session) ↦
          if not (is_safe method) && not (csrf_matches headers session)
          then (s', error 403 (text "missing or wrong X-CSRF-Token"))
          else next session s'
    ]

-- `current`.
unfoldable pub current : Session → AppState → AppState × Response
current session s = (s, reply 200 (session_info session.username session.csrf_token))

-- `logout`. `expect` panics on a request without the cookie.
unfoldable pub logout : Crates → Conditions → HeaderMap → AppState → AppState × Response
logout lib c headers s = elim (cookie_token lib headers) [
  | none ↦ (s, panicked)
  | some token ↦
      if c.fails deletes_session then (s, error 500 (text "cannot end the session")) else (
        record s { db = delete_session (lib.sha256 token) s.db },
        with_header (text "set-cookie") (text_value clear_cookie) (reply 204 no_body),
      )
]
