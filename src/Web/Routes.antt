-- ===== src/Web/Routes.antt =====
-- The routes of `router` in crates/lodger/src/server.rs that the modelled handlers answer, with the
-- layers around them.
use lodger.Db.{Text, Session}
use lodger.Net.{IpAddr}
use lodger.Prelude.{ℕ, Bool, Option, List, [], ◌∷◌, Result, text}
use lodger.Web.{HeaderMap, Method, get_method, other_method, Response, Crates, Conditions, AppState}
use lodger.Web.Accounts.{NewAccount, create, delete, PasswordChange, change_own_password}
use lodger.Web.Login.{Login, login}
use lodger.Web.Security.{require_same_origin, add_headers}
use lodger.Web.Session.{require_session, current, logout}
use lodger.Web.Setup.{Claim, status, claim}
use lodger.Web.Socket.{issue_ticket}

-- A route behind `require_session`, with what its extractors read.
pub data Protected : Type 0 where
  reads_session : Protected
  logs_out : Protected
  asks_ticket : Protected
  adds_account : Result Response NewAccount → Protected
  drops_account : (id : ℕ) → Protected
  sets_password : Result Response PasswordChange → Protected

pub data Route : Type 0 where
  reads_setup : Route
  claims_setup : Result Response Claim → Route
  logs_in : Result Response Login → Route
  protected : Protected → Route

pub record Request : Type 0 where
  pub peer : IpAddr
  pub headers : HeaderMap
  pub route : Route

-- The fields of `AppState` that no request changes.
pub record Config : Type 0 where
  pub public_origin : Option Text
  pub csp : Text
  pub hsts : Bool

abbrev post : Method
post = other_method (text "POST")

abbrev delete_method : Method
delete_method = other_method (text "DELETE")

unfoldable pub protected_method : Protected → Method
protected_method reads_session = get_method
protected_method logs_out = delete_method
protected_method asks_ticket = post
protected_method (adds_account body) = post
protected_method (drops_account id) = delete_method
protected_method (sets_password body) = post

unfoldable pub route_method : Route → Method
route_method reads_setup = get_method
route_method (claims_setup body) = post
route_method (logs_in body) = post
route_method (protected p) = protected_method p

unfoldable pub handle_protected :
    Crates → Conditions → IpAddr → HeaderMap → Protected → Session → AppState → AppState × Response
handle_protected lib c peer headers reads_session session s = current session s
handle_protected lib c peer headers logs_out session s = logout lib c headers s
handle_protected lib c peer headers asks_ticket session s = issue_ticket lib c headers s
handle_protected lib c peer headers (adds_account body) session s =
    create lib c peer headers body session s
handle_protected lib c peer headers (drops_account id) session s =
    delete lib c peer headers id session s
handle_protected lib c peer headers (sets_password body) session s =
    change_own_password lib c peer headers body session s

unfoldable pub dispatch :
    Crates → Conditions → IpAddr → HeaderMap → Route → AppState → AppState × Response
dispatch lib c peer headers reads_setup s = status c s
dispatch lib c peer headers (claims_setup body) s = claim lib c peer headers body s
dispatch lib c peer headers (logs_in body) s = login lib c peer headers body s
dispatch lib c peer headers (protected p) s =
    require_session lib c (protected_method p) headers (handle_protected lib c peer headers p) s

-- One request, through both layers.
unfoldable pub respond : Crates → Config → Conditions → Request → AppState → AppState × Response
respond lib config c r s =
    let (s', response) =
      require_same_origin lib config.public_origin (route_method r.route) r.headers
        (dispatch lib c r.peer r.headers r.route) s in
    (s', add_headers config.csp config.hsts response)

-- Requests one after the other.
unfoldable pub serve_all : Crates → Config → AppState → List (Conditions × Request) → AppState
serve_all lib config s [] = s
serve_all lib config s ((c, r) ∷ rest) = serve_all lib config (respond lib config c r s).0 rest
