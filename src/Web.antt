-- ===== src/Web.antt =====
-- What the handlers of crates/lodger/src share: the shared state of server.rs (`AppState`), a
-- request's headers, a response, and what a handler meets outside of it. A request runs on its own:
-- no other request runs between two of its steps.
--
-- The crates and the tables of the standard library that the handlers call are the record `Crates`.
-- What differs from call to call is the record `Conditions`: the clocks, the statements of SQLite
-- that fail (SQLite rolls back what such a statement did), the random texts in hex, and the salted
-- hashes. A 32-byte hash is a number. A message that `thiserror` formats is the error's value.
pub mod SessionTests
pub mod Bytes
pub mod Security
pub mod ClientIp
pub mod Cookie
pub mod Password
pub mod Audit
pub mod Session
pub mod Login
pub mod Socket
pub mod Setup
pub mod Accounts
pub mod Actions
pub mod Objects
pub mod Creation
pub mod Routes
pub mod Steps
pub mod Guard
pub mod Claims
pub mod Changes
pub mod Origins
pub mod CookieLaws
pub mod ActionLaws
pub mod ObjectLaws
pub mod CreationLaws
pub mod Tests
mod ActionTests
pub mod Logout
pub mod Throttled
pub mod SignIn
pub mod Refused
pub mod SocketEnd
pub mod Upgrade
use lodger.Db.{Db, Text}
use lodger.Host.{Error}
use lodger.Map.{insert}
use lodger.Net.{IpAddr}
use lodger.Prelude.Equality.{text_eq}
use lodger.Prelude.{ℕ, Bool, Option, none, some, List, [], ◌∷◌, Result, ok, err, text}
use lodger.Throttle.{Throttle}
use lodger.Tickets.{Tickets}
use lodger.Validate.{InputError}

-- `PasswordError` of crates/lodger-core/src/password/mod.rs.
pub data PasswordError : Type 0 where
  too_short : (len : ℕ) → PasswordError
  too_long : (len : ℕ) → PasswordError
  common : PasswordError

-- `HeaderMap` of the crate `http`, by its two lookups: the first value of a name, and all of them.
pub record HeaderMap : Type 0 where
  pub get_first : Text → Option (List ℕ)
  pub get_all : Text → List (List ℕ)

pub data Method : Type 0 where
  get_method : Method
  head_method : Method
  other_method : Text → Method

-- A header's value: a text, or a number that is printed in decimal.
pub data HeaderValue : Type 0 where
  text_value : Text → HeaderValue
  number_value : ℕ → HeaderValue

-- `Skipped` of crates/lodger/src/actions.rs.
pub record SkippedDisk : Type 0 where
  pub path : Text
  pub reason : Text
  pub vm : Option Text
  pub message : Option Text

pub data Body : Type 0 where
  no_body : Body
  error_text : Text → Body
  invalid_input : InputError → Body
  weak_password : PasswordError → Body
  -- `format!("an account called {username} exists already")`.
  name_exists : (username : Text) → Body
  session_info : (username csrf_token : Text) → Body
  ticket_info : (ticket : Text) → Body
  setup_open : Body
  setup_created : (username : Text) → Body
  account_created : (id : ℕ) (username : Text) → Body
  password_changed : (ended_sessions : ℕ) (csrf_token : Text) → Body
  -- `error_answer`: the error's message, and the explanation of a known one.
  explained : Error → Body
  vm_removed : (removed : List Text) (skipped : List SkippedDisk) → Body
  -- `format!("a pool called {:?} exists already", request.name)`, and so for a network.
  object_exists : (kind name : Text) → Body
  object_created : (id : ℕ) → Body

pub record Response : Type 0 where
  pub status : ℕ
  pub headers : List (Text × HeaderValue)
  pub body : Body

unfoldable pub reply : ℕ → Body → Response
reply status body = record { status = status; headers = []; body = body }

unfoldable pub with_header : Text → HeaderValue → Response → Response
with_header name value r = record r { headers = insert name value r.headers }

-- The SQL statements, or the transactions, of one request.
pub data Query : Type 0 where
  selects_account : Query
  selects_session : Query
  deletes_session : Query
  cleans_sessions : Query
  inserts_session : Query
  touches_session : Query
  inserts_account : Query
  deletes_account : Query
  changes_password : Query
  inserts_audit : Query

pub data Draw : Type 0 where
  session_draw : Draw
  csrf_draw : Draw
  ticket_draw : Draw

pub record Conditions : Type 0 where
  -- `Instant::now()`, in nanoseconds.
  pub instant : ℕ
  -- The time of day at which a statement runs, in milliseconds.
  pub clock : Query → ℕ
  pub fails : Query → Bool
  -- `random_token` and the draw of `Tickets::issue`: `none` when `getrandom` fails.
  pub random : Draw → Option Text
  -- `passwords::run` of `passwords::hash`: `none` when the task fails.
  pub hash : Text → Option (Result Text Text)
  -- Whether the task of `passwords::run` that verifies a password ends well.
  pub verifies : Bool

-- `Detail` of crates/lodger/src/audit.rs.
pub record Detail : Type 0 where
  pub via : Option Text
  pub sudo_user : Option Text
  pub action : Option Text
  pub reason : Option Text

pub record Crates : Type 0 where
  -- The SHA-256 of a text's bytes (`sha2`).
  pub sha256 : Text → ℕ
  -- `passwords::verify`: argon2 accepts the password for the stored PHC string.
  pub verify : (password stored : Text) → Bool
  -- `str::to_lowercase`, and `str::parse` and `to_string` of an address.
  pub to_lowercase : Text → Text
  pub parse_ip : Text → Option IpAddr
  pub ip_to_string : IpAddr → Text
  -- `HeaderValue::to_str` of the crate `http`.
  pub to_str : List ℕ → Option Text
  -- Whether one of `trusted_proxies` contains the address (`ipnet`).
  pub is_trusted : IpAddr → Bool
  -- The lines of crates/lodger-core/src/password/common.txt.
  pub common_lines : List Text
  -- The JSON of a detail (`serde_json`).
  pub to_json : Detail → Text

-- `SetupToken` of crates/lodger/src/setup.rs.
pub record SetupToken : Type 0 where
  pub hash : ℕ
  pub expires : ℕ

-- The fields of `AppState` that requests change.
pub record AppState : Type 0 where
  pub db : Db
  pub throttle : Throttle
  pub tickets : Tickets
  pub setup : Option SetupToken

-- `error` of auth.rs, setup.rs and accounts.rs.
unfoldable pub error : ℕ → Text → Response
error status message = reply status (error_text message)

-- A handler that panics: the connection ends without an answer.
unfoldable pub panicked : Response
unfolding reply
panicked = reply 0 no_body

-- `Option::and_then` and `Option::or_else`.
abbrev pub and_then {ℓ κ} : {A : Type ℓ} {B : Type κ} → Option A → (A → Option B) → Option B
and_then none f = none
and_then (some a) f = f a

-- `headers.get(name).and_then(|v| v.to_str().ok())`.
unfoldable pub header_text : Crates → HeaderMap → Text → Option Text
header_text lib headers name = and_then (headers.get_first name) lib.to_str
