-- ===== src/Web/Setup.antt =====
-- crates/lodger/src/setup.rs: the one-time token that claims a new install. The mutex makes each
-- look at the token one step. The body of the claim is read after the state of the setup.
use lodger.Db.{Text, Db, account_count, create_first_account}
use lodger.Net.{IpAddr}
use lodger.Prelude.{
  ℕ, ◌+◌, ◌*◌, Bool, true, false, not, Option, none, some, Result, ok, err, text, ltb, leb, ◌==◌,
  if◌then◌else◌, is_some_and,
}
use lodger.Validate.{parse_name}
use lodger.Web.{
  HeaderMap, Response, Crates, Conditions, AppState, SetupToken, no_body, invalid_input,
  weak_password, setup_open, setup_created, inserts_account, reply, error,
}
use lodger.Web.Audit.{ok_entry, by_account, from_ip, log}
use lodger.Web.Bytes.{trim}
use lodger.Web.ClientIp.{client_ip}
use lodger.Web.Password.{check}

abbrev pub token_lifetime : ℕ
token_lifetime = 60 * 60 * 1_000_000_000

-- `SetupToken::generate`, from the random text.
unfoldable pub generate : Crates → (now : ℕ) → (random : Option Text) → Option (Text × SetupToken)
generate lib now none = none
generate lib now (some t) = some (t, record { hash = lib.sha256 t; expires = now + token_lifetime })

-- `open_setup` of crates/lodger/src/server.rs, at the start: a token while there is no account. An
-- error, for a failed draw, stops the start.
unfoldable pub open_setup :
    Crates → (now : ℕ) → (random : Option Text) → Db → Result (Unit {0}) (Option SetupToken)
open_setup lib now random db =
    let made = generate lib now random in
    if ltb 0 (account_count db)
    then ok none
    else (elim made [ none ↦ err tt | some (t, token) ↦ ok (some token) ])

-- `SetupToken::matches`.
unfoldable pub matches : Crates → (submitted : Text) → SetupToken → Bool
matches lib submitted token = token.hash == lib.sha256 (trim submitted)

unfoldable pub status : Conditions → AppState → AppState × Response
status c s =
    if is_some_and (λ t. ltb c.instant t.expires) s.setup
    then (s, reply 200 setup_open)
    else (s, reply 404 no_body)

pub record Claim : Type 0 where
  pub token : Text
  pub username : Text
  pub password : Text

-- The second look at the token.
unfoldable pub check_token : Crates → (now : ℕ) → Claim → SetupToken → Option Response
unfolding matches
check_token lib now claim token =
    if not (matches lib claim.token token)
    then some (error 403 (text "wrong setup token"))
    else if leb token.expires now
    then some
        (error 403 (text "the setup token expired. Restart Lodger to write a new one to the log"))
    else none

-- The account's own rules: the name, the password.
unfoldable pub check_account : Crates → (username password : Text) → Result Response Text
check_account lib username password = elim (parse_name "username" username) [
  | err e ↦ err (reply 422 (invalid_input e))
  | ok name ↦ elim (check lib password) [
    | err e ↦ err (reply 422 (weak_password e))
    | ok u ↦ ok name
  ]
]

-- `passwords::run` of `passwords::hash`, with the answers of a failure.
unfoldable pub hash_password : Conditions → (password : Text) → Result Response Text
hash_password c password = elim (c.hash password) [
  | some (ok hash) ↦ ok hash
  | some (err e) ↦ err (error 500 (text "cannot hash the password"))
  | none ↦ err (error 500 (text "cannot hash the password"))
]

-- The part of `claim` from the transaction on.
unfoldable pub make_first :
    Crates → Conditions → IpAddr → (username hash : Text) → AppState → AppState × Response
make_first lib c ip username hash s =
    let (db, created) = create_first_account (c.clock inserts_account) username hash s.db in
    if c.fails inserts_account
    then (s, error 500 (text "cannot create the account"))
    else (elim created [
      | ok true ↦
          let closed = record s { db = db; setup = none } in
          (
            log lib c (from_ip ip (by_account username (ok_entry (text "setup.completed")))) closed,
            reply 201 (setup_created username),
          )
      | ok false ↦ (s, reply 404 no_body)
      | err e ↦ (s, error 500 (text "cannot create the account"))
    ])

-- The part of `claim` after the check of the token.
unfoldable pub claim_account : Crates → Conditions → IpAddr → Claim → AppState → AppState × Response
claim_account lib c ip claim s = elim (check_account lib claim.username claim.password) [
  | err response ↦ (s, response)
  | ok username ↦ elim (hash_password c claim.password) [
    | err response ↦ (s, response)
    | ok hash ↦ make_first lib c ip username hash s
  ]
]

-- `claim`.
unfoldable pub claim :
    Crates
    → Conditions
    → (peer : IpAddr) → HeaderMap
    → Result Response Claim
    → AppState
    → AppState × Response
claim lib c peer headers body s = elim s.setup [
  | none ↦ (s, reply 404 no_body)
  | some token ↦ elim body [
    | err rejection ↦ (s, rejection)
    | ok submitted ↦ elim (check_token lib c.instant submitted token) [
      | some response ↦ (s, response)
      | none ↦ claim_account lib c (client_ip lib peer headers) submitted s
    ]
  ]
]
