-- ===== src/Web/Claims.antt =====
-- Who claims a new install through crates/lodger/src/setup.rs, and that it is claimed once.
use lodger.Db.{Text, account_count, create_first_account}
use lodger.Db.Queries.{audit}
use lodger.Db.Accounts.{create_first_account-made}
use lodger.Net.{IpAddr}
use lodger.Prelude.{
  ℕ, ◌≤◌, ◌<◌, ◌≡◌, sym, subst, ap, ◌∙◌, true, false, not, Option, none, some, Option-cases, List,
  Result, ok, err, arith, Bool-cases, Result-cases, inl, inr, text, length, leb,
}
use lodger.Validate.{parse_name}
use lodger.Validate.Names.{IsName, parse_name_iff}
use lodger.Web.{
  HeaderMap, Response, Crates, Conditions, AppState, SetupToken, no_body, invalid_input,
  weak_password, setup_created, inserts_account, reply, error,
}
use lodger.Web.Audit.{log}
use lodger.Web.Bytes.{trim}
use lodger.Web.ClientIp.{client_ip}
use lodger.Web.Password.{min_chars, max_chars, is_common, check}
use lodger.Web.Routes.{Config, Request, serve_all}
use lodger.Web.Setup.{
  Claim, open_setup, matches, check_token, check_account, hash_password, make_first, claim_account,
  claim,
}
use lodger.Web.Steps.Laws.{serve_all-closed}

module _ (lib : Crates) where
  -- The rules of a new account.
  pub record IsAcceptable (username password : Text) : Type 0 where
    pub named : IsName username
    pub long : min_chars ≤ length password
    pub short : length password ≤ max_chars
    pub rare : is_common lib password ≡ false

  pub check-IsAcceptable :
      (password : Text)
      → check lib password ≡ ok tt
      → (min_chars ≤ length password)
        × (length password ≤ max_chars)
        × (is_common lib password ≡ false)
  unfolding check
  check-IsAcceptable password h = (ground arith, ground arith, ground arith)

  pub check_account-IsAcceptable :
      (username password name : Text)
      → check_account lib username password ≡ ok name
      → (name ≡ username) × IsAcceptable username password
  unfolding check_account
  check_account-IsAcceptable username password name h =
      elim (Result-cases (parse_name "username" username)) [
        | inr (e, bad) ↦ absurd (ground (arith, bad, h))
        | inl (n, parsed) ↦ elim (Result-cases (check lib password)) [
          | inr (e, weak) ↦ absurd (ground (arith, parsed, weak, h))
          | inl (u, strong) ↦
              let (same, valid) = (parse_name_iff "username" username n).0 parsed in
              let (long, short, rare) = check-IsAcceptable password strong in
              (
                ground (arith, parsed, strong, h, same),
                record { named = valid; long = long; short = short; rare = rare },
              )
        ]
      ]

  check_token-none :
      (now : ℕ) (claimed : Claim) (token : SetupToken)
      → check_token lib now claimed token ≡ none
      → (token.hash ≡ lib.sha256 (trim claimed.token)) × (now < token.expires)
  unfolding check_token matches
  check_token-none now claimed token h = (ground arith, ground arith)

  pub hash_password-status :
      (c : Conditions) (password : Text) {r : Response}
      → hash_password c password ≡ err r
      → r.status ≡ 500
  unfolding hash_password error reply
  hash_password-status c password {r} h =
      let failure = error 500 (text "cannot hash the password") in
      let same : failure ≡ r = elim (Option-cases (c.hash password)) [
        | inl stopped ↦ ground (arith, stopped, h)
        | inr (result, ran) ↦ elim (Result-cases result) [
          | inl (hash, hashed) ↦ absurd (ground (arith, ran, hashed, h))
          | inr (e, failed) ↦ ground (arith, ran, failed, h)
        ]
      ] in
      ap (λ (x : Response). x.status) (sym same)

  check_account-status :
      (username password : Text) {r : Response}
      → check_account lib username password ≡ err r
      → r.status ≡ 422
  unfolding check_account reply
  check_account-status username password {r} h =
      elim (Result-cases (parse_name "username" username)) [
        | inr (e, bad) ↦
            let same : reply 422 (invalid_input e) ≡ r = ground (arith, bad, h) in
            ap (λ (x : Response). x.status) (sym same)
        | inl (n, parsed) ↦ elim (Result-cases (check lib password)) [
          | inr (e, weak) ↦
              let same : reply 422 (weak_password e) ≡ r = ground (arith, parsed, weak, h) in
              ap (λ (x : Response). x.status) (sym same)
          | inl (u, strong) ↦ absurd (ground (arith, parsed, strong, h))
        ]
      ]

  check_token-status :
      (now : ℕ) (claimed : Claim) (token : SetupToken) {r : Response}
      → check_token lib now claimed token ≡ some r
      → r.status ≡ 403
  unfolding check_token error reply
  check_token-status now claimed token {r} h =
      elim (Bool-cases (not (matches lib claimed.token token))) [
        | inl wrong ↦
            let same : error 403 (text "wrong setup token") ≡ r = ground (arith, wrong, h) in
            ap (λ (x : Response). x.status) (sym same)
        | inr right ↦ elim (Bool-cases (leb token.expires now)) [
          | inr live ↦ absurd (ground (arith, right, live, h))
          | inl late ↦
              let same : error 403
                    (text "the setup token expired. Restart Lodger to write a new one to the log")
                  ≡ r =
                ground (arith, right, late, h) in
              ap (λ (x : Response). x.status) (sym same)
        ]
      ]

  make_first-made :
      (c : Conditions) (ip : IpAddr) (username hash : Text) (s : AppState)
      → (make_first lib c ip username hash s).1.status ≡ 201
      → (account_count s.db ≡ 0)
        × ((make_first lib c ip username hash s).1 ≡ reply 201 (setup_created username))
        × ((make_first lib c ip username hash s).0.setup ≡ none)
        × (1 ≤ account_count (make_first lib c ip username hash s).0.db)
  unfolding make_first error reply log audit account_count
  make_first-made c ip username hash s done = elim (Bool-cases (c.fails inserts_account)) [
    | inl broken ↦ absurd (ground (arith, broken, done))
    | inr works ↦
        elim (Result-cases (create_first_account (c.clock inserts_account) username hash s.db).1) [
          | inr (e, failed) ↦ absurd (ground (arith, works, failed, done))
          | inl (false, taken) ↦ absurd (ground (arith, works, taken, done))
          | inl (true, made) ↦
              let (free, first) =
                create_first_account-made (c.clock inserts_account) username hash s.db made in
              (
                free,
                ground (arith, works, made),
                ground (arith, works, made),
                ground (arith, works, made, first),
              )
        ]
  ]

  -- What a 201 of `claim` shows.
  pub record IsClaimed (now : ℕ) (claimed : Claim) (before after : AppState) (answer : Response)
      : Type 0 where
    pub token : SetupToken
    pub waiting : before.setup ≡ some token
    pub matched : token.hash ≡ lib.sha256 (trim claimed.token)
    pub fresh : now < token.expires
    pub acceptable : IsAcceptable claimed.username claimed.password
    pub free : account_count before.db ≡ 0
    pub taken : 1 ≤ account_count after.db
    pub closed : after.setup ≡ none
    pub body : answer ≡ reply 201 (setup_created claimed.username)

  -- A claim that is answered 201 came while the setup was open and no account existed, with the token
  -- whose hash is stored and before it expired, with a name and a password that follow the rules; it
  -- leaves an account and a closed setup.
  pub claim-IsClaimed :
      (c : Conditions) (peer : IpAddr) (headers : HeaderMap) (claimed : Claim) (s : AppState)
      → (claim lib c peer headers (ok claimed) s).1.status ≡ 201
      → IsClaimed c.instant claimed s
          (claim lib c peer headers (ok claimed) s).0
          (claim lib c peer headers (ok claimed) s).1
  unfolding claim claim_account reply
  claim-IsClaimed c peer headers claimed s done = elim (Option-cases s.setup) [
    | inl closed ↦ absurd (ground (arith, closed, done))
    | inr (token, waiting) ↦ elim (Option-cases (check_token lib c.instant claimed token)) [
      | inr (r, refused) ↦
          let status = check_token-status c.instant claimed token refused in
          absurd (ground (arith, waiting, refused, status, done))
      | inl passed ↦
          let (matched, fresh) = check_token-none c.instant claimed token passed in
          elim (Result-cases (check_account lib claimed.username claimed.password)) [
            | inr (r, refused) ↦
                let status = check_account-status claimed.username claimed.password refused in
                absurd (ground (arith, waiting, passed, refused, status, done))
            | inl (name, named) ↦
                let (same, acceptable) =
                  check_account-IsAcceptable claimed.username claimed.password name named in
                elim (Result-cases (hash_password c claimed.password)) [
                  | inr (r, failed) ↦
                      let status = hash_password-status c claimed.password failed in
                      absurd (ground (arith, waiting, passed, named, failed, status, done))
                  | inl (hash, hashed) ↦
                      let ip = client_ip lib peer headers in
                      let all : claim lib c peer headers (ok claimed) s
                          ≡ make_first lib c ip name hash s =
                        ground (arith, waiting, passed, named, hashed) in
                      let (free, body, closed, taken) =
                        make_first-made c ip name hash s
                          (ap (λ (x : AppState × Response). x.1.status) (sym all) ∙ done) in
                      record {
                        token = token;
                        waiting = waiting;
                        matched = matched;
                        fresh = fresh;
                        acceptable = acceptable;
                        free = free;
                        taken =
                            subst (λ (x : AppState × Response). 1 ≤ account_count x.0.db) (sym all)
                              taken;
                        closed = ap (λ (x : AppState × Response). x.0.setup) all ∙ closed;
                        body =
                            ap (λ (x : AppState × Response). x.1) all
                            ∙ body
                            ∙ ap (λ n. reply 201 (setup_created n)) same;
                      }
                ]
          ]
    ]
  ]

  -- An install is claimed once: after a claim that is answered 201 and any requests, every further
  -- claim is answered 404 and changes nothing, and a start of the server makes no new token.
  pub claim-claim :
      (config : Config) (c c' : Conditions) (peer peer' : IpAddr) (headers headers' : HeaderMap)
      (claimed : Claim) (body : Result Response Claim) (s : AppState)
      (rs : List (Conditions × Request)) (now : ℕ) (random : Option Text)
      → (claim lib c peer headers (ok claimed) s).1.status ≡ 201
      → let later = serve_all lib config (claim lib c peer headers (ok claimed) s).0 rs in
        (claim lib c' peer' headers' body later ≡ (later, reply 404 no_body))
        × (open_setup lib now random later.db ≡ ok none)
  unfolding claim open_setup
  claim-claim config c c' peer peer' headers headers' claimed body s rs now random done =
      let made = claim-IsClaimed c peer headers claimed s done in
      let next = (claim lib c peer headers (ok claimed) s).0 in
      let (closed, taken) = serve_all-closed lib config next rs made.closed made.taken in
      (ground (arith, closed), ground (arith, taken))
