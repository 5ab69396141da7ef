-- ===== src/Web/SignIn/Live.antt =====
-- A login of crates/lodger/src/auth.rs that answers 200 checked the password and left a live session.
use lodger.Db.{Text, Account, Session, idle, find_account}
use lodger.Db.Queries.{live_session}
use lodger.Map.{get}
use lodger.Net.{IpAddr}
use lodger.Prelude.Equality.{nat_eq}
use lodger.Prelude.{
  ℕ, ◌+◌, ◌<◌, ◌≡◌, sym, ap, ◌∙◌, ◌⊎◌, true, none, some, Option-cases, ok, arith, Bool-cases,
  Result-cases, inl, inr, text,
}
use lodger.Throttle.{Attempt, succeed}
use lodger.Web.{
  HeaderMap, Response, Crates, Conditions, AppState, session_info, selects_account, inserts_session,
  session_draw, csrf_draw, text_value, reply, with_header, error,
}
use lodger.Web.ClientIp.{client_ip}
use lodger.Web.Cookie.{set_cookie, session_key}
use lodger.Web.Login.{
  Login, throttled, verified, cannot_start, refuse, start_session, sign_in, check_login, login,
}
use lodger.Web.Session.{new_session}
use lodger.Web.SignIn.{find_name-get}
use lodger.Web.Throttled.{throttled-begun, throttled-refused}
use lodger.Web.Steps.Laws.{IsSound, Steps-IsSound}
use lodger.Web.Steps.Login.{throttled-Steps, new_session-Drawn}
use lodger.Web.Steps.{stays, forgives}
use lodger.Web.SignIn.Started.{start_session-IsStarted}

module _ (lib : Crates) (c : Conditions) where
  -- What a 200 of `login` shows.
  pub record IsSignedIn (headers : HeaderMap) (l : Login) (before : AppState) (answer : Response)
      (after : AppState) : Type 0 where
    pub id : ℕ
    pub account : Account
    pub token : Text
    pub csrf : Text
    pub named : find_account l.username before.db ≡ some (id, account)
    pub right : lib.verify l.password account.password_hash ≡ true
    pub drawn : (c.random session_draw ≡ some token) × (c.random csrf_draw ≡ some csrf)
    pub cookie :
        answer
        ≡ with_header
            (text "set-cookie")
            (text_value (set_cookie token))
            (reply 200 (session_info account.username csrf))
    pub live :
        (t : ℕ)
        → t < c.clock inserts_session + idle
        → live_session t (lib.sha256 token) after.db
          ≡ some (record { account_id = id; username = account.username; csrf_token = csrf })
    pub ended :
        (old : ℕ)
        → session_key lib headers ≡ some old
        → (lib.sha256 token ≡ old) ⊎ (get old after.db.sessions ≡ none)

  sign_in-IsSignedIn :
      (l : Login) (ip : IpAddr) (headers : HeaderMap) (attempt : Attempt) (id : ℕ) (a : Account)
      (s : AppState)
      → IsSound s
      → find_account l.username s.db ≡ some (id, a)
      → verified lib c l.password (some (id, a)) ≡ true
      → (sign_in lib c l ip headers attempt id a s).1.status ≡ 200
      → IsSignedIn headers l s
          (sign_in lib c l ip headers attempt id a s).1
          (sign_in lib c l ip headers attempt id a s).0
  unfolding sign_in cannot_start error reply verified find_account succeed live_session
  sign_in-IsSignedIn l ip headers attempt id a s v found right done =
      elim (Option-cases (new_session lib c id ip headers)) [
        | inl failed ↦ absurd (ground (arith, failed, done))
        | inr ((token, new), made) ↦
            let (drawn, same, owner, csrf) = new_session-Drawn lib c id ip headers made in
            let forgiven : AppState = record s {
              throttle = succeed lib.to_lowercase l.username ip attempt s.throttle;
            } in
            let sound =
              Steps-IsSound lib c s forgiven v (forgives s s l.username ip attempt (stays s)) in
            let (answer, started) =
              start_session-IsStarted lib c a.username ip headers token new forgiven sound
                (ground (arith, made, done)) in
            let known =
              find_name-get l.username s.db.accounts id a v.tables.accounts_distinct found in
            record {
              id = id;
              account = a;
              token = token;
              csrf = new.csrf_token;
              named = found;
              right = ground arith;
              drawn = (drawn, csrf);
              cookie = rw (sign_in, made) answer;
              live = λ t early.
                  let (b, stored, live) = started.live t early in
                  let equal : b ≡ a = ground (arith, stored, known, owner) in
                  let named : ℕ → Account → Session = λ i x. record {
                    account_id = i;
                    username = x.username;
                    csrf_token = new.csrf_token;
                  } in
                  let after = (start_session lib c a.username ip headers token new forgiven).0.db in
                  rw (sign_in, made)
                    (ap (λ k. live_session t k after) (sym same)
                      ∙ live
                      ∙ ap (λ i. some (named i b)) owner
                      ∙ ap (λ x. some (named id x)) equal);
              ended = λ old key. rw (sign_in, made) (ground (arith, started.ended old key, same));
            }
      ]

  check_login-IsSignedIn :
      (l : Login) (ip : IpAddr) (headers : HeaderMap) (attempt : Attempt) (s : AppState)
      → IsSound s
      → (check_login lib c l ip headers attempt s).1.status ≡ 200
      → IsSignedIn headers l s
          (check_login lib c l ip headers attempt s).1
          (check_login lib c l ip headers attempt s).0
  unfolding check_login refuse error reply
  check_login-IsSignedIn l ip headers attempt s v done =
      elim (Bool-cases (c.fails selects_account)) [
        | inl broken ↦ absurd (ground (arith, broken, done))
        | inr works ↦ elim (Option-cases (find_account l.username s.db)) [
          | inl missing ↦ absurd (ground (arith, works, missing, done))
          | inr ((id, a), found) ↦ elim (Bool-cases (verified lib c l.password (some (id, a)))) [
            | inr wrong ↦ absurd (ground (arith, works, found, wrong, done))
            | inl right ↦
                rw (check_login, works, found, right)
                  (sign_in-IsSignedIn l ip headers attempt id a s v found right
                    (ground (arith, works, found, right, done)))
          ]
        ]
      ]

  IsSignedIn-before :
      (headers : HeaderMap) (l : Login) (s s' : AppState) (answer : Response) (after : AppState)
      → s'.db ≡ s.db
      → IsSignedIn headers l s' answer after
      → IsSignedIn headers l s answer after
  IsSignedIn-before headers l s s' answer after same h = record {
    id = h.id;
    account = h.account;
    token = h.token;
    csrf = h.csrf;
    named = ap (find_account l.username) (sym same) ∙ h.named;
    right = h.right;
    drawn = h.drawn;
    cookie = h.cookie;
    live = h.live;
    ended = h.ended;
  }

  -- From a sound state, a login that answers 200 had the name of an account and a password that
  -- argon2 accepts for it. Its cookie carries the drawn token, whose session answers with that account
  -- and the CSRF token of the answer until 60 minutes later, before any other request, and the session
  -- that the browser named before is gone.
  pub login-IsSignedIn :
      (peer : IpAddr) (headers : HeaderMap) (l : Login) (s : AppState)
      → IsSound s
      → (login lib c peer headers (ok l) s).1.status ≡ 200
      → IsSignedIn headers l s
          (login lib c peer headers (ok l) s).1
          (login lib c peer headers (ok l) s).0
  unfolding login
  login-IsSignedIn peer headers l s v done =
      let ip = client_ip lib peer headers in
      let same = ap (λ (x : AppState). x.db) (throttled-begun lib c l.username ip s) in
      let begun = (throttled lib c l.username ip s).0 in
      elim (Result-cases (throttled lib c l.username ip s).1) [
        | inr (r, refused) ↦
            let status = throttled-refused lib c l.username ip s refused in
            absurd (ground (arith, refused, done, status))
        | inl (attempt, granted) ↦
            let sound =
              Steps-IsSound lib c s begun v (throttled-Steps lib c l.username ip s s (stays s)) in
            rw (login, granted)
              (IsSignedIn-before headers l s begun _ _ same (
                check_login-IsSignedIn l ip headers attempt begun sound
                  (ground (arith, granted, done))))
      ]
