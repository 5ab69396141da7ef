-- ===== src/Web/Changes.antt =====
-- What a change of one's own password through crates/lodger/src/accounts.rs needs and leaves.
use lodger.Db.{Text, Account, SessionRow, Session, NewSession, Db, account_by_id, change_password}
use lodger.Db.Sessions.{others_only, change_password-sessions}
use lodger.Db.Tables.{IsValid}
use lodger.Db.Rows.{new_row}
use lodger.Map.{get}
use lodger.Net.{IpAddr}
use lodger.Prelude.Equality.{nat_eq}
use lodger.Prelude.{
  ℕ, ◌≤◌, ◌≡◌, sym, ap, ◌∙◌, subst, true, false, ◌&&◌, Option, none, some, Option-cases, ok, arith,
  Bool-cases, Result-cases, inl, inr, text, length, ◌==◌, if◌then◌else◌,
}
use lodger.Throttle.{Attempt, begin, succeed}
use lodger.Web.{
  HeaderMap, Response, Crates, Conditions, AppState, password_changed, changes_password,
  selects_account, session_draw, text_value, reply, with_header, error, panicked,
}
use lodger.Web.Accounts.{
  PasswordChange, replace_sessions, set_new_password, check_current, change_account,
  change_own_password,
}
use lodger.Web.Claims.{check-IsAcceptable, hash_password-status}
use lodger.Web.ClientIp.{client_ip}
use lodger.Web.Cookie.{set_cookie, session_key}
use lodger.Web.Login.{throttled}
use lodger.Web.Password.{min_chars, max_chars, is_common, check}
use lodger.Web.Session.{new_session, unauthorized}
use lodger.Web.Setup.{hash_password}
use lodger.Web.SignIn.{log-sessions}
use lodger.Web.Steps.Laws.{IsSound}
use lodger.Web.Steps.Login.{new_session-Drawn}
use lodger.Web.Throttled.{throttled-begun, throttled-refused}

module _ (lib : Crates) (c : Conditions) where
  -- The sessions after a change: the account has one, the new one, and the others lose none but the
  -- one of the request.
  abbrev pub changed_sessions :
      (id current : ℕ) → NewSession → (k : ℕ) → Option SessionRow → Option SessionRow
  changed_sessions id current new k before =
      if new.token_sha256 == k
      then some (new_row (c.clock changes_password) new)
      else if current == k
      then none
      else others_only id before

  -- What the answer 200 shows of the sessions.
  pub record IsReplaced (headers : HeaderMap) (id : ℕ) (before after : Db) (answer : Response)
      : Type 0 where
    pub current : ℕ
    pub token : Text
    pub new : NewSession
    pub ended : ℕ
    pub known : session_key lib headers ≡ some current
    pub drawn : (c.random session_draw ≡ some token) × (new.token_sha256 ≡ lib.sha256 token)
    pub owner : new.account_id ≡ id
    pub cookie :
        answer
        ≡ with_header
            (text "set-cookie")
            (text_value (set_cookie token))
            (reply 200 (password_changed ended new.csrf_token))
    pub sessions :
        (k : ℕ) → get k after.sessions ≡ changed_sessions id current new k (get k before.sessions)

  replace_sessions-status :
      (ip : IpAddr) (headers : HeaderMap) (id : ℕ) (username hash : Text) (current : ℕ)
      (token : Text) (new : NewSession) (s : AppState)
      → IsValid s.db
      → session_key lib headers ≡ some current
      → c.random session_draw ≡ some token
      → new.token_sha256 ≡ lib.sha256 token
      → new.account_id ≡ id
      → (replace_sessions lib c ip id username hash current token new s).1.status ≡ 200
      → IsReplaced headers id s.db
          (replace_sessions lib c ip id username hash current token new s).0.db
          (replace_sessions lib c ip id username hash current token new s).1
  unfolding replace_sessions error reply
  replace_sessions-status ip headers id username hash current token new s v known drawn same owner
        done =
      let now = c.clock changes_password in
      elim (Bool-cases (c.fails changes_password)) [
        | inl broken ↦ absurd (ground (arith, broken, done))
        | inr works ↦ elim (Result-cases (change_password now id hash current new s.db).1) [
          | inr (e, failed) ↦ absurd (ground (arith, works, failed, done))
          | inl (n, changed) ↦ record {
            current = current;
            token = token;
            new = new;
            ended = n;
            known = known;
            drawn = (drawn, same);
            owner = owner;
            cookie = ground (arith, works, changed);
            sessions = λ k.
                rw (replace_sessions, works, changed)
                  (ap (get k) (log-sessions lib c _ _)
                    ∙ change_password-sessions now id n hash current new s.db v changed k);
          }
        ]
      ]

  set_new_password-status :
      (ip : IpAddr) (headers : HeaderMap) (id : ℕ) (username new_password : Text) (s : AppState)
      → IsValid s.db
      → (set_new_password lib c ip headers id username new_password s).1.status ≡ 200
      → IsReplaced headers id s.db
          (set_new_password lib c ip headers id username new_password s).0.db
          (set_new_password lib c ip headers id username new_password s).1
  unfolding set_new_password error reply panicked
  set_new_password-status ip headers id username new_password s v done =
      elim (Result-cases (hash_password c new_password)) [
        | inr (r, failed) ↦
            let status = hash_password-status lib c new_password failed in
            absurd (ground (arith, failed, status, done))
        | inl (hash, hashed) ↦ elim (Option-cases (session_key lib headers)) [
          | inl missing ↦ absurd (ground (arith, hashed, missing, done))
          | inr (current, known) ↦ elim (Option-cases (new_session lib c id ip headers)) [
            | inl failed ↦ absurd (ground (arith, hashed, known, failed, done))
            | inr ((token, new), made) ↦
                let (drawn, same, owner, _) = new_session-Drawn lib c id ip headers made in
                rw (set_new_password, hashed, known, made)
                  (replace_sessions-status ip headers id username hash current token new s v known
                    drawn same owner (ground (arith, hashed, known, made, done)))
          ]
        ]
      ]

  -- What the answer 200 shows.
  pub record IsChanged (headers : HeaderMap) (change : PasswordChange) (id : ℕ) (before after : Db)
      (answer : Response) : Type 0 where
    pub account : Account
    pub stored : get id before.accounts ≡ some account
    pub right : lib.verify change.current_password account.password_hash ≡ true
    pub long : min_chars ≤ length change.new_password
    pub short : length change.new_password ≤ max_chars
    pub rare : is_common lib change.new_password ≡ false
    pub replaced : IsReplaced headers id before after answer

  check_current-status :
      (ip : IpAddr) (headers : HeaderMap) (id : ℕ) (a : Account) (change : PasswordChange)
      (attempt : Attempt) (s : AppState)
      → IsValid s.db
      → (check_current lib c ip headers id a change attempt s).1.status ≡ 200
      → (lib.verify change.current_password a.password_hash ≡ true)
        × IsReplaced headers id s.db
            (check_current lib c ip headers id a change attempt s).0.db
            (check_current lib c ip headers id a change attempt s).1
  unfolding check_current error reply
  check_current-status ip headers id a change attempt s v done =
      elim (Bool-cases (c.verifies && lib.verify change.current_password a.password_hash)) [
        | inr wrong ↦ absurd (ground (arith, wrong, done))
        | inl right ↦
            let forgiven : AppState = record s {
              throttle = succeed lib.to_lowercase a.username ip attempt s.throttle;
            } in
            (
              ground (arith, right),
              rw (check_current, right)
                  (set_new_password-status ip headers id a.username change.new_password forgiven v
                    (ground (arith, right, done))),
            )
      ]

  change_account-status :
      (ip : IpAddr) (headers : HeaderMap) (change : PasswordChange) (id : ℕ) (s : AppState)
      → IsValid s.db
      → (change_account lib c ip headers change id s).1.status ≡ 200
      → (a : Account) × (get id s.db.accounts ≡ some a)
        × (lib.verify change.current_password a.password_hash ≡ true)
        × IsReplaced headers id s.db
            (change_account lib c ip headers change id s).0.db
            (change_account lib c ip headers change id s).1
  unfolding change_account account_by_id unauthorized error reply
  change_account-status ip headers change id s v done =
      elim (Bool-cases (c.fails selects_account)) [
        | inl broken ↦ absurd (ground (arith, broken, done))
        | inr works ↦ elim (Option-cases (get id s.db.accounts)) [
          | inl missing ↦ absurd (ground (arith, works, missing, done))
          | inr (a, found) ↦
              let begun = throttled-begun lib c a.username ip s in
              elim (Result-cases (throttled lib c a.username ip s).1) [
                | inr (r, refused) ↦
                    let status = throttled-refused lib c a.username ip s refused in
                    absurd (ground (arith, works, found, refused, status, done))
                | inl (attempt, granted) ↦
                    let after : AppState = record s {
                      throttle = (begin lib.to_lowercase a.username ip c.instant s.throttle).0;
                    } in
                    let all : change_account lib c ip headers change id s
                        ≡ check_current lib c ip headers id a change attempt after =
                      ground (arith, works, found, granted, begun) in
                    let (right, replaced) =
                      check_current-status ip headers id a change attempt after v
                        (ap (λ (x : AppState × Response). x.1.status) (sym all) ∙ done) in
                    (
                      a,
                      found,
                      right,
                      subst (λ (x : AppState × Response). IsReplaced headers id s.db x.0.db x.1)
                          (sym all) replaced,
                    )
              ]
        ]
      ]

  -- From a sound state, a change of password that is answered 200 had the current password of the
  -- caller's account and a new one that follows the policy. The account then has one session, a new
  -- one under the token of the cookie; the session of the request is gone, and no other session of
  -- another account is.
  pub change_own_password-IsChanged :
      (peer : IpAddr) (headers : HeaderMap) (change : PasswordChange) (session : Session)
      (s : AppState)
      → IsSound s
      → (change_own_password lib c peer headers (ok change) session s).1.status ≡ 200
      → IsChanged headers change session.account_id s.db
          (change_own_password lib c peer headers (ok change) session s).0.db
          (change_own_password lib c peer headers (ok change) session s).1
  unfolding change_own_password reply
  change_own_password-IsChanged peer headers change session s v done =
      let ip = client_ip lib peer headers in
      elim (Result-cases (check lib change.new_password)) [
        | inr (e, weak) ↦ absurd (ground (arith, weak, done))
        | inl (u, strong) ↦
            let (long, short, rare) =
              check-IsAcceptable lib change.new_password (ground (arith, strong)) in
            let (a, found, right, replaced) =
              change_account-status ip headers change session.account_id s v.tables
                (ground (arith, strong, done)) in
            rw (change_own_password, strong)
              (record {
                account = a;
                stored = found;
                right = right;
                long = long;
                short = short;
                rare = rare;
                replaced = replaced;
              })
      ]
