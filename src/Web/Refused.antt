-- ===== src/Web/Refused.antt =====
-- What a login of crates/lodger/src/auth.rs without the right password leaves.
use lodger.Db.{Account, Db, find_account}
use lodger.Db.Queries.{audit}
use lodger.Net.{IpAddr}
use lodger.Prelude.{
  ℕ, ◌≡◌, refl, sym, subst, ◌∙◌, ◌⊎◌, false, Option, none, some, Option-cases, ok, arith,
  Bool-cases, Result-cases, inl, inr, text,
}
use lodger.Throttle.{Attempt, begin}
use lodger.Web.{
  HeaderMap, Response, Crates, Conditions, AppState, selects_account, inserts_audit, reply, error,
}
use lodger.Web.Audit.{Entry, failed_entry, from_ip, log}
use lodger.Web.ClientIp.{client_ip}
use lodger.Web.Throttled.{
  throttled-begun, throttled-refused, throttled-CountsAttempt, throttled-CountsNone,
}
use lodger.Web.Steps.Laws.{IsSound}
use lodger.Throttle.Counted.{CountsAttempt, CountsNone}
use lodger.Web.Login.{Login, login_failed, throttled, verified, refuse, check_login, login}

module _ (lib : Crates) (c : Conditions) where
  -- The database differs at most by a row of the audit log.
  pub record IsLogged (before after : AppState) : Type 0 where
    pub accounts : after.db.accounts ≡ before.db.accounts
    pub sessions : after.db.sessions ≡ before.db.sessions
    pub tickets : after.tickets ≡ before.tickets
    pub setup : after.setup ≡ before.setup

  log-IsLogged : (entry : Entry) (s : AppState) → IsLogged s (log lib c entry s)
  unfolding log audit
  log-IsLogged entry s = elim (Bool-cases (c.fails inserts_audit)) [
    | inl broken ↦
        rw (log, broken) (record { accounts = refl; sessions = refl; tickets = refl; setup = refl })
    | inr works ↦
        rw (log, works) (record { accounts = refl; sessions = refl; tickets = refl; setup = refl })
  ]

  log-throttle : (entry : Entry) (s : AppState) → (log lib c entry s).throttle ≡ s.throttle
  unfolding log
  log-throttle entry s = ground arith

  -- No account of this name has this password.
  abbrev pub IsWrong : Login → Db → Type 0
  IsWrong l db =
      (id : ℕ) (a : Account)
      → find_account l.username db ≡ some (id, a)
      → lib.verify l.password a.password_hash ≡ false

  -- What such a login leaves and answers.
  pub record IsTurnedDown (l : Login) (ip : IpAddr) (before : AppState)
      (result : AppState × Response) : Type 0 where
    pub logged : IsLogged before result.0
    pub begun :
        result.0.throttle ≡ (begin lib.to_lowercase l.username ip c.instant before.throttle).0
    pub counted :
        (((result.1.status ≡ 401) ⊎ (result.1.status ≡ 500))
          × CountsAttempt lib.to_lowercase l.username ip c.instant before.throttle
              result.0.throttle)
        ⊎ ((result.1.status ≡ 429)
            × CountsNone lib.to_lowercase l.username ip c.instant before.throttle result.0.throttle)

  refuse-IsTurnedDown :
      (l : Login) (ip : IpAddr) (account : Option (ℕ × Account)) (s t : AppState)
      → IsLogged s t
      → t.throttle ≡ (begin lib.to_lowercase l.username ip c.instant s.throttle).0
      → CountsAttempt lib.to_lowercase l.username ip c.instant s.throttle t.throttle
      → IsTurnedDown l ip s (refuse lib c ip account t)
  unfolding refuse error reply
  refuse-IsTurnedDown l ip account s t h begun counted =
      let k = log-IsLogged _ t in
      record {
        logged = record {
          accounts = k.accounts ∙ h.accounts;
          sessions = k.sessions ∙ h.sessions;
          tickets = k.tickets ∙ h.tickets;
          setup = k.setup ∙ h.setup;
        };
        begun = log-throttle _ t ∙ begun;
        counted = inl (
          inl refl,
          subst (CountsAttempt lib.to_lowercase l.username ip c.instant s.throttle)
              (sym (log-throttle _ t)) counted,
        );
      }

  check_login-IsTurnedDown :
      (l : Login) (ip : IpAddr) (headers : HeaderMap) (attempt : Attempt) (s t : AppState)
      → IsWrong l t.db
      → IsLogged s t
      → t.throttle ≡ (begin lib.to_lowercase l.username ip c.instant s.throttle).0
      → CountsAttempt lib.to_lowercase l.username ip c.instant s.throttle t.throttle
      → IsTurnedDown l ip s (check_login lib c l ip headers attempt t)
  unfolding check_login verified error reply
  check_login-IsTurnedDown l ip headers attempt s t wrong h begun counted =
      elim (Bool-cases (c.fails selects_account)) [
        | inl broken ↦
            rw (check_login, broken)
              (record { logged = h; begun = begun; counted = inl (inr refl, counted) })
        | inr works ↦ elim (Option-cases (find_account l.username t.db)) [
          | inl missing ↦
              rw (check_login, works, missing) (refuse-IsTurnedDown l ip none s t h begun counted)
          | inr ((id, a), found) ↦
              let no : verified lib c l.password (some (id, a)) ≡ false =
                ground (arith, wrong id a found) in
              rw (check_login, works, found, no)
                (refuse-IsTurnedDown l ip (some (id, a)) s t h begun counted)
        ]
      ]

  -- From a sound state, a login without the password of the account it names, or with the name of none,
  -- leaves the accounts, the sessions, the tickets and the setup as they were, and the throttle as
  -- after `begin`. It is answered 401 or 500, with the attempt added to the times of the account and of
  -- the IP in the window, or 429, with it added to neither. A map that is full and does not hold its key
  -- counts nothing for that key.
  pub login-IsTurnedDown :
      (peer : IpAddr) (headers : HeaderMap) (l : Login) (s : AppState)
      → IsSound s
      → IsWrong l s.db
      → IsTurnedDown l (client_ip lib peer headers) s (login lib c peer headers (ok l) s)
  unfolding login log
  login-IsTurnedDown peer headers l s v wrong =
      let ip = client_ip lib peer headers in
      let begun : AppState = record s {
        throttle = (begin lib.to_lowercase l.username ip c.instant s.throttle).0;
      } in
      let same : IsLogged s begun = record {
        accounts = refl;
        sessions = refl;
        tickets = refl;
        setup = refl;
      } in
      let state = throttled-begun lib c l.username ip s in
      elim (Result-cases (throttled lib c l.username ip s).1) [
        | inl (attempt, turn) ↦
            rw (login, turn, state)
              (check_login-IsTurnedDown l ip headers attempt s begun wrong same refl
                (throttled-CountsAttempt lib c l.username ip s v.counters turn))
        | inr (r, refused) ↦
            rw (login, refused, state)
              (record {
                logged = same;
                begun = refl;
                counted = inr (
                  throttled-refused lib c l.username ip s refused,
                  throttled-CountsNone lib c l.username ip s v.counters refused,
                );
              })
      ]

  check_login-unknown :
      (l : Login) (ip : IpAddr) (headers : HeaderMap) (attempt : Attempt) (s : AppState)
      → find_account l.username s.db ≡ none
      → ((check_login lib c l ip headers attempt s).0.db ≡ s.db)
        ⊎ ((check_login lib c l ip headers attempt s).0.db
            ≡ (log lib c (from_ip ip (failed_entry login_failed (text "no_such_account"))) s).db)
  unfolding check_login refuse
  check_login-unknown l ip headers attempt s missing = elim (Bool-cases (c.fails selects_account)) [
    | inl broken ↦ inl (ground (arith, broken))
    | inr works ↦ inr (ground (arith, works, missing))
  ]

  -- Nothing of a login with an unknown name reaches the database: each one leaves the tables as they
  -- were, or with one more row, which is the same for every such name and password.
  pub login-unknown :
      (peer : IpAddr) (headers : HeaderMap) (s : AppState)
      → (logged : Db) × ((l : Login)
          → find_account l.username s.db ≡ none
          → ((login lib c peer headers (ok l) s).0.db ≡ s.db)
            ⊎ ((login lib c peer headers (ok l) s).0.db ≡ logged))
  unfolding login log
  login-unknown peer headers s =
      let ip = client_ip lib peer headers in
      let entry = from_ip ip (failed_entry login_failed (text "no_such_account")) in
      (
        (log lib c entry s).db,
        λ l missing.
            let state = throttled-begun lib c l.username ip s in
            elim (Result-cases (throttled lib c l.username ip s).1) [
              | inr (r, refused) ↦ inl (rw (login, refused, state) refl)
              | inl (attempt, turn) ↦
                  let begun : AppState = record s {
                    throttle = (begin lib.to_lowercase l.username ip c.instant s.throttle).0;
                  } in
                  elim (check_login-unknown l ip headers attempt begun missing) [
                    | inl same ↦ inl (rw (login, turn, state) same)
                    | inr row ↦ inr (rw (login, turn, state) (ground (arith, row)))
                  ]
            ],
      )
