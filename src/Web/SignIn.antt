-- ===== src/Web/SignIn.antt =====
-- What an answer of `login` in crates/lodger/src/auth.rs shows: 200 and a live session for the right
-- password.
pub mod Started
pub mod Live
use lodger.Db.{
  Text, Account, NewSession, Session, Db, idle, find_account, find_name, same_name, insert_session,
}
use lodger.Db.Queries.{create_session, delete_session, live_session, is_alive, audit}
use lodger.Db.Expiry.{create_session-live}
use lodger.Db.Tables.{IsValid}
use lodger.Db.Rows.{put_sessions-IsValid, insert_session-stored}
use lodger.Map.{get, remove, retain, insert}
use lodger.Map.Laws.{Distinct, get-remove, get-retain, get-insert, remove-Distinct, kept}
use lodger.Net.{IpAddr}
use lodger.Prelude.Equality.{nat_eq}
use lodger.Prelude.{
  ℕ, ◌+◌, ◌<◌, ◌≡◌, ◌≢◌, refl, sym, ap, ◌∙◌, ◌⊎◌, Bool, true, false, not, ◌&&◌, Option, none, some,
  Option-cases, List, [], ◌∷◌, Result, ok, err, arith, ◌==◌, Bool-cases, Result-cases, inl, inr,
  subst, text,
}
use lodger.Throttle.{Attempt}
use lodger.Web.{
  HeaderMap, Response, Crates, Conditions, AppState, session_info, selects_account, deletes_session,
  cleans_sessions, inserts_session, inserts_audit, session_draw, csrf_draw, text_value, reply,
  with_header, error,
}
use lodger.Web.Audit.{Entry, log}
use lodger.Web.ClientIp.{client_ip}
use lodger.Web.Cookie.{set_cookie, session_key}
use lodger.Web.Login.{
  Login, throttled, too_many_attempts, verified, store_session, end_old_session, cannot_start,
  refuse, start_session, sign_in, check_login, login,
}
use lodger.Web.Session.{new_session}
use lodger.Web.Steps.Laws.{IsSound}
use lodger.Web.Steps.Login.{new_session-Drawn}

-- With distinct ids, the row that a search by name finds is the row of its id.
pub find_name-get :
    (name : Text) (rows : List (ℕ × Account)) (id : ℕ) (a : Account)
    → Distinct rows
    → find_name name rows ≡ some (id, a)
    → get id rows ≡ some a
unfolding find_name get
find_name-get name [] id a d h = absurd (ground arith)
find_name-get name ((j, b) ∷ rows) id a (fresh, d) h =
    elim (Bool-cases (same_name b.username name)) [
      | inl same ↦ ground (arith, same, h)
      | inr other ↦
          let found : find_name name rows ≡ some (id, a) = ground (arith, other, h) in
          let read = find_name-get name rows id a d found in
          elim (Bool-cases (j == id)) [
            | inl equal ↦
                let here : get id rows ≡ none =
                  subst (λ k. get k rows ≡ none) (ground arith) fresh in
                absurd (ground (arith, here, read))
            | inr differs ↦ ground (arith, differs, read)
          ]
    ]

module _ (lib : Crates) (c : Conditions) where
  pub log-live :
      (entry : Entry) (now token : ℕ) (s : AppState)
      → live_session now token (log lib c entry s).db ≡ live_session now token s.db
  unfolding log audit live_session
  log-live entry now token s = elim (Bool-cases (c.fails inserts_audit)) [
    | inl broken ↦ ground (arith, broken)
    | inr works ↦ ground (arith, works)
  ]

  pub log-sessions :
      (entry : Entry) (s : AppState) → (log lib c entry s).db.sessions ≡ s.db.sessions
  unfolding log audit
  log-sessions entry s = elim (Bool-cases (c.fails inserts_audit)) [
    | inl broken ↦ ground (arith, broken)
    | inr works ↦ ground (arith, works)
  ]

  pub store_session-done :
      (new : NewSession) (s : AppState)
      → (store_session c new s).1 ≡ true
      → let made = create_session (c.clock cleans_sessions) (c.clock inserts_session) new s.db in
        (made.1 ≡ ok tt) × ((store_session c new s).0 ≡ record s { db = made.0 })
  unfolding store_session
  store_session-done new s done = elim (Bool-cases (c.fails cleans_sessions)) [
    | inl broken ↦ absurd (ground (arith, broken, done))
    | inr cleaned ↦ elim (Bool-cases (c.fails inserts_session)) [
      | inl broken ↦ absurd (ground (arith, cleaned, broken, done))
      | inr works ↦
          let made = create_session (c.clock cleans_sessions) (c.clock inserts_session) new s.db in
          elim (Result-cases made.1) [
            | inl (u, stored) ↦ (ground (arith, stored), ground (arith, cleaned, works))
            | inr (e, failed) ↦ absurd (ground (arith, cleaned, works, failed, done))
          ]
    ]
  ]

  -- The session of before is gone, and the accounts are as they were.
  pub end_old_session-gone :
      (headers : HeaderMap) (s s' : AppState)
      → Distinct s.db.sessions
      → end_old_session lib c headers s ≡ some s'
      → (s'.db.accounts ≡ s.db.accounts)
        × (Distinct s'.db.sessions)
        × ((old : ℕ) → session_key lib headers ≡ some old → get old s'.db.sessions ≡ none)
  unfolding end_old_session delete_session
  end_old_session-gone headers s s' d done = elim (Option-cases (session_key lib headers)) [
    | inl missing ↦
        let same : s ≡ s' = ground (arith, missing, done) in
        (
          ap (λ (x : AppState). x.db.accounts) (sym same),
          subst (λ (x : AppState). Distinct x.db.sessions) same d,
          λ old found. absurd (ground (arith, missing, found)),
        )
    | inr (key, found) ↦ elim (Bool-cases (c.fails deletes_session)) [
      | inl broken ↦ absurd (ground (arith, found, broken, done))
      | inr works ↦
          let ended : AppState = record s { db = delete_session key s.db } in
          let same : ended ≡ s' = ground (arith, found, works, done) in
          let gone = get-remove key key s.db.sessions d in
          (
            ap (λ (x : AppState). x.db.accounts) (sym same),
            subst (λ (x : AppState). Distinct x.db.sessions) same
                (remove-Distinct key s.db.sessions d),
            λ old known.
                let equal : key ≡ old = ground (arith, found, known) in
                subst (λ (x : AppState). get old x.db.sessions ≡ none) same
                  (subst (λ k. get k (remove key s.db.sessions) ≡ none) equal
                    (ground (arith, gone))),
          )
    ]
  ]
