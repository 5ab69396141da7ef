-- ===== src/Web/SignIn/Started.antt =====
-- The session that a sign-in of crates/lodger/src/auth.rs starts answers, and ends the one before.
use lodger.Db.{Text, Account, NewSession, idle}
use lodger.Db.Queries.{create_session, live_session}
use lodger.Db.Calls.{opens, step}
use lodger.Db.Expiry.{create_session-live}
use lodger.Db.Lifetime.{step-Holds}
use lodger.Map.{get}
use lodger.Net.{IpAddr}
use lodger.Prelude.Equality.{nat_eq}
use lodger.Prelude.{
  ℕ, ◌+◌, ◌<◌, ◌≡◌, ◌≢◌, sym, ap, ◌∙◌, ◌⊎◌, none, some, Option-cases, ok, arith, ◌==◌, Bool-cases,
  inl, inr, text,
}
use lodger.Web.{
  HeaderMap, Crates, Conditions, AppState, session_info, cleans_sessions, inserts_session,
  text_value, reply, with_header, error,
}
use lodger.Web.Audit.{Entry, log}
use lodger.Web.Cookie.{set_cookie, session_key}
use lodger.Web.Login.{store_session, end_old_session, cannot_start, start_session}
use lodger.Web.SignIn.{log-live, log-sessions, store_session-done, end_old_session-gone}
use lodger.Web.Steps.Laws.{IsSound, Steps-IsSound, Absent-get, get-Absent}
use lodger.Web.Steps.Login.{end_old_session-Steps}
use lodger.Web.Steps.{stays}

module _ (lib : Crates) (c : Conditions) where
  -- What a stored session gives: it answers until it is idle for 60 minutes, and the session that the
  -- request named before, unless the new one took its key, is gone.
  pub record IsStarted (headers : HeaderMap) (new : NewSession) (before after : AppState)
      : Type 0 where
    pub live :
        (t : ℕ)
        → t < c.clock inserts_session + idle
        → (a : Account) × (get new.account_id before.db.accounts ≡ some a)
          × (live_session t new.token_sha256 after.db
              ≡ some (record {
                account_id = new.account_id;
                username = a.username;
                csrf_token = new.csrf_token;
              }))
    pub ended :
        (old : ℕ)
        → session_key lib headers ≡ some old
        → (new.token_sha256 ≡ old) ⊎ (get old after.db.sessions ≡ none)

  created-IsStarted :
      (headers : HeaderMap) (new : NewSession) (s s' : AppState)
      → IsSound s
      → end_old_session lib c headers s ≡ some s'
      → let made = create_session (c.clock cleans_sessions) (c.clock inserts_session) new s'.db in
        made.1 ≡ ok tt → IsStarted headers new s (record s' { db = made.0 })
  unfolding step
  created-IsStarted headers new s s' v ended stored =
      let sound =
        Steps-IsSound lib c s s' v (end_old_session-Steps lib c headers s s ended (stays s)) in
      let (same, _, gone) =
        end_old_session-gone lib c headers s s' v.tables.sessions_distinct ended in
      let now = c.clock cleans_sessions in
      let later = c.clock inserts_session in
      record {
        live = λ t early.
            let (a, known, live) = create_session-live now later t new s'.db stored early in
            (a, ap (get new.account_id) (sym same) ∙ known, live);
        ended = λ old key. elim (Bool-cases (new.token_sha256 == old)) [
          | inl equal ↦ inl (ground arith)
          | inr differs ↦
              let other : new.token_sha256 ≢ old = ground arith in
              let absent =
                step-Holds old (λ row. ⊥) s'.db (opens now later new) sound.tables other
                  (get-Absent old s' (gone old key)) in
              inr
                (Absent-get old (record s' { db = (create_session now later new s'.db).0 }) absent)
        ];
      }

  -- A record of the start stays when a line goes to the audit log.
  log-IsStarted :
      (headers : HeaderMap) (new : NewSession) (entry : Entry) (s t : AppState)
      → IsStarted headers new s t
      → IsStarted headers new s (log lib c entry t)
  log-IsStarted headers new entry s t h = record {
    live = λ now early.
        let (a, known, live) = h.live now early in
        (a, known, log-live lib c entry now new.token_sha256 t ∙ live);
    ended = λ old key. elim (h.ended old key) [
      | inl equal ↦ inl equal
      | inr gone ↦ inr (ap (get old) (log-sessions lib c entry t) ∙ gone)
    ];
  }

  pub start_session-IsStarted :
      (username : Text) (ip : IpAddr) (headers : HeaderMap) (token : Text) (new : NewSession)
      (s : AppState)
      → IsSound s
      → (start_session lib c username ip headers token new s).1.status ≡ 200
      → ((start_session lib c username ip headers token new s).1
          ≡ with_header
              (text "set-cookie")
              (text_value (set_cookie token))
              (reply 200 (session_info username new.csrf_token)))
        × IsStarted headers new s (start_session lib c username ip headers token new s).0
  unfolding start_session cannot_start error reply
  start_session-IsStarted username ip headers token new s v done =
      elim (Option-cases (end_old_session lib c headers s)) [
        | inl failed ↦ absurd (ground (arith, failed, done))
        | inr (s', ended) ↦ elim (Bool-cases (store_session c new s').1) [
          | inr failed ↦ absurd (ground (arith, ended, failed, done))
          | inl stored ↦
              let (made, written) = store_session-done lib c new s' stored in
              let started = created-IsStarted headers new s s' v ended made in
              (
                ground (arith, ended, stored),
                rw (start_session, ended, stored, written)
                    (log-IsStarted headers new _ s _ started),
              )
        ]
      ]
