-- ===== src/Web/Logout.antt =====
-- What a logout of crates/lodger/src/auth.rs takes away.
use lodger.Db.{Session}
use lodger.Db.Queries.{live_session, session, delete_session}
use lodger.Map.{get}
use lodger.Map.Laws.{get-remove}
use lodger.Prelude.Equality.{nat_eq}
use lodger.Prelude.{ℕ, ◌≡◌, if◌then◌else◌, none, some, List, text, arith, Bool-cases, inl, inr}
use lodger.Web.{
  HeaderMap, Method, Response, Crates, Conditions, AppState, selects_session, deletes_session,
  reply, error, with_header,
}
use lodger.Web.Cookie.{cookie_token}
use lodger.Web.Routes.{Config, Request, serve_all}
use lodger.Web.Session.{find_session, lookup, unauthorized, lookup_failed, require_session, logout}
use lodger.Web.Steps.Laws.{IsSound, Steps-IsSound, NeverDrawn, serve_all-gone}
use lodger.Web.Steps.Login.{logout-Steps}
use lodger.Web.Steps.{stays}

module _ (lib : Crates) where
  logout-gone :
      (c : Conditions) (headers : HeaderMap) (token : List ℕ) (s : AppState)
      → IsSound s
      → cookie_token lib headers ≡ some token
      → (logout lib c headers s).1.status ≡ 204
      → get (lib.sha256 token) (logout lib c headers s).0.db.sessions ≡ none
  unfolding logout delete_session error reply with_header
  logout-gone c headers token s v cookie done =
      let gone =
        get-remove (lib.sha256 token) (lib.sha256 token) s.db.sessions v.tables.sessions_distinct in
      elim (Bool-cases (c.fails deletes_session)) [
        | inl broken ↦ absurd (ground (arith, cookie, broken, done))
        | inr works ↦ ground (arith, cookie, works, gone)
      ]

  gone-require_session :
      (c : Conditions) (method : Method) (headers : HeaderMap) (token : List ℕ) (s : AppState)
      (next : Session → AppState → AppState × Response)
      → cookie_token lib headers ≡ some token
      → get (lib.sha256 token) s.db.sessions ≡ none
      → require_session lib c method headers next s
        ≡ (s, if c.fails selects_session then lookup_failed else unauthorized)
  unfolding require_session lookup find_session session live_session
  gone-require_session c method headers token s next cookie gone = ground (arith, cookie, gone)

  -- From a sound state, a logout that succeeds ends the session for good: after any requests that do
  -- not draw its token again, a request with the same cookie runs no handler, changes nothing, and is
  -- answered 401 where the database answers, and 500 where its statement fails.
  pub logout-require_session :
      (config : Config) (c c' : Conditions) (method : Method) (headers headers' : HeaderMap)
      (token : List ℕ) (s : AppState) (rs : List (Conditions × Request))
      (next : Session → AppState → AppState × Response)
      → IsSound s
      → cookie_token lib headers ≡ some token
      → (logout lib c headers s).1.status ≡ 204
      → NeverDrawn lib (lib.sha256 token) rs
      → cookie_token lib headers' ≡ some token
      → let later = serve_all lib config (logout lib c headers s).0 rs in
        require_session lib c' method headers' next later ≡ (
          later,
          if c'.fails selects_session
              then error 500 (text "cannot check the session")
              else error 401 (text "log in first"),
        )
  unfolding unauthorized lookup_failed
  logout-require_session config c c' method headers headers' token s rs next v cookie done n same =
      let sound = Steps-IsSound lib c s _ v (logout-Steps lib c headers s s (stays s)) in
      let gone =
        serve_all-gone lib config (lib.sha256 token) _ rs sound
          (logout-gone c headers token s v cookie done) n in
      gone-require_session c' method headers' token _ next same gone
