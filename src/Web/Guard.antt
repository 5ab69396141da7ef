-- ===== src/Web/Guard.antt =====
-- When `require_session` of crates/lodger/src/auth.rs runs the handler behind it, and what a logout
-- changes about that.
use lodger.Db.{Session}
use lodger.Db.Queries.{live_session, touch_session, session}
use lodger.Prelude.Equality.{nat_eq, text_beq_iff}
use lodger.Prelude.{
  ℕ, ◌≡◌, refl, ◌↔◌, ◌⊎◌, true, false, not, ◌&&◌, ◌||◌, none, some, Option-cases, List, is_some, ok,
  arith, Bool-cases, Result-cases, inl, inr, text,
}
use lodger.Web.{
  HeaderMap, Method, Response, Crates, Conditions, AppState, selects_session, touches_session,
  reply, error,
}
use lodger.Web.Bytes.{as_bytes}
use lodger.Web.Cookie.{cookie_token}
use lodger.Web.Security.{is_safe}
use lodger.Web.Session.{
  find_session, lookup, unauthorized, lookup_failed, csrf_matches, require_session,
}

module _ (lib : Crates) (c : Conditions) where
  -- The cookie names a live session, and a request that may change state carries its CSRF token.
  pub record IsAuthorized (method : Method) (headers : HeaderMap) (s : AppState) (token : List ℕ)
      (session : Session) : Type 0 where
    pub cookie : cookie_token lib headers ≡ some token
    pub live : live_session (c.clock selects_session) (lib.sha256 token) s.db ≡ some session
    pub unforged :
        (is_safe method ≡ true)
        ⊎ (headers.get_first (text "x-csrf-token") ≡ some (as_bytes session.csrf_token))

  -- The state when the use of the session is written down.
  abbrev pub used : (token : List ℕ) → AppState → AppState
  used token s = record s { db = touch_session (c.clock touches_session) (lib.sha256 token) s.db }

  csrf_matches_iff :
      (headers : HeaderMap) (session : Session)
      → (csrf_matches headers session ≡ true)
        ↔ (headers.get_first (text "x-csrf-token") ≡ some (as_bytes session.csrf_token))
  unfolding csrf_matches
  csrf_matches_iff headers session = elim (Option-cases (headers.get_first (text "x-csrf-token"))) [
    | inl missing ↦ ground (arith, missing)
    | inr (sent, found) ↦ ground (arith, found, text_beq_iff sent (as_bytes session.csrf_token))
  ]

  lookup-eq :
      (headers : HeaderMap) (s : AppState) (token : List ℕ)
      → cookie_token lib headers ≡ some token
      → c.fails selects_session ≡ false
      → c.fails touches_session ≡ false
      → (lookup lib c headers s).1
        ≡ ok (live_session (c.clock selects_session) (lib.sha256 token) s.db)
  unfolding lookup find_session session
  lookup-eq headers s token cookie reads writes = ground (arith, cookie, reads, writes)

  lookup-live :
      (headers : HeaderMap) (s : AppState) (session : Session)
      → (lookup lib c headers s).1 ≡ ok (some session)
      → (token : List ℕ) × (cookie_token lib headers ≡ some token)
        × (live_session (c.clock selects_session) (lib.sha256 token) s.db ≡ some session)
        × ((lookup lib c headers s).0 ≡ used token s)
  unfolding lookup find_session session
  lookup-live headers s found_session h = elim (Option-cases (cookie_token lib headers)) [
    | inl missing ↦ absurd (ground (arith, missing, h))
    | inr (token, found) ↦ (token, found, ground (arith, found, h), ground (arith, found, h))
  ]

  -- A refusal: no handler runs, and at most the use of a session is written down.
  pub record IsRefused (method : Method) (headers : HeaderMap) (s : AppState) : Type 0 where
    pub response : Response
    pub after : AppState
    pub result :
        (next : Session → AppState → AppState × Response)
        → require_session lib c method headers next s ≡ (after, response)
    pub status : (response.status ≡ 401) ⊎ ((response.status ≡ 403) ⊎ (response.status ≡ 500))
    pub untouched : (after ≡ s) ⊎ ((token : List ℕ) × (after ≡ used token s))
    pub unauthorised :
        (token : List ℕ) (session : Session)
        → IsAuthorized method headers s token session
        → (c.fails selects_session ≡ true) ⊎ (c.fails touches_session ≡ true)

  lookup-untouched :
      (headers : HeaderMap) (s : AppState)
      → ((lookup lib c headers s).0 ≡ s)
        ⊎ ((token : List ℕ) × ((lookup lib c headers s).0 ≡ used token s))
  unfolding lookup find_session session touch_session
  lookup-untouched headers s = elim (Option-cases (cookie_token lib headers)) [
    | inl missing ↦ inl (ground (arith, missing))
    | inr (token, cookie) ↦
        let found = live_session (c.clock selects_session) (lib.sha256 token) s.db in
        elim (Bool-cases (c.fails selects_session || (is_some found && c.fails touches_session))) [
          | inl broken ↦ inl (ground (arith, cookie, broken))
          | inr works ↦ elim (Bool-cases (is_some found)) [
            | inl live ↦ inr (token, ground (arith, cookie, works, live))
            | inr dead ↦ inl (ground (arith, cookie, works, dead))
          ]
        ]
  ]

  -- When the lookup does not give the session of an authorised request, a statement failed.
  lookup-failed :
      (method : Method) (headers : HeaderMap) (s : AppState) (token : List ℕ) (session : Session)
      → ((lookup lib c headers s).1 ≡ ok (some session) → ⊥)
      → IsAuthorized method headers s token session
      → (c.fails selects_session ≡ true) ⊎ (c.fails touches_session ≡ true)
  lookup-failed method headers s token session other a =
      elim (Bool-cases (c.fails selects_session)) [
        | inl broken ↦ inl broken
        | inr reads ↦ elim (Bool-cases (c.fails touches_session)) [
          | inl broken ↦ inr broken
          | inr writes ↦
              let found = lookup-eq headers s token a.cookie reads writes in
              absurd (other (ground (arith, found, a.live)))
        ]
      ]

  -- Either the request is authorised, by the cookie of a live session and, unless the method is safe,
  -- by its CSRF token, and `require_session` runs the handler with that session; or no handler runs,
  -- the answer is 401, 403 or 500, no more than the use of a session is written down, and the request
  -- is not authorised or a statement of the database failed.
  pub require_session-IsAuthorized :
      (method : Method) (headers : HeaderMap) (s : AppState)
      → ((token : List ℕ) × (session : Session) × IsAuthorized method headers s token session
          × ((next : Session → AppState → AppState × Response)
              → require_session lib c method headers next s ≡ next session (used token s)))
        ⊎ IsRefused method headers s
  unfolding require_session unauthorized lookup_failed error reply
  require_session-IsAuthorized method headers s =
      let same = lookup-untouched headers s in
      let after = (lookup lib c headers s).0 in
      elim (Result-cases (lookup lib c headers s).1) [
        | inr (e, failed) ↦ inr (record {
          response = lookup_failed;
          after = after;
          result = λ next. ground (arith, failed);
          status = inr (inr refl);
          untouched = same;
          unauthorised = λ token session.
              lookup-failed method headers s token session (λ h. ground (arith, h, failed));
        })
        | inl (none, missing) ↦ inr (record {
          response = unauthorized;
          after = after;
          result = λ next. ground (arith, missing);
          status = inl refl;
          untouched = same;
          unauthorised = λ token session.
              lookup-failed method headers s token session (λ h. ground (arith, h, missing));
        })
        | inl (some session, found) ↦
            let (token, cookie, live, written) = lookup-live headers s session found in
            elim (Bool-cases (not (is_safe method) && not (csrf_matches headers session))) [
              | inl forged ↦ inr (record {
                response = error 403 (text "missing or wrong X-CSRF-Token");
                after = after;
                result = λ next. ground (arith, found, forged);
                status = inr (inl refl);
                untouched = same;
                unauthorised = λ t other a.
                    lookup-failed method headers s t other
                      (λ h.
                        ground
                          (arith, h, found, forged, a.unforged, csrf_matches_iff headers other))
                      a;
              })
              | inr passed ↦ inl (
                token,
                session,
                record {
                  cookie = cookie;
                  live = live;
                  unforged = ground (arith, passed, csrf_matches_iff headers session);
                },
                λ next. ground (arith, found, passed, written),
              )
            ]
      ]
