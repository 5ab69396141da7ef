-- ===== src/Web/Origins.antt =====
-- The layers of crates/lodger/src/security.rs around every route: what a request from another page
-- can change.
use lodger.Db.{Text, fold_case}
use lodger.Net.{IpAddr}
use lodger.Prelude.Equality.{text_beq, text_beq_iff}
use lodger.Prelude.{
  ℕ, ◌≡◌, ap, ◌∙◌, ◌⊎◌, true, Option, some, Option-cases, List, map, arith, Bool-cases, inl, inr,
  text,
}
use lodger.Web.{HeaderMap, Response, Crates, Conditions, AppState, header_text}
use lodger.Web.Bytes.{eq_ignore_ascii_case}
use lodger.Web.Guard.{used, require_session-IsAuthorized}
use lodger.Web.Routes.{
  reads_session, logs_out, asks_ticket, adds_account, drops_account, sets_password, Route,
  reads_setup, claims_setup, logs_in, protected, Request, Config, route_method, protected_method,
  handle_protected, dispatch, respond,
}
use lodger.Web.Security.{is_safe, same_origin, from_lodger, require_same_origin}
use lodger.Web.Session.{current}
use lodger.Web.Setup.{status}

module _ (lib : Crates) where
  -- The browser says that a Lodger page asks, or the page's origin is the configured one but for case.
  abbrev pub FromLodger : HeaderMap → Option Text → Type 0
  FromLodger headers public_origin =
      (header_text lib headers (text "sec-fetch-site") ≡ some (text "same-origin"))
      ⊎ ((origin : Text) × (public : Text) × (header_text lib headers (text "origin") ≡ some origin)
          × (public_origin ≡ some public)
          × (map fold_case origin ≡ map fold_case public))

  same_origin-FromLodger :
      (headers : HeaderMap) (public_origin : Option Text)
      → same_origin (header_text lib headers (text "origin")) public_origin ≡ true
      → FromLodger headers public_origin
  unfolding same_origin eq_ignore_ascii_case
  same_origin-FromLodger headers public_origin h =
      elim (Option-cases (header_text lib headers (text "origin"))) [
        | inl missing ↦ absurd (ground (arith, missing, h))
        | inr (origin, sent) ↦ elim (Option-cases public_origin) [
          | inl missing ↦ absurd (ground (arith, sent, missing, h))
          | inr (public, set) ↦ inr (
            origin,
            public,
            sent,
            set,
            (text_beq_iff (map fold_case origin) (map fold_case public)).0
                (ground (arith, sent, set, h)),
          )
        ]
      ]

  from_lodger-FromLodger :
      (headers : HeaderMap) (public_origin : Option Text)
      → from_lodger lib headers public_origin ≡ true
      → FromLodger headers public_origin
  unfolding from_lodger
  from_lodger-FromLodger headers public_origin h =
      elim (Option-cases (header_text lib headers (text "sec-fetch-site"))) [
        | inl missing ↦ same_origin-FromLodger headers public_origin (ground (arith, missing, h))
        | inr (site, sent) ↦ elim (Bool-cases (text_beq site (text "same-origin"))) [
          | inl same ↦ inl (sent ∙ ap some ((text_beq_iff site (text "same-origin")).0 same))
          | inr other ↦
              same_origin-FromLodger headers public_origin (ground (arith, sent, other, h))
        ]
      ]

  -- A request of a safe method writes at most the use of a session.
  safe_route :
      (c : Conditions) (peer : IpAddr) (headers : HeaderMap) (route : Route) (s : AppState)
      → is_safe (route_method route) ≡ true
      → ((dispatch lib c peer headers route s).0 ≡ s)
        ⊎ ((token : List ℕ) × ((dispatch lib c peer headers route s).0 ≡ used lib c token s))
  unfolding dispatch status route_method protected_method is_safe handle_protected current
  safe_route c peer headers reads_setup s h = inl (ground arith)
  safe_route c peer headers (claims_setup body) s h = absurd (ground arith)
  safe_route c peer headers (logs_in body) s h = absurd (ground arith)
  safe_route c peer headers (protected logs_out) s h = absurd (ground arith)
  safe_route c peer headers (protected asks_ticket) s h = absurd (ground arith)
  safe_route c peer headers (protected (adds_account body)) s h = absurd (ground arith)
  safe_route c peer headers (protected (drops_account id)) s h = absurd (ground arith)
  safe_route c peer headers (protected (sets_password body)) s h = absurd (ground arith)
  safe_route c peer headers (protected reads_session) s h =
      let next = handle_protected lib c peer headers reads_session in
      elim (require_session-IsAuthorized lib c (protected_method reads_session) headers s) [
        | inl (token, session, authorised, runs) ↦
            inr (token, ap (λ (x : AppState × Response). x.0) (runs next))
        | inr refused ↦
            let same = ap (λ (x : AppState × Response). x.0) (refused.result next) in
            elim refused.untouched [
              | inl equal ↦ inl (same ∙ equal)
              | inr (token, touched) ↦ inr (token, same ∙ touched)
            ]
      ]

  -- A request to a modelled route that does not come from a Lodger page changes nothing but when a
  -- session was last used.
  pub respond-foreign :
      (config : Config) (c : Conditions) (r : Request) (s : AppState)
      → (FromLodger r.headers config.public_origin → ⊥)
      → ((respond lib config c r s).0 ≡ s)
        ⊎ ((token : List ℕ) × ((respond lib config c r s).0 ≡ used lib c token s))
  unfolding respond require_same_origin
  respond-foreign config c r s outside =
      elim (Bool-cases (from_lodger lib r.headers config.public_origin)) [
        | inl inside ↦
            absurd (outside (from_lodger-FromLodger r.headers config.public_origin inside))
        | inr outer ↦ elim (Bool-cases (is_safe (route_method r.route))) [
          | inl safe ↦
              rw (respond, require_same_origin, safe) (safe_route c r.peer r.headers r.route s safe)
          | inr unsafe ↦ inl (ground (arith, outer, unsafe))
        ]
      ]
