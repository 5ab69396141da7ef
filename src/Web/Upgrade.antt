-- ===== src/Web/Upgrade.antt =====
-- Which session and which ticket open a WebSocket: `issue_ticket` and `open_socket` of
-- crates/lodger/src/auth.rs together.
use lodger.Db.{Text, Session}
use lodger.Db.Queries.{session}
use lodger.Prelude.Equality.{text_eq}
use lodger.Prelude.{
  ℕ, ◌+◌, ◌≤◌, ◌<◌, ◌≡◌, sym, ap, ◌∙◌, ◌↔◌, ◌≢◌, true, false, List, Result-cases, Option, some,
  none, Option-cases, ok, arith, Bool-cases, inl, inr, text, subst,
}
use lodger.Tickets.{Tickets, lifetime, issued, Issued-cases, issue, store, redeem}
use lodger.Tickets.Laws.{IsBounded, Call, run, run-IsBounded, issue-IsBounded}
use lodger.Tickets.Lifetime.{Unrelated, last, NeverIssued, issue-redeem, redeem-redeem}
use lodger.Web.{
  HeaderMap, Crates, Conditions, AppState, ticket_info, ticket_draw, reply, error, header_text,
}
use lodger.Web.Cookie.{session_key}
use lodger.Web.Session.{find_session, lookup}
use lodger.Web.Socket.{issue_ticket, use_ticket, open_socket}

module _ (lib : Crates) where
  abbrev origin_of : HeaderMap → Option Text
  origin_of headers = header_text lib headers (text "origin")

  issued-drawn :
      (key : ℕ) (origin : Option Text) (now : ℕ) (drawn t : Text) (s : Tickets)
      → (issue lib.sha256 key origin now (some drawn) s).1 ≡ issued t
      → drawn ≡ t
  unfolding issue store
  issued-drawn key origin now drawn t s h = ground arith

  -- A 201 of `issue_ticket` carries the text that was drawn, stored under the request's session.
  issue_ticket-issued :
      (c : Conditions) (headers : HeaderMap) (key : ℕ) (ticket : Text) (s : AppState)
      → session_key lib headers ≡ some key
      → (issue_ticket lib c headers s).1 ≡ reply 201 (ticket_info ticket)
      → let made = issue lib.sha256 key (origin_of headers) c.instant (some ticket) s.tickets in
        (made.1 ≡ issued ticket) × ((issue_ticket lib c headers s).0.tickets ≡ made.0)
  unfolding issue_ticket reply error issue
  issue_ticket-issued c headers key ticket s found done =
      elim (Option-cases (c.random ticket_draw)) [
        | inl failed ↦ absurd (ground (arith, found, failed, done))
        | inr (drawn, random) ↦
            let made = issue lib.sha256 key (origin_of headers) c.instant (some drawn) s.tickets in
            elim (Issued-cases made.1) [
              | inl refused ↦ absurd (ground (arith, found, random, refused, done))
              | inr (inl refused) ↦ absurd (ground (arith, found, random, refused, done))
              | inr (inr (t, stored)) ↦
                  let same : t ≡ ticket = ground (arith, found, random, stored, done) in
                  let own =
                    issued-drawn key (origin_of headers) c.instant drawn t s.tickets stored in
                  let equal : drawn ≡ ticket = own ∙ same in
                  (
                    subst
                        (λ k.
                          (issue lib.sha256 key (origin_of headers) c.instant (some k) s.tickets).1
                          ≡ issued k)
                        equal (stored ∙ ap issued (sym own)),
                    ground (arith, found, random, equal),
                  )
            ]
      ]

  use_ticket-eq :
      (c : Conditions) (headers : HeaderMap) (ticket : Text) (key : ℕ) (s : AppState)
      → session_key lib headers ≡ some key
      → ((use_ticket lib c headers (some ticket) s).1 ≡ ok key)
        ↔ ((redeem lib.sha256 ticket key (origin_of headers) c.instant s.tickets).1 ≡ true)
  unfolding use_ticket
  use_ticket-eq c headers ticket key s found =
      elim (Bool-cases (redeem lib.sha256 ticket key (origin_of headers) c.instant s.tickets).1) [
        | inl right ↦ ground (arith, found, right)
        | inr wrong ↦ ground (arith, found, wrong)
      ]

  lookup-tickets :
      (c : Conditions) (headers : HeaderMap) (s : AppState)
      → (lookup lib c headers s).0.tickets ≡ s.tickets
  unfolding lookup find_session
  lookup-tickets c headers s = ground arith

  open_socket-tickets :
      (c : Conditions) (headers : HeaderMap) (ticket : Text) (key : ℕ) (s : AppState)
      (session : Session)
      → session_key lib headers ≡ some key
      → (lookup lib c headers s).1 ≡ ok (some session)
      → (open_socket lib c headers (some ticket) s).0.tickets
        ≡ (redeem lib.sha256 ticket key (origin_of headers) c.instant s.tickets).0
  unfolding open_socket use_ticket
  open_socket-tickets c headers ticket key s session known live =
      ground (arith, known, live, lookup-tickets c headers s)

  -- A ticket that is not in the store opens no socket.
  open_socket-closed :
      (c : Conditions) (headers : HeaderMap) (ticket : Text) (s : AppState)
      → ((key : ℕ)
          → (redeem lib.sha256 ticket key (origin_of headers) c.instant s.tickets).1 ≡ false)
      → (k : ℕ) → (open_socket lib c headers (some ticket) s).1 ≢ ok k
  unfolding open_socket use_ticket
  open_socket-closed c headers ticket s closed k opened =
      elim (Result-cases (lookup lib c headers s).1) [
        | inr (e, failed) ↦ ground (arith, opened, failed)
        | inl (none, found) ↦ ground (arith, opened, found)
        | inl (some session, found) ↦ elim (Option-cases (session_key lib headers)) [
          | inl missing ↦ ground (arith, opened, found, missing)
          | inr (key, known) ↦
              let absent =
                ap (λ x. (redeem lib.sha256 ticket key (origin_of headers) c.instant x).1)
                  (lookup-tickets c headers s)
                ∙ closed key in
              ground (arith, opened, found, known, absent)
        ]
      ]

  -- Take a ticket that `issue_ticket` gave a session, from a valid store, and a later state whose
  -- tickets come of any calls in the order of a clock that issue and redeem tickets of other
  -- hashes. At a request that the session check lets through, the ticket opens a socket exactly
  -- for the same session, from a page of the same `Origin`, and in less than 30 seconds. Whether
  -- it did or not, it opens none at any request after that, after any further calls on the tickets
  -- that do not issue its hash again.
  pub issue_ticket-open_socket :
      (c c' c'' : Conditions) (headers headers' headers'' : HeaderMap) (key key' : ℕ)
      (ticket : Text) (s t u : AppState) (session : Session) (cs cs' : List Call)
      → IsBounded s.tickets
      → session_key lib headers ≡ some key
      → session_key lib headers' ≡ some key'
      → (issue_ticket lib c headers s).1 ≡ reply 201 (ticket_info ticket)
      → t.tickets ≡ run lib.sha256 (issue_ticket lib c headers s).0.tickets cs
      → Unrelated lib.sha256 (lib.sha256 ticket) c.instant cs
      → last lib.sha256 c.instant cs ≤ c'.instant
      → (lookup lib c' headers' t).1 ≡ ok (some session)
      → u.tickets ≡ run lib.sha256 (open_socket lib c' headers' (some ticket) t).0.tickets cs'
      → NeverIssued lib.sha256 (lib.sha256 ticket) cs'
      → (((open_socket lib c' headers' (some ticket) t).1 ≡ ok key') ↔ (
          (key ≡ key')
          × (header_text lib headers (text "origin") ≡ header_text lib headers' (text "origin"))
          × (c'.instant < c.instant + lifetime)))
        × ((k : ℕ) → (open_socket lib c'' headers'' (some ticket) u).1 ≢ ok k)
  unfolding open_socket
  issue_ticket-open_socket c c' c'' headers headers' headers'' key key' ticket s t u session cs cs'
        v known known' done between order le live after never =
      let (stored, tickets) = issue_ticket-issued c headers key ticket s known done in
      let law =
        issue-redeem lib.sha256 key key' (origin_of headers) (origin_of headers') c.instant
          c'.instant ticket s.tickets cs v stored order le in
      let made = (issue lib.sha256 key (origin_of headers) c.instant (some ticket) s.tickets).0 in
      let same : t.tickets ≡ run lib.sha256 made cs =
        between ∙ ap (λ x. run lib.sha256 x cs) tickets in
      let bounded : IsBounded t.tickets = subst IsBounded (sym same) (
        run-IsBounded lib.sha256 made cs (
          issue-IsBounded lib.sha256 key (origin_of headers) c.instant (some ticket) s.tickets
            v)) in
      let used = use_ticket-eq c' headers' ticket key' (lookup lib c' headers' t).0 known' in
      let looked = lookup-tickets c' headers' t ∙ same in
      let opened : (open_socket lib c' headers' (some ticket) t).1
          ≡ (use_ticket lib c' headers' (some ticket) (lookup lib c' headers' t).0).1 =
        ground (arith, live) in
      let left =
        after
        ∙ ap (λ x. run lib.sha256 x cs')
            (open_socket-tickets c' headers' ticket key' t session known' live) in
      (
        ground (arith, opened, used, looked, law),
        open_socket-closed c'' headers'' ticket u λ k.
            ap (λ x. (redeem lib.sha256 ticket k (origin_of headers'') c''.instant x).1) left
            ∙ redeem-redeem lib.sha256 ticket key' k (origin_of headers') (origin_of headers'')
                c'.instant c''.instant t.tickets cs' bounded never,
      )
