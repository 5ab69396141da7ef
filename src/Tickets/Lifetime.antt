-- ===== src/Tickets/Lifetime.antt =====
-- What one ticket of crates/lodger/src/tickets.rs opens, over any history of calls.
use lodger.Map.{get, retain}
use lodger.Map.Laws.{Distinct, get-insert, get-remove, get-retain}
use lodger.Prelude.Equality.{nat_eq, text_eq}
use lodger.Prelude.{
  ℕ, ◌+◌, ◌≤◌, ◌<◌, ◌≡◌, refl, ◌≢◌, ◌↔◌, ◌⊎◌, inl, inr, true, false, Option, none, some, List, [],
  ◌∷◌, arith, ltb,
}
use lodger.Tickets.{Ticket, Tickets, issued, lifetime, store, issue, redeem}
use lodger.Tickets.Laws.{
  IsBounded, opens_iff, Call, issues, redeems, store-IsBounded, redeem-IsBounded, run,
}

module _ (sha256 : List ℕ → ℕ) where
  -- No call of the history is about the ticket with hash `h`, and the clock does not go back.
  abbrev pub Unrelated : (h now : ℕ) → List Call → Type 0
  Unrelated h now [] = Unit
  Unrelated h now (issues session origin t none ∷ cs) = (now ≤ t) × Unrelated h t cs
  Unrelated h now (issues session origin t (some ticket) ∷ cs) =
      (now ≤ t) × (sha256 ticket ≢ h) × Unrelated h t cs
  Unrelated h now (redeems ticket session origin t ∷ cs) =
      (now ≤ t) × (sha256 ticket ≢ h) × Unrelated h t cs

  abbrev pub last : ℕ → List Call → ℕ
  last now [] = now
  last now (issues session origin t random ∷ cs) = last t cs
  last now (redeems ticket session origin t ∷ cs) = last t cs

  -- The ticket is there, or it was dropped after its end.
  abbrev Holds : (h : ℕ) → Ticket → (now : ℕ) → Tickets → Type 0
  Holds h t now s = (get h s ≡ some t) ⊎ ((get h s ≡ none) × (t.expires ≤ now))

  store-Holds :
      (h : ℕ) (t : Ticket) (session : ℕ) (origin : Option (List ℕ)) (now : ℕ) (ticket : List ℕ)
      (s : Tickets)
      → Distinct s
      → sha256 ticket ≢ h
      → Holds h t now s
      → Holds h t now (store sha256 session origin now ticket s).0
  unfolding store
  store-Holds h t session origin now ticket s d other held =
      let entry : Ticket = record {
        session = session;
        origin = origin;
        expires = now + lifetime;
      } in
      ground (
        arith,
        get-insert (sha256 ticket) h entry s,
        get-insert (sha256 ticket) h entry (retain (λ t. ltb now t.expires) s),
        get-retain (λ t. ltb now t.expires) h s d,
      )

  Holds-mono :
      (h : ℕ) (t : Ticket) (now later : ℕ) (s : Tickets)
      → now ≤ later
      → Holds h t now s
      → Holds h t later s
  Holds-mono h t now later s le held = ground arith

  redeem-Holds :
      (h : ℕ) (t : Ticket) (ticket : List ℕ) (session : ℕ) (origin : Option (List ℕ)) (now : ℕ)
      (s : Tickets)
      → Distinct s
      → sha256 ticket ≢ h
      → Holds h t now s
      → Holds h t now (redeem sha256 ticket session origin now s).0
  unfolding redeem
  redeem-Holds h t ticket session origin now s d other held =
      ground (arith, get-remove (sha256 ticket) h s d)

  run-Holds :
      (h : ℕ) (t : Ticket) (now : ℕ) (s : Tickets) (cs : List Call)
      → IsBounded s
      → Unrelated h now cs
      → Holds h t now s
      → IsBounded (run sha256 s cs) × Holds h t (last now cs) (run sha256 s cs)
  unfolding run issue
  run-Holds h t now s [] v u held = (v, held)
  run-Holds h t now s (issues session origin at none ∷ cs) v (le, u) held =
      run-Holds h t at s cs v u (Holds-mono h t now at s le held)
  run-Holds h t now s (issues session origin at (some ticket) ∷ cs) v (le, other, u) held =
      run-Holds h t at _ cs (store-IsBounded sha256 session origin at ticket s v) u (
        store-Holds h t session origin at ticket s v.distinct other
          (Holds-mono h t now at s le held))
  run-Holds h t now s (redeems ticket session origin at ∷ cs) v (le, other, u) held =
      run-Holds h t at _ cs (redeem-IsBounded sha256 ticket session origin at s v) u (
        redeem-Holds h t ticket session origin at s v.distinct other
          (Holds-mono h t now at s le held))

  store-own :
      (session : ℕ) (origin : Option (List ℕ)) (now : ℕ) (ticket : List ℕ) (s : Tickets)
      → (store sha256 session origin now ticket s).1 ≡ issued ticket
      → get (sha256 ticket) (store sha256 session origin now ticket s).0
        ≡ some (record { session = session; origin = origin; expires = now + lifetime })
  unfolding store
  store-own session origin now ticket s g =
      let entry : Ticket = record {
        session = session;
        origin = origin;
        expires = now + lifetime;
      } in
      ground (
        arith,
        get-insert (sha256 ticket) (sha256 ticket) entry s,
        get-insert (sha256 ticket) (sha256 ticket) entry (retain (λ t. ltb now t.expires) s),
      )

  -- From a valid store, an issued ticket opens a socket exactly for the session and the `Origin`
  -- that asked for it and for less than 30 seconds, after any calls in the order of a clock that
  -- issue and redeem tickets of other hashes.
  pub issue-redeem :
      (session session' : ℕ) (origin origin' : Option (List ℕ)) (now later : ℕ) (ticket : List ℕ)
      (s : Tickets) (cs : List Call)
      → IsBounded s
      → (issue sha256 session origin now (some ticket) s).1 ≡ issued ticket
      → Unrelated (sha256 ticket) now cs
      → last now cs ≤ later
      → ((redeem sha256 ticket session' origin' later
            (run sha256 (issue sha256 session origin now (some ticket) s).0 cs)).1
          ≡ true)
        ↔ ((session ≡ session') × (origin ≡ origin') × (later < now + lifetime))
  unfolding redeem issue
  issue-redeem session session' origin origin' now later ticket s cs v g u le =
      let t : Ticket = record { session = session; origin = origin; expires = now + lifetime } in
      let s' = run sha256 (store sha256 session origin now ticket s).0 cs in
      let held =
        (run-Holds (sha256 ticket) t now _ cs (store-IsBounded sha256 session origin now ticket s v)
          u (inl (store-own session origin now ticket s g))).1 in
      ground (arith, held, opens_iff session' origin' later t)

  -- No call issues a ticket with hash `h`.
  abbrev pub NeverIssued : ℕ → List Call → Type 0
  NeverIssued h [] = Unit
  NeverIssued h (issues session origin t none ∷ cs) = NeverIssued h cs
  NeverIssued h (issues session origin t (some ticket) ∷ cs) =
      (sha256 ticket ≢ h) × NeverIssued h cs
  NeverIssued h (redeems ticket session origin t ∷ cs) = NeverIssued h cs

  redeem_absent :
      (ticket : List ℕ) (session : ℕ) (origin : Option (List ℕ)) (now : ℕ) (s : Tickets)
      → get (sha256 ticket) s ≡ none
      → (redeem sha256 ticket session origin now s).1 ≡ false
  unfolding redeem
  redeem_absent ticket session origin now s gone = rw gone

  store-gone :
      (h session : ℕ) (origin : Option (List ℕ)) (now : ℕ) (ticket : List ℕ) (s : Tickets)
      → Distinct s
      → sha256 ticket ≢ h
      → get h s ≡ none
      → get h (store sha256 session origin now ticket s).0 ≡ none
  unfolding store
  store-gone h session origin now ticket s d other gone =
      let entry : Ticket = record {
        session = session;
        origin = origin;
        expires = now + lifetime;
      } in
      ground (
        arith,
        get-insert (sha256 ticket) h entry s,
        get-insert (sha256 ticket) h entry (retain (λ t. ltb now t.expires) s),
        get-retain (λ t. ltb now t.expires) h s d,
      )

  redeem-gone :
      (h : ℕ) (ticket : List ℕ) (session : ℕ) (origin : Option (List ℕ)) (now : ℕ) (s : Tickets)
      → Distinct s
      → (sha256 ticket ≡ h) ⊎ (get h s ≡ none)
      → get h (redeem sha256 ticket session origin now s).0 ≡ none
  unfolding redeem
  redeem-gone h ticket session origin now s d gone =
      ground (arith, get-remove (sha256 ticket) h s d)

  run-gone :
      (h : ℕ) (s : Tickets) (cs : List Call)
      → IsBounded s
      → NeverIssued h cs
      → get h s ≡ none
      → get h (run sha256 s cs) ≡ none
  unfolding run issue
  run-gone h s [] v u gone = gone
  run-gone h s (issues session origin now none ∷ cs) v u gone = run-gone h s cs v u gone
  run-gone h s (issues session origin now (some ticket) ∷ cs) v (other, u) gone =
      run-gone h (store sha256 session origin now ticket s).0 cs
        (store-IsBounded sha256 session origin now ticket s v) u
        (store-gone h session origin now ticket s v.distinct other gone)
  run-gone h s (redeems ticket session origin now ∷ cs) v u gone =
      run-gone h (redeem sha256 ticket session origin now s).0 cs
        (redeem-IsBounded sha256 ticket session origin now s v) u
        (redeem-gone h ticket session origin now s v.distinct (inr gone))

  -- From a valid store, a ticket is gone after one attempt, right or wrong: after any calls that do
  -- not issue its hash again, a second attempt fails, for any session and `Origin`.
  pub redeem-redeem :
      (ticket : List ℕ) (session session' : ℕ) (origin origin' : Option (List ℕ)) (now later : ℕ)
      (s : Tickets) (cs : List Call)
      → IsBounded s
      → NeverIssued (sha256 ticket) cs
      → (redeem sha256 ticket session' origin' later
          (run sha256 (redeem sha256 ticket session origin now s).0 cs)).1
        ≡ false
  redeem-redeem ticket session session' origin origin' now later s cs v u =
      let first = redeem-gone (sha256 ticket) ticket session origin now s v.distinct (inl refl) in
      let gone =
        run-gone (sha256 ticket) _ cs (redeem-IsBounded sha256 ticket session origin now s v) u
          first in
      redeem_absent ticket session' origin' later _ gone
