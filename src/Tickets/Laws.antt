-- ===== src/Tickets/Laws.antt =====
-- The tickets of crates/lodger/src/tickets.rs over a history of calls: number and distinct hashes.
use lodger.Map.{retain, contains_key}
use lodger.Map.Laws.{
  Distinct, length-insert, length-remove-le, length-retain-le, insert-Distinct, remove-Distinct,
  retain-Distinct,
}
use lodger.Prelude.Equality.{nat_eq, text_eq, option_beq_iff}
use lodger.Prelude.{
  ℕ, ◌+◌, ◌≤◌, ◌<◌, ◌≡◌, ◌↔◌, true, Option, none, some, List, [], ◌∷◌, arith, length, ltb,
}
use lodger.Tickets.{Ticket, Tickets, lifetime, max_tickets, opens, store, issue, redeem}

pub record IsBounded (s : Tickets) : Type 0 where
  pub distinct : Distinct s
  pub room : length s ≤ max_tickets

pub opens_iff :
    (session : ℕ) (origin : Option (List ℕ)) (now : ℕ) (t : Ticket)
    → (opens session origin now t ≡ true)
      ↔ ((t.session ≡ session) × (t.origin ≡ origin) × (now < t.expires))
unfolding opens
opens_iff session origin now t = ground (arith, option_beq_iff t.origin origin)

-- The calls that share the tickets.
pub data Call : Type 0 where
  issues : (session : ℕ) (origin : Option (List ℕ)) (now : ℕ) (random : Option (List ℕ)) → Call
  redeems : (ticket : List ℕ) (session : ℕ) (origin : Option (List ℕ)) (now : ℕ) → Call

module _ (sha256 : List ℕ → ℕ) where
  pub store-IsBounded :
      (session : ℕ) (origin : Option (List ℕ)) (now : ℕ) (ticket : List ℕ) (s : Tickets)
      → IsBounded s
      → IsBounded (store sha256 session origin now ticket s).0
  unfolding store contains_key
  store-IsBounded session origin now ticket s v =
      let entry : Ticket = record {
        session = session;
        origin = origin;
        expires = now + lifetime;
      } in
      let kept = retain-Distinct (λ t. ltb now t.expires) s v.distinct in
      ground (
        arith,
        kept,
        length-retain-le (λ (t : Ticket). ltb now t.expires) s,
        insert-Distinct (sha256 ticket) entry s v.distinct,
        insert-Distinct (sha256 ticket) entry (retain (λ t. ltb now t.expires) s) kept,
        length-insert (sha256 ticket) entry s,
        length-insert (sha256 ticket) entry (retain (λ t. ltb now t.expires) s),
      )

  pub issue-IsBounded :
      (session : ℕ) (origin : Option (List ℕ)) (now : ℕ) (random : Option (List ℕ)) (s : Tickets)
      → IsBounded s
      → IsBounded (issue sha256 session origin now random s).0
  unfolding issue
  issue-IsBounded session origin now none s v = v
  issue-IsBounded session origin now (some ticket) s v =
      store-IsBounded session origin now ticket s v

  pub redeem-IsBounded :
      (ticket : List ℕ) (session : ℕ) (origin : Option (List ℕ)) (now : ℕ) (s : Tickets)
      → IsBounded s
      → IsBounded (redeem sha256 ticket session origin now s).0
  unfolding redeem
  redeem-IsBounded ticket session origin now s v =
      ground
        (arith, remove-Distinct (sha256 ticket) s v.distinct, length-remove-le (sha256 ticket) s)

  unfoldable pub step : Tickets → Call → Tickets
  step s (issues session origin now random) = (issue sha256 session origin now random s).0
  step s (redeems ticket session origin now) = (redeem sha256 ticket session origin now s).0

  unfoldable pub run : Tickets → List Call → Tickets
  unfolding step
  run s [] = s
  run s (c ∷ cs) = run (step s c) cs

  -- Any calls on at most 10,000 tickets of distinct hashes leave at most 10,000 of distinct hashes.
  pub run-IsBounded : (s : Tickets) (cs : List Call) → IsBounded s → IsBounded (run s cs)
  unfolding run
  run-IsBounded s [] v = v
  run-IsBounded s (issues session origin now random ∷ cs) v =
      run-IsBounded (issue sha256 session origin now random s).0 cs
        (issue-IsBounded session origin now random s v)
  run-IsBounded s (redeems ticket session origin now ∷ cs) v =
      run-IsBounded (redeem sha256 ticket session origin now s).0 cs
        (redeem-IsBounded ticket session origin now s v)
