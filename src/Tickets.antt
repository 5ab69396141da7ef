-- ===== src/Tickets.antt =====
-- crates/lodger/src/tickets.rs: single-use tickets for a WebSocket upgrade. Instants are numbers of
-- nanoseconds, and a 32-byte hash is a number. SHA-256 (the crate `sha2`) is a parameter; so are the
-- random bytes in hex that a call draws (`getrandom`, `hex`), where `none` is a failed draw. The
-- mutex makes each call one step.
pub mod Laws
pub mod Lifetime
pub mod Tests
use lodger.Map.{get, insert, remove, retain}
use lodger.Prelude.Equality.{nat_eq, text_eq, option_beq}
use lodger.Prelude.{
  ℕ, ◌+◌, ◌*◌, ◌≡◌, refl, ◌⊎◌, inl, inr, Bool, ◌&&◌, Option, none, some, List, length, ltb, leb,
  ◌==◌, if◌then◌else◌, is_some_and,
}

abbrev pub lifetime : ℕ
lifetime = 30 * 1_000_000_000

abbrev pub max_tickets : ℕ
max_tickets = 10_000

pub record Ticket : Type 0 where
  pub session : ℕ
  pub origin : Option (List ℕ)
  pub expires : ℕ

abbrev pub Tickets : Type 0
Tickets = List (ℕ × Ticket)

-- The results of `issue`: `Err`, `Ok(None)` and `Ok(Some(ticket))`.
pub data Issued : Type 0 where
  no_random : Issued
  too_many : Issued
  issued : List ℕ → Issued

pub Issued-cases :
    (r : Issued) → (r ≡ no_random) ⊎ ((r ≡ too_many) ⊎ ((t : List ℕ) × (r ≡ issued t)))
Issued-cases no_random = inl refl
Issued-cases too_many = inr (inl refl)
Issued-cases (issued t) = inr (inr (t, refl))

-- The test of `redeem` on the ticket that it found.
unfoldable pub opens : (session : ℕ) → (origin : Option (List ℕ)) → (now : ℕ) → Ticket → Bool
opens session origin now t = t.session == session && option_beq t.origin origin && ltb now t.expires

module _ (sha256 : List ℕ → ℕ) where
  -- `Tickets::issue`, once the random text is drawn.
  unfoldable pub store :
      (session : ℕ) (origin : Option (List ℕ)) (now : ℕ) (ticket : List ℕ)
      → Tickets
      → Tickets × Issued
  store session origin now ticket s =
      let entry : Ticket = record {
        session = session;
        origin = origin;
        expires = now + lifetime;
      } in
      let kept = retain (λ t. ltb now t.expires) s in
      if leb max_tickets (length s)
      then if leb max_tickets (length kept)
        then (kept, too_many)
        else (insert (sha256 ticket) entry kept, issued ticket)
      else (insert (sha256 ticket) entry s, issued ticket)

  -- `Tickets::issue`.
  unfoldable pub issue :
      (session : ℕ) (origin : Option (List ℕ)) (now : ℕ) (random : Option (List ℕ))
      → Tickets
      → Tickets × Issued
  issue session origin now none s = (s, no_random)
  issue session origin now (some ticket) s = store session origin now ticket s

  -- `Tickets::redeem`.
  unfoldable pub redeem :
      (ticket : List ℕ) (session : ℕ) (origin : Option (List ℕ)) (now : ℕ)
      → Tickets
      → Tickets × Bool
  unfolding opens
  redeem ticket session origin now s =
      (remove (sha256 ticket) s, is_some_and (opens session origin now) (get (sha256 ticket) s))
