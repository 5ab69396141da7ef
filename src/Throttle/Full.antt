-- ===== src/Throttle/Full.antt =====
-- `Throttle::begin` of crates/lodger/src/throttle.rs where a map is full of live keys.
use lodger.Map.{get, contains_key, retain}
use lodger.Net.{IpAddr, ip_eq}
use lodger.Prelude.Equality.{Eq, text_eq}
use lodger.Prelude.{ℕ, ◌≤◌, ◌≡◌, sym, subst, none, List, [], ◌∷◌, arith, length, All}
use lodger.Throttle.{
  Entry, Throttle, Turn, granted, max_keys, max_delay, is_live, entry, take_turn, ip_key, begin,
  both_failures,
}
use lodger.Throttle.Delay.{delay_for_max}

-- A new key finds no room, not even after the keys that are not live are dropped.
pub record IsFull {ℓ} {K : Type ℓ} ⦃e : Eq K⦄ (k : K) (now : ℕ) (m : List (K × Entry))
    : Type ℓ where
  pub absent : get k m ≡ none
  pub crowded : max_keys ≤ length m
  pub live : retain (is_live now) m ≡ m

entry-IsFull {ℓ} :
    {K : Type ℓ} ⦃e : Eq K⦄ (k : K) (now : ℕ) (m : List (K × Entry))
    → IsFull k now m
    → entry k now m ≡ (m, none)
unfolding entry contains_key
entry-IsFull k now m f =
    let crowded = f.crowded in
    let absent = f.absent in let live = f.live in ground (arith, crowded, absent, live)

module _ (to_lowercase : List ℕ → List ℕ) where
  -- A map that cannot count the key of the IP gives the longest wait, whatever the account.
  pub begin-IsFull :
      (account : List ℕ) (ip : IpAddr) (now : ℕ) (s : Throttle)
      → IsFull (ip_key ip) now s.ips
      → ((begin to_lowercase account ip now s).1
          ≡ granted (record { wait = max_delay; failures = max_keys; at = now }))
        × ((begin to_lowercase account ip now s).0.ips ≡ s.ips)
  unfolding begin take_turn both_failures
  begin-IsFull account ip now s f =
      rw (entry-IsFull (ip_key ip) now s.ips f, both_failures) (ground (arith, delay_for_max))

  -- The answers to a burst of attempts from one IP, all at one instant.
  unfoldable pub burst : List (List ℕ) → IpAddr → ℕ → Throttle → List Turn
  burst [] ip now s = []
  burst (account ∷ accounts) ip now s =
      let (s', turn) = begin to_lowercase account ip now s in turn ∷ burst accounts ip now s'

  -- Attempts from an IP that a map full of live keys does not count do not queue: all of a burst, of
  -- any length, get a turn, and all start at the same instant, 60 seconds later.
  pub burst-IsFull :
      (accounts : List (List ℕ)) (ip : IpAddr) (now : ℕ) (s : Throttle)
      → IsFull (ip_key ip) now s.ips
      → All
          (λ t. t ≡ granted (record { wait = max_delay; failures = max_keys; at = now }))
          (burst accounts ip now s)
  unfolding burst
  burst-IsFull [] ip now s f = tt
  burst-IsFull (account ∷ accounts) ip now s f =
      let (turn, same) = begin-IsFull account ip now s f in
      (turn, burst-IsFull accounts ip now _ (subst (IsFull (ip_key ip) now) (sym same) f))
