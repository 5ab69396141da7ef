-- ===== src/Throttle/Spec.antt =====
-- What `Throttle::begin` of crates/lodger/src/throttle.rs answers, against a specification by the
-- attempts in the window and the queue of the IP; the invariants over any history; and `succeed`.
use lodger.Map.{get, contains_key}
use lodger.Map.Laws.{length-retain-le, AllValues, get-AllValues}
use lodger.Net.{IpAddr, ip_eq}
use lodger.Prelude.Equality.{Eq, text_eq}
use lodger.Prelude.{
  ℕ, ◌<◌, ◌≡◌, refl, sym, ap, ◌∙◌, max, true, ◌⊎◌, Option, some, List, [], arith, length,
  Option-cases, inl, inr,
}
use lodger.Throttle.{
  Entry, Throttle, max_keys, drop_old, touch, entry, both_failures, account_key, ip_key, begin,
  is_live,
}
use lodger.Throttle.Counts.{
  times_of, next_start, entry_cases, entry-own, entry-next_start, entry-times,
}
use lodger.Throttle.Bounds.{IsValid}
use lodger.Throttle.Turns.{queue_start, recent, take_turn-eq, answer}
use lodger.Throttle.Window.{in_window, InOrder, drop_old-eq-in_window}

-- The map counts the key, or has room to.
abbrev pub HasRoom {ℓ} : {K : Type ℓ} ⦃e : Eq K⦄ → K → List (K × Entry) → Type 0
HasRoom k m = (contains_key k m ≡ true) ⊎ (length m < max_keys)

entry-some {ℓ} :
    {K : Type ℓ} ⦃e : Eq K⦄ (k : K) (now : ℕ) (m : List (K × Entry))
    → HasRoom k m
    → (x : Entry) × ((entry k now m).1 ≡ some x)
unfolding touch
entry-some k now m h =
    entry_cases (λ r. (x : Entry) × (r.1 ≡ some x)) k now m
      (λ absent full. absurd (ground (arith, length-retain-le (is_live now) m))) (λ _ _. (_, refl))
      (λ _. (_, refl))

pub record IsTimed (now : ℕ) (s : Throttle) : Type 0 where
  pub accounts_order : AllValues (InOrder now) s.accounts
  pub ips_order : AllValues (InOrder now) s.ips

drop_old-nil : (now : ℕ) → length (drop_old now []) ≡ 0
unfolding drop_old
drop_old-nil now = refl

-- The attempts of a key in the window.
abbrev pub counted : ℕ → Option Entry → ℕ
counted now o = length (in_window now (times_of o))

pub recent-counted {ℓ} :
    {K : Type ℓ} ⦃e : Eq K⦄ (k : K) (now : ℕ) (m : List (K × Entry))
    → AllValues (InOrder now) m
    → recent now (get k m) ≡ counted now (get k m)
recent-counted k now m o = elim (Option-cases (get k m)) [
  | inl missing ↦ rw missing (drop_old-nil now)
  | inr (x, found) ↦
      rw found
        (ap length (drop_old-eq-in_window now x.times (get-AllValues (InOrder now) k m o found).0))
]

module _ (to_lowercase : List ℕ → List ℕ) where
  -- The failures that an attempt is charged with.
  abbrev pub failures_of : List ℕ → IpAddr → ℕ → Throttle → ℕ
  failures_of account ip now s =
      max (counted now (get (account_key to_lowercase account) s.accounts))
        (counted now (get (ip_key ip) s.ips))

  -- From a valid state whose times are in order, and while each map has the key or room for it, the
  -- answer of `begin` is the specified function of the number of attempts in the window, for the
  -- account or for the IP, whichever has more, and of the start of the IP's queue.
  pub begin-eq :
      (account : List ℕ) (ip : IpAddr) (now : ℕ) (s : Throttle)
      → IsValid s
      → IsTimed now s
      → HasRoom (account_key to_lowercase account) s.accounts
      → HasRoom (ip_key ip) s.ips
      → (begin to_lowercase account ip now s).1
        ≡ answer now (failures_of account ip now s) (queue_start ip now s)
  unfolding begin both_failures
  begin-eq account ip now s v o room ip_room =
      let (a, known) = entry-some (account_key to_lowercase account) now s.accounts room in
      let (i, ip_known) = entry-some (ip_key ip) now s.ips ip_room in
      let charged : length a.times
          ≡ counted now (get (account_key to_lowercase account) s.accounts) =
        ap length (entry-times _ now s.accounts v.accounts_distinct known)
        ∙ recent-counted (account_key to_lowercase account) now s.accounts o.accounts_order in
      let ip_charged : length i.times ≡ counted now (get (ip_key ip) s.ips) =
        ap length (entry-times _ now s.ips v.ips_distinct ip_known)
        ∙ recent-counted (ip_key ip) now s.ips o.ips_order in
      let queued : next_start now (some i) ≡ queue_start ip now s =
        ap (next_start now) (sym (entry-own (ip_key ip) now s.ips v.ips_distinct ∙ ip_known))
        ∙ entry-next_start (ip_key ip) (ip_key ip) now s.ips v.ips_distinct in
      rw (known, ip_known, charged, ip_charged)
        (take_turn-eq _ (ip_key ip) now _ _ i ∙ ap (answer now _) queued)
