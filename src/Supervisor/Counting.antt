-- ===== src/Supervisor/Counting.antt =====
-- Each run of the supervisor's calls, crates/lodger-virt/src/supervisor.rs, counts its full loads.
use lodger.Host.{VirtError, ◌>>=◌}
use lodger.Inventory.{
  InventoryApi, Shared, Received, event, lagged, hub_closed, Event, closed, domain, pool, network,
  Next, reload, receive, load, refresh,
}
use lodger.Prelude.{ℕ, suc, ◌≤◌, ◌≡◌, ap, List, ok, arith, inl, inr, Result-cases}

module _ {S Vm Pool Network : Type 0} (api : InventoryApi S Vm Pool Network)
    (message : VirtError → List ℕ) where
  pub reload-count :
      (shared after : Shared Vm Pool Network) (h : S)
      → (reload api shared h).1 ≡ ok after
      → suc shared.reloads ≡ after.reloads
  unfolding reload ◌>>=◌
  reload-count shared after h done = elim (Result-cases (load api h).1) [
    | inl (inv, loaded) ↦
        let same : record shared { inventory = inv; reloads = suc shared.reloads } ≡ after =
          ground (arith, loaded, done) in
        ap (λ (x : Shared Vm Pool Network). x.reloads) same
    | inr (e, failed) ↦ absurd (ground (arith, failed, done))
  ]

  refreshed-count :
      (e : Event) (shared after : Shared Vm Pool Network) (next : Next) (h : S)
      → (receive api (event e) shared h).1 ≡ ok (after, next)
      → shared.reloads ≡ after.reloads
  unfolding receive ◌>>=◌
  refreshed-count (closed why) shared after next h done = ground (arith, done)
  refreshed-count (domain id) shared after next h done =
      elim (Result-cases (refresh api (domain id) h).1) [
        | inl (found, read) ↦ ground (arith, read, done)
        | inr (e, failed) ↦ absurd (ground (arith, failed, done))
      ]
  refreshed-count (pool id) shared after next h done =
      elim (Result-cases (refresh api (pool id) h).1) [
        | inl (found, read) ↦ ground (arith, read, done)
        | inr (e, failed) ↦ absurd (ground (arith, failed, done))
      ]
  refreshed-count (network id) shared after next h done =
      elim (Result-cases (refresh api (network id) h).1) [
        | inl (found, read) ↦ ground (arith, read, done)
        | inr (e, failed) ↦ absurd (ground (arith, failed, done))
      ]

  pub receive-count :
      (r : Received) (shared after : Shared Vm Pool Network) (next : Next) (h : S)
      → (receive api r shared h).1 ≡ ok (after, next)
      → shared.reloads ≤ after.reloads
  unfolding receive ◌>>=◌
  receive-count (event e) shared after next h done =
      omega (arith, refreshed-count e shared after next h done)
  receive-count hub_closed shared after next h done = ground (arith, done)
  receive-count lagged shared after next h done = elim (Result-cases (reload api shared h).1) [
    | inl (loaded, again) ↦
        let count = reload-count shared loaded h again in
        let same : loaded ≡ after = ground (arith, again, done) in
        let more : loaded.reloads ≡ after.reloads =
          ap (λ (x : Shared Vm Pool Network). x.reloads) same in
        omega (arith, count, more)
    | inr (e, failed) ↦ absurd (ground (arith, failed, done))
  ]
