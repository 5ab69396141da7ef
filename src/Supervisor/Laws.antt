-- ===== src/Supervisor/Laws.antt =====
-- What holds in every state of the supervisor of crates/lodger-virt/src/supervisor.rs, and that it
-- connects again.
use lodger.Host.{VirtError}
use lodger.Inventory.{InventoryApi, goes_on, ends_for}
use lodger.Prelude.{
  ℕ, zero, suc, ◌+◌, ◌≤◌, ◌<◌, ◌≡◌, ◌≢◌, refl, sym, ◌⊎◌, Bool, true, false, List, arith, inl, inr,
  subst,
}
use lodger.Supervisor.{
  ConnState, connecting, connected, disconnected, Point, opening, loading, installing, reporting,
  following, clearing, disconnecting, waiting, Supervisor, start_with, Step, opens, opens_badly,
  loads, loads_badly, installs, reports, receives, ends, receives_badly, clears, disconnects, wakes,
  Reachable, starts, then,
}
use lodger.Supervisor.Counting.{reload-count, receive-count}

module _ {S Vm Pool Network : Type 0} (api : InventoryApi S Vm Pool Network)
    (message : VirtError → List ℕ) where
  -- The connection, the state and the loads that go with a point.
  abbrev pub Fits : Point → Bool → ConnState → ℕ → Type 0
  Fits opening virt state n = (virt ≡ false) × (state ≡ connecting)
  Fits loading virt state n = (virt ≡ false) × (state ≡ connecting)
  Fits installing virt state n = (virt ≡ false) × (state ≡ connecting) × (1 ≤ n)
  Fits reporting virt state n = (virt ≡ true) × (state ≡ connecting) × (1 ≤ n)
  Fits following virt state n = (virt ≡ true) × (state ≡ connected) × (1 ≤ n)
  Fits (clearing why) virt state n =
      ((virt ≡ false) × (state ≡ connecting)) ⊎ ((virt ≡ true) × (state ≡ connected) × (1 ≤ n))
  Fits (disconnecting why) virt state n =
      (virt ≡ false) × ((state ≡ connecting) ⊎ (state ≡ connected))
  Fits waiting virt state n = (virt ≡ false) × ((why : List ℕ) × (state ≡ disconnected why))

  abbrev pub IsFit : Supervisor Vm Pool Network → Type 0
  IsFit s = Fits s.point s.virt s.state s.shared.reloads

  at_point :
      (p : Point) (s : Supervisor Vm Pool Network)
      → s.point ≡ p
      → IsFit s
      → Fits p s.virt s.state s.shared.reloads
  at_point p s same fit = subst (λ q. Fits q s.virt s.state s.shared.reloads) same fit

  step-IsFit : (s t : Supervisor Vm Pool Network) → IsFit s → Step api message s t → IsFit t
  step-IsFit s _ fit (opens _ at) = at_point opening s at fit
  step-IsFit s _ fit (opens_badly _ error at) = inl (at_point opening s at fit)
  step-IsFit s _ fit (loads _ h loaded at done) =
      let (shut, dark) = at_point loading s at fit in
      (shut, dark, omega (arith, (reload-count api message) s.shared loaded h done))
  step-IsFit s _ fit (loads_badly _ h e at failed) = inl (at_point loading s at fit)
  step-IsFit s _ fit (installs _ at) =
      let (_, dark, loaded) = at_point installing s at fit in (refl, dark, loaded)
  step-IsFit s _ fit (reports _ at) =
      let (there, _, loaded) = at_point reporting s at fit in (there, refl, loaded)
  step-IsFit s _ fit (receives _ h r after at done) =
      let (there, lit, loaded) = at_point following s at fit in
      let count = (receive-count api message) r s.shared after goes_on h done in
      subst (λ p. Fits p s.virt s.state after.reloads) (sym at)
        (there, lit, omega (arith, loaded, count))
  step-IsFit s _ fit (ends _ h r after why at done) =
      let (there, lit, loaded) = at_point following s at fit in
      let count = (receive-count api message) r s.shared after (ends_for why) h done in
      inr (there, lit, omega (arith, loaded, count))
  step-IsFit s _ fit (receives_badly _ h r e at failed) = inr (at_point following s at fit)
  step-IsFit s _ fit (clears _ error at) = elim (at_point (clearing error) s at fit) [
    | inl (shut, dark) ↦ (refl, inl dark)
    | inr (there, lit, loaded) ↦ (refl, inr lit)
  ]
  step-IsFit s _ fit (disconnects _ error at) =
      let (shut, _) = at_point (disconnecting error) s at fit in (shut, (error, refl))
  step-IsFit s _ fit (wakes _ at) = let (shut, _) = at_point waiting s at fit in (shut, refl)

  -- In every state that the task reaches, an open connection comes with an inventory that was loaded,
  -- and is never seen with the state `Disconnected`; in the loop the state is `Connected` with an open
  -- connection, and in the wait it is `Disconnected` without one.
  pub Reachable-IsFit :
      (s : Supervisor Vm Pool Network)
      → Reachable api message s
      → IsFit s
        × (s.virt ≡ true → (1 ≤ s.shared.reloads) × ((why : List ℕ) → s.state ≢ disconnected why))
  unfolding start_with
  Reachable-IsFit s r = (reached s r, open_fit s.point s (reached s r))
    where
      reached : (s : Supervisor Vm Pool Network) → Reachable api message s → IsFit s
      reached _ starts = (refl, refl)
      reached t (then s _ before step) = step-IsFit s t (reached s before) step

      open_fit :
          (p : Point) (s : Supervisor Vm Pool Network)
          → Fits p s.virt s.state s.shared.reloads
          → s.virt ≡ true
          → (1 ≤ s.shared.reloads) × ((why : List ℕ) → s.state ≢ disconnected why)
      open_fit opening s (shut, dark) there = absurd (ground (arith, shut, there))
      open_fit loading s (shut, dark) there = absurd (ground (arith, shut, there))
      open_fit installing s (shut, dark, loaded) there = absurd (ground (arith, shut, there))
      open_fit reporting s (_, dark, loaded) there = (loaded, λ why e. ground (arith, dark, e))
      open_fit following s (_, lit, loaded) there = (loaded, λ why e. ground (arith, lit, e))
      open_fit (clearing w) s (inl (shut, dark)) there = absurd (ground (arith, shut, there))
      open_fit (clearing w) s (inr (_, lit, loaded)) there =
          (loaded, λ why e. ground (arith, lit, e))
      open_fit (disconnecting w) s (shut, _) there = absurd (ground (arith, shut, there))
      open_fit waiting s (shut, _) there = absurd (ground (arith, shut, there))

  -- The steps from a point to the loop when libvirt answers.
  abbrev pub distance : Point → ℕ
  distance (clearing why) = 7
  distance (disconnecting why) = 6
  distance waiting = 5
  distance opening = 4
  distance loading = 3
  distance installing = 2
  distance reporting = 1
  distance following = 0

  -- Libvirt answers the opening and the load.
  abbrev pub Answers : Supervisor Vm Pool Network → Supervisor Vm Pool Network → Type 0
  Answers s t = (s.point ≡ opening → t.point ≡ loading) × (s.point ≡ loading → t.point ≡ installing)

  step-distance :
      (s t : Supervisor Vm Pool Network)
      → Step api message s t
      → Answers s t
      → s.point ≢ following
      → distance t.point < distance s.point
  step-distance s _ (opens _ at) good away = rw at (omega arith)
  step-distance s _ (opens_badly _ error at) (good, _) away = absurd (ground (arith, good at))
  step-distance s _ (loads _ h loaded at done) good away = rw at (omega arith)
  step-distance s _ (loads_badly _ h e at failed) (_, good) away = absurd (ground (arith, good at))
  step-distance s _ (installs _ at) good away = rw at (omega arith)
  step-distance s _ (reports _ at) good away = rw at (omega arith)
  step-distance s _ (receives _ h r after at done) good away = absurd (away at)
  step-distance s _ (ends _ h r after why at done) good away = absurd (away at)
  step-distance s _ (receives_badly _ h r e at failed) good away = absurd (away at)
  step-distance s _ (clears _ error at) good away = rw at (omega arith)
  step-distance s _ (disconnects _ error at) good away = rw at (omega arith)
  step-distance s _ (wakes _ at) good away = rw at (omega arith)

  distance_max : (p : Point) → distance p ≤ 7
  distance_max following = omega arith
  distance_max opening = omega arith
  distance_max loading = omega arith
  distance_max installing = omega arith
  distance_max reporting = omega arith
  distance_max (clearing why) = omega arith
  distance_max (disconnecting why) = omega arith
  distance_max waiting = omega arith

  is_following : (p : Point) → (p ≡ following) ⊎ (p ≢ following)
  is_following following = inl refl
  is_following opening = inr (λ e. ground (arith, e))
  is_following loading = inr (λ e. ground (arith, e))
  is_following installing = inr (λ e. ground (arith, e))
  is_following reporting = inr (λ e. ground (arith, e))
  is_following (clearing why) = inr (λ e. ground (arith, e))
  is_following (disconnecting why) = inr (λ e. ground (arith, e))
  is_following waiting = inr (λ e. ground (arith, e))

  distance-zero : (p : Point) → distance p ≤ 0 → p ≡ following
  distance-zero following le = refl
  distance-zero opening le = absurd (omega (arith, le))
  distance-zero loading le = absurd (omega (arith, le))
  distance-zero installing le = absurd (omega (arith, le))
  distance-zero reporting le = absurd (omega (arith, le))
  distance-zero (clearing why) le = absurd (omega (arith, le))
  distance-zero (disconnecting why) le = absurd (omega (arith, le))
  distance-zero waiting le = absurd (omega (arith, le))

  module _ (at : ℕ → Supervisor Vm Pool Network) (length : ℕ)
      (steps : (n : ℕ) → n < length → Step api message (at n) (at (suc n)))
      (answers : (n : ℕ) → n < length → Answers (at n) (at (suc n))) where
    reaches :
        (fuel n : ℕ)
        → distance (at n).point ≤ fuel
        → n + fuel ≤ length
        → (m : ℕ) × (n ≤ m) × (m ≤ n + fuel) × ((at m).point ≡ following)
    reaches zero n le room = elim (is_following (at n).point) [
      | inl there ↦ (n, omega arith, omega arith, there)
      | inr away ↦ absurd (away (distance-zero (at n).point le))
    ]
    reaches (suc fuel) n le room = elim (is_following (at n).point) [
      | inl there ↦ (n, omega arith, omega arith, there)
      | inr away ↦
          let within : n < length = omega (arith, room) in
          let closer = step-distance (at n) (at (suc n)) (steps n within) (answers n within) away in
          let (m, from, to, there) =
            reaches fuel (suc n) (omega (arith, closer, le)) (omega (arith, room)) in
          (m, omega (arith, from), omega (arith, to), there)
    ]

    reached-IsFit : IsFit (at 0) → (n : ℕ) → n ≤ length → IsFit (at n)
    reached-IsFit fit zero le = fit
    reached-IsFit fit (suc n) le =
        step-IsFit (at n) (at (suc n)) (reached-IsFit fit n (omega (arith, le))) (steps n le)

  -- When libvirt answers the opening and the load, the task connects again: of any seven steps from
  -- a reachable state, one leads to the loop, with an open connection and the state `Connected`.
  pub reconnects :
      (at : ℕ → Supervisor Vm Pool Network)
      → Reachable api message (at 0)
      → ((n : ℕ) → n < 7 → Step api message (at n) (at (suc n)))
      → ((n : ℕ) → n < 7 → Answers (at n) (at (suc n)))
      → (m : ℕ) × (m ≤ 7)
        × ((at m).point ≡ following)
        × ((at m).virt ≡ true)
        × ((at m).state ≡ connected)
  reconnects at r steps answers =
      let (m, _, le, there) =
        reaches at 7 steps answers 7 0 (distance_max (at 0).point) (omega arith) in
      let fit = reached-IsFit at 7 steps answers (Reachable-IsFit (at 0) r).0 m le in
      let (shown, lit, _) = at_point following (at m) there fit in (m, le, there, shown, lit)
