-- ===== src/Web/Throttled.antt =====
-- What `throttled` of crates/lodger/src/auth.rs leaves and answers.
use lodger.Net.{IpAddr}
use lodger.Prelude.{ℕ, ◌≡◌, sym, ap, List, ok, err, arith, inl, inr}
use lodger.Throttle.{Attempt, Turn-cases, begin}
use lodger.Throttle.Bounds.{IsValid}
use lodger.Throttle.Counted.{CountsAttempt, CountsNone, begin-CountsAttempt, begin-CountsNone}
use lodger.Web.{Response, Crates, Conditions, AppState, reply, with_header, error}
use lodger.Web.Login.{throttled, too_many_attempts}

module _ (lib : Crates) (c : Conditions) where
  -- It changes only the throttle, as `begin` does.
  pub throttled-begun :
      (username : List ℕ) (ip : IpAddr) (s : AppState)
      → (throttled lib c username ip s).0
        ≡ record s { throttle = (begin lib.to_lowercase username ip c.instant s.throttle).0 }
  unfolding throttled
  throttled-begun username ip s =
      elim (Turn-cases (begin lib.to_lowercase username ip c.instant s.throttle).1) [
        | inl (a, turn) ↦ ground (arith, turn)
        | inr (retry, turn) ↦ ground (arith, turn)
      ]

  -- A refusal is a 429.
  pub throttled-refused :
      (username : List ℕ) (ip : IpAddr) (s : AppState) {r : Response}
      → (throttled lib c username ip s).1 ≡ err r
      → r.status ≡ 429
  unfolding throttled too_many_attempts error reply with_header
  throttled-refused username ip s {r} h =
      elim (Turn-cases (begin lib.to_lowercase username ip c.instant s.throttle).1) [
        | inl (a, turn) ↦ absurd (ground (arith, turn, h))
        | inr (retry, turn) ↦
            let same : too_many_attempts retry ≡ r = ground (arith, turn, h) in
            ap (λ (x : Response). x.status) (sym same)
      ]

  -- A turn is counted, and a refusal is not.
  pub throttled-CountsAttempt :
      (username : List ℕ) (ip : IpAddr) (s : AppState) {a : Attempt}
      → IsValid s.throttle
      → (throttled lib c username ip s).1 ≡ ok a
      → CountsAttempt lib.to_lowercase username ip c.instant s.throttle
          (begin lib.to_lowercase username ip c.instant s.throttle).0
  unfolding throttled
  throttled-CountsAttempt username ip s v h =
      elim (Turn-cases (begin lib.to_lowercase username ip c.instant s.throttle).1) [
        | inl (a, turn) ↦
            begin-CountsAttempt lib.to_lowercase username ip c.instant s.throttle v turn
        | inr (retry, turn) ↦ absurd (ground (arith, turn, h))
      ]

  pub throttled-CountsNone :
      (username : List ℕ) (ip : IpAddr) (s : AppState) {r : Response}
      → IsValid s.throttle
      → (throttled lib c username ip s).1 ≡ err r
      → CountsNone lib.to_lowercase username ip c.instant s.throttle
          (begin lib.to_lowercase username ip c.instant s.throttle).0
  unfolding throttled
  throttled-CountsNone username ip s v h =
      elim (Turn-cases (begin lib.to_lowercase username ip c.instant s.throttle).1) [
        | inl (a, turn) ↦ absurd (ground (arith, turn, h))
        | inr (retry, turn) ↦
            begin-CountsNone lib.to_lowercase username ip c.instant s.throttle v turn
      ]
