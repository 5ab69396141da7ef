-- ===== src/Web/SocketEnd.antt =====
-- `session_ended` of crates/lodger/src/auth.rs returns: soon after the session ends, and in any case
-- after 24 hours.
use lodger.Db.{NewSession, Db, absolute}
use lodger.Db.Queries.{create_session, session_alive}
use lodger.Db.Calls.{Call, run}
use lodger.Db.Expiry.{NotStored, create_session-expires}
use lodger.Db.Tables.{IsValid}
use lodger.Prelude.{
  ℕ, zero, suc, ◌+◌, ◌≤◌, ◌<◌, ◌≡◌, ◌≢◌, refl, ◌⊎◌, Bool, true, false, some, List, Result, ok,
  arith, Bool-cases, Result-cases, inl, inr, subst, dec_lt, ℕ_discrete,
}
use lodger.Web.Socket.{session_ended, socket_check}

dead_check :
    (fails : ℕ → Bool) (at : ℕ → ℕ) (tables : ℕ → Db) (key n : ℕ)
    → session_alive (at n) key (tables n) ≡ false
    → socket_check fails at tables key n ≢ ok true
unfolding socket_check
dead_check fails at tables key n dead live = elim (Bool-cases (fails n)) [
  | inl broken ↦ ground (arith, broken, live)
  | inr works ↦ ground (arith, works, dead, live)
]

module _ (check : ℕ → Result (Unit {0}) Bool) where
  -- Check `n` ended the loop that began at check `k`: the ones before found the session live.
  pub record IsEnd (k n : ℕ) : Type 0 where
    pub after : k ≤ n
    pub stops : check n ≢ ok true
    pub went_on : (m : ℕ) → k ≤ m → m < n → check m ≡ ok true

  check-cases : (n : ℕ) → (check n ≡ ok true) ⊎ (check n ≢ ok true)
  check-cases n = elim (Result-cases (check n)) [
    | inl (true, live) ↦ inl live
    | inl (false, dead) ↦ inr (λ live. ground (arith, dead, live))
    | inr (e, failed) ↦ inr (λ live. ground (arith, failed, live))
  ]

  stop-session_ended : (fuel n : ℕ) → check n ≢ ok true → session_ended (suc fuel) check n ≡ some n
  unfolding session_ended
  stop-session_ended fuel n dead = elim (Result-cases (check n)) [
    | inl (true, live) ↦ absurd (dead live)
    | inl (false, ended) ↦ ground (arith, ended)
    | inr (e, failed) ↦ ground (arith, failed)
  ]

  -- Fuel for the checks from `k` to one that stops finds the end.
  session_ended-IsEnd :
      (fuel k stop : ℕ)
      → check stop ≢ ok true
      → k ≤ stop
      → stop < k + fuel
      → (n : ℕ) × (session_ended fuel check k ≡ some n) × IsEnd k n × (n ≤ stop)
  unfolding session_ended
  session_ended-IsEnd zero k stop dead le enough = absurd (omega (arith, le, enough))
  session_ended-IsEnd (suc fuel) k stop dead le enough = elim (check-cases k) [
    | inr ends ↦ (
      k,
      stop-session_ended fuel k ends,
      record {
        after = omega arith;
        stops = ends;
        went_on = λ m from to. absurd (omega (arith, from, to));
      },
      le,
    )
    | inl live ↦
        let differs : k ≢ stop = λ same. dead (subst (λ m. check m ≡ ok true) same live) in
        let (n, returns, end, early) =
          session_ended-IsEnd fuel (suc k) stop dead (omega (arith, le, differs))
            (omega (arith, enough)) in
        (
          n,
          ground (arith, live, returns),
          record {
            after = omega (arith, end.after);
            stops = end.stops;
            went_on = λ m from to. elim (ℕ_discrete k m) [
              | yes same ↦ subst (λ m. check m ≡ ok true) same live
              | no other ↦ end.went_on m (omega (arith, from, other)) to
            ];
          },
          early,
        )
  ]

-- Times of checks that grow by at least 1 reach every time.
growing : (at : ℕ → ℕ) → ((n : ℕ) → at n < at (suc n)) → (n : ℕ) → n ≤ at n
growing at grows zero = omega arith
growing at grows (suc n) = omega (arith, grows n, growing at grows n)

-- A loop whose checks are at growing times, at most `gap` apart, and find no live session from the
-- time `e` on, returns: with fuel `suc e` it returns at the first check, or before `e + gap`, and all
-- checks before found the session live.
pub session_ended-returns :
    (check : ℕ → Result (Unit {0}) Bool) (at : ℕ → ℕ) (e gap : ℕ)
    → ((n : ℕ) → (at n < at (suc n)) × (at (suc n) ≤ at n + gap))
    → ((n : ℕ) → e ≤ at n → check n ≢ ok true)
    → (n : ℕ) × (session_ended (suc e) check 0 ≡ some n)
      × IsEnd check 0 n
      × ((n ≡ 0) ⊎ (at n < e + gap))
session_ended-returns check at e gap steps dead =
    let (n, returns, end, le) =
      session_ended-IsEnd check (suc e) 0 e (dead e (growing at (λ n. (steps n).0) e)) (omega arith)
        (omega arith) in
    (n, returns, end, soon n end)
  where
    soon : (n : ℕ) → IsEnd check 0 n → (n ≡ 0) ⊎ (at n < e + gap)
    soon zero end = inl refl
    soon (suc n) end =
        let before : at n < e = elim (dec_lt (at n) e) [
          | yes early ↦ early
          | no late ↦
              absurd (dead n (omega (arith, late)) (end.went_on n (omega arith) (omega arith)))
        ] in
        inr (omega (arith, before, (steps n).1))

-- From tables that satisfy the constraints, a socket does not outlive the 24 hours of its session:
-- whatever calls that do not store its token again run between its checks, which are at growing times
-- and at most `gap` apart, the loop returns at its first check or before 24 hours and `gap`.
pub create_session-session_ended :
    (now later gap : ℕ) (new : NewSession) (db : Db) (calls : ℕ → List Call) (at : ℕ → ℕ)
    (fails : ℕ → Bool)
    → IsValid db
    → (create_session now later new db).1 ≡ ok tt
    → ((n : ℕ) → NotStored new.token_sha256 (calls n))
    → ((n : ℕ) → (at n < at (suc n)) × (at (suc n) ≤ at n + gap))
    → let tables : ℕ → Db = λ n. run (create_session now later new db).0 (calls n) in
      let check = socket_check fails at tables new.token_sha256 in
      (n : ℕ) × (session_ended (suc (later + absolute)) check 0 ≡ some n)
      × IsEnd check 0 n
      × ((n ≡ 0) ⊎ (at n < later + absolute + gap))
create_session-session_ended now later gap new db calls at fails v done fresh steps =
    let tables : ℕ → Db = λ n. run (create_session now later new db).0 (calls n) in
    session_ended-returns (socket_check fails at tables new.token_sha256) at (later + absolute) gap
      steps
      (λ n late.
        let (_, dead) =
          create_session-expires now later (at n) new db (calls n) v done (fresh n) late in
        dead_check fails at tables new.token_sha256 n dead)
