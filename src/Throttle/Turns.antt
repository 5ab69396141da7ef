-- ===== src/Throttle/Turns.antt =====
-- The queue of crates/lodger/src/throttle.rs: what each turn waits, and turns of one IP over a
-- whole history of calls.
use lodger.Map.{get}
use lodger.Map.Laws.{get-insert}
use lodger.Net.{IpAddr, ip_eq, ip_beq_iff}
use lodger.Prelude.Equality.{text_eq}
use lodger.Prelude.{
  ℕ, ◌+◌, ◌-◌, ◌≤◌, ◌≡◌, ap, max, min, Option, none, some, List, [], ◌∷◌, ◌++◌, arith, length, ltb,
  if◌then◌else◌, unwrap_or, Option-cases, inl, inr,
}
use lodger.Throttle.{
  Entry, Throttle, Attempt, Turn, granted, refused, max_keys, max_delay, drop_old, entry,
  both_failures, take_turn, account_key, ip_key, begin, succeed, take_back, delay_for, remove_first,
}
use lodger.Throttle.Counts.{next_start, next_start_mono, times_of, entry-own, entry-next_start}
use lodger.Throttle.Bounds.{IsValid, begin-IsValid, succeed-IsValid}

-- The attempts of a key that count at `now`.
abbrev pub recent : ℕ → Option Entry → ℕ
recent now o = length (drop_old now (times_of o))

-- The earliest start that the queue of an IP gives.
abbrev pub queue_start : IpAddr → ℕ → Throttle → ℕ
queue_start ip now s = next_start now (get (ip_key ip) s.ips)

-- The entry that a granted attempt leaves.
abbrev pub booked : ℕ → ℕ → Entry → Entry
booked now start e = record {
  times = e.times ++ now ∷ [];
  next = some (max start (unwrap_or start e.next) + delay_for (length (e.times ++ now ∷ [])));
}

-- The specification of a turn: by the failures that are charged and the queue's next start.
abbrev pub answer : (now failures start : ℕ) → Turn
answer now failures start =
    let wait = max (delay_for failures) (start - now) in
    if ltb max_delay wait
    then refused wait
    else granted (record { wait = wait; failures = min failures max_keys; at = now })

pub take_turn-eq :
    (account : List ℕ) (ip : IpAddr) (now failures : ℕ) (s : Throttle) (e : Entry)
    → (take_turn account ip now failures (now + delay_for failures) s (some e)).1
      ≡ answer now failures (next_start now (some e))
unfolding take_turn
take_turn-eq account ip now failures s e = ground arith

-- The queue of an IP after its own turn.
take_turn-books :
    (account : List ℕ) (ip : IpAddr) (now failures : ℕ) (s : Throttle) (o : Option Entry)
    {a : Attempt}
    → get ip s.ips ≡ o
    → let r = take_turn account ip now failures (now + delay_for failures) s o in
      r.1 ≡ granted a
      → (next_start now o ≤ now + a.wait)
        × ((e : Entry)
            → get ip r.0.ips ≡ some e
            → now + a.wait + delay_for (length e.times) ≤ next_start now (get ip r.0.ips))
unfolding take_turn
take_turn-books account ip now failures s none own g = (ground arith, λ e h. ground arith)
take_turn-books account ip now failures s (some x) own g =
    let stored = get-insert ip ip (booked now (now + delay_for failures) x) s.ips in
    (ground arith, λ e h. ground (arith, stored, ip_beq_iff ip ip))

-- No turn moves a queue forward.
take_turn-later :
    (account : List ℕ) (ip j : IpAddr) (now failures start : ℕ) (s : Throttle) (o : Option Entry)
    → get ip s.ips ≡ o
    → next_start now (get j s.ips)
      ≤ next_start now (get j (take_turn account ip now failures start s o).0.ips)
unfolding take_turn
take_turn-later account ip j now failures start s none own = omega arith
take_turn-later account ip j now failures start s (some e) own =
    ground (arith, get-insert ip j (booked now start e) s.ips, ip_beq_iff ip j)

-- The calls that share the counters.
pub data Call : Type 0 where
  begins : (account : List ℕ) (ip : IpAddr) (now : ℕ) → Call
  succeeds : (account : List ℕ) (ip : IpAddr) → Attempt → Call

-- The clock does not go back: no attempt begins before `now`, nor before an attempt that is ahead
-- of it.
abbrev pub Ordered : ℕ → List Call → Type 0
Ordered now [] = Unit
Ordered now (begins account ip t ∷ cs) = (now ≤ t) × Ordered t cs
Ordered now (succeeds account ip done ∷ cs) = Ordered now cs

abbrev pub last : ℕ → List Call → ℕ
last now [] = now
last now (begins account ip t ∷ cs) = last t cs
last now (succeeds account ip done ∷ cs) = last now cs

module _ (to_lowercase : List ℕ → List ℕ) where
  unfoldable pub step : Throttle → Call → Throttle
  step s (begins account ip now) = (begin to_lowercase account ip now s).0
  step s (succeeds account ip done) = succeed to_lowercase account ip done s

  unfoldable pub run : Throttle → List Call → Throttle
  unfolding step
  run s [] = s
  run s (c ∷ cs) = run (step s c) cs

  begin-later :
      (account : List ℕ) (ip j : IpAddr) (now : ℕ) (s : Throttle)
      → IsValid s
      → queue_start j now s ≤ queue_start j now (begin to_lowercase account ip now s).0
  unfolding begin
  begin-later account ip j now s v = omega (
    arith,
    entry-next_start (ip_key ip) (ip_key j) now s.ips v.ips_distinct,
    take_turn-later (account_key to_lowercase account) (ip_key ip) (ip_key j) now
        (both_failures (entry (account_key to_lowercase account) now s.accounts).1
          (entry (ip_key ip) now s.ips).1)
        (now
          + delay_for (
              both_failures (entry (account_key to_lowercase account) now s.accounts).1
                (entry (ip_key ip) now s.ips).1))
        (record {
          accounts = (entry (account_key to_lowercase account) now s.accounts).0;
          ips = (entry (ip_key ip) now s.ips).0;
        })
        (entry (ip_key ip) now s.ips).1 (entry-own (ip_key ip) now s.ips v.ips_distinct),
  )

  succeed-queue_start :
      (account : List ℕ) (ip j : IpAddr) (done : Attempt) (now : ℕ) (s : Throttle)
      → queue_start j now (succeed to_lowercase account ip done s) ≡ queue_start j now s
  unfolding succeed take_back
  succeed-queue_start account ip j done now s = elim (Option-cases (get (ip_key ip) s.ips)) [
    | inl missing ↦ rw (missing, take_back)
    | inr (e, found) ↦
        let taken : Entry = record e { times = remove_first done.at e.times } in
        rw (found, take_back)
          (ground (
            arith,
            get-insert (ip_key ip) (ip_key j) taken s.ips,
            ip_beq_iff (ip_key ip) (ip_key j),
          ))
  ]

  run-queue :
      (ip : IpAddr) (start now : ℕ) (s : Throttle) (cs : List Call)
      → IsValid s
      → Ordered now cs
      → start ≤ queue_start ip now s
      → IsValid (run s cs) × (start ≤ queue_start ip (last now cs) (run s cs))
  unfolding run
  run-queue ip start now s [] v o h = (v, h)
  run-queue ip start now s (begins account other t ∷ cs) v (le, o) h =
      run-queue ip start t _ cs (begin-IsValid to_lowercase account other t s v) o (
        omega (
          arith,
          next_start_mono now t (get (ip_key ip) s.ips) le,
          begin-later account other ip t s v,
        ))
  run-queue ip start now s (succeeds account other done ∷ cs) v o h =
      run-queue ip start now _ cs (succeed-IsValid to_lowercase account other done s v) o
        (omega (arith, succeed-queue_start account other ip done now s))

  begin-books :
      (account : List ℕ) (ip : IpAddr) (now : ℕ) (s : Throttle) {a : Attempt}
      → IsValid s
      → (begin to_lowercase account ip now s).1 ≡ granted a
      → (queue_start ip now s ≤ now + a.wait)
        × ((e : Entry)
            → get (ip_key ip) (begin to_lowercase account ip now s).0.ips ≡ some e
            → now + a.wait + delay_for (length e.times)
              ≤ queue_start ip now (begin to_lowercase account ip now s).0)
  unfolding begin
  begin-books account ip now s v g =
      let own = entry-own (ip_key ip) now s.ips v.ips_distinct in
      let same = entry-next_start (ip_key ip) (ip_key ip) now s.ips v.ips_distinct in
      let (waited, left) = take_turn-books _ (ip_key ip) now _ _ _ own g in
      (omega (arith, waited, same, ap (next_start now) own), left)

  -- Turns of one IP are queued. From a valid state, after a granted attempt of an IP that the map
  -- then counts, and after any further calls in the order of a clock, whoever makes them, a later
  -- granted attempt of that IP starts no earlier than the first one's start plus the delay for all
  -- the attempts that the IP then had in the window.
  pub begin-begin :
      (account later_account : List ℕ) (ip later_ip : IpAddr) (now later : ℕ) (s : Throttle)
      (e : Entry) (cs : List Call) {a b : Attempt}
      → IsValid s
      → (begin to_lowercase account ip now s).1 ≡ granted a
      → get (ip_key ip) (begin to_lowercase account ip now s).0.ips ≡ some e
      → Ordered now cs
      → last now cs ≤ later
      → ip_key later_ip ≡ ip_key ip
      → (begin to_lowercase later_account later_ip later
          (run (begin to_lowercase account ip now s).0 cs)).1
        ≡ granted b
      → now + a.wait + delay_for (length e.times) ≤ later + b.wait
  begin-begin account later_account ip later_ip now later s e cs v g counted o le same g' =
      let booked_start = (begin-books account ip now s v g).1 e counted in
      let first = begin-IsValid to_lowercase account ip now s v in
      let (valid, queued) = run-queue ip _ now _ cs first o booked_start in
      let waited = (begin-books later_account later_ip later _ valid g').0 in
      let s' = run (begin to_lowercase account ip now s).0 cs in
      let aged = next_start_mono (last now cs) later (get (ip_key ip) s'.ips) le in
      let moved = ap (λ k. next_start later (get k s'.ips)) same in
      omega (arith, queued, aged, moved, waited)
