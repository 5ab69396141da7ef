-- ===== src/Throttle/Bounds.antt =====
-- `Throttle::begin` and `Throttle::succeed` of crates/lodger/src/throttle.rs: the maps stay within
-- their size with distinct keys, and the wait of each turn.
use lodger.Map.{get, contains_key}
use lodger.Map.Laws.{Distinct, insert-Distinct, remove-Distinct, length-insert, length-remove-le}
use lodger.Net.{IpAddr, ip_eq}
use lodger.Prelude.Equality.{text_eq}
use lodger.Prelude.{
  ℕ, ◌+◌, ◌≤◌, ◌<◌, ◌≡◌, max, Option, none, some, List, [], ◌∷◌, ◌++◌, arith, length, unwrap_or,
  Option-cases, inl, inr,
}
use lodger.Throttle.{
  Entry, Throttle, Attempt, Turn, granted, refused, max_keys, max_delay, entry, take_turn,
  account_key, ip_key, begin, succeed, take_back, delay_for, remove_first,
}
use lodger.Throttle.Delay.{delay_for-le}
use lodger.Throttle.Counts.{
  entry-Distinct, entry-length, entry-own, push_back-Distinct, push_back-length,
}

pub record IsValid (s : Throttle) : Type 0 where
  pub accounts_distinct : Distinct s.accounts
  pub ips_distinct : Distinct s.ips
  pub accounts_room : length s.accounts ≤ max_keys
  pub ips_room : length s.ips ≤ max_keys

take_turn-IsValid :
    (account : List ℕ) (ip : IpAddr) (now failures start : ℕ) (s : Throttle) (o : Option Entry)
    → get ip s.ips ≡ o
    → IsValid s
    → IsValid (take_turn account ip now failures start s o).0
unfolding take_turn contains_key
take_turn-IsValid account ip now failures start s none own v = record {
  accounts_distinct = push_back-Distinct account now s.accounts v.accounts_distinct;
  ips_distinct = v.ips_distinct;
  accounts_room = omega (arith, push_back-length account now s.accounts);
  ips_room = v.ips_room;
}
take_turn-IsValid account ip now failures start s (some e) own v =
    let written : Entry = record {
      times = e.times ++ now ∷ [];
      next = some (max start (unwrap_or start e.next) + delay_for (length (e.times ++ now ∷ [])));
    } in
    ground (
      arith,
      push_back-Distinct account now s.accounts v.accounts_distinct,
      push_back-length account now s.accounts,
      insert-Distinct ip written s.ips v.ips_distinct,
      length-insert ip written s.ips,
    )

abbrev pub WithinDelay : Turn → Type 0
WithinDelay (granted a) = a.wait ≤ max_delay
WithinDelay (refused r) = max_delay < r

take_turn_bounds :
    (account : List ℕ) (ip : IpAddr) (now failures : ℕ) (s : Throttle) (o : Option Entry)
    → WithinDelay (take_turn account ip now failures (now + delay_for failures) s o).1
unfolding take_turn
take_turn_bounds account ip now failures s none = omega (arith, delay_for-le failures)
take_turn_bounds account ip now failures s (some e) = ground arith

module _ (to_lowercase : List ℕ → List ℕ) where
  -- The state between the two look-ups of `begin` and the turn.
  abbrev looked_up : List ℕ → IpAddr → ℕ → Throttle → Throttle
  looked_up account ip now s = record {
    accounts = (entry (account_key to_lowercase account) now s.accounts).0;
    ips = (entry (ip_key ip) now s.ips).0;
  }

  looked_up-IsValid :
      (account : List ℕ) (ip : IpAddr) (now : ℕ) (s : Throttle)
      → IsValid s
      → IsValid (looked_up account ip now s)
  looked_up-IsValid account ip now s v = record {
    accounts_distinct =
        entry-Distinct (account_key to_lowercase account) now s.accounts v.accounts_distinct;
    ips_distinct = entry-Distinct (ip_key ip) now s.ips v.ips_distinct;
    accounts_room = entry-length (account_key to_lowercase account) now s.accounts v.accounts_room;
    ips_room = entry-length (ip_key ip) now s.ips v.ips_room;
  }

  pub begin-IsValid :
      (account : List ℕ) (ip : IpAddr) (now : ℕ) (s : Throttle)
      → IsValid s
      → IsValid (begin to_lowercase account ip now s).0
  unfolding begin
  begin-IsValid account ip now s v =
      take_turn-IsValid _ (ip_key ip) now _ _ (looked_up account ip now s) _
        (entry-own (ip_key ip) now s.ips v.ips_distinct) (looked_up-IsValid account ip now s v)

  pub succeed-IsValid :
      (account : List ℕ) (ip : IpAddr) (done : Attempt) (s : Throttle)
      → IsValid s
      → IsValid (succeed to_lowercase account ip done s)
  unfolding succeed take_back contains_key
  succeed-IsValid account ip done s v =
      let key = account_key to_lowercase account in
      let distinct = remove-Distinct key s.accounts v.accounts_distinct in
      let room = length-remove-le key s.accounts in
      elim (Option-cases (get (ip_key ip) s.ips)) [
        | inl missing ↦ rw (missing, take_back) (ground (arith, distinct, room))
        | inr (e, found) ↦
            let taken : Entry = record e { times = remove_first done.at e.times } in
            rw (found, take_back)
              (ground (
                arith,
                found,
                distinct,
                room,
                insert-Distinct (ip_key ip) taken s.ips v.ips_distinct,
                length-insert (ip_key ip) taken s.ips,
              ))
      ]

  -- In every state, an attempt that gets a turn waits 60 seconds at most, and one that gets none
  -- would have waited longer.
  pub begin_bounds :
      (account : List ℕ) (ip : IpAddr) (now : ℕ) (s : Throttle)
      → WithinDelay (begin to_lowercase account ip now s).1
  unfolding begin
  begin_bounds account ip now s = take_turn_bounds _ (ip_key ip) now _ _ _
