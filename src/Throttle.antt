-- ===== src/Throttle.antt =====
-- crates/lodger/src/throttle.rs: the login throttle. Instants and durations are numbers of
-- nanoseconds. The mutex makes each call one step, so a call is a function from the counters to
-- the new counters and its result. `str::to_lowercase` is Unicode's table and is a parameter.
pub mod Delay
pub mod Counts
pub mod Bounds
pub mod Turns
pub mod Window
pub mod Spec
pub mod Success
pub mod Full
pub mod Counted
pub mod Tests
use lodger.Map.{get, contains_key, insert, remove, retain}
use lodger.Net.{IpAddr, v4, v6, ip_eq, to_canonical}
use lodger.Prelude.Equality.{Eq, text_eq}
use lodger.Prelude.{
  ℕ, ◌+◌, ◌-◌, ◌*◌, ◌/◌, ◌^◌, min, max, Bool, not, ◌&&◌, ◌||◌, Option, none, some, List, [], ◌∷◌,
  ◌++◌, ◌≡◌, refl, ◌⊎◌, inl, inr, length, back, take, ltb, leb, ◌==◌, if◌then◌else◌, is_some_and,
  unwrap_or,
}

abbrev pub second : ℕ
second = 1_000_000_000

abbrev pub free_failures : ℕ
free_failures = 5

abbrev pub window : ℕ
window = 15 * 60 * second

abbrev pub max_delay : ℕ
max_delay = 60 * second

abbrev pub max_keys : ℕ
max_keys = 10_000

-- `NAME_MAX_LEN` of crates/lodger-core/src/validate.rs.
abbrev pub name_max_len : ℕ
name_max_len = 64

abbrev pub usize_max : ℕ
usize_max = 2 ^ 64 - 1

pub record Entry : Type 0 where
  pub times : List ℕ
  pub next : Option ℕ

abbrev pub default_entry : Entry
default_entry = record { times = []; next = none }

-- The test by which a full map keeps a key.
unfoldable pub is_live : ℕ → Entry → Bool
is_live now e =
    is_some_and (λ t. ltb (now - t) window) (back e.times) || is_some_and (λ t. ltb now t) e.next

-- The loop that pops the front of the queue.
unfoldable pub drop_old : ℕ → List ℕ → List ℕ
drop_old now [] = []
drop_old now (t ∷ ts) = if leb window (now - t) then drop_old now ts else t ∷ ts

module _ {ℓ} {K : Type ℓ} ⦃e : Eq K⦄ where
  -- `entry(key).or_default()`, with the times that left the window dropped.
  unfoldable pub touch : K → ℕ → List (K × Entry) → List (K × Entry) × Option Entry
  touch k now m =
      let found = unwrap_or default_entry (get k m) in
      let fresh : Entry = record { times = drop_old now found.times; next = found.next } in
      (insert k fresh m, some fresh)

  -- `Counts::entry`: the new map, and the entry that the caller may write.
  unfoldable pub entry : K → ℕ → List (K × Entry) → List (K × Entry) × Option Entry
  entry k now m =
      if leb max_keys (length m) && not (contains_key k m)
      then (let kept = retain (is_live now) m in
          if leb max_keys (length kept) then (kept, none) else touch k now kept)
      else touch k now m

  -- `if let Some(entry) = map.get_mut(key) { entry.times.push_back(now) }`.
  unfoldable pub push_back : K → ℕ → List (K × Entry) → List (K × Entry)
  push_back k now m = elim (get k m) [
    | none ↦ m
    | some e ↦ insert k (record e { times = e.times ++ now ∷ [] }) m
  ]

pub record Throttle : Type 0 where
  pub accounts : List (List ℕ × Entry)
  pub ips : List (IpAddr × Entry)

pub record Attempt : Type 0 where
  pub wait : ℕ
  pub failures : ℕ
  pub at : ℕ

-- The result of `begin`: `Ok` and `Err`.
pub data Turn : Type 0 where
  granted : Attempt → Turn
  refused : ℕ → Turn

pub Turn-cases : (t : Turn) → ((a : Attempt) × (t ≡ granted a)) ⊎ ((r : ℕ) × (t ≡ refused r))
Turn-cases (granted a) = inl (a, refl)
Turn-cases (refused r) = inr (r, refl)

-- `u32::try_from(n).unwrap_or(u32::MAX)`.
unfoldable pub saturate_u32 : ℕ → ℕ
saturate_u32 n = if ltb n (2 ^ 32) then n else 2 ^ 32 - 1

unfoldable pub delay_for : ℕ → ℕ
unfolding saturate_u32
delay_for failures =
    if ltb failures free_failures
    then 0
    else min (2 ^ min (saturate_u32 (failures - free_failures)) 6 * second) max_delay

-- One IPv6 client usually controls a whole /64.
unfoldable pub ip_key : IpAddr → IpAddr
unfolding to_canonical
ip_key ip = elim (to_canonical ip) [ v4 a ↦ v4 a | v6 a ↦ v6 (a / 2 ^ 64 * 2 ^ 64) ]

-- `match (account_failures, ip_failures)`.
unfoldable pub both_failures : Option Entry → Option Entry → ℕ
both_failures (some a) (some i) = max (length a.times) (length i.times)
both_failures _ _ = usize_max

abbrev attempt : ℕ → ℕ → ℕ → Attempt
attempt now start failures = record {
  wait = start - now;
  failures = min failures max_keys;
  at = now;
}

-- The part of `begin` that reads and writes the entry of the IP. `start` is the start without the
-- queue.
unfoldable pub take_turn : List ℕ → IpAddr → ℕ → ℕ → ℕ → Throttle → Option Entry → Throttle × Turn
take_turn account ip now failures start s none =
    (record s { accounts = push_back account now s.accounts }, granted (attempt now start failures))
take_turn account ip now failures start s (some e) =
    let queued = max start (unwrap_or start e.next) in
    if ltb max_delay (queued - now)
    then (s, refused (queued - now))
    else (let times = e.times ++ now ∷ [] in
        let next = some (queued + delay_for (length times)) in
        (
          record {
            accounts = push_back account now s.accounts;
            ips = insert ip (record { times = times; next = next }) s.ips;
          },
          granted (attempt now queued failures),
        ))

-- Taking the first time equal to `at` out of the queue.
unfoldable pub remove_first : ℕ → List ℕ → List ℕ
remove_first at [] = []
remove_first at (t ∷ ts) = if t == at then ts else t ∷ remove_first at ts

-- `if let Some(entry) = ips.map.get_mut(key) && let Some(i) = position(at) { remove(i) }`.
unfoldable pub take_back : IpAddr → ℕ → List (IpAddr × Entry) → List (IpAddr × Entry)
take_back ip at m = elim (get ip m) [
  | none ↦ m
  | some e ↦ insert ip (record e { times = remove_first at e.times }) m
]

module _ (to_lowercase : List ℕ → List ℕ) where
  unfoldable pub account_key : List ℕ → List ℕ
  account_key account = to_lowercase (take name_max_len account)

  -- `Throttle::begin`.
  unfoldable pub begin : List ℕ → IpAddr → ℕ → Throttle → Throttle × Turn
  begin account ip now s =
      let (accounts, account_entry) = entry (account_key account) now s.accounts in
      let (ips, ip_entry) = entry (ip_key ip) now s.ips in
      let failures = both_failures account_entry ip_entry in
      take_turn (account_key account) (ip_key ip) now failures (now + delay_for failures)
        (record { accounts = accounts; ips = ips }) ip_entry

  -- `Throttle::succeed`.
  unfoldable pub succeed : List ℕ → IpAddr → Attempt → Throttle → Throttle
  succeed account ip done s = record {
    accounts = remove (account_key account) s.accounts;
    ips = take_back (ip_key ip) done.at s.ips;
  }
