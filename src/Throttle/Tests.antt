-- ===== src/Throttle/Tests.antt =====
-- Runs of the login throttle of crates/lodger/src/throttle.rs, after its own tests, and instances of
-- the theorems about it.
use lodger.Map.{get, contains_key, insert, remove, retain}
use lodger.Map.Laws.{AllValues, Distinct}
use lodger.Net.{IpAddr, v4, v6, ip_eq}
use lodger.Prelude.Equality.{text_eq}
use lodger.Prelude.{
  ℕ, zero, suc, ◌+◌, ◌*◌, ◌/◌, ◌≤◌, ◌≡◌, refl, none, some, List, [], ◌∷◌, map, arith, inr, All,
  length, leb, text, ◌&&◌, if◌then◌else◌,
}
use lodger.Throttle.{
  Entry, Throttle, Turn, granted, refused, second, window, max_delay, max_keys, is_live, drop_old,
  touch, entry, push_back, both_failures, take_turn, remove_first, take_back, delay_for,
  account_key, ip_key, begin, succeed,
}
use lodger.Throttle.Bounds.{IsValid, WithinDelay, begin_bounds}
use lodger.Throttle.Turns.{
  Call, begins, succeeds, Ordered, run, step, answer, queue_start, begin-begin,
}
use lodger.Throttle.Window.{InOrder}
use lodger.Throttle.Spec.{IsTimed, failures_of, begin-eq}
use lodger.Throttle.Success.{run-IsValid}
use lodger.Throttle.Full.{IsFull, burst, burst-IsFull}

-- `str::to_lowercase`, for ASCII.
abbrev lower : List ℕ → List ℕ
lower = map (λ c. if leb b'A' c && leb c b'Z' then c + 32 else c)

throttle : Unit {0}
unfolding begin succeed run step burst entry touch push_back both_failures take_turn take_back
    remove_first is_live drop_old delay_for account_key ip_key get contains_key insert remove retain
throttle = tt

abbrev empty : Throttle
empty = record { accounts = []; ips = [] }

empty-IsValid : IsValid empty
empty-IsValid = record {
  accounts_distinct = tt;
  ips_distinct = tt;
  accounts_room = omega arith;
  ips_room = omega arith;
}

empty-IsTimed : IsTimed 0 empty
empty-IsTimed = record { accounts_order = tt; ips_order = tt }

abbrev home : IpAddr
home = v4 0x0a000001

abbrev users : List (List ℕ)
users =
    text "a"
    ∷ text "b"
    ∷ text "c"
    ∷ text "d"
    ∷ text "e"
    ∷ text "f"
    ∷ text "g"
    ∷ text "h"
    ∷ text "i"
    ∷ text "j"
    ∷ text "k"
    ∷ text "l"
    ∷ []

abbrev wait_in_seconds : Turn → ℕ
wait_in_seconds (granted a) = a.wait / second
wait_in_seconds (refused r) = 1000 + r / second

-- Attempts at one instant queue, and the excess gets no turn.
parallel_attempts :
    map wait_in_seconds (burst lower users home 0 empty)
    ≡ 0 ∷ 0 ∷ 0 ∷ 0 ∷ 0 ∷ 1 ∷ 3 ∷ 7 ∷ 15 ∷ 31 ∷ 1063 ∷ 1063 ∷ []
unfolding throttle
parallel_attempts = refl

-- An IPv6 client is counted by its /64, and an IPv4 client in IPv6 form is the same client.
keys_of_clients :
    (ip_key (v6 (0x20010db8000100020000000000000001))
      ≡ ip_key (v6 (0x2001_0db8_0001_0002_ffff_0000_0000_0001)))
    × (ip_key (v6 0xffff0a000007) ≡ v4 0x0a000007)
unfolding throttle
keys_of_clients = (refl, refl)

begin_bounds_example : WithinDelay (begin lower (text "admin") home 5 empty).1
begin_bounds_example = begin_bounds lower (text "admin") home 5 empty

begin-eq_example :
    (begin lower (text "admin") home 0 empty).1
    ≡ answer 0 (failures_of lower (text "admin") home 0 empty) (queue_start home 0 empty)
begin-eq_example =
    begin-eq lower (text "admin") home 0 empty empty-IsValid empty-IsTimed (inr (omega arith))
      (inr (omega arith))

abbrev history : List Call
history =
    begins (text "Bob") home 7
    ∷ succeeds (text "bob") home (record { wait = 0; failures = 1; at = 7 })
    ∷ []

first_try :
    (begin lower (text "admin") home 0 empty).1
    ≡ granted (record { wait = 0; failures = 0; at = 0 })
unfolding throttle
first_try = refl

-- Five attempts from one IP, each for another account, and two more.
abbrev five : List Call
five =
    begins (text "a") home 0
    ∷ begins (text "b") home 0
    ∷ begins (text "c") home 0
    ∷ begins (text "d") home 0
    ∷ begins (text "e") home 0
    ∷ []

abbrev five_order : Ordered 0 five
five_order = omega arith

busy : Throttle
unfolding throttle
busy = run lower empty five

sixth :
    (begin lower (text "f") home 0 busy).1
    ≡ granted (record { wait = second; failures = 5; at = 0 })
unfolding busy
sixth = refl

sixth_entry :
    get (ip_key home) (begin lower (text "f") home 0 busy).0.ips
    ≡ some (record { times = 0 ∷ 0 ∷ 0 ∷ 0 ∷ 0 ∷ 0 ∷ []; next = some (3 * second) })
unfolding busy
sixth_entry = refl

seventh :
    (begin lower (text "g") home 0 (run lower (begin lower (text "f") home 0 busy).0 [])).1
    ≡ granted (record { wait = 3 * second; failures = 6; at = 0 })
unfolding busy
seventh = refl

busy-IsValid : IsValid busy
unfolding busy
busy-IsValid = (run-IsValid lower 0 empty five empty-IsValid empty-IsTimed five_order).0

begin-begin_example : 0 + second + delay_for 6 ≤ 0 + 3 * second
begin-begin_example =
    begin-begin lower (text "f") (text "g") home home 0 0 busy
      (record { times = 0 ∷ 0 ∷ 0 ∷ 0 ∷ 0 ∷ 0 ∷ []; next = some (3 * second) }) [] busy-IsValid
      sixth sixth_entry tt (omega arith) refl seventh

-- A map of one live attempt for each of `n` IPv4 addresses.
crowd : ℕ → List (IpAddr × Entry)
crowd zero = []
crowd (suc n) = (v4 n, record { times = 0 ∷ []; next = none }) ∷ crowd n

length-crowd : (n : ℕ) → length (crowd n) ≡ n
unfolding crowd
length-crowd zero = refl
length-crowd (suc n) = omega (arith, length-crowd n)

retain-crowd : (n : ℕ) → retain (is_live 0) (crowd n) ≡ crowd n
unfolding crowd throttle
retain-crowd zero = refl
retain-crowd (suc n) = rw (retain-crowd n)

get-crowd : (n : ℕ) → get (v6 0) (crowd n) ≡ none
unfolding crowd throttle
get-crowd zero = refl
get-crowd (suc n) = get-crowd n

abbrev flooded : Throttle
flooded = record { accounts = []; ips = crowd max_keys }

key_of_stranger : ip_key (v6 1) ≡ v6 0
unfolding throttle
key_of_stranger = refl

flooded-IsFull : IsFull (ip_key (v6 1)) 0 flooded.ips
flooded-IsFull = record {
  absent = rw key_of_stranger (get-crowd max_keys);
  crowded = omega (arith, length-crowd max_keys);
  live = retain-crowd max_keys;
}

burst-IsFull_example :
    All
      (λ t. t ≡ granted (record { wait = max_delay; failures = max_keys; at = 0 }))
      (burst lower users (v6 1) 0 flooded)
burst-IsFull_example = burst-IsFull lower users (v6 1) 0 flooded flooded-IsFull

crowd-Distinct : Distinct (crowd 3)
unfolding crowd throttle
crowd-Distinct = (refl, (refl, (refl, tt)))

crowd-InOrder : AllValues (InOrder window) (crowd 3)
unfolding crowd
crowd-InOrder = omega arith
