-- ===== src/Throttle/Counted.antt =====
-- Which attempts `Throttle::begin` of crates/lodger/src/throttle.rs counts.
use lodger.Map.{get, insert, contains_key, retain}
use lodger.Map.Laws.{Distinct, get-insert, get-retain}
use lodger.Net.{IpAddr, ip_eq}
use lodger.Prelude.Equality.{Eq, text_eq}
use lodger.Prelude.{
  ℕ, ◌+◌, ◌-◌, max, ◌≤◌, ◌≡◌, ◌⊎◌, refl, sym, Option, none, some, List, [], ◌∷◌, ◌++◌, length,
  arith, inl, inr, ltb, Bool-cases, unwrap_or, subst,
}
use lodger.Throttle.{
  Entry, default_entry, Attempt, Throttle, granted, refused, max_keys, max_delay, delay_for,
  is_live, drop_old, touch, entry, push_back, take_turn, account_key, ip_key, begin,
}
use lodger.Throttle.Bounds.{IsValid}
use lodger.Throttle.Counts.{times_of, entry_cases, entry-own}

-- The key has these times, or it has none and the map is full.
abbrev pub HasTimes {ℓ} : {K : Type ℓ} ⦃e : Eq K⦄ → K → List ℕ → List (K × Entry) → Type 0
HasTimes k times m =
    ((x : Entry) × (get k m ≡ some x) × (x.times ≡ times))
    ⊎ ((get k m ≡ none) × (max_keys ≤ length m))

-- What the look-up of a key leaves of its times.
abbrev pub times_left {ℓ} : {K : Type ℓ} ⦃e : Eq K⦄ → K → ℕ → List (K × Entry) → List ℕ
times_left k now m = drop_old now (times_of (get k m))

found_times : (o : Option Entry) → (unwrap_or default_entry o).times ≡ times_of o
found_times none = refl
found_times (some x) = refl

module _ {ℓ} {K : Type ℓ} ⦃e : Eq K⦄ where
  insert-HasTimes : (k : K) (x : Entry) (m : List (K × Entry)) → HasTimes k x.times (insert k x m)
  insert-HasTimes k x m = inl (x, rw (get-insert k k x m, (e.beq_iff k k).1 refl) refl, refl)

  touch-HasTimes :
      (k : K) (now : ℕ) (m : List (K × Entry)) → HasTimes k (times_left k now m) (touch k now m).0
  unfolding touch drop_old
  touch-HasTimes k now m =
      subst (λ ts. HasTimes k (drop_old now ts) (touch k now m).0) (found_times (get k m))
        (insert-HasTimes k _ m)

  entry-HasTimes :
      (k : K) (now : ℕ) (m : List (K × Entry))
      → Distinct m
      → HasTimes k (times_left k now m) (entry k now m).0
  unfolding contains_key
  entry-HasTimes k now m d =
      let same = get-retain (is_live now) k m d in
      entry_cases (λ r. HasTimes k (times_left k now m) r.0) k now m
        (λ absent full. inr (ground (arith, absent, same), full))
        (λ absent _.
          let gone : times_of (get k (retain (is_live now) m)) ≡ times_of (get k m) =
            ground (arith, absent, same) in
          subst (λ ts. HasTimes k (drop_old now ts) (touch k now (retain (is_live now) m)).0) gone
            (touch-HasTimes k now (retain (is_live now) m)))
        (λ _. touch-HasTimes k now m)

  push_back-HasTimes :
      (k : K) (now : ℕ) (times : List ℕ) (m : List (K × Entry))
      → HasTimes k times m
      → HasTimes k (times ++ now ∷ []) (push_back k now m)
  unfolding push_back
  push_back-HasTimes k now times m (inl (x, found, same)) =
      rw (push_back, found)
        (subst
          (λ ts.
            HasTimes k (ts ++ now ∷ []) (insert k (record x { times = x.times ++ now ∷ [] }) m))
          same (insert-HasTimes k (record x { times = x.times ++ now ∷ [] }) m))
  push_back-HasTimes k now times m (inr (missing, full)) =
      rw (push_back, missing) (inr (missing, full))

-- A key that the map holds has its times there.
HasTimes-found {ℓ} :
    {K : Type ℓ} ⦃e : Eq K⦄ (k : K) (times : List ℕ) (m : List (K × Entry)) {x : Entry}
    → get k m ≡ some x
    → HasTimes k times m
    → x.times ≡ times
HasTimes-found k times m own (inl (y, found, same)) = ground (arith, own, found, same)
HasTimes-found k times m own (inr (missing, full)) = absurd (ground (arith, own, missing))

-- A key that it does not hold has no room, before and after.
HasTimes-missing {ℓ} :
    {K : Type ℓ} ⦃e : Eq K⦄ (k : K) (times later : List ℕ) (m : List (K × Entry))
    → get k m ≡ none
    → HasTimes k times m
    → HasTimes k later m
HasTimes-missing k times later m own (inl (y, found, same)) = absurd (ground (arith, own, found))
HasTimes-missing k times later m own (inr full) = inr full

-- A turn counts the attempt for the account and for the IP.
abbrev IsCounted :
    (account : List ℕ)
    → IpAddr
    → (now : ℕ) → (accounts_before ips_before : List ℕ) → Throttle
    → Type 0
IsCounted account ip now ats its s =
    HasTimes account (ats ++ now ∷ []) s.accounts × HasTimes ip (its ++ now ∷ []) s.ips

take_turn-IsCounted :
    (account : List ℕ) (ip : IpAddr) (now failures start : ℕ) (s : Throttle) (o : Option Entry)
    (ats its : List ℕ) {a : Attempt}
    → get ip s.ips ≡ o
    → HasTimes account ats s.accounts
    → HasTimes ip its s.ips
    → (take_turn account ip now failures start s o).1 ≡ granted a
    → IsCounted account ip now ats its (take_turn account ip now failures start s o).0
unfolding take_turn
take_turn-IsCounted account ip now failures start s none ats its own h k g = (
  push_back-HasTimes account now ats s.accounts h,
  HasTimes-missing ip its (its ++ now ∷ []) s.ips own k,
)
take_turn-IsCounted account ip now failures start s (some x) ats its own h k g =
    elim (Bool-cases (ltb max_delay (max start (unwrap_or start x.next) - now))) [
      | inl late ↦ absurd (ground (arith, late, g))
      | inr early ↦ rw early (
        push_back-HasTimes account now ats s.accounts h,
        let kept = HasTimes-found ip its s.ips own k in
            let queued = max start (unwrap_or start x.next) in
            let booked : Entry = record {
              times = x.times ++ now ∷ [];
              next = some (queued + delay_for (length (x.times ++ now ∷ [])));
            } in
            subst (λ ts. HasTimes ip (ts ++ now ∷ []) (insert ip booked s.ips)) kept
              (insert-HasTimes ip booked s.ips),
      )
    ]

-- A refused attempt changes nothing.
take_turn-refused :
    (account : List ℕ) (ip : IpAddr) (now failures start : ℕ) (s : Throttle) (o : Option Entry)
    {r : ℕ}
    → (take_turn account ip now failures start s o).1 ≡ refused r
    → (take_turn account ip now failures start s o).0 ≡ s
unfolding take_turn
take_turn-refused account ip now failures start s none g = ground (arith, g)
take_turn-refused account ip now failures start s (some x) g =
    elim (Bool-cases (ltb max_delay (max start (unwrap_or start x.next) - now))) [
      | inl late ↦ rw late refl
      | inr early ↦ absurd (ground (arith, early, g))
    ]

module _ (to_lowercase : List ℕ → List ℕ) where
  -- The times of the account and of the IP of an attempt, less those that left the window.
  abbrev pub account_times : (account : List ℕ) → (now : ℕ) → Throttle → List ℕ
  account_times account now s = times_left (account_key to_lowercase account) now s.accounts

  abbrev pub ip_times : IpAddr → (now : ℕ) → Throttle → List ℕ
  ip_times ip now s = times_left (ip_key ip) now s.ips

  -- The attempt is counted once more for its account and for its IP, as far as a full map allows.
  abbrev pub CountsAttempt :
      (account : List ℕ) → IpAddr → (now : ℕ) → (before after : Throttle) → Type 0
  CountsAttempt account ip now s t =
      HasTimes (account_key to_lowercase account) (account_times account now s ++ now ∷ [])
        t.accounts
      × HasTimes (ip_key ip) (ip_times ip now s ++ now ∷ []) t.ips

  -- The attempt is counted for neither.
  abbrev pub CountsNone :
      (account : List ℕ) → IpAddr → (now : ℕ) → (before after : Throttle) → Type 0
  CountsNone account ip now s t =
      HasTimes (account_key to_lowercase account) (account_times account now s) t.accounts
      × HasTimes (ip_key ip) (ip_times ip now s) t.ips

  pub begin-CountsAttempt :
      (account : List ℕ) (ip : IpAddr) (now : ℕ) (s : Throttle) {a : Attempt}
      → IsValid s
      → (begin to_lowercase account ip now s).1 ≡ granted a
      → CountsAttempt account ip now s (begin to_lowercase account ip now s).0
  unfolding begin
  begin-CountsAttempt account ip now s v g =
      take_turn-IsCounted _ (ip_key ip) now _ _ _ _ (account_times account now s)
        (ip_times ip now s) (entry-own (ip_key ip) now s.ips v.ips_distinct)
        (entry-HasTimes _ now s.accounts v.accounts_distinct)
        (entry-HasTimes _ now s.ips v.ips_distinct) g

  pub begin-CountsNone :
      (account : List ℕ) (ip : IpAddr) (now : ℕ) (s : Throttle) {r : ℕ}
      → IsValid s
      → (begin to_lowercase account ip now s).1 ≡ refused r
      → CountsNone account ip now s (begin to_lowercase account ip now s).0
  unfolding begin
  begin-CountsNone account ip now s v g =
      let same = take_turn-refused _ (ip_key ip) now _ _ _ _ g in
      subst (CountsNone account ip now s) (sym same) (
        entry-HasTimes _ now s.accounts v.accounts_distinct,
        entry-HasTimes _ now s.ips v.ips_distinct,
      )
