-- ===== src/Throttle/Success.antt =====
-- `Throttle::succeed` of crates/lodger/src/throttle.rs, and the order of the times over any history.
use lodger.Map.{get, insert}
use lodger.Map.Laws.{
  get-insert, get-remove, Distinct, AllValues, get-AllValues, insert-AllValues, remove-AllValues,
}
use lodger.Net.{IpAddr, ip_eq, ip_beq, ip_beq_iff}
use lodger.Prelude.Equality.{Eq, text_eq, text_beq_iff}
use lodger.Prelude.{
  ℕ, ◌+◌, ◌≤◌, ◌≡◌, refl, sym, ap, ◌∙◌, ◌⊎◌, false, Option, none, some, List, [], ◌∷◌, ◌++◌, arith,
  length, All, All-append, Option-cases, Bool-cases, inl, inr,
}
use lodger.Throttle.{
  Entry, Throttle, Attempt, granted, entry, take_turn, account_key, ip_key, begin, succeed,
  take_back, remove_first,
}
use lodger.Throttle.Counts.{entry-own}
use lodger.Throttle.Bounds.{IsValid, begin-IsValid, succeed-IsValid}
use lodger.Throttle.Turns.{booked, Call, begins, succeeds, Ordered, last, run}
use lodger.Throttle.Window.{
  in_window, Ascending, InOrder, InOrder-mono, append-Ascending, entry-InOrder, entry-recent,
  push_back-InOrder,
}
use lodger.Throttle.Spec.{IsTimed, counted, recent-counted}

remove_first-All {ℓ} :
    (P : ℕ → Type ℓ) (at : ℕ) (ts : List ℕ) → All P ts → All P (remove_first at ts)
unfolding remove_first
remove_first-All P at [] h = tt
remove_first-All P at (t ∷ ts) (h, hs) = ground (arith, remove_first-All P at ts hs)

remove_first-Ascending : (at : ℕ) (ts : List ℕ) → Ascending ts → Ascending (remove_first at ts)
unfolding remove_first
remove_first-Ascending at [] h = tt
remove_first-Ascending at (t ∷ ts) (h, hs) =
    ground (arith, remove_first-Ascending at ts hs, remove_first-All (λ u. t ≤ u) at ts h)

remove_first-InOrder :
    (now at : ℕ) (ts : List ℕ)
    → Ascending ts × All (λ t. t ≤ now) ts
    → Ascending (remove_first at ts) × All (λ t. t ≤ now) (remove_first at ts)
remove_first-InOrder now at ts (a, h) =
    (remove_first-Ascending at ts a, remove_first-All (λ t. t ≤ now) at ts h)

AllValues-InOrder {ℓ} :
    {K : Type ℓ} (now later : ℕ) (m : List (K × Entry))
    → now ≤ later
    → AllValues (InOrder now) m
    → AllValues (InOrder later) m
AllValues-InOrder now later [] le h = tt
AllValues-InOrder now later ((k, e) ∷ m) le (h, hs) =
    (InOrder-mono now later e le h, AllValues-InOrder now later m le hs)

pub IsTimed-mono : (now later : ℕ) (s : Throttle) → now ≤ later → IsTimed now s → IsTimed later s
IsTimed-mono now later s le o = record {
  accounts_order = AllValues-InOrder now later s.accounts le o.accounts_order;
  ips_order = AllValues-InOrder now later s.ips le o.ips_order;
}

take_turn-IsTimed :
    (account : List ℕ) (ip : IpAddr) (now failures start : ℕ) (s : Throttle) (o : Option Entry)
    → get ip s.ips ≡ o
    → IsTimed now s
    → IsTimed now (take_turn account ip now failures start s o).0
unfolding take_turn
take_turn-IsTimed account ip now failures start s none own o = record {
  accounts_order = push_back-InOrder account now s.accounts o.accounts_order;
  ips_order = o.ips_order;
}
take_turn-IsTimed account ip now failures start s (some e) own o =
    let (a, h) = get-AllValues (InOrder now) ip s.ips o.ips_order own in
    let pushed = push_back-InOrder account now s.accounts o.accounts_order in
    let written : AllValues (InOrder now) (insert ip (booked now start e) s.ips) =
      insert-AllValues (InOrder now) ip (booked now start e) s.ips
        (append-Ascending now e.times a h, All-append (λ t. t ≤ now) e.times _ h (omega arith, tt))
        o.ips_order in
    ground (arith, pushed, written)

module _ (to_lowercase : List ℕ → List ℕ) where
  pub begin-IsTimed :
      (account : List ℕ) (ip : IpAddr) (now : ℕ) (s : Throttle)
      → IsValid s
      → IsTimed now s
      → IsTimed now (begin to_lowercase account ip now s).0
  unfolding begin
  begin-IsTimed account ip now s v o =
      take_turn-IsTimed _ (ip_key ip) now _ _ _ _ (entry-own (ip_key ip) now s.ips v.ips_distinct)
        (record {
          accounts_order =
              entry-InOrder (account_key to_lowercase account) now s.accounts o.accounts_order;
          ips_order = entry-InOrder (ip_key ip) now s.ips o.ips_order;
        })

  pub succeed-IsTimed :
      (account : List ℕ) (ip : IpAddr) (done : Attempt) (now : ℕ) (s : Throttle)
      → IsTimed now s
      → IsTimed now (succeed to_lowercase account ip done s)
  unfolding succeed take_back
  succeed-IsTimed account ip done now s o =
      let key = account_key to_lowercase account in
      let left = remove-AllValues (InOrder now) key s.accounts o.accounts_order in
      elim (Option-cases (get (ip_key ip) s.ips)) [
        | inl missing ↦
            rw (missing, take_back) (record { accounts_order = left; ips_order = o.ips_order })
        | inr (e, found) ↦
            let kept = get-AllValues (InOrder now) (ip_key ip) s.ips o.ips_order found in
            rw (found, take_back)
              (record {
                accounts_order = left;
                ips_order =
                    insert-AllValues (InOrder now) (ip_key ip) _ s.ips
                      (remove_first-InOrder now done.at e.times kept) o.ips_order;
              })
      ]

  -- From a valid state whose times are in order, any calls in the order of a clock leave a valid
  -- state whose times are in order: distinct keys and at most 10,000 of them in each map.
  pub run-IsValid :
      (now : ℕ) (s : Throttle) (cs : List Call)
      → IsValid s
      → IsTimed now s
      → Ordered now cs
      → IsValid (run to_lowercase s cs) × IsTimed (last now cs) (run to_lowercase s cs)
  unfolding run
  run-IsValid now s [] v o h = (v, o)
  run-IsValid now s (begins account ip t ∷ cs) v o (le, h) =
      run-IsValid t _ cs (begin-IsValid to_lowercase account ip t s v)
        (begin-IsTimed account ip t s v (IsTimed-mono now t s le o)) h
  run-IsValid now s (succeeds account ip done ∷ cs) v o h =
      run-IsValid now _ cs (succeed-IsValid to_lowercase account ip done s v)
        (succeed-IsTimed account ip done now s o) h

in_window-append :
    (now : ℕ) (xs ys : List ℕ)
    → length (in_window now (xs ++ ys)) ≡ length (in_window now xs) + length (in_window now ys)
in_window-append now [] ys = omega arith
in_window-append now (x ∷ xs) ys = ground (arith, in_window-append now xs ys)

-- Taking a time back undoes its push, as far as the count goes, also where other attempts began at
-- the same instant.
remove_first-append :
    (now at : ℕ) (ts : List ℕ)
    → length (in_window now (remove_first at (ts ++ at ∷ []))) ≡ length (in_window now ts)
unfolding remove_first
remove_first-append now at [] = ground arith
remove_first-append now at (t ∷ ts) =
    ground (arith, in_window-append now ts (at ∷ []), remove_first-append now at ts)

-- What a granted turn leaves under the key of its IP.
take_turn-own :
    (account : List ℕ) (ip : IpAddr) (now failures start : ℕ) (s : Throttle) (o : Option Entry)
    {a : Attempt}
    → get ip s.ips ≡ o
    → let r = take_turn account ip now failures start s o in
      r.1 ≡ granted a
      → (a.at ≡ now)
        × (((o ≡ none) × (get ip r.0.ips ≡ none))
            ⊎ ((e : Entry) × (o ≡ some e) × (get ip r.0.ips ≡ some (booked now start e))))
unfolding take_turn
take_turn-own account ip now failures start s none own g = (ground arith, inl (refl, own))
take_turn-own account ip now failures start s (some e) own g =
    let stored = get-insert ip ip (booked now start e) s.ips in
    (ground arith, inr (e, refl, ground (arith, stored, ip_beq_iff ip ip)))

take_turn-other :
    (account : List ℕ) (ip j : IpAddr) (now failures start : ℕ) (s : Throttle) (o : Option Entry)
    → ip_beq ip j ≡ false
    → get j (take_turn account ip now failures start s o).0.ips ≡ get j s.ips
unfolding take_turn
take_turn-other account ip j now failures start s none other = refl
take_turn-other account ip j now failures start s (some e) other =
    ground (arith, get-insert ip j (booked now start e) s.ips)

counted-entry {ℓ} :
    {K : Type ℓ} ⦃e : Eq K⦄ (k j : K) (now : ℕ) (m : List (K × Entry))
    → Distinct m
    → AllValues (InOrder now) m
    → counted now (get j (entry k now m).0) ≡ counted now (get j m)
counted-entry k j now m d o =
    sym (recent-counted j now (entry k now m).0 (entry-InOrder k now m o))
    ∙ entry-recent k j now m d o
    ∙ recent-counted j now m o

-- After a granted turn under `ip`, the success of that turn gives every IP its count back.
take_turn-back :
    (account : List ℕ) (ip j : IpAddr) (now failures start : ℕ) (s : Throttle) (o : Option Entry)
    {a : Attempt}
    → get ip s.ips ≡ o
    → let r = take_turn account ip now failures start s o in
      r.1 ≡ granted a → counted now (get j (take_back ip a.at r.0.ips)) ≡ counted now (get j s.ips)
unfolding take_turn take_back
take_turn-back account ip j now failures start s none own g = rw (own, take_back)
take_turn-back account ip j now failures start s (some e) {a} own g =
    let r = take_turn account ip now failures start s (some e) in
    let (at, left) = take_turn-own account ip now failures start s (some e) own g in
    let stored : get ip r.0.ips ≡ some (booked now start e) = ground (arith, left) in
    let taken : Entry = record (booked now start e) {
      times = remove_first a.at (e.times ++ now ∷ []);
    } in
    rw (stored, take_back)
      (elim (Bool-cases (ip_beq ip j)) [
        | inl same ↦
            let j_own : get j s.ips ≡ some e = rw (← (ip_beq_iff ip j).0 same) own in
            rw (get-insert ip j taken r.0.ips, same, j_own, at)
              (remove_first-append now now e.times)
        | inr other ↦
            rw (get-insert ip j taken r.0.ips, other)
              (ap (counted now) (take_turn-other account ip j now failures start s (some e) other))
      ])

module _ (to_lowercase : List ℕ → List ℕ) where
  -- From a valid state whose times are in order, a granted attempt that then succeeds clears the
  -- account, and every IP has as many attempts in the window as before it: the IP of the login
  -- keeps its other failures.
  pub succeed-begin :
      (account : List ℕ) (ip : IpAddr) (now : ℕ) (s : Throttle) {a : Attempt}
      → IsValid s
      → IsTimed now s
      → (begin to_lowercase account ip now s).1 ≡ granted a
      → let s' = succeed to_lowercase account ip a (begin to_lowercase account ip now s).0 in
        (get (account_key to_lowercase account) s'.accounts ≡ none)
        × ((j : IpAddr) → counted now (get j s'.ips) ≡ counted now (get j s.ips))
  unfolding begin succeed
  succeed-begin account ip now s v o g =
      let key = account_key to_lowercase account in
      let first = begin-IsValid to_lowercase account ip now s v in
      (
        rw (get-remove key key _ first.accounts_distinct, (text_beq_iff key key).1 refl),
        λ j.
            take_turn-back _ (ip_key ip) j now _ _ _ _
              (entry-own (ip_key ip) now s.ips v.ips_distinct) g
            ∙ counted-entry (ip_key ip) j now s.ips v.ips_distinct o.ips_order,
      )
