-- ===== src/Throttle/Window.antt =====
-- The 15-minute window of crates/lodger/src/throttle.rs: what the front of a queue drops and what a
-- full map drops.
use lodger.Map.{get, retain}
use lodger.Map.Laws.{
  Distinct, kept, get-insert, get-retain, AllValues, get-AllValues, insert-AllValues,
  retain-AllValues,
}
use lodger.Prelude.Equality.{Eq}
use lodger.Prelude.{
  ℕ, ◌-◌, ◌≤◌, ◌<◌, ◌≡◌, refl, ◌∙◌, false, Option, none, some, List, [], ◌∷◌, ◌++◌, arith, back,
  All, All-append, Option-cases, ltb, leb, if◌then◌else◌, unwrap_or, is_some_and, Bool-cases, inl,
  inr,
}
use lodger.Throttle.{Entry, default_entry, window, is_live, drop_old, touch, entry, push_back}
use lodger.Throttle.Counts.{entry_cases}
use lodger.Throttle.Turns.{recent}

-- The oldest attempt first.
abbrev pub Ascending : List ℕ → Type 0
Ascending [] = Unit
Ascending (t ∷ ts) = All (λ u. t ≤ u) ts × Ascending ts

abbrev pub in_window : ℕ → List ℕ → List ℕ
in_window now [] = []
in_window now (t ∷ ts) =
    let later = in_window now ts in if ltb (now - t) window then t ∷ later else later

in_window_whole :
    (now t : ℕ) (ts : List ℕ) → now - t < window → All (λ u. t ≤ u) ts → in_window now ts ≡ ts
in_window_whole now t [] h a = refl
in_window_whole now t (u ∷ ts) h (le, a) = ground (arith, in_window_whole now t ts h a)

-- Dropping from the front leaves exactly the attempts of the window, since the queue is in order.
pub drop_old-eq-in_window :
    (now : ℕ) (ts : List ℕ) → Ascending ts → drop_old now ts ≡ in_window now ts
unfolding drop_old
drop_old-eq-in_window now [] a = refl
drop_old-eq-in_window now (t ∷ ts) (le, a) =
    ground (arith, drop_old-eq-in_window now ts a, in_window_whole now t ts)

drop_old-drop_old : (now : ℕ) (ts : List ℕ) → drop_old now (drop_old now ts) ≡ drop_old now ts
unfolding drop_old
drop_old-drop_old now [] = refl
drop_old-drop_old now (t ∷ ts) = elim (Bool-cases (leb window (now - t))) [
  | inl old ↦ rw (old, drop_old) (drop_old-drop_old now ts)
  | inr fresh ↦ rw (fresh, drop_old) (rw (fresh, drop_old))
]

-- If the newest attempt left the window, then all did.
drop_old-eq-nil :
    (now : ℕ) (ts : List ℕ)
    → Ascending ts
    → is_some_and (λ t. ltb (now - t) window) (back ts) ≡ false
    → drop_old now ts ≡ []
unfolding drop_old
drop_old-eq-nil now [] a h = refl
drop_old-eq-nil now (t ∷ []) a h = ground arith
drop_old-eq-nil now (t ∷ u ∷ ts) ((le, rest), a) h =
    let later = drop_old-eq-nil now (u ∷ ts) a h in ground (arith, later)

-- The times of an entry are in order and not in the future.
abbrev pub InOrder : ℕ → Entry → Type 0
InOrder now e = Ascending e.times × All (λ t. t ≤ now) e.times

drop_old-All {ℓ} : (P : ℕ → Type ℓ) (now : ℕ) (ts : List ℕ) → All P ts → All P (drop_old now ts)
unfolding drop_old
drop_old-All P now [] h = tt
drop_old-All P now (t ∷ ts) (h, hs) = ground (arith, drop_old-All P now ts hs)

drop_old-Ascending : (now : ℕ) (ts : List ℕ) → Ascending ts → Ascending (drop_old now ts)
unfolding drop_old
drop_old-Ascending now [] h = tt
drop_old-Ascending now (t ∷ ts) (h, hs) = ground (arith, drop_old-Ascending now ts hs)

All-mono :
    (now later : ℕ) (ts : List ℕ) → now ≤ later → All (λ t. t ≤ now) ts → All (λ t. t ≤ later) ts
All-mono now later [] le h = tt
All-mono now later (t ∷ ts) le (h, hs) = (omega arith, All-mono now later ts le hs)

pub append-Ascending :
    (now : ℕ) (ts : List ℕ) → Ascending ts → All (λ t. t ≤ now) ts → Ascending (ts ++ now ∷ [])
append-Ascending now [] a h = (tt, tt)
append-Ascending now (t ∷ ts) (le, a) (h, hs) =
    (All-append (λ u. t ≤ u) ts (now ∷ []) le (h, tt), append-Ascending now ts a hs)

pub InOrder-mono : (now later : ℕ) (e : Entry) → now ≤ later → InOrder now e → InOrder later e
InOrder-mono now later e le (a, h) = (a, All-mono now later e.times le h)

recent-kept :
    (now : ℕ) (o : Option Entry)
    → ((e : Entry) → o ≡ some e → Ascending e.times)
    → recent now (kept (is_live now) o) ≡ recent now o
unfolding is_live drop_old
recent-kept now none a = refl
recent-kept now (some e) a = ground (arith, drop_old-eq-nil now e.times (a e refl))

module _ {ℓ} {K : Type ℓ} ⦃e : Eq K⦄ where
  touch-recent :
      (k j : K) (now : ℕ) (m : List (K × Entry))
      → recent now (get j (touch k now m).0) ≡ recent now (get j m)
  unfolding touch
  touch-recent k j now m =
      let found = unwrap_or default_entry (get k m) in
      let fresh : Entry = record { times = drop_old now found.times; next = found.next } in
      ground (
        arith,
        get-insert k j fresh m,
        e.beq_iff k j,
        drop_old-drop_old now (unwrap_or default_entry (get k m)).times,
      )

  -- On a map of distinct keys whose times are in order, looking an entry up changes the times in the
  -- window of no key, not even by what a full map drops to make room.
  pub entry-recent :
      (k j : K) (now : ℕ) (m : List (K × Entry))
      → Distinct m
      → AllValues (InOrder now) m
      → recent now (get j (entry k now m).0) ≡ recent now (get j m)
  entry-recent k j now m d o =
      let dropped : recent now (get j (retain (is_live now) m)) ≡ recent now (get j m) =
        rw (get-retain (is_live now) j m d)
          (recent-kept now (get j m) λ x q. (get-AllValues (InOrder now) j m o q).0) in
      entry_cases (λ r. recent now (get j r.0) ≡ recent now (get j m)) k now m (λ _ _. dropped)
        (λ _ _. touch-recent k j now (retain (is_live now) m) ∙ dropped)
        (λ _. touch-recent k j now m)

  pub found-InOrder :
      (k : K) (now : ℕ) (m : List (K × Entry))
      → AllValues (InOrder now) m
      → InOrder now (unwrap_or default_entry (get k m))
  found-InOrder k now m o = elim (Option-cases (get k m)) [
    | inl missing ↦ rw missing (tt, tt)
    | inr (x, found) ↦ rw found (get-AllValues (InOrder now) k m o found)
  ]

  touch-InOrder :
      (k : K) (now : ℕ) (m : List (K × Entry))
      → AllValues (InOrder now) m
      → AllValues (InOrder now) (touch k now m).0
  unfolding touch
  touch-InOrder k now m o =
      let found = unwrap_or default_entry (get k m) in
      let (a, h) = found-InOrder k now m o in
      insert-AllValues (InOrder now) k _ m
        (drop_old-Ascending now found.times a, drop_old-All (λ t. t ≤ now) now found.times h) o

  pub entry-InOrder :
      (k : K) (now : ℕ) (m : List (K × Entry))
      → AllValues (InOrder now) m
      → AllValues (InOrder now) (entry k now m).0
  entry-InOrder k now m o =
      let kept = retain-AllValues (InOrder now) (is_live now) m o in
      entry_cases (λ r. AllValues (InOrder now) r.0) k now m (λ _ _. kept)
        (λ _ _. touch-InOrder k now (retain (is_live now) m) kept) (λ _. touch-InOrder k now m o)

  pub push_back-InOrder :
      (k : K) (now : ℕ) (m : List (K × Entry))
      → AllValues (InOrder now) m
      → AllValues (InOrder now) (push_back k now m)
  unfolding push_back
  push_back-InOrder k now m o = elim (Option-cases (get k m)) [
    | inl missing ↦ rw (missing, push_back) o
    | inr (x, found) ↦
        let (a, h) = get-AllValues (InOrder now) k m o found in
        rw (found, push_back)
          (insert-AllValues (InOrder now) k _ m
            (
              append-Ascending now x.times a h,
              All-append (λ t. t ≤ now) x.times _ h (omega arith, tt),
            )
            o)
  ]
