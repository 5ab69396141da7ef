-- ===== src/Throttle/Counts.antt =====
-- `Counts::entry` of crates/lodger/src/throttle.rs: sizes, distinct keys, the entry that comes back
-- and the earliest start that an entry stands for.
use lodger.Map.{get, contains_key, retain}
use lodger.Map.Laws.{
  Distinct, kept, get-insert, get-retain, length-insert, length-retain-le, insert-Distinct,
  retain-Distinct,
}
use lodger.Prelude.Equality.{Eq}
use lodger.Prelude.{
  ℕ, suc, ◌≤◌, ◌<◌, ◌⊎◌, not, ◌&&◌, true, leb, ◌≡◌, refl, ◌∙◌, ◌∷◌, [], ◌++◌, max, false, Option,
  none, some, List, arith, length, unwrap_or, if◌then◌else◌, Bool-cases, Option-cases, inl, inr,
}
use lodger.Throttle.{Entry, default_entry, max_keys, is_live, drop_old, touch, entry, push_back}

-- The earliest start of the next attempt at `now`, by the entry of its key.
abbrev pub next_start : ℕ → Option Entry → ℕ
next_start now none = now
next_start now (some e) = max now (unwrap_or now e.next)

pub next_start_mono :
    (now later : ℕ) (o : Option Entry) → now ≤ later → next_start now o ≤ next_start later o
next_start_mono now later o h = ground arith

-- An entry that a full map may drop holds no later start.
next_start-not_live : (now : ℕ) (e : Entry) → is_live now e ≡ false → next_start now (some e) ≡ now
unfolding is_live
next_start-not_live now e h = ground arith

next_start-kept :
    (now : ℕ) (o : Option Entry) → next_start now (kept (is_live now) o) ≡ next_start now o
next_start-kept now none = refl
next_start-kept now (some e) = ground (arith, next_start-not_live now e)

abbrev pub times_of : Option Entry → List ℕ
times_of none = []
times_of (some e) = e.times

module _ {ℓ} {K : Type ℓ} ⦃e : Eq K⦄ where
  -- The three ways through `entry`: a full map, a map that made room, and a map with room.
  pub entry_cases {κ} :
      (P : List (K × Entry) × Option Entry → Type κ) (k : K) (now : ℕ) (m : List (K × Entry))
      → (contains_key k m ≡ false
          → max_keys ≤ length (retain (is_live now) m)
          → P (retain (is_live now) m, none))
      → (contains_key k m ≡ false
          → length (retain (is_live now) m) < max_keys
          → P (touch k now (retain (is_live now) m)))
      → ((contains_key k m ≡ true) ⊎ (length m < max_keys) → P (touch k now m))
      → P (entry k now m)
  unfolding entry
  entry_cases P k now m full room some_room =
      elim (Bool-cases (leb max_keys (length m) && not (contains_key k m))) [
        | inl crowded ↦
            let absent : contains_key k m ≡ false = ground arith in
            elim (Bool-cases (leb max_keys (length (retain (is_live now) m)))) [
              | inl still ↦ rw (crowded, still) (full absent (ground arith))
              | inr freed ↦ rw (crowded, freed) (room absent (ground arith))
            ]
        | inr roomy ↦ rw roomy (some_room (ground arith))
      ]

  touch-Distinct :
      (k : K) (now : ℕ) (m : List (K × Entry)) → Distinct m → Distinct (touch k now m).0
  unfolding touch
  touch-Distinct k now m d = insert-Distinct k _ m d

  pub entry-Distinct :
      (k : K) (now : ℕ) (m : List (K × Entry)) → Distinct m → Distinct (entry k now m).0
  entry-Distinct k now m d =
      let kept : Distinct (retain (is_live now) m) = retain-Distinct (is_live now) m d in
      entry_cases (λ r. Distinct r.0) k now m (λ _ _. kept)
        (λ _ _. touch-Distinct k now (retain (is_live now) m) kept) (λ _. touch-Distinct k now m d)

  touch-length :
      (k : K) (now : ℕ) (m : List (K × Entry))
      → length (touch k now m).0 ≡ (if contains_key k m then length m else suc (length m))
  unfolding touch
  touch-length k now m = length-insert k _ m

  pub entry-length :
      (k : K) (now : ℕ) (m : List (K × Entry))
      → length m ≤ max_keys
      → length (entry k now m).0 ≤ max_keys
  entry-length k now m h =
      let smaller = length-retain-le (is_live now) m in
      entry_cases (λ r. length r.0 ≤ max_keys) k now m (λ _ _. omega arith)
        (λ _ room. ground (arith, touch-length k now (retain (is_live now) m)))
        (λ room. ground (arith, touch-length k now m))

  touch-own : (k : K) (now : ℕ) (m : List (K × Entry)) → get k (touch k now m).0 ≡ (touch k now m).1
  unfolding touch
  touch-own k now m = rw (get-insert k k _ m, (e.beq_iff k k).1 refl)

  -- The entry that comes back is the one that the map holds, and there is none if the map is full.
  pub entry-own :
      (k : K) (now : ℕ) (m : List (K × Entry))
      → Distinct m
      → get k (entry k now m).0 ≡ (entry k now m).1
  unfolding contains_key
  entry-own k now m d =
      entry_cases (λ r. get k r.0 ≡ r.1) k now m
        (λ absent _. ground (arith, get-retain (is_live now) k m d))
        (λ _ _. touch-own k now (retain (is_live now) m)) (λ _. touch-own k now m)

  touch-next_start :
      (k j : K) (now : ℕ) (m : List (K × Entry))
      → next_start now (get j (touch k now m).0) ≡ next_start now (get j m)
  unfolding touch
  touch-next_start k j now m = ground (
    arith,
    get-insert k j
        (record {
          times = drop_old now (unwrap_or default_entry (get k m)).times;
          next = (unwrap_or default_entry (get k m)).next;
        })
        m,
    e.beq_iff k j,
  )

  -- Looking an entry up, with all that it drops, moves no queue: every key keeps its next start.
  pub entry-next_start :
      (k j : K) (now : ℕ) (m : List (K × Entry))
      → Distinct m
      → next_start now (get j (entry k now m).0) ≡ next_start now (get j m)
  entry-next_start k j now m d =
      let dropped : next_start now (get j (retain (is_live now) m)) ≡ next_start now (get j m) =
        rw (get-retain (is_live now) j m d) (next_start-kept now (get j m)) in
      entry_cases (λ r. next_start now (get j r.0) ≡ next_start now (get j m)) k now m
        (λ _ _. dropped) (λ _ _. touch-next_start k j now (retain (is_live now) m) ∙ dropped)
        (λ _. touch-next_start k j now m)

  -- The entry that comes back holds the key's times that are still in the window.
  pub entry-times :
      (k : K) (now : ℕ) (m : List (K × Entry)) {x : Entry}
      → Distinct m
      → (entry k now m).1 ≡ some x
      → x.times ≡ drop_old now (times_of (get k m))
  unfolding contains_key touch drop_old
  entry-times k now m {x} d =
      entry_cases (λ r. r.1 ≡ some x → x.times ≡ drop_old now (times_of (get k m))) k now m
        (λ _ _. ground arith) (λ absent _. ground (arith, get-retain (is_live now) k m d))
        (λ _. ground arith)

  pub push_back-Distinct :
      (k : K) (now : ℕ) (m : List (K × Entry)) → Distinct m → Distinct (push_back k now m)
  unfolding push_back
  push_back-Distinct k now m d = elim (Option-cases (get k m)) [
    | inl missing ↦ rw (missing, push_back) d
    | inr (x, found) ↦
        rw (found, push_back) (insert-Distinct k (record x { times = x.times ++ now ∷ [] }) m d)
  ]

  pub push_back-length :
      (k : K) (now : ℕ) (m : List (K × Entry)) → length (push_back k now m) ≡ length m
  unfolding push_back contains_key
  push_back-length k now m = elim (Option-cases (get k m)) [
    | inl missing ↦ rw (missing, push_back)
    | inr (x, found) ↦
        rw (found, push_back)
          (ground (arith, length-insert k (record x { times = x.times ++ now ∷ [] }) m))
  ]
