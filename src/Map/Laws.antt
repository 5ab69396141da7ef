-- ===== src/Map/Laws.antt =====
-- The laws of the map operations: reading after each one, sizes, and distinct keys.
use lodger.Prelude.Equality.{Eq}
use lodger.Prelude.{
  suc, ◌≤◌, ◌≡◌, refl, Bool, List, [], ◌∷◌, Option, none, some, arith, if◌then◌else◌, length,
  Bool-cases, inl, inr, subst,
}
use lodger.Map.{get, contains_key, insert, remove, retain}

-- What `retain` keeps is what the test passes.
abbrev pub kept {κ} : {V : Type κ} → (V → Bool) → Option V → Option V
kept p none = none
kept p (some v) = if p v then some v else none

module _ {ℓ κ} {K : Type ℓ} {V : Type κ} ⦃e : Eq K⦄ where
  -- No key stands twice.
  abbrev pub Distinct : List (K × V) → Type κ
  Distinct [] = Unit
  Distinct ((k, v) ∷ m) = (get k m ≡ none) × Distinct m

  pub get-insert :
      (k j : K) (v : V) (m : List (K × V))
      → get j (insert k v m) ≡ (if e.beq k j then some v else get j m)
  unfolding get insert
  get-insert k j v [] = refl
  get-insert k j v ((i, w) ∷ m) =
      ground (arith, e.beq_iff k j, e.beq_iff i k, e.beq_iff i j, get-insert k j v m)

  pub get-remove :
      (k j : K) (m : List (K × V))
      → Distinct m
      → get j (remove k m) ≡ (if e.beq k j then none else get j m)
  unfolding get remove
  get-remove k j [] d = ground arith
  get-remove k j ((i, w) ∷ m) (h, d) =
      ground (arith, e.beq_iff k j, e.beq_iff i k, e.beq_iff i j, get-remove k j m d)

  pub length-insert :
      (k : K) (v : V) (m : List (K × V))
      → length (insert k v m) ≡ (if contains_key k m then length m else suc (length m))
  unfolding get insert contains_key
  length-insert k v [] = refl
  length-insert k v ((i, w) ∷ m) = ground (arith, length-insert k v m)

  pub length-remove-le : (k : K) (m : List (K × V)) → length (remove k m) ≤ length m
  unfolding remove
  length-remove-le k [] = omega arith
  length-remove-le k ((i, w) ∷ m) = ground (arith, length-remove-le k m)

  pub insert-Distinct : (k : K) (v : V) (m : List (K × V)) → Distinct m → Distinct (insert k v m)
  unfolding insert get
  insert-Distinct k v [] d = (refl, tt)
  insert-Distinct k v ((i, w) ∷ m) (h, d) =
      ground (arith, e.beq_iff i k, e.beq_iff k i, get-insert k i v m, insert-Distinct k v m d)

  pub remove-Distinct : (k : K) (m : List (K × V)) → Distinct m → Distinct (remove k m)
  unfolding remove
  remove-Distinct k [] d = tt
  remove-Distinct k ((i, w) ∷ m) (h, d) = ground (arith, get-remove k i m d, remove-Distinct k m d)

  pub get-retain :
      (p : V → Bool) (j : K) (m : List (K × V)) → Distinct m → get j (retain p m) ≡ kept p (get j m)
  unfolding get retain
  get-retain p j [] d = refl
  get-retain p j ((i, w) ∷ m) (h, d) = ground (arith, e.beq_iff i j, get-retain p j m d)

  pub retain-Distinct : (p : V → Bool) (m : List (K × V)) → Distinct m → Distinct (retain p m)
  unfolding retain
  retain-Distinct p [] d = tt
  retain-Distinct p ((i, w) ∷ m) (h, d) = ground (arith, get-retain p i m d, retain-Distinct p m d)

module _ {ℓ κ} {K : Type ℓ} {V : Type κ} where
  pub length-retain-le : (p : V → Bool) (m : List (K × V)) → length (retain p m) ≤ length m
  unfolding retain
  length-retain-le p [] = omega arith
  length-retain-le p ((i, w) ∷ m) = ground (arith, length-retain-le p m)

-- A property of every value.
module _ {ℓ κ ι} {K : Type ℓ} {V : Type κ} (P : V → Type ι) where
  abbrev pub AllValues : List (K × V) → Type ι
  AllValues [] = Unit
  AllValues ((k, v) ∷ m) = P v × AllValues m

  pub retain-AllValues : (p : V → Bool) (m : List (K × V)) → AllValues m → AllValues (retain p m)
  unfolding retain
  retain-AllValues p [] h = tt
  retain-AllValues p ((k, v) ∷ m) (h, hs) = ground (arith, retain-AllValues p m hs)

module _ {ℓ κ ι} {K : Type ℓ} {V : Type κ} ⦃e : Eq K⦄ (P : V → Type ι) where
  pub insert-AllValues :
      (k : K) (v : V) (m : List (K × V)) → P v → AllValues P m → AllValues P (insert k v m)
  unfolding insert
  insert-AllValues k v [] p h = (p, tt)
  insert-AllValues k v ((j, w) ∷ m) p (h, hs) = ground (arith, insert-AllValues k v m p hs)

  pub remove-AllValues : (k : K) (m : List (K × V)) → AllValues P m → AllValues P (remove k m)
  unfolding remove
  remove-AllValues k [] h = tt
  remove-AllValues k ((j, w) ∷ m) (h, hs) = ground (arith, remove-AllValues k m hs)

  pub get-AllValues : (k : K) (m : List (K × V)) {v : V} → AllValues P m → get k m ≡ some v → P v
  unfolding get
  get-AllValues k [] h q = cc
  get-AllValues k ((j, w) ∷ m) {v} (h, hs) q = elim (Bool-cases (e.beq j k)) [
    | inl same ↦ let stored : some w ≡ some v = rw same at q in subst P (cc) h
    | inr other ↦ get-AllValues k m hs (rw other at q)
  ]
