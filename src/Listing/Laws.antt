-- ===== src/Listing/Laws.antt =====
-- The list of objects is sorted and does not depend on the order of the `HashMap`.
use mathlib.Core.List.{Permᴰ}
use mathlib.Core.List.Permᴰ
use mathlib.Core.List.Permᴰ.{nil, cons, swap, trans}
use lodger.Listing.{comes_before, insert_sorted, list}
use lodger.Prelude.Equality.{text_beq, text_beq_iff}
use lodger.Prelude.{
  ℕ, ◌≡◌, ◌≢◌, ◌⊎◌, inl, inr, refl, sym, ap, ◌∙◌, subst, true, false, Bool-cases, List, [], ◌∷◌,
  ltb, arith, All, ◌&&◌, ◌||◌,
}
use lodger.Validate.{Text}
use lodger.Volume.Users.{is_less}
use lodger.Volume.Order.{less_trans, less_total, less_irrefl}

All-Permᴰ : {A : Type 0} (P : A → Type 0) {xs ys : List A} → Permᴰ xs ys → All P xs → All P ys
All-Permᴰ P nil h = tt
All-Permᴰ P (cons e p) (first, rest) = (subst P e first, All-Permᴰ P p rest)
All-Permᴰ P (swap e₁ e₂) (first, (second, rest)) = (subst P e₂ second, (subst P e₁ first, rest))
All-Permᴰ P (trans p q) h = All-Permᴰ P q (All-Permᴰ P p h)

module _ {A : Type 0} (name_of : A → Text) (uuid_of : A → ℕ) where
  before_trans :
      (a b c : A)
      → comes_before name_of uuid_of a b ≡ true
      → comes_before name_of uuid_of b c ≡ true
      → comes_before name_of uuid_of a c ≡ true
  unfolding comes_before
  before_trans a b c h k =
      let ab = text_beq_iff (name_of a) (name_of b) in
      let bc = text_beq_iff (name_of b) (name_of c) in
      let ac = text_beq_iff (name_of a) (name_of c) in
      let less = less_trans (name_of a) (name_of b) (name_of c) in
      ground (arith, h, k, ab, bc, ac, less)

  -- Objects of two UUIDs come in one order.
  before_total :
      (a b : A)
      → uuid_of a ≢ uuid_of b
      → ((comes_before name_of uuid_of a b ≡ true) × (comes_before name_of uuid_of b a ≡ false))
        ⊎ ((comes_before name_of uuid_of b a ≡ true) × (comes_before name_of uuid_of a b ≡ false))
  unfolding comes_before
  before_total a b other =
      let same = text_beq_iff (name_of a) (name_of b) in
      let back = text_beq_iff (name_of b) (name_of a) in
      let self = less_irrefl (name_of a) in
      let around = less_trans (name_of a) (name_of b) (name_of a) in
      elim (less_total (name_of a) (name_of b)) [
        | inl less ↦ ground (arith, less, same, back, self, around)
        | inr (inr less) ↦ ground (arith, less, same, back, self, around)
        | inr (inl names) ↦
            let selves = less_irrefl (name_of b) in
            let equal = (text_beq_iff (name_of b) (name_of b)).1 refl in
            rw names (ground (arith, selves, equal, other))
      ]

  -- No object comes before an earlier one.
  abbrev pub IsSorted : List A → Type 0
  IsSorted [] = Unit
  IsSorted (x ∷ xs) = All (λ y. comes_before name_of uuid_of y x ≡ false) xs × IsSorted xs

  abbrev pub Distinct : List A → Type 0
  Distinct [] = Unit
  Distinct (x ∷ xs) = All (λ y. uuid_of x ≢ uuid_of y) xs × Distinct xs

  -- Two insertions of objects in their order.
  insert-insert_before :
      (a b : A) (l : List A)
      → comes_before name_of uuid_of a b ≡ true
      → comes_before name_of uuid_of b a ≡ false
      → insert_sorted name_of uuid_of a (insert_sorted name_of uuid_of b l)
        ≡ insert_sorted name_of uuid_of b (insert_sorted name_of uuid_of a l)
  unfolding insert_sorted
  insert-insert_before a b [] first second = ground (arith, first, second)
  insert-insert_before a b (y ∷ l) first second =
      let through = before_trans y a b in
      let later = insert-insert_before a b l first second in
      ground (arith, first, second, through, later)

  insert-insert :
      (a b : A) (l : List A)
      → uuid_of a ≢ uuid_of b
      → insert_sorted name_of uuid_of a (insert_sorted name_of uuid_of b l)
        ≡ insert_sorted name_of uuid_of b (insert_sorted name_of uuid_of a l)
  insert-insert a b l other = elim (before_total a b other) [
    | inl (first, second) ↦ insert-insert_before a b l first second
    | inr (first, second) ↦ sym (insert-insert_before b a l first second)
  ]

  Distinct-Permᴰ : {xs ys : List A} → Permᴰ xs ys → Distinct xs → Distinct ys
  Distinct-Permᴰ nil h = tt
  Distinct-Permᴰ (cons {l₂ = later} e p) (apart, rest) = (
    subst (λ x. All (λ y. uuid_of x ≢ uuid_of y) later) e (All-Permᴰ _ p apart),
    Distinct-Permᴰ p rest,
  )
  Distinct-Permᴰ (swap {a} {b} {a'} {b'} {l} e₁ e₂) ((other, first), (second, rest)) =
      let swapped : Distinct (b ∷ a ∷ l) = (((λ same. other (sym same)), second), (first, rest)) in
      subst (λ x. Distinct (a' ∷ x ∷ l)) e₁ (subst (λ x. Distinct (x ∷ a ∷ l)) e₂ swapped)
  Distinct-Permᴰ (trans p q) h = Distinct-Permᴰ q (Distinct-Permᴰ p h)

  list-Permᴰ :
      {xs ys : List A}
      → Permᴰ xs ys
      → Distinct xs
      → list name_of uuid_of xs ≡ list name_of uuid_of ys
  unfolding list
  list-Permᴰ nil h = refl
  list-Permᴰ (cons {a} {b} {l₁} {l₂} e p) (apart, rest) =
      ap (λ x. insert_sorted name_of uuid_of x (list name_of uuid_of l₁)) e
      ∙ ap (insert_sorted name_of uuid_of b) (list-Permᴰ p rest)
  list-Permᴰ (swap {a} {b} {a'} {b'} {l} e₁ e₂) ((other, first), _) =
      insert-insert a b (list name_of uuid_of l) other
      ∙ ap
          (λ x.
            insert_sorted name_of uuid_of b
              (insert_sorted name_of uuid_of x (list name_of uuid_of l)))
          e₁
      ∙ ap
          (λ x.
            insert_sorted name_of uuid_of x
              (insert_sorted name_of uuid_of b' (list name_of uuid_of l)))
          e₂
  list-Permᴰ (trans p q) h = list-Permᴰ p h ∙ list-Permᴰ q (Distinct-Permᴰ p h)

  -- Every object is after the first or before the second of two in their order.
  before_split :
      (a b c : A)
      → comes_before name_of uuid_of a c ≡ true
      → (comes_before name_of uuid_of a b ≡ true) ⊎ (comes_before name_of uuid_of b c ≡ true)
  unfolding comes_before
  before_split a b c h = elim (less_total (name_of a) (name_of b)) [
    | inl less ↦ inl (ground (arith, less))
    | inr (inr less) ↦
        let through = less_trans (name_of b) (name_of a) (name_of c) less in
        let same = (text_beq_iff (name_of a) (name_of c)).0 in
        let last =
          λ (q : name_of a ≡ name_of c). subst (λ n. is_less (name_of b) n ≡ true) q less in
        ground (arith, h, through, same, last)
    | inr (inl same) ↦
        let equal = (text_beq_iff (name_of a) (name_of b)).1 same in
        let moved =
          subst
            (λ n.
              (is_less n (name_of c) || text_beq n (name_of c) && ltb (uuid_of a) (uuid_of c))
              ≡ true)
            same h in
        ground (arith, moved, equal)
  ]

  insert-All :
      (P : A → Type 0) (x : A) (l : List A)
      → P x
      → All P l
      → All P (insert_sorted name_of uuid_of x l)
  unfolding insert_sorted
  insert-All P x [] p h = (p, tt)
  insert-All P x (y ∷ l) p (first, rest) = elim (Bool-cases (comes_before name_of uuid_of y x)) [
    | inl before ↦ rw before (first, insert-All P x l p rest)
    | inr after ↦ rw after (p, (first, rest))
  ]

  insert-Permᴰ : (x : A) (l : List A) → Permᴰ (insert_sorted name_of uuid_of x l) (x ∷ l)
  unfolding insert_sorted
  insert-Permᴰ x [] = cons refl nil
  insert-Permᴰ x (y ∷ l) = elim (Bool-cases (comes_before name_of uuid_of y x)) [
    | inl before ↦ rw before (trans (cons refl (insert-Permᴰ x l)) (swap refl refl))
    | inr after ↦ rw after (Permᴰ.refl (x ∷ y ∷ l))
  ]

  before_asymm :
      (a b : A) → comes_before name_of uuid_of a b ≡ true → comes_before name_of uuid_of b a ≡ false
  unfolding comes_before
  before_asymm a b h = elim (Bool-cases (comes_before name_of uuid_of b a)) [
    | inl back ↦
        let self = before_trans a b a h back in
        let none = less_irrefl (name_of a) in ground (arith, self, none)
    | inr not_back ↦ not_back
  ]

  All-after :
      (x y : A) (l : List A)
      → comes_before name_of uuid_of y x ≡ false
      → All (λ z. comes_before name_of uuid_of z y ≡ false) l
      → All (λ z. comes_before name_of uuid_of z x ≡ false) l
  All-after x y [] after h = tt
  All-after x y (z ∷ l) after (first, rest) =
      let split = before_split z y x in
      (ground (arith, split, after, first), All-after x y l after rest)

  insert-IsSorted : (x : A) (l : List A) → IsSorted l → IsSorted (insert_sorted name_of uuid_of x l)
  unfolding insert_sorted
  insert-IsSorted x [] h = (tt, tt)
  insert-IsSorted x (y ∷ l) (first, rest) = elim (Bool-cases (comes_before name_of uuid_of y x)) [
    | inl before ↦
        let below = before_asymm y x before in
        rw before (insert-All _ x l below first, insert-IsSorted x l rest)
    | inr after ↦ rw after (((after, All-after x y l after first), (first, rest)))
  ]

  list-IsSorted : (xs : List A) → IsSorted (list name_of uuid_of xs)
  unfolding list
  list-IsSorted [] = tt
  list-IsSorted (x ∷ xs) = insert-IsSorted x (list name_of uuid_of xs) (list-IsSorted xs)

  list-Permᴰ_self : (xs : List A) → Permᴰ (list name_of uuid_of xs) xs
  unfolding list
  list-Permᴰ_self [] = nil
  list-Permᴰ_self (x ∷ xs) =
      trans (insert-Permᴰ x (list name_of uuid_of xs)) (cons refl (list-Permᴰ_self xs))

  -- The list has the objects of the map, each once, sorted by their names and, where two names are the
  -- same, by their UUIDs. Where the UUIDs are distinct, as the keys of a map are, two orders in which the
  -- map gives its values have one list.
  pub list-IsSorted_agree :
      (xs ys : List A)
      → Distinct xs
      → Permᴰ xs ys
      → IsSorted (list name_of uuid_of xs)
        × Permᴰ (list name_of uuid_of xs) xs
        × (list name_of uuid_of xs ≡ list name_of uuid_of ys)
  list-IsSorted_agree xs ys distinct p =
      (list-IsSorted xs, list-Permᴰ_self xs, list-Permᴰ p distinct)
