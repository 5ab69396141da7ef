-- ===== src/Validate/Path/Chars.antt =====
-- The characters of the plain form of a path: crates/lodger-core/src/validate.rs.
use lodger.Prelude.{
  ℕ, ◌≡◌, refl, Bool, false, List, [], ◌∷◌, ◌++◌, arith, All, ◌==◌, any, Bool-cases, inl, inr,
}
use lodger.Validate.{Text}
use lodger.Validate.Path.{cons_head, split, non_empty, parts, join}

-- What no character of the input is, no character of the plain form is.
module _ (q : ℕ → Bool) where
  cons_head-Lacks :
      (c : ℕ) (ps : List Text)
      → q c ≡ false
      → All (λ p. any q p ≡ false) ps
      → All (λ p. any q p ≡ false) (cons_head c ps)
  cons_head-Lacks c [] h hs = (ground arith, tt)
  cons_head-Lacks c (p ∷ ps) h (a, later) = (ground arith, later)

  split-Lacks : (v : Text) → any q v ≡ false → All (λ p. any q p ≡ false) (split b'/' v)
  unfolding split
  split-Lacks [] h = (refl, tt)
  split-Lacks (c ∷ cs) h = elim (Bool-cases (c == b'/')) [
    | inl slash ↦ rw slash (refl, split-Lacks cs (ground arith))
    | inr other ↦
        rw other (cons_head-Lacks c (split b'/' cs) (ground arith) (split-Lacks cs (ground arith)))
  ]

  non_empty-Lacks :
      (ps : List Text) → All (λ p. any q p ≡ false) ps → All (λ p. any q p ≡ false) (non_empty ps)
  unfolding non_empty
  non_empty-Lacks [] h = tt
  non_empty-Lacks ([] ∷ ps) (h, hs) = non_empty-Lacks ps hs
  non_empty-Lacks ((c ∷ p) ∷ ps) (h, hs) = (h, non_empty-Lacks ps hs)

  any-append : (xs ys : Text) → any q xs ≡ false → any q ys ≡ false → any q (xs ++ ys) ≡ false
  any-append [] ys h k = k
  any-append (x ∷ xs) ys h k = ground (arith, any-append xs ys)

  join-Lacks :
      (ps : List Text) → q b'/' ≡ false → All (λ p. any q p ≡ false) ps → any q (join ps) ≡ false
  unfolding join
  join-Lacks [] s h = refl
  join-Lacks (p ∷ []) s (h, _) = h
  join-Lacks (p ∷ r ∷ ps) s (h, hs) =
      any-append p (b'/' ∷ join (r ∷ ps)) h (ground (arith, join-Lacks (r ∷ ps) s hs))

  pub plain-Lacks :
      (v : Text) → q b'/' ≡ false → any q v ≡ false → any q (b'/' ∷ join (parts v)) ≡ false
  unfolding parts
  plain-Lacks v s h =
      rw s
        (join-Lacks (non_empty (split b'/' v)) s (non_empty-Lacks (split b'/' v) (split-Lacks v h)))
