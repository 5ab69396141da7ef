-- ===== src/Validate/Path/Bytes.antt =====
-- The bytes of the plain form of a path: crates/lodger-core/src/validate.rs.
use lodger.Prelude.{
  ℕ, suc, ◌+◌, ◌≤◌, ◌≡◌, refl, ap, true, List, [], ◌∷◌, ◌++◌, arith, ◌==◌, Bool-cases, inl, inr,
}
use lodger.Validate.{Text, len, len_utf8}
use lodger.Validate.Path.{cons_head, split, non_empty, parts, join, is_absolute}

-- The bytes of the parts, each with one slash.
weight : List Text → ℕ
weight [] = 0
weight (p ∷ ps) = suc (len p) + weight ps

len-append : (xs ys : Text) → len (xs ++ ys) ≡ len xs + len ys
unfolding len
len-append [] ys = omega arith
len-append (x ∷ xs) ys = omega (arith, len-append xs ys)

cons_head-weight :
    (c : ℕ) (p : Text) (ps : List Text)
    → weight (cons_head c (p ∷ ps)) ≡ len_utf8 c + weight (p ∷ ps)
unfolding weight len
cons_head-weight c p ps = omega arith

len_slash : len_utf8 b'/' ≡ 1
unfolding len_utf8
len_slash = refl

split-cons : (v : Text) → (p : Text) × (ps : List Text) × (split b'/' v ≡ p ∷ ps)
unfolding split
split-cons [] = ([], [], refl)
split-cons (c ∷ cs) =
    let (p, ps, e) = split-cons cs in
    elim (Bool-cases (c == b'/')) [
      | inl slash ↦ ([], split b'/' cs, rw slash)
      | inr other ↦ (c ∷ p, ps, rw (other, e))
    ]

split-weight : (v : Text) → weight (split b'/' v) ≡ suc (len v)
unfolding split weight len
split-weight [] = refl
split-weight (c ∷ cs) =
    let (p, ps, e) = split-cons cs in
    let later = split-weight cs in
    elim (Bool-cases (c == b'/')) [
      | inl slash ↦
          let is_slash : c ≡ b'/' = ground arith in
          rw slash (omega (arith, later, len_slash, ap len_utf8 is_slash))
      | inr other ↦ rw (other, e) (omega (arith, rw e at later))
    ]

non_empty-weight : (ps : List Text) → weight (non_empty ps) ≤ weight ps
unfolding non_empty weight
non_empty-weight [] = omega arith
non_empty-weight ([] ∷ ps) = omega (arith, non_empty-weight ps)
non_empty-weight ((c ∷ p) ∷ ps) = omega (arith, non_empty-weight ps)

join-weight : (p : Text) (ps : List Text) → suc (len (join (p ∷ ps))) ≡ weight (p ∷ ps)
unfolding join weight len
join-weight p [] = omega arith
join-weight p (q ∷ ps) =
    omega (arith, len-append p (b'/' ∷ join (q ∷ ps)), len_slash, join-weight q ps)

plain_len : (ps : List Text) (n : ℕ) → 1 ≤ n → weight ps ≤ n → len (b'/' ∷ join ps) ≤ n
unfolding len join weight
plain_len [] n h w = omega (arith, len_slash)
plain_len (p ∷ ps) n h w = omega (arith, len_slash, join-weight p ps)

-- The plain form of an absolute path is no longer than the path.
pub plain_len-le : (v : Text) → is_absolute v ≡ true → len (b'/' ∷ join (parts v)) ≤ len v
unfolding parts non_empty split len
plain_len-le [] h = cc
plain_len-le (c ∷ cs) h =
    let is_slash : c ≡ b'/' = ground arith in
    let shorter = non_empty-weight (split b'/' cs) in
    let whole = split-weight cs in
    rw h (
      omega (
        arith,
        plain_len (non_empty (split b'/' cs)) (suc (len cs)) (omega arith)
            (omega (arith, shorter, whole)),
        len_slash,
        ap len_utf8 is_slash,
      ))
