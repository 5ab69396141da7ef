-- ===== src/Validate/Path/Plain.antt =====
-- The plain form of a path: `parse_path` of crates/lodger-core/src/validate.rs.
use lodger.Prelude.{
  ℕ, ◌≡◌, refl, ap, ◌∙◌, ◌≢◌, false, List, [], ◌∷◌, ◌++◌, arith, All, ◌==◌, any, Bool-cases, inl,
  inr,
}
use lodger.Validate.{Text}
use lodger.Validate.Path.{cons_head, split, non_empty, parts, join}

-- A part of a path: some characters, none of them a slash.
abbrev pub IsPart : Text → Type 0
IsPart p = (p ≢ []) × (any (λ c. c == b'/') p ≡ false)

abbrev NoSlash : Text → Type 0
NoSlash p = any (λ c. c == b'/') p ≡ false

cons_head-NoSlash :
    (c : ℕ) (ps : List Text) → (c == b'/') ≡ false → All NoSlash ps → All NoSlash (cons_head c ps)
cons_head-NoSlash c [] h a = (ground arith, tt)
cons_head-NoSlash c (p ∷ ps) h (a, later) = (ground arith, later)

split-NoSlash : (v : Text) → All NoSlash (split b'/' v)
unfolding split
split-NoSlash [] = (refl, tt)
split-NoSlash (c ∷ cs) = elim (Bool-cases (c == b'/')) [
  | inl slash ↦ rw slash (refl, split-NoSlash cs)
  | inr other ↦ rw other (cons_head-NoSlash c (split b'/' cs) other (split-NoSlash cs))
]

non_empty-IsPart : (ps : List Text) → All NoSlash ps → All IsPart (non_empty ps)
unfolding non_empty
non_empty-IsPart [] h = tt
non_empty-IsPart ([] ∷ ps) (h, hs) = non_empty-IsPart ps hs
non_empty-IsPart ((c ∷ p) ∷ ps) (h, hs) = ((λ e. cc, h), non_empty-IsPart ps hs)

pub parts-IsPart : (v : Text) → All IsPart (parts v)
unfolding parts
parts-IsPart v = non_empty-IsPart (split b'/' v) (split-NoSlash v)

-- Splitting a text without slashes, alone and before a slash.
split_one : (p : Text) → NoSlash p → split b'/' p ≡ p ∷ []
unfolding split
split_one [] h = refl
split_one (c ∷ p) h = ground (arith, split_one p)

split-append : (p q : Text) → NoSlash p → split b'/' (p ++ b'/' ∷ q) ≡ p ∷ split b'/' q
unfolding split
split-append [] q h = refl
split-append (c ∷ p) q h = ground (arith, split-append p q)

non_empty_whole : (ps : List Text) → All IsPart ps → non_empty ps ≡ ps
unfolding non_empty
non_empty_whole [] h = refl
non_empty_whole ([] ∷ ps) ((h, _), hs) = absurd (h refl)
non_empty_whole ((c ∷ p) ∷ ps) (h, hs) = ap (λ r. (c ∷ p) ∷ r) (non_empty_whole ps hs)

split-join : (p : Text) (ps : List Text) → All IsPart (p ∷ ps) → split b'/' (join (p ∷ ps)) ≡ p ∷ ps
unfolding join
split-join p [] (h, _) = split_one p h.1
split-join p (q ∷ ps) (h, hs) =
    split-append p (join (q ∷ ps)) h.1 ∙ ap (λ r. p ∷ r) (split-join q ps hs)

-- A path in plain form has the parts that it was made of.
pub parts-join : (ps : List Text) → All IsPart ps → parts (b'/' ∷ join ps) ≡ ps
unfolding parts split join
parts-join [] h = refl
parts-join (p ∷ ps) h = rw (split-join p ps h) (non_empty_whole (p ∷ ps) h)
