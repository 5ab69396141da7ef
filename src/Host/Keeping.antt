-- ===== src/Host/Keeping.antt =====
-- A chain of calls on the host keeps what each call keeps.
use lodger.Prelude.{Bool, true, false, List, [], ◌∷◌, Result-cases, inl, inr}
use lodger.Host.{Io, ◌>>=◌, when, for_each, Keeps}

module _ {S : Type 0} (P : S → Type 0) where
  pub bind-Keeps {ℓ κ ι} :
      {E : Type ℓ} {A : Type κ} {B : Type ι} (m : Io S E A) (f : A → Io S E B)
      → Keeps P m
      → ((a : A) → Keeps P (f a))
      → Keeps P (m >>= f)
  unfolding ◌>>=◌
  bind-Keeps m f h k s p = elim (Result-cases (m s).1) [
    | inl (a, done) ↦ rw done (k a (m s).0 (h s p))
    | inr (e, failed) ↦ rw failed (h s p)
  ]

  pub when-Keeps {ℓ} :
      {E : Type ℓ} (b : Bool) (m : Io S E (Unit {0})) → Keeps P m → Keeps P (when b m)
  when-Keeps true m h = h
  when-Keeps false m h = λ s p. p

  pub for_each-Keeps {ℓ κ} :
      {E : Type ℓ} {A : Type κ} (f : A → Io S E (Unit {0})) (xs : List A)
      → ((a : A) → Keeps P (f a))
      → Keeps P (for_each f xs)
  for_each-Keeps f [] h = λ s p. p
  for_each-Keeps f (x ∷ xs) h =
      bind-Keeps (f x) (λ _. for_each f xs) (h x) λ _. for_each-Keeps f xs h
