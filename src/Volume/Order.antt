-- ===== src/Volume/Order.antt =====
-- The order of the texts by which crates/lodger-virt/src/volume.rs sorts users: `str::cmp` is total.
use lodger.Prelude.{◌≡◌, ◌⊎◌, inl, inr, refl, true, false, [], ◌∷◌, arith}
use lodger.Validate.{Text}
use lodger.Volume.Users.{is_less}

pub less_trans : (a b c : Text) → is_less a b ≡ true → is_less b c ≡ true → is_less a c ≡ true
unfolding is_less
less_trans [] [] c h k = ground (arith, h)
less_trans [] (y ∷ b) [] h k = ground (arith, k)
less_trans [] (y ∷ b) (z ∷ c) h k = refl
less_trans (x ∷ a) [] c h k = ground (arith, h)
less_trans (x ∷ a) (y ∷ b) [] h k = ground (arith, k)
less_trans (x ∷ a) (y ∷ b) (z ∷ c) h k = ground (arith, h, k, less_trans a b c)

pub less_total : (a b : Text) → (is_less a b ≡ true) ⊎ ((a ≡ b) ⊎ (is_less b a ≡ true))
unfolding is_less
less_total [] [] = inr (inl refl)
less_total [] (y ∷ b) = inl refl
less_total (x ∷ a) [] = inr (inr refl)
less_total (x ∷ a) (y ∷ b) = ground (arith, less_total a b)

pub less_irrefl : (a : Text) → is_less a a ≡ false
unfolding is_less
less_irrefl [] = refl
less_irrefl (x ∷ a) = ground (arith, less_irrefl a)
