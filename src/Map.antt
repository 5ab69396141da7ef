-- ===== src/Map.antt =====
-- `std::collections::HashMap` as an association list without repeated keys: the operations that
-- Lodger calls. The iteration order is not observable in the code that uses them.
pub mod Laws
use lodger.Prelude.Equality.{Eq}
use lodger.Prelude.{Bool, true, false, List, [], ◌∷◌, Option, none, some, if◌then◌else◌, is_some}

module _ {ℓ κ} {K : Type ℓ} {V : Type κ} ⦃e : Eq K⦄ where
  -- `get` and `get_mut`.
  unfoldable pub get : K → List (K × V) → Option V
  get k [] = none
  get k ((j, v) ∷ m) = if e.beq j k then some v else get k m

  unfoldable pub contains_key : K → List (K × V) → Bool
  contains_key k m = is_some (get k m)

  unfoldable pub insert : K → V → List (K × V) → List (K × V)
  insert k v [] = (k, v) ∷ []
  insert k v ((j, w) ∷ m) = if e.beq j k then (k, v) ∷ m else (j, w) ∷ insert k v m

  unfoldable pub remove : K → List (K × V) → List (K × V)
  remove k [] = []
  remove k ((j, v) ∷ m) = if e.beq j k then m else (j, v) ∷ remove k m

-- `retain` reads no equality of keys.
module _ {ℓ κ} {K : Type ℓ} {V : Type κ} where
  unfoldable pub retain : (V → Bool) → List (K × V) → List (K × V)
  retain p [] = []
  retain p ((k, v) ∷ m) = if p v then (k, v) ∷ retain p m else retain p m
