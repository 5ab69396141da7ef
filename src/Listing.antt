-- ===== src/Listing.antt =====
-- The order in which crates/lodger/src answers with objects of the inventory, whose `HashMap` has none:
-- `list` of pools.rs and networks.rs, and `vms` of api.rs. An object is known by its name and its UUID.
pub mod Laws
mod Tests
use lodger.Prelude.Equality.{text_beq}
use lodger.Prelude.{ℕ, Bool, ◌&&◌, ◌||◌, List, [], ◌∷◌, ltb, if◌then◌else◌}
use lodger.Validate.{Text}
use lodger.Volume.Users.{is_less}

module _ {A : Type 0} (name_of : A → Text) (uuid_of : A → ℕ) where
  -- `a.name.cmp(&b.name).then(a.uuid.cmp(&b.uuid))` is `Less`.
  unfoldable pub comes_before : A → A → Bool
  comes_before a b =
      is_less (name_of a) (name_of b)
      || text_beq (name_of a) (name_of b) && ltb (uuid_of a) (uuid_of b)

  -- `sort_by`, a stable sort.
  unfoldable pub insert_sorted : A → List A → List A
  insert_sorted x [] = x ∷ []
  insert_sorted x (y ∷ ys) =
      let rest = insert_sorted x ys in if comes_before y x then y ∷ rest else x ∷ y ∷ ys

  -- `list`, from the values of the map in any order.
  unfoldable pub list : List A → List A
  list [] = []
  list (x ∷ xs) = insert_sorted x (list xs)
