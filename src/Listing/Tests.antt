-- ===== src/Listing/Tests.antt =====
-- The list of objects, on three pools.
use mathlib.Core.List.{Permᴰ}
use mathlib.Core.List.Permᴰ.{swap}
use lodger.Listing.{comes_before, insert_sorted, list}
use lodger.Listing.Laws.{IsSorted, Distinct, list-IsSorted_agree}
use lodger.Prelude.{ℕ, ◌≡◌, refl, List, [], ◌∷◌, text, arith}
use lodger.Validate.{Text}
use lodger.Volume.Users.{is_less}

-- A pool by its name and its UUID.
abbrev Pool : Type 0
Pool = Text × ℕ

abbrev pool_name : Pool → Text
pool_name pool = pool.0

abbrev pool_uuid : Pool → ℕ
pool_uuid pool = pool.1

abbrev pools : List Pool
pools = (text "iso", 7) ∷ (text "iso", 3) ∷ (text "default", 9) ∷ []

abbrev other_order : List Pool
other_order = (text "iso", 3) ∷ (text "iso", 7) ∷ (text "default", 9) ∷ []

names_first :
    list pool_name pool_uuid pools ≡ (text "default", 9) ∷ (text "iso", 3) ∷ (text "iso", 7) ∷ []
unfolding list insert_sorted comes_before is_less
names_first = refl

pools-Distinct : Distinct pool_name pool_uuid pools
pools-Distinct = ((ground arith, (ground arith, tt)), ((ground arith, tt), (tt, tt)))

list-IsSorted_agree_example :
    IsSorted pool_name pool_uuid (list pool_name pool_uuid pools)
    × Permᴰ (list pool_name pool_uuid pools) pools
    × (list pool_name pool_uuid pools ≡ list pool_name pool_uuid other_order)
list-IsSorted_agree_example =
    list-IsSorted_agree pool_name pool_uuid pools other_order pools-Distinct (swap refl refl)
