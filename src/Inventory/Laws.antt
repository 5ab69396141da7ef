-- ===== src/Inventory/Laws.antt =====
-- What one event does to the inventory: crates/lodger-virt/src/cache.rs and the loop of
-- crates/lodger-virt/src/supervisor.rs.
use lodger.Map.{get}
use lodger.Map.Laws.{Distinct, get-insert, get-remove, insert-Distinct, remove-Distinct}
use lodger.Host.{◌>>=◌}
use lodger.Prelude.Equality.{nat_eq}
use lodger.Prelude.{ℕ, List, ◌∷◌, Option, none, some, ok, if◌then◌else◌, ◌==◌, ◌≡◌, refl}
use lodger.Inventory.{
  domain, gone_is_none, put, InventoryApi, apply, refresh, Shared, event, goes_on, receive,
}

get-put :
    {A : Type 0} (id j : ℕ) (o : Option A) (objects : List (ℕ × A))
    → Distinct objects
    → get j (put id o objects) ≡ (if id == j then o else get j objects)
unfolding put
get-put id j none objects d = get-remove id j objects d
get-put id j (some a) objects d = get-insert id j a objects

put-Distinct :
    {A : Type 0} (id : ℕ) (o : Option A) (objects : List (ℕ × A))
    → Distinct objects
    → Distinct (put id o objects)
unfolding put
put-Distinct id none objects d = remove-Distinct id objects d
put-Distinct id (some a) objects d = insert-Distinct id a objects d

module _ {S Vm Pool Network : Type 0} (api : InventoryApi S Vm Pool Network) where
  -- After an event of a domain, the inventory shows it as libvirt shows it at the read, or not at all if
  -- it is gone, and every other object as before; then the event is passed on and the loop goes on.
  -- The condition is a map of distinct ids and a read that does not fail.
  pub receive-domain :
      (id : ℕ) (shared : Shared Vm Pool Network) (s : S) (vm : Option Vm)
      → Distinct shared.inventory.vms
      → gone_is_none (api.read_vm id s).1 ≡ ok vm
      → (after : Shared Vm Pool Network) × ((receive api (event (domain id)) shared s).1
          ≡ ok (after, goes_on))
        × ((j : ℕ)
            → get j after.inventory.vms ≡ (if id == j then vm else get j shared.inventory.vms))
        × (after.inventory.pools ≡ shared.inventory.pools)
        × (after.inventory.networks ≡ shared.inventory.networks)
        × (after.sent ≡ domain id ∷ shared.sent)
        × Distinct after.inventory.vms
  unfolding receive refresh apply ◌>>=◌
  receive-domain id shared s vm d read = (
    record shared {
      inventory = record shared.inventory { vms = put id vm shared.inventory.vms };
      sent = domain id ∷ shared.sent;
    },
    rw (receive, read) refl,
    λ j. get-put id j vm shared.inventory.vms d,
    refl,
    refl,
    refl,
    put-Distinct id vm shared.inventory.vms d,
  )
