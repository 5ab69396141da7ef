-- ===== src/Inventory/Tests.antt =====
-- A run of the inventory of crates/lodger-virt/src/cache.rs, and an instance of the theorem.
use lodger.Map.{insert}
use lodger.Host.{VirtError, no_domain, ◌>>=◌}
use lodger.Prelude.Equality.{nat_eq}
use lodger.Prelude.{ℕ, [], ◌∷◌, none, ok, err, if◌then◌else◌, ◌==◌, ◌≡◌, refl}
use lodger.Inventory.{
  gone_is_none, InventoryApi, Shared, goes_on, receive, load, load_each, reload, lagged,
}

abbrev gone : VirtError
gone = record { code = no_domain; message = [] }

-- VM 1 has 4 vCPUs, and VM 2 is gone after the list.
abbrev host : InventoryApi (Unit {0}) ℕ ℕ ℕ
host = record {
  list_all_domains = λ s. (s, ok (1 ∷ 2 ∷ []));
  list_all_storage_pools = λ s. (s, ok []);
  list_all_networks = λ s. (s, ok []);
  read_vm = λ id s. (s, if id == 1 then ok 4 else err gone);
  read_pool = λ id s. (s, ok id);
  read_network = λ id s. (s, ok id);
}

abbrev shared : Shared ℕ ℕ ℕ
shared = record {
  inventory = record { vms = (2, 8) ∷ []; pools = []; networks = [] };
  reloads = 1;
  sent = [];
}

after_a_gap :
    (receive host lagged shared tt).1
    ≡ ok (
      record {
        inventory = record { vms = (1, 4) ∷ []; pools = []; networks = [] };
        reloads = 2;
        sent = [];
      },
      goes_on,
    )
unfolding receive reload load load_each gone_is_none insert ◌>>=◌
after_a_gap = refl

two_gone : gone_is_none ((host.read_vm 2) tt).1 ≡ ok none
unfolding gone_is_none
two_gone = refl
