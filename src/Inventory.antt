-- ===== src/Inventory.antt =====
-- crates/lodger-virt/src/cache.rs, the inventory of VMs, pools and networks, and the connection loop of
-- crates/lodger-virt/src/supervisor.rs that keeps it current. The details of one object are a call of
-- the interface.
pub mod Laws
mod Tests
use lodger.Map.{get, insert, remove}
use lodger.Host.{
  VirtError, ErrorNumber, no_domain, no_storage_pool, no_network, Io, ◌>>=◌, ◌>>◌, pure, fail,
  then_result, attempt,
}
use lodger.Prelude.Equality.{nat_eq}
use lodger.Prelude.{
  ℕ, suc, Bool, true, false, ◌||◌, List, [], ◌∷◌, ◌++◌, Option, none, some, Result, ok, err, text,
  if◌then◌else◌, ◌==◌,
}

-- `Event`: the object that changed, or the end of the connection.
pub data Event : Type 0 where
  domain : (id : ℕ) → Event
  pool : (id : ℕ) → Event
  network : (id : ℕ) → Event
  closed : (reason : ℕ) → Event

pub record Inventory (Vm Pool Network : Type 0) : Type 0 where
  pub vms : List (ℕ × Vm)
  pub pools : List (ℕ × Pool)
  pub networks : List (ℕ × Network)

-- `Refresh`: `none` is an object that is gone.
pub data Refresh (Vm Pool Network : Type 0) : Type 0 where
  refresh_vm : (id : ℕ) → Option Vm → Refresh Vm Pool Network
  refresh_pool : (id : ℕ) → Option Pool → Refresh Vm Pool Network
  refresh_network : (id : ℕ) → Option Network → Refresh Vm Pool Network

abbrev pub is_gone_code : ErrorNumber → Bool
is_gone_code no_domain = true
is_gone_code no_storage_pool = true
is_gone_code no_network = true
is_gone_code _ = false

unfoldable pub gone_is_none : {A : Type 0} → Result VirtError A → Result VirtError (Option A)
gone_is_none (ok value) = ok (some value)
gone_is_none (err e) = if is_gone_code e.code then ok none else err e

abbrev pub with_result :
    {S A B : Type 0}
    → (Result VirtError A → Result VirtError B)
    → Io S VirtError A
    → Io S VirtError B
with_result f m s = ((m s).0, f (m s).1)

-- `insert` of an object, or `remove`.
unfoldable pub put : {A : Type 0} → ℕ → Option A → List (ℕ × A) → List (ℕ × A)
put id (some a) objects = insert id a objects
put id none objects = remove id objects

-- What the inventory calls. `read_vm` is `lookup_domain_by_uuid` and `vm_of`, and so on, and the lists
-- give an id and the call that reads the details.
pub record InventoryApi (S Vm Pool Network : Type 0) : Type 0 where
  pub list_all_domains : Io S VirtError (List ℕ)
  pub list_all_storage_pools : Io S VirtError (List ℕ)
  pub list_all_networks : Io S VirtError (List ℕ)
  pub read_vm : ℕ → Io S VirtError Vm
  pub read_pool : ℕ → Io S VirtError Pool
  pub read_network : ℕ → Io S VirtError Network

module _ {Vm Pool Network : Type 0} where
  unfoldable pub apply :
      Refresh Vm Pool Network → Inventory Vm Pool Network → Inventory Vm Pool Network
  unfolding put
  apply (refresh_vm id vm) inv = record inv { vms = put id vm inv.vms }
  apply (refresh_pool id found) inv = record inv { pools = put id found inv.pools }
  apply (refresh_network id net) inv = record inv { networks = put id net inv.networks }

-- One loop of `load`.
unfoldable pub load_each :
    {S A : Type 0} → (ℕ → Io S VirtError A) → List ℕ → List (ℕ × A) → Io S VirtError (List (ℕ × A))
unfolding gone_is_none
load_each read [] objects = pure objects
load_each read (id ∷ ids) objects = do
  found ← with_result gone_is_none (read id)
  load_each read ids (elim found [ some a ↦ insert id a objects | none ↦ objects ])

module _ {S Vm Pool Network : Type 0} where
  module _ (api : InventoryApi S Vm Pool Network) where
    unfoldable pub load : Io S VirtError (Inventory Vm Pool Network)
    unfolding load_each
    load = do
      domains ← api.list_all_domains
      vms ← load_each api.read_vm domains []
      storage_pools ← api.list_all_storage_pools
      pools ← load_each api.read_pool storage_pools []
      nets ← api.list_all_networks
      networks ← load_each api.read_network nets []
      pure (record { vms = vms; pools = pools; networks = networks })

    unfoldable pub refresh : Event → Io S VirtError (Option (Refresh Vm Pool Network))
    unfolding gone_is_none
    refresh (domain id) = do
      vm ← with_result gone_is_none (api.read_vm id)
      pure (some (refresh_vm id vm))
    refresh (pool id) = do
      found ← with_result gone_is_none (api.read_pool id)
      pure (some (refresh_pool id found))
    refresh (network id) = do
      net ← with_result gone_is_none (api.read_network id)
      pure (some (refresh_network id net))
    refresh (closed reason) = pure none

-- What the loop keeps: the inventory, the number of full loads and the events passed on, newest first.
pub record Shared (Vm Pool Network : Type 0) : Type 0 where
  pub inventory : Inventory Vm Pool Network
  pub reloads : ℕ
  pub sent : List Event

-- What the subscription gives: an event, a gap, or the end of the hub.
pub data Received : Type 0 where
  event : Event → Received
  lagged : Received
  hub_closed : Received

unfoldable pub close_reason : ℕ → List ℕ
close_reason code =
    text "libvirt closed the connection because of "
    ++ (if code == 0
        then text "an error"
        else if code == 1
        then text "the end of the stream"
        else if code == 2
        then text "a keepalive timeout"
        else if code == 3
        then text "a request from the client"
        else text "an unknown reason")

-- The loop goes on, or ends with a reason.
pub data Next : Type 0 where
  goes_on : Next
  ends_for : (reason : List ℕ) → Next

abbrev pub apply_found :
    {Vm Pool Network : Type 0}
    → Option (Refresh Vm Pool Network)
    → Inventory Vm Pool Network
    → Inventory Vm Pool Network
apply_found none inv = inv
apply_found (some r) inv = apply r inv

module _ {S Vm Pool Network : Type 0} (api : InventoryApi S Vm Pool Network) where
  unfoldable pub reload : Shared Vm Pool Network → Io S VirtError (Shared Vm Pool Network)
  unfolding load
  reload shared = do
    inv ← load api
    pure (record shared { inventory = inv; reloads = suc shared.reloads })

  -- The body of the loop of `session`.
  unfoldable pub receive :
      Received → Shared Vm Pool Network → Io S VirtError (Shared Vm Pool Network × Next)
  unfolding refresh
  receive (event (closed reason)) shared = pure (shared, ends_for (close_reason reason))
  receive (event e) shared = do
    found ← refresh api e
    pure (
      record shared { inventory = apply_found found shared.inventory; sent = e ∷ shared.sent },
      goes_on,
    )
  receive lagged shared = do loaded ← reload shared; pure (loaded, goes_on)
  receive hub_closed shared = pure (shared, ends_for (text "the event hub closed"))
