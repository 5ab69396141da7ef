-- ===== src/Network.antt =====
-- crates/lodger-virt/src/network.rs: creating, starting, stopping and deleting a virtual network.
pub mod Document
pub mod New
pub mod Written
pub mod WrittenLaws
pub mod NewLaws
pub mod NewTests
pub mod Laws
mod Tests
use lodger.Host.{
  VirtError, Io, Error, wrong_state, lift, ◌>>=◌, ◌>>◌, fail, ignore, io_or, when, then_result,
}
use lodger.Prelude.{ℕ, Bool, true, false, List, Result, ok, err, text, if◌then◌else◌}

-- What the operations call of a network.
pub record NetworkApi (S Network : Type 0) : Type 0 where
  pub lookup : ℕ → Io S VirtError Network
  pub define : List ℕ → Io S VirtError Network
  pub uuid : Network → Io S VirtError ℕ
  pub create : Network → Io S VirtError (Unit {0})
  pub destroy : Network → Io S VirtError (Unit {0})
  pub undefine : Network → Io S VirtError (Unit {0})
  pub set_autostart : Network → Bool → Io S VirtError (Unit {0})
  pub is_active : Network → Io S VirtError Bool
  pub is_persistent : Network → Io S VirtError Bool

module _ {S Network : Type 0} (api : NetworkApi S Network) where
  -- The calls after the define, up to the start.
  unfoldable pub start_network :
      (autostart : Bool) (before_start : Network → S → S) → Network → Io S VirtError (Unit {0})
  start_network autostart before_start network = do
    api.set_autostart network autostart
    λ s. api.create network (before_start network s)

  -- The best effort after a failure.
  unfoldable pub undo_network : Network → Io S VirtError (Unit {0})
  undo_network network = do
    active ← io_or false (api.is_active network)
    when active (ignore (api.destroy network))
    ignore (api.undefine network)

  -- `create_network_on`, once the network is defined.
  unfoldable pub finish_network :
      (autostart : Bool) (before_start : Network → S → S) → Network → Io S VirtError ℕ
  unfolding start_network undo_network
  finish_network autostart before_start network s =
      elim ((start_network autostart before_start network s).1) [
        | ok _ ↦ api.uuid network (start_network autostart before_start network s).0
        | err e ↦
            ((undo_network network (start_network autostart before_start network s).0).0, err e)
      ]

  unfoldable pub create_network_on :
      (xml : List ℕ) (autostart : Bool) (before_start : Network → S → S) → Io S VirtError ℕ
  create_network_on xml autostart before_start = do
    network ← api.define xml
    finish_network autostart before_start network

  unfoldable pub set_network_active : (id : ℕ) (active : Bool) → Io S Error (Unit {0})
  set_network_active id active = do
    network ← lift (api.lookup id)
    now ← lift (api.is_active network)
    if active
        then (if now
            then fail (wrong_state (text "the network is running already"))
            else lift (api.create network))
        else (if now
            then lift (api.destroy network)
            else fail (wrong_state (text "the network is not running")))

  unfoldable pub delete_network : (id : ℕ) → Io S VirtError (Unit {0})
  delete_network id = do
    network ← api.lookup id
    persistent ← api.is_persistent network
    active ← api.is_active network
    when active (api.destroy network)
    when persistent (api.undefine network)
