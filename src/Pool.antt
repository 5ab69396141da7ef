-- ===== src/Pool.antt =====
-- crates/lodger-virt/src/pool.rs: creating, starting, stopping and removing a storage pool.
pub mod Folder
pub mod Document
pub mod New
pub mod NewLaws
pub mod Usable
pub mod NewTests
pub mod Laws
mod Tests
use lodger.Host.{
  VirtError, Io, Error, wrong_state, lift, ◌>>=◌, ◌>>◌, pure, fail, ignore, io_or, when, for_each,
  then_result,
}
use lodger.Prelude.{ℕ, Bool, true, false, not, ◌&&◌, List, Result, ok, err, text, if◌then◌else◌}

-- What the operations call of a pool and its volumes.
pub record PoolApi (S Pool Volume : Type 0) : Type 0 where
  pub lookup : ℕ → Io S VirtError Pool
  pub define : List ℕ → Io S VirtError Pool
  pub uuid : Pool → Io S VirtError ℕ
  pub build : Pool → Io S VirtError (Unit {0})
  pub create : Pool → Io S VirtError (Unit {0})
  pub destroy : Pool → Io S VirtError (Unit {0})
  pub undefine : Pool → Io S VirtError (Unit {0})
  pub delete : Pool → Io S VirtError (Unit {0})
  pub refresh : Pool → Io S VirtError (Unit {0})
  pub set_autostart : Pool → Bool → Io S VirtError (Unit {0})
  pub is_active : Pool → Io S VirtError Bool
  pub is_persistent : Pool → Io S VirtError Bool
  pub list_all_volumes : Pool → Io S VirtError (List Volume)

module _ {S Pool Volume : Type 0} (api : PoolApi S Pool Volume) where
  -- The calls after the define, up to the start.
  unfoldable pub start :
      (autostart : Bool) (before_start : Pool → S → S) → Pool → Io S VirtError (Unit {0})
  start autostart before_start pool = do
    api.build pool
    api.set_autostart pool autostart
    λ s. api.create pool (before_start pool s)

  -- The best effort after a failure.
  unfoldable pub roll_back : Pool → Io S VirtError (Unit {0})
  roll_back pool = do
    active ← io_or false (api.is_active pool)
    when active (ignore (api.destroy pool))
    ignore (api.undefine pool)

  -- `create_pool_on`, once the pool is defined.
  unfoldable pub finish : (autostart : Bool) (before_start : Pool → S → S) → Pool → Io S VirtError ℕ
  unfolding start roll_back
  finish autostart before_start pool s = elim ((start autostart before_start pool s).1) [
    | ok _ ↦ api.uuid pool (start autostart before_start pool s).0
    | err e ↦ ((roll_back pool (start autostart before_start pool s).0).0, err e)
  ]

  unfoldable pub create_pool_on :
      (xml : List ℕ) (autostart : Bool) (before_start : Pool → S → S) → Io S VirtError ℕ
  create_pool_on xml autostart before_start = do
    pool ← api.define xml
    finish autostart before_start pool

  unfoldable pub set_pool_active : (id : ℕ) (active : Bool) → Io S Error (Unit {0})
  set_pool_active id active = do
    pool ← lift (api.lookup id)
    now ← lift (api.is_active pool)
    if active
        then (if now
            then fail (wrong_state (text "the pool is running already"))
            else lift (api.create pool))
        else (if now
            then lift (api.destroy pool)
            else fail (wrong_state (text "the pool is not running")))

  -- The refresh and the deletion of every volume, as one result.
  unfoldable pub delete_volumes :
      (delete_volume : Volume → Io S VirtError (Unit {0})) → Pool → Io S VirtError (Unit {0})
  delete_volumes delete_volume pool = do
    api.refresh pool
    volumes ← api.list_all_volumes pool
    for_each delete_volume volumes

  -- What follows a failed deletion: a pool that was stopped stops again.
  unfoldable pub or_stop :
      (was_active : Bool) → Pool → Io S VirtError (Unit {0}) → Io S VirtError (Unit {0})
  or_stop was_active pool m s = elim ((m s).1) [
    | ok _ ↦ m s
    | err e ↦ ((when (not was_active) (ignore {F = VirtError} (api.destroy pool)) (m s).0).0, err e)
  ]

  -- The block `if delete_files`.
  unfoldable pub empty_pool :
      (delete_volume : Volume → Io S VirtError (Unit {0})) → Pool → Io S VirtError (Unit {0})
  empty_pool delete_volume pool = do
    was_active ← api.is_active pool
    when (not was_active) (api.create pool)
    or_stop was_active pool (delete_volumes delete_volume pool)

  -- The stop, the folder and the definition.
  unfoldable pub drop_pool :
      (delete_files remove_empty_folder : Bool) → Pool → Io S VirtError (Unit {0})
  drop_pool delete_files remove_empty_folder pool = do
    persistent ← api.is_persistent pool
    active ← api.is_active pool
    when active (api.destroy pool)
    when persistent (
        when delete_files (api.delete pool)
        >> when (not delete_files && remove_empty_folder) (ignore (api.delete pool))
        >> api.undefine pool)

  unfoldable pub remove_pool_on :
      (id : ℕ) (delete_files remove_empty_folder : Bool)
      (delete_volume : Volume → Io S VirtError (Unit {0})) (before_stop : Pool → S → S)
      → Io S VirtError (Unit {0})
  remove_pool_on id delete_files remove_empty_folder delete_volume before_stop = do
    pool ← api.lookup id
    when delete_files (empty_pool delete_volume pool)
    λ s. drop_pool delete_files remove_empty_folder pool (before_stop pool s)
