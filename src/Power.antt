-- ===== src/Power.antt =====
-- crates/lodger-virt/src/power.rs and the states of crates/lodger-core/src/model/vm.rs: the power
-- actions on a domain and its autostart.
pub mod Laws
mod Tests
use lodger.Host.{
  VirtError, ErrorNumber, invalid_arg, Io, Error, wrong_state, lift, ◌>>=◌, ◌>>◌, pure, fail,
  then_result, attempt,
}
use lodger.Prelude.Equality.{text_beq}
use lodger.Prelude.{
  ℕ, Bool, true, false, not, ◌&&◌, ◌||◌, List, [], ◌∷◌, Option, none, some, Result, ok, err, text,
  if◌then◌else◌, ◌==◌,
}

pub data VmState : Type 0 where
  no_state : VmState
  running : VmState
  blocked : VmState
  paused : VmState
  shutting_down : VmState
  shutoff : VmState
  crashed : VmState
  suspended : VmState
  unknown : VmState

unfoldable pub from_code : ℕ → VmState
from_code code =
    if code == 0
    then no_state
    else if code == 1
    then running
    else if code == 2
    then blocked
    else if code == 3
    then paused
    else if code == 4
    then shutting_down
    else if code == 5
    then shutoff
    else if code == 6
    then crashed
    else if code == 7
    then suspended
    else unknown

pub data Power : Type 0 where
  start : Power
  shutdown : Power
  force_off : Power
  reboot : Power
  pause : Power
  resume : Power

unfoldable pub name : Power → List ℕ
name start = text "start"
name shutdown = text "shutdown"
name force_off = text "force-off"
name reboot = text "reboot"
name pause = text "pause"
name resume = text "resume"

unfoldable pub parse : List ℕ → Option Power
parse given =
    if text_beq given (text "start")
    then some start
    else if text_beq given (text "shutdown")
    then some shutdown
    else if text_beq given (text "force-off")
    then some force_off
    else if text_beq given (text "reboot")
    then some reboot
    else if text_beq given (text "pause")
    then some pause
    else if text_beq given (text "resume")
    then some resume
    else none

abbrev pub is_paused : VmState → Bool
is_paused paused = true
is_paused _ = false

abbrev pub is_running : VmState → Bool
is_running running = true
is_running _ = false

-- The arms of `refusal` for `Reboot` and `Pause`.
unfoldable pub refuse_stopped : VmState → Option (List ℕ)
refuse_stopped state =
    if is_paused state
    then some (text "the VM is paused")
    else if not (is_running state)
    then some (text "the VM is not running")
    else none

unfoldable pub refusal : Power → (state : VmState) (active : Bool) → Option (List ℕ)
unfolding refuse_stopped
refusal start state active = if active then some (text "the VM is running already") else none
refusal shutdown state active = if not active then some (text "the VM is not running") else none
refusal force_off state active = if not active then some (text "the VM is not running") else none
refusal reboot state active = refuse_stopped state
refusal pause state active = refuse_stopped state
refusal resume state active =
    if not (is_paused state) then some (text "the VM is not paused") else none

-- What the actions call of a domain. `info_state` is the code of `info`.
pub record DomainApi (S Domain : Type 0) : Type 0 where
  pub lookup : ℕ → Io S VirtError Domain
  pub info_state : Domain → Io S VirtError ℕ
  pub is_active : Domain → Io S VirtError Bool
  pub create : Domain → Io S VirtError (Unit {0})
  pub shutdown_flags : Domain → (flags : ℕ) → Io S VirtError (Unit {0})
  pub destroy : Domain → Io S VirtError (Unit {0})
  pub reboot_flags : Domain → (flags : ℕ) → Io S VirtError (Unit {0})
  pub suspend : Domain → Io S VirtError (Unit {0})
  pub resume_cpus : Domain → Io S VirtError (Unit {0})
  pub set_autostart : Domain → Bool → Io S VirtError (Unit {0})
  pub shutdown_acpi : ℕ
  pub reboot_acpi : ℕ

module _ {S : Type 0} where
  -- The answer to the first call: a driver without ACPI gets a call without the flag.
  unfoldable pub retry_without :
      (ℕ → Io S VirtError (Unit {0})) → Result VirtError (Unit {0}) → Io S VirtError (Unit {0})
  retry_without call (ok _) = pure tt
  retry_without call (err e) = elim (e.code) [ invalid_arg ↦ call 0 | _ ↦ fail e ]

  unfoldable pub with_acpi :
      (call : ℕ → Io S VirtError (Unit {0})) (acpi : ℕ) → Io S VirtError (Unit {0})
  with_acpi call acpi = do first ← attempt (call acpi); retry_without call first

module _ {S Domain : Type 0} (api : DomainApi S Domain) where
  unfoldable pub act : Power → Domain → Io S VirtError (Unit {0})
  act start domain = api.create domain
  act shutdown domain = with_acpi (api.shutdown_flags domain) api.shutdown_acpi
  act force_off domain = api.destroy domain
  act reboot domain = with_acpi (api.reboot_flags domain) api.reboot_acpi
  act pause domain = api.suspend domain
  act resume domain = api.resume_cpus domain

  -- The refusal, or the action.
  unfoldable pub act_unless : Option (List ℕ) → Power → Domain → Io S Error (Unit {0})
  act_unless (some reason) action domain = fail (wrong_state reason)
  act_unless none action domain = lift (act action domain)

  unfoldable pub power : (id : ℕ) (action : Power) → Io S Error (Unit {0})
  power id action = do
    domain ← lift (api.lookup id)
    code ← lift (api.info_state domain)
    active ← lift (api.is_active domain)
    act_unless (refusal action (from_code code) active) action domain

  -- `send` sends Lodger's own `Autostart` event of a domain to the hub.
  unfoldable pub set_autostart : (send : ℕ → S → S) (id : ℕ) (on : Bool) → Io S Error (Unit {0})
  set_autostart send id on = do
    domain ← lift (api.lookup id)
    lift (api.set_autostart domain on)
    λ s. (send id s, ok tt)
