-- ===== src/Web/Actions.antt =====
-- crates/lodger/src/actions.rs: the power actions on a VM, its deletion and its autostart. The calls of
-- libvirt behind a connection are the interface `Virt`, which `virt_of` fills with the operations of
-- crates/lodger-virt. The inventory gives the names of the VMs. A JSON body is read by `serde_json`.
use lodger.Db.{Text, Session}
use lodger.Delete.{used_by, is_shared, not_in_pool, failed, Skipped, Removal, VmApi, delete_on}
use lodger.Host.{Io, Error, is_not_found, is_invalid_operation}
use lodger.Map.{get}
use lodger.Net.{IpAddr}
use lodger.Power.{Power, force_off, DomainApi, parse, name, power, set_autostart}
use lodger.Prelude.Equality.{nat_eq, text_eq, text_beq, option_beq}
use lodger.Prelude.{
  ℕ, Bool, true, false, not, ◌&&◌, Option, none, some, List, map, Result, ok, err, text,
  if◌then◌else◌,
}
use lodger.Web.{
  HeaderMap, Response, Crates, Conditions, AppState, no_body, explained, vm_removed, SkippedDisk,
  reply, error,
}
use lodger.Web.Audit.{Entry, ok_entry, failed_entry, by_account, from_ip, log}
use lodger.Web.ClientIp.{client_ip}

-- The operations of crates/lodger-virt that the handlers call.
pub record Virt (H : Type 0) : Type 0 where
  pub power_vm : (id : ℕ) (action : Power) → Io H Error (Unit {0})
  pub delete_vm : (id : ℕ) (remove_volumes : Bool) → Io H Error Removal
  pub autostart_vm : (id : ℕ) (on : Bool) → Io H Error (Unit {0})

-- `Virt::power`, `Virt::delete` and `Virt::set_autostart`.
abbrev pub virt_of :
    {H Domain Pool Volume VmDomain : Type 0}
    → DomainApi H Domain
    → VmApi H VmDomain Pool Volume
    → (send : ℕ → H → H) → (before_undefine : H → H) → Virt H
virt_of domains vms send before_undefine = record {
  power_vm = power domains;
  delete_vm = λ id remove_volumes. delete_on vms id remove_volumes before_undefine;
  autostart_vm = set_autostart domains send;
}

abbrev pub lifecycle : Text
lifecycle = text "vm.lifecycle"

abbrev pub edited : Text
edited = text "vm.edited"

pub record DeleteRequest : Type 0 where
  pub confirm : Option Text
  pub remove_volumes : Bool

-- `Removal::from`.
unfoldable pub skipped_disk : Skipped → SkippedDisk
skipped_disk s = elim (s.reason) [
  | used_by vm ↦ record { path = s.path; reason = text "used_by"; vm = some vm; message = none }
  | is_shared ↦ record { path = s.path; reason = text "shared"; vm = none; message = none }
  | not_in_pool ↦ record { path = s.path; reason = text "not_in_pool"; vm = none; message = none }
  | failed message ↦ record {
    path = s.path;
    reason = text "failed";
    vm = none;
    message = some message;
  }
]

-- `body_or_default`: `none` is an empty body.
unfoldable pub body_or_default {ℓ} : {A : Type ℓ} → A → Option (Result Text A) → Result Text A
body_or_default default none = ok default
body_or_default default (some parsed) = parsed

unfoldable pub target_vm : Text → Entry → Entry
target_vm vm e = record e { target_kind = some (text "vm"); target = some vm }

unfoldable pub with_action : Text → Entry → Entry
with_action action e = record e { detail = record e.detail { action = some action } }

-- `by` of the handlers.
unfoldable pub vm_entry : (username : Text) → IpAddr → (vm action : Text) → Entry → Entry
vm_entry username ip vm action e =
    with_action action (target_vm vm (from_ip ip (by_account username e)))

-- The reason code of a failed call, and the status.
unfoldable pub failure_code : Error → Text × ℕ
failure_code e =
    if is_not_found e
    then (text "no_such_vm", 404)
    else if is_invalid_operation e
    then (text "wrong_state", 409)
    else (text "libvirt_error", 502)

-- `failure`.
unfoldable pub failure :
    Crates → Conditions → (row : Text → Entry) → Error → AppState → AppState × Response
failure lib c row e s =
    let (reason, code) = failure_code e in
    (
      log lib c (row reason) s,
      if text_beq reason (text "no_such_vm")
          then error code (text "no such VM")
          else reply code (explained e),
    )

-- The end of the three handlers: the audit row and the answer for the result of the call.
unfoldable pub settle {ℓ} :
    {A : Type ℓ}
    → Crates
    → Conditions
    → (event : Text) → (by : Entry → Entry) → (answer : A → Response) → Result Error A
    → AppState
    → AppState × Response
settle lib c event by answer (ok a) s = (log lib c (by (ok_entry event)) s, answer a)
settle lib c event by answer (err e) s =
    failure lib c (λ reason. by (failed_entry event reason)) e s

-- `action == Power::ForceOff`.
abbrev pub is_force_off : Power → Bool
is_force_off force_off = true
is_force_off _ = false

abbrev pub no_vm : Response
no_vm = error 404 (text "no such VM")

abbrev pub no_libvirt : Response
no_libvirt = error 503 (text "Lodger is not connected to libvirt")

abbrev pub bad_json : Text → Response
bad_json message = error 400 message

abbrev pub done_answer : Unit {0} → Response
done_answer u = reply 204 no_body

abbrev pub removal_answer : Removal → Response
removal_answer r = reply 200 (vm_removed r.removed (map skipped_disk r.skipped))

abbrev pub autostart_action : Bool → Text
autostart_action on = if on then text "autostart-on" else text "autostart-off"

module _ {H : Type 0} (lib : Crates) (c : Conditions) (peer : IpAddr) (headers : HeaderMap)
    (session : Session) (vms : List (ℕ × Text)) (connected : Option (Virt H)) where
  -- The call on a VM of the inventory, when there is a connection, and what follows it.
  unfoldable pub call_vm {ℓ} :
      {A : Type ℓ}
      → (vm event action : Text) → (call : Virt H → Io H Error A) → (answer : A → Response)
      → H × AppState
      → (H × AppState) × Response
  call_vm vm event action call answer (h, s) = elim connected [
    | none ↦ ((h, s), no_libvirt)
    | some virt ↦
        let (h', result) = call virt h in
        let by = vm_entry session.username (client_ip lib peer headers) vm action in
        let (s', response) = settle lib c event by answer result s in ((h', s'), response)
  ]

  -- `run`, with the action's name from the path and the optional body.
  unfoldable pub run_action :
      (id : ℕ) (action : Text) (body : Option (Result Text (Option Text)))
      → H × AppState
      → (H × AppState) × Response
  run_action id action body w = elim (parse action) [
    | none ↦ (w, error 404 (text "no such action"))
    | some p ↦ elim (body_or_default none body) [
      | err message ↦ (w, bad_json message)
      | ok confirm ↦ elim (get id vms) [
        | none ↦ (w, no_vm)
        | some vm ↦
            if is_force_off p && not (option_beq confirm (some vm))
            then (w, error 422 (text "type the VM's name to force it off"))
            else call_vm vm lifecycle (name p) (λ virt. virt.power_vm id p) done_answer w
      ]
    ]
  ]

  -- `delete`.
  unfoldable pub delete_vm_handler :
      (id : ℕ) (body : Option (Result Text DeleteRequest))
      → H × AppState
      → (H × AppState) × Response
  delete_vm_handler id body w =
      elim (body_or_default (record { confirm = none; remove_volumes = false }) body) [
        | err message ↦ (w, bad_json message)
        | ok request ↦ elim (get id vms) [
          | none ↦ (w, no_vm)
          | some vm ↦
              if not (option_beq request.confirm (some vm))
              then (w, error 422 (text "type the VM's name to delete it"))
              else call_vm vm lifecycle (text "delete")
                  (λ virt. virt.delete_vm id request.remove_volumes) removal_answer w
        ]
      ]

  -- `update`, with the autostart of the body.
  unfoldable pub update_vm :
      (id : ℕ) (body : Result Text Bool) → H × AppState → (H × AppState) × Response
  update_vm id body w = elim body [
    | err message ↦ (w, bad_json message)
    | ok on ↦ elim (get id vms) [
      | none ↦ (w, no_vm)
      | some vm ↦
          call_vm vm edited (autostart_action on) (λ virt. virt.autostart_vm id on) done_answer w
    ]
  ]
