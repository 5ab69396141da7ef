-- ===== src/Web/Objects.antt =====
-- The handlers of crates/lodger/src/pools.rs and networks.rs that switch and remove a storage pool or a
-- virtual network, with `audited` of actions.rs. The two files differ in their words and in the calls.
use lodger.Db.{Text, Session}
use lodger.Host.{Io, Error, in_use, is_not_found, is_invalid_operation, ◌>>=◌}
use lodger.Map.{get}
use lodger.Net.{IpAddr}
use lodger.Pool.Document.{in_lodger_mount_root}
use lodger.Xml.{Element, parse, readable}
use lodger.Prelude.Equality.{nat_eq, text_eq, text_beq, option_beq}
use lodger.Prelude.{
  ℕ, Bool, true, false, not, ◌&&◌, Option, none, some, List, Result, ok, err, text, if◌then◌else◌,
  is_some,
}
use lodger.Web.{HeaderMap, Response, Crates, Conditions, AppState, no_body, explained, reply, error}
use lodger.Web.Actions.{no_libvirt, bad_json, autostart_action, body_or_default}
use lodger.Web.Audit.{Entry, ok_entry, failed_entry, by_account, from_ip, log}
use lodger.Web.ClientIp.{client_ip}

-- `NotFound`, the events of the audit log, and the words of the answers.
pub record Words : Type 0 where
  pub kind : Text
  pub missing_reason : Text
  pub missing_message : Text
  pub created : Text
  pub started : Text
  pub stopped : Text
  pub edited : Text
  pub deleted : Text
  pub confirm_message : Text

abbrev pub pool_words : Words
pool_words = record {
  kind = text "pool";
  missing_reason = text "no_such_pool";
  missing_message = text "no such pool";
  created = text "pool.created";
  started = text "pool.started";
  stopped = text "pool.stopped";
  edited = text "pool.edited";
  deleted = text "pool.deleted";
  confirm_message = text "type the pool's name to remove it";
}

abbrev pub network_words : Words
network_words = record {
  kind = text "network";
  missing_reason = text "no_such_network";
  missing_message = text "no such network";
  created = text "network.created";
  started = text "network.started";
  stopped = text "network.stopped";
  edited = text "network.edited";
  deleted = text "network.deleted";
  confirm_message = text "type the network's name to delete it";
}

-- The calls of crates/lodger-virt. `remove_object` gets the request's `delete_files`, which a network
-- does not have.
pub record ObjectVirt (H : Type 0) : Type 0 where
  pub set_active : (id : ℕ) (active : Bool) → Io H Error (Unit {0})
  pub set_autostart : (id : ℕ) (on : Bool) → Io H Error (Unit {0})
  pub remove_object : (id : ℕ) (name : Text) (delete_files : Bool) → Io H Error (Unit {0})

-- The call of `remove` of a pool.
unfoldable pub remove_pool_call :
    {H : Type 0}
    → (pool_xml : ℕ → Io H Error Text) → (parse_element : Text → Result Text Element)
    → (remove_pool : (id : ℕ) (delete_files remove_empty_folder : Bool) → Io H Error (Unit {0}))
    → (id : ℕ) (name : Text) (delete_files : Bool) → Io H Error (Unit {0})
remove_pool_call pool_xml parse_element remove_pool id name delete_files = do
  xml ← pool_xml id
  remove_pool id delete_files (elim (readable (parse parse_element xml (text "pool"))) [
    | none ↦ false
    | some document ↦ in_lodger_mount_root document name
  ])

pub record Change : Type 0 where
  pub active : Option Bool
  pub autostart : Option Bool

pub record Removal : Type 0 where
  pub confirm : Option Text
  pub delete_files : Bool

-- `row` of the handlers.
unfoldable pub object_entry : (username : Text) → IpAddr → (kind name : Text) → Entry → Entry
object_entry username ip kind name e = record (from_ip ip (by_account username e)) {
  target_kind = some kind;
  target = some name;
}

-- `entry.detail.action = action`.
unfoldable pub set_action : Option Text → Entry → Entry
set_action action e = record e { detail = record e.detail { action = action } }

unfoldable pub is_in_use : Error → Bool
is_in_use (in_use users) = true
is_in_use _ = false

-- The reason code of a failed call in `audited`, and the status.
unfoldable pub object_failure_code : (missing_reason : Text) → Error → Text × ℕ
object_failure_code missing_reason e =
    if is_not_found e
    then (missing_reason, 404)
    else if is_in_use e
    then (text "in_use", 409)
    else if is_invalid_operation e
    then (text "wrong_state", 409)
    else (text "libvirt_error", 502)

-- The answer of `audited` to a failed call.
unfoldable pub object_failure : Words → Error → Response
object_failure words e =
    let (reason, code) = object_failure_code words.missing_reason e in
    if text_beq reason words.missing_reason
    then error code words.missing_message
    else reply code (explained e)

module _ {H : Type 0} (lib : Crates) (c : Conditions) (words : Words) where
  -- `audited`.
  unfoldable pub audited :
      (row : Entry → Entry) (event : Text) (action : Option Text)
      → Io H Error (Unit {0})
      → H × AppState
      → (H × AppState) × Result Response (Unit {0})
  audited row event action call (h, s) =
      let (h', result) = call h in
      elim result [
        | ok u ↦ ((h', log lib c (row (set_action action (ok_entry event))) s), ok tt)
        | err e ↦
            let reason = (object_failure_code words.missing_reason e).0 in
            (
              (h', log lib c (row (set_action action (failed_entry event reason))) s),
              err (object_failure words e),
            )
      ]

  -- One `if let` of `change`, and what follows it.
  unfoldable pub change_part :
      (row : Entry → Entry) (event : Text) (action : Option Text)
      → Io H Error (Unit {0})
      → (next : H × AppState → (H × AppState) × Response) → H × AppState
      → (H × AppState) × Response
  change_part row event action call next w =
      let (w', result) = audited row event action call w in
      elim result [ ok u ↦ next w' | err response ↦ (w', response) ]

  module _ (peer : IpAddr) (headers : HeaderMap) (session : Session) (objects : List (ℕ × Text))
      (connected : Option (ObjectVirt H)) where
    abbrev pub row_of : Text → Entry → Entry
    row_of name = object_entry session.username (client_ip lib peer headers) words.kind name

    -- The second half of `change`.
    unfoldable pub change_autostart :
        ObjectVirt H
        → (id : ℕ) (name : Text) → Option Bool
        → H × AppState
        → (H × AppState) × Response
    change_autostart virt id name none w = (w, reply 204 no_body)
    change_autostart virt id name (some on) w =
        change_part (row_of name) words.edited (some (autostart_action on))
          (virt.set_autostart id on) (λ w'. (w', reply 204 no_body)) w

    -- The calls of `change`.
    unfoldable pub change_both :
        ObjectVirt H → (id : ℕ) (name : Text) → Change → H × AppState → (H × AppState) × Response
    change_both virt id name change w = elim (change.active) [
      | none ↦ change_autostart virt id name change.autostart w
      | some active ↦
          change_part (row_of name) (if active then words.started else words.stopped) none
            (virt.set_active id active) (change_autostart virt id name change.autostart) w
    ]

    -- `change`.
    unfoldable pub change_object :
        (id : ℕ) (body : Result Text Change) → H × AppState → (H × AppState) × Response
    change_object id body w = elim body [
      | err message ↦ (w, bad_json message)
      | ok change ↦
          if not (is_some change.active) && not (is_some change.autostart)
          then (w, error 400 (text "the body needs \"active\" or \"autostart\""))
          else (elim (get id objects) [
            | none ↦ (w, error 404 words.missing_message)
            | some name ↦ elim connected [
              | none ↦ (w, no_libvirt)
              | some virt ↦ change_both virt id name change w
            ]
          ])
    ]

    -- `remove`. `action_of` is the detail of the audit row: for a pool, what happens to the files.
    unfoldable pub remove_handler :
        (action_of : Bool → Option Text) (id : ℕ) (body : Option (Result Text Removal))
        → H × AppState
        → (H × AppState) × Response
    remove_handler action_of id body w =
        elim (body_or_default (record { confirm = none; delete_files = false }) body) [
          | err message ↦ (w, bad_json message)
          | ok request ↦ elim (get id objects) [
            | none ↦ (w, error 404 words.missing_message)
            | some name ↦
                if not (option_beq request.confirm (some name))
                then (w, error 422 words.confirm_message)
                else (elim connected [
                  | none ↦ (w, no_libvirt)
                  | some virt ↦
                      change_part (row_of name) words.deleted (action_of request.delete_files)
                        (virt.remove_object id name request.delete_files)
                        (λ w'. (w', reply 204 no_body)) w
                ])
          ]
        ]

-- The detail of the audit row of a removed pool.
abbrev pub files_action : Bool → Option Text
files_action delete_files = some (if delete_files then text "delete-files" else text "keep-files")

-- `change` and `remove` of networks.rs.
abbrev pub change_network :
    {H : Type 0}
    → Crates
    → Conditions
    → IpAddr
    → HeaderMap
    → Session
    → (networks : List (ℕ × Text)) → Option (ObjectVirt H)
    → (id : ℕ) (body : Result Text Change) → H × AppState
    → (H × AppState) × Response
change_network lib c = change_object lib c network_words

abbrev pub remove_network :
    {H : Type 0}
    → Crates
    → Conditions
    → IpAddr
    → HeaderMap
    → Session
    → (networks : List (ℕ × Text)) → Option (ObjectVirt H)
    → (id : ℕ) (body : Option (Result Text Removal)) → H × AppState
    → (H × AppState) × Response
remove_network lib c peer headers session networks connected =
    remove_handler lib c network_words peer headers session networks connected
      (λ delete_files. none)
