-- ===== src/Delete.antt =====
-- crates/lodger-virt/src/delete.rs: deleting a VM, and on request the volumes that only it uses.
pub mod Loop
pub mod Keeping
mod Tests
use lodger.Map.{get, contains_key, insert}
use lodger.Host.{
  VirtError, ErrorNumber, invalid_arg, no_domain, no_storage_volume, Io, Error, wrong_state,
  libvirt, lift, ◌>>=◌, ◌>>◌, pure, fail, then_result, result_or, attempt, xml_result,
}
use lodger.Prelude.Equality.{text_eq}
use lodger.Validate.{Text}
use lodger.Xml.{Element}
use lodger.Xml.Domain.{DiskSource, file, block, volume, Disk, domain_disks}
use lodger.Prelude.{
  ℕ, Bool, true, false, List, [], ◌∷◌, ◌++◌, Option, none, some, Result, ok, err, text,
  if◌then◌else◌, ◌==◌, unwrap_or,
}

pub data SkipReason : Type 0 where
  used_by : (name : Text) → SkipReason
  is_shared : SkipReason
  not_in_pool : SkipReason
  failed : (message : Text) → SkipReason

pub record Skipped : Type 0 where
  pub path : Text
  pub reason : SkipReason

pub record Removal : Type 0 where
  pub removed : List Text
  pub skipped : List Skipped

pub record Target : Type 0 where
  pub path : Text
  pub key : Text
  pub shared : Bool

-- What the delete calls. `undefine_all` and `undefine_some` are `undefine_flags` with all flags and
-- with those that every driver knows; `xml_saved` and `xml_live` are `xml_desc`.
pub record VmApi (S Domain Pool Volume : Type 0) : Type 0 where
  pub lookup_domain : ℕ → Io S VirtError Domain
  pub list_all_domains : Io S VirtError (List Domain)
  pub is_active : Domain → Io S VirtError Bool
  pub uuid : Domain → Io S VirtError ℕ
  pub name : Domain → Io S VirtError Text
  pub xml_saved : Domain → Io S VirtError Text
  pub xml_live : Domain → Io S VirtError Text
  pub undefine_all : Domain → Io S VirtError (Unit {0})
  pub undefine_some : Domain → Io S VirtError (Unit {0})
  pub lookup_volume_by_path : Text → Io S VirtError Volume
  pub lookup_pool_by_name : Text → Io S VirtError Pool
  pub lookup_volume_by_name : Pool → Text → Io S VirtError Volume
  pub volume_path : Volume → Io S VirtError Text
  pub delete_volume : Volume → Io S VirtError (Unit {0})
  pub canonicalize : Text → S → Option Text
  pub parse_element : Text → Result Text Element

abbrev pub is_no_domain : VirtError → Bool
is_no_domain e = elim (e.code) [ no_domain ↦ true | _ ↦ false ]

abbrev pub option_of {ℓ κ} : {E : Type ℓ} {A : Type κ} → Result E A → Option A
option_of (ok a) = some a
option_of (err e) = none

-- `?` on a value that is a result already.
abbrev pub of_result {ℓ κ} : {S : Type 0} {E : Type ℓ} {A : Type κ} → Result E A → Io S E A
of_result r s = (s, r)

module _ {S Domain Pool Volume : Type 0} (api : VmApi S Domain Pool Volume) where
  -- `path_of`: the volume's own path, or the path as written.
  unfoldable pub path_of : DiskSource → Io S Error (Option Text)
  path_of (file path) = do
    found ← attempt (api.lookup_volume_by_path path >>= api.volume_path)
    pure (some (result_or path found))
  path_of (block path) = do
    found ← attempt (api.lookup_volume_by_path path >>= api.volume_path)
    pure (some (result_or path found))
  path_of (volume pool name) = do
    found ← attempt (
        api.lookup_pool_by_name pool
        >>= (λ p. api.lookup_volume_by_name p name)
        >>= api.volume_path)
    pure (option_of found)

  unfoldable pub canonical : Text → S → Text
  canonical path s = unwrap_or path (api.canonicalize path s)

  -- What `resolve` makes of one disk, added to the targets and the report.
  unfoldable pub resolve_disk :
      Disk → Option Text → S → List Target × List Skipped → List Target × List Skipped
  unfolding canonical
  resolve_disk disk (some path) s (targets, skipped) = (
    targets ++ record { path = path; key = canonical path s; shared = disk.shared } ∷ [],
    skipped,
  )
  resolve_disk disk none s (targets, skipped) = elim (disk.source) [
    | volume pool name ↦
        (targets, skipped ++ record { path = pool ++ b'/' ∷ name; reason = not_in_pool } ∷ [])
    | _ ↦ (targets, skipped)
  ]

  unfoldable pub resolve :
      List Disk → List Target × List Skipped → Io S Error (List Target × List Skipped)
  unfolding path_of resolve_disk
  resolve [] found = pure found
  resolve (disk ∷ disks) found = do
    path ← path_of disk.source
    λ s. resolve disks (resolve_disk disk path s found) s

  -- The answer to the first call: a driver that does not know a flag gets the flags that all know.
  unfoldable pub undefine_again : Domain → Result VirtError (Unit {0}) → Io S VirtError (Unit {0})
  undefine_again domain (ok _) = pure tt
  undefine_again domain (err e) = elim (e.code) [
    | invalid_arg ↦ api.undefine_some domain
    | _ ↦ fail e
  ]

  unfoldable pub undefine : Domain → Io S VirtError (Unit {0})
  undefine domain = do first ← attempt (api.undefine_all domain); undefine_again domain first

  -- The name and the XML documents of a domain other than `id`.
  unfoldable pub disks_config : Domain → ℕ → Io S VirtError (Option (Text × List Text))
  disks_config domain id = do
    uuid ← api.uuid domain
    if uuid == id then pure none else do
      saved ← api.xml_saved domain
      active ← api.is_active domain
      live ← (if active then api.xml_live domain >>= (λ xml. pure (xml ∷ [])) else pure [])
      name ← api.name domain
      pure (some (name, saved ∷ live))

  -- `users.entry(key).or_insert_with(name)`, for the path of one disk.
  unfoldable pub add_user : Text → Option Text → List (Text × Text) → S → List (Text × Text)
  unfolding canonical
  add_user name none users s = users
  add_user name (some path) users s =
      if contains_key (canonical path s) users then users else insert (canonical path s) name users

  unfoldable pub users_of_disks :
      Text → List Disk → List (Text × Text) → Io S Error (List (Text × Text))
  unfolding path_of add_user
  users_of_disks name [] users = pure users
  users_of_disks name (disk ∷ disks) users = do
    path ← path_of disk.source
    λ s. users_of_disks name disks (add_user name path users s) s

  unfoldable pub users_of_xmls :
      Text → List Text → List (Text × Text) → Io S Error (List (Text × Text))
  users_of_xmls name [] users = pure users
  users_of_xmls name (xml ∷ xmls) users = do
    disks ← of_result (xml_result (domain_disks api.parse_element xml))
    more ← users_of_disks name disks users
    users_of_xmls name xmls more

  unfoldable pub paths_of_other_domains :
      List Domain → ℕ → List (Text × Text) → Io S Error (List (Text × Text))
  unfolding disks_config
  paths_of_other_domains [] id users = pure users
  paths_of_other_domains (domain ∷ domains) id users = do
    config ← attempt (disks_config domain id)
    elim config [
      | ok none ↦ paths_of_other_domains domains id users
      | ok (some (name, xmls)) ↦
          users_of_xmls name xmls users >>= λ more. paths_of_other_domains domains id more
      | err e ↦ if is_no_domain e then paths_of_other_domains domains id users else fail (libvirt e)
    ]

  -- The attempt to delete the volume at a path: `none` on success.
  unfoldable pub delete_path : Text → Io S Error (Option SkipReason)
  delete_path path = do
    found ← attempt (api.lookup_volume_by_path path)
    elim found [
      | ok held ↦ do
        done ← attempt (api.delete_volume held)
        pure (elim done [ ok _ ↦ none | err e ↦ some (failed e.message) ])
      | err e ↦
          pure (some (elim (e.code) [ no_storage_volume ↦ not_in_pool | _ ↦ failed e.message ]))
    ]

  -- The reason for which a target stays, or the attempt to delete it.
  unfoldable pub delete_target : List (Text × Text) → Target → Io S Error (Option SkipReason)
  delete_target users target =
      if target.shared then pure (some is_shared) else (elim (get target.key users) [
        | some user ↦ pure (some (used_by user))
        | none ↦ delete_path target.path
      ])

  unfoldable pub report_target : Target → Option SkipReason → Removal → Removal
  report_target target none report = record report { removed = report.removed ++ target.path ∷ [] }
  report_target target (some reason) report = record report {
    skipped = report.skipped ++ record { path = target.path; reason = reason } ∷ [];
  }

  unfoldable pub delete_targets : List (Text × Text) → List Target → Removal → Io S Error Removal
  unfolding report_target
  delete_targets users [] report = pure report
  delete_targets users (target ∷ targets) report = do
    reason ← delete_target users target
    delete_targets users targets (report_target target reason report)

  -- The disks to delete, if the caller asks for it.
  unfoldable pub targets_of :
      (remove_volumes : Bool) → Domain → Io S Error (List Target × List Skipped)
  targets_of false domain = pure ([], [])
  targets_of true domain = do
    xml ← lift (api.xml_saved domain)
    disks ← of_result (xml_result (domain_disks api.parse_element xml))
    resolve disks ([], [])

  unfoldable pub users_for : List Target → ℕ → Io S Error (List (Text × Text))
  users_for [] id = pure []
  users_for (_ ∷ _) id = do
    domains ← lift api.list_all_domains
    paths_of_other_domains domains id []

  -- The check after the undefine: a domain that still exists started meanwhile.
  unfoldable pub is_gone : Result VirtError Domain → Io S Error (Unit {0})
  is_gone (ok _) = fail (
      wrong_state (
        text
          "the VM started during the delete: libvirt removed its definition, but it runs until it stops, and every disk stays"))
  is_gone (err e) = if is_no_domain e then pure tt else fail (libvirt e)

  unfoldable pub check_gone : ℕ → Io S Error (Unit {0})
  check_gone id = do found ← attempt (api.lookup_domain id); is_gone found

  -- The delete of a domain that is shut off.
  unfoldable pub delete_stopped :
      (id : ℕ) (remove_volumes : Bool) (before_undefine : S → S) → Domain → Io S Error Removal
  delete_stopped id remove_volumes before_undefine domain = do
    found ← targets_of remove_volumes domain
    users ← users_for found.0 id
    λ s. lift (undefine domain) (before_undefine s)
    check_gone id
    delete_targets users found.0 (record { removed = []; skipped = found.1 })

  unfoldable pub delete_on :
      (id : ℕ) (remove_volumes : Bool) (before_undefine : S → S) → Io S Error Removal
  delete_on id remove_volumes before_undefine = do
    domain ← lift (api.lookup_domain id)
    active ← lift (api.is_active domain)
    if active
        then fail (wrong_state (text "shut the VM down first"))
        else delete_stopped id remove_volumes before_undefine domain
