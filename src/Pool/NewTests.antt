-- ===== src/Pool/NewTests.antt =====
-- Runs of the checks before the creation of a pool in crates/lodger/src/pools.rs, and instances of the
-- theorems, on a host with one NFS pool.
use lodger.Db.{fold_case}
use lodger.Map.{get, insert}
use lodger.Pool.Document.{
  pool_type, name_of, target_path, nfs_source, mount_folder, in_lodger_mount_root,
}
use lodger.Pool.New.{
  dir, nfs, NewPool, is_in_tree, is_system_path, pool_folder, plain, new_dir, new_nfs,
  pool_document, uses_folder, check_against, dir_kind, nfs_kind, CreatePool, of_kind, read_pools,
  new_pool,
}
use lodger.Pool.NewLaws.{IsRead, pool_document-IsRead, in_lodger_mount_root-pool_document}
use lodger.Pool.Usable.{IsUsable, new_pool_iff}
use lodger.Prelude.Equality.{text_eq, text_beq}
use lodger.Prelude.{
  ◌≡◌, ◌≢◌, ◌↔◌, refl, true, none, some, List, [], ◌∷◌, Result, ok, err, text, if◌then◌else◌,
}
use lodger.Validate.{
  Text, system_path, path_in_use, nfs_export_in_use, len_utf8, len, is_ascii_alphanumeric,
  is_name_char, is_host_char, check_text, parse_chars, parse_name, is_dots, parse_host,
}
use lodger.Validate.Path.{split, non_empty, parts, join, is_control, is_refused, parse_path}
use lodger.Validate.Rejection.{exists_already, invalid}
use lodger.Web.Bytes.{eq_ignore_ascii_case}
use lodger.Xml.{
  Element, attribute, find_node, get_child, first_text, child_text, new_element, text_element,
  put_all, element_with, push_node, push, starts_with, contains, parse,
}

creating : Unit {0}
unfolding get insert fold_case pool_type name_of target_path nfs_source in_lodger_mount_root
    is_in_tree is_system_path pool_folder plain new_dir new_nfs pool_document uses_folder
    check_against of_kind read_pools new_pool len_utf8 len is_ascii_alphanumeric is_name_char
    is_host_char check_text parse_chars parse_name is_dots parse_host split non_empty parts join
    is_control is_refused parse_path eq_ignore_ascii_case attribute find_node get_child first_text
    child_text new_element text_element put_all element_with push_node push starts_with contains
    parse
creating = tt

abbrev nas : NewPool
nas = record {
  name = text "nas";
  path = mount_folder (text "nas");
  source = nfs (text "nas.lan") (text "/volume1/vm");
}

-- The one text that is a document.
abbrev pub parse_nas : Text → Result Text Element
parse_nas xml = if text_beq xml (text "<pool/>") then ok (pool_document nas) else err (text "empty")

abbrev pub existing_pools : List (Text × Text)
existing_pools = (text "nas", text "<pool/>") ∷ (text "odd", text "<!DOCTYPE pool>") ∷ []

abbrev pub images : CreatePool
images = record {
  name = text "images";
  kind = dir_kind;
  path = some (text "/srv//images/");
  host = none;
  export = none;
  autostart = true;
}

abbrev images_pool : NewPool
images_pool = record { name = text "images"; path = text "/srv/images"; source = dir }

passes : new_pool parse_nas images existing_pools ≡ ok images_pool
unfolding creating
passes = refl

no_twin :
    new_pool parse_nas (record images { name = text "odd" }) existing_pools
    ≡ err (exists_already (text "odd"))
unfolding creating
no_twin = refl

no_system_folder :
    new_pool parse_nas (record images { path = some (text "/etc//libvirt") }) existing_pools
    ≡ err (invalid (system_path "Pool folder" (text "/etc/libvirt")))
unfolding creating
no_system_folder = refl

no_shared_folder :
    new_pool parse_nas
      (record images { path = some (text "/var/lib/libvirt/pools//nas") })
      existing_pools
    ≡ err (invalid (path_in_use "Pool folder" (text "nas")))
unfolding creating
no_shared_folder = refl

no_shared_export :
    new_pool parse_nas
      (record images {
        kind = nfs_kind;
        host = some (text "NAS.lan");
        export = some (text "/volume1/vm/");
      })
      existing_pools
    ≡ err (invalid (nfs_export_in_use (text "nas")))
unfolding creating
no_shared_export = refl

new_pool_iff_example :
    (new_pool parse_nas images existing_pools ≡ ok images_pool)
    ↔ IsUsable parse_nas images existing_pools images_pool
new_pool_iff_example = new_pool_iff parse_nas images existing_pools images_pool

pool_document-IsRead_example : IsRead nas (pool_document nas)
pool_document-IsRead_example = pool_document-IsRead nas

in_lodger_mount_root-pool_document_example :
    (in_lodger_mount_root (pool_document nas) (text "nas") ≡ true) ↔ (
      (nfs (text "nas.lan") (text "/volume1/vm") ≢ dir)
      × (mount_folder (text "nas") ≡ mount_folder (text "nas")))
in_lodger_mount_root-pool_document_example = in_lodger_mount_root-pool_document nas
