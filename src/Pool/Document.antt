-- ===== src/Pool/Document.antt =====
-- `PoolXml` of crates/lodger-core/src/xml/pool.rs, and the mount folders of crates/lodger/src/pools.rs.
use lodger.Prelude.Equality.{text_eq, text_beq, option_beq}
use lodger.Prelude.{Bool, false, not, ◌&&◌, Option, none, some, ◌++◌, text, if◌then◌else◌}
use lodger.Validate.{Text}
use lodger.Xml.{Element, attribute, get_child, child_text, and_then}

abbrev pub PoolXml : Type 0
PoolXml = Element

unfoldable pub pool_type : PoolXml → Option Text
pool_type xml = attribute (text "type") xml

-- `PoolXml::name`.
unfoldable pub name_of : PoolXml → Option Text
name_of xml = child_text xml (text "name")

unfoldable pub target_path : PoolXml → Option Text
target_path xml = and_then (get_child (text "target") xml) (λ t. child_text t (text "path"))

-- `format.is_some_and(|f| f != "nfs" && f != "auto")`.
abbrev pub is_other_format : Option Text → Bool
is_other_format none = false
is_other_format (some f) = not (text_beq f (text "nfs")) && not (text_beq f (text "auto"))

unfoldable pub nfs_source : PoolXml → Option (Text × Text)
nfs_source xml =
    if not (option_beq (pool_type xml) (some (text "netfs")))
    then none
    else and_then (get_child (text "source") xml) (λ source.
      if is_other_format (and_then (get_child (text "format") source) (attribute (text "type")))
      then none
      else and_then (and_then (get_child (text "host") source) (attribute (text "name"))) (λ host.
        and_then (and_then (get_child (text "dir") source) (attribute (text "path")))
          (λ export. some (host, export))))

abbrev pub nfs_mount_root : Text
nfs_mount_root = text "/var/lib/libvirt/pools"

-- `format!("{NFS_MOUNT_ROOT}/{name}")`.
abbrev pub mount_folder : Text → Text
mount_folder name = nfs_mount_root ++ text "/" ++ name

unfoldable pub in_lodger_mount_root : PoolXml → (name : Text) → Bool
in_lodger_mount_root xml name =
    option_beq (pool_type xml) (some (text "netfs"))
    && option_beq (target_path xml) (some (mount_folder name))
