-- ===== src/Pool/New.antt =====
-- `NewPool` of crates/lodger-core/src/xml/pool.rs, and `new_pool`, the checks before a creation in
-- crates/lodger/src/pools.rs.
use lodger.Pool.Document.{PoolXml, target_path, nfs_source, mount_folder}
use lodger.Prelude.Equality.{text_beq, text_eq, option_beq}
use lodger.Prelude.{
  Bool, false, ◌&&◌, ◌||◌, Option, none, some, List, [], ◌∷◌, ◌++◌, Result, ok, err, ◌>>=◌, ◌>>◌,
  fail_if, any, text, if◌then◌else◌,
}
use lodger.Validate.{
  Text, InputError, empty, system_path, path_in_use, nfs_export_in_use, parse_name, parse_host,
}
use lodger.Validate.Path.{parse_path}
use lodger.Validate.Rejection.{Rejection, exists_already, invalid, checked, required}
use lodger.Web.Bytes.{eq_ignore_ascii_case}
use lodger.Xml.{
  Element, parse, readable, new_element, text_element, element_with, push, starts_with, and_then,
}

abbrev pub system_trees : List Text
system_trees =
    text "/bin"
    ∷ text "/boot"
    ∷ text "/dev"
    ∷ text "/etc"
    ∷ text "/lib"
    ∷ text "/lib32"
    ∷ text "/lib64"
    ∷ text "/proc"
    ∷ text "/root"
    ∷ text "/run"
    ∷ text "/sbin"
    ∷ text "/sys"
    ∷ text "/tmp"
    ∷ text "/usr"
    ∷ []

abbrev pub system_folders : List Text
system_folders =
    text "/"
    ∷ text "/home"
    ∷ text "/media"
    ∷ text "/mnt"
    ∷ text "/opt"
    ∷ text "/srv"
    ∷ text "/var"
    ∷ text "/var/lib"
    ∷ text "/var/lib/libvirt"
    ∷ []

pub data PoolSource : Type 0 where
  dir : PoolSource
  nfs : (host export : Text) → PoolSource

pub record NewPool : Type 0 where
  pub name : Text
  pub path : Text
  pub source : PoolSource

-- `path == *tree || path.starts_with(&format!("{tree}/"))`.
unfoldable pub is_in_tree : (path tree : Text) → Bool
is_in_tree path tree = text_beq path tree || starts_with (tree ++ text "/") path

unfoldable pub is_system_path : Text → Bool
is_system_path path = any (is_in_tree path) system_trees || any (text_beq path) system_folders

-- The function `target_path`.
unfoldable pub pool_folder : Text → Result InputError Text
pool_folder value = do
  path ← parse_path "Pool folder" value
  fail_if (is_system_path path) (system_path "Pool folder" path)
  ok path

-- `plain`.
unfoldable pub plain : Text → Option Text
plain path = elim (parse_path "path" path) [ ok p ↦ some p | err e ↦ none ]

-- `NewPool::dir` and `NewPool::nfs`.
unfoldable pub new_dir : (name path : Text) → Result InputError NewPool
new_dir name path = do
  folder ← pool_folder path
  ok (record { name = name; path = folder; source = dir })

unfoldable pub new_nfs : (name host export path : Text) → Result InputError NewPool
new_nfs name host export path = do
  folder ← pool_folder path
  server ← parse_host "NFS server" host
  source ← parse_path "NFS export" export
  ok (record { name = name; path = folder; source = nfs server source })

-- The root of `to_xml`.
abbrev pub pool_root : (kind : Text) → NewPool → Element
pool_root kind pool =
    push (element_with (text "pool") ((text "type", kind) ∷ []))
      (text_element (text "name") pool.name)

abbrev pub source_element : (host export : Text) → Element
source_element host export =
    push
      (push
        (push (new_element (text "source")) (element_with (text "host") ((text "name", host) ∷ [])))
        (element_with (text "dir") ((text "path", export) ∷ [])))
      (element_with (text "format") ((text "type", text "nfs") ∷ []))

abbrev pub target_element : NewPool → Element
target_element pool = push (new_element (text "target")) (text_element (text "path") pool.path)

-- The document that `to_xml` writes.
unfoldable pub pool_document : NewPool → PoolXml
pool_document pool = elim (pool.source) [
  | dir ↦ push (pool_root (text "dir") pool) (target_element pool)
  | nfs host export ↦
      push (push (pool_root (text "netfs") pool) (source_element host export)) (target_element pool)
]

-- The two tests of `check_against` on one pool.
unfoldable pub uses_folder : NewPool → PoolXml → Bool
uses_folder pool other = option_beq (and_then (target_path other) plain) (some pool.path)

abbrev pub is_same_export : (source : PoolSource) → Option (Text × Text) → Bool
is_same_export (nfs host export) (some (other_host, other_export)) =
    eq_ignore_ascii_case host other_host && option_beq (plain other_export) (some export)
is_same_export _ _ = false

-- `check_against`.
unfoldable pub check_against : NewPool → List (Text × PoolXml) → Result InputError (Unit {0})
check_against pool [] = ok tt
check_against pool ((name, other) ∷ rest) =
    let later = check_against pool rest in
    if uses_folder pool other
    then err (path_in_use "Pool folder" name)
    else if is_same_export pool.source (nfs_source other)
    then err (nfs_export_in_use name)
    else later

pub data Kind : Type 0 where
  dir_kind : Kind
  nfs_kind : Kind

pub record CreatePool : Type 0 where
  pub name : Text
  pub kind : Kind
  pub path : Option Text
  pub host : Option Text
  pub export : Option Text
  pub autostart : Bool

-- `request.path.clone().unwrap_or_else(…)`.
abbrev pub nfs_folder : CreatePool → Text
nfs_folder request = elim (request.path) [ some path ↦ path | none ↦ mount_folder request.name ]

-- The `match` on the kind in `new_pool`.
unfoldable pub of_kind : (name : Text) → CreatePool → Result Rejection NewPool
of_kind name request = elim (request.kind) [
  | dir_kind ↦ do
    path ← required request.path (invalid (empty "Pool folder"))
    checked (new_dir name path)
  | nfs_kind ↦ do
    host ← required request.host (invalid (empty "NFS server"))
    export ← required request.export (invalid (empty "NFS export"))
    checked (new_nfs name host export (nfs_folder request))
]

module _ (parse_element : Text → Result Text Element) where
  -- The pools whose document can be read.
  unfoldable pub read_pools : List (Text × Text) → List (Text × PoolXml)
  read_pools [] = []
  read_pools ((name, xml) ∷ rest) =
      let later = read_pools rest in
      elim (readable (parse parse_element xml (text "pool"))) [
        | none ↦ later
        | some document ↦ (name, document) ∷ later
      ]

  unfoldable pub new_pool : CreatePool → (existing : List (Text × Text)) → Result Rejection NewPool
  new_pool request existing = do
    name ← checked (parse_name "Pool name" request.name)
    fail_if (any (λ other. text_beq other.0 request.name) existing) (exists_already request.name)
    pool ← of_kind name request
    checked (check_against pool (read_pools existing))
    ok pool
