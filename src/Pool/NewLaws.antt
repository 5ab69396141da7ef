-- ===== src/Pool/NewLaws.antt =====
-- What the document of a new pool says to its reader, and which pools `new_pool` lets through.
use lodger.Db.{fold_case}
use lodger.Pool.Document.{
  PoolXml, pool_type, name_of, target_path, nfs_source, mount_folder, in_lodger_mount_root,
}
use lodger.Pool.New.{
  PoolSource, dir, nfs, NewPool, plain, pool_document, uses_folder, is_same_export, check_against,
}
use lodger.Prelude.Equality.{text_beq, text_beq_iff, text_eq, option_beq_iff}
use lodger.Prelude.{
  ◌≡◌, ◌≢◌, ◌↔◌, ◌⊎◌, refl, true, Option, none, some, Option-cases, List, [], ◌∷◌, map, ok, arith,
  Bool-cases, inl, inr, All, text,
}
use lodger.Validate.{Text}
use lodger.Validate.Path.{parts, join}
use lodger.Validate.Path.Laws.{IsPath, parse_path_iff}
use lodger.Web.Bytes.{eq_ignore_ascii_case}
use lodger.Xml.{
  attribute, find_node, get_child, first_text, child_text, new_element, text_element, put_all,
  element_with, push_node, push,
}

abbrev pub type_of : PoolSource → Text
type_of dir = text "dir"
type_of (nfs _ _) = text "netfs"

abbrev pub export_of : PoolSource → Option (Text × Text)
export_of dir = none
export_of (nfs host export) = some (host, export)

-- What the readers return of a document.
abbrev pub IsRead : NewPool → PoolXml → Type 0
IsRead pool xml =
    (pool_type xml ≡ some (type_of pool.source))
    × (name_of xml ≡ some pool.name)
    × (target_path xml ≡ some pool.path)
    × (nfs_source xml ≡ export_of pool.source)

IsRead-of_source :
    (name path : Text) (source : PoolSource)
    → let pool : NewPool = record { name = name; path = path; source = source } in
      IsRead pool (pool_document pool)
unfolding pool_document pool_type name_of target_path nfs_source attribute push element_with
    lodger.Map.get put_all lodger.Map.insert child_text get_child find_node push_node text_element
    first_text new_element
IsRead-of_source name path dir = (refl, refl, refl, refl)
IsRead-of_source name path (nfs host export) = (refl, refl, refl, refl)

-- The readers of a pool's document return what the document of a new pool was built from: its type,
-- its name, its folder, and the server and the export of an NFS pool.
pub pool_document-IsRead : (pool : NewPool) → IsRead pool (pool_document pool)
pool_document-IsRead pool = IsRead-of_source pool.name pool.path pool.source

-- When a pool is removed, its document says that its folder is Lodger's to remove exactly if it was
-- created as an NFS pool on the folder of its name in Lodger's mount root.
pub in_lodger_mount_root-pool_document :
    (pool : NewPool)
    → (in_lodger_mount_root (pool_document pool) pool.name ≡ true)
      ↔ ((pool.source ≢ dir) × (pool.path ≡ mount_folder pool.name))
unfolding in_lodger_mount_root
in_lodger_mount_root-pool_document pool =
    let (kind, _, path, _) = pool_document-IsRead pool in
    let folder = text_beq_iff pool.path (mount_folder pool.name) in
    at pool.source refl kind path folder
  where
    at :
        (source : PoolSource)
        → pool.source ≡ source
        → pool_type (pool_document pool) ≡ some (type_of pool.source)
        → target_path (pool_document pool) ≡ some pool.path
        → (text_beq pool.path (mount_folder pool.name) ≡ true)
          ↔ (pool.path ≡ mount_folder pool.name)
        → (in_lodger_mount_root (pool_document pool) pool.name ≡ true)
          ↔ ((pool.source ≢ dir) × (pool.path ≡ mount_folder pool.name))
    at dir same kind path folder =
        (λ h. absurd (ground (arith, same, kind, h)), λ (nfs_source, _). absurd (nfs_source same))
    at (nfs host export) same kind path folder = (
      λ h. (λ e. ground (arith, same, e), folder.0 (ground (arith, same, kind, path, h))),
      λ (_, placed). let eq = folder.1 placed in ground (arith, same, kind, path, eq),
    )

plain_iff : (v p : Text) → (plain v ≡ some p) ↔ ((p ≡ b'/' ∷ join (parts v)) × IsPath v)
unfolding plain
plain_iff v p = ground (arith, parse_path_iff "path" v p)

-- The folder of an existing pool is the new pool's.
abbrev pub SharesFolder : NewPool → PoolXml → Type 0
SharesFolder pool other =
    (v : Text) × (target_path other ≡ some v) × (pool.path ≡ b'/' ∷ join (parts v)) × IsPath v

-- Both are NFS pools of one server, up to the case of letters, and of one export.
abbrev pub SharesExport : NewPool → PoolXml → Type 0
SharesExport pool other =
    (host export other_host v : Text) × (pool.source ≡ nfs host export)
    × (nfs_source other ≡ some (other_host, v))
    × (map fold_case host ≡ map fold_case other_host)
    × (export ≡ b'/' ∷ join (parts v))
    × IsPath v

uses_folder_sound :
    (pool : NewPool) (other : PoolXml) → uses_folder pool other ≡ true → SharesFolder pool other
unfolding uses_folder
uses_folder_sound pool other h = elim (Option-cases (target_path other)) [
  | inl missing ↦ absurd (ground (arith, missing, h))
  | inr (v, found) ↦
      let same : plain v ≡ some pool.path =
        (option_beq_iff (plain v) (some pool.path)).0 (ground (arith, found, h)) in
      let (plain_form, good) = (plain_iff v pool.path).0 same in (v, found, plain_form, good)
]

uses_folder_complete :
    (pool : NewPool) (other : PoolXml) → SharesFolder pool other → uses_folder pool other ≡ true
unfolding uses_folder
uses_folder_complete pool other (v, found, same, good) =
    let read = (plain_iff v pool.path).1 (same, good) in
    let eq = (option_beq_iff (plain v) (some pool.path)).1 read in ground (arith, found, eq)

same_export_sound :
    (pool : NewPool) (other : PoolXml)
    → is_same_export pool.source (nfs_source other) ≡ true
    → SharesExport pool other
unfolding eq_ignore_ascii_case
same_export_sound pool other h = at pool.source refl
  where
    at : (source : PoolSource) → pool.source ≡ source → SharesExport pool other
    at dir same = absurd (ground (arith, same, h))
    at (nfs host export) same = elim (Option-cases (nfs_source other)) [
      | inl missing ↦ absurd (ground (arith, same, missing, h))
      | inr ((other_host, v), found) ↦
          let read : plain v ≡ some export =
            (option_beq_iff (plain v) (some export)).0 (ground (arith, same, found, h)) in
          let hosts : map fold_case host ≡ map fold_case other_host =
            (text_beq_iff (map fold_case host) (map fold_case other_host)).0
              (ground (arith, same, found, h)) in
          let (plain_form, good) = (plain_iff v export).0 read in
          (host, export, other_host, v, same, found, hosts, plain_form, good)
    ]

same_export_complete :
    (pool : NewPool) (other : PoolXml)
    → SharesExport pool other
    → is_same_export pool.source (nfs_source other) ≡ true
unfolding eq_ignore_ascii_case
same_export_complete pool other
      (host, export, other_host, v, same, found, hosts, plain_form, good) =
    let read = (plain_iff v export).1 (plain_form, good) in
    let eq = (option_beq_iff (plain v) (some export)).1 read in
    let names = (text_beq_iff (map fold_case host) (map fold_case other_host)).1 hosts in
    ground (arith, same, found, eq, names)

abbrev pub Clashes : NewPool → PoolXml → Type 0
Clashes pool other = SharesFolder pool other ⊎ SharesExport pool other

-- `check_against` accepts a pool exactly if it clashes with none.
pub check_against_iff :
    (pool : NewPool) (existing : List (Text × PoolXml))
    → (check_against pool existing ≡ ok tt) ↔ All (λ other. ¬ Clashes pool other.1) existing
unfolding check_against
check_against_iff pool [] = (λ h. tt, λ h. refl)
check_against_iff pool ((name, other) ∷ rest) = elim (Bool-cases (uses_folder pool other)) [
  | inl used ↦ (
    λ h. absurd (ground (arith, used, h)),
    λ (free, _). absurd (free (inl (uses_folder_sound pool other used))),
  )
  | inr unused ↦ elim (Bool-cases (is_same_export pool.source (nfs_source other))) [
    | inl same ↦ (
      λ h. absurd (ground (arith, unused, same, h)),
      λ (free, _). absurd (free (inr (same_export_sound pool other same))),
    )
    | inr differs ↦ (
      λ h. (
        λ clash. elim clash [
          | inl folder ↦ ground (arith, unused, uses_folder_complete pool other folder)
          | inr export ↦ ground (arith, differs, same_export_complete pool other export)
        ],
        (check_against_iff pool rest).0 (ground (arith, unused, differs, h)),
      ),
      λ (free, others). ground (arith, unused, differs, (check_against_iff pool rest).1 others),
    )
  ]
]
