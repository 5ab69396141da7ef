-- ===== src/Volume.antt =====
-- crates/lodger-virt/src/volume.rs: the facts and the users of volumes, the deletion and the creation.
pub mod Order
pub mod Document
pub mod Laws
pub mod Users
pub mod Names
mod Tests
use lodger.Host.{
  VirtError, Io, Error, wrong_state, in_use, lift, ◌>>=◌, ◌>>◌, pure, fail, then_result, attempt,
  result_or, xml_result,
}
use lodger.Delete.{VmApi, of_result, path_of, canonical}
use lodger.Validate.{Text}
use lodger.Volume.Document.{backing_path, volume_format}
use lodger.Volume.Users.{UseOf, VolumeFacts, kind_from_code, users_of_key, sort_by_name}
use lodger.Xml.{Element, parse}
use lodger.Xml.Domain.{DiskSource, domain_disk_sources}
use lodger.Prelude.Equality.{text_beq}
use lodger.Prelude.{
  ℕ, Bool, true, false, not, ◌&&◌, ◌||◌, List, [], ◌∷◌, ◌++◌, map, Option, none, some, Result, ok,
  err, text, if◌then◌else◌, ◌==◌, ltb, unwrap_or,
}

-- `StorageVolInfo`.
pub record VolumeInfo : Type 0 where
  pub kind : ℕ
  pub capacity : ℕ
  pub allocation : ℕ

-- What the operations call of a pool and its volumes.
pub record VolumeApi (S Pool Volume : Type 0) : Type 0 where
  pub lookup_pool : ℕ → Io S VirtError Pool
  pub is_active : Pool → Io S VirtError Bool
  pub lookup_volume : Pool → Text → Io S VirtError Volume
  pub list_all_volumes : Pool → Io S VirtError (List Volume)
  pub name : Volume → Io S VirtError Text
  pub info : Volume → Io S VirtError VolumeInfo
  pub key : Volume → Io S VirtError Text
  pub path : Volume → Io S VirtError Text
  pub delete : Volume → Io S VirtError (Unit {0})
  pub xml_desc : Volume → Io S VirtError Text
  pub refresh : Pool → Io S VirtError (Unit {0})
  pub create_xml : Pool → (xml : Text) → Io S VirtError Volume

module _ {S Pool Volume : Type 0} (api : VolumeApi S Pool Volume) where
  -- `Ok` only for a pool that runs.
  unfoldable pub running_pool : ℕ → Io S Error Pool
  running_pool id = do
    pool ← lift (api.lookup_pool id)
    active ← lift (api.is_active pool)
    if not active then fail (wrong_state (text "the pool is not running")) else pure pool

  -- `volume_names`.
  unfoldable pub names_of : List Volume → Io S Error (List Text)
  names_of [] = pure []
  names_of (volume ∷ volumes) = do
    name ← lift (api.name volume)
    names ← names_of volumes
    pure (name ∷ names)

  unfoldable pub volume_names : ℕ → Io S Error (List Text)
  volume_names id = do
    pool ← running_pool id
    lift (api.refresh pool)
    all ← lift (api.list_all_volumes pool)
    names_of all

  -- `create_volume`. `send` is `pool_changed`.
  unfoldable pub create_volume_on : (send : ℕ → S → S) → ℕ → (xml : Text) → Io S Error (Unit {0})
  create_volume_on send id xml = do
    pool ← running_pool id
    lift (api.create_xml pool xml)
    λ s. (send id s, ok tt)

  -- The end of `delete_on`: the users of the volume, and the delete if there is none.
  unfoldable pub delete_unused : Volume → VolumeFacts → Io S Error (Unit {0})
  delete_unused volume facts =
      elim (facts.used_by ++ map (λ o. text "volume " ++ o) facts.backing_for) [
        | [] ↦ lift (api.delete volume)
        | u ∷ us ↦ fail (in_use (u ∷ us))
      ]

module _ {S Domain Pool Volume : Type 0} (api : VolumeApi S Pool Volume)
    (vms : VmApi S Domain Pool Volume) where
  -- `VolumeXml::parse` of a volume's document.
  unfoldable pub read_xml : Volume → Io S Error Element
  read_xml volume = do
    xml ← lift (api.xml_desc volume)
    of_result (xml_result (parse vms.parse_element xml (text "volume")))

  unfoldable pub read_volumes : List Volume → Io S Error (List (Volume × Element))
  read_volumes [] = pure []
  read_volumes (volume ∷ volumes) = do
    xml ← read_xml volume
    rest ← read_volumes volumes
    pure ((volume, xml) ∷ rest)

  abbrev pub use_of : (key : Text) → Result VirtError Text → List UseOf
  use_of key (ok name) = record { key = key; by = name } ∷ []
  use_of key (err e) = []

  -- A volume without a backing file, or whose name cannot be read, is left out.
  unfoldable pub overlays_of : List (Volume × Element) → Io S Error (List UseOf)
  overlays_of [] = pure []
  overlays_of ((volume, xml) ∷ volumes) = elim (backing_path xml) [
    | none ↦ overlays_of volumes
    | some backing ↦ λ s.
        (attempt (api.name volume) >>= (λ name.
            overlays_of volumes >>= λ rest. pure (use_of (canonical vms backing s) name ++ rest)))
          s
  ]

  -- The uses by one VM of the sources of one document.
  unfoldable pub uses_of_sources : (vm : Text) → List DiskSource → Io S Error (List UseOf)
  uses_of_sources vm [] = pure []
  uses_of_sources vm (source ∷ sources) = do
    path ← path_of vms source
    λ s.
        (uses_of_sources vm sources >>= λ rest.
        pure (elim path [ none ↦ [] | some p ↦ use_of (canonical vms p s) (ok vm) ] ++ rest))
          s

  unfoldable pub uses_of_xmls : (vm : Text) → List Text → Io S Error (List UseOf)
  uses_of_xmls vm [] = pure []
  uses_of_xmls vm (xml ∷ xmls) = do
    uses ← uses_of_sources vm (result_or [] (domain_disk_sources vms.parse_element xml))
    rest ← uses_of_xmls vm xmls
    pure (uses ++ rest)

  abbrev pub list_of : {A : Type 0} → Result VirtError A → List A
  list_of (ok a) = a ∷ []
  list_of (err e) = []

  -- The saved and, for a VM that runs, the live document, as far as they can be read.
  unfoldable pub xmls_of_domain : Domain → Io S Error (List Text)
  xmls_of_domain domain = do
    saved ← attempt (vms.xml_saved domain)
    active ← attempt (vms.is_active domain)
    live ←
        (if result_or false active
          then attempt (vms.xml_live domain) >>= (λ xml. pure (list_of xml))
          else pure [])
    pure (list_of saved ++ live)

  unfoldable pub uses_of_domains : List Domain → Io S Error (List UseOf)
  uses_of_domains [] = pure []
  uses_of_domains (domain ∷ domains) = do
    name ← attempt (vms.name domain)
    uses ← (elim name [ err e ↦ pure [] | ok vm ↦ xmls_of_domain domain >>= uses_of_xmls vm ])
    rest ← uses_of_domains domains
    pure (uses ++ rest)

  unfoldable pub disks_of_all_domains : Io S Error (List UseOf)
  disks_of_all_domains = do domains ← lift vms.list_all_domains; uses_of_domains domains

  -- The rest of `describe`, with the file of the volume resolved.
  abbrev pub facts_at :
      Volume
      → (format : Option Text) → VolumeInfo
      → (path key : Text) → (disks overlays : List UseOf) → Io S Error VolumeFacts
  facts_at volume format info path key disks overlays = do
    name ← lift (api.name volume)
    volume_key ← lift (api.key volume)
    pure (record {
      name = name;
      key = volume_key;
      path = path;
      kind = kind_from_code info.kind;
      format = format;
      capacity_bytes = info.capacity;
      allocation_bytes = info.allocation;
      used_by = users_of_key key disks;
      backing_for = users_of_key key overlays;
    })

  unfoldable pub describe :
      Volume → (xml : Element) → (disks overlays : List UseOf) → Io S Error VolumeFacts
  describe volume xml disks overlays = do
    info ← lift (api.info volume)
    path ← lift (api.path volume)
    λ s. facts_at volume (volume_format xml) info path (canonical vms path s) disks overlays s

  unfoldable pub describe_all :
      List (Volume × Element) → (disks overlays : List UseOf) → Io S Error (List VolumeFacts)
  describe_all [] disks overlays = pure []
  describe_all ((volume, xml) ∷ volumes) disks overlays = do
    facts ← describe volume xml disks overlays
    rest ← describe_all volumes disks overlays
    pure (facts ∷ rest)

  -- `volumes`.
  unfoldable pub volumes_on : ℕ → Io S Error (List VolumeFacts)
  volumes_on id = do
    pool ← running_pool api id
    lift (api.refresh pool)
    disks ← disks_of_all_domains
    all ← lift (api.list_all_volumes pool)
    volumes ← read_volumes all
    overlays ← overlays_of volumes
    out ← describe_all volumes disks overlays
    pure (sort_by_name out)

  unfoldable pub delete_volume_on : ℕ → (name : Text) → Io S Error (Unit {0})
  delete_volume_on id name = do
    pool ← running_pool api id
    volume ← lift (api.lookup_volume pool name)
    xml ← read_xml volume
    all ← lift (api.list_all_volumes pool)
    volumes ← read_volumes all
    overlays ← overlays_of volumes
    disks ← disks_of_all_domains
    facts ← describe volume xml disks overlays
    delete_unused api volume facts

  -- `delete_volume`. `send` is `pool_changed`.
  unfoldable pub delete_volume : (send : ℕ → S → S) → ℕ → (name : Text) → Io S Error (Unit {0})
  delete_volume send id name = delete_volume_on id name >>= λ done s. (send id s, ok tt)
