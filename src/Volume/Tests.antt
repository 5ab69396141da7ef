-- ===== src/Volume/Tests.antt =====
-- An instance of the theorem on crates/lodger-virt/src/volume.rs, on a host that logs its deletes.
use lodger.Host.{in_use, lift, ◌>>=◌}
use lodger.Prelude.Equality.{text_eq, text_beq}
use lodger.Prelude.{
  if◌then◌else◌, Result, ℕ, true, false, ◌||◌, List, [], ◌∷◌, none, ok, err, text, ◌≡◌, refl,
}
use lodger.Delete.{VmApi, path_of, canonical}
use lodger.Map.{get, insert}
use lodger.Validate.{Text}
use lodger.Volume.Document.{backing_path, volume_format}
use lodger.Xml.{
  Element, element, end, element_node, attribute, find_node, get_child, first_text, child_text,
  text_element, starts_with, contains, parse,
}
use lodger.Xml.Domain.{elements, devices_of, source_of, disk, disk_sources, domain_disk_sources}
use lodger.Volume.{
  read_xml, uses_of_sources, uses_of_xmls, xmls_of_domain, uses_of_domains, disks_of_all_domains,
  VolumeApi, running_pool, read_volumes, overlays_of, describe, describe_all, volumes_on,
  delete_unused, delete_volume_on,
}
use lodger.Volume.Users.{
  file, VolumeFacts, UseOf, is_less, set_insert, users_of_key, insert_by_name, sort_by_name,
  kind_from_code,
}
use lodger.Volume.Names.{IsUsers}
use lodger.Volume.Laws.{is_used, delete_unused-describe}

-- The volume `top` is an overlay on `base`, and the VM `vm` has the disk `data`.
abbrev file_disk : Element
file_disk =
    element (text "disk") []
      (element_node (element (text "source") ((text "file", text "data") ∷ []) end) end)

documents : Text → Result Text Element
documents xml = ok (
    if text_beq xml (text "top")
    then element (text "volume") [] (
        element_node
          (element (text "backingStore") []
            (element_node (text_element (text "path") (text "base")) end))
          end)
    else if text_beq xml (text "vm")
    then element (text "domain") []
        (element_node (element (text "devices") [] (element_node file_disk end)) end)
    else element (text "volume") [] end)

abbrev host : VolumeApi (List Text) ℕ Text
host = record {
  lookup_pool = λ id s. (s, ok id);
  is_active = λ p s. (s, ok true);
  lookup_volume = λ p name s. (s, ok name);
  list_all_volumes = λ p s. (s, ok (text "base" ∷ text "top" ∷ []));
  name = λ v s. (s, ok v);
  info = λ v s. (s, ok (record { kind = 0; capacity = 9; allocation = 4 }));
  key = λ v s. (s, ok v);
  path = λ v s. (s, ok v);
  delete = λ v s. (v ∷ s, ok tt);
  xml_desc = λ v s. (s, ok v);
  refresh = λ p s. (s, ok tt);
  create_xml = λ p xml s. (xml ∷ s, ok xml);
}

abbrev vms : VmApi (List Text) Text ℕ Text
vms = record {
  lookup_domain = λ id s. (s, ok (text "vm"));
  list_all_domains = λ s. (s, ok (text "vm" ∷ []));
  is_active = λ d s. (s, ok false);
  uuid = λ d s. (s, ok 1);
  name = λ d s. (s, ok d);
  xml_saved = λ d s. (s, ok d);
  xml_live = λ d s. (s, ok d);
  undefine_all = λ d s. (s, ok tt);
  undefine_some = λ d s. (s, ok tt);
  lookup_volume_by_path = λ path s. (s, ok path);
  lookup_pool_by_name = λ name s. (s, ok 0);
  lookup_volume_by_name = λ p name s. (s, ok name);
  volume_path = λ v s. (s, ok v);
  delete_volume = λ v s. (s, ok tt);
  canonicalize = λ p s. none;
  parse_element = documents;
}

volumes : Unit {0}
unfolding is_less set_insert users_of_key running_pool read_xml read_volumes overlays_of
    uses_of_sources uses_of_xmls xmls_of_domain uses_of_domains disks_of_all_domains delete_unused
    delete_volume_on ◌>>=◌ documents backing_path path_of canonical attribute find_node get_child
    first_text child_text text_element starts_with contains parse elements devices_of source_of disk
    disk_sources domain_disk_sources get insert describe describe_all volumes_on kind_from_code
    insert_by_name sort_by_name volume_format
volumes = tt

-- The base of an overlay and the disk of a VM stay, and the overlay goes.
base_stays :
    (delete_volume_on host vms 1 (text "base") [] ≡ ([], err (in_use (text "volume top" ∷ []))))
    × ((delete_volume_on host vms 1 (text "data") [] ≡ ([], err (in_use (text "vm" ∷ []))))
        × (delete_volume_on host vms 1 (text "top") [] ≡ (text "top" ∷ [], ok tt)))
unfolding volumes
base_stays = (refl, (refl, refl))

abbrev uses : List UseOf
uses = record { key = text "base"; by = text "vm" } ∷ []

abbrev base : VolumeFacts
base = record {
  name = text "base";
  key = text "base";
  path = text "base";
  kind = file;
  format = none;
  capacity_bytes = 9;
  allocation_bytes = 4;
  used_by = text "vm" ∷ [];
  backing_for = [];
}

base_described :
    describe host vms (text "base") (element (text "volume") [] end) uses [] [] ≡ ([], ok base)
unfolding volumes
base_described = refl

listed : volumes_on host vms 1 [] ≡ (
  [],
  ok (
      record base { used_by = []; backing_for = text "top" ∷ [] }
      ∷ record base { name = text "top"; key = text "top"; path = text "top"; used_by = [] }
      ∷ []),
)
unfolding volumes
listed = refl

delete_unused-describe_example :
    IsUsers (text "base") uses (text "vm" ∷ [])
    × IsUsers (text "base") [] []
    × ((is_used (text "base") uses || is_used (text "base") []) ≡ false
        → delete_unused host (text "base") base [] ≡ lift (host.delete (text "base")) [])
    × ((is_used (text "base") uses || is_used (text "base") []) ≡ true
        → delete_unused host (text "base") base [] ≡ ([], err (in_use (text "vm" ∷ []))))
unfolding volumes
delete_unused-describe_example =
    delete_unused-describe host vms (text "base") (element (text "volume") [] end) uses [] [] []
      base base_described
