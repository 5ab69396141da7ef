-- ===== src/Delete/Tests.antt =====
-- Runs of crates/lodger-virt/src/delete.rs on a host that logs its deletes: 6 is an undefine, and the
-- delete of a volume logs its path.
use mathlib.Core.List.{Permᴰ}
use lodger.Map.{get, contains_key, insert}
use lodger.Host.{VirtError, no_domain, ◌>>=◌, Keeps}
use lodger.Prelude.Equality.{text_eq, text_beq}
use lodger.Prelude.{
  ◌⊎◌, ℕ, true, false, List, [], ◌∷◌, some, Result, ok, err, ◌≡◌, refl, All, text, if◌then◌else◌,
}
use lodger.Delete.{
  used_by, Removal, Target, VmApi, path_of, canonical, resolve, resolve_disk, undefine,
  undefine_again, disks_config, add_user, users_of_disks, users_of_xmls, paths_of_other_domains,
  delete_path, delete_target, report_target, delete_targets, targets_of, users_for, is_gone,
  check_gone, delete_stopped, delete_on,
}
use lodger.Validate.{Text}
use lodger.Xml.{
  Element, XmlError, element, end, element_node, attribute, find_node, get_child, starts_with,
  contains, parse,
}
use lodger.Xml.Domain.{
  DiskSource, Disk, elements, devices_of, source_of, disk, data_disks, domain_disks,
  domain_disk_sources,
}
use lodger.Xml.DomainLaws.{IsAmong, domain_disks-IsAmong}
use lodger.Delete.Loop.{FreeIn, paths_told, delete_targets-report}
use lodger.Delete.Keeping.{KeepsDisks, delete_on-Keeps}

abbrev gone : VirtError
gone = record { code = no_domain; message = [] }

-- Domain 1 has the disks a and b, and domain 2 has the disk b.
abbrev file_disk : Text → Element
file_disk path =
    element (text "disk") []
      (element_node (element (text "source") ((text "file", path) ∷ []) end) end)

domain_of : Text → Result Text Element
domain_of xml = ok (
    element (text "domain") [] (
      element_node
        (element (text "devices") [] (
          if text_beq xml (1 ∷ [])
          then element_node (file_disk (text "a")) (element_node (file_disk (text "b")) end)
          else element_node (file_disk (text "b")) end))
        end))

find_domain : ℕ → List Text → List Text × Result VirtError ℕ
find_domain id [] = ([], ok id)
find_domain id (call ∷ calls) = (call ∷ calls, err gone)

abbrev host : VmApi (List Text) ℕ ℕ Text
host = record {
  lookup_domain = find_domain;
  list_all_domains = λ s. (s, ok (1 ∷ 2 ∷ []));
  is_active = λ d s. (s, ok false);
  uuid = λ d s. (s, ok d);
  name = λ d s. (s, ok (text "vm"));
  xml_saved = λ d s. (s, ok (d ∷ []));
  xml_live = λ d s. (s, ok (d ∷ []));
  undefine_all = λ d s. (text "undefine" ∷ s, ok tt);
  undefine_some = λ d s. (text "undefine" ∷ s, ok tt);
  lookup_volume_by_path = λ path s. (s, ok path);
  lookup_pool_by_name = λ name s. (s, ok 0);
  lookup_volume_by_name = λ p name s. (s, ok name);
  volume_path = λ v s. (s, ok v);
  delete_volume = λ v s. (v ∷ s, ok tt);
  canonicalize = λ path s. some path;
  parse_element = domain_of;
}

delete : Unit {0}
unfolding path_of canonical resolve resolve_disk undefine undefine_again disks_config add_user
    users_of_disks users_of_xmls paths_of_other_domains delete_path delete_target report_target
    delete_targets targets_of users_for is_gone check_gone delete_stopped delete_on ◌>>=◌ get
    contains_key insert domain_of find_domain attribute find_node get_child starts_with contains
    parse elements devices_of source_of disk data_disks domain_disks
delete = tt

-- The disk that the other VM uses stays.
one_of_two : delete_on host 1 true (λ s. s) [] ≡ (
  text "a" ∷ text "undefine" ∷ [],
  ok (record {
    removed = text "a" ∷ [];
    skipped = record { path = text "b"; reason = used_by (text "vm") } ∷ [];
  }),
)
unfolding delete
one_of_two = refl

abbrev users : List (Text × Text)
users = (text "b", text "vm") ∷ []

abbrev targets : List Target
targets =
    record { path = text "a"; key = text "a"; shared = false }
    ∷ record { path = text "b"; key = text "b"; shared = false }
    ∷ []

abbrev nothing : Removal
nothing = record { removed = []; skipped = [] }

delete_targets-report_example :
    (r' : Removal) × ((delete_targets host users targets nothing []).1 ≡ ok r')
    × Permᴰ (paths_told r') (text "a" ∷ text "b" ∷ [])
    × ((Q : Text → Type 0)
        → Unit {0}
        → ((p : Text) → FreeIn users targets p → Q p)
        → All Q r'.removed)
delete_targets-report_example = delete_targets-report host users targets nothing []

-- No call but an undefine.
abbrev OnlyUndefined : List Text → Type 0
OnlyUndefined calls = All (λ c. c ≡ text "undefine") calls

host-KeepsDisks : KeepsDisks host OnlyUndefined
unfolding find_domain
host-KeepsDisks = record {
  lookup_domain = found;
  is_active = λ d s p. p;
  undefine_all = λ d s p. (refl, p);
  undefine_some = λ d s p. (refl, p);
}
  where
    found : (id : ℕ) → Keeps OnlyUndefined (find_domain id)
    found id [] p = p
    found id (call ∷ calls) p = p

delete_on-Keeps_example : OnlyUndefined (delete_on host 1 false (λ s. s) []).0
delete_on-Keeps_example =
    delete_on-Keeps host OnlyUndefined host-KeepsDisks 1 (λ s. s) (λ s p. p) [] tt

domain_disks-IsAmong_example :
    ((disks : List Disk) × (sources : List DiskSource) × (domain_disks domain_of (1 ∷ [])
        ≡ ok disks)
      × (domain_disk_sources domain_of (1 ∷ []) ≡ ok sources)
      × All (λ d. IsAmong d.source sources) disks)
    ⊎ ((e : XmlError) × (domain_disks domain_of (1 ∷ []) ≡ err e)
        × (domain_disk_sources domain_of (1 ∷ []) ≡ err e))
domain_disks-IsAmong_example = domain_disks-IsAmong domain_of (1 ∷ [])
