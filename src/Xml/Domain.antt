-- ===== src/Xml/Domain.antt =====
-- What crates/lodger-core/src/xml/mod.rs reads of a domain: its disks, its networks and its display.
use lodger.Prelude.Equality.{text_eq, text_beq, option_beq}
use lodger.Prelude.{
  Bool, ◌&&◌, ◌||◌, Option, none, some, List, [], ◌∷◌, ◌++◌, Result, ok, ◌>>=◌, is_some, any, text,
  unwrap_or, if◌then◌else◌,
}
use lodger.Validate.{Text}
use lodger.Xml.{
  Element, Nodes, end, element_node, text_node, other_node, XmlError, tag, children, attribute,
  get_child, and_then, parse,
}

pub data DiskSource : Type 0 where
  file : Text → DiskSource
  block : Text → DiskSource
  volume : (pool name : Text) → DiskSource

pub record Disk : Type 0 where
  pub target : Option Text
  pub source : DiskSource
  pub shared : Bool

-- `filter_map(XMLNode::as_element)`.
unfoldable pub elements : Nodes → List Element
elements end = []
elements (element_node e rest) = e ∷ elements rest
elements (text_node _ rest) = elements rest
elements (other_node rest) = elements rest

-- The child elements of the devices, none where there are no devices.
unfoldable pub devices_of : Element → List Element
devices_of domain = elim (get_child (text "devices") domain) [
  | none ↦ []
  | some devices ↦ elements (children devices)
]

abbrev pub is_disk : Element → Bool
is_disk e = text_beq (tag e) (text "disk")

-- The `match` on the type in `disk`.
unfoldable pub source_of : (kind : Text) → (source : Element) → Option DiskSource
source_of kind source =
    if text_beq kind (text "file")
    then and_then (attribute (text "file") source) (λ path. some (file path))
    else if text_beq kind (text "block")
    then and_then (attribute (text "dev") source) (λ path. some (block path))
    else if text_beq kind (text "volume")
    then and_then (attribute (text "pool") source)
        (λ pool. and_then (attribute (text "volume") source) (λ name. some (volume pool name)))
    else none

-- `disk`.
unfoldable pub disk : Element → Option Disk
disk e = and_then (get_child (text "source") e) (λ source.
    and_then (source_of (unwrap_or (text "file") (attribute (text "type") e)) source) (λ found.
      some (record {
        target = and_then (get_child (text "target") e) (attribute (text "dev"));
        source = found;
        shared =
            is_some (get_child (text "readonly") e) || is_some (get_child (text "shareable") e);
      })))

-- `attr(d, "device").is_none_or(|v| v == "disk")`.
abbrev pub is_data_device : Element → Bool
is_data_device e = text_beq (unwrap_or (text "disk") (attribute (text "device") e)) (text "disk")

unfoldable pub data_disks : List Element → List Disk
data_disks [] = []
data_disks (e ∷ rest) =
    let later = data_disks rest in
    if is_disk e && is_data_device e
    then (elim (disk e) [ none ↦ later | some d ↦ d ∷ later ])
    else later

unfoldable pub disk_sources : List Element → List DiskSource
disk_sources [] = []
disk_sources (e ∷ rest) =
    let later = disk_sources rest in
    if is_disk e then (elim (disk e) [ none ↦ later | some d ↦ d.source ∷ later ]) else later

-- The network of a NIC.
unfoldable pub network_of : Element → Option Text
network_of e =
    if text_beq (tag e) (text "interface")
      && option_beq (attribute (text "type") e) (some (text "network"))
    then and_then (get_child (text "source") e) (attribute (text "network"))
    else none

-- The loop of `domain_networks`, from the names found so far.
unfoldable pub networks_in : (names : List Text) → List Element → List Text
networks_in names [] = names
networks_in names (e ∷ rest) =
    networks_in
      (elim (network_of e) [
        | none ↦ names
        | some name ↦ if any (text_beq name) names then names else names ++ name ∷ []
      ])
      rest

abbrev pub is_vnc : Element → Bool
is_vnc e =
    text_beq (tag e) (text "graphics") && option_beq (attribute (text "type") e) (some (text "vnc"))

module _ (parse_element : Text → Result Text Element) where
  unfoldable pub domain_disks : Text → Result XmlError (List Disk)
  domain_disks xml = do
    domain ← parse parse_element xml (text "domain")
    ok (data_disks (devices_of domain))

  unfoldable pub domain_disk_sources : Text → Result XmlError (List DiskSource)
  domain_disk_sources xml = do
    domain ← parse parse_element xml (text "domain")
    ok (disk_sources (devices_of domain))

  unfoldable pub domain_networks : Text → Result XmlError (List Text)
  domain_networks xml = do
    domain ← parse parse_element xml (text "domain")
    ok (networks_in [] (devices_of domain))

  unfoldable pub domain_has_vnc : Text → Result XmlError Bool
  domain_has_vnc xml = do
    domain ← parse parse_element xml (text "domain")
    ok (any is_vnc (devices_of domain))
