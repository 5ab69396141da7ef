-- ===== src/Network/Document.antt =====
-- `NetworkXml` of crates/lodger-core/src/xml/network.rs. The parser of `xmltree`, the texts of addresses and
-- numbers of the standard library, and `ipnet` are parameters. An address is a number.
use lodger.Prelude.Equality.{text_beq}
use lodger.Prelude.{
  ℕ, ◌/◌, ◌^◌, Option, none, some, List, [], ◌∷◌, Result, text, ltb, if◌then◌else◌,
}
use lodger.Validate.{Text, Ipv4Net}
use lodger.Validate.Subnet.{Ipnet}
use lodger.Xml.{
  Element, Nodes, end, element_node, text_node, other_node, tag, children, attribute, get_child,
  and_then, parse, readable,
}

abbrev pub NetworkXml : Type 0
NetworkXml = Element

pub record Documents : Type 0 where
  pub parse_element : Text → Result Text Element
  pub parse_addr : Text → Option ℕ
  pub parse_u8 : Text → Option ℕ
  pub addr_text : ℕ → Text
  pub u8_text : ℕ → Text
  pub new_net : (addr prefix_len : ℕ) → Option Ipv4Net
  pub with_netmask : (addr mask : ℕ) → Option Ipv4Net

-- `NetworkXml::parse(xml).ok()`.
abbrev pub parse_network : Documents → Text → Option NetworkXml
parse_network d xml = readable (parse d.parse_element xml (text "network"))

-- `forward_mode`.
unfoldable pub forward_mode : NetworkXml → Option Text
forward_mode xml = and_then (get_child (text "forward") xml) (λ forward.
    elim (attribute (text "mode") forward) [ none ↦ some (text "nat") | some mode ↦ some mode ])

-- `bridge`.
unfoldable pub bridge_name : NetworkXml → Option Text
bridge_name xml = and_then (get_child (text "bridge") xml) (attribute (text "name"))

-- `classful_prefix`.
unfoldable pub classful_prefix : ℕ → ℕ
classful_prefix address =
    let octet = address / 2 ^ 24 in if ltb octet 128 then 8 else if ltb octet 192 then 16 else 24

-- The `net` of one `<ip>` in `subnets`.
unfoldable pub net_of : Documents → (address : ℕ) → (prefix netmask : Option Text) → Option Ipv4Net
net_of d address (some prefix) _ = and_then (d.parse_u8 prefix) (d.new_net address)
net_of d address none (some mask) = and_then (d.parse_addr mask) (d.with_netmask address)
net_of d address none none = d.new_net address (classful_prefix address)

module _ (ipnet : Ipnet) (d : Documents) where
  -- The closure of `subnets` on one `<ip>`.
  unfoldable pub subnet_of : Element → Option Ipv4Net
  subnet_of e = and_then (and_then (attribute (text "address") e) d.parse_addr) (λ address.
      and_then (net_of d address (attribute (text "prefix") e) (attribute (text "netmask") e))
        (λ net. some (ipnet.trunc net)))

  -- The filters of `subnets`.
  unfoldable pub subnets_in : Nodes → List Ipv4Net
  subnets_in end = []
  subnets_in (text_node _ rest) = subnets_in rest
  subnets_in (other_node rest) = subnets_in rest
  subnets_in (element_node e rest) =
      let later = subnets_in rest in
      if text_beq (tag e) (text "ip")
      then (elim (subnet_of e) [ none ↦ later | some net ↦ net ∷ later ])
      else later

  -- `subnets`.
  unfoldable pub subnets : NetworkXml → List Ipv4Net
  subnets xml = subnets_in (children xml)
