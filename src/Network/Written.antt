-- ===== src/Network/Written.antt =====
-- The document that `NewNetwork::to_xml` of crates/lodger-core/src/xml/network.rs writes.
use lodger.Network.Document.{NetworkXml, Documents}
use lodger.Network.New.{nat, isolated, bridge, NewNetwork}
use lodger.Prelude.{ℕ, ◌+◌, ◌-◌, ◌%◌, ◌^◌, [], ◌∷◌, text}
use lodger.Validate.{Ipv4Net}
use lodger.Validate.Subnet.{Ipnet}
use lodger.Xml.{Element, new_element, text_element, element_with, push}

-- The addresses of `ip`: the gateway, and the first and the last address of the DHCP range. They are
-- computed in `u32`.
pub record IpRange : Type 0 where
  pub gateway : ℕ
  pub start : ℕ
  pub last : ℕ

unfoldable pub ip_range : Ipnet → Ipv4Net → IpRange
ip_range ipnet subnet = record {
  gateway = (ipnet.network subnet + 1) % 2 ^ 32;
  start = (ipnet.network subnet + 2) % 2 ^ 32;
  last = (ipnet.broadcast subnet + (2 ^ 32 - 1)) % 2 ^ 32;
}

module _ (ipnet : Ipnet) (d : Documents) where
  -- `ip`.
  unfoldable pub ip_element : Ipv4Net → Element
  ip_element subnet =
      let range = ip_range ipnet subnet in
      push
        (element_with (text "ip") (
          (text "address", d.addr_text range.gateway)
          ∷ (text "prefix", d.u8_text subnet.prefix_len)
          ∷ []))
        (push (new_element (text "dhcp")) (
          element_with (text "range")
            ((text "start", d.addr_text range.start) ∷ (text "end", d.addr_text range.last) ∷ [])))

  -- `to_xml` before `write`.
  unfoldable pub network_document : NewNetwork → NetworkXml
  network_document network =
      let root = push (new_element (text "network")) (text_element (text "name") network.name) in
      elim (network.mode) [
        | nat subnet ↦
            push (push root (element_with (text "forward") ((text "mode", text "nat") ∷ [])))
              (ip_element subnet)
        | isolated subnet ↦ push root (ip_element subnet)
        | bridge name ↦
            push (push root (element_with (text "forward") ((text "mode", text "bridge") ∷ [])))
              (element_with (text "bridge") ((text "name", name) ∷ []))
      ]
