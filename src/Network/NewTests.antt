-- ===== src/Network/NewTests.antt =====
-- Runs of the checks before the creation of a network in crates/lodger/src/networks.rs, and an instance
-- of the theorem, on a host with one network.
use lodger.Map.{get}
use lodger.Network.Document.{
  NetworkXml, Documents, forward_mode, bridge_name, classful_prefix, net_of, subnet_of, subnets_in,
  subnets,
}
use lodger.Network.New.{
  nat, NewNetwork, nat_mode, bridge_mode, CreateNetwork, subnet, new_bridge, new_nat, new_isolated,
  named_subnets, parsed, check_against, of_mode, new_network,
}
use native.Mathlib.Nat.{div-eq_of_lt-le, two-pow-succ}
use lodger.Validate.Rejection.{exists_already, invalid}
use lodger.Xml.{
  element, end, element_node, attribute, find_node, get_child, starts_with, contains, parse,
}
use lodger.Network.Written.{ip_range, network_document}
use lodger.Network.WrittenLaws.{
  DocumentsLaws, Covers, IsRead, parse_subnet-Covers, network_document-IsRead,
}
use lodger.Network.NewLaws.{IsUsable, new_network-IsUsable}
use lodger.Prelude.{
  ℕ, zero, suc, ◌+◌, ◌-◌, ◌*◌, ◌/◌, ◌^◌, ◌≤◌, ◌<◌, ◌≡◌, subst, arith, Option, refl, true, none,
  some, List, [], ◌∷◌, ok, err, text, leb, if◌then◌else◌,
}
use lodger.Prelude.Equality.{text_eq, text_beq}
use lodger.Validate.{
  Text, Ipv4Net, subnet_overlap, no_such_bridge, len_utf8, len, is_ascii_alphanumeric, is_name_char,
  check_text, parse_chars, parse_name, is_dots, parse_interface,
}
use lodger.Validate.Subnet.{check_net, parse_subnet, overlaps, check_no_overlap}
use lodger.Validate.Subnet.Tests.{
  two_characters, two_characters-IpnetLaws, lan, read, first, last, truncated, span,
}

creating : Unit {0}
unfolding get attribute find_node get_child starts_with contains parse subnets_in forward_mode
    bridge_name classful_prefix net_of subnet_of subnets subnet new_bridge new_nat new_isolated
    named_subnets parsed check_against of_mode new_network len_utf8 len is_ascii_alphanumeric
    is_name_char check_text parse_chars parse_name is_dots parse_interface check_net parse_subnet
    overlaps check_no_overlap read first last truncated span
creating = tt

-- A text of one character stands for a number.
abbrev pub read_one : Text → Option ℕ
read_one (a ∷ []) = some a
read_one _ = none

-- 192.168.2.1 with a prefix of 24, in a forwarded network on virbr0.
abbrev other_network : NetworkXml
other_network = element (text "network") [] (
    element_node (element (text "bridge") ((text "name", text "virbr0") ∷ []) end) (
      element_node (element (text "forward") [] end) (
        element_node
          (element (text "ip") ((text "address", 0xc0a80201 ∷ []) ∷ (text "prefix", 24 ∷ []) ∷ [])
            end)
          end)))

abbrev pub documents : Documents
documents = record {
  parse_element =
      λ xml. if text_beq xml (text "<network/>") then ok other_network else err (text "no element");
  parse_addr = read_one;
  parse_u8 = read_one;
  addr_text = λ a. a ∷ [];
  u8_text = λ n. n ∷ [];
  new_net = λ addr prefix_len.
      if leb prefix_len 32 then some (record { addr = addr; prefix_len = prefix_len }) else none;
  with_netmask = λ addr mask. none;
}

four_le_pow : (k : ℕ) → 4 ≤ 2 ^ suc (suc k)
four_le_pow zero = omega arith
four_le_pow (suc k) = omega (arith, four_le_pow k, two-pow-succ (suc (suc k)))

same_quotient :
    (a b k : ℕ) → b / suc k * suc k ≤ a → a ≤ b / suc k * suc k + k → a / suc k ≡ b / suc k
same_quotient a b k low high = div-eq_of_lt-le (suc k) low (omega (arith, high))

documents-DocumentsLaws : DocumentsLaws two_characters documents
unfolding first last truncated span
documents-DocumentsLaws = record {
  parse_addr-addr_text = λ a h. refl;
  parse_u8-u8_text = λ n h. refl;
  new_net_eq = λ a n h. ground (arith, h);
  trunc-same = λ n a (low, high).
      let k = 2 ^ (32 - n.prefix_len) - 1 in
      let same = same_quotient a n.addr k low high in
      λ i. record { addr = same i * suc k; prefix_len = n.prefix_len };
  roomy = λ n h.
      let even : 32 - n.prefix_len ≡ suc (suc (30 - n.prefix_len)) = omega (arith, h) in
      let four = four_le_pow (30 - n.prefix_len) in rw even (omega (arith, four));
}

abbrev pub existing : List (Text × Text)
existing = (text "default", text "<network/>") ∷ (text "odd", text "?") ∷ []

abbrev pub request : CreateNetwork
request = record {
  name = text "guests";
  mode = nat_mode;
  subnet = some (suc 0xc0a80100 ∷ 25 ∷ []);
  bridge = none;
  autostart = true;
}

forwards : forward_mode other_network ≡ some (text "nat")
unfolding creating
forwards = refl

on_bridge : bridge_name other_network ≡ some (text "virbr0")
unfolding creating
on_bridge = refl

no_twin :
    new_network two_characters documents (record request { name = text "odd" }) existing []
    ≡ err (exists_already (text "odd"))
unfolding creating
no_twin = refl

no_overlap :
    new_network two_characters documents
      (record request { subnet = some (suc 0xc0a80200 ∷ 25 ∷ []) })
      existing
      []
    ≡ err (
        invalid (
          subnet_overlap "Subnet" (text "default") (record { addr = 0xc0a80200; prefix_len = 24 })))
unfolding creating
no_overlap = refl

no_bridge :
    new_network two_characters documents
      (record request { mode = bridge_mode; bridge = some (text "br0") })
      existing
      (text "br1" ∷ [])
    ≡ err (invalid (no_such_bridge (text "br0")))
unfolding creating
no_bridge = refl

abbrev pub created : NewNetwork
created = record { name = text "guests"; mode = nat lan }

passes : new_network two_characters documents request existing [] ≡ ok created
unfolding creating
passes = refl

new_network-IsUsable_example : IsUsable two_characters documents request [] existing created
new_network-IsUsable_example =
    new_network-IsUsable two_characters documents request [] two_characters-IpnetLaws existing
      created passes

abbrev lan_text : Text
lan_text = suc 0xc0a80100 ∷ 25 ∷ []

reads_lan : parse_subnet two_characters "Subnet" lan_text ≡ ok lan
unfolding creating
reads_lan = refl

short_addresses : last lan < 2 ^ 32
unfolding creating
short_addresses = omega arith

parse_subnet-Covers_example : Covers two_characters lan (ip_range two_characters lan)
parse_subnet-Covers_example =
    parse_subnet-Covers two_characters documents documents-DocumentsLaws lan_text lan
      short_addresses reads_lan

one_subnet : (net : Ipv4Net) → subnet created ≡ some net → last net < 2 ^ 32
unfolding subnet
one_subnet net has =
    let same : lan ≡ net = ground (arith, has) in subst (λ n. last n < 2 ^ 32) same short_addresses

network_document-IsRead_example :
    IsRead two_characters documents documents-DocumentsLaws two_characters-IpnetLaws
      (nat lan)
      (network_document two_characters documents created)
network_document-IsRead_example =
    network_document-IsRead two_characters documents documents-DocumentsLaws
      two_characters-IpnetLaws request existing [] created passes one_subnet
