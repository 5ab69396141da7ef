-- ===== src/Network/WrittenLaws.antt =====
-- What the document of a new network says: the addresses that it hands out, and what its readers return.
use lodger.Network.Document.{
  NetworkXml, Documents, forward_mode, bridge_name, net_of, subnet_of, subnets_in, subnets,
}
use lodger.Network.New.{
  NetworkMode, nat, isolated, bridge, NewNetwork, CreateNetwork, subnet, new_network,
}
use lodger.Network.NewLaws.{IsPlaced, new_network-IsUsable}
use lodger.Network.Written.{IpRange, ip_range, ip_element, network_document}
use lodger.Prelude.{
  ℕ, ◌+◌, ◌%◌, ◌^◌, ◌≤◌, ◌<◌, ◌≡◌, refl, sym, ap, subst, ◌∙◌, none, some, List, [], ◌∷◌, ok, arith,
  text,
}
use lodger.Validate.{Text, Ipv4Net}
use lodger.Validate.Subnet.{Ipnet, IpnetLaws, parse_subnet, subnet_max_prefix}
use lodger.Validate.Subnet.Laws.{IsIn, parse_subnet_iff}
use lodger.Xml.{
  attribute, get_child, find_node, new_element, text_element, put_all, element_with, push_node,
  push,
}

-- What the standard library and `ipnet` document of the texts, and of the sizes of subnets.
pub record DocumentsLaws (ipnet : Ipnet) (d : Documents) : Type 0 where
  pub parse_addr-addr_text : (a : ℕ) → a < 2 ^ 32 → d.parse_addr (d.addr_text a) ≡ some a
  pub parse_u8-u8_text : (n : ℕ) → n < 256 → d.parse_u8 (d.u8_text n) ≡ some n
  pub new_net_eq : (a n : ℕ) → n ≤ 32 → d.new_net a n ≡ some (record { addr = a; prefix_len = n })
  pub trunc-same :
      (n : Ipv4Net) (a : ℕ)
      → IsIn ipnet n a
      → ipnet.trunc (record { addr = a; prefix_len = n.prefix_len }) ≡ ipnet.trunc n
  pub roomy :
      (n : Ipv4Net) → n.prefix_len ≤ subnet_max_prefix → ipnet.network n + 3 ≤ ipnet.broadcast n

-- The host addresses of a subnet are the gateway and the DHCP range, and no address is both.
pub record Covers (ipnet : Ipnet) (net : Ipv4Net) (range : IpRange) : Type 0 where
  pub gateway_first : ipnet.network net + 1 ≡ range.gateway
  pub range_next : range.gateway + 1 ≡ range.start
  pub some_left : range.start ≤ range.last
  pub last_host : range.last + 1 ≡ ipnet.broadcast net

module _ (ipnet : Ipnet) (d : Documents) (laws : DocumentsLaws ipnet d) where
  -- Given the laws of `ipnet`, in a subnet that `parse_subnet` accepts, whose addresses have 32 bits, no
  -- address of a new network wraps around: the gateway is the first host address, and the DHCP range
  -- is not empty and holds all others, up to the last before the broadcast address.
  pub parse_subnet-Covers :
      (value : Text) (net : Ipv4Net)
      → ipnet.broadcast net < 2 ^ 32
      → parse_subnet ipnet "Subnet" value ≡ ok net
      → Covers ipnet net (ip_range ipnet net)
  unfolding ip_range
  parse_subnet-Covers value net fits read =
      let (_, _, good) = (parse_subnet_iff ipnet "Subnet" value net).0 read in
      let room = laws.roomy net good.roomy in
      record {
        gateway_first = omega (arith, fits, room);
        range_next = omega (arith, fits, room);
        some_left = omega (arith, fits, room);
        last_host = omega (arith, fits, room);
      }

  module _ (ipnet_laws : IpnetLaws ipnet) where
    trunc-plain : (net : Ipv4Net) → net.addr ≡ ipnet.network net → ipnet.trunc net ≡ net
    trunc-plain net plain =
        let addr = ipnet_laws.addr-trunc net ∙ sym plain in
        let prefix_len = ipnet_laws.prefix_len-trunc net in
        λ i. record { addr = addr i; prefix_len = prefix_len i }

    subnet_of-ip_element :
        (net : Ipv4Net)
        → ipnet.broadcast net < 2 ^ 32
        → net.prefix_len ≤ subnet_max_prefix
        → net.addr ≡ ipnet.network net
        → subnet_of ipnet d (ip_element ipnet d net) ≡ some net
    unfolding subnet_of ip_element ip_range net_of attribute element_with put_all push push_node
        lodger.Map.get lodger.Map.insert
    subnet_of-ip_element net fits small plain =
        let room = laws.roomy net small in
        let gateway : ℕ = (ipnet.network net + 1) % 2 ^ 32 in
        let addr = laws.parse_addr-addr_text gateway (omega arith) in
        let prefix_len = laws.parse_u8-u8_text net.prefix_len (omega (arith, small)) in
        let made = laws.new_net_eq gateway net.prefix_len (omega (arith, small)) in
        let whole =
          laws.trunc-same net gateway (omega (arith, fits, room), omega (arith, fits, room)) in
        rw (addr, prefix_len, made) (ap some (whole ∙ trunc-plain net plain))

    -- What the readers return of a document.
    abbrev pub IsRead : NetworkMode → NetworkXml → Type 0
    IsRead (nat net) xml =
        (forward_mode xml ≡ some (text "nat"))
        × (bridge_name xml ≡ none)
        × (subnets ipnet d xml ≡ net ∷ [])
    IsRead (isolated net) xml =
        (forward_mode xml ≡ none) × (bridge_name xml ≡ none) × (subnets ipnet d xml ≡ net ∷ [])
    IsRead (bridge name) xml =
        (forward_mode xml ≡ some (text "bridge"))
        × (bridge_name xml ≡ some name)
        × (subnets ipnet d xml ≡ [])

    abbrev Sound : Ipv4Net → Type 0
    Sound net = (net.prefix_len ≤ subnet_max_prefix) × (net.addr ≡ ipnet.network net)

    document-IsRead :
        (name : Text) (mode : NetworkMode)
        → let network : NewNetwork = record { name = name; mode = mode } in
          ((net : Ipv4Net)
            → subnet network ≡ some net
            → (ipnet.broadcast net < 2 ^ 32)
              × (net.prefix_len ≤ subnet_max_prefix)
              × (net.addr ≡ ipnet.network net))
          → IsRead mode (network_document ipnet d network)
    unfolding network_document subnet forward_mode bridge_name subnets subnets_in get_child
        find_node push new_element push_node text_element element_with attribute lodger.Map.get
        put_all lodger.Map.insert ip_element
    document-IsRead name (nat net) sound =
        let (fits, small, plain) = sound net refl in
        (refl, refl, rw (subnet_of-ip_element net fits small plain) refl)
    document-IsRead name (isolated net) sound =
        let (fits, small, plain) = sound net refl in
        (refl, refl, rw (subnet_of-ip_element net fits small plain) refl)
    document-IsRead name (bridge other) sound = (refl, refl, refl)

    placed_subnet :
        (request : CreateNetwork) (host_bridges : List Text) (name : Text) (mode : NetworkMode)
        → IsPlaced ipnet d request host_bridges mode
        → (net : Ipv4Net) → subnet (record { name = name; mode = mode }) ≡ some net
        → (net.prefix_len ≤ subnet_max_prefix) × (net.addr ≡ ipnet.network net)
    unfolding subnet
    placed_subnet request host_bridges name (nat n) (asked, (value, given, read, good)) net has =
        let same : n ≡ net = ground (arith, has) in subst Sound same (good.roomy, good.no_host_bits)
    placed_subnet request host_bridges name (isolated n) (asked, (value, given, read, good)) net
          has =
        let same : n ≡ net = ground (arith, has) in subst Sound same (good.roomy, good.no_host_bits)
    placed_subnet request host_bridges name (bridge other) placed net has = ground (arith, has)

    -- Given the laws of `ipnet` and of the texts of numbers, the readers of a network's document return
    -- the mode, the bridge and the one subnet of a network that passed the checks before its creation,
    -- whose subnet, if it has one, is of addresses of 32 bits.
    pub network_document-IsRead :
        (request : CreateNetwork) (existing : List (Text × Text)) (host_bridges : List Text)
        (network : NewNetwork)
        → new_network ipnet d request existing host_bridges ≡ ok network
        → ((net : Ipv4Net) → subnet network ≡ some net → ipnet.broadcast net < 2 ^ 32)
        → IsRead network.mode (network_document ipnet d network)
    unfolding subnet
    network_document-IsRead request existing host_bridges network made fits =
        let usable =
          new_network-IsUsable ipnet d request host_bridges ipnet_laws existing network made in
        document-IsRead network.name network.mode (λ net has.
          let (small, plain) =
            placed_subnet request host_bridges network.name network.mode usable.placed net has in
          (fits net has, small, plain))
