-- ===== src/Network/NewLaws.antt =====
-- Which networks `new_network` of crates/lodger/src/networks.rs lets through.
use lodger.Network.Document.{NetworkXml, Documents}
use lodger.Network.New.{
  NetworkMode, nat, isolated, bridge, NewNetwork, Mode, nat_mode, isolated_mode, bridge_mode,
  CreateNetwork, subnet, new_bridge, new_nat, new_isolated, named_subnets, parsed, check_against,
  of_mode, new_network,
}
use lodger.Prelude.Equality.{text_beq, text_beq_iff}
use lodger.Prelude.{
  ◌≡◌, ◌≢◌, ◌↔◌, refl, sym, ap, subst, ◌∙◌, true, false, Option, some, Option-cases, List, [], ◌∷◌,
  ok, arith, Result-cases, Bool-cases, inl, inr, any, All,
}
use lodger.Validate.{Text, Ipv4Net, parse_name, parse_interface}
use lodger.Validate.Names.{IsName, IsInterface, parse_name_iff, parse_interface_iff}
use lodger.Validate.Subnet.{Ipnet, IpnetLaws, parse_subnet}
use lodger.Validate.Subnet.Laws.{Apart, IsSubnet, parse_subnet_iff, check_no_overlap_iff}

abbrev pub IsUnused : Text → List (Text × Text) → Type 0
IsUnused name existing = All (λ other. other.0 ≢ name) existing

IsUnused-iff :
    (name : Text) (existing : List (Text × Text))
    → (any (λ other. text_beq other.0 name) existing ≡ false) ↔ IsUnused name existing
IsUnused-iff name [] = (λ h. tt, λ h. refl)
IsUnused-iff name (other ∷ existing) =
    ground (arith, text_beq_iff other.0 name, IsUnused-iff name existing)

module _ (ipnet : Ipnet) (d : Documents) where
  -- The text is given, and is the canonical one of a private subnet.
  abbrev pub Reads : Option Text → Ipv4Net → Type 0
  Reads given net =
      (value : Text) × (given ≡ some value)
      × (ipnet.parse value ≡ some net)
      × IsSubnet ipnet value net

  module _ (request : CreateNetwork) (host_bridges : List Text) where
    -- The mode is the one asked for, on a subnet or a bridge that the request gives.
    abbrev pub IsPlaced : NetworkMode → Type 0
    IsPlaced (nat net) = (request.mode ≡ nat_mode) × Reads request.subnet net
    IsPlaced (isolated net) = (request.mode ≡ isolated_mode) × Reads request.subnet net
    IsPlaced (bridge name) =
        (request.mode ≡ bridge_mode)
        × (request.bridge ≡ some name)
        × IsInterface name
        × (any (text_beq name) host_bridges ≡ true)

    given_subnet :
        (value : Text) (net : Ipv4Net)
        → request.subnet ≡ some value
        → parse_subnet ipnet "Subnet" value ≡ ok net
        → Reads request.subnet net
    given_subnet value net given read =
        let (_, found, good) = (parse_subnet_iff ipnet "Subnet" value net).0 read in
        (value, given, found, good)

    of_mode-IsPlaced :
        (name : Text) (network : NewNetwork)
        → of_mode ipnet d name request host_bridges ≡ ok network
        → (network.name ≡ name) × IsPlaced network.mode
    unfolding of_mode new_nat new_isolated new_bridge
    of_mode-IsPlaced name network h = placed request.mode refl
      where
        placed : (mode : Mode) → request.mode ≡ mode → (network.name ≡ name) × IsPlaced network.mode
        placed nat_mode asked = elim (Option-cases request.subnet) [
          | inl missing ↦ absurd (ground (arith, asked, missing, h))
          | inr (value, given) ↦ elim (Result-cases (parse_subnet ipnet "Subnet" value)) [
            | inr (e, bad) ↦ absurd (ground (arith, asked, given, bad, h))
            | inl (net, read) ↦
                let made : record { name = name; mode = nat net } ≡ network =
                  ground (arith, asked, given, read, h) in
                subst (λ n. (n.name ≡ name) × IsPlaced n.mode) made
                  (refl, (asked, given_subnet value net given read))
          ]
        ]
        placed isolated_mode asked = elim (Option-cases request.subnet) [
          | inl missing ↦ absurd (ground (arith, asked, missing, h))
          | inr (value, given) ↦ elim (Result-cases (parse_subnet ipnet "Subnet" value)) [
            | inr (e, bad) ↦ absurd (ground (arith, asked, given, bad, h))
            | inl (net, read) ↦
                let made : record { name = name; mode = isolated net } ≡ network =
                  ground (arith, asked, given, read, h) in
                subst (λ n. (n.name ≡ name) × IsPlaced n.mode) made
                  (refl, (asked, given_subnet value net given read))
          ]
        ]
        placed bridge_mode asked = elim (Option-cases request.bridge) [
          | inl missing ↦ absurd (ground (arith, asked, missing, h))
          | inr (value, given) ↦ elim (Result-cases (parse_interface "Host bridge" value)) [
            | inr (e, bad) ↦ absurd (ground (arith, asked, given, bad, h))
            | inl (found, read) ↦
                let (same, good) = (parse_interface_iff "Host bridge" value found).0 read in
                elim (Bool-cases (any (text_beq found) host_bridges)) [
                  | inr strange ↦ absurd (ground (arith, asked, given, read, strange, h))
                  | inl there ↦
                      let made : record { name = name; mode = bridge found } ≡ network =
                        ground (arith, asked, given, read, there, h) in
                      subst (λ n. (n.name ≡ name) × IsPlaced n.mode) made
                        (
                          refl,
                          (
                            asked,
                            given ∙ ap some (sym same),
                            subst IsInterface (sym same) good,
                            there,
                          ),
                        )
                ]
          ]
        ]

    -- What holds of a network that may be created.
    pub record IsUsable (existing : List (Text × Text)) (network : NewNetwork) : Type 0 where
      pub named : network.name ≡ request.name
      pub name_form : IsName request.name
      pub unused : IsUnused request.name existing
      pub placed : IsPlaced network.mode
      pub apart :
          (net : Ipv4Net)
          → subnet network ≡ some net
          → All (λ other. Apart ipnet net other.1) (named_subnets ipnet d (parsed ipnet d existing))

    check_against-Apart :
        (laws : IpnetLaws ipnet) (network : NewNetwork) (others : List (Text × NetworkXml))
        (net : Ipv4Net)
        → check_against ipnet d network others ≡ ok tt
        → subnet network ≡ some net
        → All (λ other. Apart ipnet net other.1) (named_subnets ipnet d others)
    unfolding check_against
    check_against-Apart laws network others net checks has =
        (check_no_overlap_iff ipnet laws "Subnet" net (named_subnets ipnet d others)).0
          (ground (arith, checks, has))

    -- Given the laws of `ipnet`, a network that passes the checks before its creation has the name of
    -- the request, which is well formed and which no existing network has. It is of the mode asked for,
    -- on an interface that is a bridge of the host or on the private subnet of the request, and that
    -- subnet has no address in common with a subnet of an existing network whose document is readable.
    pub new_network-IsUsable :
        (laws : IpnetLaws ipnet) (existing : List (Text × Text)) (network : NewNetwork)
        → new_network ipnet d request existing host_bridges ≡ ok network
        → IsUsable existing network
    unfolding new_network
    new_network-IsUsable laws existing network h =
        elim (Result-cases (parse_name "Network name" request.name)) [
          | inr (e, bad) ↦ absurd (ground (arith, bad, h))
          | inl (name, read) ↦
              let (same, form) = (parse_name_iff "Network name" request.name name).0 read in
              elim (Bool-cases (any (λ other. text_beq other.0 request.name) existing)) [
                | inl taken ↦ absurd (ground (arith, read, taken, h))
                | inr free ↦ elim (Result-cases (of_mode ipnet d name request host_bridges)) [
                  | inr (e, bad) ↦ absurd (ground (arith, read, free, bad, h))
                  | inl (made, built) ↦
                      elim (Result-cases (check_against ipnet d made (parsed ipnet d existing))) [
                        | inr (e, bad) ↦ absurd (ground (arith, read, free, built, bad, h))
                        | inl (u, checks) ↦
                            let result : made ≡ network =
                              ground (arith, read, free, built, checks, h) in
                            let (called, placed) = of_mode-IsPlaced name made built in
                            subst (IsUsable existing) result (record {
                              named = called ∙ same;
                              name_form = form;
                              unused = (IsUnused-iff request.name existing).0 free;
                              placed = placed;
                              apart = λ net has.
                                  check_against-Apart laws made (parsed ipnet d existing) net checks
                                    has;
                            })
                      ]
                ]
              ]
        ]
