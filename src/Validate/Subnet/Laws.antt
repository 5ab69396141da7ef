-- ===== src/Validate/Subnet/Laws.antt =====
-- What the checks of subnets in crates/lodger-core/src/validate.rs accept.
use Prim.Native.String.{String}
use lodger.Prelude.{
  ℕ, ◌≤◌, ◌≡◌, refl, sym, ◌∙◌, ◌↔◌, inl, inr, true, false, some, Option-cases, List, [], ◌∷◌, ok,
  err, arith, All, any, ◌==◌, subst,
}
use lodger.Prelude.Equality.{text_beq_iff}
use lodger.Validate.{Text, Ipv4Net, subnet_host_bits, check_text}
use lodger.Validate.Subnet.{
  Ipnet, IpnetLaws, private_ranges, subnet_max_prefix, check_net, parse_subnet, overlaps,
  check_no_overlap,
}

module _ (ipnet : Ipnet) where
  -- An address of a subnet.
  abbrev pub IsIn : Ipv4Net → ℕ → Type 0
  IsIn n a = (ipnet.network n ≤ a) × (a ≤ ipnet.broadcast n)

  abbrev pub Apart : Ipv4Net → Ipv4Net → Type 0
  Apart n m = (a : ℕ) → IsIn n a → ¬ IsIn m a

  -- What `parse_subnet` asks of a subnet and its text.
  pub record IsSubnet (value : Text) (net : Ipv4Net) : Type 0 where
    pub canonical : ipnet.to_string net ≡ value
    pub is_private : any (λ range. ipnet.contains_net range net) private_ranges ≡ true
    pub roomy : net.prefix_len ≤ subnet_max_prefix
    pub no_host_bits : net.addr ≡ ipnet.network net

  check_net_iff :
      (field : String) (value : Text) (net n : Ipv4Net)
      → (check_net ipnet field value net ≡ ok n) ↔ ((net ≡ n) × IsSubnet value net)
  unfolding check_net
  check_net_iff field value net n = (
    λ h. (
      ground (arith, text_beq_iff (ipnet.to_string net) value),
      record {
        canonical = ground (arith, text_beq_iff (ipnet.to_string net) value);
        is_private = ground arith;
        roomy = ground arith;
        no_host_bits = ground arith;
      },
    ),
    λ (e, w). ground (
      arith,
      e,
      w.canonical,
      w.is_private,
      w.roomy,
      w.no_host_bits,
      text_beq_iff (ipnet.to_string net) value,
    ),
  )

  -- `parse_subnet` accepts exactly the canonical texts, without NUL, of private subnets of at most 30
  -- bits and no host bits, and returns the subnet that `ipnet` reads.
  pub parse_subnet_iff :
      (field : String) (value : Text) (net : Ipv4Net)
      → (parse_subnet ipnet field value ≡ ok net)
        ↔ ((any (λ c. c == 0) value ≡ false) × (ipnet.parse value ≡ some net) × IsSubnet value net)
  unfolding parse_subnet check_text
  parse_subnet_iff field value net = elim (Option-cases (ipnet.parse value)) [
    | inl unread ↦ rw unread (ground arith)
    | inr (m, read) ↦ rw read (ground (arith, check_net_iff field value m net))
  ]

  module _ (laws : IpnetLaws ipnet) where
    overlaps-Apart :
        (n : Ipv4Net) (name : Text) (m : Ipv4Net) → (overlaps ipnet n (name, m) ≡ false) ↔ Apart n m
    unfolding overlaps
    overlaps-Apart n name m = (
      λ h a k l. ground (
        arith,
        k,
        l,
        laws.contains_addr_eq n (ipnet.network m),
        laws.contains_addr_eq m (ipnet.network n),
      ),
      λ apart.
          let there = apart (ipnet.network m) in
          let here = apart (ipnet.network n) in
          ground (
            arith,
            there,
            here,
            laws.network_le n,
            laws.network_le m,
            laws.contains_addr_eq n (ipnet.network m),
            laws.contains_addr_eq m (ipnet.network n),
          ),
    )

    -- Given the laws of `ipnet`, `check_no_overlap` accepts a subnet exactly if it has no address in
    -- common with any other.
    pub check_no_overlap_iff :
        (field : String) (subnet : Ipv4Net) (existing : List (Text × Ipv4Net))
        → (check_no_overlap ipnet field subnet existing ≡ ok tt)
          ↔ All (λ other. Apart subnet other.1) existing
    unfolding check_no_overlap
    check_no_overlap_iff field subnet [] = (λ h. tt, λ h. refl)
    check_no_overlap_iff field subnet ((name, other) ∷ existing) =
        ground (arith, overlaps-Apart subnet name other, check_no_overlap_iff field subnet existing)

    contains_net-trunc :
        (r n : Ipv4Net) → ipnet.contains_net r (ipnet.trunc n) ≡ ipnet.contains_net r n
    contains_net-trunc r n = rw (
      laws.contains_net_eq r (ipnet.trunc n),
      laws.contains_net_eq r n,
      laws.network-trunc n,
      laws.broadcast-trunc n,
    )

    any-trunc :
        (n : Ipv4Net) (ranges : List Ipv4Net)
        → any (λ range. ipnet.contains_net range (ipnet.trunc n)) ranges
          ≡ any (λ range. ipnet.contains_net range n) ranges
    any-trunc n [] = refl
    any-trunc n (r ∷ ranges) = rw (contains_net-trunc r n, any-trunc n ranges)

    trunc-IsSubnet :
        (n : Ipv4Net)
        → any (λ range. ipnet.contains_net range n) private_ranges ≡ true
        → n.prefix_len ≤ subnet_max_prefix
        → IsSubnet (ipnet.to_string (ipnet.trunc n)) (ipnet.trunc n)
    trunc-IsSubnet n is_private roomy = record {
      canonical = refl;
      is_private = any-trunc n private_ranges ∙ is_private;
      roomy = rw (laws.prefix_len-trunc n) roomy;
      no_host_bits = laws.addr-trunc n ∙ sym (laws.network-trunc n);
    }

    check_net_suggests :
        (field : String) (value : Text) (net m : Ipv4Net)
        → check_net ipnet field value net ≡ err (subnet_host_bits field m)
        → IsSubnet (ipnet.to_string m) m
    unfolding check_net
    check_net_suggests field value net m h =
        let (is_suggested, is_private, roomy) : (ipnet.trunc net ≡ m)
            × (any (λ range. ipnet.contains_net range net) private_ranges ≡ true)
            × (net.prefix_len ≤ subnet_max_prefix) =
          ground arith in
        subst (λ n. IsSubnet (ipnet.to_string n) n) is_suggested
          (trunc-IsSubnet net is_private roomy)

    -- Given the laws of `ipnet`, the subnet that `parse_subnet` suggests for one with host bits is
    -- accepted in its turn.
    pub parse_subnet-suggested :
        (field : String) (value : Text) (network : Ipv4Net)
        → parse_subnet ipnet field value ≡ err (subnet_host_bits field network)
        → parse_subnet ipnet field (ipnet.to_string network) ≡ ok network
    unfolding parse_subnet check_text
    parse_subnet-suggested field value network h = elim (Option-cases (ipnet.parse value)) [
      | inl unread ↦ absurd (ground (arith, unread))
      | inr (net, read) ↦
          let w : IsSubnet (ipnet.to_string network) network =
            check_net_suggests field value net network (ground (arith, read)) in
          (parse_subnet_iff field (ipnet.to_string network) network).1
            (laws.to_string_printable network, laws.parse-to_string network, w)
    ]
