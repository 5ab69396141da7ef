-- ===== src/Validate/Subnet.antt =====
-- The checks of subnets in crates/lodger-core/src/validate.rs. The crate `ipnet` is a parameter.
pub mod Laws
pub mod Tests
use Prim.Native.String.{String}
use lodger.Prelude.{
  ℕ, ◌≤◌, ◌≡◌, Bool, true, false, not, Option, none, some, List, [], ◌∷◌, Result, ok, err, ◌>>=◌,
  ◌>>◌, fail_if, ltb, ◌==◌, ◌↔◌, any, find, ◌&&◌, ◌||◌, leb,
}
use lodger.Prelude.Equality.{text_beq}
use lodger.Validate.{
  Text, Ipv4Net, InputError, subnet_syntax, subnet_host_bits, subnet_not_private, subnet_too_small,
  subnet_overlap, check_text,
}

-- What the checks use of `ipnet`. An address is a number.
pub record Ipnet : Type 0 where
  pub parse : Text → Option Ipv4Net
  pub to_string : Ipv4Net → Text
  pub network : Ipv4Net → ℕ
  pub broadcast : Ipv4Net → ℕ
  pub trunc : Ipv4Net → Ipv4Net
  pub contains_addr : Ipv4Net → ℕ → Bool
  pub contains_net : Ipv4Net → Ipv4Net → Bool

-- What `ipnet` documents of them.
pub record IpnetLaws (i : Ipnet) : Type 0 where
  pub parse-to_string : (n : Ipv4Net) → i.parse (i.to_string n) ≡ some n
  pub to_string_printable : (n : Ipv4Net) → any (λ c. c == 0) (i.to_string n) ≡ false
  pub contains_addr_eq :
      (n : Ipv4Net) (a : ℕ) → i.contains_addr n a ≡ (leb (i.network n) a && leb a (i.broadcast n))
  pub contains_net_eq :
      (n m : Ipv4Net)
      → i.contains_net n m
        ≡ (leb (i.network n) (i.network m) && leb (i.broadcast m) (i.broadcast n))
  pub network_le : (n : Ipv4Net) → i.network n ≤ i.broadcast n
  pub addr-trunc : (n : Ipv4Net) → (i.trunc n).addr ≡ i.network n
  pub prefix_len-trunc : (n : Ipv4Net) → (i.trunc n).prefix_len ≡ n.prefix_len
  pub network-trunc : (n : Ipv4Net) → i.network (i.trunc n) ≡ i.network n
  pub broadcast-trunc : (n : Ipv4Net) → i.broadcast (i.trunc n) ≡ i.broadcast n

-- RFC 1918: 10.0.0.0/8, 172.16.0.0/12 and 192.168.0.0/16.
abbrev pub private_ranges : List Ipv4Net
private_ranges =
    record { addr = 0x0a000000; prefix_len = 8 }
    ∷ record { addr = 0xac100000; prefix_len = 12 }
    ∷ record { addr = 0xc0a80000; prefix_len = 16 }
    ∷ []

abbrev pub subnet_max_prefix : ℕ
subnet_max_prefix = 30

module _ (ipnet : Ipnet) where
  unfoldable pub check_net : String → Text → Ipv4Net → Result InputError Ipv4Net
  check_net field value net = do
    fail_if (not (text_beq (ipnet.to_string net) value)) (subnet_syntax field)
    fail_if (not (any (λ range. ipnet.contains_net range net) private_ranges))
        (subnet_not_private field)
    fail_if (ltb subnet_max_prefix net.prefix_len) (subnet_too_small field subnet_max_prefix)
    fail_if (not (net.addr == ipnet.network net)) (subnet_host_bits field (ipnet.trunc net))
    ok net

  -- `parse_subnet`: `check_net` holds what follows the parser of `ipnet`.
  unfoldable pub parse_subnet : String → Text → Result InputError Ipv4Net
  unfolding check_text check_net
  parse_subnet field value = do
    check_text field value
    elim (ipnet.parse value) [
      | none ↦ err (subnet_syntax field)
      | some net ↦ check_net field value net
    ]

  -- The test of `check_no_overlap`.
  unfoldable pub overlaps : Ipv4Net → Text × Ipv4Net → Bool
  overlaps subnet (name, other) =
      ipnet.contains_addr subnet (ipnet.network other)
      || ipnet.contains_addr other (ipnet.network subnet)

  unfoldable pub check_no_overlap :
      String → Ipv4Net → List (Text × Ipv4Net) → Result InputError (Unit {0})
  unfolding overlaps
  check_no_overlap field subnet existing = elim (find (overlaps subnet) existing) [
    | none ↦ ok tt
    | some (name, other) ↦ err (subnet_overlap field name other)
  ]
