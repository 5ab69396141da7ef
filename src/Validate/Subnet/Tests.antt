-- ===== src/Validate/Subnet/Tests.antt =====
-- Runs of the checks of subnets of crates/lodger-core/src/validate.rs, and instances of the theorems,
-- with an `ipnet` that writes each subnet as two characters.
use native.Mathlib.Nat.{mul-div_cancel}
use lodger.Prelude.{
  ℕ, suc, ◌+◌, ◌-◌, ◌*◌, ◌/◌, ◌^◌, ◌≡◌, refl, ap, Option, none, some, List, [], ◌∷◌, err, arith,
  leb, ◌&&◌,
}
use lodger.Validate.{Text, Ipv4Net, subnet_host_bits, check_text}
use lodger.Validate.Subnet.{Ipnet, IpnetLaws, check_net, parse_subnet, overlaps, check_no_overlap}

-- The addresses of a network less one, by its prefix length.
unfoldable pub span : ℕ → ℕ
span prefix_len = 2 ^ (32 - prefix_len) - 1

unfoldable pub read : Text → Option Ipv4Net
read (suc a ∷ suc p ∷ []) = some (record { addr = a; prefix_len = p })
read _ = none

unfoldable pub first : Ipv4Net → ℕ
first n = n.addr / suc (span n.prefix_len) * suc (span n.prefix_len)

unfoldable pub last : Ipv4Net → ℕ
unfolding first
last n = first n + span n.prefix_len

unfoldable pub truncated : Ipv4Net → Ipv4Net
unfolding first
truncated n = record { addr = first n; prefix_len = n.prefix_len }

abbrev pub two_characters : Ipnet
two_characters = record {
  parse = read;
  to_string = λ n. suc n.addr ∷ suc n.prefix_len ∷ [];
  network = first;
  broadcast = last;
  trunc = truncated;
  contains_addr = λ n a. leb (first n) a && leb a (last n);
  contains_net = λ n m. leb (first n) (first m) && leb (last m) (last n);
}

first-truncated : (n : Ipv4Net) → first (truncated n) ≡ first n
unfolding first truncated
first-truncated n =
    ap (λ q. q * suc (span n.prefix_len))
      (mul-div_cancel (n.addr / suc (span n.prefix_len)) (omega arith))

pub two_characters-IpnetLaws : IpnetLaws two_characters
unfolding read last truncated
two_characters-IpnetLaws = record {
  parse-to_string = λ n. refl;
  to_string_printable = λ n. ground arith;
  contains_addr_eq = λ n a. refl;
  contains_net_eq = λ n m. refl;
  network_le = λ n. omega arith;
  addr-trunc = λ n. refl;
  prefix_len-trunc = λ n. refl;
  network-trunc = first-truncated;
  broadcast-trunc = λ n. rw (first-truncated n) refl;
}

-- 192.168.1.7/24, whose network is 192.168.1.0/24.
abbrev with_host_bits : Text
with_host_bits = suc 0xc0a80107 ∷ 25 ∷ []

abbrev pub lan : Ipv4Net
lan = record { addr = 0xc0a80100; prefix_len = 24 }

subnets : Unit {0}
unfolding read first last truncated span check_net parse_subnet overlaps check_no_overlap check_text
subnets = tt

refused : parse_subnet two_characters "Subnet" with_host_bits ≡ err (subnet_host_bits "Subnet" lan)
unfolding subnets
refused = refl

abbrev existing : List (Text × Ipv4Net)
existing = (b'a' ∷ [], record { addr = 0xc0a80200; prefix_len = 24 }) ∷ []
