-- ===== src/Network/New.antt =====
-- `NewNetwork` of crates/lodger-core/src/xml/network.rs, and `new_network`, the checks before a creation
-- in crates/lodger/src/networks.rs.
use lodger.Network.Document.{NetworkXml, Documents, parse_network, subnets}
use lodger.Validate.Rejection.{Rejection, exists_already, invalid, checked, required}
use lodger.Prelude.Equality.{text_beq}
use lodger.Prelude.{
  Bool, not, Option, none, some, List, [], ◌∷◌, ◌++◌, map, Result, ok, ◌>>=◌, ◌>>◌, fail_if, any,
}
use lodger.Validate.{Text, Ipv4Net, InputError, empty, no_such_bridge, parse_name, parse_interface}
use lodger.Validate.Subnet.{Ipnet, parse_subnet, check_no_overlap}

pub data NetworkMode : Type 0 where
  nat : (subnet : Ipv4Net) → NetworkMode
  isolated : (subnet : Ipv4Net) → NetworkMode
  bridge : (bridge : Text) → NetworkMode

pub record NewNetwork : Type 0 where
  pub name : Text
  pub mode : NetworkMode

pub data Mode : Type 0 where
  nat_mode : Mode
  isolated_mode : Mode
  bridge_mode : Mode

pub record CreateNetwork : Type 0 where
  pub name : Text
  pub mode : Mode
  pub subnet : Option Text
  pub bridge : Option Text
  pub autostart : Bool

-- `NewNetwork::subnet`.
unfoldable pub subnet : NewNetwork → Option Ipv4Net
subnet network = elim (network.mode) [
  | nat net ↦ some net
  | isolated net ↦ some net
  | bridge name ↦ none
]

-- `NewNetwork::bridge`.
unfoldable pub new_bridge : Text → Text → List Text → Result InputError NewNetwork
new_bridge name value host_bridges = do
  found ← parse_interface "Host bridge" value
  fail_if (not (any (text_beq found) host_bridges)) (no_such_bridge found)
  ok (record { name = name; mode = bridge found })

module _ (ipnet : Ipnet) (d : Documents) where
  -- The subnets of the networks, each with the network's name.
  unfoldable pub named_subnets : List (Text × NetworkXml) → List (Text × Ipv4Net)
  named_subnets [] = []
  named_subnets ((name, xml) ∷ rest) =
      map (λ net. (name, net)) (subnets ipnet d xml) ++ named_subnets rest

  -- The networks whose document can be read.
  unfoldable pub parsed : List (Text × Text) → List (Text × NetworkXml)
  parsed [] = []
  parsed ((name, xml) ∷ rest) =
      let later = parsed rest in
      elim (parse_network d xml) [ none ↦ later | some document ↦ (name, document) ∷ later ]

  -- `NewNetwork::nat` and `NewNetwork::isolated`.
  unfoldable pub new_nat : Text → Text → Result InputError NewNetwork
  new_nat name value = do
    net ← parse_subnet ipnet "Subnet" value
    ok (record { name = name; mode = nat net })

  unfoldable pub new_isolated : Text → Text → Result InputError NewNetwork
  new_isolated name value = do
    net ← parse_subnet ipnet "Subnet" value
    ok (record { name = name; mode = isolated net })

  -- `NewNetwork::check_against`.
  unfoldable pub check_against :
      NewNetwork → List (Text × NetworkXml) → Result InputError (Unit {0})
  check_against network existing = elim (subnet network) [
    | none ↦ ok tt
    | some net ↦ check_no_overlap ipnet "Subnet" net (named_subnets existing)
  ]

  -- The `match` on the mode in `new_network`.
  unfoldable pub of_mode :
      (name : Text) → CreateNetwork → (host_bridges : List Text) → Result Rejection NewNetwork
  of_mode name request host_bridges = elim (request.mode) [
    | nat_mode ↦ do
      value ← required request.subnet (invalid (empty "Subnet"))
      checked (new_nat name value)
    | isolated_mode ↦ do
      value ← required request.subnet (invalid (empty "Subnet"))
      checked (new_isolated name value)
    | bridge_mode ↦ do
      value ← required request.bridge (invalid (empty "Host bridge"))
      checked (new_bridge name value host_bridges)
  ]

  -- `new_network`.
  unfoldable pub new_network :
      CreateNetwork
      → (existing : List (Text × Text)) → (host_bridges : List Text) → Result Rejection NewNetwork
  new_network request existing host_bridges = do
    name ← checked (parse_name "Network name" request.name)
    fail_if (any (λ other. text_beq other.0 request.name) existing) (exists_already request.name)
    network ← of_mode name request host_bridges
    checked (check_against network (parsed existing))
    ok network
