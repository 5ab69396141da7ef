-- ===== src/Web/Creation.antt =====
-- `create` of crates/lodger/src/pools.rs and networks.rs. The two files differ in their words and in the
-- check of a request. The list of the host's bridges is a parameter, and the call gets what `to_xml`
-- writes as the checked object.
use lodger.Db.{Text, Session}
use lodger.Host.{Io, Error}
use lodger.Net.{IpAddr}
use lodger.Network.Document.{Documents}
use lodger.Network.New.{NewNetwork, CreateNetwork, new_network}
use lodger.Pool.New.{NewPool, CreatePool, new_pool}
use lodger.Prelude.{ℕ, Bool, Option, none, some, List, Result, ok, err, text}
use lodger.Validate.Rejection.{Rejection, exists_already, invalid}
use lodger.Validate.Subnet.{Ipnet}
use lodger.Web.{
  HeaderMap, Response, Crates, Conditions, AppState, invalid_input, explained, object_exists,
  object_created, reply,
}
use lodger.Web.Actions.{no_libvirt, bad_json}
use lodger.Web.Audit.{Entry, ok_entry, failed_entry, log}
use lodger.Web.ClientIp.{client_ip}
use lodger.Web.Objects.{Words, pool_words, network_words, object_entry}
use lodger.Xml.{Element}

-- The calls of crates/lodger-virt: the names and documents of the objects, and the creation.
pub record CreateVirt (H N : Type 0) : Type 0 where
  pub xmls : Io H Error (List (Text × Text))
  pub create : N → (autostart : Bool) → Io H Error ℕ

-- A request of one of the two files: its words, its check, and what is used of its result.
pub record Creation (R N : Type 0) : Type 0 where
  pub words : Words
  pub check : R → (existing : List (Text × Text)) → Result Rejection N
  pub object_name : N → Text
  pub autostart : R → Bool

abbrev pub pool_creation :
    (parse_element : Text → Result Text Element) → Creation CreatePool NewPool
pool_creation parse_element = record {
  words = pool_words;
  check = new_pool parse_element;
  object_name = λ pool. pool.name;
  autostart = λ request. request.autostart;
}

abbrev pub network_creation :
    Ipnet → Documents → (host_bridges : List Text) → Creation CreateNetwork NewNetwork
network_creation ipnet d host_bridges = record {
  words = network_words;
  check = λ request existing. new_network ipnet d request existing host_bridges;
  object_name = λ network. network.name;
  autostart = λ request. request.autostart;
}

-- The answers that a request is rejected with.
unfoldable pub rejection : (kind : Text) → Rejection → Response
rejection kind (exists_already name) = reply 409 (object_exists kind name)
rejection kind (invalid e) = reply 422 (invalid_input e)

-- `row`.
abbrev pub created_row :
    {R N : Type 0}
    → Crates
    → Creation R N
    → IpAddr
    → HeaderMap
    → Session
    → (name : Text) → Entry
    → Entry
created_row lib creation peer headers session =
    object_entry session.username (client_ip lib peer headers) creation.words.kind

module _ {H R N : Type 0} (lib : Crates) (c : Conditions) (creation : Creation R N) (peer : IpAddr)
    (headers : HeaderMap) (session : Session) where
  -- The call at the end of `create`.
  unfoldable pub create_checked :
      CreateVirt H N → N → (autostart : Bool) → H × AppState → (H × AppState) × Response
  create_checked virt object autostart (h, s) =
      let (h', result) = virt.create object autostart h in
      let name = creation.object_name object in
      elim result [
        | ok id ↦ (
          (
            h',
            log lib c
                (created_row lib creation peer headers session name
                  (ok_entry creation.words.created))
                s,
          ),
          reply 201 (object_created id),
        )
        | err e ↦
            let row =
              created_row lib creation peer headers session name
                (failed_entry creation.words.created (text "libvirt_error")) in
            ((h', log lib c row s), reply 502 (explained e))
      ]

  -- `create`.
  unfoldable pub create_object :
      (connected : Option (CreateVirt H N))
      → Result Text R
      → H × AppState
      → (H × AppState) × Response
  create_object connected body (h, s) = elim body [
    | err message ↦ ((h, s), bad_json message)
    | ok request ↦ elim connected [
      | none ↦ ((h, s), no_libvirt)
      | some virt ↦
          let (h', listed) = virt.xmls h in
          elim listed [
            | err e ↦ ((h', s), reply 502 (explained e))
            | ok existing ↦ elim (creation.check request existing) [
              | err why ↦ ((h', s), rejection creation.words.kind why)
              | ok object ↦ create_checked virt object (creation.autostart request) (h', s)
            ]
          ]
    ]
  ]

-- `create` of pools.rs.
abbrev pub create_pool :
    {H : Type 0}
    → Crates
    → Conditions
    → (parse_element : Text → Result Text Element) → IpAddr
    → HeaderMap
    → Session
    → Option (CreateVirt H NewPool)
    → Result Text CreatePool
    → H × AppState
    → (H × AppState) × Response
create_pool lib c parse_element = create_object lib c (pool_creation parse_element)

-- `create` of networks.rs.
abbrev pub create_network :
    {H : Type 0}
    → Crates
    → Conditions
    → Ipnet
    → Documents
    → (host_bridges : List Text) → IpAddr
    → HeaderMap
    → Session
    → Option (CreateVirt H NewNetwork)
    → Result Text CreateNetwork
    → H × AppState
    → (H × AppState) × Response
create_network lib c ipnet d host_bridges =
    create_object lib c (network_creation ipnet d host_bridges)
