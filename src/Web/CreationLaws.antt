-- ===== src/Web/CreationLaws.antt =====
-- What `create` of crates/lodger/src/pools.rs and networks.rs lets libvirt create, and writes down.
use lodger.Db.{Text, Session}
use lodger.Host.{Error}
use lodger.Net.{IpAddr}
use lodger.Network.Document.{Documents}
use lodger.Network.New.{NewNetwork, CreateNetwork}
use lodger.Network.NewLaws.{IsUsable, new_network-IsUsable}
use lodger.Pool.New.{NewPool, CreatePool}
use lodger.Pool.Usable
use lodger.Prelude.{
  ℕ, ◌≤◌, ◌≡◌, refl, ◌⊎◌, Option, some, Option-cases, List, Result, ok, err, Result-cases, arith,
  inl, inr, text,
}
use lodger.Validate.Rejection.{Rejection, exists_already, invalid}
use lodger.Validate.Subnet.{Ipnet, IpnetLaws}
use lodger.Web.{
  HeaderMap, Response, Crates, Conditions, AppState, explained, object_created, reply, error,
}
use lodger.Web.Audit.{Entry, ok_entry, failed_entry, log}
use lodger.Web.Creation.{
  CreateVirt, Creation, pool_creation, network_creation, rejection, created_row, create_checked,
  create_object, create_pool, create_network,
}
use lodger.Xml.{Element}

rejection-status : (kind : Text) (why : Rejection) → 400 ≤ (rejection kind why).status
unfolding rejection reply
rejection-status kind (exists_already name) = omega arith
rejection-status kind (invalid e) = omega arith

module _ {H R N : Type 0} (lib : Crates) (c : Conditions) (creation : Creation R N) (peer : IpAddr)
    (headers : HeaderMap) (session : Session) (connected : Option (CreateVirt H N)) where
  abbrev pub row_of : N → Entry → Entry
  row_of object = created_row lib creation peer headers session (creation.object_name object)

  -- The answer and the entry of the log for the result of the call.
  abbrev pub Tells : N → Result Error ℕ → Entry → Response → Type 0
  Tells object result entry answer =
      ((id : ℕ) × (result ≡ ok id)
        × (answer ≡ reply 201 (object_created id))
        × (entry ≡ row_of object (ok_entry creation.words.created)))
      ⊎ ((e : Error) × (result ≡ err e)
          × (answer ≡ reply 502 (explained e))
          × (entry ≡ row_of object (failed_entry creation.words.created (text "libvirt_error"))))

  -- The one call that creates an object, after the objects were listed and the request was checked.
  pub record IsCreated (body : Result Text R) (w : H × AppState)
      (result : (H × AppState) × Response) : Type 0 where
    pub virt : CreateVirt H N
    pub request : R
    pub existing : List (Text × Text)
    pub object : N
    pub entry : Entry
    pub connection : connected ≡ some virt
    pub read : body ≡ ok request
    pub listed : (virt.xmls w.0).1 ≡ ok existing
    pub passed : creation.check request existing ≡ ok object
    pub host : result.0.0 ≡ (virt.create object (creation.autostart request) (virt.xmls w.0).0).0
    pub logged : result.0.1 ≡ log lib c entry w.1
    pub tells :
        Tells object
          (virt.create object (creation.autostart request) (virt.xmls w.0).0).1
          entry
          result.1

  -- Nothing was written, the host was at most asked for its objects, and the answer is an error.
  abbrev pub IsUndone : H × AppState → (H × AppState) × Response → Type 0
  IsUndone w result =
      (result.0.1 ≡ w.1)
      × ((result.0.0 ≡ w.0)
          ⊎ ((virt : CreateVirt H N) × (result.0.0 ≡ (virt.xmls w.0).0) × (connected ≡ some virt)))
      × (400 ≤ result.1.status)

  create_object-IsCreated :
      (body : Result Text R) (w : H × AppState)
      → IsUndone w (create_object lib c creation peer headers session connected body w)
        ⊎ IsCreated body w (create_object lib c creation peer headers session connected body w)
  unfolding create_object create_checked error reply
  create_object-IsCreated body (h, s) = elim (Result-cases body) [
    | inr (m, bad) ↦ inl (ground (arith, bad), inl (ground (arith, bad)), ground (arith, bad))
    | inl (request, read) ↦ elim (Option-cases connected) [
      | inl apart ↦ inl (
        ground (arith, read, apart),
        inl (ground (arith, read, apart)),
        ground (arith, read, apart),
      )
      | inr (virt, there) ↦ elim (Result-cases (virt.xmls h).1) [
        | inr (e, bad) ↦ inl (
          ground (arith, read, there, bad),
          inr (virt, ground (arith, read, there, bad), there),
          ground (arith, read, there, bad),
        )
        | inl (existing, listed) ↦ elim (Result-cases (creation.check request existing)) [
          | inr (why, bad) ↦
              let status = rejection-status creation.words.kind why in
              inl (
                ground (arith, read, there, listed, bad),
                inr (virt, ground (arith, read, there, listed, bad), there),
                ground (arith, read, there, listed, bad, status),
              )
          | inl (object, good) ↦
              let h' = (virt.xmls h).0 in
              let told : (entry : Entry) × (((create_object lib c creation peer headers session
                        connected body (h, s)).0.1
                      ≡ log lib c entry s)
                    × Tells object (virt.create object (creation.autostart request) h').1 entry
                        (create_object lib c creation peer headers session connected body
                          (h, s)).1) =
                elim (Result-cases (virt.create object (creation.autostart request) h').1) [
                  | inl (id, worked) ↦ (
                    row_of object (ok_entry creation.words.created),
                    (
                      ground (arith, read, there, listed, good, worked),
                      inl (id, worked, ground (arith, read, there, listed, good, worked), refl),
                    ),
                  )
                  | inr (e, broke) ↦ (
                    row_of object (failed_entry creation.words.created (text "libvirt_error")),
                    (
                      ground (arith, read, there, listed, good, broke),
                      inr (e, broke, ground (arith, read, there, listed, good, broke), refl),
                    ),
                  )
                ] in
              inr (record {
                virt = virt;
                request = request;
                existing = existing;
                object = object;
                entry = told.0;
                connection = there;
                read = read;
                listed = listed;
                passed = good;
                host = ground (arith, read, there, listed, good);
                logged = told.1.0;
                tells = told.1.1;
              })
        ]
      ]
    ]
  ]

module _ {H : Type 0} (lib : Crates) (c : Conditions) (peer : IpAddr) (headers : HeaderMap)
    (session : Session) where
  -- Given the laws of `ipnet`, a request to create a network is answered by an error with nothing
  -- written and the host at most asked for its networks; or it is one call that creates a network that
  -- is usable beside all networks that the host listed just before, and one entry of the audit log
  -- that names the caller and the network, with the result of the call as the answer.
  pub create_network-IsCreated :
      (ipnet : Ipnet) (d : Documents) (laws : IpnetLaws ipnet) (host_bridges : List Text)
      (connected : Option (CreateVirt H NewNetwork)) (body : Result Text CreateNetwork)
      (w : H × AppState)
      → let creation = network_creation ipnet d host_bridges in
        let result =
          create_network lib c ipnet d host_bridges peer headers session connected body w in
        IsUndone lib c creation peer headers session connected w result
        ⊎ ((called : IsCreated lib c creation peer headers session connected body w result)
            × IsUsable ipnet d called.request host_bridges called.existing called.object)
  create_network-IsCreated ipnet d laws host_bridges connected body w =
      let creation = network_creation ipnet d host_bridges in
      elim (create_object-IsCreated lib c creation peer headers session connected body w) [
        | inl undone ↦ inl undone
        | inr called ↦ inr (
          called,
          new_network-IsUsable ipnet d called.request host_bridges laws called.existing
              called.object called.passed,
        )
      ]

  -- A request to create a pool is answered by an error with nothing written and the host at most asked
  -- for its pools; or it is one call that creates a pool that is usable beside all pools that the host
  -- listed just before, and one entry of the audit log that names the caller and the pool, with the
  -- result of the call as the answer.
  pub create_pool-IsCreated :
      (parse_element : Text → Result Text Element) (connected : Option (CreateVirt H NewPool))
      (body : Result Text CreatePool) (w : H × AppState)
      → let creation = pool_creation parse_element in
        let result = create_pool lib c parse_element peer headers session connected body w in
        IsUndone lib c creation peer headers session connected w result
        ⊎ ((called : IsCreated lib c creation peer headers session connected body w result)
            × Usable.IsUsable parse_element called.request called.existing called.object)
  create_pool-IsCreated parse_element connected body w =
      let creation = pool_creation parse_element in
      elim (create_object-IsCreated lib c creation peer headers session connected body w) [
        | inl undone ↦ inl undone
        | inr called ↦ inr (
          called,
          (Usable.new_pool_iff parse_element called.request called.existing called.object).0
              called.passed,
        )
      ]
