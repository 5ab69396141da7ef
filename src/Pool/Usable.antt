-- ===== src/Pool/Usable.antt =====
-- Which pools `new_pool` of crates/lodger/src/pools.rs lets through.
use lodger.Pool.New.{
  dir, nfs, NewPool, pool_folder, new_dir, new_nfs, check_against, Kind, dir_kind, nfs_kind,
  CreatePool, nfs_folder, of_kind, read_pools, new_pool,
}
use lodger.Pool.NewLaws.{Clashes, check_against_iff}
use lodger.Prelude.Equality.{text_beq, text_beq_iff}
use lodger.Prelude.{
  ◌≡◌, ◌≢◌, ◌↔◌, ◌⊎◌, refl, sym, ap, subst, ◌∙◌, false, some, Option-cases, List, [], ◌∷◌, Result,
  ok, arith, Result-cases, Bool-cases, inl, inr, any, All,
}
use lodger.Validate.{Text, parse_name, parse_host}
use lodger.Validate.Names.{IsName, IsHost, parse_name_iff, parse_host_iff}
use lodger.Validate.Path.{parse_path}
use lodger.Validate.Path.Laws.{parse_path_iff}
use lodger.Xml.{Element}
use lodger.Pool.Folder.{IsPlain, IsFolder, pool_folder_iff}

-- The folder of the request, and for an NFS pool its server and its export.
abbrev pub IsPlaced : CreatePool → NewPool → Type 0
IsPlaced request pool =
    ((value : Text) × (request.kind ≡ dir_kind)
      × (pool.source ≡ dir)
      × (request.path ≡ some value)
      × IsFolder value pool.path)
    ⊎ ((host value export : Text) × (request.kind ≡ nfs_kind)
        × (pool.source ≡ nfs host export)
        × (request.host ≡ some host)
        × IsHost host
        × (request.export ≡ some value)
        × IsPlain value export
        × IsFolder (nfs_folder request) pool.path)

of_kind-IsPlaced :
    (name : Text) (request : CreatePool) (pool : NewPool)
    → of_kind name request ≡ ok pool
    → (pool.name ≡ name) × IsPlaced request pool
unfolding of_kind new_dir new_nfs
of_kind-IsPlaced name request pool h = placed request.kind refl
  where
    placed : (kind : Kind) → request.kind ≡ kind → (pool.name ≡ name) × IsPlaced request pool
    placed dir_kind asked = elim (Option-cases request.path) [
      | inl missing ↦ absurd (ground (arith, asked, missing, h))
      | inr (value, given) ↦ elim (Result-cases (pool_folder value)) [
        | inr (e, bad) ↦ absurd (ground (arith, asked, given, bad, h))
        | inl (path, read) ↦
            let made : record { name = name; path = path; source = dir } ≡ pool =
              ground (arith, asked, given, read, h) in
            subst (λ p. (p.name ≡ name) × IsPlaced request p) made
              (refl, inl (value, asked, refl, given, (pool_folder_iff value path).0 read))
      ]
    ]
    placed nfs_kind asked = elim (Option-cases request.host) [
      | inl missing ↦ absurd (ground (arith, asked, missing, h))
      | inr (host, given) ↦ elim (Option-cases request.export) [
        | inl missing ↦ absurd (ground (arith, asked, given, missing, h))
        | inr (value, source) ↦ elim (Result-cases (pool_folder (nfs_folder request))) [
          | inr (e, bad) ↦ absurd (ground (arith, asked, given, source, bad, h))
          | inl (path, read) ↦ elim (Result-cases (parse_host "NFS server" host)) [
            | inr (e, bad) ↦ absurd (ground (arith, asked, given, source, read, bad, h))
            | inl (server, hosted) ↦ elim (Result-cases (parse_path "NFS export" value)) [
              | inr (e, bad) ↦ absurd (ground (arith, asked, given, source, read, hosted, bad, h))
              | inl (export, exported) ↦
                  let (same, good) = (parse_host_iff "NFS server" host server).0 hosted in
                  let made : record { name = name; path = path; source = nfs server export }
                      ≡ pool =
                    ground (arith, asked, given, source, read, hosted, exported, h) in
                  subst (λ p. (p.name ≡ name) × IsPlaced request p) made
                    (
                      refl,
                      inr (
                        server,
                        value,
                        export,
                        asked,
                        refl,
                        given ∙ ap some (sym same),
                        subst IsHost (sym same) good,
                        source,
                        (parse_path_iff "NFS export" value export).0 exported,
                        (pool_folder_iff (nfs_folder request) path).0 read,
                      ),
                    )
            ]
          ]
        ]
      ]
    ]

IsPlaced-of_kind :
    (name : Text) (request : CreatePool) (pool : NewPool)
    → pool.name ≡ name
    → IsPlaced request pool
    → of_kind name request ≡ ok pool
unfolding of_kind new_dir new_nfs
IsPlaced-of_kind name request pool named (inl (value, asked, source, given, folder)) =
    let read = (pool_folder_iff value pool.path).1 folder in
    ground (arith, named, asked, source, given, read)
IsPlaced-of_kind name request pool named
      (inr (host, value, export, asked, source, given, good, exported, plain, folder)) =
    let read = (pool_folder_iff (nfs_folder request) pool.path).1 folder in
    let hosted = (parse_host_iff "NFS server" host host).1 (refl, good) in
    let path = (parse_path_iff "NFS export" value export).1 plain in
    ground (arith, named, asked, source, given, exported, read, hosted, path)

unused_lem :
    (name : Text) (existing : List (Text × Text))
    → (any (λ other. text_beq other.0 name) existing ≡ false)
      ↔ All (λ other. other.0 ≢ name) existing
unused_lem name [] = (λ h. tt, λ h. refl)
unused_lem name (other ∷ existing) =
    ground (arith, text_beq_iff other.0 name, unused_lem name existing)

-- What holds of a pool that may be created.
pub record IsUsable (parse_element : Text → Result Text Element) (request : CreatePool)
    (existing : List (Text × Text)) (pool : NewPool) : Type 0 where
  pub named : pool.name ≡ request.name
  pub name_form : IsName request.name
  pub unused : All (λ other. other.0 ≢ request.name) existing
  pub placed : IsPlaced request pool
  pub apart : All (λ other. ¬ Clashes pool other.1) (read_pools parse_element existing)

module _ (parse_element : Text → Result Text Element) (request : CreatePool)
    (existing : List (Text × Text)) (pool : NewPool) where
  new_pool_sound :
      new_pool parse_element request existing ≡ ok pool
      → IsUsable parse_element request existing pool
  unfolding new_pool
  new_pool_sound h = elim (Result-cases (parse_name "Pool name" request.name)) [
    | inr (e, bad) ↦ absurd (ground (arith, bad, h))
    | inl (name, read) ↦
        let (same, form) = (parse_name_iff "Pool name" request.name name).0 read in
        elim (Bool-cases (any (λ other. text_beq other.0 request.name) existing)) [
          | inl taken ↦ absurd (ground (arith, read, taken, h))
          | inr free ↦ elim (Result-cases (of_kind name request)) [
            | inr (e, bad) ↦ absurd (ground (arith, read, free, bad, h))
            | inl (made, built) ↦
                elim (Result-cases (check_against made (read_pools parse_element existing))) [
                  | inr (e, bad) ↦ absurd (ground (arith, read, free, built, bad, h))
                  | inl (u, checks) ↦
                      let result : made ≡ pool = ground (arith, read, free, built, checks, h) in
                      let (called, placed) = of_kind-IsPlaced name request made built in
                      subst (IsUsable parse_element request existing) result (record {
                        named = called ∙ same;
                        name_form = form;
                        unused = (unused_lem request.name existing).0 free;
                        placed = placed;
                        apart =
                            (check_against_iff made (read_pools parse_element existing)).0 checks;
                      })
                ]
          ]
        ]
  ]

  new_pool_complete :
      IsUsable parse_element request existing pool
      → new_pool parse_element request existing ≡ ok pool
  unfolding new_pool
  new_pool_complete usable =
      let name =
        (parse_name_iff "Pool name" request.name request.name).1 (refl, usable.name_form) in
      let free = (unused_lem request.name existing).1 usable.unused in
      let made = IsPlaced-of_kind request.name request pool usable.named usable.placed in
      let checks = (check_against_iff pool (read_pools parse_element existing)).1 usable.apart in
      ground (arith, name, free, made, checks)

  -- `new_pool` returns exactly the pool with the well-formed name of the request, which no existing
  -- pool has, of the kind asked for, on the plain form of its folder, or of Lodger's mount folder for
  -- an NFS pool without one, and of its export. The folder is outside the system's trees and folders,
  -- and no existing pool whose document is readable has this folder, or this export of this server.
  pub new_pool_iff :
      (new_pool parse_element request existing ≡ ok pool)
      ↔ IsUsable parse_element request existing pool
  new_pool_iff = (new_pool_sound, new_pool_complete)
