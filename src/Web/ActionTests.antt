-- ===== src/Web/ActionTests.antt =====
-- Instances of the theorems about the handlers of crates/lodger/src/actions.rs, pools.rs and
-- networks.rs, on a host that counts the calls.
use lodger.Db.{Text}
use lodger.Host.{wrong_state}
use lodger.Map.{get}
use lodger.Prelude.Equality.{nat_eq, text_eq}
use lodger.Power.{Power, force_off, parse, name}
use lodger.Prelude.{ℕ, suc, ◌≡◌, ◌⊎◌, false, Option, some, List, [], ◌∷◌, Result, ok, err, text}
use lodger.Web.Actions.{Virt, lifecycle, DeleteRequest, run_action, delete_vm_handler}
use lodger.Web.ActionLaws.{IsCalled, IsDeclined, run_action-IsCalled, delete_vm-IsCalled}
use lodger.Network.NewTests.{documents, existing, request}
use lodger.Validate.Subnet.Tests.{two_characters, two_characters-IpnetLaws}
use lodger.Web.Creation.{CreateVirt, Creation, network_creation, pool_creation, create_object}
use lodger.Network.New.{NewNetwork, CreateNetwork}
use lodger.Network.NewLaws
use lodger.Pool.New.{NewPool, CreatePool}
use lodger.Pool.NewTests.{parse_nas, existing_pools, images}
use lodger.Pool.Usable
use lodger.Web.CreationLaws.{IsUndone, IsCreated, create_network-IsCreated, create_pool-IsCreated}
use lodger.Web.Objects.{ObjectVirt, Change, pool_words, change_object}
use lodger.Web.ObjectLaws.{IsRejected, perform, plan_change, change_object-perform}
use lodger.Web.Tests.{lib, fine, peer, page, owned}
use lodger.Web.SessionTests.{root_session}

abbrev counting : Virt ℕ
counting = record {
  power_vm = λ id action h. (suc h, ok tt);
  delete_vm = λ id remove_volumes h. (suc h, ok (record { removed = []; skipped = [] }));
  autostart_vm = λ id on h. (suc h, ok tt);
}

abbrev named : List (ℕ × Text)
named = (5, text "web") ∷ []

abbrev given_name : Option (Result Text (Option Text))
given_name = some (ok (some (text "web")))

run_action-IsCalled_example :
    IsDeclined lib fine peer page root_session named
      (some counting)
      (0, owned)
      (run_action lib fine peer page root_session named
        (some counting)
        5
        (text "force-off")
        given_name
        (0, owned))
    ⊎ ((p : Power) × (vm : Text) × (parse (text "force-off") ≡ some p)
        × (get 5 named ≡ some vm)
        × (p ≡ force_off → given_name ≡ some (ok (some vm)))
        × IsCalled lib fine peer page root_session named
            (some counting)
            vm
            lifecycle
            (name p)
            (λ virt. virt.power_vm 5 p)
            (0, owned)
            (run_action lib fine peer page root_session named
              (some counting)
              5
              (text "force-off")
              given_name
              (0, owned)))
run_action-IsCalled_example =
    run_action-IsCalled lib fine peer page root_session named (some counting) 5 (text "force-off")
      given_name (0, owned)

abbrev with_volumes : Option (Result Text DeleteRequest)
with_volumes = some (ok (record { confirm = some (text "web"); remove_volumes = false }))

delete_vm-IsCalled_example :
    IsDeclined lib fine peer page root_session named
      (some counting)
      (0, owned)
      (delete_vm_handler lib fine peer page root_session named
        (some counting)
        5
        with_volumes
        (0, owned))
    ⊎ ((request : DeleteRequest) × (vm : Text) × (with_volumes ≡ some (ok request))
        × (get 5 named ≡ some vm)
        × (request.confirm ≡ some vm)
        × IsCalled lib fine peer page root_session named
            (some counting)
            vm
            lifecycle
            (text "delete")
            (λ virt. virt.delete_vm 5 request.remove_volumes)
            (0, owned)
            (delete_vm_handler lib fine peer page root_session named
              (some counting)
              5
              with_volumes
              (0, owned)))
delete_vm-IsCalled_example =
    delete_vm-IsCalled lib fine peer page root_session named (some counting) 5 with_volumes
      (0, owned)

abbrev failing_start : ObjectVirt ℕ
failing_start = record {
  set_active = λ id active h. (suc h, err (wrong_state (text "it has no volumes")));
  set_autostart = λ id on h. (suc h, ok tt);
  remove_object = λ id name delete_files h. (suc h, ok tt);
}

abbrev both_settings : Result Text Change
both_settings = ok (record { active = some false; autostart = some false })

change_object-perform_example :
    IsRejected lib fine pool_words peer page root_session named
      (some failing_start)
      (0, owned)
      (change_object lib fine pool_words peer page root_session named
        (some failing_start)
        5
        both_settings
        (0, owned))
    ⊎ ((virt : ObjectVirt ℕ) × (name : Text) × (change : Change) × (both_settings ≡ ok change)
        × (get 5 named ≡ some name)
        × (some failing_start ≡ some virt)
        × (change_object lib fine pool_words peer page root_session named
              (some failing_start)
              5
              both_settings
              (0, owned)
            ≡ perform lib fine pool_words peer page root_session named
                (some failing_start)
                name
                (plan_change lib fine pool_words peer page root_session named
                  (some failing_start)
                  virt
                  5
                  change.active
                  change.autostart)
                (0, owned)))
change_object-perform_example =
    change_object-perform lib fine pool_words peer page root_session named (some failing_start) 5
      both_settings (0, owned)

abbrev counted_creation : {N : Type 0} → List (Text × Text) → CreateVirt ℕ N
counted_creation listed = record {
  xmls = λ h. (suc h, ok listed);
  create = λ object autostart h. (suc h, ok 9);
}

abbrev network_host : Option (CreateVirt ℕ NewNetwork)
network_host = some (counted_creation existing)

abbrev networks : Creation CreateNetwork NewNetwork
networks = network_creation two_characters documents []

create_network-IsCreated_example :
    IsUndone lib fine networks peer page root_session network_host
      (0, owned)
      (create_object lib fine networks peer page root_session network_host (ok request) (0, owned))
    ⊎ ((called : IsCreated lib fine networks peer page root_session network_host
          (ok request)
          (0, owned)
          (create_object lib fine networks peer page root_session network_host
            (ok request)
            (0, owned)))
        × NewLaws.IsUsable two_characters documents called.request [] called.existing called.object)
create_network-IsCreated_example =
    create_network-IsCreated lib fine peer page root_session two_characters documents
      two_characters-IpnetLaws [] network_host (ok request) (0, owned)

abbrev pool_host : Option (CreateVirt ℕ NewPool)
pool_host = some (counted_creation existing_pools)

abbrev pools : Creation CreatePool NewPool
pools = pool_creation parse_nas

create_pool-IsCreated_example :
    IsUndone lib fine pools peer page root_session pool_host
      (0, owned)
      (create_object lib fine pools peer page root_session pool_host (ok images) (0, owned))
    ⊎ ((called : IsCreated lib fine pools peer page root_session pool_host
          (ok images)
          (0, owned)
          (create_object lib fine pools peer page root_session pool_host (ok images) (0, owned)))
        × Usable.IsUsable parse_nas called.request called.existing called.object)
create_pool-IsCreated_example =
    create_pool-IsCreated lib fine peer page root_session parse_nas pool_host (ok images) (0, owned)
