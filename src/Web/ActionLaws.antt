-- ===== src/Web/ActionLaws.antt =====
-- What the handlers of crates/lodger/src/actions.rs ask for, do and write down.
use lodger.Db.{Text, Session}
use lodger.Host.{Io, Error}
use lodger.Map.{get}
use lodger.Net.{IpAddr}
use lodger.Power.{Power, force_off, parse, name}
use lodger.Prelude.Equality.{nat_eq, text_eq, text_beq, option_beq, option_beq_iff}
use lodger.Prelude.{
  ℕ, ◌<◌, ◌≡◌, refl, ap, ◌∙◌, ◌⊎◌, false, not, ◌&&◌, Option, none, some, Option-cases, List, Result,
  ok, err, arith, Bool-cases, Result-cases, inl, inr, text,
}
use lodger.Web.{HeaderMap, Response, Crates, Conditions, AppState, reply, error}
use lodger.Web.Actions.{
  Virt, lifecycle, DeleteRequest, body_or_default, target_vm, with_action, vm_entry, failure_code,
  failure, settle, is_force_off, done_answer, removal_answer, call_vm, run_action,
  delete_vm_handler,
}
use lodger.Web.Audit.{Entry, ok_entry, failed_entry, by_account, from_ip, log}
use lodger.Web.ClientIp.{client_ip}

module _ {H : Type 0} (lib : Crates) (c : Conditions) (peer : IpAddr) (headers : HeaderMap)
    (session : Session) (vms : List (ℕ × Text)) (connected : Option (Virt H)) where
  -- The row of the audit log tells how the call ended, and so does the answer.
  abbrev pub Tells : {A : Type 0} → Result Error A → Entry → Response → Type 0
  Tells {A} result entry answer =
      ((a : A) × (result ≡ ok a) × (entry.result ≡ text "ok") × (answer.status < 300))
      ⊎ ((e : Error) × (result ≡ err e)
          × (entry.result ≡ text "failed")
          × (entry.detail.reason ≡ some (failure_code e).0)
          × (answer.status ≡ (failure_code e).1))

  -- The call ran once, and one entry about it went to the log of the audit.
  pub record IsCalled {A : Type 0} (vm event action : Text) (call : Virt H → Io H Error A)
      (w : H × AppState) (result : (H × AppState) × Response) : Type 0 where
    pub virt : Virt H
    pub connection : connected ≡ some virt
    pub entry : Entry
    pub host : result.0.0 ≡ (call virt w.0).0
    pub logged : result.0.1 ≡ log lib c entry w.1
    pub about :
        (entry.event ≡ event)
        × (entry.account ≡ some session.username)
        × (entry.client_ip ≡ some (client_ip lib peer headers))
        × (entry.target_kind ≡ some (text "vm"))
        × (entry.target ≡ some vm)
        × (entry.detail.action ≡ some action)
    pub tells : Tells (call virt w.0).1 entry result.1

  -- Nothing was called or written, and the answer is the error of a request.
  abbrev pub IsDeclined : H × AppState → (H × AppState) × Response → Type 0
  IsDeclined w result =
      (result.0 ≡ w)
      × ((result.1.status ≡ 400)
          ⊎ ((result.1.status ≡ 404) ⊎ ((result.1.status ≡ 422) ⊎ (result.1.status ≡ 503))))

  failure-status :
      (row : Text → Entry) (e : Error) (s : AppState)
      → ((failure lib c row e s).0 ≡ log lib c (row (failure_code e).0) s)
        × ((failure lib c row e s).1.status ≡ (failure_code e).1)
  unfolding failure failure_code error reply
  failure-status row e s = (
    refl,
    elim (Bool-cases (text_beq (failure_code e).0 (text "no_such_vm"))) [
      | inl gone ↦ ground (arith, gone)
      | inr other ↦ ground (arith, other)
    ],
  )

  call_vm-IsCalled :
      {A : Type 0} (vm event action : Text) (call : Virt H → Io H Error A) (answer : A → Response)
      (w : H × AppState)
      → ((a : A) → (answer a).status < 300)
      → IsDeclined w
          (call_vm lib c peer headers session vms connected vm event action call answer w)
        ⊎ IsCalled vm event action call w
            (call_vm lib c peer headers session vms connected vm event action call answer w)
  unfolding call_vm error reply settle vm_entry with_action target_vm from_ip by_account ok_entry
      failed_entry
  call_vm-IsCalled vm event action call answer (h, s) good = elim (Option-cases connected) [
    | inl missing ↦ inl (ground (arith, missing), inr (inr (inr (ground (arith, missing)))))
    | inr (virt, there) ↦
        let by = vm_entry session.username (client_ip lib peer headers) vm action in
        elim (Result-cases (call virt h).1) [
          | inl (a, worked) ↦ inr (record {
            virt = virt;
            connection = there;
            entry = by (ok_entry event);
            host = ground (arith, there);
            logged = ground (arith, there, worked);
            about = (refl, refl, refl, refl, refl, refl);
            tells = inl (a, worked, refl, ground (arith, there, worked, good a));
          })
          | inr (e, broke) ↦
              let row : Text → Entry = λ reason. by (failed_entry event reason) in
              let (written, status) = failure-status row e s in
              inr (record {
                virt = virt;
                connection = there;
                entry = row (failure_code e).0;
                host = ground (arith, there);
                logged = ground (arith, there, broke, written);
                about = (refl, refl, refl, refl, refl, refl);
                tells = inr (e, broke, refl, refl, ground (arith, there, broke, status));
              })
        ]
  ]

  given_body :
      {A : Type 0} (default a : A) (body : Option (Result Text A))
      → (default ≡ a → ⊥)
      → body_or_default default body ≡ ok a
      → body ≡ some (ok a)
  unfolding body_or_default
  given_body default a body other h = elim (Option-cases body) [
    | inl empty ↦ absurd (other (ground (arith, empty, h)))
    | inr (parsed, sent) ↦ ground (arith, sent, h)
  ]

  -- A power action does nothing and is answered by the error of the request, or it is one call of
  -- libvirt on a VM of the inventory, for forcing off after the body repeated the VM's name, and one
  -- entry in the audit log that names the caller, the VM and the action and tells the result.
  pub run_action-IsCalled :
      (id : ℕ) (action : Text) (body : Option (Result Text (Option Text))) (w : H × AppState)
      → IsDeclined w (run_action lib c peer headers session vms connected id action body w)
        ⊎ ((p : Power) × (vm : Text) × (parse action ≡ some p)
            × (get id vms ≡ some vm)
            × (p ≡ force_off → body ≡ some (ok (some vm)))
            × IsCalled vm lifecycle
                (name p)
                (λ virt. virt.power_vm id p)
                w
                (run_action lib c peer headers session vms connected id action body w))
  unfolding run_action error reply
  run_action-IsCalled id action body w = elim (Option-cases (parse action)) [
    | inl unknown ↦ inl (ground (arith, unknown), inr (inl (ground (arith, unknown))))
    | inr (p, parsed) ↦ elim (Result-cases (body_or_default none body)) [
      | inr (m, bad) ↦ inl (ground (arith, parsed, bad), inl (ground (arith, parsed, bad)))
      | inl (confirm, read) ↦ elim (Option-cases (get id vms)) [
        | inl missing ↦ inl (
          ground (arith, parsed, read, missing),
          inr (inl (ground (arith, parsed, read, missing))),
        )
        | inr (vm, found) ↦
            elim (Bool-cases (is_force_off p && not (option_beq confirm (some vm)))) [
              | inl unsure ↦ inl (
                ground (arith, parsed, read, found, unsure),
                inr (inr (inl (ground (arith, parsed, read, found, unsure)))),
              )
              | inr sure ↦
                  let named : p ≡ force_off → body ≡ some (ok (some vm)) = λ off.
                    let same : confirm ≡ some vm =
                      (option_beq_iff confirm (some vm)).0 (ground (arith, sure, off)) in
                    given_body none (some vm) body (λ e. ground (arith, e)) (read ∙ ap ok same) in
                  elim (call_vm-IsCalled vm lifecycle (name p) (λ virt. virt.power_vm id p)
                    done_answer w (λ u. omega arith)) [
                      | inl (same, status) ↦
                          inl (rw (run_action, parsed, read, found, sure) (same, status))
                      | inr called ↦ inr (
                        p,
                        vm,
                        parsed,
                        found,
                        named,
                        rw (run_action, parsed, read, found, sure) called,
                      )
                    ]
            ]
      ]
    ]
  ]

  -- A deletion of a VM does nothing and is answered by the error of the request, or its body repeated
  -- the VM's name, and it is one call of libvirt with the choice of the body about the volumes, and one
  -- entry in the audit log that names the caller and the VM and tells the result.
  pub delete_vm-IsCalled :
      (id : ℕ) (body : Option (Result Text DeleteRequest)) (w : H × AppState)
      → IsDeclined w (delete_vm_handler lib c peer headers session vms connected id body w)
        ⊎ ((request : DeleteRequest) × (vm : Text) × (body ≡ some (ok request))
            × (get id vms ≡ some vm)
            × (request.confirm ≡ some vm)
            × IsCalled vm lifecycle
                (text "delete")
                (λ virt. virt.delete_vm id request.remove_volumes)
                w
                (delete_vm_handler lib c peer headers session vms connected id body w))
  unfolding delete_vm_handler error reply
  delete_vm-IsCalled id body w =
      let default : DeleteRequest = record { confirm = none; remove_volumes = false } in
      elim (Result-cases (body_or_default default body)) [
        | inr (m, bad) ↦ inl (ground (arith, bad), inl (ground (arith, bad)))
        | inl (request, read) ↦ elim (Option-cases (get id vms)) [
          | inl missing ↦
              inl (ground (arith, read, missing), inr (inl (ground (arith, read, missing))))
          | inr (vm, found) ↦ elim (Bool-cases (not (option_beq request.confirm (some vm)))) [
            | inl unsure ↦ inl (
              ground (arith, read, found, unsure),
              inr (inr (inl (ground (arith, read, found, unsure)))),
            )
            | inr sure ↦
                let same : request.confirm ≡ some vm =
                  (option_beq_iff request.confirm (some vm)).0 (ground (arith, sure)) in
                let sent =
                  given_body default request body
                    (λ e.
                      let confirm = ap (λ (r : DeleteRequest). r.confirm) e in
                      ground (arith, confirm, same))
                    read in
                elim (call_vm-IsCalled vm lifecycle (text "delete")
                  (λ virt. virt.delete_vm id request.remove_volumes) removal_answer w
                  (λ r. omega arith)) [
                    | inl (still, status) ↦
                        inl (rw (delete_vm_handler, read, found, sure) (still, status))
                    | inr called ↦ inr (
                      request,
                      vm,
                      sent,
                      found,
                      same,
                      rw (delete_vm_handler, read, found, sure) called,
                    )
                  ]
          ]
        ]
      ]
