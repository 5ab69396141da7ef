-- ===== src/Web/ObjectLaws.antt =====
-- What the handlers of crates/lodger/src/pools.rs and networks.rs call, in which order, and write down.
use lodger.Db.{Text, Session}
use lodger.Host.{Io, Error}
use lodger.Map.{get}
use lodger.Net.{IpAddr}
use lodger.Prelude.Equality.{nat_eq, text_eq}
use lodger.Prelude.{
  ℕ, ◌≡◌, refl, ◌∙◌, ◌⊎◌, Bool, not, ◌&&◌, Option, none, some, Option-cases, List, [], ◌∷◌, Result,
  ok, err, arith, Bool-cases, Result-cases, inl, inr, if◌then◌else◌, is_some,
}
use lodger.Web.{HeaderMap, Response, Crates, Conditions, AppState, no_body, reply, error}
use lodger.Web.Actions.{autostart_action}
use lodger.Web.Audit.{Entry, ok_entry, failed_entry, log}
use lodger.Web.Objects.{
  Words, ObjectVirt, Change, set_action, object_failure_code, object_failure, audited, change_part,
  row_of, change_autostart, change_both, change_object,
}

module _ {H : Type 0} (lib : Crates) (c : Conditions) (words : Words) (peer : IpAddr)
    (headers : HeaderMap) (session : Session) (objects : List (ℕ × Text))
    (connected : Option (ObjectVirt H)) where
  -- A call of libvirt that a request plans, with the event and the action of its audit row.
  pub record Planned : Type 0 where
    pub event : Text
    pub action : Option Text
    pub call : Io H Error (Unit {0})

  -- What an entry of the log says of a planned call with this result.
  abbrev pub entry_of : Text → Planned → Result Error (Unit {0}) → Entry
  entry_of name p (ok u) =
      row_of lib c words peer headers session objects connected name
        (set_action p.action (ok_entry p.event))
  entry_of name p (err e) =
      row_of lib c words peer headers session objects connected name
        (set_action p.action (failed_entry p.event (object_failure_code words.missing_reason e).0))

  -- The plan in order, with one entry for each call, up to the first call that fails.
  abbrev pub perform : (name : Text) → List Planned → H × AppState → (H × AppState) × Response
  perform name [] w = (w, reply 204 no_body)
  perform name (p ∷ ps) (h, s) =
      let result = (p.call h).1 in
      let after : H × AppState = ((p.call h).0, log lib c (entry_of name p result) s) in
      let rest = perform name ps after in
      elim result [ ok u ↦ rest | err e ↦ (after, object_failure words e) ]

  change_part-perform :
      (name : Text) (p : Planned) (ps : List Planned)
      (next : H × AppState → (H × AppState) × Response) (w : H × AppState)
      → ((w' : H × AppState) → next w' ≡ perform name ps w')
      → change_part lib c words
          (row_of lib c words peer headers session objects connected name)
          p.event
          p.action
          p.call
          next
          w
        ≡ perform name (p ∷ ps) w
  unfolding change_part audited
  change_part-perform name p ps next (h, s) same = elim (Result-cases (p.call h).1) [
    | inl (u, worked) ↦
        let entry = entry_of name p (ok u) in
        ground (arith, worked, same ((p.call h).0, log lib c entry s))
    | inr (e, broke) ↦ ground (arith, broke)
  ]

  -- The calls that a change plans: the state first, then the autostart.
  abbrev pub plan_autostart : ObjectVirt H → ℕ → Option Bool → List Planned
  plan_autostart virt id none = []
  plan_autostart virt id (some on) =
      record {
        event = words.edited;
        action = some (autostart_action on);
        call = virt.set_autostart id on;
      }
      ∷ []

  abbrev pub plan_change : ObjectVirt H → ℕ → Option Bool → Option Bool → List Planned
  plan_change virt id none autostart = plan_autostart virt id autostart
  plan_change virt id (some active) autostart =
      record {
        event = if active then words.started else words.stopped;
        action = none;
        call = virt.set_active id active;
      }
      ∷ plan_autostart virt id autostart

  change_autostart-perform :
      (virt : ObjectVirt H) (id : ℕ) (name : Text) (autostart : Option Bool) (w : H × AppState)
      → change_autostart lib c words peer headers session objects connected virt id name autostart w
        ≡ perform name (plan_autostart virt id autostart) w
  unfolding change_autostart
  change_autostart-perform virt id name none w = refl
  change_autostart-perform virt id name (some on) w =
      change_part-perform name _ [] (λ w'. (w', reply 204 no_body)) w (λ w'. refl)

  change_both-perform :
      (virt : ObjectVirt H) (id : ℕ) (name : Text) (active autostart : Option Bool)
      (w : H × AppState)
      → change_both lib c words peer headers session objects connected virt id name
          (record { active = active; autostart = autostart })
          w
        ≡ perform name (plan_change virt id active autostart) w
  unfolding change_both
  change_both-perform virt id name none autostart w =
      change_autostart-perform virt id name autostart w
  change_both-perform virt id name (some active) autostart w =
      change_part-perform name _ (plan_autostart virt id autostart)
        (change_autostart lib c words peer headers session objects connected virt id name autostart)
        w (change_autostart-perform virt id name autostart)

  -- Nothing was called or written, and the answer is the error of a request.
  abbrev pub IsRejected : H × AppState → (H × AppState) × Response → Type 0
  IsRejected w result =
      (result.0 ≡ w)
      × ((result.1.status ≡ 400)
          ⊎ ((result.1.status ≡ 404) ⊎ ((result.1.status ≡ 422) ⊎ (result.1.status ≡ 503))))

  -- A change of a pool or a network does nothing and is answered by the error of the request, or it
  -- performs the plan of its body on the named object: the state first, then the autostart, each one
  -- call with one entry in the audit log that tells its result, and no call after one that failed.
  pub change_object-perform :
      (id : ℕ) (body : Result Text Change) (w : H × AppState)
      → IsRejected w (change_object lib c words peer headers session objects connected id body w)
        ⊎ ((virt : ObjectVirt H) × (name : Text) × (change : Change) × (body ≡ ok change)
            × (get id objects ≡ some name)
            × (connected ≡ some virt)
            × (change_object lib c words peer headers session objects connected id body w
                ≡ perform name (plan_change virt id change.active change.autostart) w))
  unfolding change_object error reply change_both
  change_object-perform id body w = elim (Result-cases body) [
    | inr (m, bad) ↦ inl (ground (arith, bad), inl (ground (arith, bad)))
    | inl (change, read) ↦
        elim (Bool-cases (not (is_some change.active) && not (is_some change.autostart))) [
          | inl idle ↦ inl (ground (arith, read, idle), inl (ground (arith, read, idle)))
          | inr busy ↦ elim (Option-cases (get id objects)) [
            | inl missing ↦ inl (
              ground (arith, read, busy, missing),
              inr (inl (ground (arith, read, busy, missing))),
            )
            | inr (name, found) ↦ elim (Option-cases connected) [
              | inl apart ↦ inl (
                ground (arith, read, busy, found, apart),
                inr (inr (inr (ground (arith, read, busy, found, apart)))),
              )
              | inr (virt, there) ↦
                  let both = change_both-perform virt id name change.active change.autostart w in
                  let run : change_object lib c words peer headers session objects connected id body
                        w
                      ≡ change_both lib c words peer headers session objects connected virt id name
                          change w =
                    ground (arith, read, busy, found, there) in
                  inr (virt, name, change, read, found, there, run ∙ both)
            ]
          ]
        ]
  ]
