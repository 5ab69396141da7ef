-- ===== src/Network/Laws.antt =====
-- What a failed create of crates/lodger-virt/src/network.rs leaves behind.
use lodger.Host.{VirtError, ◌>>=◌}
use lodger.Prelude.{
  ℕ, Bool, true, false, List, Result, ok, err, ◌≡◌, refl, sym, ap, ◌∙◌, Result-cases, ◌⊎◌, inl, inr,
}
use lodger.Network.{NetworkApi, start_network, undo_network, finish_network, create_network_on}

module _ {S Network : Type 0} (api : NetworkApi S Network) where
  undo_network-undefine :
      (p : Network) (s : S) → (t : S) × ((undo_network api p s).0 ≡ (api.undefine p t).0)
  unfolding undo_network ◌>>=◌
  undo_network-undefine p s = elim (Result-cases (api.is_active p s).1) [
    | inl (true, known) ↦ ((api.destroy p (api.is_active p s).0).0, rw (undo_network, known) refl)
    | inl (false, known) ↦ ((api.is_active p s).0, rw (undo_network, known) refl)
    | inr (e, failed) ↦ ((api.is_active p s).0, rw (undo_network, failed) refl)
  ]

  module _ (xml : List ℕ) (autostart : Bool) (hook : Network → S → S) (s : S) where
    create_network-defined :
        (p : Network)
        → (api.define xml s).1 ≡ ok p
        → create_network_on api xml autostart hook s
          ≡ finish_network api autostart hook p (api.define xml s).0
    unfolding create_network_on ◌>>=◌
    create_network-defined p defined = rw (create_network_on, defined) refl

    create_network-undefined :
        (d : VirtError)
        → (api.define xml s).1 ≡ err d
        → create_network_on api xml autostart hook s ≡ ((api.define xml s).0, err d)
    unfolding create_network_on ◌>>=◌
    create_network-undefined d undefined = rw (create_network_on, undefined) refl

  finish_network-unstarted :
      (autostart : Bool) (hook : Network → S → S) (p : Network) (s : S) (d : VirtError)
      → (start_network api autostart hook p s).1 ≡ err d
      → finish_network api autostart hook p s
        ≡ ((undo_network api p (start_network api autostart hook p s).0).0, err d)
  unfolding finish_network
  finish_network-unstarted autostart hook p s d unstarted = rw (finish_network, unstarted) refl

  err_eq : {d e : VirtError} → ◌≡◌ {A = Result VirtError ℕ} (err d) (err e) → d ≡ e
  err_eq h = cc

  -- A failed `create_network_on` failed at the define, or defined a network, failed to start it with
  -- the error that it returns, and ended with an undefine of it, or started a network whose UUID it could
  -- not read.
  pub create_network_on-rollback :
      (xml : List ℕ) (autostart : Bool) (hook : Network → S → S) (s : S) (e : VirtError)
      → (create_network_on api xml autostart hook s).1 ≡ err e
      → ((api.define xml s).1 ≡ err e)
        ⊎ ((p : Network) × ((api.define xml s).1 ≡ ok p)
            × (((start_network api autostart hook p (api.define xml s).0).1 ≡ err e)
                  × ((t : S) × ((create_network_on api xml autostart hook s).0
                        ≡ (api.undefine p t).0))
                ⊎ ((start_network api autostart hook p (api.define xml s).0).1 ≡ ok tt)))
  create_network_on-rollback xml autostart hook s e failed =
      elim (Result-cases (api.define xml s).1) [
        | inr (d, undefined) ↦
            let same = err_eq (
              sym (ap (λ r. r.1) (create_network-undefined xml autostart hook s d undefined))
              ∙ failed) in
            inl (undefined ∙ ap err same)
        | inl (p, defined) ↦
            let s' = (api.define xml s).0 in
            let finished = create_network-defined xml autostart hook s p defined in
            elim (Result-cases (start_network api autostart hook p s').1) [
              | inl (_, started) ↦ inr (p, defined, inr started)
              | inr (d, unstarted) ↦
                  let undone =
                    finished ∙ finish_network-unstarted autostart hook p s' d unstarted in
                  let same = err_eq (sym (ap (λ r. r.1) undone) ∙ failed) in
                  let (t, last) =
                    undo_network-undefine p (start_network api autostart hook p s').0 in
                  inr (p, defined, inl (unstarted ∙ ap err same, (t, ap (λ r. r.0) undone ∙ last)))
            ]
      ]
