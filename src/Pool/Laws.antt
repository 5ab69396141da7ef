-- ===== src/Pool/Laws.antt =====
-- What crates/lodger-virt/src/pool.rs leaves behind: a failed create, and a removal that keeps files.
use lodger.Host.{VirtError, Io, ◌>>=◌, Keeps}
use lodger.Host.Keeping.{bind-Keeps, when-Keeps}
use lodger.Prelude.{
  ℕ, Bool, true, false, List, Result, ok, err, ◌≡◌, refl, sym, ap, ◌∙◌, Result-cases, ◌⊎◌, inl, inr,
}
use lodger.Pool.{PoolApi, start, roll_back, finish, create_pool_on, drop_pool, remove_pool_on}

module _ {S Pool Volume : Type 0} (api : PoolApi S Pool Volume) where
  -- The calls, but for those that delete a folder or a volume.
  pub record KeepsFiles (P : S → Type 0) : Type 0 where
    pub lookup : (id : ℕ) → Keeps P (api.lookup id)
    pub define : (xml : List ℕ) → Keeps P (api.define xml)
    pub uuid : (p : Pool) → Keeps P (api.uuid p)
    pub build : (p : Pool) → Keeps P (api.build p)
    pub create : (p : Pool) → Keeps P (api.create p)
    pub destroy : (p : Pool) → Keeps P (api.destroy p)
    pub undefine : (p : Pool) → Keeps P (api.undefine p)
    pub set_autostart : (p : Pool) (on : Bool) → Keeps P (api.set_autostart p on)
    pub is_active : (p : Pool) → Keeps P (api.is_active p)
    pub is_persistent : (p : Pool) → Keeps P (api.is_persistent p)

  module _ (P : S → Type 0) (k : KeepsFiles P) where
    start-Keeps :
        (autostart : Bool) (hook : Pool → S → S) (p : Pool)
        → ((s : S) → P s → P (hook p s))
        → Keeps P (start api autostart hook p)
    unfolding start
    start-Keeps autostart hook p h =
        bind-Keeps P _ _ (k.build p)
          λ _. bind-Keeps P _ _ (k.set_autostart p autostart) λ _ s q. k.create p (hook p s) (h s q)

    roll_back-Keeps : (p : Pool) → Keeps P (roll_back api p)
    unfolding roll_back
    roll_back-Keeps p =
        bind-Keeps P _ _ (λ s q. k.is_active p s q)
          λ active.
            bind-Keeps P _ _ (when-Keeps P active _ λ s q. k.destroy p s q)
              λ _ s q. k.undefine p s q

    -- What all calls but the deletes of folders and volumes keep, such as the files of the host, is kept
    -- by `create_pool_on`, on every path, if its hook keeps it.
    pub create_pool_on-Keeps :
        (xml : List ℕ) (autostart : Bool) (hook : Pool → S → S)
        → ((p : Pool) (s : S) → P s → P (hook p s))
        → Keeps P (create_pool_on api xml autostart hook)
    unfolding create_pool_on finish
    create_pool_on-Keeps xml autostart hook h = bind-Keeps P _ _ (k.define xml) λ p s q.
        let started = start-Keeps autostart hook p (h p) s q in
        elim (Result-cases (start api autostart hook p s).1) [
          | inl (done, yes_) ↦ rw (finish, yes_) (k.uuid p _ started)
          | inr (e, failed) ↦ rw (finish, failed) (roll_back-Keeps p _ started)
        ]

    drop_pool-Keeps : (p : Pool) → Keeps P (drop_pool api false false p)
    unfolding drop_pool
    drop_pool-Keeps p = bind-Keeps P _ _ (k.is_persistent p) λ persistent.
        bind-Keeps P _ _ (k.is_active p) λ active.
          bind-Keeps P _ _ (when-Keeps P active _ (k.destroy p)) λ _.
            when-Keeps P persistent _
              (bind-Keeps P _ _ (bind-Keeps P _ _ (λ s q. q) λ _ s q. q) λ _. k.undefine p)

    -- Without `delete_files` and `remove_empty_folder`, `remove_pool_on` keeps what all calls but the
    -- deletes of folders and volumes keep, if its hook keeps it: it deletes no volume and no folder.
    pub remove_pool_on-Keeps :
        (id : ℕ) (delete_volume : Volume → Io S VirtError (Unit {0})) (hook : Pool → S → S)
        → ((p : Pool) (s : S) → P s → P (hook p s))
        → Keeps P (remove_pool_on api id false false delete_volume hook)
    unfolding remove_pool_on
    remove_pool_on-Keeps id delete_volume hook h =
        bind-Keeps P _ _ (k.lookup id)
          λ p. bind-Keeps P _ _ (λ s q. q) λ _ s q. drop_pool-Keeps p (hook p s) (h p s q)

  roll_back-undefine : (p : Pool) (s : S) → (t : S) × ((roll_back api p s).0 ≡ (api.undefine p t).0)
  unfolding roll_back ◌>>=◌
  roll_back-undefine p s = elim (Result-cases (api.is_active p s).1) [
    | inl (true, known) ↦ ((api.destroy p (api.is_active p s).0).0, rw (roll_back, known) refl)
    | inl (false, known) ↦ ((api.is_active p s).0, rw (roll_back, known) refl)
    | inr (e, failed) ↦ ((api.is_active p s).0, rw (roll_back, failed) refl)
  ]

  module _ (xml : List ℕ) (autostart : Bool) (hook : Pool → S → S) (s : S) where
    create-defined :
        (p : Pool)
        → (api.define xml s).1 ≡ ok p
        → create_pool_on api xml autostart hook s ≡ finish api autostart hook p (api.define xml s).0
    unfolding create_pool_on ◌>>=◌
    create-defined p defined = rw (create_pool_on, defined) refl

    create-undefined :
        (d : VirtError)
        → (api.define xml s).1 ≡ err d
        → create_pool_on api xml autostart hook s ≡ ((api.define xml s).0, err d)
    unfolding create_pool_on ◌>>=◌
    create-undefined d undefined = rw (create_pool_on, undefined) refl

  finish-unstarted :
      (autostart : Bool) (hook : Pool → S → S) (p : Pool) (s : S) (d : VirtError)
      → (start api autostart hook p s).1 ≡ err d
      → finish api autostart hook p s
        ≡ ((roll_back api p (start api autostart hook p s).0).0, err d)
  unfolding finish
  finish-unstarted autostart hook p s d unstarted = rw (finish, unstarted) refl

  finish-started :
      (autostart : Bool) (hook : Pool → S → S) (p : Pool) (s : S)
      → (start api autostart hook p s).1 ≡ ok tt
      → finish api autostart hook p s ≡ api.uuid p (start api autostart hook p s).0
  unfolding finish
  finish-started autostart hook p s started = rw (finish, started) refl

  err_injective : {d e : VirtError} → ◌≡◌ {A = Result VirtError ℕ} (err d) (err e) → d ≡ e
  err_injective h = cc

  -- A failed `create_pool_on` failed at the define, or defined a pool, failed to build or start it with
  -- the error that it returns, and ended with an undefine of it, or started a pool and ended with the
  -- call for its UUID, which failed: nothing is undone there.
  pub create_pool_on-rollback :
      (xml : List ℕ) (autostart : Bool) (hook : Pool → S → S) (s : S) (e : VirtError)
      → (create_pool_on api xml autostart hook s).1 ≡ err e
      → ((api.define xml s).1 ≡ err e)
        ⊎ ((p : Pool) × ((api.define xml s).1 ≡ ok p)
            × (((start api autostart hook p (api.define xml s).0).1 ≡ err e)
                  × ((t : S) × ((create_pool_on api xml autostart hook s).0 ≡ (api.undefine p t).0))
                ⊎ (((start api autostart hook p (api.define xml s).0).1 ≡ ok tt)
                    × (create_pool_on api xml autostart hook s
                        ≡ api.uuid p (start api autostart hook p (api.define xml s).0).0))))
  create_pool_on-rollback xml autostart hook s e failed = elim (Result-cases (api.define xml s).1) [
    | inr (d, undefined) ↦
        let same =
          err_injective
            (sym (ap (λ r. r.1) (create-undefined xml autostart hook s d undefined)) ∙ failed) in
        inl (undefined ∙ ap err same)
    | inl (p, defined) ↦
        let s' = (api.define xml s).0 in
        let finished = create-defined xml autostart hook s p defined in
        elim (Result-cases (start api autostart hook p s').1) [
          | inl (_, started) ↦
              inr (p, defined, inr (started, finished ∙ finish-started autostart hook p s' started))
          | inr (d, unstarted) ↦
              let undone = finished ∙ finish-unstarted autostart hook p s' d unstarted in
              let same = err_injective (sym (ap (λ r. r.1) undone) ∙ failed) in
              let (t, last) = roll_back-undefine p (start api autostart hook p s').0 in
              inr (p, defined, inl (unstarted ∙ ap err same, (t, ap (λ r. r.0) undone ∙ last)))
        ]
  ]
