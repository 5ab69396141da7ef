-- ===== src/Delete/Keeping.antt =====
-- A delete without `remove_volumes` in crates/lodger-virt/src/delete.rs.
use lodger.Host.{VirtError, Io, Error, wrong_state, lift, ◌>>=◌, ◌>>◌, pure, fail, Keeps}
use lodger.Host.Keeping.{bind-Keeps}
use lodger.Prelude.{
  ℕ, Bool, true, false, [], Result, ok, err, if◌then◌else◌, ◌≡◌, refl, sym, subst, text, arith,
}
use lodger.Delete.{
  VmApi, undefine, undefine_again, is_gone, check_gone, delete_stopped, targets_of, users_for,
  delete_targets, delete_on, Removal,
}

module _ {S Domain Pool Volume : Type 0} (api : VmApi S Domain Pool Volume) where
  -- The calls that find, read and undefine a domain.
  pub record KeepsDisks (P : S → Type 0) : Type 0 where
    pub lookup_domain : (id : ℕ) → Keeps P (api.lookup_domain id)
    pub is_active : (d : Domain) → Keeps P (api.is_active d)
    pub undefine_all : (d : Domain) → Keeps P (api.undefine_all d)
    pub undefine_some : (d : Domain) → Keeps P (api.undefine_some d)

  module _ (P : S → Type 0) (k : KeepsDisks P) where
    undefine_again-Keeps :
        (d : Domain) (r : Result VirtError (Unit {0})) → Keeps P (undefine_again api d r)
    unfolding undefine_again
    undefine_again-Keeps d (ok _) s p = p
    undefine_again-Keeps d (err e) s p = ground (arith, p, k.undefine_some d s p)

    undefine-Keeps : (d : Domain) → Keeps P (undefine api d)
    unfolding undefine
    undefine-Keeps d = bind-Keeps P _ _ (λ s p. k.undefine_all d s p) (undefine_again-Keeps d)

    is_gone-Keeps : (r : Result VirtError Domain) → Keeps P (is_gone api r)
    unfolding is_gone
    is_gone-Keeps (ok d) s p = p
    is_gone-Keeps (err e) s p = ground (arith, p)

    check_gone-Keeps : (id : ℕ) → Keeps P (check_gone api id)
    unfolding check_gone
    check_gone-Keeps id = bind-Keeps P _ _ (λ s p. k.lookup_domain id s p) is_gone-Keeps

    undefine_only : (id : ℕ) (hook : S → S) → Domain → Io S Error Removal
    undefine_only id hook d = do
      λ s. lift (undefine api d) (hook s)
      check_gone api id
      pure (record { removed = []; skipped = [] })

    delete_stopped-undefine_only :
        (id : ℕ) (hook : S → S) (d : Domain)
        → delete_stopped api id false hook d ≡ undefine_only id hook d
    unfolding delete_stopped undefine_only targets_of users_for delete_targets ◌>>=◌
    delete_stopped-undefine_only id hook d = refl

    delete_stopped-Keeps :
        (id : ℕ) (hook : S → S) (d : Domain)
        → ((s : S) → P s → P (hook s))
        → Keeps P (delete_stopped api id false hook d)
    unfolding undefine_only
    delete_stopped-Keeps id hook d h =
        subst (λ m. Keeps P m) (sym (delete_stopped-undefine_only id hook d))
          (bind-Keeps P _ _ (λ s p. undefine-Keeps d (hook s) (h s p))
            λ _. bind-Keeps P _ _ (check_gone-Keeps id) λ _ s p. p)

    if_stopped-Keeps :
        (id : ℕ) (hook : S → S) (d : Domain) (active : Bool)
        → ((s : S) → P s → P (hook s))
        → Keeps P (
            if active
            then fail (wrong_state (text "shut the VM down first"))
            else delete_stopped api id false hook d)
    if_stopped-Keeps id hook d true h = λ s p. p
    if_stopped-Keeps id hook d false h = delete_stopped-Keeps id hook d h

    -- Without `remove_volumes`, `delete_on` keeps what finding and undefining a domain keep, such as the
    -- files of every disk, if its hook keeps it.
    pub delete_on-Keeps :
        (id : ℕ) (hook : S → S)
        → ((s : S) → P s → P (hook s))
        → Keeps P (delete_on api id false hook)
    unfolding delete_on
    delete_on-Keeps id hook h =
        bind-Keeps P _ _ (λ s p. k.lookup_domain id s p)
          λ d.
            bind-Keeps P _ _ (λ s p. k.is_active d s p)
              λ active. if_stopped-Keeps id hook d active h
