-- ===== src/Pool/Tests.antt =====
-- Runs of crates/lodger-virt/src/pool.rs on a host that logs its calls, whose start fails: 1 is a
-- define, 2 a build, 3 the autostart, 4 a start, 5 a stop, 6 an undefine and 9 a delete.
use lodger.Host.{VirtError, other_number, Io, ◌>>=◌}
use lodger.Prelude.{ℕ, true, false, List, [], ◌∷◌, Result, ok, err, ◌≡◌, refl, ◌⊎◌, any, ◌==◌, text}
use lodger.Pool.{PoolApi, start, roll_back, finish, create_pool_on, drop_pool, remove_pool_on}
use lodger.Pool.Laws.{KeepsFiles, create_pool_on-rollback}

abbrev no_mount : VirtError
no_mount = record { code = other_number 38; message = text "mount failed" }

abbrev log : ℕ → Io (List ℕ) VirtError (Unit {0})
log n s = (n ∷ s, ok tt)

abbrev host : PoolApi (List ℕ) ℕ ℕ
host = record {
  lookup = λ id s. (s, ok id);
  define = λ xml s. (1 ∷ s, ok 7);
  uuid = λ p s. (s, ok p);
  build = λ p. log 2;
  create = λ p s. (4 ∷ s, err no_mount);
  destroy = λ p. log 5;
  undefine = λ p. log 6;
  delete = λ p. log 9;
  refresh = λ p s. (s, ok tt);
  set_autostart = λ p on. log 3;
  is_active = λ p s. (s, ok true);
  is_persistent = λ p s. (s, ok true);
  list_all_volumes = λ p s. (s, ok (1 ∷ []));
}

pools : Unit {0}
unfolding start roll_back finish create_pool_on drop_pool remove_pool_on ◌>>=◌
pools = tt

-- A start that fails: the pool is stopped and undefined, and its folder stays.
rolled_back : create_pool_on host [] true (λ p s. s) [] ≡ (6 ∷ 5 ∷ 4 ∷ 3 ∷ 2 ∷ 1 ∷ [], err no_mount)
unfolding pools
rolled_back = refl

failed : (create_pool_on host [] true (λ p s. s) []).1 ≡ err no_mount
unfolding pools
failed = refl

abbrev NoDelete : List ℕ → Type 0
NoDelete calls = any (λ c. c == 9) calls ≡ false

host-KeepsFiles : KeepsFiles host NoDelete
host-KeepsFiles = record {
  lookup = λ id s p. p;
  define = λ xml s p. p;
  uuid = λ q s p. p;
  build = λ q s p. p;
  create = λ q s p. p;
  destroy = λ q s p. p;
  undefine = λ q s p. p;
  set_autostart = λ q on s p. p;
  is_active = λ q s p. p;
  is_persistent = λ q s p. p;
}

create_pool_on-rollback_example :
    (◌≡◌ {A = Result VirtError ℕ} (ok 7) (err no_mount))
    ⊎ ((p : ℕ) × (◌≡◌ {A = Result VirtError ℕ} (ok 7) (ok p))
        × (((start host true (λ p s. s) p (1 ∷ [])).1 ≡ err no_mount)
              × ((t : List ℕ) × ((create_pool_on host [] true (λ p s. s) []).0 ≡ 6 ∷ t))
            ⊎ (((start host true (λ p s. s) p (1 ∷ [])).1 ≡ ok tt)
                × (create_pool_on host [] true (λ p s. s) []
                    ≡ host.uuid p (start host true (λ p s. s) p (1 ∷ [])).0))))
create_pool_on-rollback_example = create_pool_on-rollback host [] true (λ p s. s) [] no_mount failed
