-- ===== src/Network/Tests.antt =====
-- Runs of crates/lodger-virt/src/network.rs on a host that logs its calls, whose start fails: 1 is a
-- define, 3 the autostart, 4 a start, 5 a stop and 6 an undefine.
use lodger.Host.{VirtError, other_number, Io, ◌>>=◌}
use lodger.Prelude.{ℕ, true, false, List, [], ◌∷◌, ok, err, ◌≡◌, refl, text}
use lodger.Network.{
  NetworkApi, start_network, undo_network, finish_network, create_network_on, delete_network,
}

abbrev in_use : VirtError
in_use = record { code = other_number 38; message = text "the bridge is in use" }

abbrev log : ℕ → Io (List ℕ) VirtError (Unit {0})
log n s = (n ∷ s, ok tt)

abbrev host : NetworkApi (List ℕ) ℕ
host = record {
  lookup = λ id s. (s, ok id);
  define = λ xml s. (1 ∷ s, ok 7);
  uuid = λ n s. (s, ok n);
  create = λ n s. (4 ∷ s, err in_use);
  destroy = λ n. log 5;
  undefine = λ n. log 6;
  set_autostart = λ n on. log 3;
  is_active = λ n s. (s, ok false);
  is_persistent = λ n s. (s, ok true);
}

networks : Unit {0}
unfolding start_network undo_network finish_network create_network_on delete_network ◌>>=◌
networks = tt

rolled_back : create_network_on host [] true (λ n s. s) [] ≡ (6 ∷ 4 ∷ 3 ∷ 1 ∷ [], err in_use)
unfolding networks
rolled_back = refl

-- A network that does not run is undefined without a stop.
deleted : delete_network host 7 [] ≡ (6 ∷ [], ok tt)
unfolding networks
deleted = refl

failed : (create_network_on host [] true (λ n s. s) []).1 ≡ err in_use
unfolding networks
failed = refl
