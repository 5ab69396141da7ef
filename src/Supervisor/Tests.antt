-- ===== src/Supervisor/Tests.antt =====
-- A run of the supervisor of crates/lodger-virt/src/supervisor.rs whose first attempt fails, and
-- instances of the theorems.
use lodger.Host.{VirtError, ◌>>=◌}
use lodger.Inventory.{InventoryApi, Shared, load, load_each, reload}
use lodger.Prelude.{ℕ, zero, suc, ◌≤◌, ◌<◌, ◌≡◌, ◌≢◌, refl, true, false, List, [], ok, arith, text}
use lodger.Supervisor.{
  connected, disconnected, loading, installing, reporting, following, disconnecting, waiting,
  opening, connecting, clearing, Supervisor, start_with, Step, opens, opens_badly, loads, installs,
  reports, clears, disconnects, wakes, Reachable, starts, then,
}
use lodger.Supervisor.Laws.{IsFit, Answers, Reachable-IsFit, reconnects}

-- A host without objects.
abbrev host : InventoryApi (Unit {0}) ℕ ℕ ℕ
host = record {
  list_all_domains = λ s. (s, ok []);
  list_all_storage_pools = λ s. (s, ok []);
  list_all_networks = λ s. (s, ok []);
  read_vm = λ id s. (s, ok id);
  read_pool = λ id s. (s, ok id);
  read_network = λ id s. (s, ok id);
}

abbrev message : VirtError → List ℕ
message e = e.message

abbrev started : Supervisor ℕ ℕ ℕ
started = start_with

abbrev refused : List ℕ
refused = text "refused"

abbrev loaded : Shared ℕ ℕ ℕ
loaded = record started.shared { reloads = 1 }

-- After the first attempt failed, the run of a second one that works.
abbrev failed : Supervisor ℕ ℕ ℕ
failed = record started { point = clearing refused }

abbrev cleared : Supervisor ℕ ℕ ℕ
cleared = record failed { virt = false; point = disconnecting refused }

abbrev told : Supervisor ℕ ℕ ℕ
told = record cleared { state = disconnected refused; point = waiting }

abbrev retrying : Supervisor ℕ ℕ ℕ
retrying = record told { state = connecting; point = opening }

abbrev opened : Supervisor ℕ ℕ ℕ
opened = record retrying { point = loading }

abbrev filled : Supervisor ℕ ℕ ℕ
filled = record opened { shared = loaded; point = installing }

abbrev held : Supervisor ℕ ℕ ℕ
held = record filled { virt = true; point = reporting }

abbrev followed : Supervisor ℕ ℕ ℕ
followed = record held { state = connected; point = following }

abbrev second_run : ℕ → Supervisor ℕ ℕ ℕ
second_run zero = failed
second_run (suc zero) = cleared
second_run (suc (suc zero)) = told
second_run (suc (suc (suc zero))) = retrying
second_run (suc (suc (suc (suc zero)))) = opened
second_run (suc (suc (suc (suc (suc zero))))) = filled
second_run (suc (suc (suc (suc (suc (suc zero)))))) = held
second_run _ = followed

failed-Reachable : Reachable host message failed
unfolding start_with
failed-Reachable = then started failed starts (opens_badly started refused refl)

second_steps : (n : ℕ) → n < 7 → Step host message (second_run n) (second_run (suc n))
unfolding start_with reload load load_each ◌>>=◌
second_steps zero le = clears failed refused refl
second_steps (suc zero) le = disconnects cleared refused refl
second_steps (suc (suc zero)) le = wakes told refl
second_steps (suc (suc (suc zero))) le = opens retrying refl
second_steps (suc (suc (suc (suc zero)))) le = loads opened tt loaded refl refl
second_steps (suc (suc (suc (suc (suc zero))))) le = installs filled refl
second_steps (suc (suc (suc (suc (suc (suc zero)))))) le = reports held refl
second_steps (suc (suc (suc (suc (suc (suc (suc n))))))) le = absurd (omega (arith, le))

second-Answers : (n : ℕ) → n < 7 → Answers host message (second_run n) (second_run (suc n))
second-Answers zero le = (λ e. ground (arith, e), λ e. ground (arith, e))
second-Answers (suc zero) le = (λ e. ground (arith, e), λ e. ground (arith, e))
second-Answers (suc (suc zero)) le = (λ e. ground (arith, e), λ e. ground (arith, e))
second-Answers (suc (suc (suc zero))) le = (λ e. refl, λ e. ground (arith, e))
second-Answers (suc (suc (suc (suc zero)))) le = (λ e. ground (arith, e), λ e. refl)
second-Answers (suc (suc (suc (suc (suc zero))))) le =
    (λ e. ground (arith, e), λ e. ground (arith, e))
second-Answers (suc (suc (suc (suc (suc (suc zero)))))) le =
    (λ e. ground (arith, e), λ e. ground (arith, e))
second-Answers (suc (suc (suc (suc (suc (suc (suc n))))))) le = absurd (omega (arith, le))

reconnects_example :
    (m : ℕ) × (m ≤ 7)
    × ((second_run m).point ≡ following)
    × ((second_run m).virt ≡ true)
    × ((second_run m).state ≡ connected)
reconnects_example = reconnects host message second_run failed-Reachable second_steps second-Answers

Reachable-IsFit_example :
    IsFit host message failed
    × (failed.virt ≡ true
        → (1 ≤ failed.shared.reloads) × ((why : List ℕ) → failed.state ≢ disconnected why))
Reachable-IsFit_example = Reachable-IsFit host message failed failed-Reachable
