-- ===== src/Guard/Tests.antt =====
-- A concrete guard, through a peak of the CPU.
use sukko.Common.{ℕ, ◌≤◌, ◌<◌, ◌≡◌, ◌↔◌, refl, true, false, List, [], ◌∷◌, arith, ok, err}
use sukko.Guard.{
  ResourceGuardConfig, Sample, cpu_overload, should_accept_connection, should_pause_kafka,
  new_resource_guard,
}
use sukko.Guard.Hysteresis.{
  Call, accepting, pausing, guard_after, rejecting_over, pausing_over, decisions_iff,
}

abbrev config : ResourceGuardConfig
config = record {
  max_connections = 500;
  memory_limit = 1000;
  max_goroutines = 100;
  cpu_reject_threshold = 75;
  cpu_reject_threshold_lower = 65;
  cpu_pause_threshold = 80;
  cpu_pause_threshold_lower = 70;
}

abbrev at_cpu : ℕ → Sample
at_cpu cpu = record { current_conns = 3; current_cpu = cpu; current_memory = 9; current_goros = 9 }

abbrev peak : List Call
peak = accepting (at_cpu 76) ∷ pausing (at_cpu 81) ∷ accepting (at_cpu 60) ∷ []

in_band :
    (should_accept_connection config (at_cpu 70) (guard_after config peak)).1 ≡ err cpu_overload
unfolding should_accept_connection should_pause_kafka new_resource_guard
in_band = refl

below_band : (should_accept_connection config (at_cpu 64) (guard_after config peak)).1 ≡ ok true
unfolding should_accept_connection should_pause_kafka new_resource_guard
below_band = refl

decisions_iff_example :
    (((should_accept_connection config (at_cpu 64) (guard_after config peak)).1 ≡ ok true) ↔ (
      (3 < 500)
      × (9 ≤ 1000)
      × (9 ≤ 100)
      × (rejecting_over config (accepting (at_cpu 64) ∷ peak) ≡ false)))
    × ((should_pause_kafka config (at_cpu 64) (guard_after config peak)).1
        ≡ pausing_over config (pausing (at_cpu 64) ∷ peak))
decisions_iff_example = decisions_iff config peak (at_cpu 64) (omega arith) (omega arith)
