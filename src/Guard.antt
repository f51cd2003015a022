-- ===== src/Guard.antt =====
-- ws/internal/server/limits/resource_guard.go: the two decisions with hysteresis. A sample is what the
-- monitor and the connection counter say during one call. A CPU percentage is only compared, and a
-- number stands for it. The rate limiters are those of golang.org/x/time/rate, and left out with the
-- goroutine limiter and the monitoring.
use sukko.Common.{ℕ, Bool, true, false, List, [], ◌∷◌, Result, ok, err, if◌then◌else◌, ltb, leb}
pub mod Hysteresis
mod Tests

pub record ResourceGuardConfig : Type 0 where
  pub max_connections : ℕ
  pub memory_limit : ℕ
  pub max_goroutines : ℕ
  pub cpu_reject_threshold : ℕ
  pub cpu_reject_threshold_lower : ℕ
  pub cpu_pause_threshold : ℕ
  pub cpu_pause_threshold_lower : ℕ

pub record Sample : Type 0 where
  pub current_conns : ℕ
  pub current_cpu : ℕ
  pub current_memory : ℕ
  pub current_goros : ℕ

pub record ResourceGuard : Type 0 where
  pub is_rejecting_cpu : Bool
  pub is_pausing_kafka : Bool

pub data Rejection : Type 0 where
  at_max_connections cpu_overload memory_limit_exceeded goroutine_limit_exceeded : Rejection

unfoldable pub new_resource_guard : ResourceGuard
new_resource_guard = record { is_rejecting_cpu = false; is_pausing_kafka = false }

-- The two tests behind that of the CPU.
abbrev pub within_memory : ResourceGuardConfig → Sample → Result Rejection Bool
within_memory config now =
    if ltb config.memory_limit now.current_memory
    then err memory_limit_exceeded
    else if ltb config.max_goroutines now.current_goros
    then err goroutine_limit_exceeded
    else ok true

unfoldable pub should_accept_connection :
    ResourceGuardConfig → Sample → ResourceGuard → ResourceGuard × Result Rejection Bool
should_accept_connection config now rg =
    if leb config.max_connections now.current_conns
    then (rg, err at_max_connections)
    else if rg.is_rejecting_cpu
    then (if ltb now.current_cpu config.cpu_reject_threshold_lower
        then (record rg { is_rejecting_cpu = false }, within_memory config now)
        else (rg, err cpu_overload))
    else if ltb config.cpu_reject_threshold now.current_cpu
    then (record rg { is_rejecting_cpu = true }, err cpu_overload)
    else (rg, within_memory config now)

unfoldable pub should_pause_kafka :
    ResourceGuardConfig → Sample → ResourceGuard → ResourceGuard × Bool
should_pause_kafka config now rg =
    if rg.is_pausing_kafka
    then (if ltb now.current_cpu config.cpu_pause_threshold_lower
        then (record rg { is_pausing_kafka = false }, false)
        else (rg, true))
    else if ltb config.cpu_pause_threshold now.current_cpu
    then (record rg { is_pausing_kafka = true }, true)
    else (rg, false)
