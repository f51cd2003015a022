-- ===== src/Guard/Hysteresis.antt =====
-- The two flags against the samples that they come from.
use sukko.Common.{
  ℕ, ◌≤◌, ◌<◌, ◌≡◌, ◌↔◌, refl, Bool, true, false, List, [], ◌∷◌, arith, ok, if◌then◌else◌, ltb, leb,
}
use sukko.Guard.{
  ResourceGuardConfig, Sample, ResourceGuard, new_resource_guard, should_accept_connection,
  should_pause_kafka,
}

pub data Call : Type 0 where
  accepting pausing : Sample → Call

abbrev pub after : ResourceGuardConfig → Call → ResourceGuard → ResourceGuard
after config (accepting now) rg = (should_accept_connection config now rg).0
after config (pausing now) rg = (should_pause_kafka config now rg).0

-- The guard after a sequence of calls, the latest in front.
abbrev pub guard_after : ResourceGuardConfig → List Call → ResourceGuard
guard_after config [] = new_resource_guard
guard_after config (call ∷ calls) = after config call (guard_after config calls)

-- The description: the latest value that lies outside of the band says which side it is.
abbrev pub is_over : ℕ → ℕ → List ℕ → Bool
is_over lower upper [] = false
is_over lower upper (cpu ∷ earlier) =
    if ltb upper cpu then true else if ltb cpu lower then false else is_over lower upper earlier

-- The CPU values that the calls for connections have looked at: not those at the connection limit.
abbrev pub seen : ResourceGuardConfig → List Call → List ℕ
seen config [] = []
seen config (accepting now ∷ calls) =
    let earlier = seen config calls in
    if leb config.max_connections now.current_conns then earlier else now.current_cpu ∷ earlier
seen config (pausing now ∷ calls) = seen config calls

abbrev pub seen_by_kafka : List Call → List ℕ
seen_by_kafka [] = []
seen_by_kafka (accepting now ∷ calls) = seen_by_kafka calls
seen_by_kafka (pausing now ∷ calls) = now.current_cpu ∷ seen_by_kafka calls

abbrev pub rejecting_over : ResourceGuardConfig → List Call → Bool
rejecting_over config calls =
    is_over config.cpu_reject_threshold_lower config.cpu_reject_threshold (seen config calls)

abbrev pub pausing_over : ResourceGuardConfig → List Call → Bool
pausing_over config calls =
    is_over config.cpu_pause_threshold_lower config.cpu_pause_threshold (seen_by_kafka calls)

guard_after-flags :
    (config : ResourceGuardConfig) (calls : List Call)
    → config.cpu_reject_threshold_lower ≤ config.cpu_reject_threshold
    → config.cpu_pause_threshold_lower ≤ config.cpu_pause_threshold
    → ((guard_after config calls).is_rejecting_cpu ≡ rejecting_over config calls)
      × ((guard_after config calls).is_pausing_kafka ≡ pausing_over config calls)
unfolding new_resource_guard should_accept_connection should_pause_kafka
guard_after-flags config [] r p = (refl, refl)
guard_after-flags config (accepting now ∷ calls) r p =
    ground (arith, guard_after-flags config calls r p, r, p)
guard_after-flags config (pausing now ∷ calls) r p =
    ground (arith, guard_after-flags config calls r p, r, p)

-- After any sequence of calls, with bands whose lower end is not above the upper one, a connection is
-- accepted exactly when there is room for it, the memory and the goroutines are within their limits
-- and the latest CPU value outside of the band, among those that calls for connections below the
-- limit looked at, this one included, is not above it; Kafka is paused exactly when the latest value
-- outside of its band is above it.
pub decisions_iff :
    (config : ResourceGuardConfig) (calls : List Call) (now : Sample)
    → config.cpu_reject_threshold_lower ≤ config.cpu_reject_threshold
    → config.cpu_pause_threshold_lower ≤ config.cpu_pause_threshold
    → let rg = guard_after config calls in
      (((should_accept_connection config now rg).1 ≡ ok true) ↔ (
        (now.current_conns < config.max_connections)
        × (now.current_memory ≤ config.memory_limit)
        × (now.current_goros ≤ config.max_goroutines)
        × (rejecting_over config (accepting now ∷ calls) ≡ false)))
      × ((should_pause_kafka config now rg).1 ≡ pausing_over config (pausing now ∷ calls))
unfolding should_accept_connection should_pause_kafka
decisions_iff config calls now r p =
    let (rejecting, pausing_) = guard_after-flags config calls r p in
    (
      (
        λ accepted. ground (arith, rejecting),
        λ (room, memory, goros, calm). ground (arith, rejecting),
      ),
      ground (arith, pausing_),
    )
