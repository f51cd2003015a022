-- ===== src/Connections/Limit.antt =====
-- The limit on a tenant's connections holds under every interleaving.
use sukko.Common.{
  ℕ, ◌≡◌, refl, subst, ◌∙◌, ◌≢◌, ◌⊎◌, inl, inr, true, false, List, [], ◌∷◌, arith, ◌==◌, nat_eq,
  list_eq, Option-cases, Bool-cases,
}
use sukko.Common.Int.{ℤ, pos, int_eq, ◌≤ℤ◌}
use sukko.Common.Map.{lookup}
use sukko.Common.Text.{Text}
use sukko.Connections.{
  get_limit, get_connection_count, create_counter, Local, idle, entered, loaded, holding, resetting,
  State, local_of, Event, try_acquire, load, compare_and_swap, release, store_zero, release_step,
  step_from, step, run,
}
use sukko.Connections.Counters.{holders_in, Knows, Counted}
use sukko.Connections.Interleaving.{run-Counted}

-- A tracker without counters, and no goroutine on its way.
abbrev pub start : List (Text × ℤ) → ℤ → State
start limits default_limit = record {
  tracker = record { connections = []; limits = limits; default_limit = default_limit };
  locals = [];
}

start-Counted :
    (limits : List (Text × ℤ)) (default_limit : ℤ) → Counted (start limits default_limit)
unfolding get_connection_count local_of lookup
start-Counted limits default_limit = (λ tenant. (refl, inl refl), λ i. tt)

-- No step changes a limit.
abbrev pub SameLimits : State → State → Type 0
SameLimits s s' =
    (s'.tracker.limits ≡ s.tracker.limits) × (s'.tracker.default_limit ≡ s.tracker.default_limit)

step-SameLimits :
    (l : Local) (i : ℕ) (event : Event) (s : State) → SameLimits s (step_from l i event s)
unfolding step_from create_counter release_step
step-SameLimits idle i (try_acquire tenant) s =
    elim (Option-cases (lookup tenant s.tracker.connections)) [
      | inl missing ↦ (ground (arith, missing), ground (arith, missing))
      | inr (counter, found) ↦ (ground (arith, found), ground (arith, found))
    ]
step-SameLimits (entered tenant limit) i load s = (refl, refl)
step-SameLimits (loaded tenant limit current) i compare_and_swap s =
    elim (Bool-cases (get_connection_count s.tracker tenant == current)) [
      | inl won ↦ (ground (arith, won), ground (arith, won))
      | inr lost ↦ (ground (arith, lost), ground (arith, lost))
    ]
step-SameLimits (holding tenant) i release s =
    elim (Option-cases (lookup tenant s.tracker.connections)) [
      | inl missing ↦ (ground (arith, missing), ground (arith, missing))
      | inr (counter, found) ↦ (ground (arith, found), ground (arith, found))
    ]
step-SameLimits (resetting tenant) i store_zero s = (refl, refl)
step-SameLimits _ i event s = (refl, refl)

run-SameLimits : (events : List (ℕ × Event)) (s : State) → SameLimits s (run events s)
unfolding run
run-SameLimits [] s = (refl, refl)
run-SameLimits ((i, event) ∷ events) s =
    let (l, d) = step-SameLimits (local_of s i) i event s in
    let (l', d') = run-SameLimits events (step i event s) in (l' ∙ l, d' ∙ d)

same_limit :
    (s s' : State) (tenant : Text)
    → SameLimits s s'
    → get_limit s'.tracker tenant ≡ get_limit s.tracker tenant
unfolding get_limit
same_limit s s' tenant (l, d) = rw (l, d) refl

-- In every interleaving of any number of goroutines that acquire and release connections, each
-- releasing only what it acquired, while no limit is set: a tenant's counter is the number of its
-- connections, which is zero or within the tenant's limit, and no counter turns negative.
pub run_limit :
    (limits : List (Text × ℤ)) (default_limit : ℤ) (events : List (ℕ × Event)) (tenant : Text)
    → let s = run events (start limits default_limit) in
      let connections = holders_in tenant s.locals in
      (get_connection_count s.tracker tenant ≡ pos connections)
      × ((connections ≡ 0)
          ⊎ (pos connections ≤ℤ get_limit (start limits default_limit).tracker tenant))
      × ((i : ℕ) → local_of s i ≢ resetting tenant)
run_limit limits default_limit events tenant =
    let s0 = start limits default_limit in
    let s = run events s0 in
    let (counts, _) = run-Counted events s0 (start-Counted limits default_limit) in
    let (count, bound) = counts tenant in
    let same = same_limit s0 s tenant (run-SameLimits events s0) in
    (count, ground (arith, count, bound, same), never)
  where
    never : (i : ℕ) → local_of (run events (start limits default_limit)) i ≢ resetting tenant
    never i e =
        let s = run events (start limits default_limit) in
        let (counts, knows) =
          run-Counted events (start limits default_limit) (start-Counted limits default_limit) in
        let clash : true ≡ false = subst (Knows s.tracker) e (knows i) in cc
