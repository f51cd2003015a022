-- ===== src/Connections.antt =====
-- ws/internal/gateway/tenant_connections.go: the limit on a tenant's connections, for goroutines that
-- run at the same time. What the mutex protects is one step, as is each operation of a counter:
-- the load, the compare-and-swap, the addition and the store. The gauges are not modelled.
pub mod Counters
pub mod Interleaving
pub mod Limit
mod Tests
use sukko.Common.{
  ℕ, Bool, true, false, not, ◌&&◌, Option, none, some, List, [], ◌∷◌, if◌then◌else◌, ◌==◌, nat_eq,
  list_eq,
}
use sukko.Common.Int.{ℤ, pos, ltb_ℤ, leb_ℤ, suc_ℤ, pred_ℤ, int_eq}
use sukko.Common.Map.{lookup, insert, delete}
use sukko.Common.Text.{Text}

-- A counter is never removed, so that the map's pointers are rendered by the numbers behind them.
pub record TenantConnectionTracker : Type 0 where
  pub connections : List (Text × ℤ)
  pub limits : List (Text × ℤ)
  pub default_limit : ℤ

unfoldable pub new_tenant_connection_tracker : ℤ → TenantConnectionTracker
new_tenant_connection_tracker default_limit = record {
  connections = [];
  limits = [];
  default_limit = default_limit;
}

unfoldable pub set_limit : Text → ℤ → TenantConnectionTracker → TenantConnectionTracker
unfolding insert delete
set_limit tenant_id limit t =
    if leb_ℤ limit (pos 0)
    then record t { limits = delete tenant_id t.limits }
    else record t { limits = insert tenant_id limit t.limits }

unfoldable pub set_default_limit : ℤ → TenantConnectionTracker → TenantConnectionTracker
set_default_limit limit t = if ltb_ℤ (pos 0) limit then record t { default_limit = limit } else t

unfoldable pub get_limit : TenantConnectionTracker → Text → ℤ
unfolding lookup
get_limit t tenant_id = elim (lookup tenant_id t.limits) [
  | none ↦ t.default_limit
  | some limit ↦ if ltb_ℤ (pos 0) limit then limit else t.default_limit
]

abbrev pub or_zero : Option ℤ → ℤ
or_zero none = pos 0
or_zero (some n) = n

unfoldable pub get_connection_count : TenantConnectionTracker → Text → ℤ
unfolding lookup
get_connection_count t tenant_id = or_zero (lookup tenant_id t.connections)

-- getOrCreateCounter; the limit that it returns besides is `get_limit`.
unfoldable pub create_counter : Text → TenantConnectionTracker → TenantConnectionTracker
unfolding lookup insert
create_counter tenant_id t = elim (lookup tenant_id t.connections) [
  | none ↦ record t { connections = insert tenant_id (pos 0) t.connections }
  | some counter ↦ t
]

abbrev pub set_counter : Text → ℤ → TenantConnectionTracker → TenantConnectionTracker
set_counter tenant_id n t = record t { connections = insert tenant_id n t.connections }

-- Where a goroutine stands. In TryAcquire: at the head of the loop with its limit, or with a value
-- loaded that is below the limit; then with a connection, until it calls Release, which may still
-- have a negative counter to reset.
pub data Local : Type 0 where
  idle : Local
  entered : Text → ℤ → Local
  loaded : Text → ℤ → ℤ → Local
  holding : Text → Local
  resetting : Text → Local

pub record State : Type 0 where
  pub tracker : TenantConnectionTracker
  pub locals : List (ℕ × Local)

abbrev pub or_idle : Option Local → Local
or_idle none = idle
or_idle (some l) = l

unfoldable pub local_of : State → ℕ → Local
unfolding lookup
local_of s i = or_idle (lookup i s.locals)

abbrev pub moved : ℕ → Local → TenantConnectionTracker → State → State
moved i l t s = record { tracker = t; locals = insert i l s.locals }

-- The next step of a goroutine: a call of TryAcquire for a tenant, the load with the comparison to the
-- limit, the compare-and-swap, the addition in a call of Release, and its store.
pub data Event : Type 0 where
  try_acquire : Text → Event
  load compare_and_swap release store_zero : Event

-- A release where the counter is missing does nothing.
unfoldable pub release_step : ℕ → Text → State → State
unfolding lookup insert
release_step i tenant s = elim (lookup tenant s.tracker.connections) [
  | none ↦ moved i idle s.tracker s
  | some counter ↦
      let new_val = pred_ℤ counter in
      moved i (if ltb_ℤ new_val (pos 0) then resetting tenant else idle)
        (set_counter tenant new_val s.tracker) s
]

-- An event that the goroutine is not ready for changes nothing.
unfoldable pub step_from : Local → ℕ → Event → State → State
unfolding get_limit get_connection_count create_counter release_step insert
step_from idle i (try_acquire tenant) s =
    moved i (entered tenant (get_limit s.tracker tenant)) (create_counter tenant s.tracker) s
step_from (entered tenant limit) i load s =
    let current = get_connection_count s.tracker tenant in
    moved i (if leb_ℤ limit current then idle else loaded tenant limit current) s.tracker s
step_from (loaded tenant limit current) i compare_and_swap s =
    if get_connection_count s.tracker tenant == current
    then moved i (holding tenant) (set_counter tenant (suc_ℤ current) s.tracker) s
    else moved i (entered tenant limit) s.tracker s
step_from (holding tenant) i release s = release_step i tenant s
step_from (resetting tenant) i store_zero s = moved i idle (set_counter tenant (pos 0) s.tracker) s
step_from _ i event s = s

unfoldable pub step : ℕ → Event → State → State
unfolding step_from local_of
step i event s = step_from (local_of s i) i event s

-- An interleaving: which goroutine takes which step, in their order.
unfoldable pub run : List (ℕ × Event) → State → State
unfolding step
run [] s = s
run ((i, event) ∷ events) s = run events (step i event s)
