-- ===== src/Connections/Counters.antt =====
-- Each counter is the number of the goroutines that hold a connection: what a move must keep.
use sukko.Common.{
  ℕ, ◌+◌, ◌≤◌, ◌≡◌, refl, sym, ap, ◌∙◌, ◌⊎◌, inl, inr, true, false, List, [], ◌∷◌, arith,
  if◌then◌else◌, ◌==◌, nat_eq, list_eq, eq_iff, Option-cases, Bool-cases,
}
use sukko.Common.Int.{ℤ, pos, int_eq, ◌<ℤ◌, ◌≤ℤ◌}
use sukko.Common.Map.{lookup, insert, lookup-insert}
use sukko.Common.Text.{Text}
use sukko.Connections.{
  TenantConnectionTracker, get_limit, get_connection_count, create_counter, set_counter, Local,
  idle, entered, loaded, holding, resetting, State, or_idle, local_of, moved,
}

abbrev pub holds : Text → Local → ℕ
holds tenant (holding t) = if t == tenant then 1 else 0
holds tenant _ = 0

-- The number of goroutines with a connection of the tenant.
abbrev pub holders_in : Text → List (ℕ × Local) → ℕ
holders_in tenant [] = 0
holders_in tenant ((_, l) ∷ locals) = holds tenant l + holders_in tenant locals

holders-insert :
    (tenant : Text) (i : ℕ) (l : Local) (locals : List (ℕ × Local))
    → holders_in tenant (insert i l locals) + holds tenant (or_idle (lookup i locals))
      ≡ holders_in tenant locals + holds tenant l
unfolding insert lookup
holders-insert tenant i l [] = omega arith
holders-insert tenant i l ((j, k) ∷ locals) = elim (Bool-cases (j == i)) [
  | inl same ↦ ground (arith, same)
  | inr other ↦ ground (arith, other, holders-insert tenant i l locals)
]

pub holds-le-holders_in :
    (tenant : Text) (i : ℕ) (locals : List (ℕ × Local))
    → holds tenant (or_idle (lookup i locals)) ≤ holders_in tenant locals
unfolding lookup
holds-le-holders_in tenant i [] = omega arith
holds-le-holders_in tenant i ((j, k) ∷ locals) = elim (Bool-cases (j == i)) [
  | inl same ↦ ground (arith, same)
  | inr other ↦ ground (arith, other, holds-le-holders_in tenant i locals)
]

-- What a goroutine knows: the limit, and that the value it loaded is below it. No goroutine finds a
-- negative counter to reset.
abbrev pub Knows : TenantConnectionTracker → Local → Type 0
Knows t (entered tenant limit) = limit ≡ get_limit t tenant
Knows t (loaded tenant limit current) = (limit ≡ get_limit t tenant) × (current <ℤ limit)
Knows t (resetting tenant) = true ≡ false
Knows t _ = Unit {0}

abbrev pub Bounded : TenantConnectionTracker → Text → Type 0
Bounded t tenant =
    (get_connection_count t tenant ≡ pos 0) ⊎ (get_connection_count t tenant ≤ℤ get_limit t tenant)

-- Each counter is the number of its holders and within the limit.
abbrev pub Counted : State → Type 0
Counted s =
    ((tenant : Text)
      → (get_connection_count s.tracker tenant ≡ pos (holders_in tenant s.locals))
        × Bounded s.tracker tenant)
    × ((i : ℕ) → Knows s.tracker (local_of s i))

-- A counter moves with the connection that its goroutine takes or gives back.
abbrev pub Balanced : State → ℕ → Local → TenantConnectionTracker → Text → Type 0
Balanced s i l t tenant =
    (n : ℕ)
    → get_connection_count s.tracker tenant ≡ pos n
    → (m : ℕ) × (get_connection_count t tenant ≡ pos m)
      × (m + holds tenant (local_of s i) ≡ n + holds tenant l)

Knows-limit :
    (t u : TenantConnectionTracker) (l : Local)
    → ((tenant : Text) → get_limit u tenant ≡ get_limit t tenant)
    → Knows t l
    → Knows u l
Knows-limit t u idle same k = tt
Knows-limit t u (entered tenant limit) same k = k ∙ sym (same tenant)
Knows-limit t u (loaded tenant limit current) same k = (k.0 ∙ sym (same tenant), k.1)
Knows-limit t u (holding tenant) same k = tt
Knows-limit t u (resetting tenant) same k = k

pub moved-Counted :
    (s : State) (i : ℕ) (l : Local) (t : TenantConnectionTracker)
    → Counted s
    → ((tenant : Text) → get_limit t tenant ≡ get_limit s.tracker tenant)
    → ((tenant : Text) → Balanced s i l t tenant × Bounded t tenant)
    → Knows t l
    → Counted (moved i l t s)
unfolding local_of
moved-Counted s i l t h same balance k = (
  λ tenant.
      let (m, count, sum) = (balance tenant).0 (holders_in tenant s.locals) (h.0 tenant).0 in
      (count ∙ ap pos (omega (arith, sum, holders-insert tenant i l s.locals)), (balance tenant).1),
  λ j. elim (Bool-cases (i == j)) [
    | inl this ↦ rw (lookup-insert i j l s.locals, this) k
    | inr other ↦
        rw (lookup-insert i j l s.locals, other)
          (Knows-limit s.tracker t (or_idle (lookup j s.locals)) same (h.1 j))
  ],
)

-- The tracker stays, and the goroutine neither takes nor gives back a connection.
pub kept-Counted :
    (s : State) (i : ℕ) (l : Local)
    → Counted s
    → ((tenant : Text) → holds tenant (local_of s i) ≡ holds tenant l)
    → Knows s.tracker l
    → Counted (moved i l s.tracker s)
kept-Counted s i l h same k =
    moved-Counted s i l s.tracker h (λ tenant. refl)
      (λ tenant. ((λ n e. (n, e, ap (λ x. n + x) (same tenant))), (h.0 tenant).1)) k

pub count-create_counter :
    (tenant other : Text) (t : TenantConnectionTracker)
    → (get_connection_count (create_counter tenant t) other ≡ get_connection_count t other)
      × (get_limit (create_counter tenant t) other ≡ get_limit t other)
unfolding get_connection_count create_counter get_limit
count-create_counter tenant other t =
    let at : (tenant == other) ≡ true → lookup tenant t.connections ≡ lookup other t.connections =
      λ e. ap (λ x. lookup x t.connections) ((eq_iff tenant other).0 e) in
    elim (Option-cases (lookup tenant t.connections)) [
      | inl missing ↦ (
        ground (
          arith,
          missing,
          lookup-insert tenant other (pos 0) t.connections,
          eq_iff tenant other,
          at,
        ),
        ground (arith, missing),
      )
      | inr (counter, found) ↦ (ground (arith, found), ground (arith, found))
    ]

pub count-set_counter :
    (tenant other : Text) (n : ℤ) (t : TenantConnectionTracker)
    → (get_connection_count (set_counter tenant n t) other
        ≡ (if tenant == other then n else get_connection_count t other))
      × (get_limit (set_counter tenant n t) other ≡ get_limit t other)
unfolding get_connection_count get_limit
count-set_counter tenant other n t =
    (ground (arith, lookup-insert tenant other n t.connections), refl)
