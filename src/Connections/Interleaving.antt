-- ===== src/Connections/Interleaving.antt =====
-- Every step of a goroutine keeps the counters right, so every interleaving does.
use sukko.Common.{
  ℕ, ◌+◌, ◌-◌, ◌≡◌, refl, sym, ap, subst, ◌∙◌, inl, inr, true, false, some, List, [], ◌∷◌, arith,
  ◌==◌, nat_eq, list_eq, eq_iff, Option-cases, Bool-cases,
}
use sukko.Common.Int.{ℤ, pos, leb_ℤ, suc_ℤ, int_eq, ◌<ℤ◌, ◌≤ℤ◌}
use sukko.Common.Map.{lookup}
use sukko.Common.Text.{Text}
use sukko.Connections.{
  get_limit, get_connection_count, create_counter, set_counter, or_zero, Local, idle, entered,
  loaded, holding, resetting, State, or_idle, local_of, moved, Event, try_acquire, load,
  compare_and_swap, release, release_step, step_from, step, run,
}
use sukko.Connections.Counters.{
  holds, holders_in, holds-le-holders_in, Knows, Bounded, Counted, Balanced, moved-Counted,
  kept-Counted, count-create_counter, count-set_counter,
}

enter-Counted :
    (s : State) (i : ℕ) (tenant : Text)
    → local_of s i ≡ idle
    → Counted s
    → Counted
        (moved i (entered tenant (get_limit s.tracker tenant)) (create_counter tenant s.tracker) s)
enter-Counted s i tenant at h =
    let t = create_counter tenant s.tracker in
    let same = λ (other : Text). count-create_counter tenant other s.tracker in
    moved-Counted s i (entered tenant (get_limit s.tracker tenant)) t h (λ other. (same other).1)
      (λ other. (
        λ n e. (n, (same other).0 ∙ e, ap (λ l. n + holds other l) at),
        ground (arith, (same other).0, (same other).1, (h.0 other).1),
      ))
      (sym (same tenant).1)

load-Counted :
    (s : State) (i : ℕ) (tenant : Text) (limit : ℤ)
    → local_of s i ≡ entered tenant limit
    → Counted s
    → Counted (step_from (entered tenant limit) i load s)
unfolding step_from
load-Counted s i tenant limit at h =
    let current = get_connection_count s.tracker tenant in
    let known : Knows s.tracker (entered tenant limit) = subst (Knows s.tracker) at (h.1 i) in
    elim (Bool-cases (leb_ℤ limit current)) [
      | inl full ↦ rw (full, step_from) (kept-Counted s i idle h (λ other. ap (holds other) at) tt)
      | inr below ↦
          rw (below, step_from)
            (kept-Counted s i (loaded tenant limit current) h (λ other. ap (holds other) at)
              (known, ground (arith, below)))
    ]

win-Balanced :
    (s : State) (i : ℕ) (tenant other : Text) (limit current : ℤ)
    → local_of s i ≡ loaded tenant limit current
    → get_connection_count s.tracker tenant ≡ current
    → Balanced s i (holding tenant) (set_counter tenant (suc_ℤ current) s.tracker) other
win-Balanced s i tenant other limit current at now n e =
    let count = (count-set_counter tenant other (suc_ℤ current) s.tracker).0 in
    let free = ap (holds other) at in
    elim (Bool-cases (tenant == other)) [
      | inl this ↦
          let e' : current ≡ pos n =
            sym now ∙ ap (get_connection_count s.tracker) ((eq_iff tenant other).0 this) ∙ e in
          (n + 1, ground (arith, count, this, ap suc_ℤ e'), ground (arith, free, this))
      | inr apart ↦ (n, ground (arith, count, apart, e), ground (arith, free, apart))
    ]

suc_ℤ-le : (a b : ℤ) → a <ℤ b → suc_ℤ a ≤ℤ b
suc_ℤ-le a b h = ground (arith, h)

swap-Counted :
    (s : State) (i : ℕ) (tenant : Text) (limit current : ℤ)
    → local_of s i ≡ loaded tenant limit current
    → Counted s
    → Counted (step_from (loaded tenant limit current) i compare_and_swap s)
unfolding step_from
swap-Counted s i tenant limit current at h =
    let known : Knows s.tracker (loaded tenant limit current) =
      subst (Knows s.tracker) at (h.1 i) in
    elim (Bool-cases (get_connection_count s.tracker tenant == current)) [
      | inr lost ↦
          rw (lost, step_from)
            (kept-Counted s i (entered tenant limit) h (λ other. ap (holds other) at) known.0)
      | inl won ↦
          let now = (eq_iff (get_connection_count s.tracker tenant) current).0 won in
          let t = set_counter tenant (suc_ℤ current) s.tracker in
          rw (won, step_from)
            (moved-Counted s i (holding tenant) t h
              (λ other. (count-set_counter tenant other (suc_ℤ current) s.tracker).1)
              (λ other.
                (win-Balanced s i tenant other limit current at now, bounded other known now))
              tt)
    ]
  where
    bounded :
        (other : Text)
        → (limit ≡ get_limit s.tracker tenant) × (current <ℤ limit)
        → get_connection_count s.tracker tenant ≡ current
        → Bounded (set_counter tenant (suc_ℤ current) s.tracker) other
    bounded other known now =
        let (count, same) = count-set_counter tenant other (suc_ℤ current) s.tracker in
        elim (Bool-cases (tenant == other)) [
          | inl this ↦
              let there : limit ≡ get_limit (set_counter tenant (suc_ℤ current) s.tracker) other =
                known.0 ∙ ap (get_limit s.tracker) ((eq_iff tenant other).0 this) ∙ sym same in
              inr (
                subst
                  (λ x.
                    get_connection_count (set_counter tenant (suc_ℤ current) s.tracker) other ≤ℤ x)
                  there (rw (count, this) (suc_ℤ-le current limit known.1)))
          | inr apart ↦ ground (arith, count, same, apart, (h.0 other).1)
        ]

release-Balanced :
    (s : State) (i : ℕ) (tenant other : Text) (k : ℕ)
    → local_of s i ≡ holding tenant
    → get_connection_count s.tracker tenant ≡ pos (k + 1)
    → Balanced s i idle (set_counter tenant (pos k) s.tracker) other
release-Balanced s i tenant other k at now n e =
    let count = (count-set_counter tenant other (pos k) s.tracker).0 in
    let held = ap (holds other) at in
    elim (Bool-cases (tenant == other)) [
      | inl this ↦
          let e' : pos (k + 1) ≡ pos n =
            sym now ∙ ap (get_connection_count s.tracker) ((eq_iff tenant other).0 this) ∙ e in
          (k, ground (arith, count, this), ground (arith, held, this, e'))
      | inr apart ↦ (n, ground (arith, count, apart, e), ground (arith, held, apart))
    ]

release-Bounded :
    (s : State) (tenant other : Text) (k : ℕ)
    → get_connection_count s.tracker tenant ≡ pos (k + 1)
    → Bounded s.tracker tenant
    → Bounded s.tracker other
    → Bounded (set_counter tenant (pos k) s.tracker) other
release-Bounded s tenant other k now before at_other =
    let (count, same) = count-set_counter tenant other (pos k) s.tracker in
    elim (Bool-cases (tenant == other)) [
      | inl this ↦
          let there = ap (get_limit s.tracker) ((eq_iff tenant other).0 this) ∙ sym same in
          ground (arith, count, this, now, there, before)
      | inr apart ↦ ground (arith, count, same, apart, at_other)
    ]

-- A goroutine that holds a connection finds a positive counter.
held_count :
    (s : State) (i : ℕ) (tenant : Text)
    → local_of s i ≡ holding tenant
    → Counted s
    → (k : ℕ) × (lookup tenant s.tracker.connections ≡ some (pos (k + 1)))
unfolding get_connection_count local_of
held_count s i tenant at h =
    let held : holds tenant (or_idle (lookup i s.locals)) ≡ 1 =
      ground (arith, at, ap (holds tenant) at, eq_iff tenant tenant) in
    let some_held = holds-le-holders_in tenant i s.locals in
    let counted = (h.0 tenant).0 in
    elim (Option-cases (lookup tenant s.tracker.connections)) [
      | inl missing ↦ absurd (ground (arith, missing, counted, held, some_held))
      | inr (counter, found) ↦
          (holders_in tenant s.locals - 1, ground (arith, found, counted, held, some_held))
    ]

release-Counted :
    (s : State) (i : ℕ) (tenant : Text)
    → local_of s i ≡ holding tenant
    → Counted s
    → Counted (release_step i tenant s)
unfolding release_step get_connection_count
release-Counted s i tenant at h =
    let (k, found) = held_count s i tenant at h in
    let now : get_connection_count s.tracker tenant ≡ pos (k + 1) = ap or_zero found in
    let t = set_counter tenant (pos k) s.tracker in
    let runs : release_step i tenant s ≡ moved i idle t s = ground (arith, found) in
    rw runs (
      moved-Counted s i idle t h (λ other. (count-set_counter tenant other (pos k) s.tracker).1)
        (λ other. (
          release-Balanced s i tenant other k at now,
          release-Bounded s tenant other k now (h.0 tenant).1 (h.0 other).1,
        ))
        tt)

step-Counted :
    (l : Local) (i : ℕ) (event : Event) (s : State)
    → local_of s i ≡ l
    → Counted s
    → Counted (step_from l i event s)
unfolding step_from
step-Counted idle i (try_acquire tenant) s at h = enter-Counted s i tenant at h
step-Counted (entered tenant limit) i load s at h = load-Counted s i tenant limit at h
step-Counted (loaded tenant limit current) i compare_and_swap s at h =
    swap-Counted s i tenant limit current at h
step-Counted (holding tenant) i release s at h = release-Counted s i tenant at h
step-Counted (resetting tenant) i event s at h =
    absurd (let never : true ≡ false = subst (Knows s.tracker) at (h.1 i) in cc)
step-Counted _ i event s at h = h

pub run-Counted : (events : List (ℕ × Event)) (s : State) → Counted s → Counted (run events s)
unfolding run
run-Counted [] s h = h
run-Counted ((i, event) ∷ events) s h =
    run-Counted events (step i event s) (step-Counted (local_of s i) i event s refl h)
