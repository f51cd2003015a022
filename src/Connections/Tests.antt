-- ===== src/Connections/Tests.antt =====
-- Two goroutines race for the last connection of a tenant.
use sukko.Common.{ℕ, ◌≡◌, refl, ◌≢◌, ◌⊎◌, List, [], ◌∷◌, nat_eq, list_eq}
use sukko.Common.Int.{pos, ◌≤ℤ◌}
use sukko.Common.Text.{Text, codes}
use sukko.Connections.{
  get_limit, get_connection_count, idle, holding, resetting, local_of, Event, try_acquire, load,
  compare_and_swap, run,
}
use sukko.Connections.Counters.{holders_in}
use sukko.Connections.Limit.{start, run_limit}

abbrev acme : Text
acme = codes "acme"

-- Both load 0, the second swaps first, and the first finds the limit reached when it tries again.
abbrev race : List (ℕ × Event)
race =
    (1, try_acquire acme)
    ∷ (2, try_acquire acme)
    ∷ (1, load)
    ∷ (2, load)
    ∷ (2, compare_and_swap)
    ∷ (1, compare_and_swap)
    ∷ (1, load)
    ∷ []

one_wins : local_of (run race (start [] (pos 1))) 2 ≡ holding acme
unfolding local_of run
one_wins = refl

other_rejected : local_of (run race (start [] (pos 1))) 1 ≡ idle
unfolding local_of run
other_rejected = refl

run_limit_example :
    let s = run race (start [] (pos 1)) in
    let connections = holders_in acme s.locals in
    (get_connection_count s.tracker acme ≡ pos connections)
    × ((connections ≡ 0) ⊎ (pos connections ≤ℤ get_limit (start [] (pos 1)).tracker acme))
    × ((i : ℕ) → local_of s i ≢ resetting acme)
run_limit_example = run_limit [] (pos 1) race acme
