-- ===== src/Routing/Tests.antt =====
-- Concrete runs of the routing patterns.
use sukko.Common.{◌≤◌, ◌≡◌, refl, ◌≢◌, ◌↔◌, true, false, [], ok, err}
use sukko.Common.Text.{Text, codes, split, join}
use sukko.Routing.{
  dot, normalize_segments, normalize_pattern, multiple_double_wildcard, match_routing_pattern,
}
use sukko.Routing.Segments.{doubles, Matches}
use sukko.Routing.Matching.{match-Matches_iff}

abbrev orders : Text
orders = codes "acme.*.orders"

abbrev eu_orders : Text
eu_orders = codes "acme.eu.orders"

matches_one : match_routing_pattern orders eu_orders ≡ ok true
unfolding match_routing_pattern split
matches_one = refl

star_is_one_segment : match_routing_pattern orders (codes "acme.eu.west.orders") ≡ ok false
unfolding match_routing_pattern split
star_is_one_segment = refl

double_star_needs_one : match_routing_pattern (codes "acme.**.x") (codes "acme.x") ≡ ok false
unfolding match_routing_pattern split
double_star_needs_one = refl

two_doubles : match_routing_pattern (codes "**.a.**") eu_orders ≡ err multiple_double_wildcard
unfolding match_routing_pattern split
two_doubles = refl

normalized : normalize_pattern orders ≡ codes "acme.**.orders"
unfolding normalize_pattern normalize_segments split join
normalized = refl

match-Matches_iff_example : (match_routing_pattern orders eu_orders ≡ ok true) ↔ (
    (eu_orders ≢ [])
    × (doubles (split dot orders) ≤ 1)
    × Matches (split dot orders) (split dot eu_orders))
match-Matches_iff_example = match-Matches_iff orders eu_orders
