-- ===== src/ChannelRules/Validation.antt =====
-- ChannelRules.Validate accepts exactly the rules within the limits.
use sukko.Common.{
  ◌≤◌, ◌≡◌, refl, ◌≢◌, ◌↔◌, true, List, [], ◌∷◌, ok, arith, length, All, nat_eq, list_eq, eq_iff,
}
use sukko.Common.Text.{Text}
use sukko.ChannelRules.{
  ChannelRules, is_valid_channel_pattern, max_group_name_length, max_groups_per_mapping,
  max_patterns_per_group, max_public_patterns, check_patterns, check_groups, validate_half,
  validate,
}

abbrev pub ArePatterns : List Text → Type 0
ArePatterns patterns = All (λ p. is_valid_channel_pattern p ≡ true) patterns

check_patterns-ok : (ps : List Text) → (check_patterns ps ≡ ok tt) ↔ ArePatterns ps
unfolding check_patterns
check_patterns-ok [] = (λ h. tt, λ h. refl)
check_patterns-ok (p ∷ ps) = ground (arith, check_patterns-ok ps)

-- A group's name and its patterns.
abbrev pub IsGroup : Text × List Text → Type 0
IsGroup g =
    (g.0 ≢ [])
    × (length g.0 ≤ max_group_name_length)
    × (length g.1 ≤ max_patterns_per_group)
    × ArePatterns g.1

check_groups-ok : (gs : List (Text × List Text)) → (check_groups gs ≡ ok tt) ↔ All IsGroup gs
unfolding check_groups
check_groups-ok [] = (λ h. tt, λ h. refl)
check_groups-ok ((group, patterns) ∷ gs) =
    ground (arith, eq_iff group [], check_patterns-ok patterns, check_groups-ok gs)

abbrev pub AreWithin : List Text → List (Text × List Text) → List Text → Type 0
AreWithin public_patterns mappings default_patterns =
    (length public_patterns ≤ max_public_patterns)
    × ArePatterns public_patterns
    × (length mappings ≤ max_groups_per_mapping)
    × All IsGroup mappings
    × (length default_patterns ≤ max_patterns_per_group)
    × ArePatterns default_patterns

validate_half-ok :
    (public_patterns : List Text) (mappings : List (Text × List Text))
    (default_patterns : List Text)
    → (validate_half public_patterns mappings default_patterns ≡ ok tt)
      ↔ AreWithin public_patterns mappings default_patterns
unfolding validate_half
validate_half-ok public_patterns mappings default_patterns = ground (
  arith,
  check_patterns-ok public_patterns,
  check_groups-ok mappings,
  check_patterns-ok default_patterns,
)

-- Rules are accepted exactly when both halves, for subscribing and for publishing, keep the limits
-- on their numbers and every pattern and group name in them is valid; in whatever order the group
-- mappings are visited.
pub validate_iff :
    (r : ChannelRules)
    → (validate r ≡ ok tt) ↔ (
        AreWithin r.public_patterns r.group_mappings r.default_patterns
        × AreWithin r.publish_public r.publish_group_mappings r.publish_default)
unfolding validate
validate_iff r = ground (
  arith,
  validate_half-ok r.public_patterns r.group_mappings r.default_patterns,
  validate_half-ok r.publish_public r.publish_group_mappings r.publish_default,
)
