-- ===== src/ChannelRules/Tests.antt =====
-- Concrete channel rules.
use sukko.Common.{◌≡◌, refl, ◌↔◌, [], ◌∷◌, ok, err, nat_eq, list_eq, contains, Distinct, List}
use sukko.Common.Text.{Text, codes}
use sukko.ChannelRules.{
  ChannelRules, compute_allowed_patterns, compute_allowed_publish_patterns, validate,
  validate_with_placeholders, unknown_placeholder,
}
use sukko.ChannelRules.Validation.{AreWithin, validate_iff}

abbrev pub desk_rules : ChannelRules
desk_rules = record {
  public_patterns = codes "acme.news" ∷ [];
  group_mappings = (codes "traders", codes "acme.*.trade" ∷ codes "acme.news" ∷ []) ∷ [];
  default_patterns = codes "acme.{sub}.inbox" ∷ [];
  publish_public = [];
  publish_group_mappings = (codes "traders", codes "acme.orders.*" ∷ []) ∷ [];
  publish_default = [];
}

abbrev pub traders : List Text
traders = codes "traders" ∷ []

allowed_to_traders :
    compute_allowed_patterns desk_rules traders ≡ codes "acme.news" ∷ codes "acme.*.trade" ∷ []
unfolding compute_allowed_patterns sukko.ChannelRules.compute_patterns
    sukko.ChannelRules.deduplicate sukko.ChannelRules.collect_groups sukko.Common.dedup_from
allowed_to_traders = refl

defaults_without_group :
    compute_allowed_patterns desk_rules [] ≡ codes "acme.news" ∷ codes "acme.{sub}.inbox" ∷ []
unfolding compute_allowed_patterns sukko.ChannelRules.compute_patterns
    sukko.ChannelRules.deduplicate sukko.ChannelRules.collect_groups sukko.Common.dedup_from
defaults_without_group = refl

rules_valid : validate desk_rules ≡ ok tt
unfolding validate sukko.ChannelRules.is_valid_channel_pattern
rules_valid = refl

unknown_name : validate_with_placeholders desk_rules (codes "tenant" ∷ []) ≡ err unknown_placeholder
unfolding validate_with_placeholders contains
unknown_name = refl

validate_iff_example : (validate desk_rules ≡ ok tt) ↔ (
    AreWithin desk_rules.public_patterns desk_rules.group_mappings desk_rules.default_patterns
    × AreWithin desk_rules.publish_public desk_rules.publish_group_mappings
        desk_rules.publish_default)
validate_iff_example = validate_iff desk_rules
