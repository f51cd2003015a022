-- ===== src/Permissions/Tests.antt =====
-- Concrete permission decisions.
use sukko.Common.{
  ◌≡◌, refl, ◌↔◌, true, false, ◌&&◌, none, some, List, [], ◌∷◌, ok, err, if◌then◌else◌, ◌==◌,
  nat_eq, list_eq, contains,
}
use sukko.Common.Text.{Text, codes}
use sukko.ChannelRules.Allowed.{is_allowed}
use sukko.ChannelRules.Tests.{desk_rules, traders}
use sukko.Permissions.{
  Claims, new_placeholder_resolver, ChannelRulesProvider, channel_rules_not_found,
  TenantPermissionChecker, get_rules_for_tenant, can_subscribe, filter_channels, can_publish,
}
use sukko.Permissions.FailClosed.{fails_closed}
use sukko.Permissions.Decisions.{Allows, can_subscribe_iff}

abbrev acme : Text
acme = codes "acme"

abbrev alice : Claims
alice = record { subject = codes "alice"; tenant_id = acme; attributes = []; groups = [] }

abbrev trader : Claims
trader = record alice { groups = traders }

abbrev checker : TenantPermissionChecker
checker = record {
  provider = record {
    get_channel_rules = λ t. if t == acme then ok desk_rules else err channel_rules_not_found;
  };
  resolver = new_placeholder_resolver;
}

own_inbox : can_subscribe checker acme (some alice) (codes "acme.alice.inbox") ≡ true
unfolding can_subscribe new_placeholder_resolver sukko.Channels.match_any_wildcard
    sukko.Permissions.subscribe_patterns sukko.Permissions.substitute_placeholders
    sukko.ChannelRules.compute_allowed_patterns sukko.ChannelRules.compute_patterns
    sukko.ChannelRules.deduplicate get_rules_for_tenant sukko.ChannelRules.collect_groups
    sukko.Common.dedup_from sukko.Permissions.has_placeholders sukko.Permissions.resolve
    sukko.Channels.match_wildcard sukko.Common.Text.cut
own_inbox = refl

other_inbox : can_subscribe checker acme (some alice) (codes "acme.bob.inbox") ≡ false
unfolding can_subscribe new_placeholder_resolver sukko.Channels.match_any_wildcard
    sukko.Permissions.subscribe_patterns sukko.Permissions.substitute_placeholders
    sukko.ChannelRules.compute_allowed_patterns sukko.ChannelRules.compute_patterns
    sukko.ChannelRules.deduplicate get_rules_for_tenant sukko.ChannelRules.collect_groups
    sukko.Common.dedup_from sukko.Permissions.has_placeholders sukko.Permissions.resolve
    sukko.Channels.match_wildcard sukko.Common.Text.cut
other_inbox = refl

unresolved_inbox : can_subscribe checker acme none (codes "acme.{sub}.inbox") ≡ false
unfolding can_subscribe sukko.Channels.match_any_wildcard sukko.Permissions.subscribe_patterns
    sukko.Permissions.substitute_placeholders get_rules_for_tenant
    sukko.Permissions.has_placeholders sukko.Channels.match_wildcard sukko.Common.Text.cut
unresolved_inbox = refl

can_subscribe_iff_example :
    let rules = get_rules_for_tenant checker acme in
    ((can_subscribe checker acme (some trader) (codes "acme.BTC.trade") ≡ true)
      ↔ Allows checker
          (is_allowed rules.public_patterns rules.group_mappings rules.default_patterns
            trader.groups)
          (some trader)
          (codes "acme.BTC.trade"))
    × ((can_subscribe checker acme none (codes "acme.BTC.trade") ≡ true)
        ↔ Allows checker (contains rules.public_patterns) none (codes "acme.BTC.trade"))
can_subscribe_iff_example = can_subscribe_iff checker acme trader (codes "acme.BTC.trade")

fails_closed_example :
    (can_subscribe checker (codes "beta") (some alice) (codes "beta.x") ≡ false)
    × (can_publish checker (codes "beta") (some alice) (codes "beta.x") ≡ false)
    × (contains
          (filter_channels checker (codes "beta") (some alice) (codes "beta.x" ∷ []))
          (codes "beta.x")
        ≡ false)
fails_closed_example =
    fails_closed checker (codes "beta") channel_rules_not_found (some alice) (codes "beta.x")
      (codes "beta.x" ∷ []) refl
