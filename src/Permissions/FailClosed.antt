-- ===== src/Permissions/FailClosed.antt =====
-- Without rules for the tenant nothing is allowed.
use sukko.Common.{
  ◌≡◌, refl, ap, false, Option, none, some, List, [], ◌∷◌, err, arith, nat_eq, list_eq, contains,
}
use sukko.Common.Map.{lookup}
use sukko.Common.Text.{Text}
use sukko.Channels.{match_any_wildcard}
use sukko.ChannelRules.{
  new_channel_rules, compute_allowed_patterns, compute_allowed_publish_patterns, collect_groups,
  compute_patterns, deduplicate,
}
use sukko.Permissions.{
  Claims, ProviderError, TenantPermissionChecker, get_rules_for_tenant, substitute_placeholders,
  subscribe_patterns, can_subscribe, filter_channels, can_publish,
}
use sukko.Permissions.Decisions.{filter-can_subscribe}

no_groups : (groups : List Text) → collect_groups [] groups ≡ ([], false)
unfolding collect_groups lookup
no_groups [] = refl
no_groups (g ∷ groups) = no_groups groups

no_patterns : (groups : List Text) → compute_patterns [] [] [] groups ≡ []
unfolding compute_patterns deduplicate
no_patterns groups = rw (no_groups groups) refl

no_rules :
    (pc : TenantPermissionChecker) (tenant_id : Text) (e : ProviderError)
    → pc.provider.get_channel_rules tenant_id ≡ err e
    → get_rules_for_tenant pc tenant_id ≡ new_channel_rules
unfolding get_rules_for_tenant
no_rules pc tenant_id e h = ground (arith, h)

no_subscribe_patterns :
    (pc : TenantPermissionChecker) (claims : Option Claims)
    → subscribe_patterns pc new_channel_rules claims ≡ []
unfolding subscribe_patterns compute_allowed_patterns new_channel_rules substitute_placeholders
no_subscribe_patterns pc none = refl
no_subscribe_patterns pc (some c) =
    ap (λ ps. substitute_placeholders pc ps (some c)) (no_patterns c.groups)

no_subscribe :
    (pc : TenantPermissionChecker) (tenant_id : Text) (e : ProviderError) (claims : Option Claims)
    (channel : Text)
    → pc.provider.get_channel_rules tenant_id ≡ err e
    → can_subscribe pc tenant_id claims channel ≡ false
unfolding can_subscribe match_any_wildcard
no_subscribe pc tenant_id e claims channel h =
    rw (no_rules pc tenant_id e h, no_subscribe_patterns pc claims) refl

no_publish :
    (pc : TenantPermissionChecker) (tenant_id : Text) (e : ProviderError) (claims : Option Claims)
    (channel : Text)
    → pc.provider.get_channel_rules tenant_id ≡ err e
    → can_publish pc tenant_id claims channel ≡ false
unfolding can_publish compute_allowed_publish_patterns new_channel_rules substitute_placeholders
    match_any_wildcard
no_publish pc tenant_id e none channel h = refl
no_publish pc tenant_id e (some c) channel h =
    rw (no_rules pc tenant_id e h, no_patterns c.groups) refl

-- When the provider has no rules for the tenant, or fails, nothing may be subscribed to or
-- published to, with claims or without, and the filter keeps no channel.
pub fails_closed :
    (pc : TenantPermissionChecker) (tenant_id : Text) (e : ProviderError) (claims : Option Claims)
    (channel : Text) (channels : List Text)
    → pc.provider.get_channel_rules tenant_id ≡ err e
    → (can_subscribe pc tenant_id claims channel ≡ false)
      × (can_publish pc tenant_id claims channel ≡ false)
      × (contains (filter_channels pc tenant_id claims channels) channel ≡ false)
fails_closed pc tenant_id e claims channel channels h =
    let sub = no_subscribe pc tenant_id e claims channel h in
    (
      sub,
      no_publish pc tenant_id e claims channel h,
      ground (arith, filter-can_subscribe pc tenant_id claims channels channel, sub),
    )
