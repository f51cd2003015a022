-- ===== src/License/Limits.antt =====
-- limits.go of ws/internal/shared/license, and resolveLimits of manager.go. A limit of 0 does not
-- bind. The error is without its text.
use sukko.Common.{Bool, true, false, ◌&&◌, Result, ok, err, if◌then◌else◌, ◌==◌, nat_eq, list_eq}
use sukko.Common.Int.{ℤ, pos, ltb_ℤ, leb_ℤ, int_eq}
use sukko.License.Edition.{Edition, community, pro, enterprise, normalize}

pub record Limits : Type 0 where
  pub edition : Edition
  pub max_tenants : ℤ
  pub max_total_connections : ℤ
  pub max_shards : ℤ
  pub max_topics_per_tenant : ℤ
  pub max_routing_rules_per_tenant : ℤ

abbrev pub community_limits : Limits
community_limits = record {
  edition = community;
  max_tenants = pos 3;
  max_total_connections = pos 500;
  max_shards = pos 1;
  max_topics_per_tenant = pos 10;
  max_routing_rules_per_tenant = pos 10;
}

abbrev pub pro_limits : Limits
pro_limits = record {
  edition = pro;
  max_tenants = pos 50;
  max_total_connections = pos 10_000;
  max_shards = pos 8;
  max_topics_per_tenant = pos 50;
  max_routing_rules_per_tenant = pos 100;
}

abbrev pub enterprise_limits : Limits
enterprise_limits = record {
  edition = enterprise;
  max_tenants = pos 0;
  max_total_connections = pos 0;
  max_shards = pos 0;
  max_topics_per_tenant = pos 0;
  max_routing_rules_per_tenant = pos 0;
}

-- An edition that is none of the three has the limits of the lowest.
unfoldable pub default_limits : Edition → Limits
unfolding normalize
default_limits edition =
    if normalize edition == pro
    then pro_limits
    else if normalize edition == enterprise
    then enterprise_limits
    else community_limits

abbrev pub override : ℤ → ℤ → ℤ
override claimed default = if ltb_ℤ (pos 0) claimed then claimed else default

unfoldable pub resolve_limits : Edition → Limits → Limits
unfolding default_limits
resolve_limits edition claims_limits =
    let defaults = default_limits edition in
    record {
      edition = defaults.edition;
      max_tenants = override claims_limits.max_tenants defaults.max_tenants;
      max_total_connections =
          override claims_limits.max_total_connections defaults.max_total_connections;
      max_shards = override claims_limits.max_shards defaults.max_shards;
      max_topics_per_tenant =
          override claims_limits.max_topics_per_tenant defaults.max_topics_per_tenant;
      max_routing_rules_per_tenant =
          override claims_limits.max_routing_rules_per_tenant defaults.max_routing_rules_per_tenant;
    }

unfoldable pub is_unlimited : ℤ → Bool
is_unlimited val = val == pos 0

unfoldable pub dimension_covers : ℤ → ℤ → Bool
unfolding is_unlimited
dimension_covers have want =
    if is_unlimited have then true else if is_unlimited want then false else leb_ℤ want have

unfoldable pub covers_at_least : Limits → Limits → Bool
unfolding dimension_covers
covers_at_least l other =
    dimension_covers l.max_tenants other.max_tenants
    && dimension_covers l.max_total_connections other.max_total_connections
    && dimension_covers l.max_shards other.max_shards
    && dimension_covers l.max_topics_per_tenant other.max_topics_per_tenant
    && dimension_covers l.max_routing_rules_per_tenant other.max_routing_rules_per_tenant

pub data LimitError : Type 0 where
  limit_exceeded : LimitError

abbrev pub Checked : Type 0
Checked = Result LimitError (Unit {0})

-- `current` is a count before something is added, so it stays below the limit.
unfoldable pub check_count : ℤ → ℤ → Checked
unfolding is_unlimited
check_count current limit =
    if is_unlimited limit then ok tt else if leb_ℤ limit current then err limit_exceeded else ok tt

-- `current` is a configured value, which may reach the limit.
unfoldable pub check_value : ℤ → ℤ → Checked
unfolding is_unlimited
check_value current limit =
    if is_unlimited limit then ok tt else if ltb_ℤ limit current then err limit_exceeded else ok tt

unfoldable pub check_tenants : Limits → ℤ → Checked
unfolding check_count
check_tenants l current = check_count current l.max_tenants

unfoldable pub check_total_connections : Limits → ℤ → Checked
unfolding check_value
check_total_connections l current = check_value current l.max_total_connections

unfoldable pub check_shards : Limits → ℤ → Checked
unfolding check_value
check_shards l current = check_value current l.max_shards

unfoldable pub check_topics_per_tenant : Limits → ℤ → Checked
unfolding check_count
check_topics_per_tenant l current = check_count current l.max_topics_per_tenant

unfoldable pub check_routing_rules_per_tenant : Limits → ℤ → Checked
unfolding check_value
check_routing_rules_per_tenant l current = check_value current l.max_routing_rules_per_tenant
