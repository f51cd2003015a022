-- ===== src/License/Covers.antt =====
-- What it means that limits cover others: whatever the others permit is permitted.
use sukko.Common.{◌≡◌, true, ok, arith, nat_eq, list_eq}
use sukko.Common.Int.{ℤ, int_eq}
use sukko.License.Limits.{
  Limits, dimension_covers, covers_at_least, check_count, check_value, check_tenants,
  check_total_connections, check_shards, check_topics_per_tenant, check_routing_rules_per_tenant,
}

dimension_refl : (a : ℤ) → dimension_covers a a ≡ true
unfolding dimension_covers
dimension_refl a = ground arith

dimension_trans :
    (a b c : ℤ)
    → dimension_covers a b ≡ true
    → dimension_covers b c ≡ true
    → dimension_covers a c ≡ true
unfolding dimension_covers
dimension_trans a b c h k = ground arith

count_covered :
    (current have want : ℤ)
    → dimension_covers have want ≡ true
    → check_count current want ≡ ok tt
    → check_count current have ≡ ok tt
unfolding dimension_covers check_count
count_covered current have want h k = ground arith

value_covered :
    (current have want : ℤ)
    → dimension_covers have want ≡ true
    → check_value current want ≡ ok tt
    → check_value current have ≡ ok tt
unfolding dimension_covers check_value
value_covered current have want h k = ground arith

pub covers_refl : (l : Limits) → covers_at_least l l ≡ true
unfolding covers_at_least
covers_refl l = ground (
  arith,
  dimension_refl l.max_tenants,
  dimension_refl l.max_total_connections,
  dimension_refl l.max_shards,
  dimension_refl l.max_topics_per_tenant,
  dimension_refl l.max_routing_rules_per_tenant,
)

pub covers_trans :
    (l m n : Limits)
    → covers_at_least l m ≡ true
    → covers_at_least m n ≡ true
    → covers_at_least l n ≡ true
unfolding covers_at_least
covers_trans l m n h k = ground (
  arith,
  dimension_trans l.max_tenants m.max_tenants n.max_tenants,
  dimension_trans l.max_total_connections m.max_total_connections n.max_total_connections,
  dimension_trans l.max_shards m.max_shards n.max_shards,
  dimension_trans l.max_topics_per_tenant m.max_topics_per_tenant n.max_topics_per_tenant,
  dimension_trans l.max_routing_rules_per_tenant m.max_routing_rules_per_tenant
      n.max_routing_rules_per_tenant,
)

-- Whatever value passes a check under the other limits passes it under these.
abbrev pub Permits : Limits → ℤ → Limits → Type 0
Permits l current other =
    (check_tenants other current ≡ ok tt → check_tenants l current ≡ ok tt)
    × (check_total_connections other current ≡ ok tt → check_total_connections l current ≡ ok tt)
    × (check_shards other current ≡ ok tt → check_shards l current ≡ ok tt)
    × (check_topics_per_tenant other current ≡ ok tt → check_topics_per_tenant l current ≡ ok tt)
    × (check_routing_rules_per_tenant other current ≡ ok tt
        → check_routing_rules_per_tenant l current ≡ ok tt)

-- Limits that cover others permit whatever the others permit, in all five checks.
pub covers-Permits :
    (l other : Limits) (current : ℤ) → covers_at_least l other ≡ true → Permits l current other
unfolding covers_at_least check_tenants check_total_connections check_shards check_topics_per_tenant
    check_routing_rules_per_tenant
covers-Permits l other current h = (
  λ k. count_covered current l.max_tenants other.max_tenants (ground arith) k,
  λ k. value_covered current l.max_total_connections other.max_total_connections (ground arith) k,
  λ k. value_covered current l.max_shards other.max_shards (ground arith) k,
  λ k. count_covered current l.max_topics_per_tenant other.max_topics_per_tenant (ground arith) k,
  λ k.
      value_covered current l.max_routing_rules_per_tenant other.max_routing_rules_per_tenant
        (ground arith) k,
)
