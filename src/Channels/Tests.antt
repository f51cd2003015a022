-- ===== src/Channels/Tests.antt =====
-- Concrete channels and patterns.
use sukko.Common.{◌≡◌, refl, ◌↔◌, true, false, some, nat_eq, list_eq, arith}
use sukko.Common.Text.{codes, has_prefix}
use sukko.Channels.{validate_channel_tenant}
use sukko.Channels.Names.{validate_channel_tenant_iff}
use sukko.Kafka.{extract_tenant}

other_tenant : validate_channel_tenant (codes "acme2.trade") (codes "acme") ≡ false
unfolding validate_channel_tenant has_prefix
other_tenant = refl

validate_channel_tenant_iff_example :
    (validate_channel_tenant (codes "acme.news") (codes "acme") ≡ true)
    ↔ (extract_tenant (codes "acme.news") ≡ some (codes "acme"))
validate_channel_tenant_iff_example =
    validate_channel_tenant_iff (codes "acme.news") (codes "acme") (ground arith)
