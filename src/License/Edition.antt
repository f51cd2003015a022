-- ===== src/License/Edition.antt =====
-- edition.go and features.go of ws/internal/shared/license: the order of the editions and the edition
-- that each feature needs. An edition and a feature are the texts that they are in Go.
use sukko.Common.{
  ℕ, ◌≡◌, Bool, true, none, some, List, [], ◌∷◌, arith, if◌then◌else◌, leb, ◌==◌, nat_eq, list_eq,
}
use sukko.Common.Map.{lookup}
use sukko.Common.Text.{Text, codes}

abbrev pub Edition : Type 0
Edition = Text

abbrev pub community : Edition
community = codes "community"

abbrev pub pro : Edition
pro = codes "pro"

abbrev pub enterprise : Edition
enterprise = codes "enterprise"

-- editionRank; a missing key reads as 0.
unfoldable pub edition_rank : Edition → ℕ
edition_rank e = if e == pro then 1 else if e == enterprise then 2 else 0

unfoldable pub normalize : Edition → Edition
normalize e = if e == [] then community else e

unfoldable pub is_at_least : Edition → Edition → Bool
unfolding edition_rank normalize
is_at_least e other = leb (edition_rank (normalize other)) (edition_rank (normalize e))

unfoldable pub feature_editions : List (Text × Edition)
feature_editions =
    (codes "CHANNEL_RULES", community)
    ∷ (codes "MESSAGE_BACKEND=kafka", community)
    ∷ (codes "message history", community)
    ∷ (codes "live gap recovery", community)
    ∷ (codes "REST publish", community)
    ∷ (codes "CHANNEL_TOPIC_ROUTING", community)
    ∷ (codes "TENANT_CONNECTION_LIMIT_ENABLED", pro)
    ∷ (codes "ALERT_ENABLED", pro)
    ∷ (codes "per-tenant configurable quotas", pro)
    ∷ (codes "tenant lifecycle manager", pro)
    ∷ (codes "connection tracing", pro)
    ∷ (codes "SSE transport", pro)
    ∷ (codes "real-time analytics", pro)
    ∷ (codes "admin UI", pro)
    ∷ (codes "token revocation", pro)
    ∷ (codes "webhook delivery", pro)
    ∷ (codes "connections management API", pro)
    ∷ (codes "web push notifications", pro)
    ∷ (codes "real-time analytics for push", pro)
    ∷ (codes "egress topics", pro)
    ∷ (codes "channel patterns (CEL)", pro)
    ∷ (codes "delta compression", pro)
    ∷ (codes "audit logging", enterprise)
    ∷ (codes "mobile push notifications (FCM + APNs)", enterprise)
    ∷ (codes "per-tenant IP allowlisting", enterprise)
    ∷ (codes "priority message routing", enterprise)
    ∷ (codes "custom quota policies", enterprise)
    ∷ []

unfoldable pub required_edition : Text → Edition
unfolding feature_editions lookup
required_edition feature = elim (lookup feature feature_editions) [
  | none ↦ community
  | some edition ↦ edition
]

unfoldable pub edition_has_feature : Edition → Text → Bool
unfolding is_at_least required_edition
edition_has_feature edition feature = is_at_least edition (required_edition feature)

pub is_at_least_refl : (e : Edition) → is_at_least e e ≡ true
unfolding is_at_least
is_at_least_refl e = ground arith

pub is_at_least_trans :
    (e f g : Edition) → is_at_least e f ≡ true → is_at_least f g ≡ true → is_at_least e g ≡ true
unfolding is_at_least
is_at_least_trans e f g h k = ground arith

-- An edition that is at least another has every feature that the other has.
pub features_monotone :
    (e f : Edition) (feature : Text)
    → is_at_least e f ≡ true
    → edition_has_feature f feature ≡ true
    → edition_has_feature e feature ≡ true
unfolding edition_has_feature
features_monotone e f feature h k = is_at_least_trans e f (required_edition feature) h k
