-- ===== src/License/Manager.antt =====
-- manager.go and reload.go of ws/internal/shared/license: the current license and its reloading. The
-- lock makes each call one step. The verification of a key's signature and expiry, and what the JSON
-- of its claims decodes to, is the argument `parse_and_verify`.
use sukko.Common.{
  Bool, true, false, not, ◌&&◌, ◌||◌, Option, none, some, [], Result, ok, err, if◌then◌else◌, ◌==◌,
  nat_eq, list_eq,
}
use sukko.Common.Int.{ℤ, pos, ltb_ℤ, int_eq}
use sukko.Common.Text.{Text}
use sukko.License.Edition.{Edition, normalize, is_at_least}
use sukko.License.Limits.{Limits, resolve_limits, covers_at_least}

pub record LicenseClaims : Type 0 where
  pub edition : Edition
  pub org : Text
  pub exp : ℤ
  pub iat : ℤ
  pub nodes : ℤ
  pub limits : Limits

pub data LicenseError : Type 0 where
  no_license invalid_license license_unchanged replay_detected : LicenseError

pub record Manager : Type 0 where
  pub edition : Edition
  pub limits : Limits
  pub claims : Option LicenseClaims

abbrev pub Parser : Type 0
Parser = Text → Option LicenseClaims

abbrev pub limits_equal : Limits → Limits → Bool
limits_equal a b =
    a.edition == b.edition
    && a.max_tenants == b.max_tenants
    && a.max_total_connections == b.max_total_connections
    && a.max_shards == b.max_shards
    && a.max_topics_per_tenant == b.max_topics_per_tenant
    && a.max_routing_rules_per_tenant == b.max_routing_rules_per_tenant

-- The comparison of the structs, field by field.
unfoldable pub claims_equal : LicenseClaims → LicenseClaims → Bool
claims_equal a b =
    a.edition == b.edition
    && a.org == b.org
    && a.exp == b.exp
    && a.iat == b.iat
    && a.nodes == b.nodes
    && limits_equal a.limits b.limits

unfoldable pub classify_replay :
    Option LicenseClaims → LicenseClaims → Result LicenseError (Unit {0})
unfolding claims_equal
classify_replay none incoming = ok tt
classify_replay (some current) incoming =
    if current.iat == pos 0
    then ok tt
    else if ltb_ℤ current.iat incoming.iat
    then ok tt
    else if incoming.iat == current.iat && claims_equal current incoming
    then err license_unchanged
    else err replay_detected

-- applyLocked, without its log line and its gauge.
unfoldable pub apply_locked : LicenseClaims → Manager → Manager
apply_locked claims m =
    let edition = normalize claims.edition in
    record {
      edition = edition;
      limits = resolve_limits edition claims.limits;
      claims = some claims;
    }

-- NewManager.
unfoldable pub new_manager : Parser → Text → Result LicenseError Manager
new_manager parse_and_verify license_key =
    if license_key == [] then err no_license else elim (parse_and_verify license_key) [
      | none ↦ err invalid_license
      | some claims ↦ ok (record {
        edition = normalize claims.edition;
        limits = resolve_limits (normalize claims.edition) claims.limits;
        claims = some claims;
      })
    ]

unfoldable pub parse_and_check_replay : Parser → Manager → Text → Result LicenseError LicenseClaims
unfolding classify_replay
parse_and_check_replay parse_and_verify m key = elim (parse_and_verify key) [
  | none ↦ err invalid_license
  | some claims ↦ elim (classify_replay m.claims claims) [ err e ↦ err e | ok _ ↦ ok claims ]
]

unfoldable pub reload : Parser → Text → Manager → Manager × Result LicenseError (Unit {0})
unfolding parse_and_check_replay apply_locked
reload parse_and_verify key m = elim (parse_and_check_replay parse_and_verify m key) [
  | err e ↦ (m, err e)
  | ok claims ↦ (apply_locked claims m, ok tt)
]

-- The Boolean is `applied`.
unfoldable pub reload_no_downgrade : Parser → Text → Manager → Manager × Result LicenseError Bool
unfolding parse_and_check_replay apply_locked
reload_no_downgrade parse_and_verify key m = elim (parse_and_check_replay parse_and_verify m key) [
  | err e ↦ (m, err e)
  | ok claims ↦
      let new_edition = normalize claims.edition in
      let new_limits = resolve_limits new_edition claims.limits in
      if not (is_at_least new_edition m.edition) || not (covers_at_least new_limits m.limits)
      then (m, ok false)
      else (apply_locked claims m, ok true)
]
