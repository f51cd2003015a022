-- ===== src/License/Tests.antt =====
-- Concrete license keys.
use sukko.Common.{
  ◌≡◌, refl, ◌≢◌, ◌↔◌, ◌⊎◌, true, false, some, none, [], ◌∷◌, ok, err, if◌then◌else◌, ◌==◌, nat_eq,
  list_eq,
}
use sukko.Common.Int.{pos}
use sukko.Common.Text.{codes}
use sukko.License.Edition.{pro, enterprise, community, edition_has_feature, features_monotone}
use sukko.License.Limits.{Limits, enterprise_limits}
use sukko.License.Manager.{
  LicenseClaims, LicenseError, license_unchanged, Manager, Parser, classify_replay, reload,
  reload_no_downgrade,
}
use sukko.License.Reload.{
  Installed, IsNewer, Keeps, push_all, classify_replay_iff, reload_lem, push_all-Keeps,
}

abbrev no_override : Limits
no_override = record enterprise_limits { edition = [] }

abbrev pro_claims : LicenseClaims
pro_claims = record {
  edition = pro;
  org = codes "acme";
  exp = pos 2000;
  iat = pos 100;
  nodes = pos 0;
  limits = no_override;
}

abbrev undated_claims : LicenseClaims
undated_claims = record pro_claims { edition = enterprise; iat = pos 0 }

abbrev low_claims : LicenseClaims
low_claims = record pro_claims { edition = community; iat = pos 200 }

abbrev parser : Parser
parser key =
    if key == codes "pro"
    then some pro_claims
    else if key == codes "low"
    then some low_claims
    else none

abbrev enterprise_manager : Manager
enterprise_manager = record {
  edition = enterprise;
  limits = enterprise_limits;
  claims = some undated_claims;
}

downgrade_retained : (reload_no_downgrade parser (codes "pro") enterprise_manager).1 ≡ ok false
unfolding reload_no_downgrade sukko.License.Edition.is_at_least
downgrade_retained = refl

downgrade_forced : (reload parser (codes "pro") enterprise_manager).0.edition ≡ pro
unfolding reload sukko.License.Edition.normalize
downgrade_forced = refl

reloaded : (reload parser (codes "pro") enterprise_manager).1 ≡ ok tt
unfolding reload
reloaded = refl

classify_replay_iff_example :
    ((classify_replay (some pro_claims) undated_claims ≡ ok tt)
      ↔ IsNewer (some pro_claims) undated_claims)
    × ((classify_replay (some pro_claims) undated_claims ≡ err license_unchanged)
        ↔ ((some pro_claims ≡ some undated_claims) × (undated_claims.iat ≢ pos 0)))
classify_replay_iff_example = classify_replay_iff (some pro_claims) undated_claims

reload_lem_example :
    let (m', outcome) = reload parser (codes "pro") enterprise_manager in
    ((e : LicenseError) × (outcome ≡ err e) × (m' ≡ enterprise_manager))
    ⊎ ((claims : LicenseClaims) × (outcome ≡ ok tt)
        × (parser (codes "pro") ≡ some claims)
        × IsNewer (some undated_claims) claims
        × Installed claims m')
reload_lem_example = reload_lem parser (codes "pro") enterprise_manager

push_all-Keeps_example :
    Keeps enterprise_manager (push_all parser (codes "pro" ∷ codes "low" ∷ []) enterprise_manager)
push_all-Keeps_example = push_all-Keeps parser (codes "pro" ∷ codes "low" ∷ []) enterprise_manager

higher_has_feature : edition_has_feature enterprise (codes "admin UI") ≡ true
unfolding edition_has_feature
higher_has_feature = features_monotone enterprise pro (codes "admin UI") refl refl
