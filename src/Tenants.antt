-- ===== src/Tenants.antt =====
-- The tenants of ws/internal/provisioning: types.go, with the reserved slugs of service.go. Times are
-- Unix times. The metadata is the text of its JSON document; `created_at` and `updated_at` are left
-- out, since no operation reads them, and so are the messages of the errors.
pub mod Store
pub mod KeyStore
pub mod Service
pub mod Create
pub mod LifeCycle
pub mod Deletion
pub mod Rename
pub mod Credentials
pub mod Rows
pub mod Status
pub mod Stages
pub mod Frames
pub mod Gauge
pub mod DeletionGauge
pub mod SweepGauge
pub mod CreateGauge
pub mod RenameGauge
pub mod CredentialFrames
pub mod History
pub mod Saga
pub mod EditionLimit
pub mod Access
pub mod ForceDelete
pub mod Kin
pub mod Renaming
pub mod Grace
mod Tests
use sukko.Common.{
  ℕ, ◌≡◌, ◌↔◌, Bool, true, false, not, ◌&&◌, ◌||◌, Option, List, [], ◌∷◌, Result, ok, err, arith,
  length, if◌then◌else◌, ltb, leb, nat_beq, all, Equality, ◌==◌, nat_eq, list_eq, contains, ◌>>◌,
}
use sukko.Common.Text.{Text, codes}

pub data TenantStatus : Type 0 where
  status_active status_suspended status_deprovisioning status_deleted : TenantStatus

abbrev status_code : TenantStatus → ℕ
status_code status_active = 0
status_code status_suspended = 1
status_code status_deprovisioning = 2
status_code status_deleted = 3

abbrev status_beq : TenantStatus → TenantStatus → Bool
status_beq a b = nat_beq (status_code a) (status_code b)

pub status_beq_iff : (a b : TenantStatus) → (status_beq a b ≡ true) ↔ (a ≡ b)
status_beq_iff a b = ground arith

instance abbrev pub status_eq : Equality TenantStatus
status_eq = record { same = status_beq; same_iff = status_beq_iff }

pub data SlugRenameState : Type 0 where
  rename_pending rename_complete : SlugRenameState

abbrev pub ConsumerType : Type 0
ConsumerType = Text

abbrev pub consumer_shared : ConsumerType
consumer_shared = codes "shared"

abbrev pub consumer_dedicated : ConsumerType
consumer_dedicated = codes "dedicated"

pub record Tenant : Type 0 where
  pub id : Text
  pub slug : Text
  pub name : Text
  pub status : TenantStatus
  pub consumer_type : ConsumerType
  pub metadata : Text
  pub previous_slug : Text
  pub slug_rename_state : Option SlugRenameState
  pub slug_renamed_at : Option ℕ
  pub suspended_at : Option ℕ
  pub deprovision_at : Option ℕ
  pub deleted_at : Option ℕ

pub data ValidationError : Type 0 where
  slug_invalid name_invalid consumer_type_invalid key_invalid tenant_id_invalid : ValidationError

abbrev pub Validated : Type 0
Validated = Result ValidationError (Unit {0})

abbrev is_lower : ℕ → Bool
is_lower c = leb b'a' c && leb c b'z'

abbrev is_slug_byte : ℕ → Bool
is_slug_byte c = is_lower c || (leb b'0' c && leb c b'9') || c == b'-'

-- The expression ^[a-z][a-z0-9-]{2,62}$ of tenantSlugPattern and keyIDPattern.
unfoldable pub matches_slug_pattern : Text → Bool
matches_slug_pattern [] = false
matches_slug_pattern (c ∷ s) =
    is_lower c && leb 2 (length s) && leb (length s) 62 && all is_slug_byte s

unfoldable pub validate_slug : Text → Validated
validate_slug slug = if matches_slug_pattern slug then ok tt else err slug_invalid

unfoldable pub consumer_type_is_valid : ConsumerType → Bool
consumer_type_is_valid c = c == consumer_shared || c == consumer_dedicated

-- Tenant.Validate.
unfoldable pub validate_tenant : Tenant → Validated
unfolding validate_slug consumer_type_is_valid
validate_tenant t =
    validate_slug t.slug
    >> (if t.name == []
        then err name_invalid
        else if ltb 256 (length t.name)
        then err name_invalid
        else if not (consumer_type_is_valid t.consumer_type)
        then err consumer_type_invalid
        else ok tt)

abbrev pub Algorithm : Type 0
Algorithm = Text

unfoldable pub algorithm_is_valid : Algorithm → Bool
algorithm_is_valid a = a == codes "ES256" || a == codes "RS256" || a == codes "EdDSA"

pub record TenantKey : Type 0 where
  pub key_id : Text
  pub tenant_id : Text
  pub algorithm : Algorithm
  pub public_key : Text
  pub is_active : Bool
  pub expires_at : Option ℕ
  pub revoked_at : Option ℕ

unfoldable pub validate_key_id : Text → Validated
validate_key_id id = if matches_slug_pattern id then ok tt else err key_invalid

unfoldable pub validate_key_input : Text → Algorithm → Text → Validated
unfolding validate_key_id algorithm_is_valid
validate_key_input key_id algorithm public_key =
    validate_key_id key_id
    >> (if not (algorithm_is_valid algorithm)
        then err key_invalid
        else if public_key == []
        then err key_invalid
        else if ltb (length public_key) 50
        then err key_invalid
        else ok tt)

-- TenantKey.Validate; `is_uuid` is uuid.Parse of a third-party package.
unfoldable pub validate_key : (Text → Bool) → TenantKey → Validated
unfolding validate_key_input
validate_key is_uuid k =
    validate_key_input k.key_id k.algorithm k.public_key
    >> (if is_uuid k.tenant_id then ok tt else err tenant_id_invalid)

unfoldable pub reserved_slugs : List Text
reserved_slugs =
    codes "admin"
    ∷ codes "api"
    ∷ codes "health"
    ∷ codes "ready"
    ∷ codes "metrics"
    ∷ codes "version"
    ∷ codes "edition"
    ∷ codes "config"
    ∷ codes "debug"
    ∷ codes "internal"
    ∷ codes "system"
    ∷ codes "sukko"
    ∷ codes "keys"
    ∷ codes "api-keys"
    ∷ codes "routing-rules"
    ∷ codes "quotas"
    ∷ codes "audit"
    ∷ codes "channel-rules"
    ∷ codes "tokens"
    ∷ codes "suspend"
    ∷ codes "reactivate"
    ∷ codes "rename"
    ∷ codes "test-access"
    ∷ []

unfoldable pub is_reserved_slug : Text → Bool
unfolding contains reserved_slugs
is_reserved_slug s = contains reserved_slugs s
