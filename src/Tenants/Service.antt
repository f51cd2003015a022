-- ===== src/Tenants/Service.antt =====
-- ws/internal/provisioning/service.go: the state that the service works on, and the calls it makes. An
-- operation is one step of `World`: the tables, the calls of Kafka, the events, the audit log and
-- the gauge of active tenants, each log with the newest entry first. Logs and other metrics are
-- left out, and so are the replication factor of a topic and the texts of errors.
use sukko.Common.{ℕ, ◌+◌, Bool, true, false, Option, List, [], ◌∷◌, Result, ok, err, if◌then◌else◌}
use sukko.Common.Int.{ℤ, suc_ℤ, pred_ℤ}
use sukko.Common.Text.{Text}
use sukko.ChannelRules.{ChannelRules}
use sukko.Routing.{default_topic_suffix, dead_letter_topic_suffix}
use sukko.Kafka.{build_topic_name}
use sukko.License.Limits.{Limits}
use sukko.Topics.{TopicRoutingRule}
use sukko.Tenants.{Tenant, TenantKey, ValidationError}
use sukko.Tenants.Store.{StoreError, unavailable}
use sukko.Tenants.KeyStore.{ApiKey, TenantQuota}

-- The stores that may be nil are the Boolean fields; `limits` is the edition manager's.
pub record ServiceConfig : Type 0 where
  pub topic_namespace : Text
  pub default_partitions : ℕ
  pub default_retention_ms : ℕ
  pub dead_letter_topic_partitions : ℕ
  pub dead_letter_topic_retention_ms : ℕ
  pub max_topics_per_tenant : ℕ
  pub max_storage_bytes : ℕ
  pub default_producer_rate : ℕ
  pub default_consumer_rate : ℕ
  pub deprovision_grace_days : ℕ
  pub slug_rename_topic_hold_period : ℕ
  pub limits : Option Limits
  pub has_routing_rules : Bool
  pub has_api_keys : Bool
  pub has_channel_rules : Bool

pub data ServiceError : Type 0 where
  invalid_tenant invalid_key : ValidationError → ServiceError
  slug_reserved edition_limit tenant_deleted tenant_not_active : ServiceError
  slug_immutable_via_patch slug_unchanged slug_rename_in_progress : ServiceError
  slug_taken key_not_owned_by_tenant invalid_quota topic_creation_failed acl_creation_failed :
      ServiceError
  store_failed : StoreError → ServiceError

pub data EventType : Type 0 where
  keys_changed tenant_config_changed topics_changed api_keys_changed : EventType

-- The calls of KafkaAdmin, with what they are given.
pub data KafkaCall : Type 0 where
  create_topic : Text → ℕ → ℕ → KafkaCall
  delete_topic : Text → KafkaCall
  set_retention : Text → ℕ → KafkaCall
  delete_topic_acl delete_group_acl : Text → KafkaCall
  create_topic_acls delete_topic_acls delete_quota : Text → KafkaCall
  set_quota : Text → ℤ → ℤ → KafkaCall

pub data TopicCreation : Type 0 where
  topic_created topic_already_exists topic_refused : TopicCreation

-- The calls of the database that may fail.
pub data StoreCall : Type 0 where
  get_tenant get_tenant_by_new_slug list_renames count_active_tenants count_tenants
        create_tenant_row update_tenant_row :
      StoreCall
  update_status_row set_deprovision_row set_rename_row update_slug_row : StoreCall
  clear_rename_row create_quota_row get_quota_row create_key get_key_row : StoreCall
  create_api_key get_api_key update_quota_row revoke_key revoke_all_keys list_api_keys
        revoke_api_key get_routing_rules :
      StoreCall
  delete_routing_rules delete_channel_rules write_audit_entry list_deletions : StoreCall

-- What an operation meets: which calls fail, what Kafka answers, the clock, the identifier that the
-- database generates and uuid.Parse.
pub record Env : Type 0 where
  pub fails : StoreCall → Bool
  pub topic_creation : Text → TopicCreation
  pub kafka_fails : KafkaCall → Bool
  pub now : ℕ
  pub new_id : Text
  pub is_uuid : Text → Bool

pub record World : Type 0 where
  pub tenants : List Tenant
  pub keys : List TenantKey
  pub api_keys : List ApiKey
  pub routing_rules : List (Text × List TopicRoutingRule)
  pub channel_rules : List (Text × ChannelRules)
  pub quotas : List (Text × TenantQuota)
  pub kafka_calls : List KafkaCall
  pub events : List EventType
  pub audit : List (Text × Text)
  pub audit_write_failures : ℕ
  pub active_tenants : ℤ

abbrev pub Outcome {ℓ} : Type ℓ → Type ℓ
Outcome A = World × Result ServiceError A

-- The result of a call of the database, which may have failed.
abbrev pub stored {ℓ} : {A : Type ℓ} → Bool → Result StoreError A → Result ServiceError A
stored true r = err (store_failed unavailable)
stored false (ok a) = ok a
stored false (err e) = err (store_failed e)

unfoldable pub call : KafkaCall → World → World
call c w = record w { kafka_calls = c ∷ w.kafka_calls }

unfoldable pub emit_event : EventType → World → World
emit_event e w = record w { events = e ∷ w.events }

unfoldable pub audit_log : Env → Text → Text → World → World
audit_log env tenant_id action w =
    if env.fails write_audit_entry
    then record w { audit_write_failures = w.audit_write_failures + 1 }
    else record w { audit = (tenant_id, action) ∷ w.audit }

unfoldable pub inc_active_tenants : World → World
inc_active_tenants w = record w { active_tenants = suc_ℤ w.active_tenants }

unfoldable pub dec_active_tenants : World → World
dec_active_tenants w = record w { active_tenants = pred_ℤ w.active_tenants }

pub record InfraTopicSpec : Type 0 where
  pub suffix : Text
  pub partitions : ℕ
  pub retention_ms : ℕ

abbrev pub dead_letter_spec : ServiceConfig → InfraTopicSpec
dead_letter_spec config = record {
  suffix = dead_letter_topic_suffix;
  partitions = config.dead_letter_topic_partitions;
  retention_ms = config.dead_letter_topic_retention_ms;
}

abbrev pub default_spec : ServiceConfig → InfraTopicSpec
default_spec config = record {
  suffix = default_topic_suffix;
  partitions = config.default_partitions;
  retention_ms = config.default_retention_ms;
}

unfoldable pub infra_topic_specs : ServiceConfig → List InfraTopicSpec
infra_topic_specs config = dead_letter_spec config ∷ default_spec config ∷ []

abbrev pub topic_name : ServiceConfig → Text → Text → Text
topic_name config slug suffix = build_topic_name config.topic_namespace slug suffix

unfoldable pub create_infra_topic : ServiceConfig → Text → InfraTopicSpec → World → World
unfolding call
create_infra_topic config slug spec w =
    call (create_topic (topic_name config slug spec.suffix) spec.partitions spec.retention_ms) w
