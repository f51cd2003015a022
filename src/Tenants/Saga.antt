-- ===== src/Tenants/Saga.antt =====
-- CreateTenant as a saga: what a call that fails leaves behind.
use sukko.Common.{
  ◌≡◌, refl, ap, ◌∙◌, ◌≢◌, ◌⊎◌, inl, inr, Bool, true, false, not, ◌&&◌, Option, none, some, List,
  [], ◌∷◌, ok, err, arith, if◌then◌else◌, ◌==◌, nat_eq, list_eq, eq_iff, contains, Result-cases,
}
use sukko.Common.Int.{suc_ℤ}
use sukko.Common.Text.{Text}
use sukko.Tenants.{Tenant, status_eq}
use sukko.Tenants.Store.{create_row}
use sukko.Tenants.Service.{
  ServiceConfig, ServiceError, KafkaCall, create_topic, delete_topic, topic_created,
  topic_already_exists, create_tenant_row, Env, World, stored, call, inc_active_tenants,
  create_infra_topic, topic_name, dead_letter_spec, default_spec,
}
use sukko.Tenants.Create.{
  CreateTenantRequest, CreateKeyRequest, tenant_of, admit_tenant, provision_topics, insert_tenant,
  finish_tenant, create_tenant, create_initial_key,
}
use sukko.Tenants.Rows.{ids}
use sukko.Tenants.Frames.{Framed, provision_topics-Framed, finish_tenant-Framed}
use sukko.Tenants.Gauge.{stored_ok}
use sukko.Tenants.CreateGauge.{create_row_lem}

-- Whether a topic is there after the logged calls, of which the first is the newest.
abbrev pub present : Env → (Text → Bool) → Text → List KafkaCall → Bool
present env initial name [] = initial name
present env initial name (create_topic n p r ∷ calls) =
    let before = present env initial name calls in
    if n == name then elim (env.topic_creation n) [ topic_created ↦ true | _ ↦ before ] else before
present env initial name (delete_topic n ∷ calls) =
    let before = present env initial name calls in
    if n == name && not (env.kafka_fails (delete_topic n)) then false else before
present env initial name (_ ∷ calls) = present env initial name calls

-- Kafka creates a topic only if it is not there.
abbrev pub Honest : Env → (Text → Bool) → List KafkaCall → Type 0
Honest env initial calls =
    (name : Text) → env.topic_creation name ≡ topic_created → present env initial name calls ≡ false

abbrev pub Deletes : Env → Type 0
Deletes env = (name : Text) → env.kafka_fails (delete_topic name) ≡ false

-- The tenants, the gauge and the topics are as before.
abbrev pub Restored : Env → (Text → Bool) → World → World → Type 0
Restored env initial w w' =
    Framed w w'
    × ((name : Text)
        → present env initial name w'.kafka_calls ≡ present env initial name w.kafka_calls)

provision_topics-Restored :
    (config : ServiceConfig) (env : Env) (initial : Text → Bool) (slug : Text) (e : ServiceError)
    (w : World)
    → Honest env initial w.kafka_calls
    → Deletes env
    → (provision_topics config env slug w).1 ≡ err e
    → Restored env initial w (provision_topics config env slug w).0
unfolding provision_topics create_infra_topic call
provision_topics-Restored config env initial slug e w honest deletes h = (
  provision_topics-Framed config env slug w,
  λ name. ground (
    arith,
    h,
    honest (topic_name config slug (dead_letter_spec config).suffix),
    deletes (topic_name config slug (dead_letter_spec config).suffix),
    eq_iff (topic_name config slug (dead_letter_spec config).suffix) name,
    ap (λ n. present env initial n w.kafka_calls),
  ),
)

-- What the first phase has done when it goes on.
provisioned :
    (config : ServiceConfig) (env : Env) (slug : Text) (a b : Bool) (w : World)
    → (provision_topics config env slug w).1 ≡ ok (a, b)
    → let d = dead_letter_spec config in
      let s = default_spec config in
      ((provision_topics config env slug w).0.kafka_calls
        ≡ create_topic (topic_name config slug s.suffix) s.partitions s.retention_ms
          ∷ create_topic (topic_name config slug d.suffix) d.partitions d.retention_ms
          ∷ w.kafka_calls)
      × (env.topic_creation (topic_name config slug d.suffix)
          ≡ (if a then topic_created else topic_already_exists))
      × (env.topic_creation (topic_name config slug s.suffix)
          ≡ (if b then topic_created else topic_already_exists))
unfolding provision_topics create_infra_topic call
provisioned config env slug a b w h = ground arith

insert_tenant-Restored :
    (config : ServiceConfig) (env : Env) (initial : Text → Bool) (t : Tenant) (a b : Bool)
    (e : ServiceError) (w : World)
    → Honest env initial w.kafka_calls
    → Deletes env
    → (provision_topics config env t.slug w).1 ≡ ok (a, b)
    → let w1 = (provision_topics config env t.slug w).0 in
      (insert_tenant config env t (a, b) w1).1 ≡ err e
      → Restored env initial w (insert_tenant config env t (a, b) w1).0
unfolding insert_tenant call
insert_tenant-Restored config env initial t a b e w honest deletes h f =
    let (calls, first, second) = provisioned config env t.slug a b w h in
    let w1 = (provision_topics config env t.slug w).0 in
    let framed = provision_topics-Framed config env t.slug w in
    let d = topic_name config t.slug (dead_letter_spec config).suffix in
    let s = topic_name config t.slug (default_spec config).suffix in
    elim (Result-cases (stored (env.fails create_tenant_row) (create_row t w1.tenants))) [
      | inr (rows, done) ↦ absurd (ground (arith, done, f))
      | inl (e', failed) ↦
          rw (insert_tenant, failed)
            (
              ground (arith, framed),
              λ name. ground (
                arith,
                calls,
                first,
                second,
                honest d,
                honest s,
                deletes d,
                deletes s,
                eq_iff d name,
                eq_iff s name,
                ap (λ n. present env initial n w.kafka_calls),
              ),
            )
    ]

-- What a call leaves when its initial key is refused: the tenant, counted.
abbrev pub Kept : Env → CreateTenantRequest → World → World → Type 0
Kept env req w w' =
    (w'.tenants ≡ tenant_of env req ∷ w.tenants)
    × (w'.active_tenants ≡ suc_ℤ w.active_tenants)
    × (req.public_key ≢ none)

finish_tenant-err :
    (config : ServiceConfig) (env : Env) (t : Tenant) (key : Option CreateKeyRequest) (w : World)
    (e : ServiceError)
    → (finish_tenant config env t key w).1 ≡ err e
    → key ≢ none
unfolding finish_tenant create_initial_key
finish_tenant-err config env t none w e h = absurd (ground arith)
finish_tenant-err config env t (some k) w e h = λ p. cc

pub inserted_lem :
    (config : ServiceConfig) (env : Env) (t : Tenant) (here : Bool × Bool) (w : World)
    → (insert_tenant config env t here w).1 ≡ ok tt
    → ((insert_tenant config env t here w).0.tenants ≡ t ∷ w.tenants)
      × ((insert_tenant config env t here w).0.active_tenants ≡ suc_ℤ w.active_tenants)
      × (contains (ids w.tenants) t.id ≡ false)
unfolding insert_tenant inc_active_tenants
inserted_lem config env t (a, b) w h =
    elim (Result-cases (stored (env.fails create_tenant_row) (create_row t w.tenants))) [
      | inl (e, failed) ↦ absurd (ground (arith, failed, h))
      | inr (rows, done) ↦
          let (e, fresh, _) =
            create_row_lem t w.tenants rows
              (stored_ok (env.fails create_tenant_row) (create_row t w.tenants) rows done) in
          rw (insert_tenant, done) (e, refl, fresh)
    ]

-- A call of CreateTenant that fails leaves the tenants, the gauge and the topics of Kafka as they
-- were, or it has created the tenant and failed on the initial key of the request. Kafka is taken to
-- create a topic only if it is not there, and to carry out the deletions of the rollback.
pub create_tenant-Restored :
    (config : ServiceConfig) (env : Env) (initial : Text → Bool) (req : CreateTenantRequest)
    (w : World) (e : ServiceError)
    → Honest env initial w.kafka_calls
    → Deletes env
    → (create_tenant config env req w).1 ≡ err e
    → Restored env initial w (create_tenant config env req w).0
      ⊎ Kept env req w (create_tenant config env req w).0
unfolding create_tenant tenant_of
create_tenant-Restored config env initial req w e honest deletes h =
    let t = tenant_of env req in
    let (w1, topics) = provision_topics config env req.slug w in
    let framed = provision_topics-Framed config env req.slug w in
    elim (Result-cases (admit_tenant config env req w.tenants)) [
      | inl (e1, refused) ↦ rw (create_tenant, refused) (inl ((refl, refl), λ name. refl))
      | inr (u, admitted) ↦ elim (Result-cases topics) [
        | inl (e1, failed) ↦
            rw (create_tenant, admitted, failed)
              (inl
                (provision_topics-Restored config env initial req.slug e1 w honest deletes failed))
        | inr ((a, b), ready) ↦
            let (w2, inserted) = insert_tenant config env t (a, b) w1 in
            elim (Result-cases inserted) [
              | inl (e1, failed) ↦
                  rw (create_tenant, admitted, ready, failed)
                    (inl (
                      insert_tenant-Restored config env initial t a b e1 w honest deletes ready
                        failed))
              | inr (v, done) ↦
                  let fails : (finish_tenant config env t req.public_key w2).1 ≡ err e =
                    rw (create_tenant, admitted, ready, done) at h in
                  let (rows, gauge, _) = inserted_lem config env t (a, b) w1 done in
                  let kept = finish_tenant-Framed config env t req.public_key w2 in
                  rw (create_tenant, admitted, ready, done)
                    (inr (
                      kept.0 ∙ rows ∙ ap (◌∷◌ t) framed.0,
                      kept.1 ∙ gauge ∙ ap suc_ℤ framed.1,
                      finish_tenant-err config env t req.public_key w2 e fails,
                    ))
            ]
      ]
    ]
