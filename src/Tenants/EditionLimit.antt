-- ===== src/Tenants/EditionLimit.antt =====
-- CreateTenant: the rows that a call leaves when it succeeds, and the limit of the edition when calls
-- overlap.
use sukko.Common.{
  Bool, err, [], if◌then◌else◌, ◌==◌, ℕ, ◌-◌, ◌+◌, ◌≤◌, ◌<◌, ◌≡◌, sym, ap, ◌∙◌, inl, inr, false,
  some, List, ◌∷◌, ok, arith, nat_eq, list_eq, contains, Bool-cases, Result-cases,
}
use sukko.Common.Int.{pos}
use sukko.License.Limits.{Limits, check_tenants, check_count, is_unlimited}
use sukko.Tenants.{Tenant, status_eq}
use sukko.Tenants.Store.{create_row, count, count_where}
use sukko.Tenants.Service.{
  stored, create_tenant_row, inc_active_tenants, call, ServiceConfig, count_tenants, Env, World,
}
use sukko.Tenants.Create.{
  finish_tenant, CreateTenantRequest, tenant_of, admit_tenant, check_edition, provision_topics,
  insert_tenant, create_tenant,
}
use sukko.Tenants.Rows.{ids}
use sukko.Tenants.Frames.{provision_topics-Framed, finish_tenant-Framed}
use sukko.Tenants.Gauge.{stored_ok}
use sukko.Tenants.CreateGauge.{create_row_lem}
use sukko.Tenants.Saga.{inserted_lem}

check_edition_lem :
    (config : ServiceConfig) (env : Env) (limits : Limits) (max : ℕ) (rows : List Tenant)
    → config.limits ≡ some limits
    → limits.max_tenants ≡ pos max
    → 0 < max
    → check_edition config env rows ≡ ok tt
    → count rows < max
unfolding check_tenants check_count is_unlimited
check_edition_lem config env limits max rows has bound positive h =
    elim (Bool-cases (env.fails count_tenants)) [
      | inl fails ↦ absurd (ground (arith, has, fails, h))
      | inr counts ↦ ground (arith, has, bound, counts, h, positive)
    ]

admit_tenant-edition :
    (config : ServiceConfig) (env : Env) (req : CreateTenantRequest) (rows : List Tenant)
    → admit_tenant config env req rows ≡ ok tt
    → check_edition config env rows ≡ ok tt
unfolding admit_tenant
admit_tenant-edition config env req rows h = ground (arith, h)

-- What a call that succeeds has done to the rows.
pub created_lem :
    (config : ServiceConfig) (env : Env) (req : CreateTenantRequest) (w : World) (t : Tenant)
    → (create_tenant config env req w).1 ≡ ok t
    → ((create_tenant config env req w).0.tenants ≡ tenant_of env req ∷ w.tenants)
      × (contains (ids w.tenants) (tenant_of env req).id ≡ false)
unfolding create_tenant
created_lem config env req w t h =
    let new = tenant_of env req in
    let (w1, topics) = provision_topics config env req.slug w in
    let framed = provision_topics-Framed config env req.slug w in
    elim (Result-cases (admit_tenant config env req w.tenants)) [
      | inl (e, refused) ↦ absurd (ground (arith, refused, h))
      | inr (u, admitted) ↦ elim (Result-cases topics) [
        | inl (e, failed) ↦ absurd (ground (arith, admitted, failed, h))
        | inr ((a, b), ready) ↦
            let (w2, inserted) = insert_tenant config env new (a, b) w1 in
            elim (Result-cases inserted) [
              | inl (e, failed) ↦ absurd (ground (arith, admitted, ready, failed, h))
              | inr (v, done) ↦
                  let (rows, _, fresh) = inserted_lem config env new (a, b) w1 done in
                  let kept = finish_tenant-Framed config env new req.public_key w2 in
                  rw (create_tenant, admitted, ready, done)
                    (
                      kept.0 ∙ rows ∙ ap (◌∷◌ new) framed.0,
                      ap (λ r. contains (ids r) new.id) (sym framed.0) ∙ fresh,
                    )
            ]
      ]
    ]

-- Where CreateTenant has got to: nothing locks the table between the count of `admit_tenant` and the
-- insertion of the row, so the calls of other requests run in between.
pub data CreateStage : Type 0 where
  admits provisions finishes : Env → CreateTenantRequest → CreateStage
  inserts : Env → CreateTenantRequest → Bool × Bool → CreateStage

-- The world, and the number of the calls that were admitted and have neither inserted their row nor
-- failed.
pub record Creations : Type 0 where
  pub world : World
  pub pending : ℕ

-- One stage of one of the calls.
abbrev pub advance : ServiceConfig → CreateStage → Creations → Creations
advance config (admits env req) s = elim (admit_tenant config env req s.world.tenants) [
  | err e ↦ s
  | ok u ↦ record s { pending = s.pending + 1 }
]
advance config (provisions env req) s =
    let (w, topics) = provision_topics config env req.slug s.world in
    elim topics [
      | err e ↦ record { world = w; pending = s.pending - 1 }
      | ok here ↦ record s { world = w }
    ]
advance config (inserts env req here) s = if s.pending == 0 then s else record {
  world = (insert_tenant config env (tenant_of env req) here s.world).0;
  pending = s.pending - 1;
}
advance config (finishes env req) s = record s {
  world = (finish_tenant config env (tenant_of env req) req.public_key s.world).0;
}

abbrev pub advance_all : ServiceConfig → List CreateStage → Creations → Creations
advance_all config [] s = s
advance_all config (stage ∷ stages) s = advance_all config stages (advance config stage s)

-- At no time are more than `k` calls between their admission and their insertion.
abbrev pub Overlap : ServiceConfig → ℕ → List CreateStage → Creations → Type 0
Overlap config k [] s = s.pending ≤ k
Overlap config k (stage ∷ stages) s =
    (s.pending ≤ k) × Overlap config k stages (advance config stage s)

Overlap-now :
    (config : ServiceConfig) (k : ℕ) (stages : List CreateStage) (s : Creations)
    → Overlap config k stages s
    → s.pending ≤ k
Overlap-now config k [] s h = h
Overlap-now config k (stage ∷ stages) s h = h.0

insert_tenant-count :
    (config : ServiceConfig) (env : Env) (req : CreateTenantRequest) (here : Bool × Bool)
    (w : World)
    → count (insert_tenant config env (tenant_of env req) here w).0.tenants ≤ count w.tenants + 1
unfolding insert_tenant inc_active_tenants call count count_where tenant_of
insert_tenant-count config env req (a, b) w =
    let t = tenant_of env req in
    elim (Result-cases (stored (env.fails create_tenant_row) (create_row t w.tenants))) [
      | inl (e, failed) ↦ ground (arith, failed)
      | inr (rows, done) ↦
          let whole =
            (create_row_lem t w.tenants rows
              (stored_ok (env.fails create_tenant_row) (create_row t w.tenants) rows done)).0 in
          ground (arith, done, whole)
    ]

-- The rows that are there and those that may come stay below the limit and the overlap together.
abbrev Below : ℕ → ℕ → Creations → Type 0
Below max k s = count s.world.tenants + s.pending < max + k

advance-Below :
    (config : ServiceConfig) (limits : Limits) (max k : ℕ) (stage : CreateStage) (s : Creations)
    → config.limits ≡ some limits
    → limits.max_tenants ≡ pos max
    → 0 < max
    → (advance config stage s).pending ≤ k
    → Below max k s
    → Below max k (advance config stage s)
advance-Below config limits max k (admits env req) s has bound positive within below =
    elim (Result-cases (admit_tenant config env req s.world.tenants)) [
      | inl (e, refused) ↦ ground (arith, refused)
      | inr (u, admitted) ↦
          let room =
            check_edition_lem config env limits max s.world.tenants has bound positive
              (admit_tenant-edition config env req s.world.tenants admitted) in
          ground (arith, admitted, room, within)
    ]
advance-Below config limits max k (provisions env req) s has bound positive within below =
    let rows = (provision_topics-Framed config env req.slug s.world).0 in
    elim (Result-cases (provision_topics config env req.slug s.world).1) [
      | inl (e, failed) ↦ ground (arith, failed, ap count rows)
      | inr (here, made) ↦ ground (arith, made, ap count rows)
    ]
advance-Below config limits max k (inserts env req here) s has bound positive within below =
    ground (arith, insert_tenant-count config env req here s.world)
advance-Below config limits max k (finishes env req) s has bound positive within below =
    let rows = (finish_tenant-Framed config env (tenant_of env req) req.public_key s.world).0 in
    omega (arith, below, ap count rows)

-- However the stages of calls of CreateTenant interleave, under an edition that limits the tenants and
-- with at most `k` calls at a time between their check of the limit and the insertion of their row:
-- fewer tenants that are not deleted are there than the limit and `k` together, if that was so at the
-- beginning. Calls that do not overlap, where `k` is 1, keep the limit.
pub advance_all_bounded :
    (config : ServiceConfig) (limits : Limits) (max k : ℕ) (stages : List CreateStage)
    (s : Creations)
    → config.limits ≡ some limits
    → limits.max_tenants ≡ pos max
    → 0 < max
    → Overlap config k stages s
    → count s.world.tenants + s.pending < max + k
    → let s' = advance_all config stages s in count s'.world.tenants + s'.pending < max + k
advance_all_bounded config limits max k [] s has bound positive overlap below = below
advance_all_bounded config limits max k (stage ∷ stages) s has bound positive overlap below =
    let next = advance config stage s in
    advance_all_bounded config limits max k stages next has bound positive overlap.1 (
      advance-Below config limits max k stage s has bound positive
        (Overlap-now config k stages next overlap.1) below)
