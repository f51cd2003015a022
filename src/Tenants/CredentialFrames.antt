-- ===== src/Tenants/CredentialFrames.antt =====
-- The operations on keys and quotas leave the tenants and the gauge as they are.
use sukko.Common.{arith}
use sukko.Common.Text.{Text}
use sukko.Tenants.Service.{Env, World, call, emit_event, audit_log}
use sukko.Tenants.Create.{CreateKeyRequest}
use sukko.Tenants.Credentials.{
  create_key_found, create_tenant_key, revoke_key_found, revoke_tenant_key, create_api_key_found,
  create_tenant_api_key, revoke_api_key_found, revoke_tenant_api_key, UpdateQuotaRequest,
  update_quota_found, update_quota,
}
use sukko.Tenants.Frames.{Framed}

pub create_tenant_key-Framed :
    (env : Env) (slug : Text) (req : CreateKeyRequest) (w : World)
    → Framed w (create_tenant_key env slug req w).0
unfolding create_tenant_key create_key_found emit_event audit_log
create_tenant_key-Framed env slug req w = ground arith

pub revoke_tenant_key-Framed :
    (env : Env) (slug key_id : Text) (w : World) → Framed w (revoke_tenant_key env slug key_id w).0
unfolding revoke_tenant_key revoke_key_found emit_event audit_log
revoke_tenant_key-Framed env slug key_id w = ground arith

pub create_tenant_api_key-Framed :
    (env : Env) (slug name : Text) (w : World) → Framed w (create_tenant_api_key env slug name w).0
unfolding create_tenant_api_key create_api_key_found emit_event audit_log
create_tenant_api_key-Framed env slug name w = ground arith

pub revoke_tenant_api_key-Framed :
    (env : Env) (slug key_id : Text) (w : World)
    → Framed w (revoke_tenant_api_key env slug key_id w).0
unfolding revoke_tenant_api_key revoke_api_key_found emit_event audit_log
revoke_tenant_api_key-Framed env slug key_id w = ground arith

pub update_quota-Framed :
    (env : Env) (slug : Text) (req : UpdateQuotaRequest) (w : World)
    → Framed w (update_quota env slug req w).0
unfolding update_quota update_quota_found call audit_log
update_quota-Framed env slug req w = ground arith
