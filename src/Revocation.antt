-- ===== src/Revocation.antt =====
-- Token revocation: the snapshot that the gateway keeps of the revocations
-- (ws/internal/shared/provapi/revocation_stream.go) and the live connections that it closes
-- (ws/internal/gateway/connection_registry.go, gateway.go), and the store of provisioning
-- (ws/internal/provisioning/revocation/store.go).
pub mod Stream
pub mod Registry
pub mod Store
pub mod Closing
pub mod Race
pub mod Agreement
mod Tests
