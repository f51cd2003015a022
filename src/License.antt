-- ===== src/License.antt =====
-- ws/internal/shared/license: editions, features, limits and the reloading of a license key.
pub mod Edition
pub mod Limits
pub mod Covers
pub mod Manager
pub mod Reload
mod Tests
