-- ===== src/Throttle.antt =====
-- The in-memory throttles of backend/app/core: login attempts and password-reset requests.
pub mod Keys
pub mod Window
pub mod Store
pub mod Login
pub mod Reset
