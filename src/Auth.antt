-- ===== src/Auth.antt =====
-- Authentication of the Core Backend: users, sessions, tokens and the authentication service.
pub mod Sessions
pub mod Users
pub mod Tokens
pub mod Action
pub mod Service
pub mod Password
pub mod Login
pub mod Resolve
pub mod Refresh
pub mod Rotation
pub mod Moves
pub mod Reuse
pub mod Revoked
