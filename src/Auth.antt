-- ===== src/Auth.antt =====
-- internal/auth: what a token may do, and who may have one.
pub mod Scope
pub mod Password
pub mod Principal
pub mod Service
pub mod Token
