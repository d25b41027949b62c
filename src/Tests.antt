-- ===== src/Tests.antt =====
-- Concrete runs: each theorem with hypotheses is applied where they hold.
mod Samples
mod Auth
mod Storage
mod Disk
mod Http
mod Push
mod Database
mod Accounts
mod Tokens
mod Config
