-- ===== src/Auth/Principal.antt =====
-- internal/auth/token.go: who a token stands for.
use simplecontainerregistry.Base.{Bytes, List}
use simplecontainerregistry.Domain.{Role}
use simplecontainerregistry.Auth.Scope.{AccessClaim}

pub record Principal : Type 0 where
  pub user_id : Bytes
  pub username : Bytes
  pub role : Role
  pub access : List AccessClaim
