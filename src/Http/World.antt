-- ===== src/Http/World.antt =====
-- internal/httpserver/server.go: what a handler changes. The disk is that of internal/storage; the
-- metadata is kept by internal/db, which the handlers use by the operations of `Metadata`.
use simplecontainerregistry.Base.{Bytes, Result, ok, List}
use simplecontainerregistry.Domain.{Action, Grant, RepositoryTag, RepositoryTagPolicy}
use simplecontainerregistry.Storage.Disk.{Disk, Step}
pub use simplecontainerregistry.Db.Tags.{UpsertRepositoryTagParams}

pub record Metadata (S : Type 0) : Type 0 where
  pub increment_usage_counter : Bytes → Action → Step S (Unit {0})
  pub mark_repository_pulled : Bytes → Bytes → Step S (Unit {0})
  pub audit : Bytes → Bytes → Step S (Unit {0})
  pub get_repository_tag_policy : Bytes → Step S RepositoryTagPolicy
  pub upsert_repository_tags : List UpsertRepositoryTagParams → Step S (Unit {0})
  pub delete_repository_manifest_reference : Bytes → Bytes → Bytes → Step S (Unit {0})
  pub get_repository_tag : Bytes → Bytes → Step S RepositoryTag
  pub list_grants_by_user : Bytes → Step S (List Grant)

pub record World (S : Type 0) : Type 0 where
  pub disk : Disk
  pub metadata : S

module _ {S : Type 0} {A : Type 0} where
  abbrev pub with_disk : S → Result A × Disk → Result A × World S
  with_disk s (r, d) = (r, record { disk = d; metadata = s })

  abbrev pub with_metadata : Disk → Result A × S → Result A × World S
  with_metadata d (r, s) = (r, record { disk = d; metadata = s })

  -- A step on the disk, and one on the metadata.
  abbrev pub on_disk : Step Disk A → Step (World S) A
  on_disk m w = with_disk w.metadata (m w.disk)

  abbrev pub on_metadata : Step S A → Step (World S) A
  on_metadata m w = with_metadata w.disk (m w.metadata)

  -- The result of a step as a value: what the code does next depends on it.
  abbrev pub attempt_value : Result A × World S → Result (Result A) × World S
  attempt_value (r, w) = (ok r, w)

  abbrev pub attempt : Step (World S) A → Step (World S) (Result A)
  attempt m w = attempt_value (m w)
