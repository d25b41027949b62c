-- ===== src/Lib.antt =====
-- simplecontainerregistry: an OCI registry that keeps its content in a directory and its metadata in
-- SQLite. This library models the core of its Go code.
--
-- Domain         internal/domain/domain.go: roles, actions, grants, tags and tag policies.
-- Config, Config/Checks
--                internal/config/config.go: the configuration, Load and Validate.
-- Auth/Scope     internal/auth/scope.go: ParseScope, IntersectAccess, HasAccess and their helpers.
-- Auth/Password  internal/auth/password.go: secrets and their hashes.
-- Auth/Service, Auth/Token, Auth/Principal
--                internal/auth/service.go and token.go: accounts, and the tokens of users.
-- Db/Tables      internal/db/schema.go: the tables, and SQL statements on lists of rows.
-- Db/Users, Db/Grants, Db/Repositories, Db/Tags, Db/Policies, Db/Usage, Db/Settings, Db/Audit
--                internal/db/store.go: the methods of Store, each a step on the database.
-- Db/History     sequences of operations of the store, and what they reach from an empty database.
-- Db/Rows, Db/Counted, Db/Keyed, Db/Fitting, Db/Consistent, Db/Keeping, Db/Atomic
--                lemmas: rows, counters, keys, and steps that keep a property or fail as a whole.
-- Storage/Digest, Storage/Path, Storage/Manifest
--                internal/storage/filesystem.go: digests, paths, and what is read from manifests;
--                estimateManifestArtifactSize of internal/httpserver/server.go.
-- Storage/Disk   the operations of package os that the store uses, on a table of paths.
-- Storage/Manifests, Storage/Referrers, Storage/Blobs, Storage/Garbage
--                internal/storage/filesystem.go: the methods of Filesystem, each a step on the disk that
--                returns a result or an error.
-- Http/Route, Http/Access
--                internal/httpserver/server.go: parseRegistryRoute, and handleRegistry up to the handler.
-- Http/Token     internal/httpserver/server.go: handleToken, on the limits and the database.
-- Http/Limiter   internal/httpserver/auth_limit.go: the rate limits of authentication.
-- Http/Paging    internal/httpserver/server.go: handleTags, handleCatalog, manifestTags.
-- Http/Upload    internal/httpserver/server.go: the handlers of uploads, and appendUpload.
-- Http/Tags      internal/httpserver/server.go: linkManifestTagsLocked and what calls it.
-- Http/Content   internal/httpserver/server.go: handleBlob and handleManifest.
-- Http/World     the state of a handler: the disk, and the metadata behind an interface.
-- Base           shared: tests, lists of bytes, texts, results, int64, strconv, the order of strings.
-- Tests          concrete runs.
--
-- A handler takes a route and a principal, reads and writes the store and the metadata, and answers with
-- a status. A push stores a manifest by Storage/Manifests and sets its tags by Http/Tags; an upload
-- grows by Http/Upload and becomes a blob by Storage/Blobs. The handlers use the metadata by the
-- interface of Http/World, whose operations are those of Db. Http/Token checks the limits, authenticates
-- by Auth/Service, and issues a token of Auth/Token for the access that Auth/Scope computes.
--
-- A statement of SQL is a function on lists of rows: it fails when it breaks a constraint of the schema
-- or leaves the range of int64, and a transaction that fails changes nothing. Timestamps are instants,
-- as numbers of nanoseconds, and are compared as such.
--
-- Texts are lists of bytes. Numbers are unbounded where the code cannot leave its range, and int64 with
-- its wrap-around where it can: sizes of manifests, and limits of uploads. Case folding and white space
-- are those of ASCII. Loops are structural; only the client that follows pages has fuel, one more
-- than the number of the values.
--
-- Parameters: sha256 and sha512, of which the length of the sum is used; the decoders of encoding/json
-- and of YAML; base64, argon2 and jwt; regexp; net/url and net; the texts of times and of durations; the
-- clock and random bytes; for the handlers, the validation of bearer tokens and the metadata.
--
-- Not modelled: faults of the disk and of the database such as a full device, permissions, the sets of
-- locks (an operation is one step), the texts of errors, the user interface and the administration
-- interface, webhooks, and the wiring of cmd/simplecontainerregistry.
pub mod Base
pub mod Domain
pub mod Config
pub mod Auth
pub mod Db
pub mod Storage
pub mod Http
pub mod Tests
