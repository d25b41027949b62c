-- ===== src/Tests/Push.antt =====
-- internal/httpserver/server.go: a push of a manifest whose blob is in the repository.
use simplecontainerregistry.Base.{
  ℕ, zero, suc, ◌<◌, Bytes, codes, elem, beq, Bool, true, false, List, [], ◌∷◌, ◌≡◌, refl, Option,
  none, some, All, arith, Result, ok, db_not_found,
}
use simplecontainerregistry.Base.Int.{pos}
use simplecontainerregistry.Storage.Digest.{Hashes, Descriptor}
use simplecontainerregistry.Storage.Path.{FilePath}
use simplecontainerregistry.Storage.Manifest.{ManifestJson, manifest_blob_digests}
use simplecontainerregistry.Storage.Disk.{Node, folder, file, Disk, return, fail}
use simplecontainerregistry.Http.Route.{method_put}
use simplecontainerregistry.Http.World.{Metadata, World}
use simplecontainerregistry.Http.Content.{ContentRequest, ContentResponse, handle_manifest}
use simplecontainerregistry.Http.Content.Available.{IsLinked, handle_manifest-IsLinked}
use simplecontainerregistry.Tests.Samples.{hashes, digest}

abbrev encoded : Bytes
encoded = codes "0000000000000000000000000000000000000000000000000000000000000000"

abbrev layer : Descriptor
layer = record {
  media_type = [];
  artifact_type = [];
  digest = digest;
  size = pos 1;
  annotations = [];
}

-- Every content is a manifest of the one layer.
abbrev json : ManifestJson
json = record {
  subject = λ content. none;
  blobs = λ content. some (record { config = none; layers = layer ∷ [] });
  digests = λ content. none;
  referrer = λ content. none;
  sizes = λ content. none;
}

abbrev metadata : Metadata ℕ
metadata = record {
  increment_usage_counter = λ repository action. return tt;
  mark_repository_pulled = λ repository reference. return tt;
  audit = λ action repository. return tt;
  get_repository_tag_policy = λ repository. fail db_not_found;
  upsert_repository_tags = λ params. return tt;
  delete_repository_manifest_reference = λ repository reference digest. return tt;
  get_repository_tag = λ repository tag. fail db_not_found;
  list_grants_by_user = λ user_id. return [];
}

abbrev link : FilePath
link = codes "repositories" ∷ codes "app" ∷ codes "blobs" ∷ codes "sha256" ∷ encoded ∷ []

abbrev before : World ℕ
before = record { disk = record { nodes = (link, file [] 0) ∷ []; now = 1 }; metadata = 0 }

abbrev request : ContentRequest
request = record {
  method = method_put;
  content_type = codes "m";
  query_tags = [];
  body = codes "{}";
}

abbrev no_regexp : Bytes → Option (Bytes → Bool)
no_regexp pattern = none

pushed : World ℕ
pushed =
    (handle_manifest [] hashes json no_regexp metadata (codes "1") (codes "app") digest request
      before).1

abbrev created : ContentResponse
created = record { status = 201; digest = digest; media_type = []; content = [] }

push :
    handle_manifest [] hashes json no_regexp metadata
      (codes "1")
      (codes "app")
      digest
      request
      before
    ≡ (ok created, pushed)
unfolding handle_manifest pushed simplecontainerregistry.Http.Content.put_handler
    simplecontainerregistry.Http.Content.put_checked
    simplecontainerregistry.Http.Content.blobs_available
    simplecontainerregistry.Http.Paging.manifest_tags simplecontainerregistry.Http.Paging.tags_loop
    simplecontainerregistry.Http.Tags.put_manifest_and_tags
    simplecontainerregistry.Storage.Garbage.with_repository_lock manifest_blob_digests
    simplecontainerregistry.Storage.Manifest.layers_loop
    simplecontainerregistry.Storage.Manifest.is_nondistributable_layer_media_type
    simplecontainerregistry.Base.has_prefix simplecontainerregistry.Base.elem
    simplecontainerregistry.Storage.Blobs.has_repository_blob
    simplecontainerregistry.Storage.Path.repository_blob_path
    simplecontainerregistry.Storage.Disk.stat simplecontainerregistry.Storage.Digest.verify_digest
    simplecontainerregistry.Storage.Manifests.chosen_digest
    simplecontainerregistry.Storage.Manifests.put_manifest_content
    simplecontainerregistry.Storage.Manifests.write_manifest
    simplecontainerregistry.Storage.Digest.digest_for_content
    simplecontainerregistry.Storage.Digest.digest_hash
    simplecontainerregistry.Storage.Digest.hex_encode
    simplecontainerregistry.Storage.Digest.hex_digit
    simplecontainerregistry.Storage.Path.manifest_digest_path
    simplecontainerregistry.Storage.Disk.mkdir_all simplecontainerregistry.Storage.Disk.mkdir_below
    simplecontainerregistry.Storage.Disk.write_file simplecontainerregistry.Storage.Disk.put_node
    simplecontainerregistry.Storage.Disk.touch simplecontainerregistry.Storage.Disk.parent
    simplecontainerregistry.Storage.Path.safe_repository_path
    simplecontainerregistry.Storage.Path.bad_part
    simplecontainerregistry.Storage.Path.sanitize_reference
    simplecontainerregistry.Storage.Path.is_reference_byte
    simplecontainerregistry.Storage.Path.safe_join simplecontainerregistry.Storage.Path.clean_loop
    simplecontainerregistry.Storage.Path.clean_step simplecontainerregistry.Storage.Path.segments_of
    simplecontainerregistry.Base.trim simplecontainerregistry.Base.trim_right
    simplecontainerregistry.Base.drop_while simplecontainerregistry.Base.contains
    simplecontainerregistry.Base.cut simplecontainerregistry.Base.strip_prefix
    simplecontainerregistry.Base.any simplecontainerregistry.Base.all
    simplecontainerregistry.Base.split simplecontainerregistry.Base.beq
    simplecontainerregistry.Storage.Digest.parse_digest
    simplecontainerregistry.Storage.Digest.check_digest
    simplecontainerregistry.Storage.Digest.digest_hex_length
    simplecontainerregistry.Storage.Digest.is_hex simplecontainerregistry.Storage.Disk.find
    simplecontainerregistry.Storage.Disk.same_path
push = refl

needed : elem digest (manifest_blob_digests json (codes "{}")) ≡ true
unfolding elem beq manifest_blob_digests simplecontainerregistry.Storage.Manifest.layers_loop
    simplecontainerregistry.Storage.Manifest.is_nondistributable_layer_media_type
    simplecontainerregistry.Base.has_prefix simplecontainerregistry.Base.strip_prefix
needed = refl

handle_manifest-IsLinked_example : IsLinked [] (codes "app") before.disk digest
handle_manifest-IsLinked_example =
    handle_manifest-IsLinked [] hashes json no_regexp metadata (codes "1") (codes "app") digest
      request before pushed created digest refl push refl needed
