-- ===== src/Tests/Disk.antt =====
-- internal/storage: concrete runs on a disk.
use simplecontainerregistry.Base.{contains}
use simplecontainerregistry.Base.{err, Error, false, codes}
use simplecontainerregistry.Storage.Manifests.{has_colon, delete_manifest}
use simplecontainerregistry.Storage.Manifests.Untagged.{delete_manifest-unresolved}
use simplecontainerregistry.Storage.Disk.{is_within}
use simplecontainerregistry.Storage.Garbage.{collect_algorithms}
use simplecontainerregistry.Storage.Garbage.Kept.{collect_algorithms-content_at}
use simplecontainerregistry.Storage.Manifests.{
  link_manifest_tag, manifest_tag_digest, temporary_path,
}
use simplecontainerregistry.Storage.Manifests.Tagged.{link_manifest_tag-manifest_tag_digest}
use simplecontainerregistry.Storage.Manifests.Stored.{names_differ}
use simplecontainerregistry.Base.{◌≢◌, beq→ne}
use simplecontainerregistry.Storage.Path.{blob_path}
use simplecontainerregistry.Storage.Disk.{folder, file, node_at, is_folder}
use simplecontainerregistry.Storage.Disk.View.{content_at}
use simplecontainerregistry.Storage.Blobs.{commit_blob_from_upload, open_blob}
use simplecontainerregistry.Storage.Blobs.Committed.{commit_blob_from_upload-open_blob}
use simplecontainerregistry.Base.{
  ℕ, zero, suc, ◌+◌, ◌-◌, ◌^◌, ◌<◌, ◌≤◌, Bytes, codes, beq, elem, Bool, true, false, List, [], ◌∷◌,
  ◌++◌, ◌≡◌, ◌↔◌, ◌⊎◌, refl, inl, inr, Result, ok, Option, none, some, arith, length, All,
  trim_space,
}
use simplecontainerregistry.Storage.Digest.{
  Hashes, IsHash, sha256, sha512, parse_digest, digest_for_content, verify_digest,
}
use simplecontainerregistry.Storage.Digest.Computed.{}
use simplecontainerregistry.Storage.Path.{
  FilePath, bad_part, tag_path, safe_repository_path, sanitize_reference,
}
use simplecontainerregistry.Storage.Manifest.{manifest_digest_algorithm}
use simplecontainerregistry.Storage.Manifest.Blobs.{}
use simplecontainerregistry.Storage.Manifest.Size.{}
use simplecontainerregistry.Storage.Disk.{Node, Disk}
use simplecontainerregistry.Storage.Manifests.{get_manifest, put_manifest_content}
use simplecontainerregistry.Storage.Manifests.Stored.{put_manifest_content-get_manifest}
use simplecontainerregistry.Tests.Samples.{
  hashes, small_sizes, sized, root, tag_safe, empty_disk, digest,
}

stored_disk : Disk
stored_disk =
    (put_manifest_content root hashes (sized small_sizes) (codes "app") (codes "v1") (codes "m")
      (codes "{}") empty_disk).1

stored :
    put_manifest_content root hashes
      (sized small_sizes)
      (codes "app")
      (codes "v1")
      (codes "m")
      (codes "{}")
      empty_disk
    ≡ (ok (digest, 2), stored_disk)
unfolding put_manifest_content stored_disk simplecontainerregistry.Storage.Manifests.chosen_digest
    simplecontainerregistry.Storage.Manifests.write_manifest digest_for_content
    simplecontainerregistry.Storage.Digest.digest_hash
    simplecontainerregistry.Storage.Digest.hex_encode
    simplecontainerregistry.Storage.Digest.hex_digit manifest_digest_algorithm
    simplecontainerregistry.Storage.Path.manifest_digest_path
    simplecontainerregistry.Storage.Disk.mkdir_all simplecontainerregistry.Storage.Disk.mkdir_below
    simplecontainerregistry.Storage.Disk.write_file simplecontainerregistry.Storage.Disk.put_node
    simplecontainerregistry.Storage.Disk.touch simplecontainerregistry.Storage.Disk.parent
    simplecontainerregistry.Storage.Path.safe_repository_path
    simplecontainerregistry.Storage.Path.bad_part
    simplecontainerregistry.Storage.Path.sanitize_reference
    simplecontainerregistry.Storage.Path.is_reference_byte
    simplecontainerregistry.Storage.Path.safe_join simplecontainerregistry.Storage.Path.clean_loop
    simplecontainerregistry.Storage.Path.clean_step simplecontainerregistry.Storage.Path.segments_of
    simplecontainerregistry.Base.trim simplecontainerregistry.Base.trim_right
    simplecontainerregistry.Base.drop_while simplecontainerregistry.Base.contains
    simplecontainerregistry.Base.cut simplecontainerregistry.Base.strip_prefix
    simplecontainerregistry.Base.any simplecontainerregistry.Base.all
    simplecontainerregistry.Base.split simplecontainerregistry.Base.beq
    simplecontainerregistry.Storage.Digest.parse_digest
    simplecontainerregistry.Storage.Digest.check_digest
    simplecontainerregistry.Storage.Digest.digest_hex_length
    simplecontainerregistry.Storage.Digest.is_hex simplecontainerregistry.Storage.Disk.find
    simplecontainerregistry.Storage.Disk.same_path
stored = refl

put_manifest_content-get_manifest_example :
    get_manifest root (codes "app") digest stored_disk
    ≡ (ok (codes "{}", trim_space (codes "m"), digest), stored_disk)
put_manifest_content-get_manifest_example =
    put_manifest_content-get_manifest root hashes (sized small_sizes) (codes "app") (codes "v1")
      (codes "m") (codes "{}") digest 2 empty_disk stored_disk stored

abbrev upload_file : FilePath
upload_file = codes "srv" ∷ codes "u" ∷ []

abbrev upload_disk : Disk
upload_disk = record { nodes = (upload_file, file (codes "{}") 0) ∷ (root, folder 0) ∷ []; now = 1 }

abbrev blob_file : FilePath
blob_file =
    codes "srv"
    ∷ codes "blobs"
    ∷ codes "sha256"
    ∷ codes "00"
    ∷ codes "0000000000000000000000000000000000000000000000000000000000000000"
    ∷ []

blob_placed : blob_path root digest ≡ ok blob_file
unfolding blob_path simplecontainerregistry.Storage.Path.safe_join
    simplecontainerregistry.Storage.Path.clean_loop simplecontainerregistry.Storage.Path.clean_step
    simplecontainerregistry.Storage.Path.segments_of simplecontainerregistry.Base.split
    simplecontainerregistry.Base.cut simplecontainerregistry.Base.strip_prefix
    simplecontainerregistry.Base.all beq simplecontainerregistry.Storage.Digest.parse_digest
    simplecontainerregistry.Storage.Digest.check_digest
    simplecontainerregistry.Storage.Digest.digest_hex_length
    simplecontainerregistry.Storage.Digest.is_hex
blob_placed = refl

blob_free : is_folder (node_at blob_file upload_disk) ≡ false
unfolding simplecontainerregistry.Storage.Disk.find simplecontainerregistry.Storage.Disk.same_path
    beq
blob_free = refl

committed_disk : Disk
committed_disk = (commit_blob_from_upload root hashes upload_file digest upload_disk).1

committed :
    commit_blob_from_upload root hashes upload_file digest upload_disk ≡ (ok 2, committed_disk)
unfolding commit_blob_from_upload committed_disk blob_path
    simplecontainerregistry.Storage.Blobs.checked_content
    simplecontainerregistry.Storage.Blobs.place_blob digest_for_content
    simplecontainerregistry.Storage.Digest.digest_hash
    simplecontainerregistry.Storage.Digest.hex_encode
    simplecontainerregistry.Storage.Digest.hex_digit simplecontainerregistry.Storage.Path.safe_join
    simplecontainerregistry.Storage.Path.clean_loop simplecontainerregistry.Storage.Path.clean_step
    simplecontainerregistry.Storage.Path.segments_of simplecontainerregistry.Base.split
    simplecontainerregistry.Base.cut simplecontainerregistry.Base.strip_prefix
    simplecontainerregistry.Base.all beq simplecontainerregistry.Storage.Digest.parse_digest
    simplecontainerregistry.Storage.Digest.check_digest
    simplecontainerregistry.Storage.Digest.digest_hex_length
    simplecontainerregistry.Storage.Digest.is_hex simplecontainerregistry.Storage.Disk.read_file
    simplecontainerregistry.Storage.Disk.find simplecontainerregistry.Storage.Disk.same_path
    simplecontainerregistry.Storage.Disk.missing simplecontainerregistry.Storage.Disk.blocked
    simplecontainerregistry.Storage.Disk.mkdir_all simplecontainerregistry.Storage.Disk.mkdir_below
    simplecontainerregistry.Storage.Disk.parent simplecontainerregistry.Storage.Disk.put_node
    simplecontainerregistry.Storage.Disk.drop_node simplecontainerregistry.Storage.Disk.take_out
    simplecontainerregistry.Storage.Disk.touch simplecontainerregistry.Storage.Disk.rename
committed = refl

commit_blob_from_upload-open_blob_example :
    (content : Bytes) × (content_at upload_file upload_disk ≡ some content)
    × (2 ≡ length content)
    × (verify_digest hashes content digest ≡ ok tt)
    × (open_blob root digest committed_disk ≡ (ok content, committed_disk))
commit_blob_from_upload-open_blob_example =
    commit_blob_from_upload-open_blob root hashes upload_file digest blob_file 2 upload_disk
      committed_disk blob_placed blob_free committed

app_plain : safe_repository_path (codes "app") ≡ ok (codes "app")
unfolding safe_repository_path simplecontainerregistry.Base.trim
    simplecontainerregistry.Base.trim_right simplecontainerregistry.Base.drop_while
    simplecontainerregistry.Base.contains simplecontainerregistry.Base.cut
    simplecontainerregistry.Base.strip_prefix simplecontainerregistry.Base.any
    simplecontainerregistry.Base.split beq
app_plain = refl

abbrev app_tag : FilePath
app_tag = codes "srv" ∷ codes "repositories" ∷ codes "app" ∷ codes "tags" ∷ codes "v1" ∷ []

tag_at : tag_path root (codes "app") (codes "v1") ≡ app_tag
unfolding tag_path simplecontainerregistry.Storage.Path.safe_join
    simplecontainerregistry.Storage.Path.clean_loop simplecontainerregistry.Storage.Path.clean_step
    simplecontainerregistry.Storage.Path.segments_of simplecontainerregistry.Base.split beq
tag_at = refl

names_apart : beq (codes ".tag-9") (codes "v1") ≡ false
unfolding beq
names_apart = refl

temporary_elsewhere :
    temporary_path root (codes "9") (tag_path root (codes "app") (codes "v1"))
    ≢ tag_path root (codes "app") (codes "v1")
unfolding temporary_path simplecontainerregistry.Storage.Disk.parent
temporary_elsewhere = rw tag_at (
    names_differ (codes "srv" ∷ codes "repositories" ∷ codes "app" ∷ codes "tags" ∷ [])
      (codes ".tag-9") (codes "v1") (beq→ne (codes ".tag-9") (codes "v1") names_apart))

tag_free : is_folder (node_at (tag_path root (codes "app") (codes "v1")) stored_disk) ≡ false
unfolding put_manifest_content stored_disk simplecontainerregistry.Storage.Manifests.chosen_digest
    simplecontainerregistry.Storage.Manifests.write_manifest digest_for_content
    simplecontainerregistry.Storage.Digest.digest_hash
    simplecontainerregistry.Storage.Digest.hex_encode
    simplecontainerregistry.Storage.Digest.hex_digit manifest_digest_algorithm
    simplecontainerregistry.Storage.Path.manifest_digest_path
    simplecontainerregistry.Storage.Disk.mkdir_all simplecontainerregistry.Storage.Disk.mkdir_below
    simplecontainerregistry.Storage.Disk.write_file simplecontainerregistry.Storage.Disk.put_node
    simplecontainerregistry.Storage.Disk.touch simplecontainerregistry.Storage.Disk.parent
    simplecontainerregistry.Storage.Path.safe_repository_path
    simplecontainerregistry.Storage.Path.bad_part
    simplecontainerregistry.Storage.Path.sanitize_reference
    simplecontainerregistry.Storage.Path.is_reference_byte
    simplecontainerregistry.Storage.Path.safe_join simplecontainerregistry.Storage.Path.clean_loop
    simplecontainerregistry.Storage.Path.clean_step simplecontainerregistry.Storage.Path.segments_of
    simplecontainerregistry.Base.trim simplecontainerregistry.Base.trim_right
    simplecontainerregistry.Base.drop_while simplecontainerregistry.Base.contains
    simplecontainerregistry.Base.cut simplecontainerregistry.Base.strip_prefix
    simplecontainerregistry.Base.any simplecontainerregistry.Base.all
    simplecontainerregistry.Base.split simplecontainerregistry.Base.beq
    simplecontainerregistry.Storage.Digest.parse_digest
    simplecontainerregistry.Storage.Digest.check_digest
    simplecontainerregistry.Storage.Digest.digest_hex_length
    simplecontainerregistry.Storage.Digest.is_hex simplecontainerregistry.Storage.Disk.find
    simplecontainerregistry.Storage.Disk.same_path tag_path
tag_free = refl

tagged_disk : Disk
tagged_disk = (link_manifest_tag root (codes "9") (codes "app") (codes "v1") digest stored_disk).1

linked :
    link_manifest_tag root (codes "9") (codes "app") (codes "v1") digest stored_disk
    ≡ (ok tt, tagged_disk)
unfolding link_manifest_tag temporary_path tagged_disk put_manifest_content stored_disk
    simplecontainerregistry.Storage.Manifests.chosen_digest
    simplecontainerregistry.Storage.Manifests.write_manifest digest_for_content
    simplecontainerregistry.Storage.Digest.digest_hash
    simplecontainerregistry.Storage.Digest.hex_encode
    simplecontainerregistry.Storage.Digest.hex_digit manifest_digest_algorithm
    simplecontainerregistry.Storage.Path.manifest_digest_path
    simplecontainerregistry.Storage.Disk.mkdir_all simplecontainerregistry.Storage.Disk.mkdir_below
    simplecontainerregistry.Storage.Disk.write_file simplecontainerregistry.Storage.Disk.put_node
    simplecontainerregistry.Storage.Disk.touch simplecontainerregistry.Storage.Disk.parent
    simplecontainerregistry.Storage.Path.safe_repository_path
    simplecontainerregistry.Storage.Path.bad_part
    simplecontainerregistry.Storage.Path.sanitize_reference
    simplecontainerregistry.Storage.Path.is_reference_byte
    simplecontainerregistry.Storage.Path.safe_join simplecontainerregistry.Storage.Path.clean_loop
    simplecontainerregistry.Storage.Path.clean_step simplecontainerregistry.Storage.Path.segments_of
    simplecontainerregistry.Base.trim simplecontainerregistry.Base.trim_right
    simplecontainerregistry.Base.drop_while simplecontainerregistry.Base.contains
    simplecontainerregistry.Base.cut simplecontainerregistry.Base.strip_prefix
    simplecontainerregistry.Base.any simplecontainerregistry.Base.all
    simplecontainerregistry.Base.split simplecontainerregistry.Base.beq
    simplecontainerregistry.Storage.Digest.parse_digest
    simplecontainerregistry.Storage.Digest.check_digest
    simplecontainerregistry.Storage.Digest.digest_hex_length
    simplecontainerregistry.Storage.Digest.is_hex simplecontainerregistry.Storage.Disk.find
    simplecontainerregistry.Storage.Disk.same_path simplecontainerregistry.Storage.Disk.create_new
    simplecontainerregistry.Storage.Disk.rename simplecontainerregistry.Storage.Disk.remove
    simplecontainerregistry.Storage.Disk.drop_node simplecontainerregistry.Storage.Disk.take_out
    simplecontainerregistry.Storage.Disk.stat simplecontainerregistry.Storage.Disk.children
    simplecontainerregistry.Storage.Manifests.swap_in
    simplecontainerregistry.Storage.Manifests.finally
    simplecontainerregistry.Storage.Manifests.link_tag tag_path
linked = refl

link_manifest_tag-manifest_tag_digest_example :
    manifest_tag_digest root (codes "app") (codes "v1") tagged_disk ≡ (ok digest, tagged_disk)
link_manifest_tag-manifest_tag_digest_example =
    link_manifest_tag-manifest_tag_digest root (codes "9") (codes "app") (codes "app") (codes "v1")
      (codes "v1") digest stored_disk tagged_disk app_plain tag_safe temporary_elsewhere tag_free
      linked

abbrev manifests_dir : FilePath
manifests_dir = codes "srv" ∷ codes "repositories" ∷ codes "app" ∷ codes "manifests" ∷ []

abbrev content_file : FilePath
content_file = manifests_dir ++ sha256 ∷ codes "00" ∷ codes "content" ∷ []

abbrev collected_disk : Disk
collected_disk = record { nodes = (content_file, file (codes "{}") 0) ∷ []; now = 1 }

is_named : elem (sha256 ++ b':' ∷ codes "00") (codes "sha256:00" ∷ []) ≡ true
unfolding elem beq
is_named = refl

is_inside : is_within (manifests_dir ++ sha256 ∷ codes "00" ∷ []) content_file ≡ true
unfolding is_within beq
is_inside = refl

collect_algorithms-content_at_example :
    content_at content_file
      (collect_algorithms root 9
        (codes "sha256:00" ∷ [])
        manifests_dir
        (sha256 ∷ [])
        0
        collected_disk).1
    ≡ content_at content_file collected_disk
collect_algorithms-content_at_example =
    collect_algorithms-content_at root 9 (codes "sha256:00" ∷ []) manifests_dir sha256 (codes "00")
      content_file (sha256 ∷ []) 0 collected_disk is_named is_inside

abbrev one_tag : Disk
one_tag = record { nodes = (app_tag, file digest 0) ∷ []; now = 1 }

untagged_disk : Disk
untagged_disk = (delete_manifest root (codes "app") (codes "v1") one_tag).1

untagged : delete_manifest root (codes "app") (codes "v1") one_tag ≡ (ok digest, untagged_disk)
unfolding delete_manifest untagged_disk simplecontainerregistry.Storage.Manifests.delete_tag
    manifest_tag_digest simplecontainerregistry.Storage.Path.safe_repository_path
    simplecontainerregistry.Storage.Path.bad_part
    simplecontainerregistry.Storage.Path.sanitize_reference
    simplecontainerregistry.Storage.Path.is_reference_byte
    simplecontainerregistry.Storage.Path.safe_join simplecontainerregistry.Storage.Path.clean_loop
    simplecontainerregistry.Storage.Path.clean_step simplecontainerregistry.Storage.Path.segments_of
    simplecontainerregistry.Storage.Path.tag_path simplecontainerregistry.Base.trim
    simplecontainerregistry.Base.trim_right simplecontainerregistry.Base.drop_while
    simplecontainerregistry.Base.contains simplecontainerregistry.Base.cut
    simplecontainerregistry.Base.strip_prefix simplecontainerregistry.Base.any
    simplecontainerregistry.Base.all simplecontainerregistry.Base.split
    simplecontainerregistry.Base.beq simplecontainerregistry.Base.trim_space
    simplecontainerregistry.Storage.Digest.parse_digest
    simplecontainerregistry.Storage.Digest.check_digest
    simplecontainerregistry.Storage.Digest.digest_hex_length
    simplecontainerregistry.Storage.Digest.is_hex simplecontainerregistry.Storage.Disk.read_file
    simplecontainerregistry.Storage.Disk.find simplecontainerregistry.Storage.Disk.same_path
    simplecontainerregistry.Storage.Disk.blocked simplecontainerregistry.Storage.Disk.missing
    simplecontainerregistry.Storage.Disk.remove simplecontainerregistry.Storage.Disk.drop_node
    simplecontainerregistry.Storage.Disk.take_out simplecontainerregistry.Storage.Disk.touch
    simplecontainerregistry.Storage.Disk.parent
untagged = refl

no_digest : has_colon (codes "v1") ≡ false
unfolding contains simplecontainerregistry.Base.cut simplecontainerregistry.Base.strip_prefix
no_digest = refl

delete_manifest-unresolved_example :
    (e : Error) × ((manifest_tag_digest root (codes "app") (codes "v1") untagged_disk).0 ≡ err e)
delete_manifest-unresolved_example =
    delete_manifest-unresolved root (codes "app") (codes "v1") (codes "v1") digest one_tag
      untagged_disk tag_safe no_digest untagged
