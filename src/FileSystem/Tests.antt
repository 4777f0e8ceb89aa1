-- ===== src/FileSystem/Tests.antt =====
-- Runs of the operations of a node at concrete clients.
use blobcache_v.Base.{
  ◌≡◌, ◌≢◌, refl, ◌∙◌, ◌⊎◌, Bool, true, false, some, [], arith, ok, err, ◌==◌, ℕ_eq, if◌then◌else◌,
}
use blobcache_v.Base.Maps.{insert, lookup as find, lookup-insert, beq_refl}
use blobcache_v.Types.Plain.{whole}
use blobcache_v.Types.{BlobFsMetadata}
use blobcache_v.Server.Example.{toy, coordinator}
use blobcache_v.Server.Paths.{join_path, rooted, clean_names}
use blobcache_v.Coordinator.Mock.{MockCoordinator, mock_coordinator}
use blobcache_v.Coordinator.Service.{CacheService}
use blobcache_v.Coordinator.Remote.{answered}
use blobcache_v.FileSystem.Created.{id_of, created, lookup-create-unlink}
use blobcache_v.FileSystem.Renamed.{lookup-rename}
use blobcache_v.Base.Int.{pos}
use blobcache_v.Base.Texts.{Text, codes, text_eq, join, split, list_beq}
use blobcache_v.Client.{content_not_found}
use blobcache_v.FileSystem.{
  eio, eagain, ContentClient, BlobFsNode, node_of_metadata, new_inode, has_percent, read, lookup,
  create, rename,
}
use blobcache_v.FileSystem.Reads.{read_lem}

-- A client whose first request finds nothing: the store makes the content available.
abbrev stored_client : ContentClient
stored_client = record {
  State = Bool;
  get_content = λ stored hash offset length key.
      (if stored then ok (codes "data") else err content_not_found, stored);
  store_content_from_fuse = λ stored path key. (ok (codes "hash"), true);
}

abbrev a_file : BlobFsNode
a_file =
    let n = new_inode (codes "id") (codes "f") (codes "/d/f") 420 in
    record n { hash = codes "hash"; attr = record n.attr { attr_size = 4 } }

read-stored_before : read stored_client a_file (pos 0) 4 true ≡ (ok (codes "data"), true)
unfolding read
read-stored_before = refl

a_file-nonzero : a_file.attr.attr_size ≢ 0
a_file-nonzero = ground arith

read_lem_example :
    (read stored_client a_file (pos 0) 4 false).0 ≡ err eio
    ⊎ (read stored_client a_file (pos 0) 4 false).0 ≡ err eagain
read_lem_example =
    ((read_lem stored_client a_file (pos 0) 4 false).1 a_file-nonzero).1 content_not_found refl

abbrev root : BlobFsNode
root = new_inode (codes "root") [] (codes "/") 493

file-plain : has_percent (join_path root.path (codes "f")) ≡ false
unfolding has_percent join_path rooted join clean_names split new_inode list_beq
file-plain = refl

lookup-create-unlink_example :
    (lookup whole
      (mock_coordinator whole)
      toy
      stored_client
      root
      (codes "f")
      (create whole (mock_coordinator whole) toy root (codes "f") 420 (5, 6) coordinator).1
      true).0
    ≡ (if id_of whole toy stored_client root (codes "f")
          == id_of whole toy stored_client root (codes "f")
        then ok (node_of_metadata (created whole toy stored_client root (codes "f") 420 (5, 6)))
        else (lookup whole
            (mock_coordinator whole)
            toy
            stored_client
            root
            (codes "f")
            coordinator
            true).0)
lookup-create-unlink_example =
    (lookup-create-unlink whole toy stored_client root root (codes "f") (codes "f") 420 (5, 6)
      coordinator true file-plain).0.1

abbrev file_id : Text
file_id = id_of whole toy stored_client root (codes "f")

abbrev file_metadata : BlobFsMetadata
file_metadata = created whole toy stored_client root (codes "f") 420 (5, 6)

abbrev with_file : MockCoordinator whole
with_file = record coordinator { fs_nodes = insert [] file_id file_metadata }

abbrev server : CacheService whole (mock_coordinator whole)
server = record { coordinator = with_file; regions = [] }

with_file-found : find with_file.fs_nodes file_id ≡ some file_metadata
with_file-found = lookup-insert [] file_id file_id file_metadata ∙ rw (beq_refl file_id) refl

lookup-rename_example :
    (rename whole (mock_coordinator whole) answered toy root (codes "f") (codes "g") server).0
    ≡ ok tt
lookup-rename_example =
    ((lookup-rename whole toy stored_client root root (codes "f") (codes "g") (codes "f") server
        true file-plain).1
      file_metadata with_file-found).0
