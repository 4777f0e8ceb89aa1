-- ===== src/Metadata/Tests.antt =====
-- Runs of the metadata engine on a Redis in memory.
use blobcache_v.Base.{◌≡◌, refl, [], arith, ok, ℕ_eq}
use blobcache_v.Base.Texts.{codes, list_beq}
use blobcache_v.Base.Maps.{lookup, insert}
use blobcache_v.Types.{BlobFsMetadata}
use blobcache_v.Metadata.Fields.{InRange}
use blobcache_v.Metadata.Nodes.{generation, get_fs_node-set_fs_node}
use blobcache_v.Metadata.Locks.{Excludes, acquire-Excludes}
use blobcache_v.Metadata.Plain.{Memory, memory, fields_of, write_fields, obtain_lock}
use blobcache_v.Metadata.{Engine, fs_node_key, get_fs_node, set_fs_node, acquire}

abbrev node : BlobFsMetadata
node = record {
  pid = codes "p";
  id = codes "n";
  name = codes "file";
  path = codes "/file";
  hash = codes "ab12";
  ino = 7;
  size = 5;
  blocks = 0;
  atime = 1;
  mtime = 1;
  ctime = 1;
  atimensec = 0;
  mtimensec = 0;
  ctimensec = 0;
  mode = 420;
  nlink = 0;
  rdev = 0;
  blksize = 0;
  padding = 0;
  uid = 0;
  gid = 0;
  gen = 0;
}

node-InRange : InRange node
node-InRange = record {
  ino = omega arith;
  size = omega arith;
  blocks = omega arith;
  atime = omega arith;
  mtime = omega arith;
  ctime = omega arith;
  atimensec = omega arith;
  mtimensec = omega arith;
  ctimensec = omega arith;
  mode = omega arith;
  nlink = omega arith;
  rdev = omega arith;
  blksize = omega arith;
  padding = omega arith;
  uid = omega arith;
  gid = omega arith;
  gen = omega arith;
}

abbrev start : Memory
start = record { hashes = []; sets = []; strings = []; locks = []; tokens = 0 }

engine : Engine memory
unfolding memory
engine = record { rdb = start; locks = [] }

-- The engine after the node has been set once
once : Engine memory
once = (set_fs_node memory engine (codes "n") node).1

again : (set_fs_node memory once (codes "n") node).0 ≡ ok tt
unfolding memory once set_fs_node engine write_fields fields_of lookup insert list_beq fs_node_key
again = refl

read_again :
    (memory.hget_all (set_fs_node memory once (codes "n") node).1.rdb (fs_node_key (codes "n"))).0
    ≡ ok (memory.fields (set_fs_node memory once (codes "n") node).1.rdb (fs_node_key (codes "n")))
unfolding memory
read_again = refl

get_fs_node-set_fs_node_example :
    (get_fs_node memory (set_fs_node memory once (codes "n") node).1 (codes "n")).0
    ≡ ok (generation (memory.hget_all once.rdb (fs_node_key (codes "n"))).0 node)
get_fs_node-set_fs_node_example =
    get_fs_node-set_fs_node memory (codes "n") once node node-InRange again
      (memory.fields (set_fs_node memory once (codes "n") node).1.rdb (fs_node_key (codes "n")))
      read_again

taken : (acquire memory engine (codes "k") 5).0 ≡ ok tt
unfolding memory acquire engine obtain_lock lookup
taken = refl

acquire-Excludes_example :
    (t : memory.Token) × Excludes memory (codes "k") t (acquire memory engine (codes "k") 5).1
acquire-Excludes_example = acquire-Excludes memory (codes "k") engine 5 taken
