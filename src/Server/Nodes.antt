-- ===== src/Server/Nodes.antt =====
-- `StoreContentInBlobFs` of pkg/server.go: the nodes of the path of a stored file.
use blobcache_v.Base.{
  ℕ, suc, Bool, Option, none, some, List, [], ◌∷◌, Result, ok, err, ◌==◌, ℕ_eq, if◌then◌else◌,
}
use blobcache_v.Base.Texts.{Text, codes, split, text_eq}
use blobcache_v.Types.{Floats, BlobFsMetadata}
use blobcache_v.Coordinator.{Coordinator, Returns}
use blobcache_v.Server.Hex.{Sha256, generate_fs_id, sha1_string_to_uint64}
use blobcache_v.Server.Paths.{rooted, join_path}

-- What `os.Stat` says of a file; times are seconds and nanoseconds.
pub record FileInfo : Type 0 where
  pub mode : ℕ
  pub access_time : ℕ × ℕ
  pub mod_time : ℕ × ℕ
  pub is_dir : Bool

-- `hash_not_hex` is the error of `SHA1StringToUint64`.
pub data NodeError : Type 0 where
  hash_not_hex : NodeError
  stat_failed coordinator_failed : Text → NodeError

-- `fuse.S_IFDIR | 0755`
abbrev pub directory_mode : ℕ
directory_mode = 16877

-- The metadata of a node by default
unfoldable pub directory_node : Text → Text → Text → Text → ℕ → ℕ × ℕ → BlobFsMetadata
directory_node pid id name path ino now = record {
  pid = pid;
  id = id;
  name = name;
  path = path;
  hash = [];
  ino = ino;
  size = 0;
  blocks = 0;
  atime = now.0;
  mtime = now.0;
  ctime = now.0;
  atimensec = now.1;
  mtimensec = now.1;
  ctimensec = now.1;
  mode = directory_mode;
  nlink = 0;
  rdev = 0;
  blksize = 0;
  padding = 0;
  uid = 0;
  gid = 0;
  gen = 0;
}

-- The metadata of the stored path itself
unfoldable pub file_node : Sha256 → Text → ℕ → FileInfo → BlobFsMetadata → BlobFsMetadata
file_node H hash size info m = record m {
  mode = info.mode;
  atime = info.access_time.0;
  atimensec = info.access_time.1;
  mtime = info.mod_time.0;
  mtimensec = info.mod_time.1;
  ctime = info.mod_time.0;
  ctimensec = info.mod_time.1;
  hash = if info.is_dir then generate_fs_id H m.path else hash;
  size = if info.is_dir then 0 else size;
}

-- The names of a path that the loop goes through: those behind the empty first one
unfoldable pub path_parts : Text → List Text
path_parts path = elim (split b'/' path) [
  | [] ↦ []
  | part ∷ parts ↦ if part == [] then parts else part ∷ parts
]

module _ (N : Floats) (C : Coordinator N) (H : Sha256) where
  -- The metadata of a node: `stat` is `os.Stat` of the path that is stored.
  abbrev pub node_metadata :
      Text → Text → ℕ → Result Text FileInfo → BlobFsMetadata → Result NodeError BlobFsMetadata
  node_metadata path hash size (err e) m = if m.path == path then err (stat_failed e) else ok m
  node_metadata path hash size (ok info) m =
      ok (if m.path == path then file_node H hash size info m else m)

  abbrev pub linked :
      (C.State → Result NodeError (Unit {0}) × C.State)
      → Returns C.State (Unit {0})
      → Result NodeError (Unit {0}) × C.State
  linked next (ok u, s) = next s
  linked next (err e, s) = (err (coordinator_failed e), s)

  -- A node is set, then made a child of the one before it.
  unfoldable pub store_node :
      Text
      → (C.State → Result NodeError (Unit {0}) × C.State)
      → Result NodeError BlobFsMetadata
      → C.State
      → Result NodeError (Unit {0}) × C.State
  store_node parent next (err e) s = (err e, s)
  store_node parent next (ok m) s =
      linked (λ s'. linked next (C.add_fs_node_child s' parent m.id)) (C.set_fs_node s m.id m)

  abbrev pub with_inode :
      (ℕ → C.State → Result NodeError (Unit {0}) × C.State)
      → Option ℕ
      → C.State
      → Result NodeError (Unit {0}) × C.State
  with_inode next none s = (err hash_not_hex, s)
  with_inode next (some ino) s = next ino s

  -- The loop, behind the parts up to `current`; `clock i` is the time in round `i`.
  unfoldable pub store_parts :
      Text
      → Text
      → ℕ
      → Result Text FileInfo
      → (ℕ → ℕ × ℕ)
      → List Text
      → Text
      → Text
      → ℕ
      → C.State
      → Result NodeError (Unit {0}) × C.State
  store_parts path hash size stat clock [] current parent i s = (ok tt, s)
  store_parts path hash size stat clock (part ∷ parts) current parent i s =
      let current' = join_path current part in
      let id = generate_fs_id H current' in
      with_inode
        (λ ino.
          store_node parent (store_parts path hash size stat clock parts current' id (suc i)) (
            node_metadata path hash size stat
              (directory_node parent id part current' ino (clock i))))
        (sha1_string_to_uint64 id) s

  unfoldable pub store_content_in_blobfs :
      Text
      → Text
      → ℕ
      → Result Text FileInfo
      → (ℕ → ℕ × ℕ)
      → C.State
      → Result NodeError (Unit {0}) × C.State
  store_content_in_blobfs path hash size stat clock s =
      store_parts (rooted path) hash size stat clock (path_parts (rooted path)) (codes "/")
        (generate_fs_id H (codes "/")) 0 s
