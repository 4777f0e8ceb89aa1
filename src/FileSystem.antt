-- ===== src/FileSystem.antt =====
-- pkg/blobfs_node.go: the operations of a node of the file system, over a coordinator and a client. The
-- inode that go-fuse makes of a node is the node here; logging is left out.
pub mod Reads
pub mod Created
pub mod Renamed
mod Tests
use blobcache_v.Base.{
  ℕ, Bool, false, ◌||◌, List, [], ◌∷◌, length, Result, ok, err, ◌==◌, ℕ_eq, eqb, if◌then◌else◌,
}
use blobcache_v.Base.Int.{ℤ, pos}
use blobcache_v.Base.Texts.{Text, codes, text_eq}
use blobcache_v.Backends.{Bytes}
use blobcache_v.Types.{Floats, BlobFsMetadata}
use blobcache_v.Coordinator.{Coordinator, Returns}
use blobcache_v.Coordinator.Service.{CacheService}
use blobcache_v.Coordinator.Remote.{Fate, coordinator_client_remote}
use blobcache_v.Server.Hex.{Sha256, generate_fs_id}
use blobcache_v.Server.Paths.{join_path}
use blobcache_v.Client.{ClientError, content_not_found, unable_to_acquire_lock}

pub data Errno : Type 0 where
  enoent eio eagain einval enoattr enotempty : Errno

-- The requests of a client that nodes make, by its state: a content by its hash, offset, length and
-- routing key, and the storing of a path under its lock, by the path and the routing key.
pub record ContentClient : Type 1 where
  pub State : Type 0
  pub get_content : State → Text → ℤ → ℤ → Text → Result ClientError Bytes × State
  pub store_content_from_fuse : State → Text → Text → Result ClientError Text × State

-- `fuse.Attr`
pub record Attr : Type 0 where
  pub attr_ino : ℕ
  pub attr_size : ℕ
  pub attr_blocks : ℕ
  pub attr_atime : ℕ
  pub attr_mtime : ℕ
  pub attr_ctime : ℕ
  pub attr_atimensec : ℕ
  pub attr_mtimensec : ℕ
  pub attr_ctimensec : ℕ
  pub attr_mode : ℕ
  pub attr_nlink : ℕ
  pub attr_uid : ℕ
  pub attr_gid : ℕ
  pub attr_rdev : ℕ
  pub attr_blksize : ℕ
  pub attr_padding : ℕ

unfoldable pub meta_to_attr : BlobFsMetadata → Attr
meta_to_attr m = record {
  attr_ino = m.ino;
  attr_size = m.size;
  attr_blocks = m.blocks;
  attr_atime = m.atime;
  attr_mtime = m.mtime;
  attr_ctime = m.ctime;
  attr_atimensec = m.atimensec;
  attr_mtimensec = m.mtimensec;
  attr_ctimensec = m.ctimensec;
  attr_mode = m.mode;
  attr_nlink = m.nlink;
  attr_uid = m.uid;
  attr_gid = m.gid;
  attr_rdev = m.rdev;
  attr_blksize = m.blksize;
  attr_padding = m.padding;
}

pub record BlobFsNode : Type 0 where
  pub path : Text
  pub id : Text
  pub pid : Text
  pub name : Text
  pub target : Text
  pub hash : Text
  pub attr : Attr

unfoldable pub node_of_metadata : BlobFsMetadata → BlobFsNode
node_of_metadata m = record {
  path = m.path;
  id = m.id;
  pid = m.pid;
  name = m.name;
  target = [];
  hash = m.hash;
  attr = meta_to_attr m;
}

-- `Getattr` leaves the device, the block size and the padding at 0.
unfoldable pub getattr : BlobFsNode → Attr
getattr n = record n.attr { attr_rdev = 0; attr_blksize = 0; attr_padding = 0 }

unfoldable pub readlink : BlobFsNode → Result Errno Text
readlink n = if n.target == [] then err einval else ok n.target

-- `strings.Contains(t, "%")` and `strings.ReplaceAll(t, "%", "/")`
unfoldable pub has_percent : Text → Bool
has_percent [] = false
has_percent (c ∷ cs) = eqb c b'%' || has_percent cs

unfoldable pub percent_to_slash : Text → Text
percent_to_slash [] = []
percent_to_slash (c ∷ cs) = (if eqb c b'%' then b'/' else c) ∷ percent_to_slash cs

-- The metadata that `Create` and `Mkdir` make, but for the mode
unfoldable pub new_node : Text → Text → Text → Text → ℕ → ℕ × ℕ → BlobFsMetadata
new_node pid id name path mode now = record {
  pid = pid;
  id = id;
  name = name;
  path = path;
  hash = [];
  ino = 0;
  size = 0;
  blocks = 0;
  atime = now.0;
  mtime = now.0;
  ctime = now.0;
  atimensec = now.1;
  mtimensec = now.1;
  ctimensec = now.1;
  mode = mode;
  nlink = 0;
  rdev = 0;
  blksize = 0;
  padding = 0;
  uid = 0;
  gid = 0;
  gen = 0;
}

-- The inode that `Create` and `Mkdir` return
unfoldable pub new_inode : Text → Text → Text → ℕ → BlobFsNode
new_inode id name path mode = record {
  path = path;
  id = id;
  pid = [];
  name = name;
  target = [];
  hash = [];
  attr = meta_to_attr (new_node [] [] [] [] mode (0, 0));
}

module _ (Q : ContentClient) where
  abbrev pub Reads : Type 0
  Reads = Result Errno Bytes × Q.State

  -- What follows the second request
  abbrev pub after_second : Result ClientError Bytes × Q.State → Reads
  after_second (ok bytes, q) = (err eio, q)
  after_second (err e, q) = (err eio, q)

  abbrev pub after_store : BlobFsNode → ℤ → ℤ → Result ClientError Text × Q.State → Reads
  after_store n offset length (err unable_to_acquire_lock, q) = (err eagain, q)
  after_store n offset length (err e, q) = (err eio, q)
  after_store n offset length (ok hash, q) =
      after_second (Q.get_content q n.hash offset length n.path)

  abbrev pub after_first : BlobFsNode → ℤ → ℤ → Result ClientError Bytes × Q.State → Reads
  after_first n offset length (ok bytes, q) = (ok bytes, q)
  after_first n offset length (err content_not_found, q) =
      after_store n offset length (Q.store_content_from_fuse q n.path n.path)
  after_first n offset length (err e, q) = (err eio, q)

  -- `Read` of `length` bytes. (Behind the storing of a content that was not found, the code falls
  -- through to its last error, whatever the second request returned.)
  unfoldable pub read : BlobFsNode → ℤ → ℕ → Q.State → Reads
  read n offset length q =
      if n.attr.attr_size == 0
      then (ok [], q)
      else after_first n offset (pos length) (Q.get_content q n.hash offset (pos length) n.path)

-- The metadata of the root (pkg/blobfs.go), in which `mode` is `fuse.S_IFDIR | 0755`
unfoldable pub root_metadata : Sha256 → ℕ → BlobFsMetadata
root_metadata H mode =
    record (new_node [] (generate_fs_id H (codes "/")) [] (codes "/") mode (0, 0)) { ino = 1 }

unfoldable pub root_node : BlobFsMetadata → BlobFsNode
root_node m =
    let root = new_inode m.id [] m.path m.mode in
    record root { pid = m.pid; attr = record root.attr { attr_ino = 1 } }

-- The loop of `Readdir`: the mode, the name and the inode number of each child
unfoldable pub entries : List BlobFsMetadata → List (ℕ × Text × ℕ)
entries [] = []
entries (m ∷ ms) = (m.mode, m.name, m.ino) ∷ entries ms

module _ (N : Floats) (C : Coordinator N) (H : Sha256) where
  abbrev pub Does : Type 0 → Type 0
  Does A = Result Errno A × C.State

  abbrev pub or_errno : {A : Type 0} → Errno → Returns C.State A → Does A
  or_errno e (ok a, s) = (ok a, s)
  or_errno e (err x, s) = (err e, s)

  abbrev pub then_do : {A B : Type 0} → Does A → (A → C.State → Does B) → Does B
  then_do (ok a, s) next = next a s
  then_do (err e, s) next = (err e, s)

  abbrev pub as_node : BlobFsMetadata → C.State → Does BlobFsNode
  as_node m s = (ok (node_of_metadata m), s)

  unfoldable pub inode_from_fs_id : Text → C.State → Does BlobFsNode
  inode_from_fs_id id s = then_do (or_errno enoent (C.get_fs_node s id)) as_node

  abbrev pub stored_lookup :
      (Q : ContentClient)
      → Text
      → C.State
      → Result ClientError Text × Q.State
      → Result Errno BlobFsNode × C.State × Q.State
  stored_lookup Q path s (err e, q) = (err enoent, s, q)
  stored_lookup Q path s (ok hash, q) =
      let (result, s') = inode_from_fs_id (generate_fs_id H path) s in (result, s', q)

  -- `Lookup`: a name with a percent sign stores the path with slashes in its place.
  unfoldable pub lookup :
      (Q : ContentClient)
      → BlobFsNode
      → Text
      → C.State
      → Q.State
      → Result Errno BlobFsNode × C.State × Q.State
  lookup Q n name s q =
      let path = join_path n.path name in
      let source = percent_to_slash path in
      let (result, s') = inode_from_fs_id (generate_fs_id H path) s in
      if has_percent path
      then stored_lookup Q source s (Q.store_content_from_fuse q source source)
      else (result, s', q)

  unfoldable pub readdir : BlobFsNode → C.State → Does (List (ℕ × Text × ℕ))
  readdir n s =
      then_do (or_errno enoattr (C.get_fs_node_children s (generate_fs_id H n.path)))
        (λ children s'. (ok (entries children), s'))

  -- The common part of `Create` and `Mkdir`
  abbrev pub add_node : BlobFsNode → BlobFsMetadata → C.State → Does BlobFsNode
  add_node n m s = then_do (or_errno eio (C.set_fs_node s m.id m)) (λ u s'.
      then_do (or_errno eio (C.add_fs_node_child s' n.id m.id))
        (λ u' s''. (ok (new_inode m.id m.name m.path m.mode), s'')))

  unfoldable pub create : BlobFsNode → Text → ℕ → ℕ × ℕ → C.State → Does BlobFsNode
  create n name mode now s =
      let path = join_path n.path name in
      add_node n (new_node n.id (generate_fs_id H path) name path mode now) s

  -- `directory` is `fuse.S_IFDIR | mode`.
  unfoldable pub mkdir : BlobFsNode → Text → ℕ → ℕ × ℕ → C.State → Does BlobFsNode
  mkdir n name directory now s =
      let path = join_path n.path name in
      add_node n (new_node n.id (generate_fs_id H path) name path directory now) s

  abbrev pub remove_node : BlobFsNode → Text → C.State → Does (Unit {0})
  remove_node n id s =
      then_do (or_errno eio (C.remove_fs_node s id))
        (λ u s'. or_errno eio (C.remove_fs_node_child s' n.id id))

  abbrev pub remove_empty : BlobFsNode → Text → List BlobFsMetadata → C.State → Does (Unit {0})
  remove_empty n id [] s = remove_node n id s
  remove_empty n id (c ∷ cs) s = (err enotempty, s)

  unfoldable pub rmdir : BlobFsNode → Text → C.State → Does (Unit {0})
  rmdir n name s =
      let id = generate_fs_id H (join_path n.path name) in
      then_do (or_errno eio (C.get_fs_node_children s id)) (remove_empty n id)

  unfoldable pub unlink : BlobFsNode → Text → C.State → Does (Unit {0})
  unlink n name s = remove_node n (generate_fs_id H (join_path n.path name)) s

  abbrev pub made_root : BlobFsMetadata → Returns C.State (Unit {0}) → Returns C.State BlobFsNode
  made_root m (ok u, s) = (ok (root_node m), s)
  made_root m (err e, s) = (err e, s)

  abbrev pub or_root : ℕ → Returns C.State BlobFsMetadata → Returns C.State BlobFsNode
  or_root mode (ok m, s) = (ok (root_node m), s)
  or_root mode (err e, s) = let m = root_metadata H mode in made_root m (C.set_fs_node s m.id m)

  -- `NewFileSystem`: its root
  unfoldable pub new_file_system : ℕ → C.State → Returns C.State BlobFsNode
  new_file_system mode s = or_root mode (C.get_fs_node s (generate_fs_id H (codes "/")))

-- A mount's coordinator is the remote client, whose `GetFsNode` returns a copy that a message made:
-- what `Rename` writes to the metadata changes nothing that is stored. (Over the coordinator in
-- memory, it would change the stored metadata, through the pointer.)
module _ (N : Floats) (C : Coordinator N) (fate : Fate) (H : Sha256) where
  abbrev pub mounted : Coordinator N
  mounted = coordinator_client_remote N C fate

  -- `Rename`, which does not look at the new parent: the new name is under the node itself.
  unfoldable pub rename :
      BlobFsNode → Text → Text → CacheService N C → Result Errno (Unit {0}) × CacheService N C
  rename n old_name new_name s =
      let new_path = join_path n.path new_name in
      let old_id = generate_fs_id H (join_path n.path old_name) in
      let new_id = generate_fs_id H new_path in
      then_do N mounted H (or_errno N mounted H enoent (mounted.get_fs_node s old_id)) (λ m s₁.
        then_do N mounted H
          (or_errno N mounted H eio
            (mounted.set_fs_node s₁ new_id (record m { name = new_name; path = new_path })))
          (λ u s₂.
            then_do N mounted H
              (or_errno N mounted H eio (mounted.remove_fs_node_child s₂ n.id old_id))
              (λ u' s₃. or_errno N mounted H eio (mounted.add_fs_node_child s₃ n.id new_id))))
