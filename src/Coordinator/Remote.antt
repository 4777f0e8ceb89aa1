-- ===== src/Coordinator/Remote.antt =====
-- The client of a coordinator on another host, `CoordinatorClientRemote` of
-- pkg/coordinator_remote.go. What gRPC does with a call is an argument, its fate.
use blobcache_v.Base.{Option, none, some, List, map, Result, ok, err, ◌>>=◌, if◌then◌else◌}
use blobcache_v.Base.Texts.{Text, codes}
use blobcache_v.Types.{Floats, BlobFsMetadata, BlobCacheHost, host_message, message_host}
use blobcache_v.Config.{BlobCacheServerConfig, ServerConfigMessage, config_from_proto}
use blobcache_v.Coordinator.{Coordinator, Returns}
use blobcache_v.Coordinator.Service.{
  CacheService, Response, Ack, handle_set_client_lock, handle_remove_client_lock,
  handle_set_store_from_content_lock, handle_remove_store_from_content_lock,
  handle_refresh_store_from_content_lock, handle_remove_fs_node, handle_remove_fs_node_child,
  handle_add_fs_node_child, handle_add_host_to_index, handle_set_host_keep_alive,
  handle_get_available_hosts, handle_get_region_config, handle_set_fs_node, handle_get_fs_node,
  handle_get_fs_node_children,
}

-- A call is answered, or fails with an error, before or after the server has handled it.
pub data Fate : Type 0 where
  answered : Fate
  unsent unanswered : Text → Fate

abbrev pub call : {S A : Type 0} → Fate → (S → A × S) → S → Returns S A
call answered handle s = let (a, s') = handle s in (ok a, s')
call (unsent e) handle s = (err e, s)
call (unanswered e) handle s = (err e, (handle s).1)

-- `if !r.Ok { return errors.New(message) }`
abbrev pub check : {S : Type 0} → Text → Returns S Ack → Returns S (Unit {0})
check message (err e, s) = (err e, s)
check message (ok r, s) = (if r.is_ok then ok tt else err message, s)

-- Two more messages: a nil pointer is dereferenced, and a nil pointer in a configuration.
abbrev pub nil_dereference : Text
nil_dereference = codes "runtime error: invalid memory address or nil pointer dereference"

-- The metadata in the request of `SetFsNode`
unfoldable pub request_metadata : BlobFsMetadata → BlobFsMetadata
request_metadata m = record {
  pid = m.pid;
  id = m.id;
  name = m.name;
  path = m.path;
  hash = m.hash;
  ino = 0;
  size = m.size;
  blocks = m.blocks;
  atime = m.atime;
  mtime = m.mtime;
  ctime = m.ctime;
  atimensec = m.atimensec;
  mtimensec = m.mtimensec;
  ctimensec = m.ctimensec;
  mode = m.mode;
  nlink = m.nlink;
  rdev = m.rdev;
  blksize = m.blksize;
  padding = m.padding;
  uid = m.uid;
  gid = m.gid;
  gen = m.gen;
}

-- The metadata of `GetFsNode` and `GetFsNodeChildren`, made of a response
unfoldable pub metadata_of_response : BlobFsMetadata → BlobFsMetadata
metadata_of_response m = record {
  pid = m.pid;
  id = m.id;
  name = m.name;
  path = m.path;
  hash = m.hash;
  ino = 0;
  size = m.size;
  blocks = m.blocks;
  atime = m.atime;
  mtime = m.mtime;
  ctime = m.ctime;
  atimensec = m.atimensec;
  mtimensec = m.mtimensec;
  ctimensec = m.ctimensec;
  mode = m.mode;
  nlink = m.nlink;
  rdev = m.rdev;
  blksize = m.blksize;
  padding = m.padding;
  uid = m.uid;
  gid = m.gid;
  gen = m.gen;
}

module _ (N : Floats) (C : Coordinator N) (fate : Fate) where
  abbrev S : Type 0
  S = CacheService N C

  unfoldable pub remote_add_host_to_index : S → Text → BlobCacheHost N → Returns S (Unit {0})
  remote_add_host_to_index s locality host =
      check (codes "failed to add host to index")
        (call fate (λ s'. handle_add_host_to_index N C s' locality (host_message N host)) s)

  unfoldable pub remote_set_host_keep_alive : S → Text → BlobCacheHost N → Returns S (Unit {0})
  remote_set_host_keep_alive s locality host =
      check (codes "failed to set host keep alive")
        (call fate (λ s'. handle_set_host_keep_alive N C s' locality (host_message N host)) s)

  unfoldable pub remote_set_client_lock : S → Text → Text → Returns S (Unit {0})
  remote_set_client_lock s hash host_id =
      check (codes "failed to set client lock")
        (call fate (λ s'. handle_set_client_lock N C s' hash host_id) s)

  unfoldable pub remote_remove_client_lock : S → Text → Text → Returns S (Unit {0})
  remote_remove_client_lock s hash host_id =
      check (codes "failed to remove client lock")
        (call fate (λ s'. handle_remove_client_lock N C s' hash host_id) s)

  unfoldable pub remote_set_store_from_content_lock : S → Text → Text → Returns S (Unit {0})
  remote_set_store_from_content_lock s locality source_path =
      check (codes "failed to set store from content lock")
        (call fate (λ s'. handle_set_store_from_content_lock N C s' locality source_path) s)

  unfoldable pub remote_remove_store_from_content_lock : S → Text → Text → Returns S (Unit {0})
  remote_remove_store_from_content_lock s locality source_path =
      check (codes "failed to remove store from content lock")
        (call fate (λ s'. handle_remove_store_from_content_lock N C s' locality source_path) s)

  unfoldable pub remote_refresh_store_from_content_lock : S → Text → Text → Returns S (Unit {0})
  remote_refresh_store_from_content_lock s locality source_path =
      check (codes "failed to refresh store from content lock")
        (call fate (λ s'. handle_refresh_store_from_content_lock N C s' locality source_path) s)

  unfoldable pub remote_remove_fs_node : S → Text → Returns S (Unit {0})
  remote_remove_fs_node s id =
      check (codes "failed to remove fs node") (call fate (λ s'. handle_remove_fs_node N C s' id) s)

  unfoldable pub remote_remove_fs_node_child : S → Text → Text → Returns S (Unit {0})
  remote_remove_fs_node_child s pid id =
      check (codes "failed to remove fs node child")
        (call fate (λ s'. handle_remove_fs_node_child N C s' pid id) s)

  unfoldable pub remote_add_fs_node_child : S → Text → Text → Returns S (Unit {0})
  remote_add_fs_node_child s pid id =
      check (codes "failed to add fs node child")
        (call fate (λ s'. handle_add_fs_node_child N C s' pid id) s)

  unfoldable pub remote_set_fs_node : S → Text → BlobFsMetadata → Returns S (Unit {0})
  remote_set_fs_node s id metadata =
      check (codes "failed to set fs node")
        (call fate (λ s'. handle_set_fs_node N C s' id (request_metadata metadata)) s)

  -- `response.Ok` is not read.
  unfoldable pub remote_get_available_hosts : S → Text → Returns S (List (BlobCacheHost N))
  remote_get_available_hosts s locality =
      let (response, s') = call fate (λ s'. handle_get_available_hosts N C s' locality) s in
      (response >>= λ r. ok (map (message_host N) r.value), s')

  -- `none` is the nil pointer, which `BlobCacheServerConfigFromProto` dereferences.
  unfoldable pub config_of :
      Response (Option (ServerConfigMessage N)) → Result Text (BlobCacheServerConfig N)
  config_of r =
      if r.is_ok
      then elim r.value [
        | none ↦ err nil_dereference
        | some c ↦ elim (config_from_proto N c) [
          | ok config ↦ ok config
          | err p ↦ err nil_dereference
        ]
      ]
      else err (codes "failed to get region config")

  unfoldable pub remote_get_region_config : S → Text → Returns S (BlobCacheServerConfig N)
  remote_get_region_config s locality =
      let (response, s') = call fate (λ s'. handle_get_region_config N C s' locality) s in
      (response >>= config_of, s')

  unfoldable pub metadata_of : Response (Option BlobFsMetadata) → Result Text BlobFsMetadata
  metadata_of r =
      if r.is_ok
      then elim r.value [ none ↦ err nil_dereference | some m ↦ ok (metadata_of_response m) ]
      else err (codes "failed to get fs node")

  unfoldable pub remote_get_fs_node : S → Text → Returns S BlobFsMetadata
  remote_get_fs_node s id =
      let (response, s') = call fate (λ s'. handle_get_fs_node N C s' id) s in
      (response >>= metadata_of, s')

  unfoldable pub children_of : Response (List BlobFsMetadata) → Result Text (List BlobFsMetadata)
  children_of r =
      if r.is_ok
      then ok (map metadata_of_response r.value)
      else err (codes "failed to get fs node children")

  unfoldable pub remote_get_fs_node_children : S → Text → Returns S (List BlobFsMetadata)
  remote_get_fs_node_children s id =
      let (response, s') = call fate (λ s'. handle_get_fs_node_children N C s' id) s in
      (response >>= children_of, s')

  -- The client implements the interface of a coordinator.
  abbrev pub coordinator_client_remote : Coordinator N
  coordinator_client_remote = record {
    State = S;
    add_host_to_index = remote_add_host_to_index;
    set_host_keep_alive = remote_set_host_keep_alive;
    get_available_hosts = remote_get_available_hosts;
    get_region_config = remote_get_region_config;
    set_client_lock = remote_set_client_lock;
    remove_client_lock = remote_remove_client_lock;
    set_store_from_content_lock = remote_set_store_from_content_lock;
    remove_store_from_content_lock = remote_remove_store_from_content_lock;
    refresh_store_from_content_lock = remote_refresh_store_from_content_lock;
    remove_fs_node = remote_remove_fs_node;
    remove_fs_node_child = remote_remove_fs_node_child;
    add_fs_node_child = remote_add_fs_node_child;
    set_fs_node = remote_set_fs_node;
    get_fs_node = remote_get_fs_node;
    get_fs_node_children = remote_get_fs_node_children;
  }
