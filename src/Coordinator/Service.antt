-- ===== src/Coordinator/Service.antt =====
-- The handlers of pkg/server_coordinator.go: a server in the mode "coordinator" answers requests by
-- its coordinator. A handler returns a response and never a gRPC error; logging is left out.
use blobcache_v.Base.{Bool, true, false, Option, none, some, List, [], map, ok, err}
use blobcache_v.Base.Texts.{Text, text_eq}
use blobcache_v.Base.Maps.{Map, lookup}
use blobcache_v.Types.{
  Floats, BlobFsMetadata, BlobCacheHost, HostMessage, to_proto, host_message, message_host,
}
use blobcache_v.Config.{BlobCacheServerConfig, ServerConfigMessage, config_to_proto}
use blobcache_v.Coordinator.{Coordinator, Returns}

-- A response whose message is `Ok` and a value; a nil value is `none`.
pub record Response (A : Type 0) : Type 0 where
  pub is_ok : Bool
  pub value : A

-- `Ok` and nothing else
abbrev pub Ack : Type 0
Ack = Response (Unit {0})

abbrev pub acknowledge : {S : Type 0} → Returns S (Unit {0}) → Ack × S
acknowledge (ok u, s) = (record { is_ok = true; value = tt }, s)
acknowledge (err e, s) = (record { is_ok = false; value = tt }, s)

-- The metadata that `SetFsNode` makes of its request
unfoldable pub metadata_of_request : BlobFsMetadata → BlobFsMetadata
metadata_of_request m = record {
  pid = m.pid;
  id = m.id;
  name = m.name;
  path = m.path;
  hash = m.hash;
  ino = 0;
  size = m.size;
  blocks = m.blocks;
  atime = m.atime;
  mtime = m.mtime;
  ctime = m.ctime;
  atimensec = m.atimensec;
  mtimensec = m.mtimensec;
  ctimensec = m.ctimensec;
  mode = m.mode;
  nlink = m.nlink;
  rdev = m.rdev;
  blksize = m.blksize;
  padding = m.padding;
  uid = m.uid;
  gid = m.gid;
  gen = m.gen;
}

module _ (N : Floats) (C : Coordinator N) where
  -- The coordinator, and `serverConfig.Regions`
  pub record CacheService : Type 0 where
    pub coordinator : C.State
    pub regions : Map Text (BlobCacheServerConfig N)

  abbrev pub with_coordinator : {A : Type 0} → CacheService → A × C.State → A × CacheService
  with_coordinator cs (a, s) = (a, record cs { coordinator = s })

  abbrev pub answer_hosts :
      Returns C.State (List (BlobCacheHost N)) → Response (List (HostMessage N)) × C.State
  answer_hosts (ok hosts, s) = (record { is_ok = true; value = map (host_message N) hosts }, s)
  answer_hosts (err e, s) = (record { is_ok = false; value = [] }, s)

  unfoldable pub handle_get_available_hosts :
      CacheService → Text → Response (List (HostMessage N)) × CacheService
  handle_get_available_hosts cs locality =
      with_coordinator cs (answer_hosts (C.get_available_hosts cs.coordinator locality))

  abbrev pub answer_region :
      CacheService
      → Option (BlobCacheServerConfig N)
      → Response (Option (ServerConfigMessage N)) × CacheService
  answer_region cs none = (record { is_ok = false; value = none }, cs)
  answer_region cs (some config) =
      (record { is_ok = true; value = some (config_to_proto N config) }, cs)

  unfoldable pub handle_get_region_config :
      CacheService → Text → Response (Option (ServerConfigMessage N)) × CacheService
  handle_get_region_config cs locality = answer_region cs (lookup cs.regions locality)

  unfoldable pub handle_set_client_lock : CacheService → Text → Text → Ack × CacheService
  handle_set_client_lock cs hash host_id =
      with_coordinator cs (acknowledge (C.set_client_lock cs.coordinator hash host_id))

  unfoldable pub handle_remove_client_lock : CacheService → Text → Text → Ack × CacheService
  handle_remove_client_lock cs hash host_id =
      with_coordinator cs (acknowledge (C.remove_client_lock cs.coordinator hash host_id))

  unfoldable pub handle_set_store_from_content_lock :
      CacheService → Text → Text → Ack × CacheService
  handle_set_store_from_content_lock cs locality source_path =
      with_coordinator cs
        (acknowledge (C.set_store_from_content_lock cs.coordinator locality source_path))

  unfoldable pub handle_remove_store_from_content_lock :
      CacheService → Text → Text → Ack × CacheService
  handle_remove_store_from_content_lock cs locality source_path =
      with_coordinator cs
        (acknowledge (C.remove_store_from_content_lock cs.coordinator locality source_path))

  unfoldable pub handle_refresh_store_from_content_lock :
      CacheService → Text → Text → Ack × CacheService
  handle_refresh_store_from_content_lock cs locality source_path =
      with_coordinator cs
        (acknowledge (C.refresh_store_from_content_lock cs.coordinator locality source_path))

  unfoldable pub handle_remove_fs_node : CacheService → Text → Ack × CacheService
  handle_remove_fs_node cs id =
      with_coordinator cs (acknowledge (C.remove_fs_node cs.coordinator id))

  unfoldable pub handle_remove_fs_node_child : CacheService → Text → Text → Ack × CacheService
  handle_remove_fs_node_child cs pid id =
      with_coordinator cs (acknowledge (C.remove_fs_node_child cs.coordinator pid id))

  unfoldable pub handle_add_fs_node_child : CacheService → Text → Text → Ack × CacheService
  handle_add_fs_node_child cs pid id =
      with_coordinator cs (acknowledge (C.add_fs_node_child cs.coordinator pid id))

  unfoldable pub handle_set_fs_node : CacheService → Text → BlobFsMetadata → Ack × CacheService
  handle_set_fs_node cs id metadata =
      with_coordinator cs
        (acknowledge (C.set_fs_node cs.coordinator id (metadata_of_request metadata)))

  abbrev pub answer_metadata :
      Returns C.State BlobFsMetadata → Response (Option BlobFsMetadata) × C.State
  answer_metadata (ok m, s) = (record { is_ok = true; value = some (to_proto m) }, s)
  answer_metadata (err e, s) = (record { is_ok = false; value = none }, s)

  unfoldable pub handle_get_fs_node :
      CacheService → Text → Response (Option BlobFsMetadata) × CacheService
  handle_get_fs_node cs id = with_coordinator cs (answer_metadata (C.get_fs_node cs.coordinator id))

  abbrev pub answer_children :
      Returns C.State (List BlobFsMetadata) → Response (List BlobFsMetadata) × C.State
  answer_children (ok children, s) = (record { is_ok = true; value = map to_proto children }, s)
  answer_children (err e, s) = (record { is_ok = false; value = [] }, s)

  unfoldable pub handle_get_fs_node_children :
      CacheService → Text → Response (List BlobFsMetadata) × CacheService
  handle_get_fs_node_children cs id =
      with_coordinator cs (answer_children (C.get_fs_node_children cs.coordinator id))

  unfoldable pub handle_add_host_to_index : CacheService → Text → HostMessage N → Ack × CacheService
  handle_add_host_to_index cs locality host =
      with_coordinator cs
        (acknowledge (C.add_host_to_index cs.coordinator locality (message_host N host)))

  unfoldable pub handle_set_host_keep_alive :
      CacheService → Text → HostMessage N → Ack × CacheService
  handle_set_host_keep_alive cs locality host =
      with_coordinator cs
        (acknowledge (C.set_host_keep_alive cs.coordinator locality (message_host N host)))
