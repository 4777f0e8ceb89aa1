-- ===== src/Coordinator/Mock.antt =====
-- The coordinator in memory, pkg/coordinator_mock.go. Each method holds the mutex, so that an
-- operation is one step. Hosts and metadata are values here, which holds of the callers that
-- do not write through a pointer that they have stored or got: all but `Rename` of
-- pkg/blobfs_node.go and `GetHostState` of pkg/discovery.go, and the keep-alive of a server, which
-- is not modelled. The first two are to be read over the remote client, whose messages are copies, and
-- which a client always uses.
pub mod Locks
pub mod Nodes
use blobcache_v.Base.{
  Bool, true, false, Option, none, some, List, [], ◌∷◌, ◌++◌, map, Result, ok, err, ◌==◌,
  if◌then◌else◌, ◌||◌,
}
use blobcache_v.Base.Texts.{Text, codes, text_eq}
use blobcache_v.Base.Maps.{Map, lookup, insert, delete}
use blobcache_v.Types.{Floats, BlobFsMetadata, BlobCacheHost}
use blobcache_v.Config.{BlobCacheServerConfig}
use blobcache_v.Coordinator.{Coordinator, Returns}

pub client_lock_key : Text → Text
client_lock_key hash = codes "client-lock:" ++ hash

pub store_lock_key : Text → Text → Text
store_lock_key locality source_path = codes "store-lock:" ++ (locality ++ b':' ∷ source_path)

-- The values of a map, in the order of a `range` loop
abbrev pub values : {V : Type 0} → Map Text V → List V
values [] = []
values ((k, v) ∷ m) = v ∷ values m

-- m[k] of a map to Booleans, false for a missing key
abbrev pub is_set : Option Bool → Bool
is_set none = false
is_set (some b) = b

abbrev pub or_empty : {A : Type 0} → Option (List A) → List A
or_empty none = []
or_empty (some list) = list

-- The loop of `RemoveFsNodeChild`
pub without_child : List Text → Text → List Text
without_child [] id = []
without_child (c ∷ cs) id = let rest = without_child cs id in if c == id then rest else c ∷ rest

-- The loop of `AddFsNodeChild`
unfoldable pub is_child : List Text → Text → Bool
is_child [] id = false
is_child (c ∷ cs) id = let rest = is_child cs id in if c == id then true else rest

abbrev pub if_known : Option BlobFsMetadata → List BlobFsMetadata → List BlobFsMetadata
if_known none rest = rest
if_known (some m) rest = m ∷ rest

-- The loop of `GetFsNodeChildren`
pub known_nodes : Map Text BlobFsMetadata → List Text → List BlobFsMetadata
known_nodes nodes [] = []
known_nodes nodes (c ∷ cs) = if_known (lookup nodes c) (known_nodes nodes cs)

module _ (N : Floats) where
  pub record MockCoordinator : Type 0 where
    pub hosts : Map Text (Map Text (BlobCacheHost N))
    pub fs_nodes : Map Text BlobFsMetadata
    pub fs_children : Map Text (List Text)
    pub locks : Map Text Bool

  pub new_mock_coordinator : MockCoordinator
  new_mock_coordinator = record { hosts = []; fs_nodes = []; fs_children = []; locks = [] }

  pub add_host_to_index :
      MockCoordinator → Text → BlobCacheHost N → Returns MockCoordinator (Unit {0})
  add_host_to_index m locality host =
      let there = or_empty (lookup m.hosts locality) in
      (ok tt, record m { hosts = insert m.hosts locality (insert there host.host_id host) })

  pub set_host_keep_alive :
      MockCoordinator → Text → BlobCacheHost N → Returns MockCoordinator (Unit {0})
  set_host_keep_alive m locality host = add_host_to_index m locality host

  unfoldable pub get_available_hosts :
      MockCoordinator → Text → Returns MockCoordinator (List (BlobCacheHost N))
  get_available_hosts m locality = (ok (values (or_empty (lookup m.hosts locality))), m)

  pub get_region_config : MockCoordinator → Text → Returns MockCoordinator (BlobCacheServerConfig N)
  get_region_config m locality = (err (codes "region config not found"), m)

  -- The two `Set…Lock` methods, but for the key
  abbrev take_lock : MockCoordinator → Text → Returns MockCoordinator (Unit {0})
  take_lock m key =
      if is_set (lookup m.locks key)
      then (err (codes "lock already held"), m)
      else (ok tt, record m { locks = insert m.locks key true })

  abbrev release_lock : MockCoordinator → Text → Returns MockCoordinator (Unit {0})
  release_lock m key = (ok tt, record m { locks = delete m.locks key })

  pub set_client_lock : MockCoordinator → Text → Text → Returns MockCoordinator (Unit {0})
  set_client_lock m hash host = take_lock m (client_lock_key hash)

  pub remove_client_lock : MockCoordinator → Text → Text → Returns MockCoordinator (Unit {0})
  remove_client_lock m hash host = release_lock m (client_lock_key hash)

  pub set_store_from_content_lock :
      MockCoordinator → Text → Text → Returns MockCoordinator (Unit {0})
  set_store_from_content_lock m locality source_path =
      take_lock m (store_lock_key locality source_path)

  pub remove_store_from_content_lock :
      MockCoordinator → Text → Text → Returns MockCoordinator (Unit {0})
  remove_store_from_content_lock m locality source_path =
      release_lock m (store_lock_key locality source_path)

  pub refresh_store_from_content_lock :
      MockCoordinator → Text → Text → Returns MockCoordinator (Unit {0})
  refresh_store_from_content_lock m locality source_path = (ok tt, m)

  unfoldable pub set_fs_node :
      MockCoordinator → Text → BlobFsMetadata → Returns MockCoordinator (Unit {0})
  set_fs_node m id metadata = (ok tt, record m { fs_nodes = insert m.fs_nodes id metadata })

  -- The code returns the stored pointer: this is what it points to.
  unfoldable pub get_fs_node : MockCoordinator → Text → Returns MockCoordinator BlobFsMetadata
  get_fs_node m id = elim (lookup m.fs_nodes id) [
    | none ↦ (err (codes "fs node not found"), m)
    | some metadata ↦ (ok metadata, m)
  ]

  unfoldable pub remove_fs_node : MockCoordinator → Text → Returns MockCoordinator (Unit {0})
  remove_fs_node m id = (ok tt, record m { fs_nodes = delete m.fs_nodes id })

  unfoldable pub remove_fs_node_child :
      MockCoordinator → Text → Text → Returns MockCoordinator (Unit {0})
  remove_fs_node_child m pid id = elim (lookup m.fs_children pid) [
    | none ↦ (ok tt, m)
    | some children ↦
        (ok tt, record m { fs_children = insert m.fs_children pid (without_child children id) })
  ]

  unfoldable pub get_fs_node_children :
      MockCoordinator → Text → Returns MockCoordinator (List BlobFsMetadata)
  get_fs_node_children m id = (ok (known_nodes m.fs_nodes (or_empty (lookup m.fs_children id))), m)

  unfoldable pub add_fs_node_child :
      MockCoordinator → Text → Text → Returns MockCoordinator (Unit {0})
  add_fs_node_child m pid id =
      let children = or_empty (lookup m.fs_children pid) in
      let added = if is_child children id then children else children ++ id ∷ [] in
      (ok tt, record m { fs_children = insert m.fs_children pid added })

  abbrev pub mock_coordinator : Coordinator N
  mock_coordinator = record {
    State = MockCoordinator;
    add_host_to_index = add_host_to_index;
    set_host_keep_alive = set_host_keep_alive;
    get_available_hosts = get_available_hosts;
    get_region_config = get_region_config;
    set_client_lock = set_client_lock;
    remove_client_lock = remove_client_lock;
    set_store_from_content_lock = set_store_from_content_lock;
    remove_store_from_content_lock = remove_store_from_content_lock;
    refresh_store_from_content_lock = refresh_store_from_content_lock;
    set_fs_node = set_fs_node;
    get_fs_node = get_fs_node;
    remove_fs_node = remove_fs_node;
    remove_fs_node_child = remove_fs_node_child;
    get_fs_node_children = get_fs_node_children;
    add_fs_node_child = add_fs_node_child;
  }
