-- ===== src/Coordinator.antt =====
-- The interface of a coordinator, `CoordinatorClient` of pkg/coordinator_local.go. An operation takes
-- the coordinator's state and returns it anew; an error is its message.
pub mod Service
pub mod Remote
pub mod Refines
pub mod Regions
pub mod StoreLocks
pub mod Mock
mod Tests
use blobcache_v.Base.{List, Result}
use blobcache_v.Base.Texts.{Text}
use blobcache_v.Types.{Floats, BlobFsMetadata, BlobCacheHost}
use blobcache_v.Config.{BlobCacheServerConfig}

-- What an operation returns beside the state.
abbrev pub Returns : Type 0 → Type 0 → Type 0
Returns S A = Result Text A × S

pub record Coordinator (N : Floats) : Type 1 where
  pub State : Type 0
  pub add_host_to_index : State → Text → BlobCacheHost N → Returns State (Unit {0})
  pub set_host_keep_alive : State → Text → BlobCacheHost N → Returns State (Unit {0})
  pub get_available_hosts : State → Text → Returns State (List (BlobCacheHost N))
  pub get_region_config : State → Text → Returns State (BlobCacheServerConfig N)
  pub set_client_lock : State → Text → Text → Returns State (Unit {0})
  pub remove_client_lock : State → Text → Text → Returns State (Unit {0})
  pub set_store_from_content_lock : State → Text → Text → Returns State (Unit {0})
  pub remove_store_from_content_lock : State → Text → Text → Returns State (Unit {0})
  pub refresh_store_from_content_lock : State → Text → Text → Returns State (Unit {0})
  pub set_fs_node : State → Text → BlobFsMetadata → Returns State (Unit {0})
  pub get_fs_node : State → Text → Returns State BlobFsMetadata
  pub remove_fs_node : State → Text → Returns State (Unit {0})
  pub remove_fs_node_child : State → Text → Text → Returns State (Unit {0})
  pub get_fs_node_children : State → Text → Returns State (List BlobFsMetadata)
  pub add_fs_node_child : State → Text → Text → Returns State (Unit {0})
