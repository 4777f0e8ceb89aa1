-- ===== src/Metadata/Local.antt =====
-- pkg/coordinator_local.go: the coordinator of a server in the mode "coordinator", which delegates every
-- operation to the metadata engine.
use blobcache_v.Base.{Option, Result, ok, ℕ_eq}
use blobcache_v.Base.Texts.{Text}
use blobcache_v.Types.{Floats, BlobCacheHost}
use blobcache_v.Config.{BlobCacheServerConfig}
use blobcache_v.Coordinator.{Coordinator, Returns}
use blobcache_v.Metadata.{
  Redis, Engine, Does, get_available_hosts, remove_host_from_index, get_fs_node, set_fs_node,
  get_fs_node_children, remove_fs_node, remove_fs_node_child, add_fs_node_child, set_client_lock,
  remove_client_lock, set_store_from_content_lock, remove_store_from_content_lock,
  refresh_store_from_content_lock, add_host_to_index, set_host_keep_alive,
}

module _ (R : Redis) (N : Floats) (encode : BlobCacheHost N → Result Text Text)
    (decode : Text → Option (BlobCacheHost N)) where
  pub record CoordinatorClientLocal : Type 0 where
    pub server_config : BlobCacheServerConfig N
    pub metadata : Engine R

  abbrev with_metadata :
      {A : Type 0} → CoordinatorClientLocal → Does R A → Returns CoordinatorClientLocal A
  with_metadata c (result, m) = (result, record c { metadata = m })

  pub local_coordinator : Coordinator N
  local_coordinator = record {
    State = CoordinatorClientLocal;
    add_host_to_index = λ c locality host.
        with_metadata c (add_host_to_index R N encode decode c.metadata locality host);
    set_host_keep_alive = λ c locality host.
        with_metadata c (set_host_keep_alive R N encode decode c.metadata locality host);
    get_available_hosts = λ c locality. with_metadata c (
        get_available_hosts R N encode decode
          (λ m id. remove_host_from_index R N encode decode m locality id) c.metadata locality);
    get_region_config = λ c locality. (ok c.server_config, c);
    set_client_lock = λ c hash host. with_metadata c (set_client_lock R c.metadata hash host);
    remove_client_lock = λ c hash host. with_metadata c (remove_client_lock R c.metadata hash host);
    set_store_from_content_lock =
        λ c locality path. with_metadata c (set_store_from_content_lock R c.metadata locality path);
    remove_store_from_content_lock = λ c locality path.
        with_metadata c (remove_store_from_content_lock R c.metadata locality path);
    refresh_store_from_content_lock = λ c locality path.
        with_metadata c (refresh_store_from_content_lock R c.metadata locality path);
    set_fs_node = λ c id node. with_metadata c (set_fs_node R c.metadata id node);
    get_fs_node = λ c id. with_metadata c (get_fs_node R c.metadata id);
    remove_fs_node = λ c id. with_metadata c (remove_fs_node R c.metadata id);
    remove_fs_node_child = λ c pid id. with_metadata c (remove_fs_node_child R c.metadata pid id);
    get_fs_node_children = λ c id. with_metadata c (get_fs_node_children R c.metadata id);
    add_fs_node_child = λ c pid id. with_metadata c (add_fs_node_child R c.metadata pid id);
  }
