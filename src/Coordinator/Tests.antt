-- ===== src/Coordinator/Tests.antt =====
-- Calls of the coordinator in memory, directly and over the remote client.
use blobcache_v.Base.{◌≡◌, ◌≢◌, ◌⊎◌, true, false, [], ◌∷◌, map, ok, err, ℕ_eq, if◌then◌else◌}
use blobcache_v.Base.Int.{pos}
use blobcache_v.Base.Texts.{Text, Lacks, codes, text_eq}
use blobcache_v.Base.Maps.{lookup}
use blobcache_v.Types.Plain.{whole}
use blobcache_v.Config.{
  BlobCacheServerConfig, SourceConfig, no_metadata_config, no_juicefs, no_mount_point,
  config_to_proto, config_from_proto,
}
use blobcache_v.Config.Carried.{carried_source, config_from_proto-config_to_proto}
use blobcache_v.Coordinator.Service.{CacheService}
use blobcache_v.Coordinator.Remote.{
  answered, unanswered, remote_get_region_config, remote_set_store_from_content_lock,
}
use blobcache_v.Coordinator.Refines.{Refines, remote-Refines}
use blobcache_v.Coordinator.Regions.{region_config, get_region_config_lem}
use blobcache_v.Coordinator.Mock.{
  MockCoordinator, store_lock_key, mock_coordinator, set_store_from_content_lock,
  remove_store_from_content_lock, set_client_lock,
}
use blobcache_v.Coordinator.Mock.Locks.{locked, already_held, store_lock_exclusive, lost_lock}

abbrev east : Text
east = codes "east"

abbrev source : SourceConfig
source = record {
  source_mode = codes "mountpoint";
  filesystem_name = codes "data";
  filesystem_path = codes "/data";
  juicefs = record no_juicefs { bucket = codes "unused" };
  mount_point = record no_mount_point { bucket_name = codes "bucket" };
}

abbrev config : BlobCacheServerConfig whole
config = record {
  mode = codes "slave";
  disk_cache_dir = codes "/cache";
  disk_cache_max_usage_pct = 90;
  enable_memory_cache = true;
  token = codes "token";
  pretty_logs = false;
  object_ttl_s = pos 300;
  max_cache_pct = pos 60;
  page_size_bytes = pos 4000000;
  metadata = no_metadata_config;
  sources = source ∷ [];
  s3_download_concurrency = pos 16;
  s3_download_chunk_size = pos 64000000;
}

abbrev mock : MockCoordinator whole
mock = record {
  hosts = [];
  fs_nodes = [];
  fs_children = (codes "root", codes "a" ∷ codes "b" ∷ []) ∷ [];
  locks = [];
}

-- (Its state has the type of the interface's by computation.)
cache_service : CacheService whole (mock_coordinator whole)
cache_service = record { coordinator = mock; regions = (east, config) ∷ [] }

remote-Refines_example : Refines whole (mock_coordinator whole) cache_service
remote-Refines_example = remote-Refines whole (mock_coordinator whole) cache_service

config_from_proto-config_to_proto_example :
    config_from_proto whole (config_to_proto whole config)
    ≡ ok (record config {
      enable_memory_cache = false;
      metadata = no_metadata_config;
      sources = map carried_source (source ∷ []);
    })
config_from_proto-config_to_proto_example = config_from_proto-config_to_proto whole config

get_region_config_lem_example :
    remote_get_region_config whole (mock_coordinator whole) answered cache_service east ≡ (
      region_config whole
          (mock_coordinator whole)
          cache_service
          east
          (lookup cache_service.regions east),
      cache_service,
    )
get_region_config_lem_example =
    get_region_config_lem whole (mock_coordinator whole) cache_service east

lost_lock_example :
    let (result, cs') =
      remote_set_store_from_content_lock whole
        (mock_coordinator whole)
        (unanswered (codes "timeout"))
        cache_service
        east
        (codes "/data/file") in
    (result ≡ err (codes "timeout"))
    × (remote_set_store_from_content_lock whole
          (mock_coordinator whole)
          answered
          cs'
          east
          (codes "/data/file")
        ≡ (err (codes "failed to set store from content lock"), cs'))
lost_lock_example = lost_lock whole cache_service (codes "timeout") east (codes "/data/file")

store_lock_exclusive_example :
    let taken = (set_store_from_content_lock whole mock east (codes "/f")).1 in
    let released = (remove_store_from_content_lock whole mock east (codes "/f")).1 in
    ((set_store_from_content_lock whole mock east (codes "/f")).0 ≡ (
      if locked whole mock (store_lock_key east (codes "/f")) then already_held whole else ok tt))
    × (set_store_from_content_lock whole taken east (codes "/f") ≡ (already_held whole, taken))
    × ((set_store_from_content_lock whole released east (codes "/f")).0 ≡ ok tt)
    × ((hash host : Text)
        → ((set_client_lock whole taken hash host).0 ≡ (set_client_lock whole mock hash host).0)
          × ((set_client_lock whole released hash host).0
              ≡ (set_client_lock whole mock hash host).0))
    × ((k q : Text)
        → Lacks b':' east
        → Lacks b':' k
        → (east ≢ k) ⊎ (codes "/f" ≢ q)
        → ((set_store_from_content_lock whole taken k q).0
            ≡ (set_store_from_content_lock whole mock k q).0)
          × ((set_store_from_content_lock whole released k q).0
              ≡ (set_store_from_content_lock whole mock k q).0))
store_lock_exclusive_example = store_lock_exclusive whole mock east (codes "/f")
