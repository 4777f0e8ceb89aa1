-- ===== src/Coordinator/Regions.antt =====
-- How a server in a region gets its configuration from the coordinator.
use blobcache_v.Base.{◌≡◌, refl, false, Option, none, some, map, Result, ok, err, ◌>>=◌, ℕ_eq}
use blobcache_v.Base.Texts.{Text, codes, text_eq}
use blobcache_v.Base.Maps.{lookup}
use blobcache_v.Types.{Floats}
use blobcache_v.Config.{BlobCacheServerConfig, no_metadata_config}
use blobcache_v.Config.Carried.{carried_source, config_from_proto-config_to_proto}
use blobcache_v.Coordinator.{Coordinator, Returns}
use blobcache_v.Coordinator.Service.{CacheService, handle_get_region_config, answer_region}
use blobcache_v.Coordinator.Remote.{answered, call, config_of, remote_get_region_config}

module _ (N : Floats) (C : Coordinator N) (cs : CacheService N C) (locality : Text) where
  -- The configuration of a region as its servers see it.
  abbrev pub region_config :
      Option (BlobCacheServerConfig N) → Result Text (BlobCacheServerConfig N)
  region_config none = err (codes "failed to get region config")
  region_config (some c) = ok (record c {
    disk_cache_max_usage_pct = N.widen (N.narrow c.disk_cache_max_usage_pct);
    enable_memory_cache = false;
    metadata = no_metadata_config;
    sources = map carried_source c.sources;
  })

  region-via :
      (region : Option (BlobCacheServerConfig N))
      → ◌≡◌ {A = Returns (CacheService N C) (BlobCacheServerConfig N)}
          (let (response, cs') = call answered (λ s. answer_region N C s region) cs in
            (response >>= config_of N C answered, cs'))
          (region_config region, cs)
  unfolding config_of
  region-via none = refl
  region-via (some c) = rw (config_from_proto-config_to_proto N c) refl

  pub get_region_config_lem :
      remote_get_region_config N C answered cs locality
      ≡ (region_config (lookup cs.regions locality), cs)
  unfolding remote_get_region_config handle_get_region_config
  get_region_config_lem = region-via (lookup cs.regions locality)
