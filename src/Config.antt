-- ===== src/Config.antt =====
-- The configuration of a server, in pkg/types.go: `ToProto` and `BlobCacheServerConfigFromProto`,
-- by which a coordinator hands the configuration of a region to its servers. (The overrides by
-- region of a configuration are in the coordinator's state, since only it reads them.)
pub mod Carried
use blobcache_v.Base.{
  Bool, false, Option, none, some, List, [], ◌∷◌, if◌then◌else◌, ◌==◌, Result, ok, err, ◌>>=◌,
}
use blobcache_v.Base.Int.{ℤ, pos}
use blobcache_v.Base.Texts.{Text, codes, text_eq}
use blobcache_v.Types.{Floats}

pub record ValkeyExistingPrimary : Type 0 where
  pub existing_host : Text
  pub existing_port : ℤ

pub record ValkeyConfig : Type 0 where
  pub primary_name : Text
  pub password : Text
  pub tls : Bool
  pub host : Text
  pub port : ℤ
  pub existing_primary : ValkeyExistingPrimary

pub record MetadataConfig : Type 0 where
  pub metadata_mode : Text
  pub valkey_config : ValkeyConfig
  pub redis_addr : Text
  pub redis_passwd : Text
  pub redis_tls_enabled : Bool
  pub redis_mode : Text
  pub redis_master_name : Text

-- The zero value of `MetadataConfig`
abbrev pub no_metadata_config : MetadataConfig
no_metadata_config = record {
  metadata_mode = [];
  valkey_config = record {
    primary_name = [];
    password = [];
    tls = false;
    host = [];
    port = pos 0;
    existing_primary = record { existing_host = []; existing_port = pos 0 };
  };
  redis_addr = [];
  redis_passwd = [];
  redis_tls_enabled = false;
  redis_mode = [];
  redis_master_name = [];
}

pub record JuiceFsConfig : Type 0 where
  pub redis_uri : Text
  pub bucket : Text
  pub access_key : Text
  pub secret_key : Text
  pub cache_size : ℤ
  pub block_size : ℤ
  pub prefetch : ℤ
  pub buffer_size : ℤ

abbrev pub no_juicefs : JuiceFsConfig
no_juicefs = record {
  redis_uri = [];
  bucket = [];
  access_key = [];
  secret_key = [];
  cache_size = pos 0;
  block_size = pos 0;
  prefetch = pos 0;
  buffer_size = pos 0;
}

-- `MountPointConfig`; the message of the same name has the same fields.
pub record MountPointConfig : Type 0 where
  pub bucket_name : Text
  pub mount_access_key : Text
  pub mount_secret_key : Text
  pub region : Text
  pub endpoint_url : Text
  pub force_path_style : Bool

abbrev pub no_mount_point : MountPointConfig
no_mount_point = record {
  bucket_name = [];
  mount_access_key = [];
  mount_secret_key = [];
  region = [];
  endpoint_url = [];
  force_path_style = false;
}

pub record SourceConfig : Type 0 where
  pub source_mode : Text
  pub filesystem_name : Text
  pub filesystem_path : Text
  pub juicefs : JuiceFsConfig
  pub mount_point : MountPointConfig

-- The message `JuiceFSConfig`
pub record JuiceFsMessage : Type 0 where
  pub message_redis_uri : Text
  pub message_bucket : Text
  pub message_access_key : Text
  pub message_secret_key : Text

-- The message `SourceConfig`; `none` stands for a nil pointer.
pub record SourceMessage : Type 0 where
  pub message_mode : Text
  pub message_name : Text
  pub message_path : Text
  pub message_juicefs : Option JuiceFsMessage
  pub message_mountpoint : Option MountPointConfig

abbrev pub mode_mountpoint : Text
mode_mountpoint = codes "mountpoint"

abbrev pub mode_juicefs : Text
mode_juicefs = codes "juicefs"

-- `BlobCacheServerConfigFromProto` panics on a nil pointer.
pub data Panic : Type 0 where
  nil_pointer : Panic

-- The body of the loop of `ToProto`
pub source_to_proto : SourceConfig → SourceMessage
source_to_proto s = record {
  message_mode = s.source_mode;
  message_name = s.filesystem_name;
  message_path = s.filesystem_path;
  message_juicefs =
      if s.source_mode == mode_mountpoint
      then none
      else if s.source_mode == mode_juicefs
      then some (record {
        message_redis_uri = s.juicefs.redis_uri;
        message_bucket = s.juicefs.bucket;
        message_access_key = s.juicefs.access_key;
        message_secret_key = s.juicefs.secret_key;
      })
      else none;
  message_mountpoint = if s.source_mode == mode_mountpoint then some s.mount_point else none;
}

abbrev from_pointer {ℓ} : {A : Type ℓ} → Option A → Result Panic A
from_pointer none = err nil_pointer
from_pointer (some a) = ok a

abbrev juicefs_from_proto : JuiceFsMessage → JuiceFsConfig
juicefs_from_proto j = record no_juicefs {
  redis_uri = j.message_redis_uri;
  bucket = j.message_bucket;
  access_key = j.message_access_key;
  secret_key = j.message_secret_key;
}

-- The body of the loop of `BlobCacheServerConfigFromProto`
pub source_from_proto : SourceMessage → Result Panic SourceConfig
source_from_proto s =
    let source : SourceConfig = record {
      source_mode = s.message_mode;
      filesystem_name = s.message_name;
      filesystem_path = s.message_path;
      juicefs = no_juicefs;
      mount_point = no_mount_point;
    } in
    if s.message_mode == mode_mountpoint
    then (do m ← from_pointer s.message_mountpoint; ok (record source { mount_point = m }))
    else if s.message_mode == mode_juicefs
    then (do
      j ← from_pointer s.message_juicefs
      ok (record source { juicefs = juicefs_from_proto j }))
    else ok source

pub sources_to_proto : List SourceConfig → List SourceMessage
sources_to_proto [] = []
sources_to_proto (s ∷ ss) = source_to_proto s ∷ sources_to_proto ss

pub sources_from_proto : List SourceMessage → Result Panic (List SourceConfig)
sources_from_proto [] = ok []
sources_from_proto (s ∷ ss) = do
  source ← source_from_proto s
  sources ← sources_from_proto ss
  ok (source ∷ sources)

module _ (N : Floats) where
  pub record BlobCacheServerConfig : Type 0 where
    pub mode : Text
    pub disk_cache_dir : Text
    pub disk_cache_max_usage_pct : N.F64
    pub enable_memory_cache : Bool
    pub token : Text
    pub pretty_logs : Bool
    pub object_ttl_s : ℤ
    pub max_cache_pct : ℤ
    pub page_size_bytes : ℤ
    pub metadata : MetadataConfig
    pub sources : List SourceConfig
    pub s3_download_concurrency : ℤ
    pub s3_download_chunk_size : ℤ

  -- The message of the same name
  pub record ServerConfigMessage : Type 0 where
    pub config_mode : Text
    pub config_disk_cache_dir : Text
    pub config_disk_cache_max_usage_pct : N.F32
    pub config_token : Text
    pub config_pretty_logs : Bool
    pub config_object_ttl_s : ℤ
    pub config_max_cache_pct : ℤ
    pub config_page_size_bytes : ℤ
    pub config_sources : List SourceMessage
    pub config_s3_download_concurrency : ℤ
    pub config_s3_download_chunk_size : ℤ

  -- `BlobCacheServerConfig.ToProto`
  pub config_to_proto : BlobCacheServerConfig → ServerConfigMessage
  config_to_proto c = record {
    config_mode = c.mode;
    config_disk_cache_dir = c.disk_cache_dir;
    config_disk_cache_max_usage_pct = N.narrow c.disk_cache_max_usage_pct;
    config_token = c.token;
    config_pretty_logs = c.pretty_logs;
    config_object_ttl_s = c.object_ttl_s;
    config_max_cache_pct = c.max_cache_pct;
    config_page_size_bytes = c.page_size_bytes;
    config_sources = sources_to_proto c.sources;
    config_s3_download_concurrency = c.s3_download_concurrency;
    config_s3_download_chunk_size = c.s3_download_chunk_size;
  }

  pub config_from_proto : ServerConfigMessage → Result Panic BlobCacheServerConfig
  config_from_proto c = do
    sources ← sources_from_proto c.config_sources
    ok (record {
      mode = c.config_mode;
      disk_cache_dir = c.config_disk_cache_dir;
      disk_cache_max_usage_pct = N.widen c.config_disk_cache_max_usage_pct;
      enable_memory_cache = false;
      token = c.config_token;
      pretty_logs = c.config_pretty_logs;
      object_ttl_s = c.config_object_ttl_s;
      max_cache_pct = c.config_max_cache_pct;
      page_size_bytes = c.config_page_size_bytes;
      metadata = no_metadata_config;
      sources = sources;
      s3_download_concurrency = c.config_s3_download_concurrency;
      s3_download_chunk_size = c.config_s3_download_chunk_size;
    })
