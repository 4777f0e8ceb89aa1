-- ===== src/Server/Sources.antt =====
-- `StoreContentFromSource` and `StoreContentFromSourceWithLock` of pkg/server.go. What the file system
-- and S3 answer is an argument, `World`. The message of an error is the error.
pub mod Locked
use blobcache_v.Base.{
  ℕ, zero, suc, ◌+◌, ◌-◌, ◌*◌, ◌/◌, ◌%◌, ◌^◌, ◌≤◌, ◌<◌, ◌≡◌, ◌≢◌, refl, ap, subst, ◌∙◌, sym, ◌⊎◌,
  inl, inr, ◌↔◌, Bool, true, false, not, ◌&&◌, ◌||◌, Option, none, some, List, [], ◌∷◌, ◌++◌, map,
  append_assoc, append-nil, arith, Bool-cases, Option-cases, length, take, drop, slice, get_elem?,
  replicate, Result, ok, err, ◌>>=◌, ◌==◌, Eq, ℕ_eq, ltb, leb, eqb, if◌then◌else◌, lt→ltb, ltb→lt,
  leb→le, eqb_iff, All, All-append, length-append, length-take, length-drop, length-replicate,
  take-append-drop, take_of_length-le, drop_of_length-le, drop-drop, take-append-take, take-take,
  drop-take, take-append_left, drop-append_left, String,
}
use blobcache_v.Base.Int.{ℤ}
use blobcache_v.Base.Texts.{Text, codes, text_eq}
use blobcache_v.Base.Maps.{Map, lookup, insert}
use blobcache_v.Backends.{Bytes, Ristretto, Disk}
use blobcache_v.Types.{Floats}
use blobcache_v.Coordinator.{Coordinator, Returns}
use blobcache_v.S3Client.{
  S3SourceConfig, S3Client, Reply, DownloadError, new_s3_client, download_into_buffer,
}
use blobcache_v.Storage.{Item}
use blobcache_v.Server.Hex.{Sha256}
use blobcache_v.Server.Paths.{rooted}
use blobcache_v.Server.Nodes.{FileInfo, NodeError, store_content_in_blobfs}
use blobcache_v.Server.{CacheService, Status, store}

-- A file that is to be stored: `os.Stat` reports that it does not exist, `os.Open` fails, the copy
-- fails, or these are its bytes.
pub data LocalFile : Type 0 where
  missing open_failed copy_failed : Text → LocalFile
  contents : Bytes → LocalFile

-- An object of a bucket, as its download meets it
pub record S3Object : Type 0 where
  pub head : Result Text ℤ
  pub get_object : ℕ → ℕ → Reply
  pub arrivals : List ℕ

-- `load_config` is the outcome of loading the SDK's configuration with the credentials of a source.
pub record World : Type 0 where
  pub local : Text → LocalFile
  pub stat : Text → Result Text FileInfo
  pub load_config : S3SourceConfig → Result Text (Unit {0})
  pub object : S3SourceConfig → Text → S3Object
  pub clock : ℕ → ℕ × ℕ

-- `proto.CacheSource`
pub record CacheSource : Type 0 where
  pub path : Text
  pub bucket_name : Text
  pub region : Text
  pub endpoint_url : Text
  pub access_key : Text
  pub secret_key : Text

pub data SourceError : Type 0 where
  unreadable no_client : Text → SourceError
  download_failed : DownloadError → SourceError
  store_failed : Status → SourceError
  node_failed : NodeError → SourceError

pub record SourceResponse : Type 0 where
  pub is_ok : Bool
  pub hash : Text
  pub error_msg : Option SourceError

abbrev pub stored : Text → SourceResponse
stored hash = record { is_ok = true; hash = hash; error_msg = none }

abbrev pub not_stored : SourceError → SourceResponse
not_stored e = record { is_ok = false; hash = []; error_msg = some e }

pub cache_source_from_local_path : LocalFile → Result SourceError Bytes
cache_source_from_local_path (missing e) = err (unreadable e)
cache_source_from_local_path (open_failed e) = err (unreadable e)
cache_source_from_local_path (copy_failed e) = err (unreadable e)
cache_source_from_local_path (contents bytes) = ok bytes

pub source_config : CacheSource → S3SourceConfig
source_config source = record {
  bucket_name = source.bucket_name;
  region = source.region;
  endpoint_url = source.endpoint_url;
  access_key = source.access_key;
  secret_key = source.secret_key;
}

-- The key of a client in `s3ClientCache`
pub client_key : CacheSource → Text
client_key source = source.endpoint_url ++ b'/' ∷ (source.region ++ b'/' ∷ source.bucket_name)

abbrev downloaded : Result DownloadError Bytes → Result SourceError Bytes
downloaded (ok bytes) = ok bytes
downloaded (err e) = err (download_failed e)

-- `DownloadIntoBuffer` by a client, of an object as the client's credentials reach it. (Where a chunk
-- size close to 2 ^ 63 makes it panic, the server ends; here the download fails there.)
pub download : World → S3Client → Text → Result SourceError Bytes
download w client key =
    let object = w.object client.source key in
    downloaded (download_into_buffer client object.head object.get_object object.arrivals)

pub data LockError : Type 0 where
  lock_failed : Text → LockError
  source_failed : SourceError → LockError

pub record LockResponse : Type 0 where
  pub hash : Text
  pub is_ok : Bool
  pub failed_to_acquire_lock : Bool
  pub error_msg : Option LockError

-- How often the lock is refreshed while the content is stored, after that, and between the release
-- of the lock and the end of the goroutine that refreshes it.
pub record Refreshes : Type 0 where
  pub early : ℕ
  pub after : ℕ
  pub late : ℕ

module _ (R : Ristretto Item) (F : Disk) (N : Floats) (C : Coordinator N) (H : Sha256) where
  abbrev Service : Type 0
  Service = CacheService R F N C H

  -- A new client is kept for the requests that follow.
  abbrev with_client :
      World → CacheSource → Service → Result Text S3Client → Result SourceError Bytes × Service
  with_client w source cs (err e) = (err (no_client e), cs)
  with_client w source cs (ok client) = (
    download w client source.path,
    record cs { s3_client_cache = insert cs.s3_client_cache (client_key source) client },
  )

  pub cache_source_from_s3 : World → CacheSource → Service → Result SourceError Bytes × Service
  cache_source_from_s3 w source cs = elim (lookup cs.s3_client_cache (client_key source)) [
    | some client ↦ (download w client source.path, cs)
    | none ↦ with_client w source cs (
        new_s3_client (w.load_config (source_config source)) (source_config source)
          cs.server_config.s3_download_concurrency cs.server_config.s3_download_chunk_size)
  ]

  abbrev node_result :
      Text → Service → Result NodeError (Unit {0}) × C.State → SourceResponse × Service
  node_result hash cs (ok u, s) = (stored hash, record cs { coordinator = s })
  node_result hash cs (err e, s) = (not_stored (node_failed e), record cs { coordinator = s })

  -- A file of the host, unlike an object of a bucket, gets its nodes.
  abbrev add_nodes :
      World → CacheSource → Bytes → Result Status Text × Service → SourceResponse × Service
  add_nodes w source content (err e, cs) = (not_stored (store_failed e), cs)
  add_nodes w source content (ok hash, cs) =
      let path = rooted source.path in
      if source.bucket_name == []
      then node_result hash cs (
          store_content_in_blobfs N C H path hash (length content) (w.stat path) w.clock
            cs.coordinator)
      else (stored hash, cs)

  -- The response, and the error of gRPC beside it
  abbrev pub Answered : Type 0
  Answered = SourceResponse × Option SourceError × Service

  abbrev no_error : SourceResponse × Service → Answered
  no_error (response, cs) = (response, none, cs)

  abbrev store_read : World → CacheSource → Result SourceError Bytes × Service → Answered
  store_read w source (err e, cs) = (not_stored e, some e, cs)
  store_read w source (ok content, cs) =
      no_error (add_nodes w source content (store R F N C H cs content))

  pub read_source : World → CacheSource → Service → Result SourceError Bytes × Service
  read_source w source cs =
      if source.bucket_name == []
      then (cache_source_from_local_path (w.local (rooted source.path)), cs)
      else cache_source_from_s3 w source cs

  pub store_content_from_source : World → CacheSource → Service → Answered
  store_content_from_source w source cs = store_read w source (read_source w source cs)

  abbrev refresh : ℕ → Service → CacheSource → Service
  refresh zero cs source = cs
  refresh (suc n) cs source = record (refresh n cs source) {
    coordinator =
        (C.refresh_store_from_content_lock (refresh n cs source).coordinator cs.locality
          source.path).1;
  }

  -- An error of gRPC returns before the lock is removed; an error of the removal is logged.
  abbrev release_lock : Refreshes → CacheSource → Answered → LockResponse × Service
  release_lock times source (response, some e, cs) = (
    record {
      hash = [];
      is_ok = false;
      failed_to_acquire_lock = false;
      error_msg = some (source_failed e);
    },
    refresh times.after cs source,
  )
  release_lock times source (response, none, cs) =
      let cs' = refresh times.after cs source in
      let removed = C.remove_store_from_content_lock cs'.coordinator cs.locality source.path in
      (
        record {
          hash = response.hash;
          is_ok = true;
          failed_to_acquire_lock = false;
          error_msg = none;
        },
        refresh times.late (record cs' { coordinator = removed.1 }) source,
      )

  abbrev hold_lock :
      World
      → Refreshes
      → CacheSource
      → Service
      → Returns C.State (Unit {0})
      → LockResponse × Service
  hold_lock w times source cs (err e, s) = (
    record {
      hash = [];
      is_ok = false;
      failed_to_acquire_lock = true;
      error_msg = some (lock_failed e);
    },
    record cs { coordinator = s },
  )
  hold_lock w times source cs (ok u, s) = release_lock times source (
      store_content_from_source w source
        (refresh times.early (record cs { coordinator = s }) source))

  pub store_content_from_source_with_lock :
      World → Refreshes → CacheSource → Service → LockResponse × Service
  store_content_from_source_with_lock w times source cs =
      hold_lock w times source cs
        (C.set_store_from_content_lock cs.coordinator cs.locality source.path)
