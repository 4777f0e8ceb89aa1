-- ===== src/Client/Stores.antt =====
-- The requests of pkg/client.go that store a content. The replies of a host are arguments, by its
-- connection. A request to store takes the hash out of the local cache where its host has no connection,
-- and else leaves that cache as it is.
pub mod Routing
pub mod Sources
use blobcache_v.Base.{
  ℕ, Bool, Option, none, some, List, [], ◌∷◌, ◌++◌, Result, ok, err, ℕ_eq, if◌then◌else◌,
}
use blobcache_v.Base.Texts.{Text}
use blobcache_v.Backends.{Bytes}
use blobcache_v.Types.{Floats}
use blobcache_v.Server.Sources.{CacheSource, SourceResponse, LockResponse}
use blobcache_v.Client.{
  RendezvousHasher, ClientError, host_not_found, unable_to_acquire_lock, unable_to_populate_content,
  call_failed, ClientRequest, storage, Host, BlobCacheClient, key_or, get_grpc_client,
}

abbrev pub stored_hash : Result Text Text → Result ClientError Text
stored_hash (ok hash) = ok hash
stored_hash (err e) = err (call_failed e)

-- What the client makes of a response to `StoreContentFromSource` and to the one with the lock
unfoldable pub source_result : Result Text SourceResponse → Result ClientError Text
source_result (err e) = err (call_failed e)
source_result (ok response) =
    if response.is_ok then ok response.hash else err unable_to_populate_content

unfoldable pub lock_result : Result Text LockResponse → Result ClientError Text
lock_result (err e) = err (call_failed e)
lock_result (ok response) =
    if response.failed_to_acquire_lock
    then err unable_to_acquire_lock
    else if response.is_ok
    then ok response.hash
    else err unable_to_populate_content

-- The source of a file of the host
unfoldable pub file_source : Text → CacheSource
file_source path = record {
  path = path;
  bucket_name = [];
  region = [];
  endpoint_url = [];
  access_key = [];
  secret_key = [];
}

-- The routing key of an object of a bucket, if none is given
unfoldable pub source_key : CacheSource → Text
source_key source =
    source.endpoint_url
    ++ b'/' ∷ (source.region ++ b'/' ∷ (source.bucket_name ++ b'/' ∷ source.path))

module _ (N : Floats) (X : RendezvousHasher N) (K : Type 0) where
  abbrev Client : Type 0
  Client = BlobCacheClient N X K

  abbrev pub store_request : Text → Text → ClientRequest
  store_request hash key = record { rt = storage; hash = hash; key = key; host_index = 0 }

  abbrev pub by_client :
      (K → Result ClientError Text)
      → Option (K × Host N X K) × Client
      → Result ClientError Text × Client
  by_client call (none, c) = (err host_not_found, c)
  by_client call (some (k, host), c) = (call k, c)

  -- `StoreContent`: `upload` is what a host answers to the pieces, an error of a `Send` included.
  unfoldable pub store_content :
      Client
      → List Bytes
      → Text
      → Text
      → (K → List Bytes → Result Text Text)
      → ℕ
      → Result ClientError Text × Client
  store_content c chunks hash routing_key upload now =
      by_client (λ k. stored_hash (upload k chunks))
        (get_grpc_client N X K c (store_request hash (key_or routing_key hash)) now)

  -- The two replies of a host to a source: without and with the lock
  pub record SourceReplies : Type 0 where
    pub plain : K → CacheSource → Result Text SourceResponse
    pub locked : K → CacheSource → Result Text LockResponse

  abbrev pub call_source : SourceReplies → Bool → CacheSource → K → Result ClientError Text
  call_source replies lock source k =
      if lock then lock_result (replies.locked k source) else source_result (replies.plain k source)

  unfoldable pub store_content_from_fuse :
      Client → Text → Text → Bool → SourceReplies → ℕ → Result ClientError Text × Client
  store_content_from_fuse c path routing_key lock replies now =
      by_client (call_source replies lock (file_source path))
        (get_grpc_client N X K c (store_request path (key_or routing_key path)) now)

  unfoldable pub store_content_from_s3 :
      Client → CacheSource → Text → Bool → SourceReplies → ℕ → Result ClientError Text × Client
  store_content_from_s3 c source routing_key lock replies now =
      by_client (call_source replies lock source)
        (get_grpc_client N X K c (store_request [] (key_or routing_key (source_key source))) now)
