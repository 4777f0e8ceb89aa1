-- ===== src/Server/Example.antt =====
-- A service of pkg/server.go with a memory cache that keeps nothing, a disk and a coordinator in memory,
-- and a digest that is not SHA-256.
use blobcache_v.Base.{
  ℕ, zero, suc, ◌%◌, ◌<◌, ◌≡◌, refl, ◌∙◌, sym, inl, true, false, [], ◌∷◌, ◌++◌, map, arith, length,
  take, replicate, ok, ℕ_eq, All, All-append, length-append, length-take, length-replicate,
}
use blobcache_v.Base.Int.{pos}
use blobcache_v.Base.Texts.{Text, codes}
use blobcache_v.Base.Maps.{lookup}
use blobcache_v.Backends.{Bytes}
use blobcache_v.Backends.Plain.{forgetful, plain_disk}
use blobcache_v.Prefetcher.{new_prefetcher}
use blobcache_v.Types.Plain.{whole}
use blobcache_v.Config.{BlobCacheServerConfig, no_metadata_config}
use blobcache_v.Coordinator.Mock.{MockCoordinator, mock_coordinator}
use blobcache_v.Storage.Keys.{IsHash}
use blobcache_v.Storage.Holds.{Holds}
use blobcache_v.Storage.Gets.{OnDisk}
use blobcache_v.Storage.Writes.{add-Holds, add-OnDisk, ok-ne-err}
use blobcache_v.Storage.{
  Storage, no_metrics, add, add_from, add_chunk, write_through, cache_chunk, index_chunks,
  make_directory,
}
use blobcache_v.Server.Hex.{Sha256}
use blobcache_v.Server.{CacheService}

zeros : ℕ → Bytes
zeros n = replicate n 0

abbrev bytes : Bytes → Bytes
bytes = map (λ c. c % 256)

length-digest : (content : Bytes) → length (take 32 (bytes content ++ zeros 32)) ≡ 32
unfolding zeros
length-digest content = omega (
  arith,
  length-take 32 (bytes content ++ replicate 32 0),
  length-append (bytes content) (replicate {A = ℕ} 32 0),
  length-replicate {A = ℕ} 32 0,
)

All-take : (n : ℕ) (bs : Bytes) → All (λ b. b < 256) bs → All (λ b. b < 256) (take n bs)
All-take zero bs h = tt
All-take (suc n) [] h = tt
All-take (suc n) (b ∷ bs) h = (h.0, All-take n bs h.1)

bytes_small : (content : Bytes) → All (λ b. b < 256) (bytes content)
bytes_small [] = tt
bytes_small (c ∷ cs) = (omega arith, bytes_small cs)

-- A digest: the first 32 bytes, filled up with zeros
pub toy : Sha256
unfolding zeros
toy = record {
  sum256 = λ content. take 32 (bytes content ++ zeros 32);
  length-sum256 = length-digest;
  sum256-bytes = λ content.
      All-take 32 (bytes content ++ zeros 32)
        (All-append (λ b. b < 256) (bytes content) (zeros 32) (bytes_small content) (omega arith));
}

abbrev pub hash : Text
hash = codes "ab12"

abbrev pub content : Bytes
content = codes "hello world"

pub hash-IsHash : IsHash hash
hash-IsHash = record { nonempty = λ e. cc; digits = ground arith }

abbrev pub empty_store : Storage forgetful plain_disk
empty_store = record {
  cache = tt;
  disk = [];
  disk_usage_exceeded = false;
  page_size = 4;
  object_ttl_s = 60;
  max_cache_size_mb = 0;
  metrics = no_metrics;
  prefetcher = new_prefetcher;
}

pub empty-Holds : (h : Text) (c : Bytes) → Holds forgetful plain_disk empty_store h c
unfolding lookup
empty-Holds h c = record { memory = λ i. inl refl; disk = λ i. inl refl }

abbrev pub stored : Storage forgetful plain_disk
stored = (add forgetful plain_disk empty_store hash content).1

added : (add forgetful plain_disk empty_store hash content).0 ≡ ok tt
unfolding add make_directory add_from add_chunk write_through cache_chunk index_chunks
added = refl

pub stored_page : stored.page_size ≡ 4
unfolding add make_directory add_from add_chunk write_through cache_chunk index_chunks
stored_page = refl

pub stored-Holds : Holds forgetful plain_disk stored hash content
stored-Holds =
    add-Holds forgetful plain_disk hash content hash-IsHash empty_store (omega arith) hash content
      hash-IsHash (λ e. refl) (empty-Holds hash content) (λ e. ok-ne-err (sym added ∙ e))

pub stored-OnDisk : OnDisk forgetful plain_disk hash content hash-IsHash stored
stored-OnDisk =
    (add-OnDisk forgetful plain_disk hash content hash-IsHash empty_store (omega arith)).1 added
      refl

abbrev config : BlobCacheServerConfig whole
config = record {
  mode = codes "coordinator";
  disk_cache_dir = codes "/cache";
  disk_cache_max_usage_pct = 90;
  enable_memory_cache = true;
  token = codes "token";
  pretty_logs = false;
  object_ttl_s = pos 300;
  max_cache_pct = pos 60;
  page_size_bytes = pos 4;
  metadata = no_metadata_config;
  sources = [];
  s3_download_concurrency = pos 16;
  s3_download_chunk_size = pos 64000000;
}

abbrev pub coordinator : MockCoordinator whole
coordinator = record { hosts = []; fs_nodes = []; fs_children = []; locks = [] }

-- A service over a storage
unfoldable pub service :
    Storage forgetful plain_disk
    → CacheService forgetful plain_disk whole (mock_coordinator whole) toy
service cas = record {
  host_id = codes "blobcache-host-1";
  locality = codes "east";
  private_ip_addr = [];
  public_ip_addr = [];
  cas = cas;
  server_config = config;
  coordinator = coordinator;
  s3_client_cache = [];
}

pub service_cas : (cas : Storage forgetful plain_disk) → (service cas).cas ≡ cas
unfolding service
service_cas cas = refl
