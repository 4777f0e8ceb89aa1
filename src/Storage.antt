-- ===== src/Storage.antt =====
-- pkg/storage.go: the content-addressable storage. An operation takes the storage and returns it
-- anew beside its result. `R` is the ristretto cache and `F` the disk cache directory.
-- A Go panic is an error of its own, `panic`.
pub mod Keys
pub mod Holds
pub mod Fetches
pub mod Copies
pub mod Rounds
pub mod Loop
pub mod Reads
pub mod Gets
pub mod Adds
pub mod Writes
pub mod Eviction
mod Tests
use blobcache_v.Base.{
  ℕ, zero, suc, ◌+◌, ◌-◌, ◌*◌, ◌/◌, ◌≡◌, Bool, true, false, ◌&&◌, ◌||◌, Option, none, some, List,
  [], ◌∷◌, ◌++◌, ltb, leb, if◌then◌else◌, length, take, drop, slice, Result, ok, err, ◌>>=◌,
}
use blobcache_v.Base.Int.{ℤ, pos, pos_part, ◌+ℤ◌, ◌-ℤ◌, ltb_ℤ, leb_ℤ, quot, rem, int64}
use blobcache_v.Base.Texts.{Text, join, split, before}
use blobcache_v.Backends.{Bytes, Ristretto, Disk}
use blobcache_v.Prefetcher.{Prefetcher, new_prefetcher, on_read}
use Keys.{chunk_key}

-- The two kinds of values in the memory cache: `cacheValue{Hash, Content}`, and the string of an
-- object's chunk keys.
pub data Item : Type 0 where
  chunk : Text → Bytes → Item
  keys : Text → Item

-- `unending` marks a loop that ran out of its fuel.
pub data Error : Type 0 where
  content_not_found unexpected_type invalid_boundaries set_dropped mkdir_failed : Error
  write_failed invalid_configuration invalid_memory_limit panic unending : Error

-- The counters of `BlobcacheMetrics` that `Get` moves.
pub record Metrics : Type 0 where
  pub total_reads : ℕ
  pub l0_hits : ℕ
  pub l1_hits : ℕ
  pub l2_misses : ℕ
  pub l0_bytes_served : ℕ
  pub l1_bytes_served : ℕ

abbrev pub no_metrics : Metrics
no_metrics = record {
  total_reads = 0;
  l0_hits = 0;
  l1_hits = 0;
  l2_misses = 0;
  l0_bytes_served = 0;
  l1_bytes_served = 0;
}

-- How a round of the loop of `Get` ends.
pub data Flow : Type 0 where
  again stop : Flow
  fail : Error → Flow

-- The bytes served from memory (L0) or from disk (L1).
pub count_bytes : Bool → ℕ → Metrics → Metrics
count_bytes true n m = record m { l0_bytes_served = m.l0_bytes_served + n }
count_bytes false n m = record m { l1_bytes_served = m.l1_bytes_served + n }

abbrev pub min_ℤ : ℤ → ℤ → ℤ
min_ℤ a b = if ltb_ℤ a b then a else b

-- `copy(dst[offset:], bytes)`, where it fits
abbrev pub write_at : Bytes → ℕ → Bytes → Bytes
write_at dst offset bytes = take offset dst ++ (bytes ++ drop (offset + length bytes) dst)

module _ (R : Ristretto Item) (F : Disk) where
  -- `disk_usage_exceeded` is set by the monitor; `page_size` is positive by `new_storage`.
  pub record Storage : Type 0 where
    pub cache : R.State
    pub disk : F.State
    pub disk_usage_exceeded : Bool
    pub page_size : ℕ
    pub object_ttl_s : ℕ
    pub max_cache_size_mb : ℕ
    pub metrics : Metrics
    pub prefetcher : Prefetcher

  -- `NewContentAddressableStorage`, with the total memory of the host and a fresh cache and disk.
  pub new_storage : ℤ → ℤ → ℕ → ℕ → R.State → F.State → Result Error Storage
  new_storage page_size_bytes max_cache_pct object_ttl_s total_memory_mb cache disk =
      let max_cache_size_mb = total_memory_mb * pos_part max_cache_pct / 100 in
      if leb_ℤ page_size_bytes (pos 0)
      then err invalid_configuration
      else if ltb_ℤ (pos 0) max_cache_pct && leb max_cache_size_mb 0
      then err invalid_memory_limit
      else ok (record {
        cache = cache;
        disk = disk;
        disk_usage_exceeded = false;
        page_size = pos_part page_size_bytes;
        object_ttl_s = object_ttl_s;
        max_cache_size_mb = if ltb_ℤ (pos 0) max_cache_pct then max_cache_size_mb else 0;
        metrics = no_metrics;
        prefetcher = new_prefetcher;
      })

  -- `os.MkdirAll` unless the disk is full
  unfoldable pub make_directory : Storage → Text → Result Error (Unit {0}) × Storage
  make_directory cas hash =
      let (done, disk) = F.mkdir_all cas.disk hash in
      if cas.disk_usage_exceeded
      then (ok tt, cas)
      else (if done then ok tt else err mkdir_failed, record cas { disk = disk })

  -- The write to disk in the loop of `Add`. What a failed write leaves stays.
  unfoldable pub write_through : Storage → Text → Text → Bytes → Result Error (Unit {0}) × Storage
  write_through cas hash key bytes =
      let (done, disk) = F.write_file cas.disk hash key bytes in
      if cas.disk_usage_exceeded
      then (ok tt, cas)
      else (if done then ok tt else err write_failed, record cas { disk = disk })

  -- The memory part of a round of `Add`.
  unfoldable pub cache_chunk : Storage → Text → Text → Bytes → Result Error (Unit {0}) × Storage
  cache_chunk cas hash key bytes =
      let (added, cache) = R.set cas.cache key (chunk hash bytes) (length bytes) in
      if R.get_ttl cas.cache key
      then (ok tt, cas)
      else (if added then ok tt else err set_dropped, record cas { cache = cache })

  abbrev then_cache_chunk :
      Text → Text → Bytes → Result Error (Unit {0}) × Storage → Result Error (Unit {0}) × Storage
  then_cache_chunk hash key bytes (ok u, cas) = cache_chunk cas hash key bytes
  then_cache_chunk hash key bytes (err e, cas) = (err e, cas)

  unfoldable pub add_chunk : Storage → Text → Text → Bytes → Result Error (Unit {0}) × Storage
  add_chunk cas hash key bytes = then_cache_chunk hash key bytes (write_through cas hash key bytes)

  -- What the loop of `Add` goes on with after a round.
  abbrev next_chunk :
      (Storage → Result Error (List Text) × Storage)
      → Result Error (Unit {0}) × Storage
      → Result Error (List Text) × Storage
  next_chunk loop (ok u, cas) = loop cas
  next_chunk loop (err e, cas) = (err e, cas)

  -- The loop of `Add` from `offset` on; `chunk_keys` are those of the rounds before.
  unfoldable pub add_from :
      ℕ → Text → Bytes → ℕ → List Text → Storage → Result Error (List Text) × Storage
  add_from zero hash content offset chunk_keys cas = (err unending, cas)
  add_from (suc fuel) hash content offset chunk_keys cas =
      let size = length content in
      let end = if ltb size (offset + cas.page_size) then size else offset + cas.page_size in
      let key = chunk_key hash (pos (offset / cas.page_size)) in
      let round =
        next_chunk (add_from fuel hash content (offset + cas.page_size) (chunk_keys ++ key ∷ []))
          (add_chunk cas hash key (slice offset (end - offset) content)) in
      if ltb offset size then round else (ok chunk_keys, cas)

  -- `SetWithTTL` of the list of chunk keys
  unfoldable pub index_chunks :
      Text → Result Error (List Text) × Storage → Result Error (Unit {0}) × Storage
  index_chunks hash (err e, cas) = (err e, cas)
  index_chunks hash (ok chunk_keys, cas) =
      let chunks = join b',' chunk_keys in
      let (added, cache) =
        R.set_with_ttl cas.cache hash (keys chunks) (length chunks) cas.object_ttl_s in
      (if added then ok tt else err set_dropped, record cas { cache = cache })

  abbrev in_directory :
      (Storage → Result Error (Unit {0}) × Storage)
      → Result Error (Unit {0}) × Storage
      → Result Error (Unit {0}) × Storage
  in_directory store (ok u, cas) = store cas
  in_directory store (err e, cas) = (err e, cas)

  -- A round of the loop moves the offset on, so `length content + 1` rounds are enough.
  unfoldable pub add : Storage → Text → Bytes → Result Error (Unit {0}) × Storage
  add cas hash content =
      in_directory
        (λ cas'. index_chunks hash (add_from (suc (length content)) hash content 0 [] cas'))
        (make_directory cas hash)

  pub exists : Storage → Text → Bool
  exists cas hash =
      if R.get_ttl cas.cache hash
      then true
      else elim (F.is_dir cas.disk hash) [ none ↦ false | some is_directory ↦ is_directory ]

  -- The part of `getFromDiskCache` behind its own look into the memory cache.
  pub read_chunk_file : Storage → Text → Text → Result Error Item × Storage
  read_chunk_file cas hash key = elim (F.read_file cas.disk hash key) [
    | none ↦ (err content_not_found, cas)
    | some bytes ↦ (
      ok (chunk hash bytes),
      record cas { cache = (R.set cas.cache key (chunk hash bytes) (length bytes)).1 },
    )
  ]

  -- `rawValue.(cacheValue)` panics on the string of an index entry.
  pub as_cache_value : Item → Result Error Item
  as_cache_value (chunk hash bytes) = ok (chunk hash bytes)
  as_cache_value (keys chunks) = err panic

  pub get_from_disk_cache : Storage → Text → Text → Result Error Item × Storage
  get_from_disk_cache cas hash key =
      let (raw_value, cache) = R.get cas.cache key in
      elim raw_value [
        | some value ↦ (as_cache_value value, record cas { cache = cache })
        | none ↦ read_chunk_file (record cas { cache = cache }) hash key
      ]

  -- The value of a chunk, and whether it came from memory.
  abbrev pub Fetched : Type 0
  Fetched = Result Error (Item × Bool) × Storage

  abbrev count_l1 : Result Error Item × Storage → Fetched
  count_l1 (ok value, cas) = (
    ok (value, false),
    record cas { metrics = record cas.metrics { l1_hits = cas.metrics.l1_hits + 1 } },
  )
  count_l1 (err panic, cas) = (err panic, cas)
  count_l1 (err e, cas) = (
    err content_not_found,
    record cas { metrics = record cas.metrics { l2_misses = cas.metrics.l2_misses + 1 } },
  )

  -- The two tiers of a round of `Get`: memory (L0), then disk (L1).
  pub fetch : Storage → Text → Text → Fetched
  fetch cas hash key =
      let (value, cache) = R.get cas.cache key in
      elim value [
        | some v ↦ (
          ok (v, true),
          record cas {
            cache = cache;
            metrics = record cas.metrics { l0_hits = cas.metrics.l0_hits + 1 };
          },
        )
        | none ↦ count_l1 (get_from_disk_cache (record cas { cache = cache }) hash key)
      ]

  -- The variables of the loop of `Get`. `dst` is the whole array behind the destination slice.
  pub record Reading : Type 0 where
    pub storage : Storage
    pub dst : Bytes
    pub o : ℤ
    pub remaining : ℤ
    pub dst_offset : ℕ

  -- `copy(dst[dstOffset:dstOffset+readLength], chunkBytes[start:end])` and what follows it
  pub copy_out : Bytes → Bool → ℕ → ℕ → Reading → Flow × Reading
  copy_out bytes from_memory start n r =
      if ltb (length r.dst) (r.dst_offset + n) then (fail panic, r) else (
        again,
        record r {
          storage = record r.storage { metrics = count_bytes from_memory n r.storage.metrics };
          dst = write_at r.dst r.dst_offset (slice start n bytes);
          o = int64 (r.o +ℤ pos n);
          remaining = r.remaining -ℤ pos n;
          dst_offset = r.dst_offset + n;
        },
      )

  -- The bounds of the part of a chunk that is wanted.
  pub read_chunk : Bytes → Bool → Reading → Flow × Reading
  read_chunk bytes from_memory r =
      let start = rem r.o r.storage.page_size in
      let chunk_remaining = pos (length bytes) -ℤ start in
      let read_length = min_ℤ r.remaining chunk_remaining in
      let end = start +ℤ read_length in
      if leb_ℤ chunk_remaining (pos 0)
      then (stop, r)
      else if ltb_ℤ start (pos 0) || leb_ℤ end start || ltb_ℤ (pos (length bytes)) end
      then (fail invalid_boundaries, r)
      else copy_out bytes from_memory (pos_part start) (pos_part read_length) r

  pub read_fetched : Reading → Fetched → Flow × Reading
  read_fetched r (err e, cas) = (fail e, record r { storage = cas })
  read_fetched r (ok (keys chunks, m), cas) = (fail unexpected_type, record r { storage = cas })
  read_fetched r (ok (chunk h bytes, m), cas) = read_chunk bytes m (record r { storage = cas })

  -- One round of the loop of `Get`, its test included.
  pub get_round : Text → Reading → Flow × Reading
  get_round hash r =
      if ltb_ℤ (pos 0) r.remaining
      then read_fetched r (fetch r.storage hash (chunk_key hash (quot r.o r.storage.page_size)))
      else (stop, r)

  abbrev next_round :
      (Reading → Result Error (Unit {0}) × Reading)
      → Flow × Reading
      → Result Error (Unit {0}) × Reading
  next_round loop (again, r) = loop r
  next_round loop (stop, r) = (ok tt, r)
  next_round loop (fail e, r) = (err e, r)

  pub get_loop : ℕ → Text → Reading → Result Error (Unit {0}) × Reading
  get_loop zero hash r = (err unending, r)
  get_loop (suc fuel) hash r = next_round (get_loop fuel hash) (get_round hash r)

  -- What `Get` does before its loop.
  pub begin_read : Storage → Text → ℤ → ℤ → ℕ → Storage
  begin_read cas hash offset len now = record cas {
    metrics = record cas.metrics { total_reads = cas.metrics.total_reads + 1 };
    prefetcher = on_read cas.prefetcher hash offset len now;
    cache = R.reset_ttl cas.cache hash cas.object_ttl_s;
  }

  abbrev pub start_reading : Storage → Bytes → ℤ → ℤ → Reading
  start_reading cas dst offset len = record {
    storage = cas;
    dst = dst;
    o = offset;
    remaining = len;
    dst_offset = 0;
  }

  abbrev finish_read : Result Error (Unit {0}) × Reading → Result Error ℕ × Bytes × Storage
  finish_read (ok u, r) = (ok r.dst_offset, r.dst, r.storage)
  finish_read (err e, r) = (err e, r.dst, r.storage)

  -- A round that goes on reads at least one byte, so `len + 1` rounds are enough.
  pub get : Storage → Text → ℤ → ℤ → Bytes → ℕ → Result Error ℕ × Bytes × Storage
  get cas hash offset len dst now = finish_read (
      get_loop (suc (pos_part len)) hash
        (start_reading (begin_read cas hash offset len now) dst offset len))

  pub delete_all : R.State → List Text → R.State
  delete_all cache [] = cache
  delete_all cache (k ∷ ks) = delete_all (R.del cache k) ks

  -- The chunk keys of the object that an evicted entry belongs to. `chunks.(string)` panics on a
  -- chunk.
  pub evicted_keys : Storage → Item → Result Error (List Text)
  evicted_keys cas (keys chunks) = ok (split b',' chunks)
  evicted_keys cas (chunk hash bytes) = elim (R.get cas.cache hash).0 [
    | none ↦ ok []
    | some (keys chunks) ↦ ok (split b',' chunks)
    | some (chunk h b) ↦ err panic
  ]

  pub on_evict : Storage → Item → Result Error Storage
  on_evict cas item = do
    chunk_keys ← evicted_keys cas item
    ok (record cas { cache = delete_all cas.cache chunk_keys })
