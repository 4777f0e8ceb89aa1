-- ===== src/Storage/Fetches.antt =====
-- The two tiers of `Get` of pkg/storage.go where the storage holds the right content.
use blobcache_v.Base.{
  ℕ, ◌*◌, ◌<◌, ◌≡◌, ◌≢◌, refl, ◌⊎◌, inl, inr, Bool, some, arith, Option-cases, length, ok, err,
  ℕ_eq,
}
use blobcache_v.Base.Int.{pos}
use blobcache_v.Base.Texts.{Text}
use blobcache_v.Backends.{Bytes, Forgets, Ristretto, Disk}
use blobcache_v.Storage.Keys.{chunk_key, IsHash}
use blobcache_v.Storage.Holds.{
  expected, item_of, Holds, MemoryHolds, chunk_at, get-MemoryHolds, set-MemoryHolds,
}
use blobcache_v.Storage.{
  Item, chunk, Storage, content_not_found, fetch, get_from_disk_cache, read_chunk_file,
  as_cache_value,
}

pub inside_of_expected :
    (page : ℕ) (content : Bytes) (i : ℕ) (bytes : Bytes)
    → expected page content i ≡ some bytes
    → (i * page < length content) × (bytes ≡ chunk_at page content i)
inside_of_expected page content i bytes e = ground arith

module _ (R : Ristretto Item) (F : Disk) (hash : Text) (content : Bytes) (v : IsHash hash) where
  module _ (cas : Storage R F) (i : ℕ) (h : Holds R F cas hash content) where
    abbrev key : Text
    key = chunk_key hash (pos i)

    abbrev cache₁ : R.State
    cache₁ = (R.get cas.cache key).1

    abbrev cache₂ : R.State
    cache₂ = (R.get cache₁ key).1

    memory₁ : MemoryHolds R F cas.page_size cache₁ hash content
    memory₁ = get-MemoryHolds R F _ _ _ _ h.memory key

    memory₂ : MemoryHolds R F cas.page_size cache₂ hash content
    memory₂ = get-MemoryHolds R F _ _ _ _ memory₁ key

    memory₃ :
        (bytes : Bytes)
        → expected cas.page_size content i ≡ some bytes
        → MemoryHolds R F cas.page_size
            (R.set cache₂ key (chunk hash bytes) (length bytes)).1
            hash
            content
    memory₃ bytes e =
        let inside = inside_of_expected cas.page_size content i bytes e in
        rw inside.1 (
          set-MemoryHolds R F _ _ _ _ memory₂ hash i content
            (length (chunk_at cas.page_size content i)) v v (λ _. refl) inside.0)

    fetch-memory :
        (j : ℕ)
        → Forgets
            (item_of hash (expected cas.page_size content j))
            (R.held (fetch R F cas hash key).1.cache (chunk_key hash (pos j)))
    unfolding fetch get_from_disk_cache read_chunk_file as_cache_value
    fetch-memory j = elim (Option-cases (expected cas.page_size content i)) [
      | inl e ↦ ground (arith, memory₁ j, memory₂ j, h.disk i)
      | inr (bytes, e) ↦ ground (arith, memory₁ j, memory₂ j, h.disk i, memory₃ bytes e j)
    ]

    pub fetch-disk :
        ((fetch R F cas hash key).1.disk ≡ cas.disk)
        × ((fetch R F cas hash key).1.page_size ≡ cas.page_size)
    unfolding fetch get_from_disk_cache read_chunk_file as_cache_value
    fetch-disk = ground arith

    -- A lookup keeps what the two tiers hold.
    pub fetch-Holds : Holds R F (fetch R F cas hash key).1 hash content
    fetch-Holds = record {
      memory = rw (fetch-disk.1) fetch-memory;
      disk = rw (fetch-disk.1) (rw (fetch-disk.0) h.disk);
    }

    -- It finds the chunk or misses; it misses behind the end of the content, and does not miss a
    -- chunk that is on disk.
    pub fetch-result :
        ((fetch R F cas hash key).0 ≡ err content_not_found)
        ⊎ ((bytes : Bytes) × (m : Bool) × (expected cas.page_size content i ≡ some bytes)
            × ((fetch R F cas hash key).0 ≡ ok (chunk hash bytes, m)))
    unfolding fetch get_from_disk_cache read_chunk_file as_cache_value
    fetch-result =
        ground
          (arith, h.memory i, memory₁ i, R.get-held cas.cache key, R.get-held cache₁ key, h.disk i)

    pub fetch_on_disk :
        (bytes : Bytes)
        → F.read_file cas.disk hash key ≡ some bytes
        → (fetch R F cas hash key).0 ≢ err content_not_found
    unfolding fetch get_from_disk_cache read_chunk_file as_cache_value
    fetch_on_disk bytes e =
        ground
          (arith, h.memory i, memory₁ i, R.get-held cas.cache key, R.get-held cache₁ key, h.disk i)
