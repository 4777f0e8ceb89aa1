-- ===== src/Storage/Tests.antt =====
-- Runs of pkg/storage.go on an object of eleven bytes in pages of four, over a memory cache that
-- keeps everything and one that keeps nothing.
use blobcache_v.Base.{
  ℕ, ◌*◌, ◌<◌, ◌≡◌, ◌≢◌, refl, ap, ◌∙◌, sym, ◌⊎◌, inl, false, none, some, [], ◌∷◌, ◌++◌, arith,
  length, drop, slice, ok, err, ℕ_eq, if◌then◌else◌,
}
use blobcache_v.Base.Int.{pos}
use blobcache_v.Base.Texts.{Text, codes, join, decimal, list_beq, text_eq}
use blobcache_v.Base.Maps.{lookup, insert}
use blobcache_v.Backends.{Bytes}
use blobcache_v.Backends.Plain.{keeping, forgetful, plain_disk}
use blobcache_v.Prefetcher.{new_prefetcher}
use blobcache_v.Storage.Keys.{chunk_key, IsHash}
use blobcache_v.Storage.Holds.{Holds}
use blobcache_v.Storage.Reads.{available, readable}
use blobcache_v.Storage.Gets.{OnDisk, get_sound, get-OnDisk}
use blobcache_v.Storage.Writes.{get-add, add-OnDisk, add-Holds, ok-ne-err}
use blobcache_v.Storage.Eviction.{on_evict-add}
use blobcache_v.Storage.{
  Item, keys, Storage, no_metrics, content_not_found, unending, add, get, add_from, add_chunk,
  write_through, cache_chunk, index_chunks, make_directory, on_evict,
}

abbrev hash : Text
hash = codes "ab12"

abbrev other_hash : Text
other_hash = codes "cd34"

abbrev content : Bytes
content = codes "hello world"

abbrev destination : Bytes
destination = 0 ∷ 0 ∷ 0 ∷ 0 ∷ 0 ∷ 0 ∷ []

hash-IsHash : IsHash hash
hash-IsHash = record { nonempty = λ e. cc; digits = ground arith }

other-IsHash : IsHash other_hash
other-IsHash = record { nonempty = λ e. cc; digits = ground arith }

-- A store that keeps nothing in memory
abbrev small_store : Storage forgetful plain_disk
small_store = record {
  cache = tt;
  disk = [];
  disk_usage_exceeded = false;
  page_size = 4;
  object_ttl_s = 60;
  max_cache_size_mb = 0;
  metrics = no_metrics;
  prefetcher = new_prefetcher;
}

abbrev large_store : Storage keeping plain_disk
large_store = record {
  cache = [];
  disk = [];
  disk_usage_exceeded = false;
  page_size = 4;
  object_ttl_s = 60;
  max_cache_size_mb = 1;
  metrics = no_metrics;
  prefetcher = new_prefetcher;
}

small_store-Holds : (h : Text) (c : Bytes) → Holds forgetful plain_disk small_store h c
unfolding lookup
small_store-Holds h c = record { memory = λ i. inl refl; disk = λ i. inl refl }

large_store-Holds : (h : Text) (c : Bytes) → Holds keeping plain_disk large_store h c
unfolding lookup
large_store-Holds h c = record { memory = λ i. inl refl; disk = λ i. inl refl }

small_add : (add forgetful plain_disk small_store hash content).0 ≡ ok tt
unfolding add make_directory add_from add_chunk write_through cache_chunk index_chunks
small_add = refl

large_add : (add keeping plain_disk large_store hash content).0 ≡ ok tt
unfolding add make_directory add_from add_chunk write_through cache_chunk index_chunks lookup insert
    chunk_key decimal list_beq
large_add = refl

get-add_example :
    let (result, dst', cas') =
      get forgetful plain_disk
        (add forgetful plain_disk small_store hash content).1
        hash
        (pos 3)
        (pos 6)
        destination
        0 in
    (result ≡ ok 6) × (dst' ≡ slice 3 6 content ++ drop 6 destination)
get-add_example =
    get-add forgetful plain_disk hash content hash-IsHash small_store (omega arith) 3 6 destination
      0 (small_store-Holds hash content) small_add refl (omega arith) (ground arith) (ground arith)
      (omega arith)

add-OnDisk_example :
    (add keeping plain_disk large_store hash content).0 ≢ err unending
    × ((add keeping plain_disk large_store hash content).0 ≡ ok tt
        → false ≡ false
        → OnDisk keeping plain_disk hash content hash-IsHash
            (add keeping plain_disk large_store hash content).1)
add-OnDisk_example =
    add-OnDisk keeping plain_disk hash content hash-IsHash large_store (omega arith)

first_byte : Bytes → ℕ
first_byte [] = 0
first_byte (b ∷ bs) = b

hashes_differ : hash ≢ other_hash
unfolding first_byte
hashes_differ e = let bytes : 97 ≡ 99 = ap first_byte e in omega (arith, bytes)

add-Holds_example :
    Holds keeping plain_disk
      (add keeping plain_disk large_store hash content).1
      other_hash
      (codes "bye")
add-Holds_example =
    add-Holds keeping plain_disk hash content hash-IsHash large_store (omega arith) other_hash
      (codes "bye") other-IsHash (λ e. absurd (hashes_differ e))
      (large_store-Holds other_hash (codes "bye")) (λ e. ok-ne-err (sym large_add ∙ e))

small_Holds :
    Holds forgetful plain_disk (add forgetful plain_disk small_store hash content).1 hash content
small_Holds =
    add-Holds forgetful plain_disk hash content hash-IsHash small_store (omega arith) hash content
      hash-IsHash (λ e. refl) (small_store-Holds hash content) (λ e. ok-ne-err (sym small_add ∙ e))

-- The object after `Add`, on disk alone.
abbrev stored : Storage forgetful plain_disk
stored = (add forgetful plain_disk small_store hash content).1

stored_page : stored.page_size ≡ 4
unfolding add make_directory add_from add_chunk write_through cache_chunk index_chunks
stored_page = refl

get_sound_example :
    let (result, dst', cas') = get forgetful plain_disk stored hash (pos 9) (pos 5) destination 0 in
    Holds forgetful plain_disk cas' hash content
    × ((result ≡ err content_not_found)
        ⊎ ((result ≡ ok (available content 9 5))
            × (dst'
                ≡ slice 9 (available content 9 5) content
                  ++ drop (available content 9 5) destination)))
get_sound_example =
    get_sound forgetful plain_disk hash content hash-IsHash stored 9 5 destination 0 small_Holds
      (rw stored_page (omega arith)) (ground arith) (omega arith)

stored-OnDisk : OnDisk forgetful plain_disk hash content hash-IsHash stored
stored-OnDisk =
    (add-OnDisk forgetful plain_disk hash content hash-IsHash small_store (omega arith)).1 small_add
      refl

-- The object ends inside its third page, so that a read beyond the end is short.
get-OnDisk_example : (get forgetful plain_disk stored hash (pos 9) (pos 5) destination 0).0 ≡ (
    if readable stored.page_size (length content) 9 5
    then ok (available content 9 5)
    else err content_not_found)
get-OnDisk_example =
    get-OnDisk forgetful plain_disk hash content hash-IsHash stored 9 5 destination 0 small_Holds
      (rw stored_page (omega arith)) (ground arith) (omega arith) stored-OnDisk

abbrev entry : Item
entry = keys (codes "ab12-0,ab12-1,ab12-2")

large_entry : lookup (add keeping plain_disk large_store hash content).1.cache hash ≡ some entry
unfolding add make_directory add_from add_chunk write_through cache_chunk index_chunks lookup insert
    chunk_key decimal join list_beq
large_entry = refl

on_evict-add_example :
    (cas' : Storage keeping plain_disk) × (on_evict keeping plain_disk
        (add keeping plain_disk large_store hash content).1
        entry
      ≡ ok cas')
    × ((i : ℕ) → i * 4 < length content → lookup cas'.cache (chunk_key hash (pos i)) ≡ none)
on_evict-add_example =
    on_evict-add keeping plain_disk hash content hash-IsHash large_store entry (omega arith)
      (ground arith) large_add large_entry
