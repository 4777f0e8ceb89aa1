-- ===== src/Storage/Rounds.antt =====
-- One round of the loop of `Get` (pkg/storage.go), at an offset and a length that are not negative.
use blobcache_v.Base.{ℕ, ◌+◌, ◌-◌, ◌%◌, ◌^◌, ◌≤◌, ◌<◌, ◌≡◌, Bool, arith, length, slice, ℕ_eq}
use Prim.Native.Nat.{min}
use blobcache_v.Base.Int.{pos, rem, ◌+ℤ◌, ◌-ℤ◌, int64-+ℤ_pos}
use blobcache_v.Base.Texts.{Text}
use blobcache_v.Backends.{Bytes, Ristretto, Disk}
use blobcache_v.Storage.{
  Item, Storage, Reading, again, stop, write_at, read_chunk, copy_out, count_bytes, get_round,
}

module _ (R : Ristretto Item) (F : Disk) where
  abbrev pub reading : Storage R F → Bytes → ℕ → ℕ → ℕ → Reading R F
  reading cas dst a n d = record {
    storage = cas;
    dst = dst;
    o = pos a;
    remaining = pos n;
    dst_offset = d;
  }

  abbrev pub counted : Bool → ℕ → Storage R F → Storage R F
  counted m k cas = record cas { metrics = count_bytes m k cas.metrics }

  module _ (cas : Storage R F) (dst : Bytes) (a n d : ℕ) (bytes : Bytes) (m : Bool) where
    pub read_chunk_end :
        length bytes ≤ a % cas.page_size
        → read_chunk R F bytes m (reading cas dst a n d) ≡ (stop, reading cas dst a n d)
    unfolding read_chunk rem ◌-ℤ◌
    read_chunk_end h = ground arith

    pub read_chunk_part :
        (k : ℕ)
        → a % cas.page_size < length bytes
        → 0 < n
        → k ≡ min n (length bytes - a % cas.page_size)
        → d + k ≤ length dst
        → a + k < 2 ^ 63
        → read_chunk R F bytes m (reading cas dst a n d) ≡ (
          again,
          reading
              (counted m k cas)
              (write_at dst d (slice (a % cas.page_size) k bytes))
              (a + k)
              (n - k)
              (d + k),
        )
    unfolding read_chunk rem ◌-ℤ◌ ◌+ℤ◌ copy_out
    read_chunk_part k inside some_left e fits small = ground (arith, int64-+ℤ_pos a k small)

  pub get_round_done :
      (cas : Storage R F) (dst : Bytes) (a d : ℕ) (hash : Text)
      → get_round R F hash (reading cas dst a 0 d) ≡ (stop, reading cas dst a 0 d)
  unfolding get_round
  get_round_done cas dst a d hash = ground arith
