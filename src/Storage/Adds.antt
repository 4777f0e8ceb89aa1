-- ===== src/Storage/Adds.antt =====
-- The contract of `Add` of pkg/storage.go.
use blobcache_v.Base.{
  ℕ, suc, ◌+◌, ◌-◌, ◌*◌, ◌/◌, ◌<◌, ◌≡◌, ◌≢◌, refl, ◌∙◌, sym, inl, inr, true, false, some, arith,
  Bool-cases, length, drop, slice, Result, ok, err, ℕ_eq, ltb, if◌then◌else◌, length-drop,
  take_of_length-le,
}
use native.Mathlib.Decide.{ℕ_discrete}
use native.Mathlib.Nat.{mul-div_cancel}
use blobcache_v.Base.Int.{pos}
use blobcache_v.Base.Texts.{Text}
use blobcache_v.Backends.{Bytes, Ristretto, Disk}
use blobcache_v.Storage.Keys.{
  chunk_key, IsHash, chunk_key_injective, IsHash-IsName, chunk_key-IsName,
}
use blobcache_v.Storage.Holds.{
  Holds, chunk_at, pos_injective, set-MemoryHolds, write_file-DiskHolds,
}
use blobcache_v.Storage.{
  Item, Storage, Error, write_failed, unending, write_through, cache_chunk, add_chunk,
}

-- The slice that `Add` writes in the round at `i` is the i-th chunk.
pub slice-eq-chunk_at :
    (page : ℕ) (content : Bytes) (offset : ℕ)
    → slice offset
        ((if ltb (length content) (offset + page) then length content else offset + page) - offset)
        content
      ≡ slice offset page content
slice-eq-chunk_at page content offset = elim (Bool-cases (ltb (length content) (offset + page))) [
  | inl short ↦
      let size = length-drop offset content in
      rw short (
        take_of_length-le (length content - offset) (drop offset content) (omega (arith, size))
        ∙ sym (take_of_length-le page (drop offset content) (ground (arith, size))))
  | inr long ↦ let e : offset + page - offset ≡ page = omega arith in rw long (rw e refl)
]

pub mul-div_self : (i page : ℕ) → 0 < page → i * page / page ≡ i
mul-div_self i page h = mul-div_cancel i h

module _ (R : Ristretto Item) (F : Disk) where
  -- What a step of `Add` leaves alone.
  pub record SameSettings (cas cas' : Storage R F) : Type 0 where
    pub page : cas'.page_size ≡ cas.page_size
    pub exceeded : cas'.disk_usage_exceeded ≡ cas.disk_usage_exceeded

  pub add_chunk-SameSettings :
      (cas : Storage R F) (hash key : Text) (bytes : Bytes)
      → SameSettings cas (add_chunk R F cas hash key bytes).1
  unfolding add_chunk write_through cache_chunk
  add_chunk-SameSettings cas hash key bytes = record {
    page = ground arith;
    exceeded = ground arith;
  }

  -- The first `k` chunks are on disk.
  abbrev pub Below : Text → Bytes → ℕ → Storage R F → Type 0
  Below hash content k c =
      (j : ℕ)
      → j < k
      → j * c.page_size < length content
      → F.read_file c.disk hash (chunk_key hash (pos j)) ≡ some (chunk_at c.page_size content j)

  module _ (hash : Text) (content : Bytes) (v : IsHash hash) (cas : Storage R F) (i : ℕ)
      (inside : i * cas.page_size < length content) where
    abbrev pub key : Text
    key = chunk_key hash (pos i)

    abbrev pub bytes : Bytes
    bytes = chunk_at cas.page_size content i

    abbrev pub after : Result Error (Unit {0}) × Storage R F
    after = add_chunk R F cas hash key bytes

    -- A round keeps every object that is held right, unless its write fails.
    pub add_chunk-Holds :
        (g : Text) (other : Bytes)
        → IsHash g
        → (hash ≡ g → content ≡ other)
        → Holds R F cas g other
        → after.0 ≢ err write_failed
        → Holds R F after.1 g other
    unfolding add_chunk write_through cache_chunk
    add_chunk-Holds g other vg same h ran = record {
      memory = rw ((add_chunk-SameSettings cas hash key bytes).page) λ j. ground (
        arith,
        h.memory j,
        set-MemoryHolds R F _ _ _ _ h.memory hash i content (length bytes) vg v same inside j,
      );
      disk = rw ((add_chunk-SameSettings cas hash key bytes).page) λ j. ground (
        arith,
        h.disk j,
        λ (done : (F.write_file cas.disk hash key bytes).0 ≡ true).
            write_file-DiskHolds R F _ _ _ _ h.disk hash i content vg v same inside done j,
      );
    }

    add_chunk-read_file :
        after.0 ≡ ok tt
        → cas.disk_usage_exceeded ≡ false
        → F.read_file after.1.disk hash key ≡ some bytes
    unfolding add_chunk write_through cache_chunk
    add_chunk-read_file ran room =
        ground (arith, F.read_file-write_file_self cas.disk hash key bytes)

    add_chunk-read_file_ne :
        (j : ℕ)
        → j ≢ i
        → F.read_file after.1.disk hash (chunk_key hash (pos j))
          ≡ F.read_file cas.disk hash (chunk_key hash (pos j))
    unfolding add_chunk write_through cache_chunk
    add_chunk-read_file_ne j ne = ground (
      arith,
      F.read_file-write_file_ne cas.disk hash key bytes hash (chunk_key hash (pos j))
          (IsHash-IsName hash v) (chunk_key-IsName hash i v) (IsHash-IsName hash v)
          (chunk_key-IsName hash j v)
          (λ e.
            ne (sym (pos_injective i j (chunk_key_injective hash hash (pos i) (pos j) v v e).1))),
    )

    pub add_chunk-ends : after.0 ≢ err unending
    unfolding add_chunk write_through cache_chunk
    add_chunk-ends = ground arith

    pub add_chunk-Below :
        after.0 ≡ ok tt
        → cas.disk_usage_exceeded ≡ false
        → Below hash content i cas
        → Below hash content (suc i) after.1
    add_chunk-Below ran room below =
        rw ((add_chunk-SameSettings cas hash key bytes).page) λ j lt within. elim (ℕ_discrete j i) [
          | yes e ↦ rw e (add_chunk-read_file ran room)
          | no ne ↦ add_chunk-read_file_ne j ne ∙ below j (omega arith) within
        ]
