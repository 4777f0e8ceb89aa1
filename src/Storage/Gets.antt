-- ===== src/Storage/Gets.antt =====
-- The contract of `Get` of pkg/storage.go.
use blobcache_v.Base.{
  ℕ, zero, suc, ◌+◌, ◌-◌, ◌*◌, ◌/◌, ◌^◌, ◌≤◌, ◌<◌, ◌≡◌, refl, ap, ◌∙◌, sym, ◌⊎◌, inl, inr, Bool,
  true, false, none, some, ◌++◌, arith, length, drop, slice, Result, ok, err, ℕ_eq, if◌then◌else◌,
  length-take, length-drop,
}
use Prim.Native.Nat.{max}
use native.Mathlib.Nat.{div-add-mod}
use blobcache_v.Base.Int.{pos}
use blobcache_v.Base.Texts.{Text}
use blobcache_v.Backends.{Bytes, Ristretto, Disk}
use blobcache_v.Storage.Keys.{chunk_key, IsHash}
use blobcache_v.Storage.Holds.{Holds, chunk_at, reset_ttl-MemoryHolds}
use blobcache_v.Storage.Copies.{length-write_at}
use blobcache_v.Storage.Rounds.{reading, get_round_done}
use blobcache_v.Storage.Loop.{Kept, missed, ended, copied, get_round-Round}
use blobcache_v.Storage.Reads.{
  available, readable, readable-copied, length-slice, Delivers, get_loop-Delivers,
}
use blobcache_v.Storage.{
  Item, Storage, Reading, Error, content_not_found, write_at, get_loop, begin_read, finish_read,
  start_reading, get,
}

module _ (R : Ristretto Item) (F : Disk) (hash : Text) (content : Bytes) (v : IsHash hash) where
  -- Every chunk of the content is on disk.
  abbrev pub OnDisk : Storage R F → Type 0
  OnDisk cas =
      (i : ℕ)
      → i * cas.page_size < length content
      → F.read_file cas.disk hash (chunk_key hash (pos i)) ≡ some (chunk_at cas.page_size content i)

  abbrev pub outcome : Bool → Result Error (Unit {0})
  outcome true = ok tt
  outcome false = err content_not_found

  OnDisk-Kept :
      (cas cas' : Storage R F) → Kept R F hash content v cas cas' → OnDisk cas → OnDisk cas'
  OnDisk-Kept cas cas' k s = rw k.disk (rw k.page s)

  not_readable :
      (page size a n : ℕ) → 0 < n → size ≤ a / page * page → readable page size a n ≡ false
  not_readable page size a n some_left over =
      let e : max a size ≡ a = omega (arith, div-add-mod a page) in
      rw e (ground (arith, div-add-mod a page))

  readable_at_end :
      (page size a n : ℕ) → size ≤ a → a / page * page < size → readable page size a n ≡ true
  readable_at_end page size a n over inside =
      let e : max a size ≡ a = omega arith in rw e (ground arith)

  get_loop-readable :
      (fuel : ℕ) (cas : Storage R F) (dst : Bytes) (a n d : ℕ)
      → Holds R F cas hash content
      → OnDisk cas
      → 0 < cas.page_size
      → d + n ≤ length dst
      → a + n < 2 ^ 63
      → n < fuel
      → (get_loop R F fuel hash (reading R F cas dst a n d)).0
        ≡ outcome (readable cas.page_size (length content) a n)
  unfolding get_loop
  get_loop-readable zero cas dst a n d h s positive fits small enough = absurd (omega arith)
  get_loop-readable (suc fuel) cas dst a zero d h s positive fits small enough =
      rw (get_round_done R F cas dst a d hash) (ground arith)
  get_loop-readable (suc fuel) cas dst a (suc n) d h s positive fits small enough =
      elim (get_round-Round R F hash content v cas dst a (suc n) d h positive (omega arith) fits
        small) [
          | missed cas' kept absent e ↦
              rw e (sym (ap outcome (not_readable _ _ a (suc n) (omega arith) (past absent))))
          | ended cas' kept over inside e ↦
              rw e (sym (ap outcome (readable_at_end _ _ a (suc n) over inside)))
          | copied cas' k kept some_read le inside e ↦ rw e (
              get_loop-readable fuel cas' (write_at dst d (slice a k content)) (a + k) (suc n - k)
                (d + k) kept.holds (OnDisk-Kept cas cas' kept s) (rw kept.page positive)
                (omega (
                  arith,
                  length-write_at dst d (slice a k content),
                  length-slice content a k inside,
                ))
                (omega arith) (omega arith)
              ∙ ap outcome (
                  ap (λ p. readable p (length content) (a + k) (suc n - k)) kept.page
                  ∙ readable-copied cas.page_size (length content) a (suc n) k le inside))
        ]
    where
      past :
          F.read_file cas.disk hash (chunk_key hash (pos (a / cas.page_size))) ≡ none
          → length content ≤ a / cas.page_size * cas.page_size
      past absent = ground (arith, s (a / cas.page_size))

  length-available :
      (a n : ℕ) → length (slice a (available content a n) content) ≡ available content a n
  length-available a n =
      omega (arith, length-take (available content a n) (drop a content), length-drop a content)

  finish_read-Delivers :
      (cas : Storage R F) (dst : Bytes) (a n : ℕ) (out : Result Error (Unit {0}) × Reading R F)
      → Delivers R F hash content v cas dst a n 0 out
      → let (result, dst', cas') = finish_read R F out in
        Holds R F cas' hash content
        × ((result ≡ err content_not_found)
            ⊎ ((result ≡ ok (available content a n))
                × (dst'
                    ≡ slice a (available content a n) content ++ drop (available content a n) dst)))
  finish_read-Delivers cas dst a n (ok u, r) t = (
    t.kept.holds,
    elim t.result [
      | inl e ↦ cc
      | inr (e, offset, bytes) ↦ inr (ap ok (offset ∙ omega arith), bytes ∙ written)
    ],
  )
    where
      written :
          write_at dst 0 (slice a (available content a n) content)
          ≡ slice a (available content a n) content ++ drop (available content a n) dst
      written =
          let e : 0 + length (slice a (available content a n) content) ≡ available content a n =
            omega (arith, length-available a n) in
          ap (λ m. slice a (available content a n) content ++ drop m dst) e
  finish_read-Delivers cas dst a n (err e, r) t =
      (t.kept.holds, elim t.result [ inl e' ↦ inl (cc) | inr (e', offset, bytes) ↦ cc ])

  Kept-finish_read :
      {cas : Storage R F} (out : Result Error (Unit {0}) × Reading R F)
      → Kept R F hash content v cas out.1.storage
      → Kept R F hash content v cas (finish_read R F out).2
  Kept-finish_read (ok u, r) h = h
  Kept-finish_read (err e, r) h = h

  finish_read-readable :
      (cas : Storage R F) (dst : Bytes) (a n : ℕ) (p : Bool)
      (out : Result Error (Unit {0}) × Reading R F)
      → Delivers R F hash content v cas dst a n 0 out
      → out.0 ≡ outcome p
      → (finish_read R F out).0 ≡ (if p then ok (available content a n) else err content_not_found)
  finish_read-readable cas dst a n true (ok u, r) t e = elim t.result [
    | inl e' ↦ cc
    | inr (e', offset, bytes) ↦ ap ok (offset ∙ omega arith)
  ]
  finish_read-readable cas dst a n false (ok u, r) t e = cc
  finish_read-readable cas dst a n true (err x, r) t e = cc
  finish_read-readable cas dst a n false (err x, r) t e = cc

  module _ (cas : Storage R F) (a n : ℕ) (dst : Bytes) (now : ℕ) (h : Holds R F cas hash content)
      (positive : 0 < cas.page_size) (fits : n ≤ length dst) (small : a + n < 2 ^ 63) where
    begin : Storage R F
    begin = begin_read R F cas hash (pos a) (pos n) now

    begin-Holds : Holds R F begin hash content
    unfolding begin begin_read
    begin-Holds = record {
      memory = reset_ttl-MemoryHolds R F _ _ _ _ h.memory hash cas.object_ttl_s;
      disk = h.disk;
    }

    loop : Result Error (Unit {0}) × Reading R F
    loop = get_loop R F (suc n) hash (start_reading R F begin dst (pos a) (pos n))

    loop-Delivers : Delivers R F hash content v begin dst a n 0 loop
    unfolding begin begin_read loop
    loop-Delivers =
        get_loop-Delivers R F hash content v (suc n) begin dst a n 0 begin-Holds positive
          (omega arith) small (omega arith)

    finish_read-get : get R F cas hash (pos a) (pos n) dst now ≡ finish_read R F loop
    unfolding get loop begin
    finish_read-get = refl

    loop-readable : OnDisk cas → loop.0 ≡ outcome (readable cas.page_size (length content) a n)
    unfolding begin begin_read loop
    loop-readable s =
        get_loop-readable (suc n) begin dst a n 0 begin-Holds s positive (omega arith) small
          (omega arith)

    -- Of an object whose chunks are held right, `Get` returns either that the content is not
    -- found, or the number of bytes that the content has in the range, at most those asked for;
    -- the destination then begins with exactly those bytes of the content and is otherwise as it
    -- was. The storage still holds the object right. (The hash consists of digits and letters and
    -- the page size is positive; the offset and the length are not negative, their sum fits an
    -- int64, and the destination has room for the length.)
    pub get_sound :
        let (result, dst', cas') = get R F cas hash (pos a) (pos n) dst now in
        Holds R F cas' hash content
        × ((result ≡ err content_not_found)
            ⊎ ((result ≡ ok (available content a n))
                × (dst'
                    ≡ slice a (available content a n) content ++ drop (available content a n) dst)))
    get_sound = rw finish_read-get (finish_read-Delivers begin dst a n loop loop-Delivers)

    -- `Get` leaves the files and the settings as they are.
    pub get-Kept : Kept R F hash content v cas (get R F cas hash (pos a) (pos n) dst now).2
    unfolding begin begin_read
    get-Kept = rw finish_read-get (
        Kept-finish_read loop record {
          holds = loop-Delivers.kept.holds;
          disk = loop-Delivers.kept.disk;
          page = loop-Delivers.kept.page;
        })

    -- Of an object whose chunks are held right and are all on disk, whatever the memory cache
    -- holds or has evicted, `Get` succeeds exactly when the range ends within the content, or is
    -- empty, or the page that holds the end of the content, or the offset if that lies behind the
    -- end, begins before the end. It then returns the number of bytes that the content has in the
    -- range, and else that the content is not found. (The hash consists of digits and letters and
    -- the page size is positive; the offset and the length are not negative, their sum fits an
    -- int64, and the destination has room for the length.)
    pub get-OnDisk :
        OnDisk cas
        → (get R F cas hash (pos a) (pos n) dst now).0 ≡ (
            if readable cas.page_size (length content) a n
            then ok (available content a n)
            else err content_not_found)
    get-OnDisk s = rw finish_read-get (
        finish_read-readable begin dst a n (readable cas.page_size (length content) a n) loop
          loop-Delivers (loop-readable s))
