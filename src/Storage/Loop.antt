-- ===== src/Storage/Loop.antt =====
-- How a round of the loop of `Get` (pkg/storage.go) ends when the storage holds parts of the right
-- content.
use blobcache_v.Base.{
  ℕ, ◌+◌, ◌-◌, ◌*◌, ◌/◌, ◌%◌, ◌^◌, ◌≤◌, ◌<◌, ◌≡◌, refl, ap, ◌∙◌, inl, inr, Bool, none, some, arith,
  Bool-cases, Option-cases, length, slice, ok, err, ℕ_eq, ltb, ltb→lt,
}
use Prim.Native.Nat.{min}
use native.Mathlib.Nat.{div-add-mod, mod-lt}
use blobcache_v.Base.Int.{pos, quot}
use blobcache_v.Base.Texts.{Text}
use blobcache_v.Backends.{Bytes, Ristretto, Disk}
use blobcache_v.Storage.Keys.{chunk_key, IsHash}
use blobcache_v.Storage.Holds.{Holds, expected, chunk_at}
use blobcache_v.Storage.Fetches.{
  inside_of_expected, fetch-Holds, fetch-disk, fetch-result, fetch_on_disk,
}
use blobcache_v.Storage.Copies.{slice-chunk_at, length-chunk_at}
use blobcache_v.Storage.Rounds.{reading, counted, read_chunk_end, read_chunk_part}
use blobcache_v.Storage.{
  Item, chunk, Storage, Reading, Flow, again, stop, fail, content_not_found, write_at, Fetched,
  fetch, read_fetched, read_chunk, get_round,
}

module _ (R : Ristretto Item) (F : Disk) (hash : Text) (content : Bytes) (v : IsHash hash) where
  pub record Kept (cas cas' : Storage R F) : Type 0 where
    pub holds : Holds R F cas' hash content
    pub disk : cas'.disk ≡ cas.disk
    pub page : cas'.page_size ≡ cas.page_size

  counted-Kept :
      (cas cas' : Storage R F) (m : Bool) (k : ℕ) → Kept cas cas' → Kept cas (counted R F m k cas')
  counted-Kept cas cas' m k h = record {
    holds = record { memory = h.holds.memory; disk = h.holds.disk };
    disk = h.disk;
    page = h.page;
  }

  module _ (cas : Storage R F) (dst : Bytes) (a n d : ℕ) where
    pub data Round (out : Flow × Reading R F) : Type 0 where
      missed :
          (cas' : Storage R F)
          → Kept cas cas'
          → F.read_file cas.disk hash (chunk_key hash (pos (a / cas.page_size))) ≡ none
          → out ≡ (fail content_not_found, reading R F cas' dst a n d)
          → Round out
      ended :
          (cas' : Storage R F)
          → Kept cas cas'
          → length content ≤ a
          → a / cas.page_size * cas.page_size < length content
          → out ≡ (stop, reading R F cas' dst a n d)
          → Round out
      copied :
          (cas' : Storage R F) (k : ℕ)
          → Kept cas cas'
          → 0 < k
          → k ≤ n
          → a + k ≤ length content
          → out
            ≡ (again, reading R F cas' (write_at dst d (slice a k content)) (a + k) (n - k) (d + k))
          → Round out

    abbrev key : Text
    key = chunk_key hash (pos (a / cas.page_size))

    get_round-fetch :
        0 < n
        → get_round R F hash (reading R F cas dst a n d)
          ≡ read_fetched R F (reading R F cas dst a n d) (fetch R F cas hash key)
    unfolding get_round quot
    get_round-fetch h = ground arith

    read_fetched-err :
        (f : Fetched R F)
        → f.0 ≡ err content_not_found
        → read_fetched R F (reading R F cas dst a n d) f
          ≡ (fail content_not_found, reading R F f.1 dst a n d)
    unfolding read_fetched
    read_fetched-err (r, cas') e = rw e

    read_fetched-chunk :
        (f : Fetched R F) (h : Text) (bytes : Bytes) (m : Bool)
        → f.0 ≡ ok (chunk h bytes, m)
        → read_fetched R F (reading R F cas dst a n d) f
          ≡ read_chunk R F bytes m (reading R F f.1 dst a n d)
    unfolding read_fetched
    read_fetched-chunk (r, cas') h bytes m e = rw e

    module _ (holds : Holds R F cas hash content) (positive : 0 < cas.page_size) (some_left : 0 < n)
        (fits : d + n ≤ length dst) (small : a + n < 2 ^ 63) where
      kept : Kept cas (fetch R F cas hash key).1
      kept = record {
        holds = fetch-Holds R F hash content v cas (a / cas.page_size) holds;
        disk = (fetch-disk R F hash content v cas (a / cas.page_size) holds).0;
        page = (fetch-disk R F hash content v cas (a / cas.page_size) holds).1;
      }

      missing :
          (fetch R F cas hash key).0 ≡ err content_not_found → F.read_file cas.disk hash key ≡ none
      missing e = elim (Option-cases (F.read_file cas.disk hash key)) [
        | inl absent ↦ absent
        | inr (bytes, found) ↦
            absurd (fetch_on_disk R F hash content v cas (a / cas.page_size) holds bytes found e)
      ]

      module _ (cas' : Storage R F) (bytes : Bytes) (m : Bool) (k : Kept cas cas')
          (e : expected cas.page_size content (a / cas.page_size) ≡ some bytes) where
        inside :
            (a / cas.page_size * cas.page_size < length content)
            × (bytes ≡ chunk_at cas.page_size content (a / cas.page_size))
        inside = inside_of_expected cas.page_size content (a / cas.page_size) bytes e

        size : length bytes ≡ min cas.page_size (length content - a / cas.page_size * cas.page_size)
        size = ap length inside.1 ∙ length-chunk_at cas.page_size content (a / cas.page_size)

        chunk_ended :
            length bytes ≤ a % cas.page_size
            → Round (read_chunk R F bytes m (reading R F cas' dst a n d))
        chunk_ended short =
            ended cas' k
              (omega (arith, size, div-add-mod a cas.page_size, mod-lt a positive, inside.0))
              inside.0 (read_chunk_end R F cas' dst a n d bytes m (rw k.page short))

        chunk_copied :
            (t : ℕ)
            → t ≡ min n (length bytes - a % cas.page_size)
            → a % cas.page_size < length bytes
            → Round (read_chunk R F bytes m (reading R F cas' dst a n d))
        chunk_copied t is_min more =
            copied (counted R F m t cas') t (counted-Kept cas cas' m t k) (omega arith)
              (omega arith) (omega (arith, size, div-add-mod a cas.page_size))
              (read_chunk_part R F cas' dst a n d bytes m t (rw k.page more) some_left
                  (rw k.page is_min) (omega arith) (omega arith)
                ∙ ap
                    (λ s. (
                      again,
                      reading R F (counted R F m t cas') (write_at dst d s) (a + t) (n - t) (d + t),
                    ))
                    copied_slice)
          where
            copied_slice : slice (a % cas'.page_size) t bytes ≡ slice a t content
            copied_slice =
                rw k.page
                  (rw inside.1 (slice-chunk_at cas.page_size content a t (omega (arith, size))))

        after_chunk : Round (read_chunk R F bytes m (reading R F cas' dst a n d))
        after_chunk = elim (Bool-cases (ltb (a % cas.page_size) (length bytes))) [
          | inl more ↦ chunk_copied _ refl (ltb→lt _ _ more)
          | inr short ↦ chunk_ended (ground arith)
        ]

      pub get_round-Round : Round (get_round R F hash (reading R F cas dst a n d))
      get_round-Round =
          rw (get_round-fetch some_left)
            (elim (fetch-result R F hash content v cas (a / cas.page_size) holds) [
              | inl e ↦ missed _ kept (missing e) (read_fetched-err (fetch R F cas hash key) e)
              | inr (bytes, m, found, e) ↦
                  rw (read_fetched-chunk (fetch R F cas hash key) hash bytes m e)
                    (after_chunk (fetch R F cas hash key).1 bytes m kept found)
            ])
