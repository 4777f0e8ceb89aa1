-- ===== src/Server/Answers.antt =====
-- What `GetContent` of pkg/server.go answers.
use blobcache_v.Base.{
  ℕ, ◌+◌, ◌^◌, ◌<◌, ◌≡◌, refl, ap, subst, ◌⊎◌, inl, inr, true, false, [], ◌++◌, arith, length, take,
  drop, slice, Result, ok, err, ℕ_eq, length-take, length-drop, take-append_left,
}
use blobcache_v.Base.Int.{pos, ltb_ℤ}
use blobcache_v.Base.Texts.{Text}
use blobcache_v.Backends.{Bytes, Ristretto, Disk}
use blobcache_v.Types.{Floats}
use blobcache_v.Coordinator.{Coordinator}
use blobcache_v.Storage.Keys.{IsHash}
use blobcache_v.Storage.Holds.{Holds}
use blobcache_v.Storage.Reads.{available}
use blobcache_v.Storage.Gets.{get_sound}
use blobcache_v.Storage.{Item, Storage, Error, content_not_found}
use blobcache_v.Server.Hex.{Sha256}
use blobcache_v.Server.Pieces.{length-make_buffer}
use blobcache_v.Server.{Status, make_buffer, CacheService, ContentResponse, answer_get, get_content}

module _ (R : Ristretto Item) (F : Disk) (N : Floats) (C : Coordinator N) (H : Sha256) (hash : Text)
    (content : Bytes) (v : IsHash hash) (cs : CacheService R F N C H) (a n : ℕ) where
  abbrev available_bytes : Bytes
  available_bytes = slice a (available content a n) content

  -- Ok false, or exactly the bytes that the content has in the range
  pub data Answer (out : Result Status ContentResponse × CacheService R F N C H) : Type 0 where
    refuses : out.0 ≡ ok (record { is_ok = false; content = [] }) → Answer out
    answers :
        out.0 ≡ ok (record { is_ok = true; content = slice a (available content a n) content })
        → Answer out

  take-available :
      (rest : Bytes) → take (available content a n) (available_bytes ++ rest) ≡ available_bytes
  take-available rest =
      let size : length available_bytes ≡ available content a n =
        omega
          (arith, length-take (available content a n) (drop a content), length-drop a content) in
      subst (λ i. take i (available_bytes ++ rest) ≡ available_bytes) size
        (take-append_left available_bytes rest)

  answer_get-Answer :
      (out : Result Error ℕ × Bytes × Storage R F)
      → (out.0 ≡ err content_not_found)
        ⊎ ((out.0 ≡ ok (available content a n))
            × (out.1 ≡ available_bytes ++ drop (available content a n) (make_buffer n)))
      → Answer (answer_get R F N C H cs out)
  answer_get-Answer (err e, dst, cas) (inl q) =
      let same : e ≡ content_not_found = cc in rw same (refuses refl)
  answer_get-Answer (err e, dst, cas) (inr (q, bytes)) = cc
  answer_get-Answer (ok k, dst, cas) (inl q) = cc
  answer_get-Answer (ok k, dst, cas) (inr (q, bytes)) =
      let same : k ≡ available content a n = cc in
      rw (same, bytes)
        (answers (
          ap (λ t. ok (record { is_ok = true; content = t }))
            (take-available (drop (available content a n) (make_buffer n)))))

  pub get_content-Answer :
      (now : ℕ)
      → Holds R F cs.cas hash content
      → 0 < cs.cas.page_size
      → a + n < 2 ^ 63
      → Answer (get_content R F N C H cs hash (pos a) (pos n) now)
  unfolding get_content
  get_content-Answer now h positive small =
      let below : ltb_ℤ (pos n) (pos 0) ≡ false = ground arith in
      rw below (
        answer_get-Answer _
          (get_sound R F hash content v cs.cas a n (make_buffer n) now h positive
            (omega (arith, length-make_buffer n)) small).1)
