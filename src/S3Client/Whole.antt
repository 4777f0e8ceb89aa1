-- ===== src/S3Client/Whole.antt =====
-- The ranges of pkg/s3_client.go against the content that they are of.
use blobcache_v.Base.{
  ℕ, zero, suc, ◌+◌, ◌-◌, ◌*◌, ◌/◌, ◌^◌, ◌≤◌, ◌<◌, ◌≡◌, refl, ap, ◌∙◌, sym, ◌⊎◌, inl, inr, some,
  List, [], ◌++◌, subst, err, arith, Bool-cases, length, take, drop, slice, ok, ℕ_eq, leb,
  length-drop, take_of_length-le, drop-drop, take-append-take, take-take,
}
use native.Mathlib.Nat.{div-add-mod', mod-lt}
use blobcache_v.Base.Int.{ℤ, pos, negsuc, pos_part, ◌+ℤ◌, ◌-ℤ◌, int64, quot}
use blobcache_v.Backends.{Bytes}
use blobcache_v.S3Client.Order.{Complete, sequential, downloaded, download_into_buffer_lem}
use blobcache_v.S3Client.{
  S3Client, Reply, negative_channel_size, body, chunk_result, range_start, range_end, num_chunks,
  fetched, download_into_buffer,
}

-- S3 returns the range that it is asked for, of a content.
abbrev pub Serves : (ℕ → ℕ → Reply) → Bytes → Type 0
Serves get_object content =
    (start end : ℕ)
    → start ≤ end
    → end < length content
    → get_object start end ≡ body (slice start (end + 1 - start) content)

take_both : (m n : ℕ) (xs : Bytes) → length xs ≤ m → length xs ≤ n → take m xs ≡ take n xs
take_both m n xs h k = take_of_length-le m xs h ∙ sym (take_of_length-le n xs k)

-- A range of at most `c` bytes that ends `c` bytes later, or at the end of the content
piece :
    (start end c : ℕ) (content : Bytes)
    → start ≤ end
    → (end + 1 ≡ start + c) ⊎ ((length content ≤ end + 1) × (end + 1 ≤ start + c))
    → take (end - start + 1) (slice start (end + 1 - start) content) ≡ slice start c content
piece start end c content le (inl e) =
    let m : end - start + 1 ≡ c = omega (arith, e) in
    let n : end + 1 - start ≡ c = omega (arith, e) in
    rw (m, n) (take-take c c (drop start content) (omega arith))
piece start end c content le (inr (last, short)) =
    let n : end + 1 - start ≡ end - start + 1 = omega arith in
    rw n (
      take-take (end - start + 1) (end - start + 1) (drop start content) (omega arith)
      ∙ take_both (end - start + 1) c (drop start content)
          (omega (arith, length-drop start content)) (omega (arith, length-drop start content)))

module _ (get_object : ℕ → ℕ → Reply) (content : Bytes) (c : ℕ) (positive : 0 < c)
    (s : Serves get_object content) where
  fetched-slice :
      (i : ℕ)
      → i * c < length content
      → fetched get_object (length content) c i ≡ ok (slice (i * c) c content)
  unfolding fetched range_start range_end chunk_result
  fetched-slice i inside = elim (Bool-cases (leb (length content) (i * c + c - 1))) [
    | inl last ↦ rw last (
        rw (s (i * c) (length content - 1) (omega arith) (omega arith)) (
          ap ok (
            piece (i * c) (length content - 1) c content (omega arith)
              (inr (omega arith, ground (arith, last))))))
    | inr more ↦ rw more (
        rw (s (i * c) (i * c + c - 1) (omega arith) (ground arith))
          (ap ok (piece (i * c) (i * c + c - 1) c content (omega arith) (inl (omega arith)))))
  ]

  sequential-slice :
      (n i : ℕ)
      → i * c + n * c < length content + c
      → sequential (fetched get_object (length content) c) i n
        ≡ some (slice (i * c) (n * c) content)
  unfolding sequential
  sequential-slice zero i h = let e : 0 * c ≡ 0 = omega arith in rw e refl
  sequential-slice (suc n) i h =
      let e : suc i * c ≡ i * c + c = omega arith in
      let g : suc n * c ≡ c + n * c = omega arith in
      let inside : i * c < length content = omega arith in
      rw (fetched-slice i inside) (
        rw (sequential-slice n (suc i) (omega arith)) (
          ap some (
            rw (e, g)
              (ap (λ t. slice (i * c) c content ++ take (n * c) t)
                  (sym (drop-drop (i * c) c (i * c + c) content refl))
                ∙ take-append-take c (n * c) (c + n * c) (drop (i * c) content) refl))))

div-bounds :
    (size c : ℕ)
    → 0 < size
    → 0 < c
    → ((size + c - 1) / c * c < size + c) × (size ≤ (size + c - 1) / c * c)
div-bounds size zero some_size positive = absurd (omega arith)
div-bounds size (suc c) some_size positive =
    let e = div-add-mod' (size + suc c - 1) (suc c) in
    let m = mod-lt (size + suc c - 1) {m = suc c} positive in
    (omega (arith, e, m), omega (arith, e, m))

-- The number of chunks, where the sum does not wrap
num_chunks-fits :
    (size c : ℕ) → 0 < size → size + c ≤ 2 ^ 63 → num_chunks size c ≡ pos ((size + c - 1) / c)
unfolding num_chunks int64 ◌+ℤ◌ ◌-ℤ◌ quot
num_chunks-fits size c some_size fits =
    let e : int64 (int64 (pos size +ℤ pos c) -ℤ pos 1) ≡ pos (size + c - 1) = ground arith in
    ap (λ z. quot z c) e

-- And where it wraps
num_chunks-wraps :
    (size c : ℕ) → size < 2 ^ 63 → c < 2 ^ 63 → 2 ^ 63 < size + c → pos_part (num_chunks size c) ≡ 0
unfolding num_chunks int64 ◌+ℤ◌ ◌-ℤ◌ quot
num_chunks-wraps size c small small' wraps =
    let e : int64 (int64 (pos size +ℤ pos c) -ℤ pos 1) ≡ negsuc (2 ^ 64 - (size + c)) =
      ground arith in
    ap (λ z. pos_part (quot z c)) e ∙ ground arith

-- If S3 serves the ranges of a content that is not empty, of a size that together with the chunk size
-- is at most 2 ^ 63, the download returns that content, in any order of arrival. If the sum is more,
-- it wraps: the download either returns no bytes and no error, or panics.
-- (The chunk size is positive, and it and the size are each below 2 ^ 63.)
pub download_into_buffer_whole :
    (client : S3Client) (content : Bytes) (get_object : ℕ → ℕ → Reply) (arrivals : List ℕ)
    → 0 < length content
    → 0 < client.download_chunk_size
    → length content < 2 ^ 63
    → client.download_chunk_size < 2 ^ 63
    → Complete (pos_part (num_chunks (length content) client.download_chunk_size)) arrivals
    → Serves get_object content
    → (let result = download_into_buffer client (ok (pos (length content))) get_object arrivals in
        (length content + client.download_chunk_size ≤ 2 ^ 63 → downloaded result ≡ some content)
        × (2 ^ 63 < length content + client.download_chunk_size
            → (downloaded result ≡ some []) ⊎ (result ≡ err negative_channel_size)))
unfolding sequential
download_into_buffer_whole client content get_object arrivals some_size positive short small c s =
    let size = client.download_chunk_size in
    let by_number =
      download_into_buffer_lem client (length content) get_object arrivals some_size in
    (
      λ fits.
          let k = num_chunks-fits (length content) size some_size fits in
          let bounds = div-bounds (length content) size some_size positive in
          let n = (length content + size - 1) / size in
          let e : 0 * size ≡ 0 = omega arith in
          by_number.0 n k (subst (λ z. Complete (pos_part z) arrivals) k c)
          ∙ ap (λ z. sequential (fetched get_object (length content) size) 0 (pos_part z)) k
          ∙ sequential-slice get_object content size positive s n 0 (omega (arith, bounds.0))
          ∙ ap some (rw e (take_of_length-le (n * size) content bounds.1)),
      λ wraps.
          let none_left = num_chunks-wraps (length content) size short small wraps in
          wrapped (num_chunks (length content) size) refl none_left,
    )
  where
    wrapped :
        (z : ℤ)
        → num_chunks (length content) client.download_chunk_size ≡ z
        → pos_part (num_chunks (length content) client.download_chunk_size) ≡ 0
        → (downloaded (download_into_buffer client (ok (pos (length content))) get_object arrivals)
            ≡ some [])
          ⊎ (download_into_buffer client (ok (pos (length content))) get_object arrivals
              ≡ err negative_channel_size)
    wrapped (negsuc n) e none_left =
        inr ((download_into_buffer_lem client (length content) get_object arrivals some_size).1 n e)
    wrapped (pos n) e none_left = inl (
        (download_into_buffer_lem client (length content) get_object arrivals some_size).0 n e
          (subst (λ z. Complete (pos_part z) arrivals) e c)
        ∙ ap (sequential (fetched get_object (length content) client.download_chunk_size) 0)
            none_left)
