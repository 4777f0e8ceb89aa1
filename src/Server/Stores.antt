-- ===== src/Server/Stores.antt =====
-- What pkg/server.go serves after it has stored a content.
use blobcache_v.Base.{
  ℕ, ◌+◌, ◌^◌, ◌≤◌, ◌<◌, ◌≡◌, refl, ap, subst, ◌∙◌, sym, ◌⊎◌, inl, inr, Bool, true, false, List, [],
  ◌∷◌, ◌++◌, append_assoc, append-nil, arith, length, take, drop, slice, Result, ok, err, ℕ_eq,
  take-append_left,
}
use blobcache_v.Base.{concat}
use blobcache_v.Base.Int.{pos, ltb_ℤ}
use blobcache_v.Base.Texts.{Text}
use blobcache_v.Backends.{Bytes, Ristretto, Disk}
use blobcache_v.Types.{Floats}
use blobcache_v.Coordinator.{Coordinator}
use blobcache_v.Storage.Keys.{IsHash}
use blobcache_v.Storage.Holds.{Holds}
use blobcache_v.Storage.Reads.{available, readable, length-slice}
use blobcache_v.Storage.Gets.{OnDisk, get_sound, get-OnDisk}
use blobcache_v.Storage.Writes.{add-Holds, add-OnDisk, add-page, ok-ne-err}
use blobcache_v.Storage.{Item, Storage, Error, content_not_found, add}
use blobcache_v.Server.Hex.{Sha256, hash_of, hash_of-IsHash}
use blobcache_v.Server.Pieces.{length-make_buffer}
use blobcache_v.Server.Streams.{get_content_stream-OnDisk}
use blobcache_v.Server.{
  make_buffer, Received, end, then_content, CacheService, answer_add, answer_get, store, receive,
  store_content, get_content, get_content_stream,
}

-- A stream that delivers the pieces and ends
abbrev pub stream_of : List Bytes → Received
stream_of [] = end
stream_of (p ∷ ps) = then_content p (stream_of ps)

receive-stream_of :
    (buffer : Bytes) (pieces : List Bytes)
    → receive buffer (stream_of pieces) ≡ ok (buffer ++ concat pieces)
unfolding receive
receive-stream_of buffer [] = ap ok (sym (append-nil buffer))
receive-stream_of buffer (p ∷ ps) =
    receive-stream_of (buffer ++ p) ps ∙ ap ok (append_assoc buffer p (concat ps))

module _ (R : Ristretto Item) (F : Disk) (N : Floats) (C : Coordinator N) (H : Sha256)
    (cs : CacheService R F N C H) where
  -- What `store` returns without an error
  record Stored (content : Bytes) (hash : Text) (cs' : CacheService R F N C H) : Type 0 where
    named : hash ≡ hash_of H content
    added : (add R F cs.cas (hash_of H content) content).0 ≡ ok tt
    cas : cs'.cas ≡ (add R F cs.cas (hash_of H content) content).1

  answer_add-Stored :
      (content : Bytes) (hash : Text) (out : Result Error (Unit {0}) × Storage R F)
      → (add R F cs.cas (hash_of H content) content) ≡ out
      → (answer_add R F N C H cs (hash_of H content) out).0 ≡ ok hash
      → Stored content hash (answer_add R F N C H cs (hash_of H content) out).1
  answer_add-Stored content hash (ok u, cas) e w = record {
    named = cc;
    added = ap (λ o. o.0) e;
    cas = sym (ap (λ o. o.1) e);
  }
  answer_add-Stored content hash (err x, cas) e w = cc

  store_content-Stored :
      (pieces : List Bytes) (hash : Text)
      → (store_content R F N C H cs (stream_of pieces)).0 ≡ ok hash
      → Stored (concat pieces) hash (store_content R F N C H cs (stream_of pieces)).1
  unfolding store_content store
  store_content-Stored pieces hash = rw (receive-stream_of [] pieces) (
      answer_add-Stored (concat pieces) hash
        (add R F cs.cas (hash_of H (concat pieces)) (concat pieces)) refl)

  answer_get-ok :
      (cs' : CacheService R F N C H) (a n : ℕ) (content : Bytes)
      → a + n ≤ length content
      → (out : Result Error ℕ × Bytes × Storage R F) → out.0 ≡ ok n
      → (out.0 ≡ err content_not_found)
        ⊎ ((out.0 ≡ ok (available content a n))
            × (out.1
                ≡ slice a (available content a n) content
                  ++ drop (available content a n) (make_buffer n)))
      → (answer_get R F N C H cs' out).0 ≡ ok (record { is_ok = true; content = slice a n content })
  answer_get-ok cs' a n content inside (err e, dst, cas) found s = cc
  answer_get-ok cs' a n content inside (ok k, dst, cas) found (inl e) = cc
  answer_get-ok cs' a n content inside (ok k, dst, cas) found (inr (e, bytes)) =
      let same : k ≡ n = cc in
      let whole : available content a n ≡ n = omega arith in
      let size = length-slice content a n inside in
      rw (same, bytes, whole)
        (ap (λ t. ok (record { is_ok = true; content = t }))
          (subst (λ i. take i (slice a n content ++ drop n (make_buffer n)) ≡ slice a n content)
            size (take-append_left (slice a n content) (drop n (make_buffer n)))))

  module _ (pieces : List Bytes) (hash : Text)
      (stored : (store_content R F N C H cs (stream_of pieces)).0 ≡ ok hash)
      (room : cs.cas.disk_usage_exceeded ≡ false) (positive : 0 < cs.cas.page_size)
      (h : Holds R F cs.cas (hash_of H (concat pieces)) (concat pieces)) where
    content : Bytes
    content = concat pieces

    cs' : CacheService R F N C H
    cs' = (store_content R F N C H cs (stream_of pieces)).1

    known : Stored content hash cs'
    unfolding content cs'
    known = store_content-Stored pieces hash stored

    is_hash : IsHash (hash_of H content)
    is_hash = hash_of-IsHash H content

    after-Holds : Holds R F cs'.cas (hash_of H content) content
    unfolding content
    after-Holds = rw known.cas (
        add-Holds R F (hash_of H content) content is_hash cs.cas positive (hash_of H content)
          content is_hash (λ e. refl) h (λ e. ok-ne-err (sym known.added ∙ e)))

    after-OnDisk : OnDisk R F (hash_of H content) content is_hash cs'.cas
    after-OnDisk =
        rw known.cas
          ((add-OnDisk R F (hash_of H content) content is_hash cs.cas positive).1 known.added room)

    after_page : 0 < cs'.cas.page_size
    after_page =
        rw (known.cas, add-page R F (hash_of H content) content is_hash cs.cas positive) positive

    module _ (a n : ℕ) (inside : a + n ≤ length (concat pieces)) (small : a + n < 2 ^ 63) where
      -- End to end: after `StoreContent` of a sequence of pieces has answered with a hash while the
      -- disk had room, the hash is the SHA-256 of the pieces together in hexadecimal digits, and
      -- `GetContentStream` of a range within them, from a client that takes every piece, ends without
      -- an error and sends exactly the bytes of the range. (The page size is positive, what was cached
      -- of the hash before is right, and the end of the range fits an int64.)
      pub get_content_stream-store_content :
          (sends : ℕ → Bool) (now : ℕ → ℕ)
          → ((i : ℕ) → sends i ≡ true)
          → let (result, sent, _) =
              get_content_stream R F N C H
                (store_content R F N C H cs (stream_of pieces)).1
                hash
                (pos a)
                (pos n)
                sends
                now in
            (hash ≡ hash_of H (concat pieces))
            × ((result ≡ ok tt) × (concat sent ≡ slice a n (concat pieces)))
      unfolding content cs'
      get_content_stream-store_content sends now fine = (
        known.named,
        rw known.named (
            get_content_stream-OnDisk R F N C H (hash_of H content) content is_hash cs' after-Holds
              after_page a n small sends now after-OnDisk inside fine),
      )

      -- After `StoreContent` of a sequence of pieces has answered with a hash while the disk had room,
      -- `GetContent` of a range within the pieces together, that is not empty, answers Ok with exactly
      -- its bytes. (The page size is positive, what was cached of the hash before is right, and the
      -- end of the range fits an int64.)
      pub get_content-store_content :
          (now : ℕ)
          → 0 < n
          → (get_content R F N C H
              (store_content R F N C H cs (stream_of pieces)).1
              hash
              (pos a)
              (pos n)
              now).0
            ≡ ok (record { is_ok = true; content = slice a n (concat pieces) })
      unfolding get_content content cs'
      get_content-store_content now some_left =
          let below : ltb_ℤ (pos n) (pos 0) ≡ false = ground arith in
          let found =
            get-OnDisk R F (hash_of H content) content is_hash cs'.cas a n (make_buffer n) now
              after-Holds after_page (omega (arith, length-make_buffer n)) small after-OnDisk in
          let fine : readable cs'.cas.page_size (length content) a n ≡ true = ground arith in
          let whole : available content a n ≡ n = omega arith in
          let sound =
            get_sound R F (hash_of H content) content is_hash cs'.cas a n (make_buffer n) now
              after-Holds after_page (omega (arith, length-make_buffer n)) small in
          rw (below, known.named)
            (answer_get-ok cs' a n content inside _ (found ∙ rw (fine, whole) refl) (sound.1))
