-- ===== src/Server/Streams.antt =====
-- `GetContentStream` of pkg/server.go as a whole.
use blobcache_v.Base.{
  ℕ, zero, suc, ◌+◌, ◌-◌, ◌*◌, ◌^◌, ◌≤◌, ◌<◌, ◌≡◌, refl, ap, ◌∙◌, sym, ◌⊎◌, inl, inr, Bool, true,
  List, [], ◌∷◌, ◌++◌, append_assoc, append-nil, arith, length, take, drop, slice, Result, ok, err,
  ℕ_eq, All, All-append, drop-drop, take-append-take,
}
use blobcache_v.Base.{concat, concat-append}
use blobcache_v.Base.Int.{pos}
use blobcache_v.Base.Texts.{Text}
use blobcache_v.Backends.{Bytes, Ristretto, Disk}
use blobcache_v.Types.{Floats}
use blobcache_v.Coordinator.{Coordinator}
use blobcache_v.Storage.Keys.{IsHash}
use blobcache_v.Storage.Holds.{Holds}
use blobcache_v.Storage.Loop.{Kept}
use blobcache_v.Storage.Reads.{available, length-slice}
use blobcache_v.Storage.Gets.{OnDisk}
use blobcache_v.Storage.{Item, Storage, content_not_found}
use blobcache_v.Server.Hex.{Sha256}
use blobcache_v.Server.Pieces.{
  sending, Round, ended, missing, refused, last, onward, send_round-Round, length-make_buffer,
}
use blobcache_v.Server.{
  Status, not_found, send_failed, make_buffer, StreamFlow, Sending, next_piece, CacheService,
  send_loop, stream_content, get_content_stream, get_content_stream_chunk_size,
}

-- The bytes of a piece
abbrev pub IsPiece : ℕ → Bytes → Type 0
IsPiece chunk bytes = (0 < length bytes) × (length bytes ≤ chunk)

-- How a stream may end.
abbrev pub StreamEnd : Result Status (Unit {0}) → Type 0
StreamEnd result =
    (result ≡ ok tt) ⊎ ((result ≡ err (not_found content_not_found)) ⊎ (result ≡ err send_failed))

module _ (R : Ristretto Item) (F : Disk) (hash : Text) (content : Bytes) (v : IsHash hash)
    (chunk : ℕ) (some_chunk : 0 < chunk) (sends : ℕ → Bool) (now : ℕ → ℕ) where
  -- What the loop does from `a` on with `n` bytes left, after the pieces `sent`.
  pub record Streams (cas : Storage R F) (a n : ℕ) (sent : List Bytes)
      (out : Result Status (Unit {0}) × Sending R F) : Type 0 where
    pub kept : Kept R F hash content v cas out.1.cas
    pub count : ℕ
    pub bytes : concat out.1.sent ≡ concat sent ++ slice a count content
    pub within : count ≤ available content a n
    pub pieces : All (IsPiece chunk) sent → All (IsPiece chunk) out.1.sent
    pub ends : StreamEnd out.0
    pub whole : out.0 ≡ ok tt → count ≡ available content a n
    pub on_disk :
        OnDisk R F hash content v cas
        → a + n ≤ length content
        → ((i : ℕ) → sends i ≡ true)
        → out.0 ≡ ok tt

  concat-snoc : (sent : List Bytes) (b : Bytes) → concat (sent ++ b ∷ []) ≡ concat sent ++ b
  concat-snoc sent b = concat-append sent (b ∷ []) ∙ ap (λ t. concat sent ++ t) (append-nil b)

  nothing_more : (sent : List Bytes) (a : ℕ) → concat sent ≡ concat sent ++ slice a 0 content
  nothing_more sent a = sym (append-nil (concat sent))

  slice-append :
      (a k j : ℕ) → slice a k content ++ slice (a + k) j content ≡ slice a (k + j) content
  slice-append a k j =
      ap (λ t. slice a k content ++ take j t) (sym (drop-drop a k (a + k) content refl))
      ∙ take-append-take k j (k + j) (drop a content) refl

  slice-IsPiece :
      (a k : ℕ) → 0 < k → k ≤ chunk → a + k ≤ length content → IsPiece chunk (slice a k content)
  slice-IsPiece a k some_bytes small inside =
      let e = length-slice content a k inside in (omega (arith, e), omega (arith, e))

  next_piece-Streams :
      (i : ℕ) (loop : Sending R F → Result Status (Unit {0}) × Sending R F) (cas : Storage R F)
      (a n : ℕ) (sent : List Bytes) (out : StreamFlow × Sending R F)
      → ((cas' : Storage R F) (dst : Bytes) (k : ℕ)
          → Holds R F cas' hash content
          → cas'.page_size ≡ cas.page_size
          → chunk ≤ length dst
          → 0 < k
          → k ≤ n
          → Streams cas' (a + k) (n - k) (sent ++ slice a k content ∷ []) (
              loop (
                sending R F hash content v chunk some_chunk cas' dst
                  (a + k)
                  (n - k)
                  (sent ++ slice a k content ∷ []))))
      → Round R F hash content v chunk some_chunk (sends i) cas a n sent out
      → Streams cas a n sent (next_piece R F loop out)
  next_piece-Streams i loop cas a n sent out rest (ended cas' dst k e) = record {
    kept = k;
    count = 0;
    bytes = nothing_more sent a;
    within = omega arith;
    pieces = λ p. p;
    ends = inl refl;
    whole = λ t. sym e;
    on_disk = λ s inside fine. refl;
  }
  next_piece-Streams i loop cas a n sent out rest (missing cas' dst k gone) = record {
    kept = k;
    count = 0;
    bytes = nothing_more sent a;
    within = omega arith;
    pieces = λ p. p;
    ends = inr (inl refl);
    whole = λ e. cc;
    on_disk = λ s inside fine. absurd (gone (s, inside));
  }
  next_piece-Streams i loop cas a n sent out rest (refused cas' dst k refuses) = record {
    kept = k;
    count = 0;
    bytes = nothing_more sent a;
    within = omega arith;
    pieces = λ p. p;
    ends = inr (inr refl);
    whole = λ e. cc;
    on_disk = λ s inside fine. let taken = fine i in cc;
  }
  next_piece-Streams i loop cas a n sent out rest (last cas' dst k kept e some_bytes small) =
      record {
        kept = kept;
        count = k;
        bytes = concat-snoc sent (slice a k content);
        within = omega (arith, e);
        pieces = λ p.
            All-append (IsPiece chunk) sent (slice a k content ∷ []) p
              (slice-IsPiece a k some_bytes small (omega (arith, e, some_bytes)), tt);
        ends = inl refl;
        whole = λ t. e;
        on_disk = λ s inside fine. refl;
      }
  next_piece-Streams i loop cas a n sent out rest
        (onward cas' dst k kept room some_bytes small le inside) =
      let r = rest cas' dst k kept.holds kept.page room some_bytes le in
      record {
        kept = record {
          holds = r.kept.holds;
          disk = r.kept.disk ∙ kept.disk;
          page = r.kept.page ∙ kept.page;
        };
        count = k + r.count;
        bytes =
            r.bytes
            ∙ ap (λ t. t ++ slice (a + k) r.count content) (concat-snoc sent (slice a k content))
            ∙ append_assoc (concat sent) (slice a k content) (slice (a + k) r.count content)
            ∙ ap (λ t. concat sent ++ t) (slice-append a k r.count);
        within = let w = r.within in omega (arith, w);
        pieces = λ p. r.pieces (
            All-append (IsPiece chunk) sent (slice a k content ∷ []) p
              (slice-IsPiece a k some_bytes small inside, tt));
        ends = r.ends;
        whole = λ t. let w = r.whole t in omega (arith, w);
        on_disk = λ s within fine. r.on_disk (rw (kept.disk, kept.page) s) (omega arith) fine;
      }

  send_loop-Streams :
      (fuel i : ℕ) (cas : Storage R F) (dst : Bytes) (a n : ℕ) (sent : List Bytes)
      → n < fuel
      → Holds R F cas hash content
      → 0 < cas.page_size
      → chunk ≤ length dst
      → a + n < 2 ^ 63
      → Streams cas a n sent (
          send_loop R F fuel hash chunk sends now i
            (sending R F hash content v chunk some_chunk cas dst a n sent))
  unfolding send_loop
  send_loop-Streams zero i cas dst a n sent enough h positive room small = absurd (omega arith)
  send_loop-Streams (suc fuel) i cas dst a n sent enough h positive room small =
      next_piece-Streams i (send_loop R F fuel hash chunk sends now (suc i)) cas a n sent _
        (λ cas' dst' k h' page room' some_bytes le.
          send_loop-Streams fuel (suc i) cas' dst' (a + k) (n - k) (sent ++ slice a k content ∷ [])
            (omega arith) h' (rw page positive) room' (omega arith))
        (send_round-Round R F hash content v chunk some_chunk (sends i) (now i) cas dst a n sent h
          positive room small)

  pub stream_content-Streams :
      (cas : Storage R F) (a n : ℕ)
      → Holds R F cas hash content
      → 0 < cas.page_size
      → a + n < 2 ^ 63
      → Streams cas a n [] (stream_content R F chunk cas hash (pos a) (pos n) sends now)
  unfolding stream_content
  stream_content-Streams cas a n h positive small =
      send_loop-Streams (suc n) 0 cas (make_buffer chunk) a n [] (omega arith) h positive
        (omega (arith, length-make_buffer chunk)) small

module _ (R : Ristretto Item) (F : Disk) (N : Floats) (C : Coordinator N) (H : Sha256) (hash : Text)
    (content : Bytes) (v : IsHash hash) (cs : CacheService R F N C H)
    (h : Holds R F cs.cas hash content) (positive : 0 < cs.cas.page_size) (a n : ℕ)
    (small : a + n < 2 ^ 63) (sends : ℕ → Bool) (now : ℕ → ℕ) where
  streams :
      Streams R F hash content v get_content_stream_chunk_size
        (omega arith)
        sends
        now
        cs.cas
        a
        n
        []
        (stream_content R F get_content_stream_chunk_size cs.cas hash (pos a) (pos n) sends now)
  streams =
      stream_content-Streams R F hash content v get_content_stream_chunk_size (omega arith) sends
        now cs.cas a n h positive small

  -- `GetContentStream` of an object that the storage holds right ends without an error, or because a
  -- chunk is not found or a send fails, and never otherwise. The pieces that it sent, of 1 byte to
  -- 4 MiB each, are together the first bytes of the range, at most as many as the content has there,
  -- and without an error exactly those; the storage still holds the object right. (The hash consists
  -- of digits and letters and the page size is positive; the offset and the length are not negative,
  -- and their sum fits an int64.)
  pub get_content_stream_sound :
      let (result, sent, cs') = get_content_stream R F N C H cs hash (pos a) (pos n) sends now in
      StreamEnd result
      × (All (IsPiece (4 * 1024 * 1024)) sent
          × (((count : ℕ) × (concat sent ≡ slice a count content)
                × (count ≤ available content a n)
                × (result ≡ ok tt → count ≡ available content a n))
              × Holds R F cs'.cas hash content))
  unfolding get_content_stream streams
  get_content_stream_sound = (
    streams.ends,
    (
      streams.pieces tt,
      ((streams.count, streams.bytes, streams.within, streams.whole), streams.kept.holds),
    ),
  )

  -- With every chunk on disk, whatever the memory cache holds, and a client that takes every piece,
  -- `GetContentStream` of a range within the content ends without an error after it sent exactly the
  -- bytes of the range. (The object is held right, the hash consists of digits and letters and the
  -- page size is positive; the offset and the length are not negative, and their sum fits an int64.)
  pub get_content_stream-OnDisk :
      OnDisk R F hash content v cs.cas
      → a + n ≤ length content
      → ((i : ℕ) → sends i ≡ true)
      → let (result, sent, cs') = get_content_stream R F N C H cs hash (pos a) (pos n) sends now in
        (result ≡ ok tt) × (concat sent ≡ slice a n content)
  unfolding get_content_stream streams
  get_content_stream-OnDisk s inside fine =
      let done = streams.on_disk s inside fine in
      let all : streams.count ≡ n = omega (arith, streams.whole done) in
      (done, streams.bytes ∙ ap (λ k. slice a k content) all)
