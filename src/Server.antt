-- ===== src/Server.antt =====
-- pkg/server.go: the handlers of the cache service over the content store. A handler takes the service
-- and returns it anew beside its response; logging is left out.
pub mod Hex
pub mod Paths
pub mod Pieces
pub mod Streams
pub mod Answers
pub mod Stores
pub mod Nodes
pub mod Sources
pub mod Example
mod Tests
use blobcache_v.Base.{
  ℕ, zero, suc, ◌+◌, ◌-◌, ◌*◌, ◌/◌, ◌%◌, ◌^◌, ◌≤◌, ◌<◌, ◌≡◌, ◌≢◌, refl, ap, subst, ◌∙◌, sym, ◌⊎◌,
  inl, inr, ◌↔◌, Bool, true, false, not, ◌&&◌, ◌||◌, Option, none, some, List, [], ◌∷◌, ◌++◌, map,
  append_assoc, append-nil, arith, Bool-cases, Option-cases, length, take, drop, slice, get_elem?,
  replicate, Result, ok, err, ◌>>=◌, ◌==◌, Eq, ℕ_eq, ltb, leb, eqb, if◌then◌else◌, lt→ltb, ltb→lt,
  leb→le, eqb_iff, All, All-append, length-append, length-take, length-drop, length-replicate,
  take-append-drop, take_of_length-le, drop_of_length-le, drop-drop, take-append-take, take-take,
  drop-take, take-append_left, drop-append_left, String,
}
use blobcache_v.Base.Int.{ℤ, pos, pos_part, ◌+ℤ◌, ◌-ℤ◌, ltb_ℤ, int64}
use blobcache_v.Base.Texts.{Text}
use blobcache_v.Base.Maps.{Map}
use blobcache_v.Backends.{Bytes, Ristretto, Disk}
use blobcache_v.Types.{Floats}
use blobcache_v.Config.{BlobCacheServerConfig}
use blobcache_v.Coordinator.{Coordinator}
use blobcache_v.S3Client.{S3Client}
use blobcache_v.Storage.{Item, Storage, Error, panic, unending, add, get, exists}
use Hex.{Sha256, hash_of}

abbrev pub get_content_stream_chunk_size : ℕ
get_content_stream_chunk_size = 4 * 1024 * 1024

-- The errors of gRPC that handlers return: `NotFound`, `Internal` (twice) and `Unknown`. `crashed` is a
-- panic of the handler, and `endless` a loop that ran out of its fuel.
pub data Status : Type 0 where
  not_found : Error → Status
  send_failed : Status
  receive_failed : Text → Status
  add_failed : Error → Status
  crashed endless : Status

-- `GetContentResponse`
pub record ContentResponse : Type 0 where
  pub is_ok : Bool
  pub content : Bytes

-- A buffer of `make([]byte, n)`
pub make_buffer : ℕ → Bytes
make_buffer zero = []
make_buffer (suc n) = 0 ∷ make_buffer n

-- What a stream of requests delivers until it ends, or fails.
pub data Received : Type 0 where
  end : Received
  failed : Text → Received
  then_content : Bytes → Received → Received

-- The loop of `StoreContent`, with the buffer so far
unfoldable pub receive : Bytes → Received → Result Status Bytes
receive buffer end = ok buffer
receive buffer (failed e) = err (receive_failed e)
receive buffer (then_content bytes rest) = receive (buffer ++ bytes) rest

-- How a round of the loop of `GetContentStream` ends.
pub data StreamFlow : Type 0 where
  more finished : StreamFlow
  stopped : Status → StreamFlow

module _ (R : Ristretto Item) (F : Disk) where
  -- The variables of the loop of `GetContentStream`; `sent` is what went out.
  pub record Sending : Type 0 where
    pub cas : Storage R F
    pub dst : Bytes
    pub offset : ℤ
    pub remaining : ℤ
    pub sent : List Bytes

  -- What follows a successful `Get` of `n` bytes
  pub send_read : Bool → ℤ → ℕ → Sending → StreamFlow × Sending
  send_read sends current n r =
      let r' = record r { sent = r.sent ++ take n r.dst ∷ [] } in
      if n == 0
      then (finished, r)
      else if not sends
      then (stopped send_failed, r)
      else if ltb_ℤ (pos n) current
      then (finished, r')
      else (
        more,
        record r' { offset = int64 (r.offset +ℤ pos n); remaining = r.remaining -ℤ pos n },
      )

  pub send_result : Bool → ℤ → Sending → Result Error ℕ × Bytes × Storage R F → StreamFlow × Sending
  send_result sends current r (ok n, dst, cas) =
      send_read sends current n (record r { cas = cas; dst = dst })
  send_result sends current r (err panic, dst, cas) =
      (stopped crashed, record r { cas = cas; dst = dst })
  send_result sends current r (err e, dst, cas) =
      (stopped (not_found e), record r { cas = cas; dst = dst })

  -- A round of the loop, its test included; `sends` is whether the client takes the piece.
  pub send_round : Text → ℕ → Bool → ℕ → Sending → StreamFlow × Sending
  send_round hash chunk sends now r =
      let current = if ltb_ℤ r.remaining (pos chunk) then r.remaining else pos chunk in
      if ltb_ℤ (pos 0) r.remaining
      then send_result sends current r (get R F r.cas hash r.offset current r.dst now)
      else (finished, r)

  abbrev next_piece :
      (Sending → Result Status (Unit {0}) × Sending)
      → StreamFlow × Sending
      → Result Status (Unit {0}) × Sending
  next_piece loop (more, r) = loop r
  next_piece loop (finished, r) = (ok tt, r)
  next_piece loop (stopped e, r) = (err e, r)

  -- The i-th round reads at the time `now i`, and its piece is taken if `sends i`.
  pub send_loop :
      ℕ → Text → ℕ → (ℕ → Bool) → (ℕ → ℕ) → ℕ → Sending → Result Status (Unit {0}) × Sending
  send_loop zero hash chunk sends now i r = (err endless, r)
  send_loop (suc fuel) hash chunk sends now i r =
      next_piece (send_loop fuel hash chunk sends now (suc i))
        (send_round hash chunk (sends i) (now i) r)

  -- A round that goes on sends at least one byte, so `length + 1` rounds are enough.
  pub stream_content :
      ℕ → Storage R F → Text → ℤ → ℤ → (ℕ → Bool) → (ℕ → ℕ) → Result Status (Unit {0}) × Sending
  stream_content chunk cas hash offset len sends now =
      send_loop (suc (pos_part len)) hash chunk sends now 0
        (record { cas = cas; dst = make_buffer chunk; offset = offset; remaining = len; sent = [] })

module _ (R : Ristretto Item) (F : Disk) (N : Floats) (C : Coordinator N) (H : Sha256) where
  pub record CacheService : Type 0 where
    pub host_id : Text
    pub locality : Text
    pub private_ip_addr : Text
    pub public_ip_addr : Text
    pub cas : Storage R F
    pub server_config : BlobCacheServerConfig N
    pub coordinator : C.State
    pub s3_client_cache : Map Text S3Client

  abbrev answer_get :
      CacheService
      → Result Error ℕ × Bytes × Storage R F
      → Result Status ContentResponse × CacheService
  answer_get cs (ok n, dst, cas) =
      (ok (record { is_ok = true; content = take n dst }), record cs { cas = cas })
  answer_get cs (err panic, dst, cas) = (err crashed, record cs { cas = cas })
  answer_get cs (err e, dst, cas) =
      (ok (record { is_ok = false; content = [] }), record cs { cas = cas })

  -- `GetContent`; `make` panics at a negative length.
  pub get_content : CacheService → Text → ℤ → ℤ → ℕ → Result Status ContentResponse × CacheService
  get_content cs hash offset len now =
      if ltb_ℤ len (pos 0)
      then (err crashed, cs)
      else answer_get cs (get R F cs.cas hash offset len (make_buffer (pos_part len)) now)

  pub has_content : CacheService → Text → Bool
  has_content cs hash = exists R F cs.cas hash

  -- `GetContentStream`: the error, the pieces that were sent, and the service
  pub get_content_stream :
      CacheService
      → Text
      → ℤ
      → ℤ
      → (ℕ → Bool)
      → (ℕ → ℕ)
      → Result Status (Unit {0}) × List Bytes × CacheService
  get_content_stream cs hash offset len sends now =
      let (result, r) =
        stream_content R F get_content_stream_chunk_size cs.cas hash offset len sends now in
      (result, r.sent, record cs { cas = r.cas })

  abbrev answer_add :
      CacheService
      → Text
      → Result Error (Unit {0}) × Storage R F
      → Result Status Text × CacheService
  answer_add cs hash (ok u, cas) = (ok hash, record cs { cas = cas })
  answer_add cs hash (err e, cas) = (err (add_failed e), record cs { cas = cas })

  -- `store`, of the bytes of the buffer
  unfoldable pub store : CacheService → Bytes → Result Status Text × CacheService
  store cs content = answer_add cs (hash_of H content) (add R F cs.cas (hash_of H content) content)

  abbrev store_received : CacheService → Result Status Bytes → Result Status Text × CacheService
  store_received cs (ok buffer) = store cs buffer
  store_received cs (err e) = (err e, cs)

  unfoldable pub store_content : CacheService → Received → Result Status Text × CacheService
  store_content cs requests = store_received cs (receive [] requests)
