-- ===== src/Client.antt =====
-- pkg/client.go: a client's choice of a host and its requests for content. The hosts' replies are
-- arguments, by the number of the attempt and the connection. The rendezvous hasher is a library.
pub mod Routes
pub mod Replies
pub mod Served
pub mod Nearby
pub mod Hosts
pub mod Stores
mod Tests
use blobcache_v.Base.{
  ℕ, zero, suc, ◌+◌, ◌-◌, ◌*◌, ◌/◌, ◌%◌, ◌^◌, ◌≤◌, ◌<◌, ◌≡◌, ◌≢◌, refl, ap, subst, ◌∙◌, sym, ◌⊎◌,
  inl, inr, ◌↔◌, Bool, true, false, not, ◌&&◌, ◌||◌, Option, none, some, List, [], ◌∷◌, ◌++◌, map,
  append_assoc, append-nil, arith, Bool-cases, Option-cases, length, take, drop, slice, get_elem?,
  replicate, Result, ok, err, ◌>>=◌, ◌==◌, Eq, ℕ_eq, ltb, leb, eqb, if◌then◌else◌, lt→ltb, ltb→lt,
  leb→le, eqb_iff, All, All-append, length-append, length-take, length-drop, length-replicate,
  take-append-drop, take_of_length-le, drop_of_length-le, drop-drop, take-append-take, take-take,
  drop-take, take-append_left, drop-append_left, String,
}
use Prim.Native.Nat.{min}
use blobcache_v.Base.Int.{ℤ, pos, pos_part, ltb_ℤ}
use blobcache_v.Base.Texts.{Text, text_eq}
use blobcache_v.Base.Maps.{Map, lookup, insert, delete}
use blobcache_v.Backends.{Bytes}
use blobcache_v.Types.{Floats, BlobCacheHost}

-- `RendezvousHasher`: `get_n n key` are the first `n` hosts for a key, in order.
pub record RendezvousHasher (N : Floats) : Type 1 where
  pub State : Type 0
  pub add : State → BlobCacheHost N → State
  pub remove : State → BlobCacheHost N → State
  pub get_n : State → ℤ → Text → List (BlobCacheHost N)

pub data ClientError : Type 0 where
  host_not_found content_not_found unable_to_acquire_lock unable_to_populate_content : ClientError
  deadline_exceeded : ClientError
  call_failed : Text → ClientError

pub data ClientRequestType : Type 0 where
  storage retrieval : ClientRequestType

pub record ClientRequest : Type 0 where
  pub rt : ClientRequestType
  pub hash : Text
  pub key : Text
  pub host_index : ℕ

-- What a host answers to `GetContent`: an error of gRPC, Ok false, or the content.
pub data ContentReply : Type 0 where
  unreachable not_ok : ContentReply
  served : Bytes → ContentReply

-- What a stream delivers: pieces until it ends, or until it breaks, a piece that is not Ok included.
pub data StreamReply : Type 0 where
  eof broken : StreamReply
  piece : Bytes → StreamReply → StreamReply

-- `hosts[min(i, len(hosts)-1)]`, if there is a host
abbrev pub host_at : {A : Type 0} → List A → ℕ → Option A
host_at hosts i = get_elem? hosts (min i (length hosts - 1))

abbrev pub key_or : Text → Text → Text
key_or key hash = if key == [] then hash else key

module _ (N : Floats) (X : RendezvousHasher N) (K : Type 0) where
  abbrev pub Host : Type 0
  Host = BlobCacheHost N

  -- `localClientCache`
  pub record CachedHost : Type 0 where
    pub host : Host
    pub timestamp : ℕ

  -- `K` are the gRPC clients.
  pub record BlobCacheClient : Type 0 where
    pub grpc_clients : Map Text K
    pub local_host_cache : Map Text CachedHost
    pub hasher : X.State
    pub hosts : Map Text Host
    pub n_top_hosts : ℤ
    pub min_retry_length_bytes : ℤ
    pub max_get_content_attempts : ℕ

  abbrev pub forget : BlobCacheClient → Text → BlobCacheClient
  forget c hash = record c { local_host_cache = delete c.local_host_cache hash }

  abbrev pub remember : BlobCacheClient → Text → ℕ → Option Host → Option Host × BlobCacheClient
  remember c hash now none = (none, c)
  remember c hash now (some host) = (
    some host,
    record c {
      local_host_cache = insert c.local_host_cache hash (record { host = host; timestamp = now });
    },
  )

  abbrev pub cached_or :
      BlobCacheClient
      → ClientRequest
      → ℕ
      → List Host
      → Option CachedHost
      → Option Host × BlobCacheClient
  cached_or c request now hosts (some entry) = (some entry.host, c)
  cached_or c request now hosts none =
      remember c request.hash now (host_at hosts request.host_index)

  -- The first part of `getGRPCClient`, the choice of a host
  abbrev pub choose_host :
      BlobCacheClient → ClientRequest → ℕ → ClientRequestType → Option Host × BlobCacheClient
  choose_host c request now storage =
      (host_at (X.get_n c.hasher c.n_top_hosts request.key) request.host_index, c)
  choose_host c request now retrieval =
      cached_or c request now (X.get_n c.hasher c.n_top_hosts request.key)
        (lookup c.local_host_cache request.hash)

  abbrev pub with_connection :
      Text → BlobCacheClient → Host → Option K → Option (K × Host) × BlobCacheClient
  with_connection hash c host none = (none, forget c hash)
  with_connection hash c host (some k) = (some (k, host), c)

  -- Its second part, the connection to the host
  abbrev pub connect : Text → Option Host × BlobCacheClient → Option (K × Host) × BlobCacheClient
  connect hash (none, c) = (none, c)
  connect hash (some host, c) = with_connection hash c host (lookup c.grpc_clients host.host_id)

  -- `getGRPCClient`, with `none` for `ErrHostNotFound`
  unfoldable pub get_grpc_client :
      BlobCacheClient → ClientRequest → ℕ → Option (K × Host) × BlobCacheClient
  get_grpc_client c request now = connect request.hash (choose_host c request now request.rt)

  abbrev pub retrieve : Text → Text → ℕ → ClientRequest
  retrieve hash key i = record { rt = retrieval; hash = hash; key = key; host_index = i }

  unfoldable pub max_attempts : BlobCacheClient → ℤ → ℕ
  max_attempts c length =
      if ltb_ℤ c.min_retry_length_bytes length then c.max_get_content_attempts else 1

  abbrev pub after_reply :
      (BlobCacheClient → Result ClientError Bytes × BlobCacheClient)
      → Text
      → BlobCacheClient
      → ContentReply
      → Result ClientError Bytes × BlobCacheClient
  after_reply next hash c unreachable = next (forget c hash)
  after_reply next hash c not_ok = next (forget c hash)
  after_reply next hash c (served bytes) = (ok bytes, c)

  abbrev pub after_client :
      (BlobCacheClient → Result ClientError Bytes × BlobCacheClient)
      → Text
      → (K → ContentReply)
      → Option (K × Host) × BlobCacheClient
      → Result ClientError Bytes × BlobCacheClient
  after_client next hash ask (none, c) = (err host_not_found, c)
  after_client next hash ask (some (k, host), c) = after_reply next hash c (ask k)

  -- The loop of `GetContent` from attempt `i` on. `ask i k` is the reply to attempt `i` over the
  -- connection `k`, and `others i` what other goroutines do to the client before it.
  unfoldable pub get_attempts :
      ℕ
      → Text
      → Text
      → (ℕ → K → ContentReply)
      → (ℕ → BlobCacheClient → BlobCacheClient)
      → (ℕ → ℕ)
      → ℕ
      → BlobCacheClient
      → Result ClientError Bytes × BlobCacheClient
  get_attempts zero hash key ask others now i c = (err content_not_found, c)
  get_attempts (suc n) hash key ask others now i c =
      after_client (get_attempts n hash key ask others now (suc i)) hash (ask i)
        (get_grpc_client (others i c) (retrieve hash key i) (now i))

  unfoldable pub get_content :
      BlobCacheClient
      → Text
      → ℤ
      → Text
      → (ℕ → K → ContentReply)
      → (ℕ → BlobCacheClient → BlobCacheClient)
      → (ℕ → ℕ)
      → Result ClientError Bytes × BlobCacheClient
  get_content c hash length routing_key ask others now =
      get_attempts (max_attempts c length) hash (key_or routing_key hash) ask others now 0 c

  abbrev pub before_pieces : Bytes → List Bytes × BlobCacheClient → List Bytes × BlobCacheClient
  before_pieces bytes (rest, c) = (bytes ∷ rest, c)

  -- The loop over the pieces of a stream
  unfoldable pub pass_on :
      (BlobCacheClient → List Bytes × BlobCacheClient)
      → Text
      → BlobCacheClient
      → StreamReply
      → List Bytes × BlobCacheClient
  pass_on next hash c eof = ([], c)
  pass_on next hash c broken = next (forget c hash)
  pass_on next hash c (piece bytes rest) = before_pieces bytes (pass_on next hash c rest)

  abbrev pub after_stream :
      (BlobCacheClient → List Bytes × BlobCacheClient)
      → Text
      → BlobCacheClient
      → Option StreamReply
      → List Bytes × BlobCacheClient
  after_stream next hash c none = next (forget c hash)
  after_stream next hash c (some reply) = pass_on next hash c reply

  abbrev pub after_stream_client :
      (BlobCacheClient → List Bytes × BlobCacheClient)
      → Text
      → (K → Option StreamReply)
      → Option (K × Host) × BlobCacheClient
      → List Bytes × BlobCacheClient
  after_stream_client next hash opens (none, c) = ([], c)
  after_stream_client next hash opens (some (k, host), c) = after_stream next hash c (opens k)

  unfoldable pub stream_attempts :
      ℕ
      → Text
      → Text
      → ℤ
      → ℤ
      → (ℕ → K → Text → ℤ → ℤ → Option StreamReply)
      → (ℕ → BlobCacheClient → BlobCacheClient)
      → (ℕ → ℕ)
      → ℕ
      → BlobCacheClient
      → List Bytes × BlobCacheClient
  stream_attempts zero hash key offset length opens others now i c = ([], c)
  stream_attempts (suc n) hash key offset length opens others now i c =
      after_stream_client (stream_attempts n hash key offset length opens others now (suc i)) hash
        (λ k. opens i k hash offset length)
        (get_grpc_client (others i c) (retrieve hash key i) (now i))

  -- `GetContentStream`: what the channel delivers until it is closed. `opens i k` is what the connection
  -- `k` answers at attempt `i` to a request for a hash, an offset and a length, `none` where the
  -- stream cannot be opened.
  unfoldable pub get_content_stream :
      BlobCacheClient
      → Text
      → ℤ
      → ℤ
      → Text
      → (ℕ → K → Text → ℤ → ℤ → Option StreamReply)
      → (ℕ → BlobCacheClient → BlobCacheClient)
      → (ℕ → ℕ)
      → List Bytes × BlobCacheClient
  get_content_stream c hash offset length routing_key opens others now =
      stream_attempts (max_attempts c length) hash (key_or routing_key hash) offset length opens
        others now 0 c
