-- ===== src/Client/Nearby.antt =====
-- `IsCachedNearby` and `IsPathCachedNearby` of pkg/client.go.
pub mod Settled
use blobcache_v.Base.{
  ℕ, zero, suc, ◌+◌, ◌-◌, ◌*◌, ◌/◌, ◌%◌, ◌^◌, ◌≤◌, ◌<◌, ◌≡◌, ◌≢◌, refl, ap, subst, ◌∙◌, sym, ◌⊎◌,
  inl, inr, ◌↔◌, Bool, true, false, not, ◌&&◌, ◌||◌, Option, none, some, List, [], ◌∷◌, ◌++◌, map,
  append_assoc, append-nil, arith, Bool-cases, Option-cases, length, take, drop, slice, get_elem?,
  replicate, Result, ok, err, ◌>>=◌, ◌==◌, Eq, ℕ_eq, ltb, leb, eqb, if◌then◌else◌, lt→ltb, ltb→lt,
  leb→le, eqb_iff, All, All-append, length-append, length-take, length-drop, length-replicate,
  take-append-drop, take_of_length-le, drop_of_length-le, drop-drop, take-append-take, take-take,
  drop-take, take-append_left, drop-append_left, String,
}
use blobcache_v.Base.Int.{ℤ, pos_part}
use blobcache_v.Base.Texts.{Text}
use blobcache_v.Types.{Floats, BlobFsMetadata}
use blobcache_v.Coordinator.{Coordinator, Returns}
use blobcache_v.Server.Hex.{Sha256, generate_fs_id}
use blobcache_v.Client.{
  RendezvousHasher, ClientError, host_not_found, call_failed, Host, BlobCacheClient, key_or,
  get_grpc_client, retrieve,
}

module _ (N : Floats) (X : RendezvousHasher N) (K : Type 0) where
  abbrev Client : Type 0
  Client = BlobCacheClient N X K

  abbrev pub after_has :
      Result ClientError Bool × Client
      → Client
      → Result Text Bool
      → Result ClientError Bool × Client
  after_has next c (err e) = (err (call_failed e), c)
  after_has next c (ok true) = (ok true, c)
  after_has next c (ok false) = next

  abbrev pub after_client :
      (Client → Result ClientError Bool × Client)
      → (K → Result Text Bool)
      → Option (K × Host N X K) × Client
      → Result ClientError Bool × Client
  after_client next has (none, c) = (err host_not_found, c)
  after_client next has (some (k, host), c) = after_has (next c) c (has k)

  -- The loop of `IsCachedNearby` from host `i` on. `has i k` is the reply to `HasContent`.
  unfoldable pub check_hosts :
      ℕ
      → Text
      → Text
      → (ℕ → K → Result Text Bool)
      → (ℕ → Client → Client)
      → (ℕ → ℕ)
      → ℕ
      → Client
      → Result ClientError Bool × Client
  check_hosts zero hash key has others now i c = (ok false, c)
  check_hosts (suc n) hash key has others now i c =
      after_client (check_hosts n hash key has others now (suc i)) (has i)
        (get_grpc_client N X K (others i c) (retrieve N X K hash key i) (now i))

  unfoldable pub is_cached_nearby :
      Client
      → Text
      → Text
      → (ℕ → K → Result Text Bool)
      → (ℕ → Client → Client)
      → (ℕ → ℕ)
      → Result ClientError Bool × Client
  is_cached_nearby c hash routing_key has others now =
      check_hosts (pos_part c.n_top_hosts) hash routing_key has others now 0 c

  abbrev cached_or_false : Result ClientError Bool × Client → Bool × Client
  cached_or_false (ok cached, c) = (cached, c)
  cached_or_false (err e, c) = (false, c)

  module _ (C : Coordinator N) (H : Sha256) where
    abbrev check_node :
        Client
        → Text
        → (ℕ → K → Result Text Bool)
        → (ℕ → Client → Client)
        → (ℕ → ℕ)
        → Returns C.State BlobFsMetadata
        → Bool × Client × C.State
    check_node c path has others now (err e, s) = (false, c, s)
    check_node c path has others now (ok m, s) =
        let (cached, c') = cached_or_false (is_cached_nearby c m.hash path has others now) in
        (cached, c', s)

    unfoldable pub is_path_cached_nearby :
        Client
        → C.State
        → Text
        → (ℕ → K → Result Text Bool)
        → (ℕ → Client → Client)
        → (ℕ → ℕ)
        → Bool × Client × C.State
    is_path_cached_nearby c s path has others now =
        check_node c path has others now (C.get_fs_node s (generate_fs_id H path))
