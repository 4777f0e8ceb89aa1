-- ===== src/Client/Stores/Sources.antt =====
-- Storing a source under its lock, from a client (pkg/client.go) through a server (pkg/server.go).
use blobcache_v.Base.{ℕ, ◌≡◌, refl, ap, ◌∙◌, Bool, true, false, some, ok, err, ℕ_eq, if◌then◌else◌}
use blobcache_v.Base.Texts.{Text}
use blobcache_v.Backends.{Ristretto, Disk}
use blobcache_v.Types.{Floats}
use blobcache_v.Coordinator.{Coordinator}
use blobcache_v.Coordinator.StoreLocks.{StoreLocks}
use blobcache_v.Storage.{Item}
use blobcache_v.Server.Hex.{Sha256}
use blobcache_v.Server.{CacheService}
use blobcache_v.Server.Sources.{
  World, CacheSource, Refreshes, LockResponse, read_source, store_content_from_source_with_lock,
}
use blobcache_v.Server.Sources.Locked.{succeeded, store_content_from_source_with_lock_lem}
use blobcache_v.Client.{
  RendezvousHasher, unable_to_acquire_lock, unable_to_populate_content, Host, BlobCacheClient,
  key_or, get_grpc_client,
}
use blobcache_v.Client.Stores.{
  store_request, by_client, SourceReplies, lock_result, file_source, store_content_from_fuse,
}

module _ (R : Ristretto Item) (F : Disk) (N : Floats) (C : Coordinator N) (H : Sha256) (w : World)
    (times : Refreshes) (cs : CacheService R F N C H) where
  -- What the server does with a source under the lock
  abbrev pub by_lock : CacheSource → LockResponse × CacheService R F N C H
  by_lock source = store_content_from_source_with_lock R F N C H w times source cs

module _ (R : Ristretto Item) (F : Disk) (N : Floats) (C : Coordinator N) (L : StoreLocks N C)
    (H : Sha256) (X : RendezvousHasher N) (K : Type 0) (w : World) (times : Refreshes)
    (cs : CacheService R F N C H) (replies : SourceReplies N X K) where
  lock_result-refused :
      (r : LockResponse)
      → r.failed_to_acquire_lock ≡ true
      → lock_result (ok r) ≡ err unable_to_acquire_lock
  unfolding lock_result
  lock_result-refused r e = rw e refl

  lock_result-free :
      (r : LockResponse) (b : Bool)
      → r.failed_to_acquire_lock ≡ false
      → r.is_ok ≡ b
      → lock_result (ok r) ≡ (if b then ok r.hash else err unable_to_populate_content)
  unfolding lock_result
  lock_result-free r b e f = rw (e, f) refl

  -- `StoreContentFromFUSE` under the lock, by a host that is a cache server with a coordinator that
  -- keeps its locks: if the lock is held, the client's error says that it could not be acquired. If
  -- it is free, the client gets the hash that the server answers if the file could be read, and else
  -- the error that the content could not be populated.
  pub store_content_from_fuse_locked :
      (c c' : BlobCacheClient N X K) (path routing_key : Text) (now : ℕ) (k : K) (host : Host N X K)
      → get_grpc_client N X K c (store_request N X K path (key_or routing_key path)) now
        ≡ (some (k, host), c')
      → replies.locked k (file_source path) ≡ ok (by_lock R F N C H w times cs (file_source path)).0
      → let result = (store_content_from_fuse N X K c path routing_key true replies now).0 in
        (L.held cs.coordinator cs.locality path ≡ true → result ≡ err unable_to_acquire_lock)
        × (L.held cs.coordinator cs.locality path ≡ false
            → result ≡ (
                if succeeded (read_source R F N C H w (file_source path) cs).0
                then ok (by_lock R F N C H w times cs (file_source path)).0.hash
                else err unable_to_populate_content))
  unfolding store_content_from_fuse file_source
  store_content_from_fuse_locked c c' path routing_key now k host e answer =
      let contract =
        store_content_from_source_with_lock_lem N C L H R F w times (file_source path) cs in
      let result =
        ap (λ o. (by_client N X K (λ k'. lock_result (replies.locked k' (file_source path))) o).0) e
        ∙ ap lock_result answer in
      (
        λ taken. result ∙ lock_result-refused _ (contract.0 taken).0,
        λ free. let r = contract.1 free in result ∙ lock_result-free _ _ r.0 r.1.0,
      )
