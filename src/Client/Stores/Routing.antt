-- ===== src/Client/Stores/Routing.antt =====
-- The hosts that requests of pkg/client.go to store and to retrieve go to.
use blobcache_v.Base.{ℕ, ◌≡◌, refl, ap, ◌∙◌, sym, Option, none, some, ℕ_eq}
use blobcache_v.Base.Texts.{Text, text_eq}
use blobcache_v.Base.Maps.{lookup}
use blobcache_v.Types.{Floats}
use blobcache_v.Client.{
  RendezvousHasher, Host, BlobCacheClient, host_at, remember, cached_or, with_connection, connect,
  get_grpc_client, retrieve,
}
use blobcache_v.Client.Stores.{store_request}

module _ (N : Floats) (X : RendezvousHasher N) (K : Type 0) where
  abbrev Client : Type 0
  Client = BlobCacheClient N X K

  same_host :
      (hash hash' : Text) (c : Client) (t : ℕ) (chosen : Option (Host N X K))
      → (connect N X K hash (chosen, c)).0
        ≡ (connect N X K hash' (remember N X K c hash' t chosen)).0
  same_host hash hash' c t none = refl
  same_host hash hash' c t (some h) = go (lookup c.grpc_clients h.host_id)
    where
      go :
          (found : Option K)
          → (with_connection N X K hash c h found).0
            ≡ (with_connection N X K hash' (remember N X K c hash' t (some h)).1 h found).0
      go none = refl
      go (some k) = refl

  -- A request to store a content and a request to retrieve one, of whatever hashes, go to the same
  -- host by the same connection, or find none, if their routing keys are equal, the first attempt is
  -- meant and the local cache has no host for the hash that is retrieved.
  pub get_grpc_client_agrees :
      (c : Client) (hash hash' key : Text) (t u : ℕ)
      → lookup c.local_host_cache hash' ≡ none
      → (get_grpc_client N X K c (store_request N X K hash key) t).0
        ≡ (get_grpc_client N X K c (retrieve N X K hash' key 0) u).0
  unfolding get_grpc_client
  get_grpc_client_agrees c hash hash' key t u fresh =
      same_host hash hash' c u (host_at (X.get_n c.hasher c.n_top_hosts key) 0)
      ∙ ap
          (λ e.
            (connect N X K hash' (
              cached_or N X K c (retrieve N X K hash' key 0) u (X.get_n c.hasher c.n_top_hosts key)
                e)).0)
          (sym fresh)
