-- ===== src/Client/Nearby/Settled.antt =====
-- The host that pkg/client.go keeps for a hash.
use blobcache_v.Base.{
  ℕ, zero, suc, ◌≡◌, refl, ap, ◌∙◌, sym, Bool, true, false, Option, none, some, Result, ok, err,
  ℕ_eq,
}
use blobcache_v.Base.Int.{pos_part}
use blobcache_v.Base.Texts.{Text, text_eq}
use blobcache_v.Base.Maps.{lookup, lookup-insert, beq_refl}
use blobcache_v.Types.{Floats}
use blobcache_v.Client.{
  RendezvousHasher, ClientError, host_not_found, call_failed, Host, CachedHost, BlobCacheClient,
  host_at, remember, cached_or, with_connection, connect, get_grpc_client, retrieve,
}
use blobcache_v.Client.Nearby.{after_has, after_client, check_hosts, is_cached_nearby}

module _ (N : Floats) (X : RendezvousHasher N) (K : Type 0) (hash : Text) where
  abbrev Client : Type 0
  Client = BlobCacheClient N X K

  -- The local cache has this host for the hash, and there is this connection to it.
  pub record Settled (k : K) (host : Host N X K) (c : Client) : Type 0 where
    pub timestamp : ℕ
    pub cached :
        lookup c.local_host_cache hash ≡ some (record { host = host; timestamp = timestamp })
    pub connected : lookup c.grpc_clients host.host_id ≡ some k

  pub client_when_known :
      (k : K) (host : Host N X K) (c : Client) (key : Text) (i t : ℕ)
      → Settled k host c
      → get_grpc_client N X K c (retrieve N X K hash key i) t ≡ (some (k, host), c)
  unfolding get_grpc_client
  client_when_known k host c key i t s =
      ap
        (λ e.
          connect N X K hash (
            cached_or N X K c (retrieve N X K hash key i) t (X.get_n c.hasher c.n_top_hosts key) e))
        s.cached
      ∙ ap (with_connection N X K hash c host) s.connected

  pair_some :
      {k k' : K} {h h' : Host N X K}
      → ◌≡◌ {A = Option (K × Host N X K)} (some (k, h)) (some (k', h'))
      → (k ≡ k') × (h ≡ h')
  pair_some e = (cc, cc)

  connected-Settled :
      (k : K) (host h : Host N X K) (t : ℕ) (c : Client) (found : Option K)
      → lookup c.grpc_clients h.host_id ≡ found
      → lookup c.local_host_cache hash ≡ some (record { host = h; timestamp = t })
      → (with_connection N X K hash c h found).0 ≡ some (k, host)
      → Settled k host (with_connection N X K hash c h found).1
  connected-Settled k host h t c none e cached out = cc
  connected-Settled k host h t c (some k') e cached out =
      let same = pair_some out in
      record {
        timestamp = t;
        cached = cached ∙ ap (λ h'. some (record { host = h'; timestamp = t })) same.1;
        connected = ap (λ h'. lookup c.grpc_clients h'.host_id) (sym same.1) ∙ e ∙ ap some same.0;
      }

  get_grpc_client-Settled :
      (k : K) (host : Host N X K) (c : Client) (key : Text) (i t : ℕ)
      → (get_grpc_client N X K c (retrieve N X K hash key i) t).0 ≡ some (k, host)
      → Settled k host (get_grpc_client N X K c (retrieve N X K hash key i) t).1
  unfolding get_grpc_client
  get_grpc_client-Settled k host c key i t =
      go (lookup c.local_host_cache hash) refl (host_at (X.get_n c.hasher c.n_top_hosts key) i) refl
    where
      go :
          (cached : Option (CachedHost N X K))
          → lookup c.local_host_cache hash ≡ cached
          → (chosen : Option (Host N X K)) → host_at (X.get_n c.hasher c.n_top_hosts key) i ≡ chosen
          → (connect N X K hash (
              cached_or N X K c
                (retrieve N X K hash key i)
                t
                (X.get_n c.hasher c.n_top_hosts key)
                cached)).0
            ≡ some (k, host)
          → Settled k host
              (connect N X K hash (
                cached_or N X K c
                  (retrieve N X K hash key i)
                  t
                  (X.get_n c.hasher c.n_top_hosts key)
                  cached)).1
      go (some entry) e chosen d =
          connected-Settled k host entry.host entry.timestamp c
            (lookup c.grpc_clients entry.host.host_id) refl e
      go none e chosen d = rw d (fresh chosen)
        where
          fresh :
              (chosen : Option (Host N X K))
              → (connect N X K hash (remember N X K c hash t chosen)).0 ≡ some (k, host)
              → Settled k host (connect N X K hash (remember N X K c hash t chosen)).1
          fresh none out = cc
          fresh (some h) out =
              connected-Settled k host h t _ (lookup c.grpc_clients h.host_id) refl
                (lookup-insert c.local_host_cache hash hash (record { host = h; timestamp = t })
                  ∙ rw (beq_refl hash) refl)
                out

  -- Once a request to retrieve a content has got a client, every later request for the same hash gets
  -- the same client and host, whatever its routing key and host index, and changes nothing, until
  -- the local cache or the connections change.
  pub get_grpc_client_again :
      (k : K) (host : Host N X K) (c : Client) (key : Text) (i t : ℕ)
      → let (client, c') = get_grpc_client N X K c (retrieve N X K hash key i) t in
        client ≡ some (k, host)
        → (key' : Text) (j u : ℕ)
        → get_grpc_client N X K c' (retrieve N X K hash key' j) u ≡ (some (k, host), c')
  get_grpc_client_again k host c key i t e key' j u =
      client_when_known k host _ key' j u (get_grpc_client-Settled k host c key i t e)

  abbrev pub one_reply : (K → Result Text Bool) → Option (K × Host N X K) → Result ClientError Bool
  one_reply has none = err host_not_found
  one_reply has (some (k, host)) = elim (has k) [ err e ↦ err (call_failed e) | ok b ↦ ok b ]

  module _ (has : K → Result Text Bool) (now : ℕ → ℕ) where
    abbrev check : ℕ → Text → ℕ → Client → Result ClientError Bool × Client
    check n key i c = check_hosts N X K n hash key (λ j. has) (λ j c'. c') now i c

    check-Settled :
        (k : K) (host : Host N X K) (key : Text) (n i : ℕ) (c : Client)
        → has k ≡ ok false
        → Settled k host c
        → (check n key i c).0 ≡ ok false
    unfolding check_hosts
    check-Settled k host key zero i c misses s = refl
    check-Settled k host key (suc n) i c misses s =
        ap (λ o. (after_client N X K (check n key (suc i)) has o).0)
          (client_when_known k host c key i (now i) s)
        ∙ ap (λ r. (after_has N X K (check n key (suc i) c) c r).0) misses
        ∙ check-Settled k host key n (suc i) c misses s

    after_client-one :
        (n : ℕ) (key : Text) (client : Option (K × Host N X K)) (c : Client)
        → ((k : K) (host : Host N X K) → client ≡ some (k, host) → Settled k host c)
        → (after_client N X K (check n key 1) has (client, c)).0 ≡ one_reply has client
    after_client-one n key none c s = refl
    after_client-one n key (some (k, host)) c s = go (has k) refl
      where
        go :
            (r : Result Text Bool)
            → has k ≡ r
            → (after_has N X K (check n key 1 c) c r).0
              ≡ elim r [ err e ↦ err (call_failed e) | ok b ↦ ok b ]
        go (err e) q = refl
        go (ok true) q = refl
        go (ok false) q = check-Settled k host key n 1 c q (s k host refl)

    -- Where no other goroutine changes the client in between, and a host answers alike each time,
    -- `IsCachedNearby` asks one host only, however many hosts are configured: the host of the local
    -- cache, or the first of the hasher. It answers false if none is configured.
    pub is_cached_nearby_lem :
        (c : Client) (routing_key : Text)
        → (is_cached_nearby N X K c hash routing_key (λ j. has) (λ j c'. c') now).0
          ≡ elim (pos_part c.n_top_hosts) [
            | zero ↦ ok false
            | suc n ↦
                one_reply has
                  (get_grpc_client N X K c (retrieve N X K hash routing_key 0) (now 0)).0
          ]
    unfolding is_cached_nearby check_hosts
    is_cached_nearby_lem c routing_key = go (pos_part c.n_top_hosts)
      where
        go :
            (n : ℕ)
            → (check n routing_key 0 c).0 ≡ elim n [
              | zero ↦ ok false
              | suc m ↦
                  one_reply has
                    (get_grpc_client N X K c (retrieve N X K hash routing_key 0) (now 0)).0
            ]
        go zero = refl
        go (suc n) =
            after_client-one n routing_key _ _
              (λ k host e. get_grpc_client-Settled k host c routing_key 0 (now 0) e)
