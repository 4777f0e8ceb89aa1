-- ===== src/Client/Routes.antt =====
-- Which hosts `GetContent` of pkg/client.go asks, and in which order.
use blobcache_v.Base.{
  ℕ, zero, suc, ◌≡◌, refl, ap, ◌∙◌, Option, none, some, List, length, Result, ok, err, ℕ_eq,
}
use blobcache_v.Base.Int.{ℤ}
use blobcache_v.Base.Texts.{Text, text_eq}
use blobcache_v.Base.Maps.{lookup, lookup-delete, beq_refl}
use blobcache_v.Backends.{Bytes}
use blobcache_v.Types.{Floats}
use blobcache_v.Client.{
  RendezvousHasher, ClientError, host_not_found, content_not_found, ContentReply, unreachable,
  not_ok, served, Host, CachedHost, BlobCacheClient, host_at, key_or, forget, remember, cached_or,
  with_connection, connect, get_grpc_client, retrieve, max_attempts, after_reply, after_client,
  get_attempts, get_content,
}

module _ (N : Floats) (X : RendezvousHasher N) (K : Type 0) where
  abbrev Client : Type 0
  Client = BlobCacheClient N X K

  abbrev pub connection : Client → Option (Host N X K) → Option K
  connection c none = none
  connection c (some host) = lookup c.grpc_clients host.host_id

  abbrev pub first_choice : List (Host N X K) → Option (CachedHost N X K) → Option (Host N X K)
  first_choice hosts none = host_at hosts 0
  first_choice hosts (some entry) = some entry.host

  -- The connection for an attempt: the first goes to the host of the local cache, if there is one,
  -- and attempt `i` to the i-th host of the hasher, or the last.
  unfoldable pub route : Client → Text → Text → ℕ → Option K
  route c hash key zero =
      connection c
        (first_choice (X.get_n c.hasher c.n_top_hosts key) (lookup c.local_host_cache hash))
  route c hash key (suc i) = connection c (host_at (X.get_n c.hasher c.n_top_hosts key) (suc i))

  abbrev served_or : Result ClientError Bytes → ContentReply → Result ClientError Bytes
  served_or rest unreachable = rest
  served_or rest not_ok = rest
  served_or rest (served bytes) = ok bytes

  abbrev asked : Result ClientError Bytes → (K → ContentReply) → Option K → Result ClientError Bytes
  asked rest ask none = err host_not_found
  asked rest ask (some k) = served_or rest (ask k)

  -- The reference: ask one connection after another until one serves the content; a missing
  -- connection ends the search.
  unfoldable pub ask_in_order :
      ℕ → (ℕ → Option K) → (ℕ → K → ContentReply) → ℕ → Result ClientError Bytes
  ask_in_order zero route ask i = err content_not_found
  ask_in_order (suc n) route ask i = asked (ask_in_order n route ask (suc i)) (ask i) (route i)

  module _ (c₀ : Client) (hash key : Text) (ask : ℕ → K → ContentReply) (now : ℕ → ℕ) where
    -- What the attempts leave of the client
    record Same (c : Client) : Type 0 where
      grpc_clients : c.grpc_clients ≡ c₀.grpc_clients
      hasher : c.hasher ≡ c₀.hasher
      n_top_hosts : c.n_top_hosts ≡ c₀.n_top_hosts

    abbrev attempts : ℕ → ℕ → Client → Result ClientError Bytes × Client
    attempts n i c = get_attempts N X K n hash key ask (λ i c. c) now i c

    -- The clients in which the hash has no host in the local cache
    record Cleared (c : Client) : Type 0 where
      same : Same c
      no_host : lookup c.local_host_cache hash ≡ none

    forget-Cleared : (c : Client) → Same c → Cleared (forget N X K c hash)
    forget-Cleared c s = record {
      same = record {
        grpc_clients = s.grpc_clients;
        hasher = s.hasher;
        n_top_hosts = s.n_top_hosts;
      };
      no_host = lookup-delete c.local_host_cache hash hash ∙ rw (beq_refl hash) refl;
    }

    after_reply-asked :
        (next : Client → Result ClientError Bytes × Client) (rest : Result ClientError Bytes)
        (c : Client) (r : ContentReply)
        → Same c
        → ((c' : Client) → Cleared c' → (next c').0 ≡ rest)
        → (after_reply N X K next hash c r).0 ≡ served_or rest r
    after_reply-asked next rest c unreachable s h = h _ (forget-Cleared c s)
    after_reply-asked next rest c not_ok s h = h _ (forget-Cleared c s)
    after_reply-asked next rest c (served bytes) s h = refl

    -- An attempt whose host has been chosen
    connect-asked :
        (next : Client → Result ClientError Bytes × Client) (rest : Result ClientError Bytes)
        (i : ℕ) (host : Option (Host N X K)) (c : Client)
        → Same c
        → ((c' : Client) → Cleared c' → (next c').0 ≡ rest)
        → (after_client N X K next hash (ask i) (connect N X K hash (host, c))).0
          ≡ asked rest (ask i) (connection c₀ host)
    connect-asked next rest i none c s h = refl
    connect-asked next rest i (some host) c s h =
        found (lookup c.grpc_clients host.host_id)
        ∙ ap (λ m. asked rest (ask i) (lookup m host.host_id)) s.grpc_clients
      where
        found :
            (k : Option K)
            → (after_client N X K next hash (ask i) (with_connection N X K hash c host k)).0
              ≡ asked rest (ask i) k
        found none = refl
        found (some k) = after_reply-asked next rest c (ask i k) s h

    remember-Same :
        (c : Client) (t : ℕ) (host : Option (Host N X K))
        → Same c
        → (c' : Client) × (remember N X K c hash t host ≡ (host, c')) × Same c'
    remember-Same c t none s = (c, refl, s)
    remember-Same c t (some host) s = (
      _,
      refl,
      record { grpc_clients = s.grpc_clients; hasher = s.hasher; n_top_hosts = s.n_top_hosts },
    )

    hosts : List (Host N X K)
    hosts = X.get_n c₀.hasher c₀.n_top_hosts key

    hosts_kept : (c : Client) → Same c → X.get_n c.hasher c.n_top_hosts key ≡ hosts
    unfolding hosts
    hosts_kept c s = rw (s.hasher, s.n_top_hosts) refl

    -- What an attempt goes on with, if it goes to `host`
    Goes : Option (Host N X K) → Option (K × Host N X K) × Client → Type 0
    Goes host out = (c' : Client) × (out ≡ connect N X K hash (host, c')) × Same c'

    later_client :
        (c : Client) (i t : ℕ)
        → Cleared c
        → Goes (host_at hosts i) (get_grpc_client N X K c (retrieve N X K hash key i) t)
    unfolding get_grpc_client Goes
    later_client c i t h =
        let r = remember-Same c t (host_at hosts i) h.same in
        (
          r.0,
          ap (connect N X K hash) (
              ap
                (cached_or N X K c (retrieve N X K hash key i) t
                  (X.get_n c.hasher c.n_top_hosts key))
                h.no_host
              ∙ ap (λ hs. remember N X K c hash t (host_at hs i)) (hosts_kept c h.same)
              ∙ r.1),
          r.2,
        )

    first_client :
        (t : ℕ)
        → Goes
            (first_choice hosts (lookup c₀.local_host_cache hash))
            (get_grpc_client N X K c₀ (retrieve N X K hash key 0) t)
    unfolding get_grpc_client Goes hosts
    first_client t = go (lookup c₀.local_host_cache hash)
      where
        all_same : Same c₀
        all_same = record { grpc_clients = refl; hasher = refl; n_top_hosts = refl }

        go :
            (cached : Option (CachedHost N X K))
            → Goes
                (first_choice hosts cached)
                (connect N X K hash (cached_or N X K c₀ (retrieve N X K hash key 0) t hosts cached))
        go none =
            let r = remember-Same c₀ t (host_at hosts 0) all_same in
            (r.0, ap (connect N X K hash) r.1, r.2)
        go (some entry) = (c₀, refl, all_same)

    attempt_asked :
        (next : Client → Result ClientError Bytes × Client) (rest : Result ClientError Bytes)
        (i : ℕ) (host : Option (Host N X K)) (out : Option (K × Host N X K) × Client)
        → Goes host out
        → ((c' : Client) → Cleared c' → (next c').0 ≡ rest)
        → (after_client N X K next hash (ask i) out).0 ≡ asked rest (ask i) (connection c₀ host)
    unfolding Goes
    attempt_asked next rest i host out (c, e, s) h =
        ap (λ o. (after_client N X K next hash (ask i) o).0) e
        ∙ connect-asked next rest i host c s h

    later_lem :
        (n i : ℕ) (c : Client)
        → Cleared c
        → (attempts n (suc i) c).0 ≡ ask_in_order n (route c₀ hash key) ask (suc i)
    unfolding get_attempts ask_in_order route hosts
    later_lem zero i c h = refl
    later_lem (suc n) i c h =
        attempt_asked (attempts n (suc (suc i)))
          (ask_in_order n (route c₀ hash key) ask (suc (suc i))) (suc i) (host_at hosts (suc i)) _
          (later_client c (suc i) (now (suc i)) h) (later_lem n (suc i))

    first_lem : (n : ℕ) → (attempts n 0 c₀).0 ≡ ask_in_order n (route c₀ hash key) ask 0
    unfolding get_attempts ask_in_order route hosts
    first_lem zero = refl
    first_lem (suc n) =
        attempt_asked (attempts n 1) (ask_in_order n (route c₀ hash key) ask 1) 0
          (first_choice hosts (lookup c₀.local_host_cache hash)) _ (first_client (now 0))
          (later_lem n 0)

  -- Where no other goroutine changes the client in between, `GetContent` asks one host after another
  -- until one serves the content, and returns what that host served: first the host that the local
  -- cache has for the hash, if it has one, and else the first host of the hasher, then the second
  -- host of the hasher and so on, the last again where there are no more. It ends with an error after
  -- the attempts, or where there is no host or no connection to it. (So a cached host that is not the
  -- first host may be asked twice, and the first host not at all.)
  pub get_content_lem :
      (c : Client) (hash routing_key : Text) (length : ℤ) (ask : ℕ → K → ContentReply) (now : ℕ → ℕ)
      → (get_content N X K c hash length routing_key ask (λ i c'. c') now).0
        ≡ ask_in_order (max_attempts N X K c length) (route c hash (key_or routing_key hash)) ask 0
  unfolding get_content
  get_content_lem c hash routing_key length ask now =
      first_lem c hash (key_or routing_key hash) ask now (max_attempts N X K c length)
