-- ===== src/Client/Hosts.antt =====
-- The hosts of a client of pkg/client.go: `addHost`, `monitorHost`, `manageLocalClientCache`,
-- `HostsAvailable` and `WaitForHosts`. Dialling and the replies of hosts are arguments.
pub mod Monitor
pub mod Sweep
use blobcache_v.Base.{
  ℕ, ◌+◌, Bool, true, false, Option, none, some, List, [], ◌∷◌, Result, ok, err, ◌==◌, ℕ_eq, ltb,
  if◌then◌else◌,
}
use blobcache_v.Base.Texts.{Text, text_eq}
use blobcache_v.Base.Maps.{Map, lookup, insert, delete}
use blobcache_v.Types.{Floats}
use blobcache_v.HostMap.{remove, members}
use blobcache_v.Client.{
  RendezvousHasher, ClientError, deadline_exceeded, call_failed, Host, CachedHost, BlobCacheClient,
}

module _ (N : Floats) (X : RendezvousHasher N) (K : Type 0) where
  abbrev Client : Type 0
  Client = BlobCacheClient N X K

  -- `addHost`, with the connection that it dials. It then starts `monitorHost`.
  unfoldable pub add_host :
      Client → Host N X K → Result Text K → Result ClientError (Unit {0}) × Client
  add_host c host (err e) = (err (call_failed e), c)
  add_host c host (ok k) = (
    ok tt,
    record c { grpc_clients = insert c.grpc_clients host.host_id k; hasher = X.add c.hasher host },
  )

  -- Whether a host is there and has this version; `get_state k` is the version that it reports.
  unfoldable pub is_alive : Text → (K → Result Text Text) → Option K → Bool
  is_alive version get_state none = false
  is_alive version get_state (some k) = elim (get_state k) [ err e ↦ false | ok v ↦ v == version ]

  unfoldable pub drop_host : Client → Host N X K → Client
  drop_host c host = record c {
    hosts = remove N c.hosts host;
    hasher = X.remove c.hasher host;
    grpc_clients = delete c.grpc_clients host.addr;
  }

  -- A tick of `monitorHost`: whether it goes on, and the client. `others` is what other goroutines do
  -- between the call and the lock.
  unfoldable pub monitor_tick :
      Client → Host N X K → Text → (K → Result Text Text) → (Client → Client) → Bool × Client
  monitor_tick c host version get_state others =
      if is_alive version get_state (lookup c.grpc_clients host.host_id)
      then (true, others c)
      else (false, drop_host (others c) host)

  unfoldable pub is_expired : ℕ → ℕ → Option (CachedHost N X K) → Bool
  is_expired now ttl none = false
  is_expired now ttl (some entry) = ltb (entry.timestamp + ttl) now

  -- The first loop of a tick of `manageLocalClientCache`, over the keys of the local cache
  unfoldable pub stale_hashes :
      ℕ → ℕ → Map Text (CachedHost N X K) → Map Text (CachedHost N X K) → List Text
  stale_hashes now ttl cache [] = []
  stale_hashes now ttl cache ((hash, entry) ∷ rest) =
      let stale = stale_hashes now ttl cache rest in
      if is_expired now ttl (lookup cache hash) then hash ∷ stale else stale

  unfoldable pub delete_each : {V : Type 0} → Map Text V → List Text → Map Text V
  delete_each m [] = m
  delete_each m (k ∷ ks) = delete (delete_each m ks) k

  -- A tick, with what other goroutines do between its two loops
  unfoldable pub sweep : ℕ → ℕ → (Client → Client) → Client → Client
  sweep now ttl others c =
      let stale = stale_hashes now ttl c.local_host_cache c.local_host_cache in
      let c' = others c in record c' { local_host_cache = delete_each c'.local_host_cache stale }

  pub hosts_available : Client → Bool
  hosts_available c = elim (members N c.hosts) [ [] ↦ false | m ∷ ms ↦ true ]

  -- The rounds of the loop of `WaitForHosts`: whether the deadline has passed, and the client then.
  -- `none` is left where the rounds end before it returns.
  unfoldable pub wait_rounds : List (Bool × Client) → Option (Result ClientError (Unit {0}))
  wait_rounds [] = none
  wait_rounds ((late, c) ∷ rounds) =
      let rest = wait_rounds rounds in
      if late
      then some (err deadline_exceeded)
      else if hosts_available c
      then some (ok tt)
      else rest

  unfoldable pub wait_for_hosts :
      Client → List (Bool × Client) → Option (Result ClientError (Unit {0}))
  wait_for_hosts c rounds =
      let rest = wait_rounds rounds in if hosts_available c then some (ok tt) else rest
