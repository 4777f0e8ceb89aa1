-- ===== src/Discovery.antt =====
-- pkg/discovery.go: how a client finds the hosts of its locality. The replies of hosts and the order in
-- which they arrive are arguments. The hosts that the coordinator lists are copies, as over the remote
-- client, which a client of the cache always uses: what `GetHostState` writes to them does not change
-- the coordinator.
pub mod Found
mod Tests
use blobcache_v.Base.{
  Option, none, some, List, [], ◌∷◌, ◌++◌, Result, ok, err, ◌==◌, ℕ_eq, if◌then◌else◌,
}
use mathlib.Core.List.{Permᴰ}
use blobcache_v.Base.Int.{pos}
use blobcache_v.Base.Texts.{Text, codes, text_eq}
use blobcache_v.Types.{Floats, BlobCacheHost}
use blobcache_v.Coordinator.{Coordinator}
use blobcache_v.HostMap.{Hosts, set, get}

abbrev pub blob_cache_version : Text
blob_cache_version = codes "dev"

module _ (N : Floats) where
  -- The part of `GetStateResponse` that a discovery reads
  pub record StateReply : Type 0 where
    pub version : Text
    pub usage_pct : N.F32

  -- The reply of a host, by the address that decides on TLS and the address that is dialled
  abbrev pub Network : Type 0
  Network = Text → Text → Result Text StateReply

  abbrev pub checked : BlobCacheHost N → Result Text StateReply → Result Text (BlobCacheHost N)
  checked host (err e) = err e
  checked host (ok r) =
      if r.version == blob_cache_version
      then ok (record host { rtt = pos 0; capacity_usage_pct = N.widen r.usage_pct })
      else err (codes "version mismatch: " ++ r.version ++ codes " != " ++ blob_cache_version)

  -- `GetHostState`, which always dials the private address
  unfoldable pub get_host_state : Network → BlobCacheHost N → Result Text (BlobCacheHost N)
  get_host_state ask host =
      let addr = if host.private_addr == [] then host.addr else host.private_addr in
      checked host (ask addr host.private_addr)

  abbrev pub with_state :
      Result Text (BlobCacheHost N) → List (BlobCacheHost N) → List (BlobCacheHost N)
  with_state (ok h) hosts = h ∷ hosts
  with_state (err e) hosts = hosts

  abbrev pub if_unknown :
      Option (BlobCacheHost N)
      → List (BlobCacheHost N)
      → List (BlobCacheHost N)
      → List (BlobCacheHost N)
  if_unknown none asked rest = asked
  if_unknown (some h) asked rest = rest

  -- The loop of `discoverHosts` over the listed hosts, in the order in which their states arrive
  unfoldable pub host_states : Network → Hosts N → List (BlobCacheHost N) → List (BlobCacheHost N)
  host_states ask known [] = []
  host_states ask known (host ∷ hosts) =
      let rest = host_states ask known hosts in
      if_unknown (get N known host.host_id) (with_state (get_host_state ask host) rest) rest

  unfoldable pub update_host_map : Hosts N → List (BlobCacheHost N) → Hosts N
  update_host_map known [] = known
  update_host_map known (h ∷ hs) = update_host_map (set N known h).0 hs

  -- The order in which the states of listed hosts arrive
  pub record Arrival : Type 0 where
    pub order : List (BlobCacheHost N) → List (BlobCacheHost N)
    pub reorders : (hosts : List (BlobCacheHost N)) → Permᴰ (order hosts) hosts

  module _ (C : Coordinator N) where
    abbrev pub listed_hosts :
        Network
        → Arrival
        → Hosts N
        → Result Text (List (BlobCacheHost N))
        → Result Text (List (BlobCacheHost N))
    listed_hosts ask arrive known (err e) = err e
    listed_hosts ask arrive known (ok hosts) = ok (host_states ask known (arrive.order hosts))

    unfoldable pub discover_hosts :
        Network
        → Arrival
        → Text
        → Hosts N
        → C.State
        → Result Text (List (BlobCacheHost N)) × C.State
    discover_hosts ask arrive locality known s =
        let (listed, s') = C.get_available_hosts s locality in
        (listed_hosts ask arrive known listed, s')

    abbrev pub updated : Hosts N → Result Text (List (BlobCacheHost N)) → Hosts N
    updated known (ok hosts) = update_host_map known hosts
    updated known (err e) = known

    -- A round of `Start`
    unfoldable pub discovery_round :
        Network → Arrival → Text → Hosts N → C.State → Hosts N × C.State
    discovery_round ask arrive locality known s =
        let (discovered, s') = discover_hosts ask arrive locality known s in
        (updated known discovered, s')
