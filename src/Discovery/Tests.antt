-- ===== src/Discovery/Tests.antt =====
-- A round of the discovery over a coordinator in memory.
use blobcache_v.Base.{◌≡◌, refl, inl, some, [], ◌∷◌, ok, ℕ_eq}
use mathlib.Core.List.Permᴰ
use blobcache_v.Base.Int.{pos}
use blobcache_v.Base.Texts.{codes, text_eq, list_beq}
use blobcache_v.Base.Maps.{lookup}
use blobcache_v.Types.Plain.{whole}
use blobcache_v.Types.{message_host, host_message, BlobCacheHost}
use blobcache_v.Coordinator.Mock.{MockCoordinator, mock_coordinator, get_available_hosts}
use blobcache_v.Server.Example.{coordinator}
use blobcache_v.HostMap.{Hosts, get}
use blobcache_v.Coordinator.{Coordinator}
use blobcache_v.Coordinator.Service.{CacheService, handle_get_available_hosts}
use blobcache_v.Coordinator.Remote.{coordinator_client_remote, remote_get_available_hosts, answered}
use blobcache_v.Discovery.{Arrival, Network, blob_cache_version, discovery_round}
use blobcache_v.Discovery.Found.{discovery_round_lem}

abbrev peer : BlobCacheHost whole
peer = record {
  rtt = pos 1;
  host_id = codes "one";
  addr = codes "1.1.1.1:2049";
  private_addr = codes "10.0.0.1:2049";
  capacity_usage_pct = 0;
}

abbrev answering : Network whole
answering tls dialled = ok (record { version = blob_cache_version; usage_pct = 30 })

abbrev one_host : Hosts whole
one_host = (codes "one", peer) ∷ []

abbrev at_once : Arrival whole
at_once = record { order = λ hosts. hosts; reorders = Permᴰ.refl }

abbrev other : BlobCacheHost whole
other = record peer { host_id = codes "two" }

-- The coordinator lists a host that is not known.
abbrev listing : MockCoordinator whole
listing = record coordinator { hosts = (codes "east", (codes "two", other) ∷ []) ∷ [] }

abbrev server : CacheService whole (mock_coordinator whole)
server = record { coordinator = listing; regions = [] }

abbrev remote : Coordinator whole
remote = coordinator_client_remote whole (mock_coordinator whole) answered

discovery_round_lem_example :
    (k : BlobCacheHost whole) × (get whole
        (discovery_round whole remote answering at_once (codes "east") one_host server).0
        (codes "two")
      ≡ some k)
unfolding remote_get_available_hosts get_available_hosts get lookup list_beq
    handle_get_available_hosts message_host host_message
discovery_round_lem_example =
    ((discovery_round_lem whole remote answering at_once (codes "east") one_host server).2
        (record other { rtt = pos 0; capacity_usage_pct = 0 } ∷ []) refl).1
      (record other { rtt = pos 0; capacity_usage_pct = 30 })
      (record other { rtt = pos 0; capacity_usage_pct = 0 }) (inl refl)
      (refl, (record { version = codes "dev"; usage_pct = 30 }, refl, refl, refl))
