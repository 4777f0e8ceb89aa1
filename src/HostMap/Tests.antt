-- ===== src/HostMap/Tests.antt =====
-- Searches among two hosts of pkg/hostmap.go.
use blobcache_v.Base.{◌<◌, ◌≡◌, ◌≢◌, List, [], ◌∷◌, ℕ_eq, All}
use blobcache_v.Base.Int.{pos}
use blobcache_v.Base.Texts.{codes, text_eq}
use blobcache_v.Types.Plain.{whole}
use blobcache_v.Types.{BlobCacheHost}
use blobcache_v.HostMap.{Hosts, Poll, found, waiting, panics, closest, closest_with_capacity}
use blobcache_v.HostMap.Nearest.{
  Any, NotFarther, NotWorse, Nearest, Steady, closest_lem, closest_with_capacity_lem,
}

abbrev near : BlobCacheHost whole
near = record {
  rtt = pos 3;
  host_id = codes "near";
  addr = codes "10.0.0.1:2049";
  private_addr = [];
  capacity_usage_pct = 40;
}

abbrev far : BlobCacheHost whole
far = record {
  rtt = pos 9;
  host_id = codes "far";
  addr = codes "10.0.0.2:2049";
  private_addr = [];
  capacity_usage_pct = 10;
}

abbrev hosts : Hosts whole
hosts = (codes "far", far) ∷ (codes "near", near) ∷ []

-- No host in the first poll, two in the second.
abbrev polls : List (Poll whole)
polls =
    record { seen = []; copied = []; elapsed = 0 }
    ∷ record { seen = hosts; copied = hosts; elapsed = 1 }
    ∷ []

closest_lem_example :
    ((h : BlobCacheHost whole)
      → closest whole 5 polls ≡ found h
      → Any (Nearest whole (NotFarther whole) h) polls)
    × (Any (λ p. 5 < p.elapsed) polls → closest whole 5 polls ≢ waiting)
    × (All (Steady whole) polls → closest whole 5 polls ≢ panics)
closest_lem_example = closest_lem whole 5 polls

closest_with_capacity_lem_example :
    ((h : BlobCacheHost whole)
      → closest_with_capacity whole 5 polls ≡ found h
      → Any (Nearest whole (NotWorse whole) h) polls)
    × (Any (λ p. 5 < p.elapsed) polls → closest_with_capacity whole 5 polls ≢ waiting)
    × (closest_with_capacity whole 5 polls ≢ panics)
closest_with_capacity_lem_example = closest_with_capacity_lem whole 5 polls
