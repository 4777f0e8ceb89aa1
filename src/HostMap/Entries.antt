-- ===== src/HostMap/Entries.antt =====
-- The entries of the map of hosts of pkg/hostmap.go.
use blobcache_v.Base.{◌≡◌, Option, none, some, arith, ◌==◌, ℕ_eq, if◌then◌else◌}
use blobcache_v.Base.Texts.{Text, text_eq}
use blobcache_v.Base.Maps.{lookup-insert, lookup-delete}
use blobcache_v.Types.{Floats, BlobCacheHost}
use blobcache_v.HostMap.{Hosts, set, remove, get}

abbrev pub or_else : {A : Type 0} → Option A → A → A
or_else none a = a
or_else (some b) a = b

module _ (N : Floats) where
  -- After `Set`, `Get` finds under the host's id the host that was there before, or else the new
  -- one, and the callback runs exactly in the second case; after `Remove` it finds nothing there.
  -- Under any other id it finds what it found before.
  pub get-set_remove :
      (hosts : Hosts N) (host : BlobCacheHost N) (id : Text)
      → (get N (set N hosts host).0 id
          ≡ (if host.host_id == id then some (or_else (get N hosts id) host) else get N hosts id))
        × ((set N hosts host).1
            ≡ elim (get N hosts host.host_id) [ none ↦ some host | some h ↦ none ])
        × (get N (remove N hosts host) id ≡ (if host.host_id == id then none else get N hosts id))
  unfolding get set remove
  get-set_remove hosts host id = (
    ground (arith, text_eq.equal_iff host.host_id id, lookup-insert hosts host.host_id id host),
    ground arith,
    ground (arith, text_eq.equal_iff host.host_id id, lookup-delete hosts host.host_id id),
  )
