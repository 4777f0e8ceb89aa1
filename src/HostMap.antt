-- ===== src/HostMap.antt =====
-- pkg/hostmap.go: the cache hosts that a client knows. A method that holds the mutex throughout is
-- one step; `Closest` and `ClosestWithCapacity` look at the map at several moments, their polls.
pub mod Nearest
pub mod Entries
mod Tests
use blobcache_v.Base.{
  Bool, true, false, not, ◌&&◌, ◌||◌, Option, none, some, List, [], ◌∷◌, ltb, if◌then◌else◌, ℕ,
}
use blobcache_v.Base.Int.{ℤ, ltb_ℤ}
use blobcache_v.Base.Texts.{Text, text_eq}
use blobcache_v.Base.Maps.{Map, lookup, insert, delete}
use blobcache_v.Types.{Floats, BlobCacheHost}

-- How `Closest` ends. `waiting` is left where the polls end before it returns.
pub data Search (A : Type 0) : Type 0 where
  found : A → Search A
  host_not_found panics waiting : Search A

-- `sort.Slice`. The order of the list, and so of equal elements, is that of a map's entries, which
-- is left open.
pub insert_sorted : {A : Type 0} → (A → A → Bool) → A → List A → List A
insert_sorted less a [] = a ∷ []
insert_sorted less a (x ∷ xs) =
    let rest = insert_sorted less a xs in if less a x then a ∷ x ∷ xs else x ∷ rest

pub sort_slice : {A : Type 0} → (A → A → Bool) → List A → List A
sort_slice less [] = []
sort_slice less (x ∷ xs) = insert_sorted less x (sort_slice less xs)

-- The values of a map
pub host_values : {V : Type 0} → Map Text V → List V
host_values [] = []
host_values ((k, v) ∷ m) = v ∷ host_values m

module _ (N : Floats) where
  abbrev pub Hosts : Type 0
  Hosts = Map Text (BlobCacheHost N)

  -- The map, and the new host if `onHostAdded` is called, whose error is ignored.
  pub set : Hosts → BlobCacheHost N → Hosts × Option (BlobCacheHost N)
  set hosts host = elim (lookup hosts host.host_id) [
    | none ↦ (insert hosts host.host_id host, some host)
    | some h ↦ (hosts, none)
  ]

  pub remove : Hosts → BlobCacheHost N → Hosts
  remove hosts host = elim (lookup hosts host.host_id) [
    | none ↦ hosts
    | some h ↦ delete hosts host.host_id
  ]

  -- The set as a list
  pub members : Hosts → List Text
  members [] = []
  members ((k, h) ∷ hosts) = h.host_id ∷ members hosts

  pub get_all : Hosts → List (BlobCacheHost N)
  get_all hosts = host_values hosts

  -- `none` is nil
  unfoldable pub get : Hosts → Text → Option (BlobCacheHost N)
  get hosts host_id = lookup hosts host_id

  -- One turn of the loop of `Closest`: the map when its length is read, without the mutex, the map
  -- when it is copied, and the time that has passed.
  pub record Poll : Type 0 where
    pub seen : Hosts
    pub copied : Hosts
    pub elapsed : ℕ

  abbrev pub by_rtt : BlobCacheHost N → BlobCacheHost N → Bool
  by_rtt a b = ltb_ℤ a.rtt b.rtt

  abbrev pub by_rtt_and_capacity : BlobCacheHost N → BlobCacheHost N → Bool
  by_rtt_and_capacity a b =
      if ltb_ℤ a.rtt b.rtt || ltb_ℤ b.rtt a.rtt
      then ltb_ℤ a.rtt b.rtt
      else N.less a.capacity_usage_pct b.capacity_usage_pct

  -- `hosts[0]` panics on an empty list.
  abbrev pub first_or_panic : List (BlobCacheHost N) → Search (BlobCacheHost N)
  first_or_panic [] = panics
  first_or_panic (h ∷ hs) = found h

  abbrev pub first_or_not_found : List (BlobCacheHost N) → Search (BlobCacheHost N)
  first_or_not_found [] = host_not_found
  first_or_not_found (h ∷ hs) = found h

  abbrev pub is_empty : Hosts → Bool
  is_empty [] = true
  is_empty (h ∷ hs) = false

  pub closest : ℕ → List Poll → Search (BlobCacheHost N)
  closest timeout [] = waiting
  closest timeout (p ∷ ps) =
      let rest = closest timeout ps in
      if is_empty p.seen
      then (if ltb timeout p.elapsed then host_not_found else rest)
      else first_or_panic (sort_slice by_rtt (host_values p.copied))

  pub closest_with_capacity : ℕ → List Poll → Search (BlobCacheHost N)
  closest_with_capacity timeout [] = waiting
  closest_with_capacity timeout (p ∷ ps) =
      let rest = closest_with_capacity timeout ps in
      if is_empty p.seen
      then (if ltb timeout p.elapsed then host_not_found else rest)
      else first_or_not_found (sort_slice by_rtt_and_capacity (host_values p.copied))
