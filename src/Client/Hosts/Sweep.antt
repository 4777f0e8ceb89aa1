-- ===== src/Client/Hosts/Sweep.antt =====
-- The local cache of pkg/client.go and its cleaning.
use blobcache_v.Base.{
  ℕ, ◌+◌, ◌≤◌, ◌<◌, ◌≡◌, refl, ap, ◌∙◌, inl, inr, Bool, true, false, ◌&&◌, ◌||◌, Option, none, some,
  List, [], ◌∷◌, arith, Bool-cases, ◌==◌, ℕ_eq, if◌then◌else◌,
}
use blobcache_v.Base.Texts.{Text, text_eq, text-cases}
use blobcache_v.Base.Maps.{Map, lookup, lookup-delete, beq_refl, beq_of_ne}
use blobcache_v.Types.{Floats}
use blobcache_v.Client.{RendezvousHasher, CachedHost, BlobCacheClient}
use blobcache_v.Client.Hosts.{is_expired, stale_hashes, delete_each, sweep}

-- Whether a key is among keys
abbrev pub among : Text → List Text → Bool
among k [] = false
among k (j ∷ js) = (j == k) || among k js

module _ (N : Floats) (X : RendezvousHasher N) (K : Type 0) where
  abbrev Cache : Type 0
  Cache = Map Text (CachedHost N X K)

  lookup-delete_each :
      {V : Type 0} (m : Map Text V) (ks : List Text) (k : Text)
      → lookup (delete_each N X K m ks) k ≡ (if among k ks then none else lookup m k)
  unfolding delete_each
  lookup-delete_each m [] k = refl
  lookup-delete_each m (j ∷ js) k =
      ground (arith, lookup-delete (delete_each N X K m js) j k, lookup-delete_each m js k)

  abbrev there : Option (CachedHost N X K) → Bool
  there none = false
  there (some entry) = true

  among-stale_hashes :
      (now ttl : ℕ) (cache rest : Cache) (k : Text)
      → among k (stale_hashes N X K now ttl cache rest)
        ≡ (is_expired N X K now ttl (lookup cache k) && there (lookup rest k))
  unfolding stale_hashes lookup
  among-stale_hashes now ttl cache [] k = ground arith
  among-stale_hashes now ttl cache ((j, entry) ∷ rest) k = elim (text-cases j k) [
    | inl e ↦
        rw (e, beq_refl k)
          (elim (Bool-cases (is_expired N X K now ttl (lookup cache k))) [
            | inl t ↦ rw (t, beq_refl k) refl
            | inr f ↦ rw f (among-stale_hashes now ttl cache rest k ∙ rw f refl)
          ])
    | inr ne ↦
        rw (beq_of_ne j k ne) (elim (Bool-cases (is_expired N X K now ttl (lookup cache j))) [
          | inl t ↦ rw (t, beq_of_ne j k ne) (among-stale_hashes now ttl cache rest k)
          | inr f ↦ rw f (among-stale_hashes now ttl cache rest k)
        ])
  ]

  missing_kept :
      (now ttl : ℕ) (left : Option (CachedHost N X K))
      → (if is_expired N X K now ttl none && there none then none else left) ≡ left
  unfolding is_expired
  missing_kept now ttl left = refl

  old_dropped :
      (now ttl : ℕ) (entry : CachedHost N X K) (left : Option (CachedHost N X K))
      → entry.timestamp + ttl < now
      → (if is_expired N X K now ttl (some entry) && there (some entry) then none else left) ≡ none
  unfolding is_expired
  old_dropped now ttl entry left old = ground (arith, old)

  young_kept :
      (now ttl : ℕ) (entry : CachedHost N X K) (left : Option (CachedHost N X K))
      → now ≤ entry.timestamp + ttl
      → (if is_expired N X K now ttl (some entry) && there (some entry) then none else left) ≡ left
  unfolding is_expired
  young_kept now ttl entry left young = ground (arith, young)

  -- A tick of `manageLocalClientCache`, between whose two loops other goroutines may act, takes a hash
  -- out of the local cache if at the first loop it has an entry that is older than the time to live,
  -- also if the entry has been renewed meanwhile. A hash with an entry that is not older, or with
  -- none, is left as the other goroutines leave it.
  pub sweep_lem :
      (now ttl : ℕ) (others : BlobCacheClient N X K → BlobCacheClient N X K)
      (c : BlobCacheClient N X K) (hash : Text)
      → (let after = lookup (sweep N X K now ttl others c).local_host_cache hash in
          let left = lookup (others c).local_host_cache hash in
          (lookup c.local_host_cache hash ≡ none → after ≡ left)
          × ((entry : CachedHost N X K)
              → lookup c.local_host_cache hash ≡ some entry
              → (entry.timestamp + ttl < now → after ≡ none)
                × (now ≤ entry.timestamp + ttl → after ≡ left)))
  unfolding sweep
  sweep_lem now ttl others c hash =
      let swept =
        lookup-delete_each (others c).local_host_cache
          (stale_hashes N X K now ttl c.local_host_cache c.local_host_cache) hash
        ∙ ap (λ b. if b then none else lookup (others c).local_host_cache hash)
            (among-stale_hashes now ttl c.local_host_cache c.local_host_cache hash) in
      (
        λ missing. swept ∙ rw missing (missing_kept now ttl _),
        λ entry e. (
          λ old. swept ∙ rw e (old_dropped now ttl entry _ old),
          λ young. swept ∙ rw e (young_kept now ttl entry _ young),
        ),
      )
