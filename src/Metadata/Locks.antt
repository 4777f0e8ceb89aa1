-- ===== src/Metadata/Locks.antt =====
-- The locks of pkg/redis.go between processes that share a Redis, and the keys of pkg/metadata.go.
use blobcache_v.Base.{
  ℕ, ◌≡◌, ◌≢◌, refl, ap, subst, ◌∙◌, sym, none, some, [], ◌∷◌, arith, ok, err, ℕ_eq, if◌then◌else◌,
}
use blobcache_v.Base.Texts.{Text, text_eq}
use blobcache_v.Base.Maps.{Map, lookup, lookup-insert, lookup-delete, beq_refl}
use blobcache_v.Metadata.{
  Redis, Obtained, obtained, not_obtained, obtain_failed, Engine, keep_lock, acquire, not_held,
  release_token, release, underscored, store_lock_key,
}

module _ (R : Redis) (key : Text) where
  -- A process with these locks
  abbrev pub process : R.State → Map Text R.Token → Engine R
  process s locks = record { rdb = s; locks = locks }

  -- The process holds the lock by this token.
  pub record HeldBy (t : R.Token) (m : Engine R) : Type 0 where
    pub known : lookup m.locks key ≡ some t
    pub owned : R.owner m.rdb key ≡ some t

  -- What the lock of one process means to the others, and what its release does.
  pub record Excludes (t : R.Token) (a : Engine R) : Type 0 where
    pub others_fail :
        (locks : Map Text R.Token) (ttl : ℕ)
        → let (result, b) = acquire R (process a.rdb locks) key ttl in
          (result ≢ ok tt) × ((b.locks ≡ locks) × (R.owner b.rdb key ≡ some t))
    pub others_keep :
        (locks : Map Text R.Token)
        → lookup locks key ≡ none
        → release R (process a.rdb locks) key ≡ (err not_held, process a.rdb locks)
    pub released :
        let (result, b) = release R a key in
        (result ≡ ok tt)
        × ((lookup b.locks key ≡ none) × ((R.release a.rdb t).0 ≡ ok tt → R.owner b.rdb key ≡ none))

  acquire-HeldBy :
      (m : Engine R) (ttl : ℕ)
      → (acquire R m key ttl).0 ≡ ok tt
      → (t : R.Token) × HeldBy t (acquire R m key ttl).1
  unfolding acquire
  acquire-HeldBy m ttl = go (R.obtain m.rdb key ttl) refl
    where
      go :
          (out : Obtained R.Token × R.State)
          → R.obtain m.rdb key ttl ≡ out
          → (keep_lock R m key out).0 ≡ ok tt
          → (t : R.Token) × HeldBy t (keep_lock R m key out).1
      go (obtained t, s) e done = (
        t,
        record {
          known =
              lookup-insert m.locks key key t
              ∙ ap (λ b. if b then some t else lookup m.locks key) (beq_refl key);
          owned =
              ap (λ o. R.owner o.1 key) (sym e) ∙ R.owner-obtain m.rdb key ttl t (ap (λ o. o.0) e);
        },
      )
      go (not_obtained, s) e done = cc
      go (obtain_failed x, s) e done = cc

  others-fail :
      (t : R.Token) (s : R.State) (locks : Map Text R.Token) (ttl : ℕ)
      → R.owner s key ≡ some t
      → let (result, b) = acquire R (process s locks) key ttl in
        (result ≢ ok tt) × ((b.locks ≡ locks) × (R.owner b.rdb key ≡ some t))
  unfolding acquire
  others-fail t s locks ttl owned = go (R.obtain s key ttl) refl
    where
      go :
          (out : Obtained R.Token × R.State)
          → R.obtain s key ttl ≡ out
          → let (result, b) = keep_lock R (process s locks) key out in
            (result ≢ ok tt) × ((b.locks ≡ locks) × (R.owner b.rdb key ≡ some t))
      go (obtained u, s') e = absurd (R.obtain_owned s key ttl t u owned (ap (λ o. o.0) e))
      go (not_obtained, s') e = (
        λ w. cc,
        (refl, ap (λ o. R.owner o.1 key) (sym e) ∙ R.owner-obtain_owned s key ttl t owned),
      )
      go (obtain_failed x, s') e = (
        λ w. cc,
        (refl, ap (λ o. R.owner o.1 key) (sym e) ∙ R.owner-obtain_owned s key ttl t owned),
      )

  release-known :
      (t : R.Token) (m : Engine R)
      → HeldBy t m
      → let (result, b) = release R m key in
        (result ≡ ok tt)
        × ((lookup b.locks key ≡ none) × ((R.release m.rdb t).0 ≡ ok tt → R.owner b.rdb key ≡ none))
  unfolding release
  release-known t m h =
      subst
        (λ found.
          let (result, b) = release_token R m key found in
          (result ≡ ok tt)
          × ((lookup b.locks key ≡ none)
              × ((R.release m.rdb t).0 ≡ ok tt → R.owner b.rdb key ≡ none)))
        (sym h.known)
        (
          refl,
          (
            lookup-delete m.locks key key
                ∙ ap (λ b. if b then none else lookup m.locks key) (beq_refl key),
            R.owner-release m.rdb key t h.owned,
          ),
        )

  -- A process that has acquired a lock excludes the others until the lock expires: no other process
  -- can acquire it, the owner stays whatever they try, and the release of a process that has not
  -- acquired it fails and changes nothing. Its own release returns no error, forgets the lock and, if
  -- Redis carries it out, frees it.
  pub acquire-Excludes :
      (m : Engine R) (ttl : ℕ)
      → (acquire R m key ttl).0 ≡ ok tt
      → (t : R.Token) × Excludes t (acquire R m key ttl).1
  unfolding release
  acquire-Excludes m ttl done =
      let (t, h) = acquire-HeldBy m ttl done in
      let a = (acquire R m key ttl).1 in
      (
        t,
        record {
          others_fail = λ locks ttl'. others-fail t a.rdb locks ttl' h.owned;
          others_keep = λ locks free. ap (release_token R (process a.rdb locks) key) free;
          released = release-known t a h;
        },
      )

underscored_idempotent : (p : Text) → underscored (underscored p) ≡ underscored p
unfolding underscored
underscored_idempotent [] = refl
underscored_idempotent (c ∷ cs) = ground (arith, underscored_idempotent cs)

-- The lock of a source path is also the lock of the path in which every slash is an underscore.
pub store_lock_key-underscored :
    (locality p : Text) → store_lock_key locality (underscored p) ≡ store_lock_key locality p
unfolding store_lock_key
store_lock_key-underscored locality p = rw (underscored_idempotent p) refl
