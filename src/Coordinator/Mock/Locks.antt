-- ===== src/Coordinator/Mock/Locks.antt =====
-- The locks of the coordinator in memory, also behind a server and its remote client.
use blobcache_v.Base.{
  ℕ, ◌≡◌, ◌≢◌, refl, ap, subst, ◌∙◌, sym, ◌⊎◌, inl, inr, Bool, true, false, ◌||◌, [], ◌∷◌, arith,
  Result, ok, err, ◌==◌, ℕ_eq, if◌then◌else◌,
}
use blobcache_v.Base.Texts.{Text, Lacks, codes, text_eq, cut_unique}
use blobcache_v.Base.Maps.{lookup, lookup-insert, lookup-delete, beq_refl, beq_of_ne}
use blobcache_v.Types.{Floats}
use blobcache_v.Coordinator.Service.{CacheService, handle_set_store_from_content_lock}
use blobcache_v.Coordinator.Remote.{unanswered, answered, remote_set_store_from_content_lock}
use blobcache_v.Coordinator.Refines.{acknowledge-state, remote-Refines, via, relabelled}
use blobcache_v.Coordinator.StoreLocks.{StoreLocks}
use blobcache_v.Coordinator.Mock.{
  refresh_store_from_content_lock, set_fs_node, add_fs_node_child, MockCoordinator, is_set,
  client_lock_key, store_lock_key, set_client_lock, set_store_from_content_lock,
  remove_store_from_content_lock, mock_coordinator,
}

store_lock_key_injective :
    (l k p q : Text)
    → Lacks b':' l
    → Lacks b':' k
    → store_lock_key l p ≡ store_lock_key k q
    → (l ≡ k) × (p ≡ q)
unfolding store_lock_key
store_lock_key_injective l k p q hl hk e = cut_unique b':' l k p q hl hk (cc)

abbrev first_code : Text → ℕ
first_code [] = 0
first_code (c ∷ cs) = c

client-ne-store : (h l p : Text) → store_lock_key l p ≢ client_lock_key h
unfolding store_lock_key client_lock_key
client-ne-store h l p e = let first : 115 ≡ 99 = ap first_code e in omega (arith, first)

module _ (N : Floats) where
  -- Whether a lock is taken
  abbrev pub locked : MockCoordinator N → Text → Bool
  locked m key = is_set (lookup m.locks key)

  abbrev pub already_held : Result Text (Unit {0})
  already_held = err (codes "lock already held")

  set_outcome :
      (m : MockCoordinator N) (l p : Text)
      → (set_store_from_content_lock N m l p).0
        ≡ (if locked m (store_lock_key l p) then already_held else ok tt)
  unfolding set_store_from_content_lock
  set_outcome m l p = ground arith

  set_refused :
      (m : MockCoordinator N) (l p : Text)
      → locked m (store_lock_key l p) ≡ true
      → set_store_from_content_lock N m l p ≡ (already_held, m)
  unfolding set_store_from_content_lock
  set_refused m l p h = rw h refl

  client_outcome :
      (m : MockCoordinator N) (hash host : Text)
      → (set_client_lock N m hash host).0
        ≡ (if locked m (client_lock_key hash) then already_held else ok tt)
  unfolding set_client_lock
  client_outcome m hash host = ground arith

  same_client :
      (m n : MockCoordinator N) (hash host : Text)
      → locked n (client_lock_key hash) ≡ locked m (client_lock_key hash)
      → (set_client_lock N n hash host).0 ≡ (set_client_lock N m hash host).0
  same_client m n hash host e = rw (client_outcome n hash host, client_outcome m hash host, e) refl

  same_store :
      (m n : MockCoordinator N) (l p : Text)
      → locked n (store_lock_key l p) ≡ locked m (store_lock_key l p)
      → (set_store_from_content_lock N n l p).0 ≡ (set_store_from_content_lock N m l p).0
  same_store m n l p e = rw (set_outcome n l p, set_outcome m l p, e) refl

  module _ (m : MockCoordinator N) (locality source_path : Text) where
    abbrev taken : MockCoordinator N
    taken = (set_store_from_content_lock N m locality source_path).1

    abbrev released : MockCoordinator N
    released = (remove_store_from_content_lock N m locality source_path).1

    set-locked :
        (key : Text)
        → locked taken key ≡ ((store_lock_key locality source_path == key) || locked m key)
    unfolding set_store_from_content_lock
    set-locked key = ground (
      arith,
      text_eq.equal_iff (store_lock_key locality source_path) key,
      lookup-insert m.locks (store_lock_key locality source_path) key true,
    )

    remove-locked :
        (key : Text)
        → locked released key
          ≡ (if store_lock_key locality source_path == key then false else locked m key)
    unfolding remove_store_from_content_lock
    remove-locked key =
        ground (arith, lookup-delete m.locks (store_lock_key locality source_path) key)

    set-locked_self : locked taken (store_lock_key locality source_path) ≡ true
    set-locked_self =
        rw
          (
            set-locked (store_lock_key locality source_path),
            beq_refl (store_lock_key locality source_path),
          )
          refl

    remove-locked_self : locked released (store_lock_key locality source_path) ≡ false
    remove-locked_self =
        rw
          (
            remove-locked (store_lock_key locality source_path),
            beq_refl (store_lock_key locality source_path),
          )
          refl

    set-locked_ne :
        (key : Text) → store_lock_key locality source_path ≢ key → locked taken key ≡ locked m key
    set-locked_ne key ne =
        rw (set-locked key, beq_of_ne (store_lock_key locality source_path) key ne) refl

    remove-locked_ne :
        (key : Text)
        → store_lock_key locality source_path ≢ key
        → locked released key ≡ locked m key
    remove-locked_ne key ne =
        rw (remove-locked key, beq_of_ne (store_lock_key locality source_path) key ne) refl

    other_key :
        (k q : Text)
        → Lacks b':' locality
        → Lacks b':' k
        → (locality ≢ k) ⊎ (source_path ≢ q)
        → store_lock_key locality source_path ≢ store_lock_key k q
    other_key k q hl hk (inl ne) e =
        ne (store_lock_key_injective locality k source_path q hl hk e).0
    other_key k q hl hk (inr ne) e =
        ne (store_lock_key_injective locality k source_path q hl hk e).1

    -- The lock on a source: taking it succeeds exactly if it is free; it is then held, until it is
    -- released, and a second attempt fails and changes nothing. Taking and releasing it changes no
    -- lock of a client, nor the lock of another path or another locality, if no locality has a
    -- colon.
    pub store_lock_exclusive :
        ((set_store_from_content_lock N m locality source_path).0
          ≡ (if locked m (store_lock_key locality source_path) then already_held else ok tt))
        × (set_store_from_content_lock N taken locality source_path ≡ (already_held, taken))
        × ((set_store_from_content_lock N released locality source_path).0 ≡ ok tt)
        × ((hash host : Text)
            → ((set_client_lock N taken hash host).0 ≡ (set_client_lock N m hash host).0)
              × ((set_client_lock N released hash host).0 ≡ (set_client_lock N m hash host).0))
        × ((k q : Text)
            → Lacks b':' locality
            → Lacks b':' k
            → (locality ≢ k) ⊎ (source_path ≢ q)
            → ((set_store_from_content_lock N taken k q).0
                ≡ (set_store_from_content_lock N m k q).0)
              × ((set_store_from_content_lock N released k q).0
                  ≡ (set_store_from_content_lock N m k q).0))
    store_lock_exclusive = (
      set_outcome m locality source_path,
      set_refused taken locality source_path set-locked_self,
      set_outcome released locality source_path ∙ rw remove-locked_self refl,
      λ hash host.
          let ne = client-ne-store hash locality source_path in
          (
            same_client m taken hash host (set-locked_ne _ ne),
            same_client m released hash host (remove-locked_ne _ ne),
          ),
      λ k q hl hk other.
          let ne = other_key k q hl hk other in
          (
            same_store m taken k q (set-locked_ne _ ne),
            same_store m released k q (remove-locked_ne _ ne),
          ),
    )

  -- If the answer to a successful attempt at the lock of a source is lost, the remote client gets
  -- the transport's error and yet holds the lock: every later attempt fails until it is released.
  pub lost_lock :
      (cs : CacheService N (mock_coordinator N)) (e locality source_path : Text)
      → let (result, cs') =
          remote_set_store_from_content_lock N
            (mock_coordinator N)
            (unanswered e)
            cs
            locality
            source_path in
        (result ≡ err e)
        × (remote_set_store_from_content_lock N
              (mock_coordinator N)
              answered
              cs'
              locality
              source_path
            ≡ (err (codes "failed to set store from content lock"), cs'))
  unfolding remote_set_store_from_content_lock handle_set_store_from_content_lock
  lost_lock cs e locality source_path =
      let cs' : CacheService N (mock_coordinator N) = record cs {
        coordinator = taken cs.coordinator locality source_path;
      } in
      (
        refl,
        subst
            (λ c.
              remote_set_store_from_content_lock N (mock_coordinator N) answered c locality
                source_path
              ≡ (err (codes "failed to set store from content lock"), c))
            (sym (
              acknowledge-state N (mock_coordinator N) cs
                (set_store_from_content_lock N cs.coordinator locality source_path)))
            ((remote-Refines N (mock_coordinator N) cs').set_store_from_content_lock locality
                source_path
              ∙ ap
                  (via N (mock_coordinator N) cs'
                    (relabelled (codes "failed to set store from content lock")))
                  (set_refused (taken cs.coordinator locality source_path) locality source_path
                    (set-locked_self cs.coordinator locality source_path))),
      )

  -- The lock on a source of the coordinator in memory keeps what `StoreLocks` promises.
  pub mock_store_locks : StoreLocks N (mock_coordinator N)
  unfolding refresh_store_from_content_lock set_fs_node add_fs_node_child
  mock_store_locks = record {
    held = λ m l p. locked m (store_lock_key l p);
    refusal = codes "lock already held";
    set_refused = set_refused;
    set_taken = λ m l p free. (set_outcome m l p ∙ rw free refl, set-locked_self m l p);
    held-remove = remove-locked_self;
    held-refresh = λ m l p. refl;
    held-set_fs_node = λ m id metadata l p. refl;
    held-add_fs_node_child = λ m pid id l p. refl;
  }
