-- ===== src/Server/Sources/Locked.antt =====
-- The lock around `StoreContentFromSource` of pkg/server.go, on a coordinator that keeps its locks.
use blobcache_v.Base.{
  ℕ, zero, suc, ◌≡◌, refl, ap, subst, ◌∙◌, sym, inl, inr, Bool, true, false, not, Option, none,
  some, List, [], ◌∷◌, Bool-cases, Option-cases, length, Result, ok, err, ◌==◌, ℕ_eq,
}
use blobcache_v.Base.Texts.{Text, codes, text_eq}
use blobcache_v.Base.Maps.{Map, lookup}
use blobcache_v.Config.{BlobCacheServerConfig}
use blobcache_v.Backends.{Bytes, Ristretto, Disk}
use blobcache_v.Types.{Floats, BlobFsMetadata}
use blobcache_v.Coordinator.{Coordinator, Returns}
use blobcache_v.Coordinator.StoreLocks.{StoreLocks}
use blobcache_v.S3Client.{S3Client}
use blobcache_v.Storage.{Item, Error, Storage, add}
use blobcache_v.Server.Hex.{Sha256, generate_fs_id, sha1_string_to_uint64, hash_of}
use blobcache_v.Server.Paths.{rooted, join_path}
use blobcache_v.Server.Nodes.{
  FileInfo, NodeError, linked, with_inode, store_node, store_parts, node_metadata, directory_node,
  path_parts, store_content_in_blobfs,
}
use blobcache_v.Server.{CacheService, Status, store, answer_add}
use blobcache_v.Server.Sources.{
  World, CacheSource, SourceError, Answered, with_client, cache_source_from_s3, read_source,
  add_nodes, node_result, store_read, store_content_from_source, Refreshes, LockResponse,
  lock_failed, refresh, release_lock, hold_lock, store_content_from_source_with_lock, client_key,
}

abbrev pub succeeded : {A : Type 0} → Result SourceError A → Bool
succeeded (ok a) = true
succeeded (err e) = false

module _ (N : Floats) (C : Coordinator N) (L : StoreLocks N C) (H : Sha256) (l p : Text) where
  abbrev is_held : C.State → Bool
  is_held s = L.held s l p

  abbrev Leaves : (C.State → Result NodeError (Unit {0}) × C.State) → Type 0
  Leaves next = (s : C.State) → is_held (next s).1 ≡ is_held s

  linked-held :
      (next : C.State → Result NodeError (Unit {0}) × C.State) (out : Returns C.State (Unit {0}))
      → Leaves next
      → is_held (linked N C H next out).1 ≡ is_held out.1
  linked-held next (ok u, s) h = h s
  linked-held next (err e, s) h = refl

  store_node-held :
      (parent : Text) (next : C.State → Result NodeError (Unit {0}) × C.State)
      (m : Result NodeError BlobFsMetadata)
      → Leaves next
      → Leaves (store_node N C H parent next m)
  unfolding store_node
  store_node-held parent next (err e) h s = refl
  store_node-held parent next (ok m) h s =
      linked-held (λ s'. linked N C H next (C.add_fs_node_child s' parent m.id))
        (C.set_fs_node s m.id m)
        (λ s'.
          linked-held next (C.add_fs_node_child s' parent m.id) h
          ∙ L.held-add_fs_node_child s' parent m.id l p)
      ∙ L.held-set_fs_node s m.id m l p

  with_inode-held :
      (next : ℕ → C.State → Result NodeError (Unit {0}) × C.State) (ino : Option ℕ)
      → ((i : ℕ) → Leaves (next i))
      → Leaves (with_inode N C H next ino)
  with_inode-held next none h s = refl
  with_inode-held next (some i) h s = h i s

  -- Storing nodes leaves the lock alone.
  store_parts-held :
      (path hash : Text) (size : ℕ) (stat : Result Text FileInfo) (clock : ℕ → ℕ × ℕ)
      (parts : List Text) (current parent : Text) (i : ℕ)
      → Leaves (store_parts N C H path hash size stat clock parts current parent i)
  unfolding store_parts
  store_parts-held path hash size stat clock [] current parent i s = refl
  store_parts-held path hash size stat clock (part ∷ parts) current parent i s =
      let current' = join_path current part in
      let id = generate_fs_id H current' in
      with_inode-held _ (sha1_string_to_uint64 id)
        (λ ino.
          store_node-held parent _
            (node_metadata N C H path hash size stat
              (directory_node parent id part current' ino (clock i)))
            (store_parts-held path hash size stat clock parts current' id (suc i)))
        s

  module _ (R : Ristretto Item) (F : Disk) where
    abbrev Service : Type 0
    Service = CacheService R F N C H

    -- What storing and reading leave of the service
    abbrev Unmoved : Service → Service → Type 0
    Unmoved cs cs' = (cs'.coordinator ≡ cs.coordinator) × (cs'.locality ≡ cs.locality)

    store-Unmoved : (cs : Service) (content : Bytes) → Unmoved cs (store R F N C H cs content).1
    unfolding store
    store-Unmoved cs content = go (add R F cs.cas (hash_of H content) content)
      where
        go :
            (out : Result Error (Unit {0}) × Storage R F)
            → Unmoved cs (answer_add R F N C H cs (hash_of H content) out).1
        go (ok u, cas) = (refl, refl)
        go (err e, cas) = (refl, refl)

    with_client-Unmoved :
        (w : World) (source : CacheSource) (cs : Service) (client : Result Text S3Client)
        → Unmoved cs (with_client R F N C H w source cs client).1
    with_client-Unmoved w source cs (ok client) = (refl, refl)
    with_client-Unmoved w source cs (err e) = (refl, refl)

    cache_source_from_s3-Unmoved :
        (w : World) (source : CacheSource) (cs : Service)
        → Unmoved cs (cache_source_from_s3 R F N C H w source cs).1
    unfolding cache_source_from_s3
    cache_source_from_s3-Unmoved w source cs =
        elim (Option-cases (lookup cs.s3_client_cache (client_key source))) [
          | inl e ↦ rw (e, cache_source_from_s3) (with_client-Unmoved w source cs _)
          | inr (client, e) ↦ rw (e, cache_source_from_s3) (refl, refl)
        ]

    read_source-Unmoved :
        (w : World) (source : CacheSource) (cs : Service)
        → Unmoved cs (read_source R F N C H w source cs).1
    unfolding read_source
    read_source-Unmoved w source cs = elim (Bool-cases (source.bucket_name == [])) [
      | inl e ↦ rw e (refl, refl)
      | inr e ↦ rw e (cache_source_from_s3-Unmoved w source cs)
    ]

    abbrev answered_well : Option SourceError → Bool
    answered_well none = true
    answered_well (some e) = false

    record After (read : Bool) (cs : Service) (out : Answered R F N C H) : Type 0 where
      held : is_held out.2.coordinator ≡ is_held cs.coordinator
      locality : out.2.locality ≡ cs.locality
      answer : answered_well out.1 ≡ read

    node_result-held :
        (hash : Text) (cs : Service) (out : Result NodeError (Unit {0}) × C.State)
        → is_held out.1 ≡ is_held cs.coordinator
        → (is_held (node_result R F N C H hash cs out).1.coordinator ≡ is_held cs.coordinator)
          × ((node_result R F N C H hash cs out).1.locality ≡ cs.locality)
    node_result-held hash cs (ok u, s) h = (h, refl)
    node_result-held hash cs (err e, s) h = (h, refl)

    add_nodes-held :
        (w : World) (source : CacheSource) (content : Bytes) (cs : Service)
        (out : Result Status Text × Service)
        → Unmoved cs out.1
        → (is_held (add_nodes R F N C H w source content out).1.coordinator
            ≡ is_held cs.coordinator)
          × ((add_nodes R F N C H w source content out).1.locality ≡ cs.locality)
    unfolding store_content_in_blobfs store_parts
    add_nodes-held w source content cs (err e, cs') u = (ap is_held u.0, u.1)
    add_nodes-held w source content cs (ok hash, cs') u =
        elim (Bool-cases (source.bucket_name == [])) [
          | inl e ↦
              let t = node_result-held hash cs' _ (
                store_parts-held (rooted (rooted source.path)) hash (length content)
                  (w.stat (rooted source.path)) w.clock (path_parts (rooted (rooted source.path)))
                  (codes "/") (generate_fs_id H (codes "/")) 0 cs'.coordinator) in
              rw e (t.0 ∙ ap is_held u.0, t.1 ∙ u.1)
          | inr e ↦ rw e (ap is_held u.0, u.1)
        ]

    store_read-After :
        (w : World) (source : CacheSource) (cs : Service) (out : Result SourceError Bytes × Service)
        → Unmoved cs out.1
        → After (succeeded out.0) cs (store_read R F N C H w source out)
    store_read-After w source cs (err e, cs') u = record {
      held = ap is_held u.0;
      locality = u.1;
      answer = refl;
    }
    store_read-After w source cs (ok content, cs') u =
        let s = store-Unmoved cs' content in
        let t = add_nodes-held w source content cs _ (s.0 ∙ u.0, s.1 ∙ u.1) in
        record { held = t.0; locality = t.1; answer = refl }

    refresh_at :
        (s : C.State) (k q : Text)
        → k ≡ l
        → q ≡ p
        → is_held (C.refresh_store_from_content_lock s k q).1 ≡ is_held s
    refresh_at s k q ek eq = rw (ek, eq) (L.held-refresh s l p)

    remove_at :
        (s : C.State) (k q : Text)
        → k ≡ l
        → q ≡ p
        → is_held (C.remove_store_from_content_lock s k q).1 ≡ false
    remove_at s k q ek eq = rw (ek, eq) (L.held-remove s l p)

    refresh-locality :
        (n : ℕ) (cs : Service) (source : CacheSource)
        → (refresh R F N C H n cs source).locality ≡ cs.locality
    refresh-locality zero cs source = refl
    refresh-locality (suc n) cs source = refresh-locality n cs source

    refresh-held :
        (n : ℕ) (cs : Service) (source : CacheSource)
        → cs.locality ≡ l
        → source.path ≡ p
        → is_held (refresh R F N C H n cs source).coordinator ≡ is_held cs.coordinator
    refresh-held zero cs source el ep = refl
    refresh-held (suc n) cs source el ep =
        refresh_at (refresh R F N C H n cs source).coordinator cs.locality source.path el ep
        ∙ refresh-held n cs source el ep

    record Released (read : Bool) (out : LockResponse × Service) : Type 0 where
      is_ok : out.0.is_ok ≡ read
      acquired : out.0.failed_to_acquire_lock ≡ false
      held : is_held out.1.coordinator ≡ not read

    release_lock-Released :
        (read : Bool) (times : Refreshes) (source : CacheSource) (cs : Service)
        (out : Answered R F N C H)
        → cs.locality ≡ l
        → source.path ≡ p
        → is_held cs.coordinator ≡ true
        → After read cs out
        → Released read (release_lock R F N C H times source out)
    release_lock-Released read times source cs (response, some e, cs') el ep h a = record {
      is_ok = a.answer;
      acquired = refl;
      held =
          refresh-held times.after cs' source (a.locality ∙ el) ep ∙ a.held ∙ h ∙ ap not a.answer;
    }
    release_lock-Released read times source cs (response, none, cs') el ep h a =
        let el' = a.locality ∙ el in
        let after = refresh R F N C H times.after cs' source in
        let removed = C.remove_store_from_content_lock after.coordinator cs'.locality source.path in
        record {
          is_ok = a.answer;
          acquired = refl;
          held =
              refresh-held times.late (record after { coordinator = removed.1 }) source
                (refresh-locality times.after cs' source ∙ el') ep
              ∙ remove_at after.coordinator cs'.locality source.path el' ep
              ∙ ap not a.answer;
        }

    read_source-same :
        (w : World) (source : CacheSource) (cs cs' : Service)
        → cs'.s3_client_cache ≡ cs.s3_client_cache
        → cs'.server_config ≡ cs.server_config
        → (read_source R F N C H w source cs').0 ≡ (read_source R F N C H w source cs).0
    unfolding read_source cache_source_from_s3
    read_source-same w source cs cs' ec es = elim (Bool-cases (source.bucket_name == [])) [
      | inl e ↦ rw e refl
      | inr e ↦ rw e (same_s3 (cs'.s3_client_cache) (cs'.server_config) ec es)
    ]
      where
        same_client :
            (cs₁ cs₂ : Service) (client : Result Text S3Client)
            → (with_client R F N C H w source cs₁ client).0
              ≡ (with_client R F N C H w source cs₂ client).0
        same_client cs₁ cs₂ (ok client) = refl
        same_client cs₁ cs₂ (err e) = refl

        same_s3 :
            (cache : Map Text S3Client) (config : BlobCacheServerConfig N)
            → cache ≡ cs.s3_client_cache
            → config ≡ cs.server_config
            → (cache_source_from_s3 R F N C H w source
                (record cs' { s3_client_cache = cache; server_config = config })).0
              ≡ (cache_source_from_s3 R F N C H w source cs).0
        same_s3 cache config ec es =
            elim (Option-cases (lookup cs.s3_client_cache (client_key source))) [
              | inl e ↦ rw (ec, e, cache_source_from_s3, es) (same_client _ _ _)
              | inr (client, e) ↦ rw (ec, e, cache_source_from_s3) refl
            ]

    refresh-cache :
        (n : ℕ) (cs : Service) (source : CacheSource)
        → ((refresh R F N C H n cs source).s3_client_cache ≡ cs.s3_client_cache)
          × ((refresh R F N C H n cs source).server_config ≡ cs.server_config)
    refresh-cache zero cs source = (refl, refl)
    refresh-cache (suc n) cs source = refresh-cache n cs source

    hold_lock-Released :
        (w : World) (times : Refreshes) (source : CacheSource) (cs : Service)
        (out : Returns C.State (Unit {0}))
        → cs.locality ≡ l
        → source.path ≡ p
        → out.0 ≡ ok tt
        → is_held out.1 ≡ true
        → Released
            (succeeded (read_source R F N C H w source cs).0)
            (hold_lock R F N C H w times source cs out)
    unfolding store_content_from_source
    hold_lock-Released w times source cs (err e, s) el ep good h = cc
    hold_lock-Released w times source cs (ok u, s) el ep good h =
        let cs₁ : Service = record cs { coordinator = s } in
        let cs₂ = refresh R F N C H times.early cs₁ source in
        let same = refresh-cache times.early cs₁ source in
        subst
          (λ b. Released b (
            release_lock R F N C H times source (store_content_from_source R F N C H w source cs₂)))
          (ap succeeded (read_source-same w source cs cs₂ same.0 same.1))
          (release_lock-Released _ times source cs₂
            (store_content_from_source R F N C H w source cs₂)
            (refresh-locality times.early cs₁ source ∙ el) ep
            (refresh-held times.early cs₁ source el ep ∙ h)
            (store_read-After w source cs₂ (read_source R F N C H w source cs₂)
              (read_source-Unmoved w source cs₂)))

module _ (N : Floats) (C : Coordinator N) (L : StoreLocks N C) (H : Sha256) (R : Ristretto Item)
    (F : Disk) (w : World) (times : Refreshes) (source : CacheSource)
    (cs : CacheService R F N C H) where
  -- On a coordinator that keeps its locks, and for any refreshes: if the lock on the source is held,
  -- `StoreContentFromSourceWithLock` answers that it failed to acquire the lock and changes nothing.
  -- If it is free, the answer is Ok exactly when the source could be read into the buffer, even where
  -- storing it failed, and the lock is released then, and stays held otherwise.
  pub store_content_from_source_with_lock_lem :
      let (response, cs') = store_content_from_source_with_lock R F N C H w times source cs in
      (L.held cs.coordinator cs.locality source.path ≡ true
        → (response.failed_to_acquire_lock ≡ true)
          × ((response.error_msg ≡ some (lock_failed L.refusal)) × (cs' ≡ cs)))
      × (L.held cs.coordinator cs.locality source.path ≡ false
          → (response.failed_to_acquire_lock ≡ false)
            × ((response.is_ok ≡ succeeded (read_source R F N C H w source cs).0)
                × (L.held cs'.coordinator cs.locality source.path ≡ not response.is_ok)))
  unfolding store_content_from_source_with_lock
  store_content_from_source_with_lock_lem = (
    λ taken. rw (L.set_refused cs.coordinator cs.locality source.path taken) (refl, (refl, refl)),
    λ free.
        let taken = L.set_taken cs.coordinator cs.locality source.path free in
        let r =
          hold_lock-Released N C L H cs.locality source.path R F w times source cs _ refl refl
            taken.0 taken.1 in
        (r.acquired, (r.is_ok, r.held ∙ ap not (sym r.is_ok))),
  )
