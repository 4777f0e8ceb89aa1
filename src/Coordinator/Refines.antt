-- ===== src/Coordinator/Refines.antt =====
-- A coordinator behind a server and its remote client, against the same coordinator called directly.
use blobcache_v.Base.{◌≡◌, refl, ap, List, [], ◌∷◌, map, Result, ok, err, ◌>>=◌, ℕ_eq}
use blobcache_v.Base.Int.{pos}
use blobcache_v.Base.Texts.{Text, codes, text_eq}
use blobcache_v.Types.{Floats, BlobFsMetadata, BlobCacheHost, to_proto, host_message, message_host}
use blobcache_v.Coordinator.{Coordinator, Returns}
use blobcache_v.Coordinator.Service.{
  CacheService, handle_add_host_to_index, handle_set_host_keep_alive, handle_set_client_lock,
  handle_remove_client_lock, handle_set_store_from_content_lock,
  handle_remove_store_from_content_lock, handle_refresh_store_from_content_lock,
  handle_remove_fs_node, handle_remove_fs_node_child, handle_add_fs_node_child, handle_set_fs_node,
  handle_get_available_hosts, handle_get_fs_node, handle_get_fs_node_children, metadata_of_request,
  acknowledge, with_coordinator, answer_hosts, answer_metadata, answer_children,
}
use blobcache_v.Coordinator.Remote.{
  answered, call, check, request_metadata, metadata_of_response, remote_add_host_to_index,
  remote_set_host_keep_alive, remote_set_client_lock, remote_remove_client_lock,
  remote_set_store_from_content_lock, remote_remove_store_from_content_lock,
  remote_refresh_store_from_content_lock, remote_remove_fs_node, remote_remove_fs_node_child,
  remote_add_fs_node_child, remote_set_fs_node, remote_get_available_hosts, remote_get_fs_node,
  remote_get_fs_node_children, metadata_of, children_of,
}

-- What passes through a message: the inode number is left out, and of a host its round-trip time and
-- its capacity.
abbrev pub without_ino : BlobFsMetadata → BlobFsMetadata
without_ino m = record m { ino = 0 }

abbrev pub relabelled : Text → Result Text (Unit {0}) → Result Text (Unit {0})
relabelled message (ok u) = ok u
relabelled message (err e) = err message

abbrev pub through {ℓ} : {A B : Type ℓ} → (A → B) → Text → Result Text A → Result Text B
through f message (ok a) = ok (f a)
through f message (err e) = err message

module _ (N : Floats) (C : Coordinator N) where
  abbrev pub without_load : BlobCacheHost N → BlobCacheHost N
  without_load h = record h { rtt = pos 0; capacity_usage_pct = N.zero }

  -- A failure to list the hosts becomes an empty list.
  abbrev pub listed : Result Text (List (BlobCacheHost N)) → Result Text (List (BlobCacheHost N))
  listed (ok hosts) = ok (map without_load hosts)
  listed (err e) = ok []

  -- What the remote client returns for what the coordinator returns.
  abbrev pub via :
      {A B : Type 0}
      → CacheService N C
      → (Result Text A → Result Text B)
      → Returns C.State A
      → Returns (CacheService N C) B
  via cs f (r, s) = (f r, record cs { coordinator = s })

  -- The remote client's operations, one by one, are the coordinator's.
  pub record Refines (cs : CacheService N C) : Type 0 where
    pub add_host_to_index :
        (locality : Text) (host : BlobCacheHost N)
        → remote_add_host_to_index N C answered cs locality host
          ≡ via cs
              (relabelled (codes "failed to add host to index"))
              (C.add_host_to_index cs.coordinator locality (without_load host))
    pub set_host_keep_alive :
        (locality : Text) (host : BlobCacheHost N)
        → remote_set_host_keep_alive N C answered cs locality host
          ≡ via cs
              (relabelled (codes "failed to set host keep alive"))
              (C.set_host_keep_alive cs.coordinator locality (without_load host))
    pub set_client_lock :
        (hash host_id : Text)
        → remote_set_client_lock N C answered cs hash host_id
          ≡ via cs
              (relabelled (codes "failed to set client lock"))
              (C.set_client_lock cs.coordinator hash host_id)
    pub remove_client_lock :
        (hash host_id : Text)
        → remote_remove_client_lock N C answered cs hash host_id
          ≡ via cs
              (relabelled (codes "failed to remove client lock"))
              (C.remove_client_lock cs.coordinator hash host_id)
    pub set_store_from_content_lock :
        (locality source_path : Text)
        → remote_set_store_from_content_lock N C answered cs locality source_path
          ≡ via cs
              (relabelled (codes "failed to set store from content lock"))
              (C.set_store_from_content_lock cs.coordinator locality source_path)
    pub remove_store_from_content_lock :
        (locality source_path : Text)
        → remote_remove_store_from_content_lock N C answered cs locality source_path
          ≡ via cs
              (relabelled (codes "failed to remove store from content lock"))
              (C.remove_store_from_content_lock cs.coordinator locality source_path)
    pub refresh_store_from_content_lock :
        (locality source_path : Text)
        → remote_refresh_store_from_content_lock N C answered cs locality source_path
          ≡ via cs
              (relabelled (codes "failed to refresh store from content lock"))
              (C.refresh_store_from_content_lock cs.coordinator locality source_path)
    pub remove_fs_node :
        (id : Text)
        → remote_remove_fs_node N C answered cs id
          ≡ via cs
              (relabelled (codes "failed to remove fs node"))
              (C.remove_fs_node cs.coordinator id)
    pub remove_fs_node_child :
        (pid id : Text)
        → remote_remove_fs_node_child N C answered cs pid id
          ≡ via cs
              (relabelled (codes "failed to remove fs node child"))
              (C.remove_fs_node_child cs.coordinator pid id)
    pub add_fs_node_child :
        (pid id : Text)
        → remote_add_fs_node_child N C answered cs pid id
          ≡ via cs
              (relabelled (codes "failed to add fs node child"))
              (C.add_fs_node_child cs.coordinator pid id)
    pub set_fs_node :
        (id : Text) (m : BlobFsMetadata)
        → remote_set_fs_node N C answered cs id m
          ≡ via cs
              (relabelled (codes "failed to set fs node"))
              (C.set_fs_node cs.coordinator id (without_ino m))
    pub get_available_hosts :
        (locality : Text)
        → remote_get_available_hosts N C answered cs locality
          ≡ via cs listed (C.get_available_hosts cs.coordinator locality)
    pub get_fs_node :
        (id : Text)
        → remote_get_fs_node N C answered cs id
          ≡ via cs
              (through without_ino (codes "failed to get fs node"))
              (C.get_fs_node cs.coordinator id)
    pub get_fs_node_children :
        (id : Text)
        → remote_get_fs_node_children N C answered cs id
          ≡ via cs
              (through (map without_ino) (codes "failed to get fs node children"))
              (C.get_fs_node_children cs.coordinator id)

  map_through :
      (hosts : List (BlobCacheHost N))
      → map (message_host N) (map (host_message N) hosts) ≡ map without_load hosts
  unfolding message_host host_message
  map_through [] = refl
  map_through (h ∷ hs) = ap (◌∷◌ (without_load h)) (map_through hs)

  map_children :
      (ms : List BlobFsMetadata) → map metadata_of_response (map to_proto ms) ≡ map without_ino ms
  unfolding metadata_of_response to_proto
  map_children [] = refl
  map_children (m ∷ ms) = ap (◌∷◌ (without_ino m)) (map_children ms)

  module _ (cs : CacheService N C) where
    acknowledge-via :
        (message : Text) (r : Returns C.State (Unit {0}))
        → check message (call answered (λ s. with_coordinator N C s (acknowledge r)) cs)
          ≡ via cs (relabelled message) r
    acknowledge-via message (ok u, s) = refl
    acknowledge-via message (err e, s) = refl

    pub acknowledge-state :
        (r : Returns C.State (Unit {0}))
        → (with_coordinator N C cs (acknowledge r)).1 ≡ record cs { coordinator = r.1 }
    acknowledge-state (ok u, s) = refl
    acknowledge-state (err e, s) = refl

    hosts-via :
        (r : Returns C.State (List (BlobCacheHost N)))
        → (let (response, cs') =
              call answered (λ s. with_coordinator N C s (answer_hosts N C r)) cs in
            (response >>= λ x. ok (map (message_host N) x.value), cs'))
          ≡ via cs listed r
    hosts-via (ok hosts, s) = rw (map_through hosts) refl
    hosts-via (err e, s) = refl

    metadata-via :
        (r : Returns C.State BlobFsMetadata)
        → (let (response, cs') =
              call answered (λ s. with_coordinator N C s (answer_metadata N C r)) cs in
            (response >>= metadata_of N C answered, cs'))
          ≡ via cs (through without_ino (codes "failed to get fs node")) r
    unfolding metadata_of metadata_of_response to_proto
    metadata-via (ok m, s) = refl
    metadata-via (err e, s) = refl

    children-via :
        (r : Returns C.State (List BlobFsMetadata))
        → (let (response, cs') =
              call answered (λ s. with_coordinator N C s (answer_children N C r)) cs in
            (response >>= children_of N C answered, cs'))
          ≡ via cs (through (map without_ino) (codes "failed to get fs node children")) r
    unfolding children_of
    children-via (ok ms, s) = rw (map_children ms) refl
    children-via (err e, s) = refl

  -- Over a transport that answers, each operation of the remote client but `GetRegionConfig` does
  -- to the server's coordinator what the same operation called directly does, and returns the
  -- same, with four differences: an error has the remote client's own message; the inode number of
  -- metadata is 0, on the way in and on the way out; a host loses its round-trip time and its
  -- capacity, likewise; and where the coordinator fails to list the hosts, the client returns an
  -- empty list.
  pub remote-Refines : (cs : CacheService N C) → Refines cs
  unfolding message_host host_message request_metadata metadata_of_request remote_add_host_to_index
      handle_add_host_to_index remote_set_host_keep_alive handle_set_host_keep_alive
      remote_set_client_lock handle_set_client_lock remote_remove_client_lock
      handle_remove_client_lock remote_set_store_from_content_lock
      handle_set_store_from_content_lock remote_remove_store_from_content_lock
      handle_remove_store_from_content_lock remote_refresh_store_from_content_lock
      handle_refresh_store_from_content_lock remote_remove_fs_node handle_remove_fs_node
      remote_remove_fs_node_child handle_remove_fs_node_child remote_add_fs_node_child
      handle_add_fs_node_child remote_set_fs_node handle_set_fs_node remote_get_available_hosts
      handle_get_available_hosts remote_get_fs_node handle_get_fs_node remote_get_fs_node_children
      handle_get_fs_node_children
  remote-Refines cs = record {
    add_host_to_index = λ locality host.
        acknowledge-via cs _ (C.add_host_to_index cs.coordinator locality (without_load host));
    set_host_keep_alive = λ locality host.
        acknowledge-via cs _ (C.set_host_keep_alive cs.coordinator locality (without_load host));
    set_client_lock = λ a b. acknowledge-via cs _ (C.set_client_lock cs.coordinator a b);
    remove_client_lock = λ a b. acknowledge-via cs _ (C.remove_client_lock cs.coordinator a b);
    set_store_from_content_lock =
        λ a b. acknowledge-via cs _ (C.set_store_from_content_lock cs.coordinator a b);
    remove_store_from_content_lock =
        λ a b. acknowledge-via cs _ (C.remove_store_from_content_lock cs.coordinator a b);
    refresh_store_from_content_lock =
        λ a b. acknowledge-via cs _ (C.refresh_store_from_content_lock cs.coordinator a b);
    remove_fs_node = λ a. acknowledge-via cs _ (C.remove_fs_node cs.coordinator a);
    remove_fs_node_child = λ a b. acknowledge-via cs _ (C.remove_fs_node_child cs.coordinator a b);
    add_fs_node_child = λ a b. acknowledge-via cs _ (C.add_fs_node_child cs.coordinator a b);
    set_fs_node = λ id m. acknowledge-via cs _ (C.set_fs_node cs.coordinator id (without_ino m));
    get_available_hosts = λ locality. hosts-via cs (C.get_available_hosts cs.coordinator locality);
    get_fs_node = λ id. metadata-via cs (C.get_fs_node cs.coordinator id);
    get_fs_node_children = λ id. children-via cs (C.get_fs_node_children cs.coordinator id);
  }
