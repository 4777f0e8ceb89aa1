-- ===== src/Metadata.antt =====
-- pkg/metadata.go, and the locks and conversions of pkg/redis.go: the metadata engine over Redis. Redis
-- and the library of its locks are a parameter; an operation takes its state and returns it anew.
pub mod Fields
pub mod Nodes
pub mod Locks
pub mod Local
pub mod Plain
mod Tests
use blobcache_v.Base.{
  ℕ, zero, suc, ◌+◌, ◌-◌, ◌*◌, ◌/◌, ◌%◌, ◌^◌, ◌≤◌, ◌<◌, ◌≡◌, ◌≢◌, refl, ap, subst, ◌∙◌, sym, ◌⊎◌,
  inl, inr, ◌↔◌, Bool, true, false, not, ◌&&◌, ◌||◌, Option, none, some, List, [], ◌∷◌, ◌++◌, map,
  append_assoc, append-nil, arith, Bool-cases, Option-cases, length, take, drop, slice, get_elem?,
  replicate, Result, ok, err, ◌>>=◌, ◌==◌, Eq, ℕ_eq, ltb, leb, eqb, if◌then◌else◌, lt→ltb, ltb→lt,
  leb→le, eqb_iff, All, All-append, length-append, length-take, length-drop, length-replicate,
  take-append-drop, take_of_length-le, drop_of_length-le, drop-drop, take-append-take, take-take,
  drop-take, take-append_left, drop-append_left, String,
}
use blobcache_v.Base.Int.{ℤ}
use blobcache_v.Base.Texts.{Text, codes, text_eq}
use blobcache_v.Base.Maps.{Map, lookup, insert, delete}
use blobcache_v.Types.{Floats, BlobFsMetadata, BlobCacheHost}
use Fields.{to_slice, to_struct}

pub data RedisError : Type 0 where
  nil : RedisError
  failed : Text → RedisError

abbrev pub message : RedisError → Text
message nil = codes "redis: nil"
message (failed e) = e

-- What the library of locks answers to an attempt at a lock.
pub data Obtained (T : Type 0) : Type 0 where
  obtained : T → Obtained T
  not_obtained : Obtained T
  obtain_failed : Text → Obtained T

abbrev pub Answers : Type 0 → Type 0 → Type 0
Answers S A = Result RedisError A × S

-- `fields` are the fields of a hash and `owner` is the token of a lock that has not expired; they are
-- used by the laws, and no operation of the program reads them.
pub record Redis : Type 1 where
  pub State : Type 0
  pub Token : Type 0
  pub fields : State → Text → Map Text Text
  pub owner : State → Text → Option Token
  pub hget_all : State → Text → Answers State (Map Text Text)
  pub hset : State → Text → List (Text × Text) → Answers State (Unit {0})
  pub del : State → Text → Answers State (Unit {0})
  pub smembers : State → Text → Answers State (List Text)
  pub sadd : State → Text → Text → Answers State (Unit {0})
  pub srem : State → Text → Text → Answers State (Unit {0})
  pub get : State → Text → Answers State Text
  pub set : State → Text → Text → ℕ → Answers State (Unit {0})
  pub obtain : State → Text → ℕ → Obtained Token × State
  pub release : State → Token → Answers State (Unit {0})
  pub refresh : State → Token → ℕ → Answers State (Unit {0})
  -- `HGETALL` changes nothing, and returns the fields if it succeeds, those of no hash for no key.
  pub hget_all-state : (s : State) (k : Text) → (hget_all s k).1 ≡ s
  pub hget_all-fields :
      (s : State) (k : Text) (m : Map Text Text)
      → (hget_all s k).0 ≡ ok m
      → (f : Text) → lookup m f ≡ lookup (fields s k) f
  -- A `HSET` that succeeds sets its fields, the first of a name in the list if there are several, and
  -- keeps the others.
  pub fields-hset :
      (s : State) (k : Text) (l : List (Text × Text))
      → (hset s k l).0 ≡ ok tt
      → (f : Text)
      → lookup (fields (hset s k l).1 k) f
        ≡ elim (lookup l f) [ none ↦ lookup (fields s k) f | some v ↦ some v ]
  -- A lock that has an owner is not obtained, and keeps it; a lock that is obtained has this owner.
  pub obtain_owned :
      (s : State) (k : Text) (ttl : ℕ) (t u : Token)
      → owner s k ≡ some t
      → (obtain s k ttl).0 ≢ obtained u
  pub owner-obtain_owned :
      (s : State) (k : Text) (ttl : ℕ) (t : Token)
      → owner s k ≡ some t
      → owner (obtain s k ttl).1 k ≡ some t
  pub owner-obtain :
      (s : State) (k : Text) (ttl : ℕ) (t : Token)
      → (obtain s k ttl).0 ≡ obtained t
      → owner (obtain s k ttl).1 k ≡ some t
  -- A release by the owner that succeeds frees the lock.
  pub owner-release :
      (s : State) (k : Text) (t : Token)
      → owner s k ≡ some t
      → (release s t).0 ≡ ok tt
      → owner (release s t).1 k ≡ none

-- The keys of pkg/metadata.go
unfoldable pub host_index_key : Text → Text
host_index_key locality = codes "blobcache:host_index:" ++ locality

-- The format has one verb for two arguments, and `fmt` reports the second behind it.
unfoldable pub keepalive_key : Text → Text → Text
keepalive_key locality host_id =
    codes "blobcache:host:keepalive:"
    ++ (locality ++ (codes "%!(EXTRA string=" ++ (host_id ++ codes ")")))

unfoldable pub fs_node_key : Text → Text
fs_node_key id = codes "blobcache:fs:node:" ++ id

unfoldable pub fs_node_children_key : Text → Text
fs_node_children_key id = codes "blobcache:fs:node:" ++ (id ++ codes ":children")

unfoldable pub client_lock_key : Text → Text → Text
client_lock_key client_id hash = codes "blobcache:client_lock:" ++ (client_id ++ b':' ∷ hash)

-- `strings.ReplaceAll(t, "/", "_")`
unfoldable pub underscored : Text → Text
underscored [] = []
underscored (c ∷ cs) = (if eqb c b'/' then b'_' else c) ∷ underscored cs

unfoldable pub store_lock_key : Text → Text → Text
store_lock_key locality source_path =
    codes "blobcache:store_from_content_lock:" ++ (locality ++ b':' ∷ underscored source_path)

abbrev pub store_from_content_lock_ttl_s : ℕ
store_from_content_lock_ttl_s = 5

abbrev pub client_lock_ttl_s : ℕ
client_lock_ttl_s = 300

abbrev pub host_keep_alive_timeout_s : ℕ
host_keep_alive_timeout_s = 60

-- The fields of a node that is there, or what `len(res) == 0` leads to
abbrev pub node_of : Text → Map Text Text → Result Text BlobFsMetadata
node_of id [] = err (codes "blobfs node not found: " ++ id)
node_of id (f ∷ fs) = ok (to_struct (f ∷ fs))

-- The generation after that of the node that is there
abbrev pub next_generation : Map Text Text → BlobFsMetadata → BlobFsMetadata
next_generation [] metadata = metadata
next_generation (f ∷ fs) metadata = record metadata {
  gen = ((to_struct (f ∷ fs)).gen + 1) % 2 ^ 64;
}

abbrev pub not_held : Text
not_held = codes "redislock: lock not held"

module _ (R : Redis) where
  -- `RedisLock.locks` beside the state of Redis, and so `BlobCacheMetadata` of one process
  pub record Engine : Type 0 where
    pub rdb : R.State
    pub locks : Map Text R.Token

  abbrev pub Does : Type 0 → Type 0
  Does A = Result Text A × Engine

  abbrev pub after : {A : Type 0} → Engine → Answers R.State A → Does A
  after m (ok a, s) = (ok a, record m { rdb = s })
  after m (err e, s) = (err (message e), record m { rdb = s })

  abbrev pub keep_lock : Engine → Text → Obtained R.Token × R.State → Does (Unit {0})
  keep_lock m key (obtained t, s) = (ok tt, record m { rdb = s; locks = insert m.locks key t })
  keep_lock m key (not_obtained, s) = (err (codes "redislock: not obtained"), record m { rdb = s })
  keep_lock m key (obtain_failed e, s) = (err e, record m { rdb = s })

  -- `RedisLock.Acquire` without retries
  unfoldable pub acquire : Engine → Text → ℕ → Does (Unit {0})
  acquire m key ttl = keep_lock m key (R.obtain m.rdb key ttl)

  -- The error of the library's release is ignored.
  abbrev pub release_token : Engine → Text → Option R.Token → Does (Unit {0})
  release_token m key none = (err not_held, m)
  release_token m key (some t) =
      (ok tt, record m { rdb = (R.release m.rdb t).1; locks = delete m.locks key })

  unfoldable pub release : Engine → Text → Does (Unit {0})
  release m key = release_token m key (lookup m.locks key)

  abbrev pub refresh_token : Engine → ℕ → Option R.Token → Does (Unit {0})
  refresh_token m ttl none = (err not_held, m)
  refresh_token m ttl (some t) = after m (R.refresh m.rdb t ttl)

  unfoldable pub refresh : Engine → Text → ℕ → Does (Unit {0})
  refresh m key ttl = refresh_token m ttl (lookup m.locks key)

  pub set_client_lock : Engine → Text → Text → Does (Unit {0})
  set_client_lock m client_id hash = acquire m (client_lock_key client_id hash) client_lock_ttl_s

  pub remove_client_lock : Engine → Text → Text → Does (Unit {0})
  remove_client_lock m client_id hash = release m (client_lock_key client_id hash)

  pub set_store_from_content_lock : Engine → Text → Text → Does (Unit {0})
  set_store_from_content_lock m locality source_path =
      acquire m (store_lock_key locality source_path) store_from_content_lock_ttl_s

  pub refresh_store_from_content_lock : Engine → Text → Text → Does (Unit {0})
  refresh_store_from_content_lock m locality source_path =
      refresh m (store_lock_key locality source_path) store_from_content_lock_ttl_s

  pub remove_store_from_content_lock : Engine → Text → Text → Does (Unit {0})
  remove_store_from_content_lock m locality source_path =
      release m (store_lock_key locality source_path)

  abbrev pub found_node : Engine → Text → Answers R.State (Map Text Text) → Does BlobFsMetadata
  found_node m id (ok fs, s) = (node_of id fs, record m { rdb = s })
  found_node m id (err nil, s) = (node_of id [], record m { rdb = s })
  found_node m id (err (failed e), s) = (err e, record m { rdb = s })

  unfoldable pub get_fs_node : Engine → Text → Does BlobFsMetadata
  get_fs_node m id = found_node m id (R.hget_all m.rdb (fs_node_key id))

  abbrev pub written_node : Engine → Text → Answers R.State (Unit {0}) → Does (Unit {0})
  written_node m key (ok u, s) = (ok tt, record m { rdb = s })
  written_node m key (err e, s) = (
    err (codes "failed to set blobfs node metadata <" ++ (key ++ (codes ">: " ++ message e))),
    record m { rdb = s },
  )

  abbrev pub write_node : Engine → Text → R.State → BlobFsMetadata → Does (Unit {0})
  write_node m key s metadata = written_node m key (R.hset s key (to_slice metadata))

  abbrev pub replace_node :
      Engine → Text → BlobFsMetadata → Answers R.State (Map Text Text) → Does (Unit {0})
  replace_node m key metadata (ok fs, s) = write_node m key s (next_generation fs metadata)
  replace_node m key metadata (err nil, s) = write_node m key s metadata
  replace_node m key metadata (err (failed e), s) = (err e, record m { rdb = s })

  unfoldable pub set_fs_node : Engine → Text → BlobFsMetadata → Does (Unit {0})
  set_fs_node m id metadata =
      replace_node m (fs_node_key id) metadata (R.hget_all m.rdb (fs_node_key id))

  pub remove_fs_node : Engine → Text → Does (Unit {0})
  remove_fs_node m id = after m (R.del m.rdb (fs_node_key id))

  pub add_fs_node_child : Engine → Text → Text → Does (Unit {0})
  add_fs_node_child m pid id = after m (R.sadd m.rdb (fs_node_children_key pid) id)

  pub remove_fs_node_child : Engine → Text → Text → Does (Unit {0})
  remove_fs_node_child m pid id = after m (R.srem m.rdb (fs_node_children_key pid) id)

  abbrev pub with_node :
      Does BlobFsMetadata → (Engine → List BlobFsMetadata × Engine) → List BlobFsMetadata × Engine
  with_node (err e, m) rest = rest m
  with_node (ok node, m) rest = let (nodes, m') = rest m in (node ∷ nodes, m')

  -- The loop of `GetFsNodeChildren`
  unfoldable pub get_nodes : List Text → Engine → List BlobFsMetadata × Engine
  get_nodes [] m = ([], m)
  get_nodes (id ∷ ids) m = with_node (get_fs_node m id) (get_nodes ids)

  abbrev pub children_of : Engine → Answers R.State (List Text) → Does (List BlobFsMetadata)
  children_of m (err e, s) = (err (message e), record m { rdb = s })
  children_of m (ok ids, s) =
      let (nodes, m') = get_nodes ids (record m { rdb = s }) in (ok nodes, m')

  unfoldable pub get_fs_node_children : Engine → Text → Does (List BlobFsMetadata)
  get_fs_node_children m id = children_of m (R.smembers m.rdb (fs_node_children_key id))

  -- The hosts; `encode` is `json.Marshal` of a host, and `decode` is `json.Unmarshal`.
  module _ (N : Floats) (encode : BlobCacheHost N → Result Text Text)
      (decode : Text → Option (BlobCacheHost N)) where
    unfoldable pub remove_host_from_index : Engine → Text → Text → Engine
    remove_host_from_index m locality host_id = record m {
      rdb = (R.srem m.rdb (host_index_key locality) host_id).1;
    }

    pub add_host_to_index : Engine → Text → BlobCacheHost N → Does (Unit {0})
    add_host_to_index m locality host =
        after m (R.sadd m.rdb (host_index_key locality) host.host_id)

    abbrev pub keep_alive : Engine → Text → Result Text Text → Does (Unit {0})
    keep_alive m key (err e) = (err e, m)
    keep_alive m key (ok bytes) = after m (R.set m.rdb key bytes host_keep_alive_timeout_s)

    pub set_host_keep_alive : Engine → Text → BlobCacheHost N → Does (Unit {0})
    set_host_keep_alive m locality host =
        keep_alive m (keepalive_key locality host.host_id) (encode host)

    abbrev pub cons_host :
        Option (BlobCacheHost N) → List (BlobCacheHost N) × Engine → List (BlobCacheHost N) × Engine
    cons_host none rest = rest
    cons_host (some host) (hosts, m) = (host ∷ hosts, m)

    -- A round of the loop: `removed` is the callback.
    abbrev pub alive_host :
        (Engine → Text → Engine)
        → (Engine → List (BlobCacheHost N) × Engine)
        → Engine
        → Text
        → Text
        → Answers R.State Text
        → List (BlobCacheHost N) × Engine
    alive_host removed next m locality host_id (ok bytes, s) =
        cons_host (decode bytes) (next (record m { rdb = s }))
    alive_host removed next m locality host_id (err nil, s) =
        next (removed (remove_host_from_index (record m { rdb = s }) locality host_id) host_id)
    alive_host removed next m locality host_id (err (failed e), s) = next (record m { rdb = s })

    unfoldable pub alive_hosts :
        (Engine → Text → Engine) → Text → List Text → Engine → List (BlobCacheHost N) × Engine
    alive_hosts removed locality [] m = ([], m)
    alive_hosts removed locality (id ∷ ids) m =
        alive_host removed (alive_hosts removed locality ids) m locality id
          (R.get m.rdb (keepalive_key locality id))

    abbrev pub some_hosts : List (BlobCacheHost N) × Engine → Does (List (BlobCacheHost N))
    some_hosts ([], m) = (err (codes "no available hosts"), m)
    some_hosts (h ∷ hs, m) = (ok (h ∷ hs), m)

    abbrev pub indexed_hosts :
        (Engine → Text → Engine)
        → Engine
        → Text
        → Answers R.State (List Text)
        → Does (List (BlobCacheHost N))
    indexed_hosts removed m locality (err e, s) = (err (message e), record m { rdb = s })
    indexed_hosts removed m locality (ok ids, s) =
        some_hosts (alive_hosts removed locality ids (record m { rdb = s }))

    unfoldable pub get_available_hosts :
        (Engine → Text → Engine) → Engine → Text → Does (List (BlobCacheHost N))
    get_available_hosts removed m locality =
        indexed_hosts removed m locality (R.smembers m.rdb (host_index_key locality))
