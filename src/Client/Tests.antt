-- ===== src/Client/Tests.antt =====
-- A client of pkg/client.go with two hosts and connections 0 and 1, and a hasher that gives every
-- key the same order.
use blobcache_v.Base.{
  ℕ, zero, suc, ◌≡◌, ◌≢◌, refl, ◌⊎◌, Bool, true, false, Option, none, some, List, [], ◌∷◌, ◌++◌,
  arith, slice, Result, ok, err, ℕ_eq, if◌then◌else◌,
}
use blobcache_v.Base.Int.{ℤ, pos}
use blobcache_v.Base.Texts.{Text, codes, list_beq, text_eq}
use blobcache_v.Base.Maps.{lookup, delete, insert}
use blobcache_v.Backends.{Bytes}
use blobcache_v.Backends.Plain.{forgetful, plain_disk}
use blobcache_v.Types.{BlobCacheHost}
use blobcache_v.Types.Plain.{whole}
use blobcache_v.HostMap.{remove}
use blobcache_v.Client.Routes.{route, ask_in_order, get_content_lem}
use blobcache_v.Client.Replies.{whole_stream, broken_stream, get_content_stream_resent}
use blobcache_v.Client.Nearby.{is_cached_nearby}
use blobcache_v.Client.Nearby.Settled.{
  Settled, one_reply, get_grpc_client_again, is_cached_nearby_lem,
}
use blobcache_v.Client.Hosts.{monitor_tick, sweep}
use blobcache_v.Client.Hosts.Monitor.{monitor_tick_lem}
use blobcache_v.Client.Hosts.Sweep.{sweep_lem}
use blobcache_v.Client.Stores.{store_request}
use blobcache_v.Client.Stores.Routing.{get_grpc_client_agrees}
use blobcache_v.Coordinator.Mock.{mock_coordinator}
use blobcache_v.Coordinator.Mock.Locks.{mock_store_locks}
use blobcache_v.Coordinator.StoreLocks.{StoreLocks}
use blobcache_v.S3Client.{refused}
use blobcache_v.Storage.Reads.{available}
use blobcache_v.Server.Example.{
  toy, hash, content, hash-IsHash, empty_store, stored, stored-Holds, stored_page, service,
  service_cas,
}
use blobcache_v.Server.Sources.{World, Refreshes, missing, read_source}
use blobcache_v.Server.Sources.Locked.{succeeded}
use blobcache_v.Server.{CacheService}
use blobcache_v.Client.Served.{ask_server, get_content_served}
use blobcache_v.Client.Stores.{SourceReplies, file_source, store_content_from_fuse}
use blobcache_v.Client.Stores.Sources.{by_lock, store_content_from_fuse_locked}
use blobcache_v.Client.{
  content_not_found, host_not_found, unable_to_acquire_lock, unable_to_populate_content,
  RendezvousHasher, ContentReply, unreachable, served, StreamReply, BlobCacheClient,
  get_grpc_client, retrieve, max_attempts, get_content, get_content_stream,
}

abbrev first : BlobCacheHost whole
first = record {
  rtt = pos 1;
  host_id = codes "one";
  addr = codes "1.1.1.1:2049";
  private_addr = [];
  capacity_usage_pct = 0;
}

abbrev second : BlobCacheHost whole
second = record first { host_id = codes "two"; addr = codes "2.2.2.2:2049" }

abbrev in_order : RendezvousHasher whole
in_order = record {
  State = List (BlobCacheHost whole);
  add = λ hosts host. hosts ++ host ∷ [];
  remove = λ hosts host. hosts;
  get_n = λ hosts n key. hosts;
}

abbrev client : BlobCacheClient whole in_order ℕ
client = record {
  grpc_clients = (codes "one", 0) ∷ (codes "two", 1) ∷ [];
  local_host_cache = (codes "old", record { host = second; timestamp = 5 }) ∷ [];
  hasher = first ∷ second ∷ [];
  hosts = (codes "one", first) ∷ (codes "two", second) ∷ [];
  n_top_hosts = pos 2;
  min_retry_length_bytes = pos 0;
  max_get_content_attempts = 3;
}

-- The first host is down.
abbrev ask : ℕ → ℕ → ContentReply
ask i zero = unreachable
ask i (suc k) = served (codes "hello")

get_content_lem_example :
    (get_content whole in_order ℕ client (codes "ab12") (pos 5) [] ask (λ i c. c) (λ i. i)).0
    ≡ ask_in_order whole in_order ℕ
        (max_attempts whole in_order ℕ client (pos 5))
        (route whole in_order ℕ client (codes "ab12") (codes "ab12"))
        ask
        0
unfolding list_beq
get_content_lem_example =
    get_content_lem whole in_order ℕ client (codes "ab12") [] (pos 5) ask (λ i. i)

-- The second host serves it, at the second attempt.
served_second :
    ask_in_order whole in_order ℕ 3
      (route whole in_order ℕ client (codes "ab12") (codes "ab12"))
      ask
      0
    ≡ ok (codes "hello")
unfolding ask_in_order route lookup list_beq
served_second = refl

abbrev half : List Bytes
half = codes "hel" ∷ []

abbrev all : List Bytes
all = codes "hel" ∷ codes "lo" ∷ []

abbrev opens : ℕ → ℕ → Text → ℤ → ℤ → Option StreamReply
opens zero k h offset length = some (broken_stream whole in_order ℕ half)
opens (suc i) k h offset length = some (whole_stream whole in_order ℕ all)

get_content_stream_resent_example :
    (get_content_stream whole in_order ℕ client
      (codes "ab12")
      (pos 0)
      (pos 5)
      []
      opens
      (λ i c. c)
      (λ i. i)).0
    ≡ half ++ all
unfolding get_grpc_client lookup list_beq max_attempts insert delete
get_content_stream_resent_example =
    get_content_stream_resent whole in_order ℕ client _ _ (codes "ab12") [] (pos 0) (pos 5) opens
      (λ i c. c) (λ i. i) 0 1 first second half all (omega arith) refl refl refl refl

get_grpc_client_again_example :
    let c' =
      (get_grpc_client whole in_order ℕ client
        (retrieve whole in_order ℕ (codes "ab12") (codes "k") 0)
        7).1 in
    get_grpc_client whole in_order ℕ c' (retrieve whole in_order ℕ (codes "ab12") (codes "j") 1) 9
    ≡ (some (0, first), c')
unfolding get_grpc_client lookup list_beq
get_grpc_client_again_example =
    get_grpc_client_again whole in_order ℕ (codes "ab12") 0 first client (codes "k") 0 7 refl
      (codes "j") 1 9

-- Only the second host has the content.
abbrev has : ℕ → Result Text Bool
has zero = ok false
has (suc k) = ok true

is_cached_nearby_lem_example :
    (is_cached_nearby whole in_order ℕ client
      (codes "ab12")
      (codes "k")
      (λ j. has)
      (λ j c. c)
      (λ i. i)).0
    ≡ one_reply whole in_order ℕ
        (codes "ab12")
        has
        (get_grpc_client whole in_order ℕ client
          (retrieve whole in_order ℕ (codes "ab12") (codes "k") 0)
          0).0
is_cached_nearby_lem_example =
    is_cached_nearby_lem whole in_order ℕ (codes "ab12") has (λ i. i) client (codes "k")

-- A host that cannot be reached
abbrev down : ℕ → Result Text Text
down k = err (codes "unavailable")

monitor_tick_lem_example :
    let (goes_on, c') = monitor_tick whole in_order ℕ client first (codes "v1") down (λ x. x) in
    (goes_on ≡ false)
    × ((c'.hasher ≡ first ∷ second ∷ [])
        × ((c'.hosts ≡ remove whole client.hosts first)
            × (first.addr ≢ first.host_id
                → (lookup c'.grpc_clients first.host_id ≡ lookup client.grpc_clients first.host_id)
                  × ((hash key : Text) (k : ℕ) (i t : ℕ)
                      → Settled whole in_order ℕ hash k first client
                      → get_grpc_client whole in_order ℕ c' (retrieve whole in_order ℕ hash key i) t
                        ≡ (some (k, first), c')))))
unfolding lookup list_beq
monitor_tick_lem_example = monitor_tick_lem whole in_order ℕ client first (codes "v1") down tt

sweep_lem_example :
    lookup (sweep whole in_order ℕ 20 10 (λ x. x) client).local_host_cache (codes "old") ≡ none
unfolding lookup list_beq
sweep_lem_example =
    ((sweep_lem whole in_order ℕ 20 10 (λ x. x) client (codes "old")).1
        (record { host = second; timestamp = 5 }) refl).0
      (omega arith)

get_grpc_client_agrees_example :
    (get_grpc_client whole in_order ℕ client
      (store_request whole in_order ℕ (codes "cd") (codes "/f"))
      3).0
    ≡ (get_grpc_client whole in_order ℕ client
        (retrieve whole in_order ℕ (codes "ab12") (codes "/f") 0)
        4).0
unfolding lookup list_beq
get_grpc_client_agrees_example =
    get_grpc_client_agrees whole in_order ℕ client (codes "cd") (codes "ab12") (codes "/f") 3 4 refl

-- Both connections lead to a server that holds the object.
abbrev server : ℕ → ℕ → CacheService forgetful plain_disk whole (mock_coordinator whole) toy
server i k = service stored

get_content_served_example :
    let result =
      (get_content whole in_order ℕ client hash
        (pos 6)
        []
        (ask_server forgetful plain_disk whole
          (mock_coordinator whole)
          toy
          in_order
          ℕ
          hash
          content
          hash-IsHash
          3
          6
          (omega arith)
          server
          (λ i. i))
        (λ i c. c)
        (λ i. i)).0 in
    (result ≡ ok (slice 3 (available content 3 6) content))
    ⊎ ((result ≡ err content_not_found) ⊎ (result ≡ err host_not_found))
get_content_served_example =
    get_content_served forgetful plain_disk whole (mock_coordinator whole) toy in_order ℕ hash
      content hash-IsHash 3 6 (omega arith) server (λ i. i) client [] (λ i c. c) (λ i. i)
      (λ i k. rw (service_cas stored) stored-Holds)
      (λ i k. rw (service_cas stored, stored_page) (omega arith))

abbrev no_file : World
no_file = record {
  local = λ path. missing (codes "no such file");
  stat = λ path. err (codes "no such file");
  load_config = λ source. ok tt;
  object = λ source key. record {
    head = err (codes "no such object");
    get_object = λ start end. refused (codes "no such object");
    arrivals = [];
  };
  clock = λ i. (i, 0);
}

abbrev times : Refreshes
times = record { early = 1; after = 0; late = 1 }

abbrev locks : StoreLocks whole (mock_coordinator whole)
locks = mock_store_locks whole

abbrev replies : SourceReplies whole in_order ℕ
replies = record {
  plain = λ k source. err (codes "unimplemented");
  locked = λ k source.
      ok
        (by_lock forgetful plain_disk whole (mock_coordinator whole) toy no_file times
          (service empty_store) source).0;
}

store_content_from_fuse_locked_example :
    let cs = service empty_store in
    let result =
      (store_content_from_fuse whole in_order ℕ client (codes "/f") [] true replies 3).0 in
    (locks.held cs.coordinator cs.locality (codes "/f") ≡ true
      → result ≡ err unable_to_acquire_lock)
    × (locks.held cs.coordinator cs.locality (codes "/f") ≡ false
        → result ≡ (
            if succeeded
              (read_source forgetful plain_disk whole
                (mock_coordinator whole)
                toy
                no_file
                (file_source (codes "/f"))
                cs).0
            then ok
                (by_lock forgetful plain_disk whole
                  (mock_coordinator whole)
                  toy
                  no_file
                  times
                  cs
                  (file_source (codes "/f"))).0.hash
            else err unable_to_populate_content))
unfolding get_grpc_client lookup list_beq
store_content_from_fuse_locked_example =
    store_content_from_fuse_locked forgetful plain_disk whole (mock_coordinator whole) locks toy
      in_order ℕ no_file times (service empty_store) replies client client (codes "/f") [] 3 0 first
      refl refl
