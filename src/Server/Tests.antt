-- ===== src/Server/Tests.antt =====
-- Runs of pkg/server.go on a small service.
use blobcache_v.Base.{
  ℕ, ◌*◌, ◌^◌, ◌≤◌, ◌<◌, ◌≡◌, refl, Bool, true, false, not, some, List, [], ◌∷◌, arith, take, slice,
  ok, err, ℕ_eq, eqb, All,
}
use blobcache_v.Server.Example.{
  toy, hash, content, hash-IsHash, empty_store, empty-Holds, stored, stored-Holds, stored_page,
  stored-OnDisk, service, service_cas,
}
use blobcache_v.Base.{concat}
use blobcache_v.Base.Int.{pos}
use blobcache_v.Base.Texts.{Text, codes}
use blobcache_v.Backends.{Bytes}
use blobcache_v.Backends.Plain.{forgetful, plain_disk}
use blobcache_v.Types.Plain.{whole}
use blobcache_v.Coordinator.Mock.{mock_coordinator}
use blobcache_v.Coordinator.Mock.Locks.{mock_store_locks}
use blobcache_v.Storage.Holds.{Holds}
use blobcache_v.Storage.Reads.{available}
use blobcache_v.Storage.{
  add, add_from, add_chunk, write_through, cache_chunk, index_chunks, make_directory,
}
use blobcache_v.Server.Hex.{
  hash_of, big_endian, generate_fs_id, sha1_string_to_uint64, sha1_string_to_uint64-generate_fs_id,
}
use blobcache_v.Server.Streams.{
  StreamEnd, IsPiece, get_content_stream_sound, get_content_stream-OnDisk,
}
use blobcache_v.Server.Stores.{
  stream_of, get_content_stream-store_content, get_content-store_content,
}
use blobcache_v.Coordinator.StoreLocks.{StoreLocks}
use blobcache_v.S3Client.{refused}
use blobcache_v.Server.Sources.{
  World, CacheSource, Refreshes, missing, lock_failed, read_source,
  store_content_from_source_with_lock,
}
use blobcache_v.Server.Sources.Locked.{succeeded, store_content_from_source_with_lock_lem}
use blobcache_v.Server.{store, receive, store_content, get_content, get_content_stream}

-- The client takes the first piece only.
abbrev takes_one : ℕ → Bool
takes_one i = eqb i 0

get_content_stream_sound_example :
    let (result, sent, cs') =
      get_content_stream forgetful plain_disk whole
        (mock_coordinator whole)
        toy
        (service stored)
        hash
        (pos 3)
        (pos 20)
        takes_one
        (λ i. i) in
    StreamEnd result
    × (All (IsPiece (4 * 1024 * 1024)) sent
        × (((count : ℕ) × (concat sent ≡ slice 3 count content)
              × (count ≤ available content 3 20)
              × (result ≡ ok tt → count ≡ available content 3 20))
            × Holds forgetful plain_disk cs'.cas hash content))
get_content_stream_sound_example =
    get_content_stream_sound forgetful plain_disk whole (mock_coordinator whole) toy hash content
      hash-IsHash (service stored) (rw (service_cas stored) stored-Holds)
      (rw (service_cas stored, stored_page) (omega arith)) 3 20 (omega arith) takes_one (λ i. i)

get_content_stream-OnDisk_example :
    let (result, sent, cs') =
      get_content_stream forgetful plain_disk whole
        (mock_coordinator whole)
        toy
        (service stored)
        hash
        (pos 3)
        (pos 6)
        (λ i. true)
        (λ i. i) in
    (result ≡ ok tt) × (concat sent ≡ slice 3 6 content)
get_content_stream-OnDisk_example =
    get_content_stream-OnDisk forgetful plain_disk whole (mock_coordinator whole) toy hash content
      hash-IsHash (service stored) (rw (service_cas stored) stored-Holds)
      (rw (service_cas stored, stored_page) (omega arith)) 3 6 (omega arith) (λ i. true) (λ i. i)
      (rw (service_cas stored) stored-OnDisk) (ground arith) (λ i. refl)

sha1_string_to_uint64-generate_fs_id_example :
    (sha1_string_to_uint64 (generate_fs_id toy (codes "/a"))
      ≡ some (big_endian 0 (take 8 (toy.sum256 (codes "/a")))))
    × (big_endian 0 (take 8 (toy.sum256 (codes "/a"))) < 2 ^ 64)
sha1_string_to_uint64-generate_fs_id_example = sha1_string_to_uint64-generate_fs_id toy (codes "/a")

abbrev pieces : List Bytes
pieces = codes "hel" ∷ codes "lo" ∷ []

name : Text
name = hash_of toy (concat pieces)

stored_pieces :
    (store_content forgetful plain_disk whole
      (mock_coordinator whole)
      toy
      (service empty_store)
      (stream_of pieces)).0
    ≡ ok name
unfolding store_content store receive service name add make_directory add_from add_chunk
    write_through cache_chunk index_chunks
stored_pieces = refl

get_content_stream-store_content_example :
    let (result, sent, _) =
      get_content_stream forgetful plain_disk whole
        (mock_coordinator whole)
        toy
        (store_content forgetful plain_disk whole
          (mock_coordinator whole)
          toy
          (service empty_store)
          (stream_of pieces)).1
        name
        (pos 1)
        (pos 3)
        (λ i. true)
        (λ i. i) in
    (name ≡ hash_of toy (concat pieces))
    × ((result ≡ ok tt) × (concat sent ≡ slice 1 3 (concat pieces)))
get_content_stream-store_content_example =
    get_content_stream-store_content forgetful plain_disk whole (mock_coordinator whole) toy
      (service empty_store) pieces name stored_pieces (rw (service_cas empty_store) refl)
      (rw (service_cas empty_store) (omega arith)) (rw (service_cas empty_store) (empty-Holds _ _))
      1 3 (ground arith) (omega arith) (λ i. true) (λ i. i) (λ i. refl)

get_content-store_content_example :
    (get_content forgetful plain_disk whole
      (mock_coordinator whole)
      toy
      (store_content forgetful plain_disk whole
        (mock_coordinator whole)
        toy
        (service empty_store)
        (stream_of pieces)).1
      name
      (pos 1)
      (pos 3)
      0).0
    ≡ ok (record { is_ok = true; content = slice 1 3 (concat pieces) })
get_content-store_content_example =
    get_content-store_content forgetful plain_disk whole (mock_coordinator whole) toy
      (service empty_store) pieces name stored_pieces (rw (service_cas empty_store) refl)
      (rw (service_cas empty_store) (omega arith)) (rw (service_cas empty_store) (empty-Holds _ _))
      1 3 (ground arith) (omega arith) 0 (omega arith)

-- A file of the host that is not there
abbrev no_file : World
no_file = record {
  local = λ path. missing (codes "no such file");
  stat = λ path. err (codes "no such file");
  load_config = λ source. ok tt;
  object = λ source key. record {
    head = err (codes "no such object");
    get_object = λ start end. refused (codes "no such object");
    arrivals = [];
  };
  clock = λ i. (i, 0);
}

abbrev source : CacheSource
source = record {
  path = codes "/data/file";
  bucket_name = [];
  region = [];
  endpoint_url = [];
  access_key = [];
  secret_key = [];
}

abbrev times : Refreshes
times = record { early = 1; after = 0; late = 1 }

abbrev mock_locks : StoreLocks whole (mock_coordinator whole)
mock_locks = mock_store_locks whole

store_content_from_source_with_lock_lem_example :
    let cs = service empty_store in
    let (response, cs') =
      store_content_from_source_with_lock forgetful plain_disk whole
        (mock_coordinator whole)
        toy
        no_file
        times
        source
        cs in
    (mock_locks.held cs.coordinator cs.locality source.path ≡ true
      → (response.failed_to_acquire_lock ≡ true)
        × ((response.error_msg ≡ some (lock_failed mock_locks.refusal)) × (cs' ≡ cs)))
    × (mock_locks.held cs.coordinator cs.locality source.path ≡ false
        → (response.failed_to_acquire_lock ≡ false)
          × ((response.is_ok
                ≡ succeeded
                    (read_source forgetful plain_disk whole
                      (mock_coordinator whole)
                      toy
                      no_file
                      source
                      cs).0)
              × (mock_locks.held cs'.coordinator cs.locality source.path ≡ not response.is_ok)))
store_content_from_source_with_lock_lem_example =
    store_content_from_source_with_lock_lem whole (mock_coordinator whole) mock_locks toy forgetful
      plain_disk no_file times source (service empty_store)
