-- ===== src/Lib.antt =====
-- Blobcache: a content cache of several hosts. A server keeps objects, named by the hash of their
-- content, in pages in memory and on disk, a coordinator keeps the hosts, the locks and the nodes of
-- a file system, and a client chooses a host for each object.
--
-- The parts and their files (paths of the program from the repository's root):
--   Storage       pkg/storage.go: the content store. `add`, `exists`, `get` and `on_evict` are `Add`,
--                 `Exists`, `Get` and `onEvict`; `fetch` and `get_from_disk_cache` are the two tiers,
--                 `add_chunk` and `get_round` one round of the loops. A state goes in and comes out.
--   Prefetcher    pkg/prefetcher.go: `on_read` is `OnRead`, which `get` calls on each read;
--                 `run_goroutine` is what `startPrefetch` starts, with the outcome of each `select`.
--   Types, Config pkg/types.go: metadata, hosts, and the server configuration with `ToProto` and
--                 `BlobCacheServerConfigFromProto`.
--   Coordinator   pkg/coordinator_local.go: the interface `CoordinatorClient`, a record of operations.
--                 Its children are Service, the handlers of pkg/server_coordinator.go over any
--                 coordinator; Remote, pkg/coordinator_remote.go over that server; and Mock,
--                 pkg/coordinator_mock.go. The last two implement the interface.
--   HostMap       pkg/hostmap.go: the hosts that a client knows, and the search for the nearest.
--   BufferPool    pkg/buffer_pool.go: pools of buffers by size.
--   S3Client      pkg/s3_client.go: `download_into_buffer` is `DownloadIntoBuffer`, with the replies of
--                 S3 and the order of their arrival as arguments.
--   Server        pkg/server.go: the handlers of a cache server over Storage and a coordinator. `store`,
--                 `store_content`, `get_content` and `get_content_stream` have the handlers' names;
--                 Server/Sources stores files of the host or of a bucket, with and without the lock,
--                 Server/Nodes is `StoreContentInBlobFs`, Server/Hex and Server/Paths are the hashes
--                 and IDs of pkg/blobfs.go and the paths.
--   Client        pkg/client.go: the choice of a host, `get_grpc_client`, and the requests for content over
--                 it, with the replies of hosts as arguments; Client/Stores are the requests to store,
--                 Client/Nearby is `IsCachedNearby`, Client/Hosts the monitor of hosts and the cleaning
--                 of the local cache; Client/Served takes the servers of Server as hosts.
--   Metadata      pkg/metadata.go with the locks and conversions of pkg/redis.go, over Redis and the library
--                 of its locks as a parameter; Metadata/Local is the local client of
--                 pkg/coordinator_local.go, and Metadata/Plain a Redis in memory.
--   FileSystem    pkg/blobfs_node.go: `lookup`, `read`, `create` and the other operations of a node
--                 over any coordinator and client, `rename` over the remote client; `new_file_system` is `NewFileSystem` of
--                 pkg/blobfs.go.
--   Discovery     pkg/discovery.go: `get_host_state`, `discover_hosts` and a round of `Start`, with the
--                 replies of hosts and the order of their arrival as arguments.
--   Backends      what the content store uses and the repository does not hold: the ristretto cache,
--                 which may drop any entry at any time, and the cache directory on disk; Plain has
--                 concrete ones.
--   Base          lists, integers, texts, maps and results that the parts share.
--
-- Strings and contents are lists of bytes. An int64 is an integer whose additions are wrapped. The
-- loops of `Add` and `Get` take fuel, one more than the bytes of the content and of the read: a round
-- of `Add` moves on by a page, and a round of `Get` that goes on reads a byte. That of `GetContentStream`
-- takes one more than the length of the request.
--
-- Not modelled: the FUSE mount, the start-up of
-- a server, its keep-alive and its state, logging, metrics of the host, gRPC itself (a call is answered, or fails before
-- or after it was handled) and timers.
--
-- Hashes are texts whose bytes stand above the punctuation of file names and keys, as hexadecimal
-- digits do. Concurrency: an operation that holds a mutex is one step; the searches of the host map
-- look at the map several times; in the content store, operations run one after another.
pub mod BufferPool
pub mod Base
pub mod Backends
pub mod Prefetcher
pub mod Storage
pub mod Types
pub mod Config
pub mod Coordinator
pub mod HostMap
pub mod S3Client
pub mod Server
pub mod Client
pub mod Metadata
pub mod FileSystem
pub mod Discovery
