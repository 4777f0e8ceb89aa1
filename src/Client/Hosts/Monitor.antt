-- ===== src/Client/Hosts/Monitor.antt =====
-- What `monitorHost` of pkg/client.go leaves of a host that does not answer.
use blobcache_v.Base.{
  ℕ, ◌≡◌, ◌≢◌, refl, ap, ◌∙◌, false, Option, none, some, Result, ok, err, ◌==◌, ℕ_eq, if◌then◌else◌,
}
use blobcache_v.Base.Texts.{Text, text_eq}
use blobcache_v.Base.Maps.{lookup, lookup-delete, beq_of_ne}
use blobcache_v.Types.{Floats}
use blobcache_v.HostMap.{remove}
use blobcache_v.Client.{RendezvousHasher, Host, BlobCacheClient, get_grpc_client, retrieve}
use blobcache_v.Client.Nearby.Settled.{Settled, client_when_known}
use blobcache_v.Client.Hosts.{is_alive, drop_host, monitor_tick}

module _ (N : Floats) (X : RendezvousHasher N) (K : Type 0) where
  abbrev Client : Type 0
  Client = BlobCacheClient N X K

  -- What a host says that is given up: an error, or another version than the client's
  abbrev pub Unfit : Text → Result Text Text → Type 0
  Unfit version (err e) = Unit {0}
  Unfit version (ok v) = v ≢ version

  -- A host without a connection is given up too.
  abbrev pub GivenUp : Text → (K → Result Text Text) → Option K → Type 0
  GivenUp version get_state none = Unit {0}
  GivenUp version get_state (some k) = Unfit version (get_state k)

  given_up :
      (version : Text) (get_state : K → Result Text Text) (connection : Option K)
      → GivenUp version get_state connection
      → is_alive N X K version get_state connection ≡ false
  unfolding is_alive
  given_up version get_state none g = refl
  given_up version get_state (some k) g = unfit (get_state k) g
    where
      unfit :
          (answer : Result Text Text)
          → Unfit version answer
          → (elim answer [ err e ↦ false | ok v ↦ v == version ]) ≡ false
      unfit (err e) g = refl
      unfit (ok v) g = beq_of_ne v version g

  -- A tick of `monitorHost` for a host that has no connection, cannot be reached, or runs another version, ends the
  -- monitor and takes the host out of the hasher and the host map. But it deletes the connection that
  -- is filed under the address of the host, whereas connections are filed under the ID: unless these
  -- are equal, the connection to the host stays, and where the local cache has the host for a hash,
  -- a request to retrieve that content still goes to it. (No other goroutine acts in between.)
  pub monitor_tick_lem :
      (c : Client) (host : Host N X K) (version : Text) (get_state : K → Result Text Text)
      → GivenUp version get_state (lookup c.grpc_clients host.host_id)
      → let (goes_on, c') = monitor_tick N X K c host version get_state (λ x. x) in
        (goes_on ≡ false)
        × ((c'.hasher ≡ X.remove c.hasher host)
            × ((c'.hosts ≡ remove N c.hosts host)
                × (host.addr ≢ host.host_id
                    → (lookup c'.grpc_clients host.host_id ≡ lookup c.grpc_clients host.host_id)
                      × ((hash key : Text) (k : K) (i t : ℕ)
                          → Settled N X K hash k host c
                          → get_grpc_client N X K c' (retrieve N X K hash key i) t
                            ≡ (some (k, host), c')))))
  unfolding monitor_tick drop_host
  monitor_tick_lem c host version get_state g =
      let dead = given_up version get_state (lookup c.grpc_clients host.host_id) g in
      let kept = λ (ne : host.addr ≢ host.host_id).
        lookup-delete c.grpc_clients host.addr host.host_id
        ∙ ap (λ b. if b then none else lookup c.grpc_clients host.host_id)
            (beq_of_ne host.addr host.host_id ne) in
      rw dead (
        refl,
        (
          refl,
          (
            refl,
            λ ne. (
              kept ne,
              λ hash key k i t s.
                  client_when_known N X K hash k host (drop_host N X K c host) key i t record {
                    timestamp = s.timestamp;
                    cached = s.cached;
                    connected = kept ne ∙ s.connected;
                  },
            ),
          ),
        ),
      )
