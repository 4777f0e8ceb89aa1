-- ===== src/Discovery/Found.antt =====
-- The hosts that a round of pkg/discovery.go adds.
use blobcache_v.Base.{
  ◌≡◌, refl, ap, subst, ◌∙◌, inl, inr, Option, none, some, List, [], ◌∷◌, arith, Bool-cases, Result,
  ok, err, ◌==◌, ℕ_eq, ◌++◌, sym, if◌then◌else◌,
}
use mathlib.Core.List.{Permᴰ}
use blobcache_v.Base.Int.{pos}
use blobcache_v.Base.Texts.{Text, codes, text_eq}
use blobcache_v.Types.{Floats, BlobCacheHost}
use blobcache_v.Coordinator.{Coordinator}
use blobcache_v.HostMap.{Hosts, set, get}
use blobcache_v.HostMap.Nearest.{Any}
use blobcache_v.HostMap.Entries.{get-set_remove, or_else}
use blobcache_v.Discovery.{
  StateReply, Network, Arrival, checked, get_host_state, with_state, if_unknown, host_states,
  update_host_map, updated, listed_hosts, discover_hosts, discovery_round,
}

module _ (N : Floats) where
  get-update_known :
      (known : Hosts N) (new : List (BlobCacheHost N)) (id : Text) (h : BlobCacheHost N)
      → get N known id ≡ some h
      → get N (update_host_map N known new) id ≡ some h
  unfolding update_host_map
  get-update_known known [] id h e = e
  get-update_known known (x ∷ xs) id h e =
      get-update_known (set N known x).0 xs id h
        (rw (get-set_remove N known x id).0 (rw e (ground arith)))

  get-update_new :
      (known : Hosts N) (new : List (BlobCacheHost N)) (id : Text) (h : BlobCacheHost N)
      → get N known id ≡ none
      → get N (update_host_map N known new) id ≡ some h
      → Any (λ x. (x ≡ h) × (x.host_id ≡ id)) new
  unfolding update_host_map
  get-update_new known [] id h unknown e = cc
  get-update_new known (x ∷ xs) id h unknown e = elim (Bool-cases (x.host_id == id)) [
    | inl same ↦
        let here : get N (set N known x).0 id ≡ some x =
          rw (get-set_remove N known x id).0 (rw (same, unknown) refl) in
        let kept = get-update_known (set N known x).0 xs id x here in
        inl (cc, (text_eq.equal_iff x.host_id id).0 same)
    | inr other ↦ inr (
        get-update_new (set N known x).0 xs id h
          (rw (get-set_remove N known x id).0 (rw (other, unknown) refl)) e)
  ]

  -- A host that was not known and answers, at its private address, with the client's version; and
  -- its state, `h`
  abbrev pub Answers : Network N → Hosts N → BlobCacheHost N → BlobCacheHost N → Type 0
  Answers ask known h host =
      (get N known host.host_id ≡ none)
      × ((reply : StateReply N) × (ask
              (if host.private_addr == [] then host.addr else host.private_addr) host.private_addr
            ≡ ok reply)
          × (reply.version ≡ codes "dev")
          × (h ≡ record host { rtt = pos 0; capacity_usage_pct = N.widen reply.usage_pct }))

  checked-Answers :
      (ask : Network N) (known : Hosts N) (h host : BlobCacheHost N)
      → get N known host.host_id ≡ none
      → get_host_state N ask host ≡ ok h
      → Answers ask known h host
  unfolding get_host_state
  checked-Answers ask known h host unknown =
      go (ask (if host.private_addr == [] then host.addr else host.private_addr) host.private_addr)
        refl
    where
      go :
          (r : Result Text (StateReply N))
          → ask (if host.private_addr == [] then host.addr else host.private_addr) host.private_addr
            ≡ r
          → checked N host r ≡ ok h
          → Answers ask known h host
      go (err e) a f = cc
      go (ok r) a f = elim (Bool-cases (r.version == codes "dev")) [
        | inl same ↦
            let g : checked N host (ok r)
                ≡ ok (record host { rtt = pos 0; capacity_usage_pct = N.widen r.usage_pct }) =
              rw same refl in
            (unknown, (r, a, (text_eq.equal_iff r.version (codes "dev")).0 same, cc))
        | inr other ↦
            let g : checked N host (ok r)
                ≡ err (codes "version mismatch: " ++ r.version ++ codes " != " ++ codes "dev") =
              rw other refl in
            cc
      ]

  get_host_state-Answers :
      (ask : Network N) (known : Hosts N) (h host : BlobCacheHost N)
      → Answers ask known h host
      → get_host_state N ask host ≡ ok h
  unfolding get_host_state
  get_host_state-Answers ask known h host (unknown, (reply, a, v, e)) =
      let same = (text_eq.equal_iff reply.version (codes "dev")).1 v in
      rw a (rw same (ap ok (sym e)))

  -- One host of the loop, by what was known of it and its state
  arrived :
      (ask : Network N) (known : Hosts N) (x : BlobCacheHost N) (xs : List (BlobCacheHost N))
      (id : Text) (h : BlobCacheHost N) (there : Option (BlobCacheHost N))
      (state : Result Text (BlobCacheHost N))
      → get N known x.host_id ≡ there
      → get_host_state N ask x ≡ state
      → (Any (λ y. (y ≡ h) × (y.host_id ≡ id)) (host_states N ask known xs)
          → (h.host_id ≡ id) × Any (Answers ask known h) xs)
      → Any
          (λ y. (y ≡ h) × (y.host_id ≡ id))
          (if_unknown N there
            (with_state N state (host_states N ask known xs))
            (host_states N ask known xs))
      → (h.host_id ≡ id) × Any (Answers ask known h) (x ∷ xs)
  arrived ask known x xs id h (some k) state e f later m =
      let rest = later m in (rest.0, inr rest.1)
  arrived ask known x xs id h none (err w) e f later m = let rest = later m in (rest.0, inr rest.1)
  arrived ask known x xs id h none (ok y) e f later (inl (same, named)) = (
    subst (λ z. z.host_id ≡ id) same named,
    inl (checked-Answers ask known h x e (f ∙ ap ok same)),
  )
  arrived ask known x xs id h none (ok y) e f later (inr m) =
      let rest = later m in (rest.0, inr rest.1)

  host_states-Any :
      (ask : Network N) (known : Hosts N) (hosts : List (BlobCacheHost N)) (id : Text)
      (h : BlobCacheHost N)
      → Any (λ x. (x ≡ h) × (x.host_id ≡ id)) (host_states N ask known hosts)
      → (h.host_id ≡ id) × Any (Answers ask known h) hosts
  unfolding host_states
  host_states-Any ask known [] id h among = elim among [ ]
  host_states-Any ask known (x ∷ xs) id h among =
      arrived ask known x xs id h (get N known x.host_id) (get_host_state N ask x) refl refl
        (host_states-Any ask known xs id h) among

  Any-Perm :
      (P : BlobCacheHost N → Type 0) {xs ys : List (BlobCacheHost N)}
      → Permᴰ xs ys
      → Any P xs
      → Any P ys
  Any-Perm P Permᴰ.nil m = m
  Any-Perm P (Permᴰ.cons e p) (inl m) = inl (subst P e m)
  Any-Perm P (Permᴰ.cons e p) (inr m) = inr (Any-Perm P p m)
  Any-Perm P (Permᴰ.swap e f) (inl m) = inr (inl (subst P e m))
  Any-Perm P (Permᴰ.swap e f) (inr (inl m)) = inl (subst P f m)
  Any-Perm P (Permᴰ.swap e f) (inr (inr m)) = inr (inr m)
  Any-Perm P (Permᴰ.trans p q) m = Any-Perm P q (Any-Perm P p m)

  Perm-Any :
      (P : BlobCacheHost N → Type 0) {xs ys : List (BlobCacheHost N)}
      → Permᴰ xs ys
      → Any P ys
      → Any P xs
  Perm-Any P Permᴰ.nil m = m
  Perm-Any P (Permᴰ.cons e p) (inl m) = inl (subst P (sym e) m)
  Perm-Any P (Permᴰ.cons e p) (inr m) = inr (Perm-Any P p m)
  Perm-Any P (Permᴰ.swap e f) (inl m) = inr (inl (subst P (sym f) m))
  Perm-Any P (Permᴰ.swap e f) (inr (inl m)) = inl (subst P (sym e) m)
  Perm-Any P (Permᴰ.swap e f) (inr (inr m)) = inr (inr m)
  Perm-Any P (Permᴰ.trans p q) m = Perm-Any P p (Perm-Any P q m)

  -- A new host, or the one that was there, is known behind an update.
  get-update_among :
      (known : Hosts N) (new : List (BlobCacheHost N)) (id : Text)
      → Any (λ x. x.host_id ≡ id) new
      → (k : BlobCacheHost N) × (get N (update_host_map N known new) id ≡ some k)
  unfolding update_host_map
  get-update_among known [] id m = absurd m
  get-update_among known (x ∷ xs) id (inl e) =
      let same = (text_eq.equal_iff x.host_id id).1 e in
      let k = or_else (get N known id) x in
      (
        k,
        get-update_known (set N known x).0 xs id k
            (rw (get-set_remove N known x id).0 (rw same refl)),
      )
  get-update_among known (x ∷ xs) id (inr m) = get-update_among (set N known x).0 xs id m

  among-host_states :
      (ask : Network N) (known : Hosts N) (hosts : List (BlobCacheHost N))
      (h host : BlobCacheHost N)
      → Answers ask known h host
      → Any (λ x. x ≡ host) hosts
      → Any (λ x. x.host_id ≡ host.host_id) (host_states N ask known hosts)
  unfolding host_states
  among-host_states ask known [] h host a m = absurd m
  among-host_states ask known (x ∷ xs) h host a (inl e) =
      let state : get_host_state N ask x ≡ ok h =
        ap (get_host_state N ask) e ∙ get_host_state-Answers ask known h host a in
      let unknown : get N known x.host_id ≡ none = ap (λ y. get N known y.host_id) e ∙ a.0 in
      rw (unknown, state) (inl (ap (λ y. y.host_id) a.1.3))
  among-host_states ask known (x ∷ xs) h host a (inr m) =
      later (get N known x.host_id) (get_host_state N ask x)
        (among-host_states ask known xs h host a m)
    where
      later :
          (there : Option (BlobCacheHost N)) (state : Result Text (BlobCacheHost N))
          → Any (λ y. y.host_id ≡ host.host_id) (host_states N ask known xs)
          → Any
              (λ y. y.host_id ≡ host.host_id)
              (if_unknown N there
                (with_state N state (host_states N ask known xs))
                (host_states N ask known xs))
      later (some k) state r = r
      later none (err w) r = r
      later none (ok y) r = inr r

  module _ (C : Coordinator N) where
    -- A round of the discovery changes nothing if the coordinator fails to list hosts. Else, in
    -- whatever order the states of the listed hosts arrive, it keeps every known host as it is; a host
    -- that was not known and is known afterwards stands under its own ID and is a listed host that
    -- was not known and that answered, dialled at its private address also where that is empty, with
    -- the version "dev", with a round-trip time of 0 and the capacity usage that it reported; and
    -- under the ID of every listed host that so answers a host is known afterwards.
    pub discovery_round_lem :
        (ask : Network N) (arrive : Arrival N) (locality : Text) (known : Hosts N) (s : C.State)
        → (let after = (discovery_round N C ask arrive locality known s).0 in
            ((e : Text) → (C.get_available_hosts s locality).0 ≡ err e → after ≡ known)
            × ((id : Text) (h : BlobCacheHost N)
                → get N known id ≡ some h
                → get N after id ≡ some h)
            × ((hosts : List (BlobCacheHost N))
                → (C.get_available_hosts s locality).0 ≡ ok hosts
                → ((id : Text) (h : BlobCacheHost N)
                    → get N known id ≡ none
                    → get N after id ≡ some h
                    → (h.host_id ≡ id) × Any (Answers ask known h) hosts)
                  × ((h host : BlobCacheHost N)
                      → Any (λ x. x ≡ host) hosts
                      → Answers ask known h host
                      → (k : BlobCacheHost N) × (get N after host.host_id ≡ some k))))
    unfolding discovery_round discover_hosts
    discovery_round_lem ask arrive locality known s = go (C.get_available_hosts s locality).0
      where
        added :
            (hosts : List (BlobCacheHost N))
            → (let after = update_host_map N known (host_states N ask known (arrive.order hosts)) in
                ((id : Text) (h : BlobCacheHost N)
                  → get N known id ≡ none
                  → get N after id ≡ some h
                  → (h.host_id ≡ id) × Any (Answers ask known h) hosts)
                × ((h host : BlobCacheHost N)
                    → Any (λ x. x ≡ host) hosts
                    → Answers ask known h host
                    → (k : BlobCacheHost N) × (get N after host.host_id ≡ some k)))
        added hosts = (
          λ id h unknown there.
              let (named, among) = host_states-Any ask known (arrive.order hosts) id h (
                get-update_new known (host_states N ask known (arrive.order hosts)) id h unknown
                  there) in
              (named, Any-Perm (Answers ask known h) (arrive.reorders hosts) among),
          λ h host m a.
              get-update_among known (host_states N ask known (arrive.order hosts)) host.host_id (
                among-host_states ask known (arrive.order hosts) h host a
                  (Perm-Any (λ x. x ≡ host) (arrive.reorders hosts) m)),
        )

        go :
            (listed : Result Text (List (BlobCacheHost N)))
            → (let after = updated N C known (listed_hosts N C ask arrive known listed) in
                ((e : Text) → listed ≡ err e → after ≡ known)
                × ((id : Text) (h : BlobCacheHost N)
                    → get N known id ≡ some h
                    → get N after id ≡ some h)
                × ((hosts : List (BlobCacheHost N))
                    → listed ≡ ok hosts
                    → ((id : Text) (h : BlobCacheHost N)
                        → get N known id ≡ none
                        → get N after id ≡ some h
                        → (h.host_id ≡ id) × Any (Answers ask known h) hosts)
                      × ((h host : BlobCacheHost N)
                          → Any (λ x. x ≡ host) hosts
                          → Answers ask known h host
                          → (k : BlobCacheHost N) × (get N after host.host_id ≡ some k))))
        go (err x) = (λ e f. refl, λ id h e. e, λ hosts f. cc)
        go (ok hosts) = (
          λ e f. cc,
          get-update_known known (host_states N ask known (arrive.order hosts)),
          λ hosts' f.
              let same : hosts ≡ hosts' = cc in
              (
                λ id h unknown there.
                    let r = (added hosts).0 id h unknown there in
                    (r.0, subst (Any (Answers ask known h)) same r.1),
                λ h host m a. (added hosts).1 h host (subst (Any (λ x. x ≡ host)) (sym same) m) a,
              ),
        )
