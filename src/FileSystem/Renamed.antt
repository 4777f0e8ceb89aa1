-- ===== src/FileSystem/Renamed.antt =====
-- What pkg/blobfs_node.go finds after a `Rename`, over the remote client of a server whose coordinator
-- is the one in memory.
use blobcache_v.Base.{
  ◌≡◌, refl, ap, subst, ◌∙◌, sym, false, Option, none, some, arith, Result, ok, err, ◌==◌, ℕ_eq,
  if◌then◌else◌,
}
use blobcache_v.Base.Texts.{Text, codes, text_eq}
use blobcache_v.Base.Maps.{Map, insert, lookup as find, lookup-insert}
use blobcache_v.Types.{Floats, BlobFsMetadata}
use blobcache_v.Coordinator.Mock.{
  mock_coordinator, set_fs_node, get_fs_node, remove_fs_node_child, add_fs_node_child,
}
use blobcache_v.Coordinator.{Returns}
use blobcache_v.Coordinator.Service.{CacheService}
use blobcache_v.Coordinator.Remote.{answered}
use blobcache_v.Coordinator.Refines.{without_ino, through, via, remote-Refines}
use blobcache_v.Server.Hex.{Sha256}
use blobcache_v.Server.Paths.{join_path}
use blobcache_v.FileSystem.{
  Errno, enoent, eio, or_errno, then_do, ContentClient, BlobFsNode, node_of_metadata, has_percent,
  inode_from_fs_id, lookup, mounted, rename,
}
use blobcache_v.FileSystem.Created.{id_of}

module _ (N : Floats) (H : Sha256) (Q : ContentClient) where
  abbrev Server : Type 0
  Server = CacheService N (mock_coordinator N)

  abbrev pub nodes : Server → Map Text BlobFsMetadata
  nodes cs = cs.coordinator.fs_nodes

  -- The metadata that `Rename` stores under the new ID
  abbrev pub renamed : BlobFsNode → Text → BlobFsMetadata → BlobFsMetadata
  renamed n new_name m = record (without_ino m) {
    name = new_name;
    path = join_path n.path new_name;
  }

  abbrev pub found_remote : Option BlobFsMetadata → Result Errno BlobFsNode
  found_remote none = err enoent
  found_remote (some m) = ok (node_of_metadata (without_ino m))

  get-found :
      (cs : Server) (id : Text) (m : BlobFsMetadata)
      → find (nodes cs) id ≡ some m
      → (mounted N (mock_coordinator N) answered H).get_fs_node cs id ≡ (ok (without_ino m), cs)
  unfolding get_fs_node
  get-found cs id m e =
      let there : get_fs_node N cs.coordinator id ≡ (ok m, cs.coordinator) =
        rw (e, get_fs_node) refl in
      (remote-Refines N (mock_coordinator N) cs).get_fs_node id
      ∙ ap (via N (mock_coordinator N) cs (through without_ino (codes "failed to get fs node")))
          there

  get-missing :
      (cs : Server) (id : Text)
      → find (nodes cs) id ≡ none
      → (mounted N (mock_coordinator N) answered H).get_fs_node cs id
        ≡ (err (codes "failed to get fs node"), cs)
  unfolding get_fs_node
  get-missing cs id e =
      let there : get_fs_node N cs.coordinator id
          ≡ (err (codes "fs node not found"), cs.coordinator) =
        rw (e, get_fs_node) refl in
      (remote-Refines N (mock_coordinator N) cs).get_fs_node id
      ∙ ap (via N (mock_coordinator N) cs (through without_ino (codes "failed to get fs node")))
          there

  inode-found :
      (cs : Server) (id : Text)
      → (inode_from_fs_id N (mounted N (mock_coordinator N) answered H) H id cs).0
        ≡ found_remote (find (nodes cs) id)
  unfolding inode_from_fs_id
  inode-found cs id = go (find (nodes cs) id) refl
    where
      go :
          (o : Option BlobFsMetadata)
          → find (nodes cs) id ≡ o
          → (inode_from_fs_id N (mounted N (mock_coordinator N) answered H) H id cs).0
            ≡ found_remote (find (nodes cs) id)
      go none e = rw (get-missing cs id e) (rw e refl)
      go (some m) e = rw (get-found cs id m e) (rw e refl)

  lookup-found :
      (n : BlobFsNode) (name : Text) (cs : Server) (q : Q.State)
      → has_percent (join_path n.path name) ≡ false
      → (lookup N (mounted N (mock_coordinator N) answered H) H Q n name cs q).0
        ≡ found_remote (find (nodes cs) (id_of N H Q n name))
  unfolding lookup
  lookup-found n name cs q plain = rw plain (inode-found cs (id_of N H Q n name))

  set-ok :
      (cs : Server) (id : Text) (m : BlobFsMetadata)
      → (mounted N (mock_coordinator N) answered H).set_fs_node cs id m ≡ (
        ok tt,
        record cs {
          coordinator = record cs.coordinator { fs_nodes = insert (nodes cs) id (without_ino m) };
        },
      )
  unfolding set_fs_node
  set-ok cs id m = (remote-Refines N (mock_coordinator N) cs).set_fs_node id m

  -- An operation on children that succeeds and leaves the nodes as they are
  abbrev Leaves : Map Text BlobFsMetadata → Returns Server (Unit {0}) → Type 0
  Leaves m out = (out.0 ≡ ok tt) × (nodes out.1 ≡ m)

  remove-Leaves :
      (cs : Server) (pid id : Text)
      → Leaves
          (nodes cs)
          ((mounted N (mock_coordinator N) answered H).remove_fs_node_child cs pid id)
  unfolding remove_fs_node_child
  remove-Leaves cs pid id =
      subst (Leaves (nodes cs))
        (sym ((remote-Refines N (mock_coordinator N) cs).remove_fs_node_child pid id))
        (ground arith)

  add-Leaves :
      (cs : Server) (pid id : Text)
      → Leaves (nodes cs) ((mounted N (mock_coordinator N) answered H).add_fs_node_child cs pid id)
  unfolding add_fs_node_child
  add-Leaves cs pid id =
      subst (Leaves (nodes cs))
        (sym ((remote-Refines N (mock_coordinator N) cs).add_fs_node_child pid id)) (refl, refl)

  -- The outcome of `Rename` from an operation on children on
  abbrev Ends : Map Text BlobFsMetadata → Result Errno (Unit {0}) × Server → Type 0
  Ends m out = (out.0 ≡ ok tt) × (nodes out.1 ≡ m)

  last-Ends :
      (m : Map Text BlobFsMetadata) (out : Returns Server (Unit {0}))
      → Leaves m out
      → Ends m (or_errno N (mounted N (mock_coordinator N) answered H) H eio out)
  last-Ends m (ok u, cs) l = (refl, l.1)
  last-Ends m (err e, cs) l = cc

  then-Ends :
      (m : Map Text BlobFsMetadata) (out : Returns Server (Unit {0}))
      (next : Unit {0} → Server → Result Errno (Unit {0}) × Server)
      → Leaves m out
      → ((cs : Server) → nodes cs ≡ m → Ends m (next tt cs))
      → Ends m (
          then_do N
            (mounted N (mock_coordinator N) answered H)
            H
            (or_errno N (mounted N (mock_coordinator N) answered H) H eio out)
            next)
  then-Ends m (ok u, cs) next l h = h cs l.1
  then-Ends m (err e, cs) next l h = cc

  after_rename :
      (n : BlobFsNode) (old_name new_name : Text) (cs : Server) (m : BlobFsMetadata)
      → find (nodes cs) (id_of N H Q n old_name) ≡ some m
      → Ends
          (insert (nodes cs) (id_of N H Q n new_name) (renamed n new_name m))
          (rename N (mock_coordinator N) answered H n old_name new_name cs)
  unfolding rename
  after_rename n old_name new_name cs m e =
      let new_id = id_of N H Q n new_name in
      let stored = set-ok cs new_id (renamed n new_name m) in
      rw (get-found cs (id_of N H Q n old_name) m e) (
        rw stored (
          then-Ends (insert (nodes cs) new_id (renamed n new_name m)) _ _
            (remove-Leaves _ n.id (id_of N H Q n old_name))
            (λ cs' kept.
              subst
                (λ k. Ends k (
                  or_errno N (mounted N (mock_coordinator N) answered H) H eio (
                    (mounted N (mock_coordinator N) answered H).add_fs_node_child cs' n.id new_id)))
                kept (last-Ends (nodes cs') _ (add-Leaves cs' n.id new_id)))))

  rename-missing :
      (n : BlobFsNode) (old_name new_name : Text) (cs : Server)
      → find (nodes cs) (id_of N H Q n old_name) ≡ none
      → rename N (mock_coordinator N) answered H n old_name new_name cs ≡ (err enoent, cs)
  unfolding rename
  rename-missing n old_name new_name cs e = rw (get-missing cs (id_of N H Q n old_name) e) refl

  -- Over the remote client, all of whose calls are answered, of a server with the coordinator in
  -- memory, `Rename` of a name whose node is not known fails with ENOENT and changes nothing. Of a
  -- name whose node is known, it succeeds. A lookup of a name without a percent sign then finds the
  -- node's metadata with the new name and path, under the node's old ID, if its path has the ID of
  -- the new one, and else what it found before: the old name is still found, if its ID differs.
  pub lookup-rename :
      (n n' : BlobFsNode) (old_name new_name name' : Text)
      (cs : CacheService N (mock_coordinator N)) (q : Q.State)
      → has_percent (join_path n'.path name') ≡ false
      → (find (nodes cs) (id_of N H Q n old_name) ≡ none
          → rename N (mock_coordinator N) answered H n old_name new_name cs ≡ (err enoent, cs))
        × ((m : BlobFsMetadata)
            → find (nodes cs) (id_of N H Q n old_name) ≡ some m
            → (let after = rename N (mock_coordinator N) answered H n old_name new_name cs in
                (after.0 ≡ ok tt)
                × ((lookup N (mounted N (mock_coordinator N) answered H) H Q n' name' after.1 q).0
                    ≡ (if id_of N H Q n new_name == id_of N H Q n' name'
                        then ok (node_of_metadata (renamed n new_name m))
                        else (lookup N
                            (mounted N (mock_coordinator N) answered H)
                            H
                            Q
                            n'
                            name'
                            cs
                            q).0))))
  lookup-rename n n' old_name new_name name' cs q plain = (
    rename-missing n old_name new_name cs,
    λ m e.
        let after = after_rename n old_name new_name cs m e in
        let new_id = id_of N H Q n new_name in
        let id = id_of N H Q n' name' in
        (
          after.0,
          lookup-found n' name' (rename N (mock_coordinator N) answered H n old_name new_name cs).1
                q plain
              ∙ ap found_remote (
                  ap (λ t. find t id) after.1
                  ∙ lookup-insert (nodes cs) new_id id (renamed n new_name m))
              ∙ rw (lookup-found n' name' cs q plain) (ground arith),
        ),
  )
