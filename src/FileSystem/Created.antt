-- ===== src/FileSystem/Created.antt =====
-- The nodes that pkg/blobfs_node.go finds after it has created or removed one, over the coordinator
-- in memory.
use blobcache_v.Base.{
  ℕ, ◌≡◌, refl, ap, subst, sym, ◌∙◌, List, [], ◌∷◌, inl, inr, true, false, Option, none, some,
  arith, Result, ok, err, ◌==◌, ℕ_eq, if◌then◌else◌,
}
use blobcache_v.Base.Texts.{Text, text_eq}
use blobcache_v.Base.Maps.{lookup as find, lookup-insert, lookup-delete, beq_refl}
use blobcache_v.Types.{Floats, BlobFsMetadata}
use blobcache_v.Coordinator.Mock.{
  MockCoordinator, mock_coordinator, set_fs_node, get_fs_node, remove_fs_node, remove_fs_node_child,
  add_fs_node_child, is_child, known_nodes, without_child, get_fs_node_children,
}
use blobcache_v.Coordinator.Mock.Nodes.{
  children, add_remove-is_child, Contains, known_nodes-Contains, known_nodes-delete,
  remove_fs_node_child-children,
}
use blobcache_v.Server.Hex.{Sha256, generate_fs_id}
use blobcache_v.Server.Paths.{join_path}
use blobcache_v.FileSystem.{
  Errno, enoent, ContentClient, BlobFsNode, node_of_metadata, new_node, new_inode, has_percent,
  inode_from_fs_id, readdir, entries, lookup, create, unlink,
}

module _ (N : Floats) (H : Sha256) (Q : ContentClient) where
  abbrev pub found : Option BlobFsMetadata → Result Errno BlobFsNode
  found none = err enoent
  found (some m) = ok (node_of_metadata m)

  pub lookup-found :
      (n : BlobFsNode) (name : Text) (s : MockCoordinator N) (q : Q.State)
      → has_percent (join_path n.path name) ≡ false
      → (lookup N (mock_coordinator N) H Q n name s q).0
        ≡ found (find s.fs_nodes (generate_fs_id H (join_path n.path name)))
  unfolding lookup inode_from_fs_id get_fs_node
  lookup-found n name s q plain = ground (arith, plain)

  -- The node that `Create` stores
  abbrev pub created : BlobFsNode → Text → ℕ → ℕ × ℕ → BlobFsMetadata
  created n name mode now =
      let path = join_path n.path name in new_node n.id (generate_fs_id H path) name path mode now

  abbrev pub id_of : BlobFsNode → Text → Text
  id_of n name = generate_fs_id H (join_path n.path name)

  after_create :
      (n : BlobFsNode) (name : Text) (mode : ℕ) (now : ℕ × ℕ) (s : MockCoordinator N) (id : Text)
      → find (create N (mock_coordinator N) H n name mode now s).1.fs_nodes id
        ≡ (if id_of n name == id then some (created n name mode now) else find s.fs_nodes id)
  unfolding create set_fs_node add_fs_node_child new_node
  after_create n name mode now s id = lookup-insert s.fs_nodes (id_of n name) id _

  after_unlink :
      (n : BlobFsNode) (name : Text) (s : MockCoordinator N) (id : Text)
      → find (unlink N (mock_coordinator N) H n name s).1.fs_nodes id
        ≡ (if id_of n name == id then none else find s.fs_nodes id)
  unfolding unlink remove_fs_node remove_fs_node_child
  after_unlink n name s id = ground (arith, lookup-delete s.fs_nodes (id_of n name) id)

  create-is_child :
      (n : BlobFsNode) (name : Text) (mode : ℕ) (now : ℕ × ℕ) (s : MockCoordinator N)
      → is_child
          (children N (create N (mock_coordinator N) H n name mode now s).1 n.id)
          (id_of n name)
        ≡ true
  unfolding create set_fs_node add_fs_node_child new_node
  create-is_child n name mode now s =
      let stored : MockCoordinator N =
        (set_fs_node N s (id_of n name) (created n name mode now)).1 in
      let listed = (add_remove-is_child N stored n.id (id_of n name) n.id (id_of n name)).0 in
      listed
      ∙ ground (arith, text_eq.equal_iff n.id n.id, text_eq.equal_iff (id_of n name) (id_of n name))

  nodes-remove_fs_node_child :
      (s : MockCoordinator N) (pid id : Text)
      → (remove_fs_node_child N s pid id).1.fs_nodes ≡ s.fs_nodes
  unfolding remove_fs_node_child
  nodes-remove_fs_node_child s pid id = ground arith

  unlink-removed :
      (n : BlobFsNode) (name : Text) (s : MockCoordinator N)
      → (unlink N (mock_coordinator N) H n name s).1
        ≡ (remove_fs_node_child N (remove_fs_node N s (id_of n name)).1 n.id (id_of n name)).1
  unfolding unlink remove_fs_node remove_fs_node_child
  unlink-removed n name s = ground arith

  unlink-is_child :
      (n : BlobFsNode) (name : Text) (s : MockCoordinator N)
      → is_child (children N (unlink N (mock_coordinator N) H n name s).1 n.id) (id_of n name)
        ≡ false
  unlink-is_child n name s =
      let removed : MockCoordinator N = (remove_fs_node N s (id_of n name)).1 in
      let listed = (add_remove-is_child N removed n.id (id_of n name) n.id (id_of n name)).1 in
      rw (unlink-removed n name s) (
        listed
        ∙ ground
            (arith, text_eq.equal_iff n.id n.id, text_eq.equal_iff (id_of n name) (id_of n name)))

  create-node :
      (n : BlobFsNode) (name : Text) (mode : ℕ) (now : ℕ × ℕ) (s : MockCoordinator N)
      → (create N (mock_coordinator N) H n name mode now s).0
        ≡ ok (new_inode (id_of n name) name (join_path n.path name) mode)
  unfolding create set_fs_node add_fs_node_child new_node
  create-node n name mode now s = refl

  unlink-ok :
      (n : BlobFsNode) (name : Text) (s : MockCoordinator N)
      → (unlink N (mock_coordinator N) H n name s).0 ≡ ok tt
  unfolding unlink remove_fs_node remove_fs_node_child
  unlink-ok n name s = ground arith

  readdir-entries :
      (n : BlobFsNode) (s : MockCoordinator N)
      → (readdir N (mock_coordinator N) H n s).0
        ≡ ok (entries (known_nodes s.fs_nodes (children N s (generate_fs_id H n.path))))
  unfolding readdir get_fs_node_children
  readdir-entries n s = refl

  entries-Contains :
      (m : BlobFsMetadata) (ms : List BlobFsMetadata)
      → Contains m ms
      → Contains (m.mode, m.name, m.ino) (entries ms)
  unfolding entries
  entries-Contains m [] c = c
  entries-Contains m (x ∷ xs) (inl e) = inl (ap (λ y. (y.mode, y.name, y.ino)) e)
  entries-Contains m (x ∷ xs) (inr c) = inr (entries-Contains m xs c)

  -- A directory whose ID is that of its path, as the ID of a renamed one is not
  abbrev pub Settled : BlobFsNode → Type 0
  Settled n = n.id ≡ generate_fs_id H n.path

  create-readdir :
      (n : BlobFsNode) (name : Text) (mode : ℕ) (now : ℕ × ℕ) (s : MockCoordinator N)
      → Settled n
      → (listed : List (ℕ × Text × ℕ)) × ((readdir N
            (mock_coordinator N)
            H
            n
            (create N (mock_coordinator N) H n name mode now s).1).0
          ≡ ok listed)
        × Contains (mode, name, 0) listed
  unfolding new_node
  create-readdir n name mode now s settled =
      let after = (create N (mock_coordinator N) H n name mode now s).1 in
      let listed = create-is_child n name mode now s in
      let stored : find after.fs_nodes (id_of n name) ≡ some (created n name mode now) =
        after_create n name mode now s (id_of n name) ∙ rw (beq_refl (id_of n name)) refl in
      (
        entries (known_nodes after.fs_nodes (children N after (generate_fs_id H n.path))),
        readdir-entries n after,
        entry (known_nodes after.fs_nodes (children N after (generate_fs_id H n.path))) (
            known_nodes-Contains after.fs_nodes (children N after (generate_fs_id H n.path))
              (id_of n name) (created n name mode now)
              (subst (λ id. is_child (children N after id) (id_of n name) ≡ true) settled listed)
              stored),
      )
    where
      entry :
          (ms : List BlobFsMetadata)
          → Contains (created n name mode now) ms
          → Contains (mode, name, 0) (entries ms)
      entry ms c = entries-Contains (created n name mode now) ms c

  unlink-readdir :
      (n : BlobFsNode) (name : Text) (s : MockCoordinator N)
      → Settled n
      → (readdir N (mock_coordinator N) H n (unlink N (mock_coordinator N) H n name s).1).0
        ≡ ok (entries (known_nodes s.fs_nodes (without_child (children N s n.id) (id_of n name))))
  unfolding remove_fs_node
  unlink-readdir n name s settled =
      let removed : MockCoordinator N = (remove_fs_node N s (id_of n name)).1 in
      readdir-entries n _
      ∙ ap
          (λ id. ok (
            entries (
              known_nodes (unlink N (mock_coordinator N) H n name s).1.fs_nodes
                (children N (unlink N (mock_coordinator N) H n name s).1 id))))
          (sym settled)
      ∙ ap (λ t. ok (entries (known_nodes t.fs_nodes (children N t n.id))))
          (unlink-removed n name s)
      ∙ ap
          (λ nodes. ok (
            entries (
              known_nodes nodes
                (children N (remove_fs_node_child N removed n.id (id_of n name)).1 n.id))))
          (nodes-remove_fs_node_child removed n.id (id_of n name))
      ∙ ap (λ cs. ok (entries (known_nodes removed.fs_nodes cs)))
          (remove_fs_node_child-children N removed n.id (id_of n name) n.id
            ∙ rw (beq_refl n.id) refl)
      ∙ ap (λ ms. ok (entries ms))
          (known_nodes-delete s.fs_nodes (children N s n.id) (id_of n name))

  -- Over the coordinator in memory, `Create` returns the new node. A lookup of a name without a percent
  -- sign then finds the metadata that `Create` made, if its path has the ID of the created one, and
  -- else what it found before; the new node is among the children of the directory's ID; and if that
  -- ID is the ID of the directory's path, `Readdir` of the directory lists the name with the mode
  -- and the inode number 0. `Unlink` succeeds also where there is no such node. A lookup then fails
  -- with ENOENT, if its path has that ID, and else finds what it found before; the node is not among
  -- the children of the directory's ID; and if that ID is the ID of the directory's path, `Readdir`
  -- lists the known nodes of the children without it, as they were before.
  pub lookup-create-unlink :
      (n n' : BlobFsNode) (name name' : Text) (mode : ℕ) (now : ℕ × ℕ) (s : MockCoordinator N)
      (q : Q.State)
      → has_percent (join_path n'.path name') ≡ false
      → (let after = create N (mock_coordinator N) H n name mode now s in
          (after.0 ≡ ok (new_inode (id_of n name) name (join_path n.path name) mode))
          × ((lookup N (mock_coordinator N) H Q n' name' after.1 q).0 ≡ (
              if id_of n name == id_of n' name'
              then ok (node_of_metadata (created n name mode now))
              else (lookup N (mock_coordinator N) H Q n' name' s q).0))
          × (is_child (children N after.1 n.id) (id_of n name) ≡ true)
          × (Settled n
              → (listed : List (ℕ × Text × ℕ)) × ((readdir N (mock_coordinator N) H n after.1).0
                  ≡ ok listed)
                × Contains (mode, name, 0) listed))
        × (let after = unlink N (mock_coordinator N) H n name s in
            (after.0 ≡ ok tt)
            × ((lookup N (mock_coordinator N) H Q n' name' after.1 q).0 ≡ (
                if id_of n name == id_of n' name'
                then err enoent
                else (lookup N (mock_coordinator N) H Q n' name' s q).0))
            × (is_child (children N after.1 n.id) (id_of n name) ≡ false)
            × (Settled n
                → (readdir N (mock_coordinator N) H n after.1).0
                  ≡ ok (
                      entries (
                        known_nodes s.fs_nodes
                          (without_child (children N s n.id) (id_of n name))))))
  lookup-create-unlink n n' name name' mode now s q plain = (
    (
      create-node n name mode now s,
      rw (lookup-found n' name' (create N (mock_coordinator N) H n name mode now s).1 q plain) (
          rw (lookup-found n' name' s q plain)
            (rw (after_create n name mode now s (id_of n' name')) (ground arith))),
      create-is_child n name mode now s,
      create-readdir n name mode now s,
    ),
    (
      unlink-ok n name s,
      rw (lookup-found n' name' (unlink N (mock_coordinator N) H n name s).1 q plain) (
          rw (lookup-found n' name' s q plain)
            (rw (after_unlink n name s (id_of n' name')) (ground arith))),
      unlink-is_child n name s,
      unlink-readdir n name s,
    ),
  )
