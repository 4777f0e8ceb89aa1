-- ===== src/Coordinator/Mock/Nodes.antt =====
-- The file-system nodes of the coordinator in memory: the lists of children.
use blobcache_v.Base.{
  ◌≡◌, refl, ap, subst, sym, ◌∙◌, ◌⊎◌, inl, inr, true, false, Option, none, some, Bool-cases, ◌&&◌,
  ◌||◌, List, [], ◌∷◌, ◌++◌, arith, ◌==◌, ℕ_eq, if◌then◌else◌,
}
use blobcache_v.Base.Texts.{Text, text_eq}
use blobcache_v.Base.Maps.{Map, lookup, insert, delete, lookup-insert, lookup-delete}
use blobcache_v.Types.{Floats, BlobFsMetadata}
use blobcache_v.Coordinator.Mock.{
  MockCoordinator, known_nodes, if_known, or_empty, without_child, is_child, add_fs_node_child,
  remove_fs_node_child,
}

-- No two entries of a list are the same.
abbrev pub NoDuplicates : List Text → Type 0
NoDuplicates [] = Unit {0}
NoDuplicates (c ∷ cs) = (is_child cs c ≡ false) × NoDuplicates cs

is_child-append :
    (cs : List Text) (id c : Text) → is_child (cs ++ id ∷ []) c ≡ (is_child cs c || (id == c))
unfolding is_child
is_child-append [] id c = ground arith
is_child-append (x ∷ xs) id c = ground (arith, is_child-append xs id c)

is_child-without_child :
    (cs : List Text) (id c : Text)
    → is_child (without_child cs id) c ≡ (if id == c then false else is_child cs c)
unfolding is_child without_child
is_child-without_child [] id c = ground arith
is_child-without_child (x ∷ xs) id c = ground (
  arith,
  is_child-without_child xs id c,
  text_eq.equal_iff x id,
  text_eq.equal_iff x c,
  text_eq.equal_iff id c,
)

append-NoDuplicates :
    (cs : List Text) (id : Text)
    → is_child cs id ≡ false
    → NoDuplicates cs
    → NoDuplicates (cs ++ id ∷ [])
unfolding is_child
append-NoDuplicates [] id h d = ground arith
append-NoDuplicates (x ∷ xs) id h d = ground (
  arith,
  append-NoDuplicates xs id,
  is_child-append xs id x,
  text_eq.equal_iff x id,
  text_eq.equal_iff id x,
)

without_child-NoDuplicates :
    (cs : List Text) (id : Text) → NoDuplicates cs → NoDuplicates (without_child cs id)
unfolding without_child
without_child-NoDuplicates [] id d = tt
without_child-NoDuplicates (x ∷ xs) id d =
    ground (arith, without_child-NoDuplicates xs id, is_child-without_child xs id x)

-- A known child is among the known nodes.
abbrev pub Contains : {A : Type 0} → A → List A → Type 0
Contains a [] = ⊥
Contains a (x ∷ xs) = (x ≡ a) ⊎ Contains a xs

pub known_nodes-Contains :
    (nodes : Map Text BlobFsMetadata) (cs : List Text) (id : Text) (m : BlobFsMetadata)
    → is_child cs id ≡ true
    → lookup nodes id ≡ some m
    → Contains m (known_nodes nodes cs)
unfolding is_child known_nodes
known_nodes-Contains nodes [] id m h e = cc
known_nodes-Contains nodes (c ∷ cs) id m h e = elim (Bool-cases (c == id)) [
  | inl same ↦
      let here : lookup nodes c ≡ some m =
        ap (lookup nodes) ((text_eq.equal_iff c id).0 same) ∙ e in
      subst (λ o. Contains m (if_known o (known_nodes nodes cs))) (sym here) (inl refl)
  | inr other ↦
      later (lookup nodes c) (known_nodes-Contains nodes cs id m (ground (arith, h, other)) e)
]
  where
    later :
        (there : Option BlobFsMetadata)
        → Contains m (known_nodes nodes cs)
        → Contains m (if_known there (known_nodes nodes cs))
    later none r = r
    later (some x) r = inr r

-- A removed node is not needed for the other children.
pub known_nodes-delete :
    (nodes : Map Text BlobFsMetadata) (cs : List Text) (id : Text)
    → known_nodes (delete nodes id) (without_child cs id) ≡ known_nodes nodes (without_child cs id)
unfolding known_nodes without_child
known_nodes-delete nodes [] id = refl
known_nodes-delete nodes (c ∷ cs) id = elim (Bool-cases (c == id)) [
  | inl same ↦ rw same (known_nodes-delete nodes cs id)
  | inr other ↦
      let apart : (id == c) ≡ false =
        ground (arith, other, text_eq.equal_iff id c, text_eq.equal_iff c id) in
      let there : lookup (delete nodes id) c ≡ lookup nodes c =
        lookup-delete nodes id c ∙ rw apart refl in
      rw other (
        ap (λ o. if_known o (known_nodes (delete nodes id) (without_child cs id))) there
        ∙ ap (if_known (lookup nodes c)) (known_nodes-delete nodes cs id))
]

module _ (N : Floats) where
  -- The children that the coordinator lists under a node.
  abbrev pub children : MockCoordinator N → Text → List Text
  children m pid = or_empty (lookup m.fs_children pid)

  children-insert :
      (m : MockCoordinator N) (pid q : Text) (cs : List Text)
      → or_empty (lookup (insert m.fs_children pid cs) q) ≡ (if pid == q then cs else children m q)
  children-insert m pid q cs = rw (lookup-insert m.fs_children pid q cs) (ground arith)

  add_fs_node_child-children :
      (m : MockCoordinator N) (pid id q : Text)
      → children (add_fs_node_child N m pid id).1 q ≡ (
          if pid == q
          then (if is_child (children m pid) id then children m pid else children m pid ++ id ∷ [])
          else children m q)
  unfolding add_fs_node_child
  add_fs_node_child-children m pid id q = children-insert m pid q _

  pub remove_fs_node_child-children :
      (m : MockCoordinator N) (pid id q : Text)
      → children (remove_fs_node_child N m pid id).1 q
        ≡ (if pid == q then without_child (children m pid) id else children m q)
  unfolding remove_fs_node_child without_child
  remove_fs_node_child-children m pid id q = ground (
    arith,
    text_eq.equal_iff pid q,
    lookup-insert m.fs_children pid q (without_child (children m pid) id),
  )

  -- No node lists a child twice.
  abbrev pub DistinctChildren : MockCoordinator N → Type 0
  DistinctChildren m = (q : Text) → NoDuplicates (children m q)

  -- Adding and removing a child keep it so that no node lists a child twice.
  pub add_remove-DistinctChildren :
      (m : MockCoordinator N) (pid id : Text)
      → DistinctChildren m
      → DistinctChildren (add_fs_node_child N m pid id).1
        × DistinctChildren (remove_fs_node_child N m pid id).1
  add_remove-DistinctChildren m pid id d = (
    λ q.
        rw (add_fs_node_child-children m pid id q)
          (ground (arith, d q, d pid, append-NoDuplicates (children m pid) id)),
    λ q.
        rw (remove_fs_node_child-children m pid id q)
          (ground (arith, d q, without_child-NoDuplicates (children m pid) id (d pid))),
  )

  -- After adding a child, and after removing it, a node lists the children that it listed before,
  -- and the child with it or without it; the other nodes list what they did.
  pub add_remove-is_child :
      (m : MockCoordinator N) (pid id q c : Text)
      → (is_child (children (add_fs_node_child N m pid id).1 q) c
          ≡ (((pid == q) && (id == c)) || is_child (children m q) c))
        × (is_child (children (remove_fs_node_child N m pid id).1 q) c
            ≡ (if (pid == q) && (id == c) then false else is_child (children m q) c))
  add_remove-is_child m pid id q c = (
    rw (add_fs_node_child-children m pid id q) (
        ground (
          arith,
          text_eq.equal_iff pid q,
          text_eq.equal_iff id c,
          is_child-append (children m pid) id c,
        )),
    rw (remove_fs_node_child-children m pid id q)
        (ground (arith, text_eq.equal_iff pid q, is_child-without_child (children m pid) id c)),
  )
