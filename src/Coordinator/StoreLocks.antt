-- ===== src/Coordinator/StoreLocks.antt =====
-- What a coordinator promises of the lock on a source: the laws that pkg/server.go relies on.
use blobcache_v.Base.{◌≡◌, Bool, true, false, ok, err, ℕ_eq}
use blobcache_v.Base.Texts.{Text}
use blobcache_v.Types.{Floats, BlobFsMetadata}
use blobcache_v.Coordinator.{Coordinator}

pub record StoreLocks (N : Floats) (C : Coordinator N) : Type 0 where
  -- Whether the lock on a source, of a locality and a path, is held.
  pub held : C.State → Text → Text → Bool
  pub refusal : Text
  -- A lock that is held is refused, and nothing changes.
  pub set_refused :
      (s : C.State) (l p : Text)
      → held s l p ≡ true
      → C.set_store_from_content_lock s l p ≡ (err refusal, s)
  -- A lock that is free is taken.
  pub set_taken :
      (s : C.State) (l p : Text)
      → held s l p ≡ false
      → ((C.set_store_from_content_lock s l p).0 ≡ ok tt)
        × (held (C.set_store_from_content_lock s l p).1 l p ≡ true)
  pub held-remove :
      (s : C.State) (l p : Text) → held (C.remove_store_from_content_lock s l p).1 l p ≡ false
  -- Refreshing a lock, setting a node and adding a child neither take nor release it.
  pub held-refresh :
      (s : C.State) (l p : Text) → held (C.refresh_store_from_content_lock s l p).1 l p ≡ held s l p
  pub held-set_fs_node :
      (s : C.State) (id : Text) (m : BlobFsMetadata) (l p : Text)
      → held (C.set_fs_node s id m).1 l p ≡ held s l p
  pub held-add_fs_node_child :
      (s : C.State) (pid id l p : Text) → held (C.add_fs_node_child s pid id).1 l p ≡ held s l p
