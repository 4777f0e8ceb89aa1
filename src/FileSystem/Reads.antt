-- ===== src/FileSystem/Reads.antt =====
-- What a read of pkg/blobfs_node.go returns.
use blobcache_v.Base.{
  ℕ, ◌≡◌, ◌≢◌, refl, ap, ◌⊎◌, inl, inr, true, false, [], arith, length, Result, ok, err, ◌==◌, ℕ_eq,
}
use blobcache_v.Base.Int.{ℤ, pos}
use blobcache_v.Base.Texts.{Text}
use blobcache_v.Backends.{Bytes}
use blobcache_v.Client.{
  ClientError, content_not_found, host_not_found, unable_to_acquire_lock,
  unable_to_populate_content, deadline_exceeded, call_failed,
}
use blobcache_v.FileSystem.{
  Errno, eio, eagain, ContentClient, BlobFsNode, after_first, after_store, after_second, read,
}

module _ (Q : ContentClient) where
  -- The error of a read
  abbrev pub Fails : Result Errno Bytes → Type 0
  Fails result = (result ≡ err eio) ⊎ (result ≡ err eagain)

  after_store-Fails :
      (n : BlobFsNode) (offset length : ℤ) (out : Result ClientError Text × Q.State)
      → Fails (after_store Q n offset length out).0
  after_store-Fails n offset length (ok hash, q) =
      second (Q.get_content q n.hash offset length n.path)
    where
      second : (out : Result ClientError Bytes × Q.State) → Fails (after_second Q out).0
      second (ok bytes, q') = inl refl
      second (err e, q') = inl refl
  after_store-Fails n offset length (err unable_to_acquire_lock, q) = inr refl
  after_store-Fails n offset length (err host_not_found, q) = inl refl
  after_store-Fails n offset length (err content_not_found, q) = inl refl
  after_store-Fails n offset length (err unable_to_populate_content, q) = inl refl
  after_store-Fails n offset length (err deadline_exceeded, q) = inl refl
  after_store-Fails n offset length (err (call_failed e), q) = inl refl

  after_first-Fails :
      (n : BlobFsNode) (offset length : ℤ) (e : ClientError) (q : Q.State)
      → Fails (after_first Q n offset length (err e, q)).0
  after_first-Fails n offset length content_not_found q = after_store-Fails n offset length _
  after_first-Fails n offset length host_not_found q = inl refl
  after_first-Fails n offset length unable_to_acquire_lock q = inl refl
  after_first-Fails n offset length unable_to_populate_content q = inl refl
  after_first-Fails n offset length deadline_exceeded q = inl refl
  after_first-Fails n offset length (call_failed e) q = inl refl

  -- A read of a file of size 0 returns no bytes and makes no request. A read of any other file
  -- returns the bytes of its first request for the content, if that succeeds, and else fails, with
  -- EIO or EAGAIN: also where the content was not found, was then stored from its source, and a second
  -- request has returned it.
  pub read_lem :
      (n : BlobFsNode) (offset : ℤ) (length : ℕ) (q : Q.State)
      → (n.attr.attr_size ≡ 0 → read Q n offset length q ≡ (ok [], q))
        × (n.attr.attr_size ≢ 0
            → ((bytes : Bytes)
                → (Q.get_content q n.hash offset (pos length) n.path).0 ≡ ok bytes
                → (read Q n offset length q).0 ≡ ok bytes)
              × ((e : ClientError)
                  → (Q.get_content q n.hash offset (pos length) n.path).0 ≡ err e
                  → Fails (read Q n offset length q).0))
  unfolding read
  read_lem n offset length q = (
    λ empty. let e : (n.attr.attr_size == 0) ≡ true = ground (arith, empty) in rw e refl,
    λ some_size.
        let e : (n.attr.attr_size == 0) ≡ false = ground (arith, some_size) in
        rw e (go (Q.get_content q n.hash offset (pos length) n.path)),
  )
    where
      go :
          (out : Result ClientError Bytes × Q.State)
          → ((bytes : Bytes)
              → out.0 ≡ ok bytes
              → (after_first Q n offset (pos length) out).0 ≡ ok bytes)
            × ((e : ClientError)
                → out.0 ≡ err e
                → Fails (after_first Q n offset (pos length) out).0)
      go (ok b, q') = (λ bytes e. let same : b ≡ bytes = cc in ap ok same, λ x e. cc)
      go (err x, q') = (λ bytes e. cc, λ y e. after_first-Fails n offset (pos length) x q')
