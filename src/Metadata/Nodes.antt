-- ===== src/Metadata/Nodes.antt =====
-- The nodes of the metadata engine (pkg/metadata.go) through the fields of Redis (pkg/redis.go).
use blobcache_v.Base.{
  ℕ, ◌+◌, ◌^◌, ◌<◌, ◌≡◌, refl, ap, subst, ◌∙◌, Option, none, some, [], ◌∷◌, arith, Result, ok, err,
  ℕ_eq,
}
use native.Mathlib.Nat.{mod-lt}
use blobcache_v.Base.Int.{pos}
use blobcache_v.Base.Texts.{Text, codes, text_eq, list_beq, decimal}
use blobcache_v.Base.Maps.{Map, lookup}
use blobcache_v.Base.Numerals.{parse_uint_or_0-decimal}
use blobcache_v.Types.{BlobFsMetadata}
use blobcache_v.Metadata.Fields.{to_slice, to_struct, text_field, uint_field, InRange}
use blobcache_v.Metadata.{
  Redis, RedisError, nil, failed, Answers, Engine, fs_node_key, node_of, found_node, get_fs_node,
  next_generation, written_node, write_node, replace_node, set_fs_node,
}

-- The fields hold a node.
record Agrees (fs : Map Text Text) (m : BlobFsMetadata) : Type 0 where
  pid : lookup fs (codes "pid") ≡ some m.pid
  id : lookup fs (codes "id") ≡ some m.id
  name : lookup fs (codes "name") ≡ some m.name
  path : lookup fs (codes "path") ≡ some m.path
  hash : lookup fs (codes "hash") ≡ some m.hash
  ino : lookup fs (codes "ino") ≡ some (decimal (pos m.ino))
  size : lookup fs (codes "size") ≡ some (decimal (pos m.size))
  blocks : lookup fs (codes "blocks") ≡ some (decimal (pos m.blocks))
  atime : lookup fs (codes "atime") ≡ some (decimal (pos m.atime))
  mtime : lookup fs (codes "mtime") ≡ some (decimal (pos m.mtime))
  ctime : lookup fs (codes "ctime") ≡ some (decimal (pos m.ctime))
  atimensec : lookup fs (codes "atimensec") ≡ some (decimal (pos m.atimensec))
  mtimensec : lookup fs (codes "mtimensec") ≡ some (decimal (pos m.mtimensec))
  ctimensec : lookup fs (codes "ctimensec") ≡ some (decimal (pos m.ctimensec))
  mode : lookup fs (codes "mode") ≡ some (decimal (pos m.mode))
  nlink : lookup fs (codes "nlink") ≡ some (decimal (pos m.nlink))
  rdev : lookup fs (codes "rdev") ≡ some (decimal (pos m.rdev))
  blksize : lookup fs (codes "blksize") ≡ some (decimal (pos m.blksize))
  padding : lookup fs (codes "padding") ≡ some (decimal (pos m.padding))
  uid : lookup fs (codes "uid") ≡ some (decimal (pos m.uid))
  gid : lookup fs (codes "gid") ≡ some (decimal (pos m.gid))
  gen : lookup fs (codes "gen") ≡ some (decimal (pos m.gen))

abbrev over : Option Text → Option Text → Option Text
over none old = old
over (some v) old = some v

written-Agrees :
    (fs old : Map Text Text) (m : BlobFsMetadata)
    → ((f : Text) → lookup fs f ≡ over (lookup (to_slice m) f) (lookup old f))
    → Agrees fs m
unfolding to_slice lookup list_beq
written-Agrees fs old m h = record {
  pid = h (codes "pid");
  id = h (codes "id");
  name = h (codes "name");
  path = h (codes "path");
  hash = h (codes "hash");
  ino = h (codes "ino");
  size = h (codes "size");
  blocks = h (codes "blocks");
  atime = h (codes "atime");
  mtime = h (codes "mtime");
  ctime = h (codes "ctime");
  atimensec = h (codes "atimensec");
  mtimensec = h (codes "mtimensec");
  ctimensec = h (codes "ctimensec");
  mode = h (codes "mode");
  nlink = h (codes "nlink");
  rdev = h (codes "rdev");
  blksize = h (codes "blksize");
  padding = h (codes "padding");
  uid = h (codes "uid");
  gid = h (codes "gid");
  gen = h (codes "gen");
}

text_at : (found : Option Text) (t : Text) → found ≡ some t → text_field found ≡ t
text_at found t e = ap text_field e

uint_at :
    (bits : ℕ) (found : Option Text) (n : ℕ)
    → n < 2 ^ bits
    → found ≡ some (decimal (pos n))
    → uint_field bits found ≡ n
uint_at bits found n h e = ap (uint_field bits) e ∙ parse_uint_or_0-decimal bits n h

to_struct-Agrees :
    (fs : Map Text Text) (m : BlobFsMetadata) → InRange m → Agrees fs m → to_struct fs ≡ m
unfolding to_struct
to_struct-Agrees fs m r a =
    rw
      (
        text_at _ m.pid a.pid,
        text_at _ m.id a.id,
        text_at _ m.name a.name,
        text_at _ m.path a.path,
        text_at _ m.hash a.hash,
        uint_at 64 _ m.ino r.ino a.ino,
        uint_at 64 _ m.size r.size a.size,
        uint_at 64 _ m.blocks r.blocks a.blocks,
        uint_at 64 _ m.atime r.atime a.atime,
        uint_at 64 _ m.mtime r.mtime a.mtime,
        uint_at 64 _ m.ctime r.ctime a.ctime,
        uint_at 32 _ m.atimensec r.atimensec a.atimensec,
        uint_at 32 _ m.mtimensec r.mtimensec a.mtimensec,
        uint_at 32 _ m.ctimensec r.ctimensec a.ctimensec,
        uint_at 32 _ m.mode r.mode a.mode,
        uint_at 32 _ m.nlink r.nlink a.nlink,
        uint_at 32 _ m.rdev r.rdev a.rdev,
        uint_at 32 _ m.blksize r.blksize a.blksize,
        uint_at 32 _ m.padding r.padding a.padding,
        uint_at 32 _ m.uid r.uid a.uid,
        uint_at 32 _ m.gid r.gid a.gid,
        uint_at 64 _ m.gen r.gen a.gen,
      )
      refl

next_generation-InRange :
    (fs : Map Text Text) (node : BlobFsMetadata) → InRange node → InRange (next_generation fs node)
next_generation-InRange [] node r = r
next_generation-InRange (f ∷ fs) node r = record {
  ino = r.ino;
  size = r.size;
  blocks = r.blocks;
  atime = r.atime;
  mtime = r.mtime;
  ctime = r.ctime;
  atimensec = r.atimensec;
  mtimensec = r.mtimensec;
  ctimensec = r.ctimensec;
  mode = r.mode;
  nlink = r.nlink;
  rdev = r.rdev;
  blksize = r.blksize;
  padding = r.padding;
  uid = r.uid;
  gid = r.gid;
  gen = mod-lt ((to_struct (f ∷ fs)).gen + 1) {m = 2 ^ 64} (omega arith);
}

-- The node that is written, of what `HGETALL` answers before
abbrev pub generation : Result RedisError (Map Text Text) → BlobFsMetadata → BlobFsMetadata
generation (ok fs) node = next_generation fs node
generation (err e) node = node

module _ (R : Redis) (id : Text) where
  abbrev key : Text
  key = fs_node_key id

  node_of-Agrees :
      (fs : Map Text Text) (node : BlobFsMetadata)
      → InRange node
      → Agrees fs node
      → node_of id fs ≡ ok node
  unfolding lookup
  node_of-Agrees [] node r a = let missing = a.pid in cc
  node_of-Agrees (f ∷ fs) node r a = ap ok (to_struct-Agrees (f ∷ fs) node r a)

  found_node-Agrees :
      (m : Engine R) (fs : Map Text Text) (node : BlobFsMetadata)
      (answer : Answers R.State (Map Text Text))
      → answer.0 ≡ ok fs
      → InRange node
      → Agrees fs node
      → (found_node R m id answer).0 ≡ ok node
  found_node-Agrees m fs node (ok fs', s) e r a =
      let same : fs' ≡ fs = cc in ap (node_of id) same ∙ node_of-Agrees fs node r a
  found_node-Agrees m fs node (err x, s) e r a = cc

  -- What a write that succeeds leaves to be read
  Readable : BlobFsMetadata → Engine R → Type 0
  Readable node m =
      (fs : Map Text Text)
      → (R.hget_all m.rdb (fs_node_key id)).0 ≡ ok fs
      → (get_fs_node R m id).0 ≡ ok node

  hset-Readable :
      (m : Engine R) (s : R.State) (node : BlobFsMetadata)
      → InRange node
      → (R.hset s key (to_slice node)).0 ≡ ok tt
      → Readable node (record m { rdb = (R.hset s key (to_slice node)).1 })
  unfolding Readable get_fs_node
  hset-Readable m s node r done fs e =
      let s' = (R.hset s key (to_slice node)).1 in
      found_node-Agrees (record m { rdb = s' }) fs node (R.hget_all s' key) e r
        (written-Agrees fs (R.fields s key) node λ f.
          R.hget_all-fields s' key fs e f
          ∙ R.fields-hset s key (to_slice node) done f
          ∙ over_elim (lookup (to_slice node) f) (lookup (R.fields s key) f))
    where
      over_elim : (v old : Option Text) → (elim v [ none ↦ old | some t ↦ some t ]) ≡ over v old
      over_elim none old = refl
      over_elim (some t) old = refl

  write_node-Readable :
      (m : Engine R) (s : R.State) (node : BlobFsMetadata)
      → InRange node
      → (write_node R m key s node).0 ≡ ok tt
      → Readable node (write_node R m key s node).1
  write_node-Readable m s node r = go (R.hset s key (to_slice node)) refl
    where
      go :
          (out : Answers R.State (Unit {0}))
          → R.hset s key (to_slice node) ≡ out
          → (written_node R m key out).0 ≡ ok tt
          → Readable node (written_node R m key out).1
      go (ok u, s') e done =
          subst (λ t. Readable node (record m { rdb = t })) (ap (λ o. o.1) e)
            (hset-Readable m s node r (ap (λ o. o.0) e))
      go (err x, s') e done = cc

  replace_node-Readable :
      (m : Engine R) (node : BlobFsMetadata) (answer : Answers R.State (Map Text Text))
      → InRange node
      → (replace_node R m key node answer).0 ≡ ok tt
      → Readable (generation answer.0 node) (replace_node R m key node answer).1
  replace_node-Readable m node (ok fs, s) r =
      write_node-Readable m s (next_generation fs node) (next_generation-InRange fs node r)
  replace_node-Readable m node (err nil, s) r = write_node-Readable m s node r
  replace_node-Readable m node (err (failed e), s) r = λ done. cc

  -- A round trip over Redis: after a `SetFsNode` that succeeds, a `GetFsNode` whose read succeeds
  -- returns every field of the node as it was given, but for the generation where the ID had a node
  -- before: it is one more than that node's, modulo 2^64. (The numbers of the node have the widths of
  -- their types.)
  pub get_fs_node-set_fs_node :
      (m : Engine R) (node : BlobFsMetadata)
      → InRange node
      → (set_fs_node R m id node).0 ≡ ok tt
      → (fs : Map Text Text)
      → (R.hget_all (set_fs_node R m id node).1.rdb (fs_node_key id)).0 ≡ ok fs
      → (get_fs_node R (set_fs_node R m id node).1 id).0
        ≡ ok (generation (R.hget_all m.rdb (fs_node_key id)).0 node)
  unfolding set_fs_node Readable
  get_fs_node-set_fs_node m node r =
      replace_node-Readable m node (R.hget_all m.rdb (fs_node_key id)) r
