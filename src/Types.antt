-- ===== src/Types.antt =====
-- The data types of pkg/types.go that the parts exchange, and their messages in
-- proto/blobcache.proto.
pub mod Plain
use blobcache_v.Base.{ℕ, ◌≡◌, Bool, true, false}
use blobcache_v.Base.Int.{ℤ, pos}
use blobcache_v.Base.Texts.{Text}

-- Floating-point numbers: `narrow` is `float32(x)`, `widen` is `float64(x)`, which is exact, and
-- `less` is `<`.
pub record Floats : Type 1 where
  pub F64 : Type 0
  pub F32 : Type 0
  pub zero : F64
  pub zero_f32 : F32
  pub narrow : F64 → F32
  pub widen : F32 → F64
  pub less : F64 → F64 → Bool
  pub less_irreflexive : (x : F64) → less x x ≡ false
  pub less_trans : (x y z : F64) → less x y ≡ true → less y z ≡ true → less x z ≡ true
  pub narrow-widen : (x : F32) → narrow (widen x) ≡ x

-- `BlobFsMetadata`, and the message of the same name, which has the same fields. The integers are
-- `uint64` and `uint32`; nothing here calculates with them.
pub record BlobFsMetadata : Type 0 where
  pub pid : Text
  pub id : Text
  pub name : Text
  pub path : Text
  pub hash : Text
  pub ino : ℕ
  pub size : ℕ
  pub blocks : ℕ
  pub atime : ℕ
  pub mtime : ℕ
  pub ctime : ℕ
  pub atimensec : ℕ
  pub mtimensec : ℕ
  pub ctimensec : ℕ
  pub mode : ℕ
  pub nlink : ℕ
  pub rdev : ℕ
  pub blksize : ℕ
  pub padding : ℕ
  pub uid : ℕ
  pub gid : ℕ
  pub gen : ℕ

-- `BlobFsMetadata.ToProto`
unfoldable pub to_proto : BlobFsMetadata → BlobFsMetadata
to_proto m = record {
  pid = m.pid;
  id = m.id;
  name = m.name;
  path = m.path;
  hash = m.hash;
  ino = 0;
  size = m.size;
  blocks = m.blocks;
  atime = m.atime;
  mtime = m.mtime;
  ctime = m.ctime;
  atimensec = m.atimensec;
  mtimensec = m.mtimensec;
  ctimensec = m.ctimensec;
  mode = m.mode;
  nlink = m.nlink;
  rdev = m.rdev;
  blksize = m.blksize;
  padding = m.padding;
  uid = m.uid;
  gid = m.gid;
  gen = m.gen;
}

module _ (N : Floats) where
  pub record BlobCacheHost : Type 0 where
    pub rtt : ℤ
    pub host_id : Text
    pub addr : Text
    pub private_addr : Text
    pub capacity_usage_pct : N.F64

  -- The message `BlobCacheHost`
  pub record HostMessage : Type 0 where
    pub message_host_id : Text
    pub message_addr : Text
    pub private_ip_addr : Text
    pub message_capacity : N.F32

  -- A `proto.BlobCacheHost` literal of the three texts, as the coordinator's server and its client
  -- write it.
  unfoldable pub host_message : BlobCacheHost → HostMessage
  host_message h = record {
    message_host_id = h.host_id;
    message_addr = h.addr;
    private_ip_addr = h.private_addr;
    message_capacity = N.zero_f32;
  }

  -- A `BlobCacheHost` literal of the three texts of a message
  unfoldable pub message_host : HostMessage → BlobCacheHost
  message_host h = record {
    rtt = pos 0;
    host_id = h.message_host_id;
    addr = h.message_addr;
    private_addr = h.private_ip_addr;
    capacity_usage_pct = N.zero;
  }
