-- ===== src/Metadata/Fields.antt =====
-- `ToSlice` and `ToStruct` of pkg/redis.go, at the metadata of a node (pkg/types.go). The field tags are
-- those of the type.
use blobcache_v.Base.{ℕ, ◌^◌, ◌<◌, Option, none, some, List, [], ◌∷◌, ℕ_eq}
use blobcache_v.Base.Int.{pos}
use blobcache_v.Base.Texts.{Text, codes, text_eq, decimal}
use blobcache_v.Base.Maps.{Map, lookup}
use blobcache_v.Base.Numerals.{parse_uint_or_0}
use blobcache_v.Types.{BlobFsMetadata}

abbrev printed : ℕ → Text
printed n = decimal (pos n)

unfoldable pub to_slice : BlobFsMetadata → List (Text × Text)
to_slice m =
    (codes "pid", m.pid)
    ∷ (codes "id", m.id)
    ∷ (codes "name", m.name)
    ∷ (codes "path", m.path)
    ∷ (codes "hash", m.hash)
    ∷ (codes "ino", printed m.ino)
    ∷ (codes "size", printed m.size)
    ∷ (codes "blocks", printed m.blocks)
    ∷ (codes "atime", printed m.atime)
    ∷ (codes "mtime", printed m.mtime)
    ∷ (codes "ctime", printed m.ctime)
    ∷ (codes "atimensec", printed m.atimensec)
    ∷ (codes "mtimensec", printed m.mtimensec)
    ∷ (codes "ctimensec", printed m.ctimensec)
    ∷ (codes "mode", printed m.mode)
    ∷ (codes "nlink", printed m.nlink)
    ∷ (codes "rdev", printed m.rdev)
    ∷ (codes "blksize", printed m.blksize)
    ∷ (codes "padding", printed m.padding)
    ∷ (codes "uid", printed m.uid)
    ∷ (codes "gid", printed m.gid)
    ∷ (codes "gen", printed m.gen)
    ∷ []

-- A field that is not there keeps the default of its type, as does a number that cannot be parsed.
abbrev pub text_field : Option Text → Text
text_field none = []
text_field (some t) = t

abbrev pub uint_field : ℕ → Option Text → ℕ
uint_field bits none = 0
uint_field bits (some t) = parse_uint_or_0 bits t

unfoldable pub to_struct : Map Text Text → BlobFsMetadata
to_struct m = record {
  pid = text_field (lookup m (codes "pid"));
  id = text_field (lookup m (codes "id"));
  name = text_field (lookup m (codes "name"));
  path = text_field (lookup m (codes "path"));
  hash = text_field (lookup m (codes "hash"));
  ino = uint_field 64 (lookup m (codes "ino"));
  size = uint_field 64 (lookup m (codes "size"));
  blocks = uint_field 64 (lookup m (codes "blocks"));
  atime = uint_field 64 (lookup m (codes "atime"));
  mtime = uint_field 64 (lookup m (codes "mtime"));
  ctime = uint_field 64 (lookup m (codes "ctime"));
  atimensec = uint_field 32 (lookup m (codes "atimensec"));
  mtimensec = uint_field 32 (lookup m (codes "mtimensec"));
  ctimensec = uint_field 32 (lookup m (codes "ctimensec"));
  mode = uint_field 32 (lookup m (codes "mode"));
  nlink = uint_field 32 (lookup m (codes "nlink"));
  rdev = uint_field 32 (lookup m (codes "rdev"));
  blksize = uint_field 32 (lookup m (codes "blksize"));
  padding = uint_field 32 (lookup m (codes "padding"));
  uid = uint_field 32 (lookup m (codes "uid"));
  gid = uint_field 32 (lookup m (codes "gid"));
  gen = uint_field 64 (lookup m (codes "gen"));
}

-- The numbers of a node have the widths of their types.
pub record InRange (m : BlobFsMetadata) : Type 0 where
  pub ino : m.ino < 2 ^ 64
  pub size : m.size < 2 ^ 64
  pub blocks : m.blocks < 2 ^ 64
  pub atime : m.atime < 2 ^ 64
  pub mtime : m.mtime < 2 ^ 64
  pub ctime : m.ctime < 2 ^ 64
  pub atimensec : m.atimensec < 2 ^ 32
  pub mtimensec : m.mtimensec < 2 ^ 32
  pub ctimensec : m.ctimensec < 2 ^ 32
  pub mode : m.mode < 2 ^ 32
  pub nlink : m.nlink < 2 ^ 32
  pub rdev : m.rdev < 2 ^ 32
  pub blksize : m.blksize < 2 ^ 32
  pub padding : m.padding < 2 ^ 32
  pub uid : m.uid < 2 ^ 32
  pub gid : m.gid < 2 ^ 32
  pub gen : m.gen < 2 ^ 64
