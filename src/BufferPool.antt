-- ===== src/BufferPool.antt =====
-- pkg/buffer_pool.go: pools of byte buffers by size. A buffer is its length and its capacity, since
-- the pool does not look at the bytes. `sync.Pool` may drop what was put into it: `dropped` says
-- whether it has, when a buffer is taken.
pub mod Sizes
mod Tests
use blobcache_v.Base.{
  ℕ, ◌*◌, Bool, true, false, ◌||◌, Option, none, some, List, [], ◌∷◌, if◌then◌else◌, ltb, ℕ_eq,
  Result, ok, err,
}
use blobcache_v.Base.Int.{ℤ, pos, pos_part, ltb_ℤ, leb_ℤ}
use blobcache_v.Base.Maps.{Map, lookup, insert}

pub record Buffer : Type 0 where
  pub size : ℕ
  pub capacity : ℕ

pub data SlicePanic : Type 0 where
  slice_bounds_out_of_range : SlicePanic

abbrev pub buffer_size_1mb : ℕ
buffer_size_1mb = 1 * 1024 * 1024

abbrev pub buffer_size_4mb : ℕ
buffer_size_4mb = 4 * 1024 * 1024

abbrev pub buffer_size_16mb : ℕ
buffer_size_16mb = 16 * 1024 * 1024

-- The capacities of the buffers in the pool of each size
abbrev pub Pools : Type 0
Pools = Map ℕ (List ℕ)

pub new_buffer_pool : Pools
new_buffer_pool = (buffer_size_1mb, []) ∷ (buffer_size_4mb, []) ∷ (buffer_size_16mb, []) ∷ []

pub select_pool_size : ℤ → ℕ
select_pool_size n =
    if leb_ℤ n (pos buffer_size_1mb)
    then buffer_size_1mb
    else if leb_ℤ n (pos buffer_size_4mb)
    then buffer_size_4mb
    else buffer_size_16mb

-- `sync.Pool.Get` of the pool of a size, whose `New` makes a buffer of that size
pub take_pooled : ℕ → Bool → List ℕ → ℕ × List ℕ
take_pooled n true buffers = (n, buffers)
take_pooled n false [] = (n, [])
take_pooled n false (c ∷ cs) = (c, cs)

-- `buf[:size]`
pub resliced : ℤ → ℕ → Result SlicePanic Buffer
resliced n capacity =
    if ltb_ℤ n (pos 0) || ltb_ℤ (pos capacity) n
    then err slice_bounds_out_of_range
    else ok (record { size = pos_part n; capacity = capacity })

pub get_buffer : Pools → ℤ → Bool → Result SlicePanic Buffer × Pools
get_buffer pools n dropped = elim (lookup pools (select_pool_size n)) [
  | none ↦ (resliced n (pos_part n), pools)
  | some buffers ↦
      let (capacity, rest) = take_pooled (select_pool_size n) dropped buffers in
      (resliced n capacity, insert pools (select_pool_size n) rest)
]

-- `none` is a nil slice.
pub put_buffer : Pools → Option Buffer → Pools
put_buffer pools none = pools
put_buffer pools (some b) = elim (lookup pools b.capacity) [
  | none ↦ pools
  | some buffers ↦ insert pools b.capacity (b.capacity ∷ buffers)
]
