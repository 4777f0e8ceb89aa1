-- ===== src/BufferPool/Tests.antt =====
-- A buffer of three MiB from fresh pools of pkg/buffer_pool.go.
use blobcache_v.Base.{ℕ, ◌≤◌, ◌*◌, ◌≡◌, false, ◌||◌, none, ok, err, ℕ_eq, if◌then◌else◌}
use blobcache_v.Base.Int.{pos, ltb_ℤ}
use blobcache_v.BufferPool.{
  slice_bounds_out_of_range, buffer_size_16mb, new_buffer_pool, select_pool_size, get_buffer,
  put_buffer,
}
use blobcache_v.BufferPool.Sizes.{Sorted, Smallest, new_buffer_pool-Sorted, get_put}

get_put_example :
    ((get_buffer new_buffer_pool (pos 3145728) false).0 ≡ (
      if ltb_ℤ (pos 3145728) (pos 0) || ltb_ℤ (pos buffer_size_16mb) (pos 3145728)
      then err slice_bounds_out_of_range
      else ok (record { size = 3145728; capacity = select_pool_size (pos 3145728) })))
    × Sorted (get_buffer new_buffer_pool (pos 3145728) false).1
    × Sorted (put_buffer new_buffer_pool none)
    × ((n : ℕ)
        → pos 3145728 ≡ pos n
        → n ≤ 16 * 1024 * 1024
        → Smallest n (select_pool_size (pos 3145728)))
get_put_example = get_put new_buffer_pool (pos 3145728) false none new_buffer_pool-Sorted
