-- ===== src/Prefetcher/Tests.antt =====
-- Runs of pkg/prefetcher.go.
use blobcache_v.Base.{
  ℕ, ◌*◌, ◌<◌, ◌≡◌, refl, true, false, some, List, [], ◌∷◌, ◌++◌, arith, get_elem?, ℕ_eq,
}
use blobcache_v.Base.Int.{pos, ◌+ℤ◌, int64}
use blobcache_v.Base.Texts.{Text, codes, text_eq, list_beq}
use blobcache_v.Base.Maps.{lookup}
use blobcache_v.Prefetcher.{
  Prefetcher, PrefetchState, PrefetchTask, sent, queue_full, chunk_size, prefetch_ahead_chunks,
  on_read, run_goroutine,
}
use blobcache_v.Prefetcher.Detection.{on_read_starts, run_goroutine_tasks, on_read_after_prefetch}

abbrev hash : Text
hash = codes "ab12"

abbrev sequential_state : PrefetchState
sequential_state = record {
  last_offset = pos 100;
  last_access_time = 1;
  sequential = true;
  prefetching = false;
}

abbrev pf : Prefetcher
pf = record { states = (hash, sequential_state) ∷ []; work_queue = []; started = [] }

known : lookup pf.states hash ≡ some sequential_state
unfolding lookup list_beq
known = refl

on_read_starts_example :
    (on_read pf hash (pos 100) (pos 50) 2).started ≡ [] ++ (hash, int64 (pos 100 +ℤ pos 50)) ∷ []
on_read_starts_example =
    (on_read_starts pf sequential_state hash 100 100 (pos 50) 2 known refl (omega arith)).0
      (omega arith) (omega arith) refl

run_goroutine_tasks_example :
    (tasks : List PrefetchTask) × ((run_goroutine pf hash
        (pos 150)
        (sent ∷ sent ∷ queue_full ∷ [])).work_queue
      ≡ [] ++ tasks)
    × ((j : ℕ) (task : PrefetchTask)
        → get_elem? tasks j ≡ some task
        → (j < prefetch_ahead_chunks)
          × (task.hash ≡ hash)
          × (task.offset ≡ int64 (pos 150 +ℤ pos (j * chunk_size)))
          × (task.length ≡ chunk_size))
run_goroutine_tasks_example = run_goroutine_tasks pf hash (pos 150) (sent ∷ sent ∷ queue_full ∷ [])

on_read_after_prefetch_example :
    (t : PrefetchState) × (lookup
        (on_read (on_read pf hash (pos 150) (pos chunk_size) 3) hash (pos 150) (pos 50) 4).states
        hash
      ≡ some t)
    × (t.sequential ≡ false)
on_read_after_prefetch_example =
    on_read_after_prefetch pf sequential_state hash 150 (pos 50) 3 4 known (omega arith)
