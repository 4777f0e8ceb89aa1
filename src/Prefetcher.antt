-- ===== src/Prefetcher.antt =====
-- The detector of sequential reads, pkg/prefetcher.go. `OnRead` starts a goroutine; here it joins
-- the list `started`, and `run_goroutine` runs it. Times are numbers of one clock.
pub mod Detection
mod Tests
use blobcache_v.Base.{
  ℕ, zero, suc, ◌+◌, ◌-◌, ◌*◌, ◌≡◌, Bool, true, false, ◌&&◌, not, Option, none, some, List, [], ◌∷◌,
  ◌++◌, arith, ltb, if◌then◌else◌,
}
use blobcache_v.Base.Int.{ℤ, pos, ◌+ℤ◌, ◌-ℤ◌, leb_ℤ, int64}
use blobcache_v.Base.Texts.{Text, text_eq}
use blobcache_v.Base.Maps.{Map, lookup, insert}

abbrev pub prefetch_ahead_chunks : ℕ
prefetch_ahead_chunks = 16

abbrev pub prefetch_threshold_bytes : ℕ
prefetch_threshold_bytes = 2 * 1024 * 1024

-- 30 seconds, in nanoseconds
abbrev pub prefetch_cache_time : ℕ
prefetch_cache_time = 30_000_000_000

abbrev pub chunk_size : ℕ
chunk_size = 4 * 1024 * 1024

pub record PrefetchState : Type 0 where
  pub last_offset : ℤ
  pub last_access_time : ℕ
  pub sequential : Bool
  pub prefetching : Bool

pub record PrefetchTask : Type 0 where
  pub hash : Text
  pub offset : ℤ
  pub length : ℕ

-- `started` holds the goroutines of `startPrefetch` that have not run: a hash and a start offset.
pub record Prefetcher : Type 0 where
  pub states : Map Text PrefetchState
  pub work_queue : List PrefetchTask
  pub started : List (Text × ℤ)

unfoldable pub new_prefetcher : Prefetcher
new_prefetcher = record { states = []; work_queue = []; started = [] }

-- `offset >= state.lastOffset && (offset - state.lastOffset) <= prefetchThresholdBytes`
unfoldable pub is_sequential : PrefetchState → ℤ → Bool
is_sequential s offset =
    leb_ℤ s.last_offset offset
    && leb_ℤ (int64 (offset -ℤ s.last_offset)) (pos prefetch_threshold_bytes)

-- The map holds pointers, so `startPrefetch` and its caller change one state, `s`.
unfoldable pub start_prefetch : Prefetcher → PrefetchState → Text → ℤ → Prefetcher × PrefetchState
start_prefetch pf s hash start_offset = if s.prefetching then (pf, s) else (
  record pf { started = pf.started ++ (hash, start_offset) ∷ [] },
  record s { prefetching = true },
)

-- The three branches of `OnRead` on `isSequential` and the state.
unfoldable pub detect : Bool → Prefetcher → PrefetchState → Text → ℤ → Prefetcher × PrefetchState
detect now_sequential pf s hash start_offset =
    if now_sequential && not s.sequential
    then start_prefetch pf (record s { sequential = true }) hash start_offset
    else if now_sequential && s.sequential && not s.prefetching
    then start_prefetch pf s hash start_offset
    else if not now_sequential
    then (pf, record s { sequential = false })
    else (pf, s)

unfoldable pub first_read : ℤ → ℕ → PrefetchState
first_read offset now = record {
  last_offset = offset;
  last_access_time = now;
  sequential = false;
  prefetching = false;
}

abbrev pub put_state : Prefetcher → Text → PrefetchState → Prefetcher
put_state pf hash s = record pf { states = insert pf.states hash s }

unfoldable pub next_read : Prefetcher → PrefetchState → Text → ℤ → ℤ → ℕ → Prefetcher
next_read pf s hash offset length now =
    let (pf', s') = detect (is_sequential s offset) pf s hash (int64 (offset +ℤ length)) in
    put_state pf' hash
      (record s' { last_offset = int64 (offset +ℤ length); last_access_time = now })

unfoldable pub on_read : Prefetcher → Text → ℤ → ℤ → ℕ → Prefetcher
on_read pf hash offset length now = elim (lookup pf.states hash) [
  | none ↦ put_state pf hash (first_read offset now)
  | some s ↦ next_read pf s hash offset length now
]

-- What the `select` of the goroutine meets in one round.
pub data Select : Type 0 where
  sent cancelled queue_full : Select

-- The loop of the goroutine from round `i`, over what its `select`s meet.
unfoldable pub queue_from : ℕ → ℕ → Text → ℤ → List Select → List PrefetchTask
queue_from zero i hash start_offset selects = []
queue_from (suc rounds) i hash start_offset [] = []
queue_from (suc rounds) i hash start_offset (sent ∷ selects) =
    record {
      hash = hash;
      offset = int64 (start_offset +ℤ pos (i * chunk_size));
      length = chunk_size;
    }
    ∷ queue_from rounds (i + 1) hash start_offset selects
queue_from (suc rounds) i hash start_offset (cancelled ∷ selects) = []
queue_from (suc rounds) i hash start_offset (queue_full ∷ selects) = []

abbrev stop_prefetching : PrefetchState → PrefetchState
stop_prefetching s = record s { prefetching = false }

-- The deferred function: the state may be gone by then.
unfoldable pub finish : Prefetcher → Text → Prefetcher
finish pf hash = elim (lookup pf.states hash) [
  | none ↦ pf
  | some s ↦ put_state pf hash (stop_prefetching s)
]

-- One goroutine of `startPrefetch`, from start to end.
unfoldable pub run_goroutine : Prefetcher → Text → ℤ → List Select → Prefetcher
unfolding queue_from finish
run_goroutine pf hash start_offset selects =
    finish
      (record pf {
        work_queue = pf.work_queue ++ queue_from prefetch_ahead_chunks 0 hash start_offset selects;
      })
      hash

unfoldable pub drop_stale : ℕ → Map Text PrefetchState → Map Text PrefetchState
drop_stale now [] = []
drop_stale now ((hash, s) ∷ m) =
    let rest = drop_stale now m in
    if ltb prefetch_cache_time (now - s.last_access_time) then rest else (hash, s) ∷ rest

-- The body of the ticker loop of `cleanupWorker`.
unfoldable pub cleanup : Prefetcher → ℕ → Prefetcher
unfolding drop_stale
cleanup pf now = record pf { states = drop_stale now pf.states }
