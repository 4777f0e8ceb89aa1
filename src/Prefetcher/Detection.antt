-- ===== src/Prefetcher/Detection.antt =====
-- When `OnRead` starts a prefetch, what the goroutine queues, and how a prefetch read counts as a
-- read of the client. (pkg/prefetcher.go)
use blobcache_v.Base.{
  ℕ, zero, suc, ◌+◌, ◌*◌, ◌^◌, ◌<◌, ◌≤◌, ◌≡◌, ◌⊎◌, inl, inr, refl, ap, ◌∙◌, append-nil, ◌-◌, Bool,
  true, false, ◌&&◌, not, some, List, [], ◌∷◌, ◌++◌, arith, if◌then◌else◌, get_elem?,
}
use blobcache_v.Base.Int.{ℤ, pos, ◌+ℤ◌, int64, ◌-ℤ◌, int64-+ℤ_pos, int64_of_InInt64, pos-sub}
use blobcache_v.Base.Texts.{Text, text_eq}
use blobcache_v.Base.Maps.{Map, lookup, insert, lookup-insert, beq_refl}
use blobcache_v.Prefetcher.{
  Prefetcher, PrefetchState, PrefetchTask, Select, sent, cancelled, queue_full, chunk_size,
  prefetch_ahead_chunks, is_sequential, detect, start_prefetch, on_read, next_read, queue_from,
  run_goroutine, finish,
}

detect-started :
    (b : Bool) (pf : Prefetcher) (s : PrefetchState) (hash : Text) (start_offset : ℤ)
    → (detect b pf s hash start_offset).0.started
      ≡ pf.started ++ (if b && not s.prefetching then (hash, start_offset) ∷ [] else [])
unfolding detect start_prefetch
detect-started b pf s hash start_offset = ground (arith, append-nil pf.started)

detect-states :
    (b : Bool) (pf : Prefetcher) (s : PrefetchState) (hash : Text) (start_offset : ℤ)
    → ((detect b pf s hash start_offset).0.states ≡ pf.states)
      × ((detect b pf s hash start_offset).1.sequential ≡ b)
unfolding detect start_prefetch
detect-states b pf s hash start_offset = ground arith

-- What a read starts, by whether it is sequential
on_read-started :
    (pf : Prefetcher) (s : PrefetchState) (hash : Text) (offset len : ℤ) (now : ℕ)
    → lookup pf.states hash ≡ some s
    → (on_read pf hash offset len now).started
      ≡ pf.started
        ++ (if is_sequential s offset && not s.prefetching
            then (hash, int64 (offset +ℤ len)) ∷ []
            else [])
unfolding on_read next_read
on_read-started pf s hash offset len now known =
    rw (known, on_read) (detect-started (is_sequential s offset) pf s hash (int64 (offset +ℤ len)))

in_window :
    (s : PrefetchState) (last offset : ℕ)
    → s.last_offset ≡ pos last
    → last ≤ offset
    → offset ≤ last + 2 * 1024 * 1024
    → offset < 2 ^ 63
    → is_sequential s (pos offset) ≡ true
unfolding is_sequential
in_window s last offset e from to small =
    let d : pos offset -ℤ pos last ≡ pos (offset - last) = pos-sub offset last from in
    let w = int64_of_InInt64 (pos (offset - last)) (omega arith) in
    rw e (rw (d, w) (ground (arith, from, to)))

out_of_window :
    (s : PrefetchState) (last offset : ℕ)
    → s.last_offset ≡ pos last
    → (offset < last) ⊎ (last + 2 * 1024 * 1024 < offset)
    → offset < 2 ^ 63
    → is_sequential s (pos offset) ≡ false
unfolding is_sequential
out_of_window s last offset e (inl before) small = rw e (ground (arith, before))
out_of_window s last offset e (inr far) small =
    let d : pos offset -ℤ pos last ≡ pos (offset - last) = pos-sub offset last (omega arith) in
    let w = int64_of_InInt64 (pos (offset - last)) (omega arith) in
    rw e (rw (d, w) (ground (arith, far)))

pub on_read_starts :
    (pf : Prefetcher) (s : PrefetchState) (hash : Text) (last offset : ℕ) (len : ℤ) (now : ℕ)
    → lookup pf.states hash ≡ some s
    → s.last_offset ≡ pos last
    → offset < 2 ^ 63
    → (let after = (on_read pf hash (pos offset) len now).started in
        (last ≤ offset
          → offset ≤ last + 2 * 1024 * 1024
          → s.prefetching ≡ false
          → after ≡ pf.started ++ (hash, int64 (pos offset +ℤ len)) ∷ [])
        × ((offset < last) ⊎ (last + 2 * 1024 * 1024 < offset) → after ≡ pf.started)
        × (s.prefetching ≡ true → after ≡ pf.started))
on_read_starts pf s hash last offset len now known e small =
    let started = on_read-started pf s hash (pos offset) len now known in
    (
      λ from to idle. started ∙ rw (in_window s last offset e from to small, idle) refl,
      λ outside. started ∙ rw (out_of_window s last offset e outside small) (append-nil pf.started),
      λ busy. started ∙ rw busy (ground (arith, append-nil pf.started)),
    )

queue_from-get_elem? :
    (rounds i : ℕ) (hash : Text) (start_offset : ℤ) (selects : List Select) (j : ℕ)
    (task : PrefetchTask)
    → get_elem? (queue_from rounds i hash start_offset selects) j ≡ some task
    → (j < rounds)
      × (task ≡ record {
        hash = hash;
        offset = int64 (start_offset +ℤ pos ((i + j) * chunk_size));
        length = chunk_size;
      })
unfolding queue_from
queue_from-get_elem? zero i hash start_offset selects j task h = cc
queue_from-get_elem? (suc rounds) i hash start_offset [] j task h = cc
queue_from-get_elem? (suc rounds) i hash start_offset (sent ∷ selects) zero task h =
    let e : i + zero ≡ i = omega arith in (omega arith, rw e (ground arith))
queue_from-get_elem? (suc rounds) i hash start_offset (sent ∷ selects) (suc j) task h =
    let e : i + suc j ≡ i + 1 + j = omega arith in
    let ih = queue_from-get_elem? rounds (i + 1) hash start_offset selects j task h in
    (omega arith, rw e ih.1)
queue_from-get_elem? (suc rounds) i hash start_offset (cancelled ∷ selects) j task h = cc
queue_from-get_elem? (suc rounds) i hash start_offset (queue_full ∷ selects) j task h = cc

work_queue-finish : (pf : Prefetcher) (hash : Text) → (finish pf hash).work_queue ≡ pf.work_queue
unfolding finish
work_queue-finish pf hash = ground arith

-- The goroutine appends to the queue, and the j-th task that it appends is one of the first
-- sixteen chunks of 4 MiB from its start offset on, in order and without a gap.
pub run_goroutine_tasks :
    (pf : Prefetcher) (hash : Text) (start_offset : ℤ) (selects : List Select)
    → (tasks : List PrefetchTask) × ((run_goroutine pf hash start_offset selects).work_queue
        ≡ pf.work_queue ++ tasks)
      × ((j : ℕ) (task : PrefetchTask)
          → get_elem? tasks j ≡ some task
          → (j < prefetch_ahead_chunks)
            × (task.hash ≡ hash)
            × (task.offset ≡ int64 (start_offset +ℤ pos (j * chunk_size)))
            × (task.length ≡ chunk_size))
unfolding run_goroutine
run_goroutine_tasks pf hash start_offset selects = (
  queue_from prefetch_ahead_chunks 0 hash start_offset selects,
  work_queue-finish _ hash,
  λ j task h.
      let q = queue_from-get_elem? prefetch_ahead_chunks 0 hash start_offset selects j task h in
      let e : 0 + j ≡ j = omega arith in
      (q.0, ap (λ t. t.hash) q.1, rw (q.1) (rw e refl), ap (λ t. t.length) q.1),
)

lookup-insert_self :
    (m : Map Text PrefetchState) (hash : Text) (s : PrefetchState)
    → lookup (insert m hash s) hash ≡ some s
lookup-insert_self m hash s = rw (lookup-insert m hash hash s, beq_refl hash)

on_read-state :
    (pf : Prefetcher) (s : PrefetchState) (hash : Text) (offset len : ℤ) (now : ℕ)
    → lookup pf.states hash ≡ some s
    → (t : PrefetchState) × (lookup (on_read pf hash offset len now).states hash ≡ some t)
      × (t.last_offset ≡ int64 (offset +ℤ len))
      × (t.sequential ≡ is_sequential s offset)
unfolding on_read next_read
on_read-state pf s hash offset len now known =
    let d = detect (is_sequential s offset) pf s hash (int64 (offset +ℤ len)) in
    (
      record d.1 { last_offset = int64 (offset +ℤ len); last_access_time = now },
      rw (known, on_read) (lookup-insert_self d.0.states hash _),
      refl,
      (detect-states (is_sequential s offset) pf s hash (int64 (offset +ℤ len))).1,
    )

behind_is_not_sequential :
    (s : PrefetchState) (offset : ℕ) (n : ℕ)
    → s.last_offset ≡ pos (offset + suc n)
    → is_sequential s (pos offset) ≡ false
unfolding is_sequential
behind_is_not_sequential s offset n e = rw e (ground arith)

-- A worker fetches a prefetched chunk by `Get`, which reports it as a read too. So after a client
-- read up to `offset` and the worker's read of the chunk behind it, the client's next read, at
-- `offset`, counts as out of sequence and clears the flag.
pub on_read_after_prefetch :
    (pf : Prefetcher) (s : PrefetchState) (hash : Text) (offset : ℕ) (len : ℤ) (now later : ℕ)
    → lookup pf.states hash ≡ some s
    → offset + chunk_size < 2 ^ 63
    → (t : PrefetchState) × (lookup
          (on_read
            (on_read pf hash (pos offset) (pos chunk_size) now)
            hash
            (pos offset)
            len
            later).states
          hash
        ≡ some t)
      × (t.sequential ≡ false)
on_read_after_prefetch pf s hash offset len now later known small =
    let (u, found, last, _) = on_read-state pf s hash (pos offset) (pos chunk_size) now known in
    let (t, found', _, flag) =
      on_read-state (on_read pf hash (pos offset) (pos chunk_size) now) u hash (pos offset) len
        later found in
    (t, found', flag ∙ behind_is_not_sequential u offset (chunk_size - 1) (last ∙ wrapped))
  where
    wrapped : int64 (pos offset +ℤ pos chunk_size) ≡ pos (offset + suc (chunk_size - 1))
    wrapped = int64-+ℤ_pos offset chunk_size small
