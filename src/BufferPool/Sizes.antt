-- ===== src/BufferPool/Sizes.antt =====
-- What the buffer pool of pkg/buffer_pool.go gives for each size.
use blobcache_v.Base.{
  ℕ, ◌≡◌, ◌≢◌, refl, subst, ◌∙◌, sym, ◌⊎◌, inl, inr, ◌≤◌, ◌*◌, Bool, true, false, ◌||◌, Option,
  none, some, List, [], ◌∷◌, arith, Option-cases, ok, err, ℕ_eq, if◌then◌else◌, All,
}
use native.Mathlib.Decide.{ℕ_discrete}
use blobcache_v.Base.Int.{ℤ, pos, pos_part, ltb_ℤ, negsuc}
use blobcache_v.Base.Maps.{lookup, insert, lookup-insert, beq_refl, beq_of_ne}
use blobcache_v.BufferPool.{
  Buffer, slice_bounds_out_of_range, buffer_size_16mb, Pools, new_buffer_pool, select_pool_size,
  take_pooled, resliced, get_buffer, put_buffer,
}

-- There are pools of the three sizes, and each holds buffers of its own size only.
pub record Sorted (pools : Pools) : Type 0 where
  pub own_size :
      (n : ℕ) (buffers : List ℕ) → lookup pools n ≡ some buffers → All (λ c. c ≡ n) buffers
  pub there : (z : ℤ) → (buffers : List ℕ) × (lookup pools (select_pool_size z) ≡ some buffers)

some_injective : {A : Type 0} {a b : A} → some a ≡ some b → a ≡ b
some_injective e = cc

insert_here :
    (pools : Pools) (n m : ℕ) (buffers : List ℕ)
    → n ≡ m
    → lookup (insert pools n buffers) m ≡ some buffers
insert_here pools n m buffers same =
    lookup-insert pools n m buffers ∙ rw same (rw (beq_refl m) refl)

insert_elsewhere :
    (pools : Pools) (n m : ℕ) (buffers : List ℕ)
    → n ≢ m
    → lookup (insert pools n buffers) m ≡ lookup pools m
insert_elsewhere pools n m buffers other =
    lookup-insert pools n m buffers ∙ rw (beq_of_ne n m other) refl

insert-Sorted :
    (pools : Pools) (n : ℕ) (buffers : List ℕ)
    → Sorted pools
    → All (λ c. c ≡ n) buffers
    → Sorted (insert pools n buffers)
insert-Sorted pools n buffers s own = record {
  own_size = λ m bs e. elim (ℕ_discrete n m) [
    | yes same ↦
        let b : buffers ≡ bs = some_injective (sym (insert_here pools n m buffers same) ∙ e) in
        subst (λ k. All (λ c. c ≡ k) bs) same (subst (λ l. All (λ c. c ≡ n) l) b own)
    | no other ↦ s.own_size m bs (sym (insert_elsewhere pools n m buffers other) ∙ e)
  ];
  there = λ z. elim (ℕ_discrete n (select_pool_size z)) [
    | yes same ↦ (buffers, insert_here pools n (select_pool_size z) buffers same)
    | no other ↦
        ((s.there z).0, insert_elsewhere pools n (select_pool_size z) buffers other ∙ (s.there z).1)
  ];
}

take_pooled_lem :
    (n : ℕ) (dropped : Bool) (buffers : List ℕ)
    → All (λ c. c ≡ n) buffers
    → ((take_pooled n dropped buffers).0 ≡ n) × All (λ c. c ≡ n) (take_pooled n dropped buffers).1
unfolding take_pooled
take_pooled_lem n true buffers own = (refl, own)
take_pooled_lem n false [] own = (refl, tt)
take_pooled_lem n false (c ∷ cs) own = own

put_buffer-Sorted : (pools : Pools) (b : Option Buffer) → Sorted pools → Sorted (put_buffer pools b)
unfolding put_buffer
put_buffer-Sorted pools none s = s
put_buffer-Sorted pools (some b) s = elim (Option-cases (lookup pools b.capacity)) [
  | inl e ↦ rw (e, put_buffer) s
  | inr (buffers, e) ↦
      rw (e, put_buffer)
        (insert-Sorted pools b.capacity (b.capacity ∷ buffers) s
          (refl, s.own_size b.capacity buffers e))
]

resliced_at :
    (z : ℤ)
    → resliced z (select_pool_size z) ≡ (
        if ltb_ℤ z (pos 0) || ltb_ℤ (pos buffer_size_16mb) z
        then err slice_bounds_out_of_range
        else ok (record { size = pos_part z; capacity = select_pool_size z }))
unfolding resliced select_pool_size
resliced_at (pos n) = ground arith
resliced_at (negsuc n) = ground arith

fresh_own_size :
    (n : ℕ) (buffers : List ℕ) → lookup new_buffer_pool n ≡ some buffers → All (λ c. c ≡ n) buffers
unfolding new_buffer_pool lookup
fresh_own_size n [] e = tt
fresh_own_size n (c ∷ cs) e = ground arith

fresh_there : (z : ℤ) → lookup new_buffer_pool (select_pool_size z) ≡ some []
unfolding new_buffer_pool select_pool_size lookup
fresh_there z = ground arith

pub new_buffer_pool-Sorted : Sorted new_buffer_pool
new_buffer_pool-Sorted = record { own_size = fresh_own_size; there = λ z. ([], fresh_there z) }

-- The three classes
abbrev pub IsClass : ℕ → Type 0
IsClass c = (c ≡ 1024 * 1024) ⊎ (c ≡ 4 * 1024 * 1024) ⊎ (c ≡ 16 * 1024 * 1024)

-- The smallest class of at least `n` bytes
pub record Smallest (n c : ℕ) : Type 0 where
  pub own_class : IsClass c
  pub fits : n ≤ c
  pub least : (d : ℕ) → IsClass d → n ≤ d → c ≤ d

select_pool_size-Smallest : (n : ℕ) → n ≤ 16 * 1024 * 1024 → Smallest n (select_pool_size (pos n))
unfolding select_pool_size
select_pool_size-Smallest n small = record {
  own_class = ground (arith, small);
  fits = ground (arith, small);
  least = λ d own fits. ground (arith, small, own, fits);
}

-- The pools keep to their sizes through `Get` and `Put`. `Get` of up to 16 MiB returns a buffer of
-- the length asked for with the capacity of the smallest class that fits; of a negative size, or of
-- more than 16 MiB, it panics and never allocates.
pub get_put :
    (pools : Pools) (z : ℤ) (dropped : Bool) (b : Option Buffer)
    → Sorted pools
    → ((get_buffer pools z dropped).0 ≡ (
        if ltb_ℤ z (pos 0) || ltb_ℤ (pos buffer_size_16mb) z
        then err slice_bounds_out_of_range
        else ok (record { size = pos_part z; capacity = select_pool_size z })))
      × Sorted (get_buffer pools z dropped).1
      × Sorted (put_buffer pools b)
      × ((n : ℕ) → z ≡ pos n → n ≤ 16 * 1024 * 1024 → Smallest n (select_pool_size z))
unfolding get_buffer
get_put pools z dropped b s =
    let (buffers, e) = s.there z in
    let (own, rest) =
      take_pooled_lem (select_pool_size z) dropped buffers
        (s.own_size (select_pool_size z) buffers e) in
    (
      rw (e, get_buffer) (rw own (resliced_at z)),
      rw (e, get_buffer) (insert-Sorted pools (select_pool_size z) _ s rest),
      put_buffer-Sorted pools b s,
      λ n e small. rw e (select_pool_size-Smallest n small),
    )
