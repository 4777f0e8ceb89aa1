-- ===== src/HostMap/Nearest.antt =====
-- Which host `Closest` and `ClosestWithCapacity` of pkg/hostmap.go find.
use blobcache_v.Base.{
  ℕ, ◌<◌, ◌≡◌, ◌≢◌, refl, ap, subst, ◌∙◌, sym, ◌⊎◌, inl, inr, Bool, true, false, ◌||◌, List, [],
  ◌∷◌, arith, Bool-cases, ℕ_eq, ltb, All, if◌then◌else◌,
}
use blobcache_v.Base.Int.{ℤ, pos, negsuc, ltb_ℤ, ◌≤ℤ◌}
use blobcache_v.Types.{Floats, BlobCacheHost}
use blobcache_v.HostMap.{
  Hosts, found, panics, waiting, insert_sorted, sort_slice, host_values, Poll, by_rtt,
  by_rtt_and_capacity, closest, closest_with_capacity, is_empty,
}

-- An element of a list that none of them is less than.
abbrev pub Least : {A : Type 0} → (A → A → Bool) → A → List A → Type 0
Least less a = All (λ x. less x a ≡ false)

abbrev pub Among : {A : Type 0} → A → List A → Type 0
Among a [] = ⊥
Among a (x ∷ xs) = (x ≡ a) ⊎ Among a xs

module _ {A : Type 0} (less : A → A → Bool) (irreflexive : (a : A) → less a a ≡ false)
    (trans : (a b c : A) → less a b ≡ true → less b c ≡ true → less a c ≡ true) where
  -- What the first element of a sorted list is to the list that was sorted.
  abbrev Heads : List A → List A → Type 0
  Heads [] sorted = sorted ≡ []
  Heads (x ∷ xs) [] = ⊥
  Heads (x ∷ xs) (a ∷ as') = Least less a (x ∷ xs) × Among a (x ∷ xs)

  below : (a b : A) (xs : List A) → less a b ≡ true → Least less b xs → Least less a xs
  below a b [] h l = tt
  below a b (x ∷ xs) h l = (ground (arith, trans x a b, l.0), below a b xs h l.1)

  insert_sorted-Heads :
      (a : A) (xs sorted : List A) → Heads xs sorted → Heads (a ∷ xs) (insert_sorted less a sorted)
  unfolding insert_sorted
  insert_sorted-Heads a [] sorted h = rw h ((irreflexive a, tt), inl refl)
  insert_sorted-Heads a (x ∷ xs) [] h = absurd h
  insert_sorted-Heads a (x ∷ xs) (b ∷ bs) h = elim (Bool-cases (less a b)) [
    | inl before ↦ rw before ((irreflexive a, below a b (x ∷ xs) before h.0), inl refl)
    | inr behind ↦ rw behind ((behind, h.0), inr h.1)
  ]

  pub sort_slice-Heads : (xs : List A) → Heads xs (sort_slice less xs)
  unfolding sort_slice
  sort_slice-Heads [] = refl
  sort_slice-Heads (x ∷ xs) = insert_sorted-Heads x xs (sort_slice less xs) (sort_slice-Heads xs)

  Least-first :
      (xs sorted : List A) (a : A) (rest : List A)
      → Heads xs sorted
      → sorted ≡ a ∷ rest
      → Least less a xs × Among a xs
  Least-first [] sorted a rest h e = cc
  Least-first (x ∷ xs) [] a rest h e = absurd h
  Least-first (x ∷ xs) (b ∷ bs) a rest h e =
      let same : b ≡ a = cc in subst (λ c. Least less c (x ∷ xs) × Among c (x ∷ xs)) same h

  sorted_nil : (xs sorted : List A) → Heads xs sorted → sorted ≡ [] → xs ≡ []
  sorted_nil [] sorted h e = refl
  sorted_nil (x ∷ xs) [] h e = absurd h
  sorted_nil (x ∷ xs) (b ∷ bs) h e = cc

  -- The first element of the sorted list is a least one, and there is none only if the list is
  -- empty.
  sort_slice_first :
      (xs : List A)
      → ((a : A) × (rest : List A) × (sort_slice less xs ≡ a ∷ rest) × Least less a xs × Among a xs)
        ⊎ ((sort_slice less xs ≡ []) × (xs ≡ []))
  sort_slice_first xs = go (sort_slice less xs) refl
    where
      go :
          (sorted : List A)
          → sort_slice less xs ≡ sorted
          → ((a : A) × (rest : List A) × (sort_slice less xs ≡ a ∷ rest)
              × Least less a xs
              × Among a xs)
            ⊎ ((sort_slice less xs ≡ []) × (xs ≡ []))
      go [] e = inr (e, sorted_nil xs (sort_slice less xs) (sort_slice-Heads xs) e)
      go (a ∷ rest) e =
          let (l, m) = Least-first xs (sort_slice less xs) a rest (sort_slice-Heads xs) e in
          inl (a, rest, e, l, m)

abbrev pub Any : {A : Type 0} → (A → Type 0) → List A → Type 0
Any P [] = ⊥
Any P (x ∷ xs) = P x ⊎ Any P xs

ltb_ℤ_irreflexive : (a : ℤ) → ltb_ℤ a a ≡ false
ltb_ℤ_irreflexive (pos n) = ground arith
ltb_ℤ_irreflexive (negsuc n) = ground arith

ltb_ℤ_trans : (a b c : ℤ) → ltb_ℤ a b ≡ true → ltb_ℤ b c ≡ true → ltb_ℤ a c ≡ true
ltb_ℤ_trans (pos m) (pos n) (pos k) = ground arith
ltb_ℤ_trans (pos m) (pos n) (negsuc k) = ground arith
ltb_ℤ_trans (pos m) (negsuc n) (pos k) = ground arith
ltb_ℤ_trans (pos m) (negsuc n) (negsuc k) = ground arith
ltb_ℤ_trans (negsuc m) (pos n) (pos k) = ground arith
ltb_ℤ_trans (negsuc m) (pos n) (negsuc k) = ground arith
ltb_ℤ_trans (negsuc m) (negsuc n) (pos k) = ground arith
ltb_ℤ_trans (negsuc m) (negsuc n) (negsuc k) = ground arith

ltb_ℤ_total : (a b : ℤ) → (ltb_ℤ a b || ltb_ℤ b a) ≡ false → a ≡ b
ltb_ℤ_total (pos m) (pos n) h = let e : m ≡ n = ground arith in ap pos e
ltb_ℤ_total (pos m) (negsuc n) h = ground arith
ltb_ℤ_total (negsuc m) (pos n) h = ground arith
ltb_ℤ_total (negsuc m) (negsuc n) h = let e : m ≡ n = ground arith in ap negsuc e

found_injective : {A : Type 0} {a b : A} → found a ≡ found b → a ≡ b
found_injective e = cc

module _ (N : Floats) where
  by_rtt_and_capacity_irreflexive : (a : BlobCacheHost N) → by_rtt_and_capacity N a a ≡ false
  by_rtt_and_capacity_irreflexive a =
      rw (ltb_ℤ_irreflexive a.rtt) (N.less_irreflexive a.capacity_usage_pct)

  by_rtt_and_capacity_trans :
      (a b c : BlobCacheHost N)
      → by_rtt_and_capacity N a b ≡ true
      → by_rtt_and_capacity N b c ≡ true
      → by_rtt_and_capacity N a c ≡ true
  by_rtt_and_capacity_trans a b c h k =
      ground (arith, N.less_trans a.capacity_usage_pct b.capacity_usage_pct c.capacity_usage_pct)

  -- The round-trip time of `h` is not more than that of `x`.
  abbrev pub NotFarther : BlobCacheHost N → BlobCacheHost N → Type 0
  NotFarther h x = h.rtt ≤ℤ x.rtt

  -- As near, and not fuller where both are equally near
  abbrev pub NotWorse : BlobCacheHost N → BlobCacheHost N → Type 0
  NotWorse h x =
      (h.rtt ≤ℤ x.rtt) × (h.rtt ≡ x.rtt → N.less x.capacity_usage_pct h.capacity_usage_pct ≡ false)

  -- The host is one of those that the poll copied, and compares so to each of them.
  abbrev pub Nearest :
      (BlobCacheHost N → BlobCacheHost N → Type 0) → BlobCacheHost N → Poll N → Type 0
  Nearest Compares h p = All (Compares h) (host_values p.copied) × Among h (host_values p.copied)

  Least-NotFarther :
      (h : BlobCacheHost N) (xs : List (BlobCacheHost N))
      → Least (by_rtt N) h xs
      → All (NotFarther h) xs
  Least-NotFarther h [] l = tt
  Least-NotFarther h (x ∷ xs) l = (ground (arith, l.0), Least-NotFarther h xs l.1)

  not_worse : (h x : BlobCacheHost N) → by_rtt_and_capacity N x h ≡ false → NotWorse h x
  not_worse h x e = (
    ground (arith, e),
    λ same.
        ap (λ b. if b || b then b else N.less x.capacity_usage_pct h.capacity_usage_pct)
          (sym (ltb_ℤ_irreflexive h.rtt))
        ∙ subst
            (λ r.
              (if ltb_ℤ r h.rtt || ltb_ℤ h.rtt r
                then ltb_ℤ r h.rtt
                else N.less x.capacity_usage_pct h.capacity_usage_pct)
              ≡ false)
            (sym same) e,
  )

  Least-NotWorse :
      (h : BlobCacheHost N) (xs : List (BlobCacheHost N))
      → Least (by_rtt_and_capacity N) h xs
      → All (NotWorse h) xs
  Least-NotWorse h [] l = tt
  Least-NotWorse h (x ∷ xs) l = (not_worse h x l.0, Least-NotWorse h xs l.1)

  -- No host was added or removed between the two looks of a poll.
  abbrev pub Steady : Poll N → Type 0
  Steady p = p.copied ≡ p.seen

  by_rtt_trans :
      (a b c : BlobCacheHost N) → by_rtt N a b ≡ true → by_rtt N b c ≡ true → by_rtt N a c ≡ true
  by_rtt_trans a b c = ltb_ℤ_trans a.rtt b.rtt c.rtt

  values_nil : (hosts : Hosts N) → host_values hosts ≡ [] → is_empty N hosts ≡ true
  unfolding host_values
  values_nil [] e = refl
  values_nil ((k, h) ∷ hs) e = cc

  -- `Closest` returns a host of one of its polls whose round-trip time is not more than that of any
  -- host there; it does not go on waiting if a poll comes after the timeout; and it does not panic if no poll's map
  -- changes between its two looks.
  pub closest_lem :
      (timeout : ℕ) (polls : List (Poll N))
      → ((h : BlobCacheHost N)
          → closest N timeout polls ≡ found h
          → Any (Nearest NotFarther h) polls)
        × (Any (λ p. timeout < p.elapsed) polls → closest N timeout polls ≢ waiting)
        × (All Steady polls → closest N timeout polls ≢ panics)
  unfolding closest
  closest_lem timeout [] = (λ h e. cc, λ late e. late, λ steady e. cc)
  closest_lem timeout (p ∷ ps) =
      let (nearest, in_time, unbroken) = closest_lem timeout ps in
      elim (Bool-cases (is_empty N p.seen)) [
        | inl none_seen ↦ elim (Bool-cases (ltb timeout p.elapsed)) [
          | inl over ↦ rw (none_seen, over) (λ h e. cc, λ late e. cc, λ steady e. cc)
          | inr under ↦
              rw (none_seen, under)
                (
                  λ h e. inr (nearest h e),
                  λ late.
                      in_time (elim late [ inl now ↦ absurd (ground arith) | inr later ↦ later ]),
                  λ steady. unbroken steady.1,
                )
        ]
        | inr some_seen ↦
            elim (sort_slice_first (by_rtt N) (λ a. ltb_ℤ_irreflexive a.rtt) by_rtt_trans
              (host_values p.copied)) [
                | inl (a, rest, e, l, m) ↦
                    rw (some_seen, e)
                      (
                        λ h f.
                            let same : a ≡ h = found_injective f in
                            inl (
                              subst (λ x. Nearest NotFarther x p) same (Least-NotFarther a _ l, m)),
                        λ late f. cc,
                        λ steady f. cc,
                      )
                | inr (e, gone) ↦
                    rw (some_seen, e)
                      (
                        λ h f. cc,
                        λ late f. cc,
                        λ steady f.
                            let empty : is_empty N p.seen ≡ true =
                              subst (λ m. is_empty N m ≡ true) steady.0
                                (values_nil p.copied gone) in
                            cc,
                      )
              ]
      ]

  -- `ClosestWithCapacity` returns a host of one of its polls whose round-trip time is not more than
  -- that of any host there and, among those with the same, none with less capacity usage; it does not go on waiting if a poll comes after
  -- the timeout; and it never panics.
  pub closest_with_capacity_lem :
      (timeout : ℕ) (polls : List (Poll N))
      → ((h : BlobCacheHost N)
          → closest_with_capacity N timeout polls ≡ found h
          → Any (Nearest NotWorse h) polls)
        × (Any (λ p. timeout < p.elapsed) polls → closest_with_capacity N timeout polls ≢ waiting)
        × (closest_with_capacity N timeout polls ≢ panics)
  unfolding closest_with_capacity
  closest_with_capacity_lem timeout [] = (λ h e. cc, λ late e. late, λ e. cc)
  closest_with_capacity_lem timeout (p ∷ ps) =
      let (nearest, in_time, unbroken) = closest_with_capacity_lem timeout ps in
      elim (Bool-cases (is_empty N p.seen)) [
        | inl none_seen ↦ elim (Bool-cases (ltb timeout p.elapsed)) [
          | inl over ↦ rw (none_seen, over) (λ h e. cc, λ late e. cc, λ e. cc)
          | inr under ↦
              rw (none_seen, under)
                (
                  λ h e. inr (nearest h e),
                  λ late.
                      in_time (elim late [ inl now ↦ absurd (ground arith) | inr later ↦ later ]),
                  unbroken,
                )
        ]
        | inr some_seen ↦
            elim (sort_slice_first (by_rtt_and_capacity N) by_rtt_and_capacity_irreflexive
              by_rtt_and_capacity_trans (host_values p.copied)) [
                | inl (a, rest, e, l, m) ↦
                    rw (some_seen, e)
                      (
                        λ h f.
                            let same : a ≡ h = found_injective f in
                            inl (subst (λ x. Nearest NotWorse x p) same (Least-NotWorse a _ l, m)),
                        λ late f. cc,
                        λ f. cc,
                      )
                | inr (e, gone) ↦ rw (some_seen, e) (λ h f. cc, λ late f. cc, λ f. cc)
              ]
      ]
