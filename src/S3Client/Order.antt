-- ===== src/S3Client/Order.antt =====
-- The order in which the chunks of pkg/s3_client.go arrive.
use blobcache_v.Base.{
  ℕ, zero, suc, ◌+◌, ◌≤◌, ◌<◌, ◌≡◌, ◌≢◌, refl, ap, subst, ◌∙◌, sym, ◌⊎◌, inl, inr, Option, none,
  some, List, [], ◌∷◌, ◌++◌, map, append_assoc, append-nil, arith, length, get_elem?, replicate,
  Result, ok, err, ℕ_eq, All, concat, length-replicate,
}
use native.Mathlib.Decide.{ℕ_discrete}
use blobcache_v.Base.Int.{pos, negsuc, pos_part}
use blobcache_v.Base.Texts.{Text}
use blobcache_v.Backends.{Bytes}
use blobcache_v.S3Client.{
  S3Client, Reply, DownloadError, negative_channel_size, num_chunks, set_chunk, collect, written,
  fetched, download_into_buffer,
}

some_injective : {A : Type 0} {a b : A} → some a ≡ some b → a ≡ b
some_injective e = cc

-- Each of the first `n` chunks arrives, and no other.
abbrev pub Arrives : ℕ → List ℕ → Type 0
Arrives j [] = ⊥
Arrives j (i ∷ is) = (i ≡ j) ⊎ Arrives j is

pub record Complete (n : ℕ) (arrivals : List ℕ) : Type 0 where
  pub all : (j : ℕ) → j < n → Arrives j arrivals
  pub only : All (λ i. i < n) arrivals

-- The reference: the chunks one after another, up to the first that fails.
abbrev append_to : Bytes → Option Bytes → Option Bytes
append_to bytes none = none
append_to bytes (some rest) = some (bytes ++ rest)

abbrev and_then : Result Text Bytes → Option Bytes → Option Bytes
and_then (err e) rest = none
and_then (ok bytes) rest = append_to bytes rest

unfoldable pub sequential : (ℕ → Result Text Bytes) → ℕ → ℕ → Option Bytes
sequential f i zero = some []
sequential f i (suc n) = and_then (f i) (sequential f (suc i) n)

abbrev pub downloaded : Result DownloadError Bytes → Option Bytes
downloaded (ok bytes) = some bytes
downloaded (err e) = none

abbrev value : Result Text Bytes → Bytes
value (ok bytes) = bytes
value (err e) = []

values : (ℕ → Result Text Bytes) → ℕ → ℕ → List Bytes
values f i zero = []
values f i (suc n) = value (f i) ∷ values f (suc i) n

length-set_chunk : (cs : List Bytes) (i : ℕ) (b : Bytes) → length (set_chunk cs i b) ≡ length cs
length-set_chunk [] i b = refl
length-set_chunk (c ∷ cs) zero b = refl
length-set_chunk (c ∷ cs) (suc i) b = ap suc (length-set_chunk cs i b)

get_elem?-set_chunk_self :
    (cs : List Bytes) (i : ℕ) (b : Bytes) → i < length cs → get_elem? (set_chunk cs i b) i ≡ some b
get_elem?-set_chunk_self [] i b h = absurd (omega arith)
get_elem?-set_chunk_self (c ∷ cs) zero b h = refl
get_elem?-set_chunk_self (c ∷ cs) (suc i) b h = get_elem?-set_chunk_self cs i b (omega arith)

get_elem?-set_chunk_ne :
    (cs : List Bytes) (i j : ℕ) (b : Bytes)
    → i ≢ j
    → get_elem? (set_chunk cs i b) j ≡ get_elem? cs j
get_elem?-set_chunk_ne [] i j b h = refl
get_elem?-set_chunk_ne (c ∷ cs) zero zero b h = absurd (h refl)
get_elem?-set_chunk_ne (c ∷ cs) zero (suc j) b h = refl
get_elem?-set_chunk_ne (c ∷ cs) (suc i) zero b h = refl
get_elem?-set_chunk_ne (c ∷ cs) (suc i) (suc j) b h =
    get_elem?-set_chunk_ne cs i j b (λ e. h (ap suc e))

list_ext :
    (xs ys : List Bytes)
    → length xs ≡ length ys
    → ((j : ℕ) → j < length ys → get_elem? xs j ≡ get_elem? ys j)
    → xs ≡ ys
list_ext [] [] e h = refl
list_ext [] (y ∷ ys) e h = absurd (omega (arith, e))
list_ext (x ∷ xs) [] e h = absurd (omega (arith, e))
list_ext (x ∷ xs) (y ∷ ys) e h =
    let first : x ≡ y = some_injective (h 0 (omega arith)) in
    let rest = list_ext xs ys (omega (arith, e)) (λ j lt. h (suc j) (omega arith)) in cc

abbrev error_of : Result Text Bytes → List Text
error_of (ok bytes) = []
error_of (err e) = e ∷ []

collect_nil : (cs : List Bytes) (errs : List Text) → collect [] cs errs ≡ (cs, errs)
unfolding collect
collect_nil cs errs = refl

collect_cons :
    (i : ℕ) (r : Result Text Bytes) (rs : List (ℕ × Result Text Bytes)) (cs : List Bytes)
    (errs : List Text)
    → collect ((i, r) ∷ rs) cs errs ≡ collect rs (set_chunk cs i (value r)) (errs ++ error_of r)
unfolding collect
collect_cons i (ok b) rs cs errs = rw (append-nil errs) refl
collect_cons i (err e) rs cs errs = refl

append_nil_left : (xs ys : List Text) → xs ++ ys ≡ [] → xs ≡ []
append_nil_left [] ys e = refl
append_nil_left (x ∷ xs) ys e = cc

append_nil_right : (xs ys : List Text) → xs ++ ys ≡ [] → ys ≡ []
append_nil_right [] ys e = e
append_nil_right (x ∷ xs) ys e = cc

module _ (f : ℕ → Result Text Bytes) where
  length-values : (i n : ℕ) → length (values f i n) ≡ n
  unfolding values
  length-values i zero = refl
  length-values i (suc n) = ap suc (length-values (suc i) n)

  get_elem?-values : (i n j : ℕ) → j < n → get_elem? (values f i n) j ≡ some (value (f (i + j)))
  unfolding values
  get_elem?-values i zero j h = absurd (omega arith)
  get_elem?-values i (suc n) zero h = let e : i + zero ≡ i = omega arith in rw e refl
  get_elem?-values i (suc n) (suc j) h =
      let e : i + suc j ≡ suc i + j = omega arith in
      rw e (get_elem?-values (suc i) n j (omega arith))

  abbrev results : List ℕ → List (ℕ × Result Text Bytes)
  results = map (λ i. (i, f i))

  -- The array of the chunks, whatever fails
  fill : List ℕ → List Bytes → List Bytes
  fill [] cs = cs
  fill (i ∷ is) cs = fill is (set_chunk cs i (value (f i)))

  length-fill : (is : List ℕ) (cs : List Bytes) → length (fill is cs) ≡ length cs
  unfolding fill
  length-fill [] cs = refl
  length-fill (i ∷ is) cs = length-fill is _ ∙ length-set_chunk cs i (value (f i))

  fill_kept :
      (is : List ℕ) (cs : List Bytes) (j : ℕ) (b : Bytes)
      → j < length cs
      → get_elem? cs j ≡ some b
      → b ≡ value (f j)
      → get_elem? (fill is cs) j ≡ some (value (f j))
  unfolding fill
  fill_kept [] cs j b lt e v = e ∙ ap some v
  fill_kept (i ∷ is) cs j b lt e v = elim (ℕ_discrete i j) [
    | yes same ↦
        fill_kept is (set_chunk cs i (value (f i))) j (value (f j))
          (rw (length-set_chunk cs i (value (f i))) lt)
          (rw same (get_elem?-set_chunk_self cs j (value (f j)) lt)) refl
    | no other ↦
        fill_kept is (set_chunk cs i (value (f i))) j b
          (rw (length-set_chunk cs i (value (f i))) lt)
          (get_elem?-set_chunk_ne cs i j (value (f i)) other ∙ e) v
  ]

  fill_arrived :
      (is : List ℕ) (cs : List Bytes) (j : ℕ)
      → j < length cs
      → Arrives j is
      → get_elem? (fill is cs) j ≡ some (value (f j))
  unfolding fill
  fill_arrived [] cs j lt a = absurd a
  fill_arrived (i ∷ is) cs j lt (inl same) =
      fill_kept is (set_chunk cs i (value (f i))) j (value (f j))
        (rw (length-set_chunk cs i (value (f i))) lt)
        (rw same (get_elem?-set_chunk_self cs j (value (f j)) lt)) refl
  fill_arrived (i ∷ is) cs j lt (inr later) =
      fill_arrived is (set_chunk cs i (value (f i))) j (rw (length-set_chunk cs i (value (f i))) lt)
        later

  fill-values : (n : ℕ) (is : List ℕ) → Complete n is → fill is (replicate n []) ≡ values f 0 n
  fill-values n is c =
      list_ext (fill is (replicate n [])) (values f 0 n)
        (length-fill is (replicate n []) ∙ length-replicate n [] ∙ sym (length-values 0 n))
        λ j lt.
          let below : j < n = omega (arith, length-values 0 n) in
          let e : 0 + j ≡ j = omega arith in
          fill_arrived is (replicate n []) j (rw (length-replicate {A = Bytes} n []) below)
            (c.all j below)
          ∙ sym (get_elem?-values 0 n j below ∙ ap (λ k. some (value (f k))) e)

  errors : List ℕ → List Text
  errors [] = []
  errors (i ∷ is) = error_of (f i) ++ errors is

  collect-fill :
      (is : List ℕ) (cs : List Bytes) (errs : List Text)
      → collect (results is) cs errs ≡ (fill is cs, errs ++ errors is)
  unfolding fill errors
  collect-fill [] cs errs = collect_nil cs errs ∙ ap (λ es. (cs, es)) (sym (append-nil errs))
  collect-fill (i ∷ is) cs errs =
      collect_cons i (f i) (results is) cs errs
      ∙ collect-fill is (set_chunk cs i (value (f i))) (errs ++ error_of (f i))
      ∙ ap (λ es. (fill is (set_chunk cs i (value (f i))), es))
          (append_assoc errs (error_of (f i)) (errors is))

  abbrev IsOk : ℕ → Type 0
  IsOk j = error_of (f j) ≡ []

  errors_none : (is : List ℕ) → All IsOk is → errors is ≡ []
  unfolding errors
  errors_none [] h = refl
  errors_none (i ∷ is) h = rw (h.0) (errors_none is h.1)

  errors_some : (is : List ℕ) (j : ℕ) → Arrives j is → ¬ IsOk j → errors is ≢ []
  unfolding errors
  errors_some [] j a failed e = a
  errors_some (i ∷ is) j (inl same) failed e =
      failed (subst IsOk same (append_nil_left (error_of (f i)) (errors is) e))
  errors_some (i ∷ is) j (inr later) failed e =
      errors_some is j later failed (append_nil_right (error_of (f i)) (errors is) e)

  -- The reference either fails at a chunk, or is the chunks together.
  sequential-cases :
      (i n : ℕ)
      → ((sequential f i n ≡ some (concat (values f i n))) × ((j : ℕ) → i ≤ j → j < i + n → IsOk j))
        ⊎ ((sequential f i n ≡ none) × ((j : ℕ) × (j < i + n) × (¬ IsOk j)))
  unfolding sequential values
  sequential-cases i zero = inl (refl, λ j le lt. absurd (omega arith))
  sequential-cases i (suc n) = go (f i) refl (sequential-cases (suc i) n)
    where
      go :
          (r : Result Text Bytes)
          → f i ≡ r
          → (((sequential f (suc i) n ≡ some (concat (values f (suc i) n)))
                × ((j : ℕ) → suc i ≤ j → j < suc i + n → IsOk j))
              ⊎ ((sequential f (suc i) n ≡ none) × ((j : ℕ) × (j < suc i + n) × (¬ IsOk j))))
          → ((sequential f i (suc n) ≡ some (concat (values f i (suc n))))
              × ((j : ℕ) → i ≤ j → j < i + suc n → IsOk j))
            ⊎ ((sequential f i (suc n) ≡ none) × ((j : ℕ) × (j < i + suc n) × (¬ IsOk j)))
      go (err x) e rest = inr (rw e refl, (i, omega arith, λ good. cc))
      go (ok b) e (inl (s, good)) = inl (
        rw (e, s) refl,
        λ j le lt. elim (ℕ_discrete i j) [
          | yes same ↦ subst IsOk same (ap error_of e)
          | no other ↦ good j (omega arith) (omega arith)
        ],
      )
      go (ok b) e (inr (s, (j, lt, bad))) = inr (rw (e, s) refl, (j, omega arith, bad))

  written_ok :
      (chunks : List Bytes) (errs : List Text)
      → errs ≡ []
      → written (chunks, errs) ≡ ok (concat chunks)
  written_ok chunks [] e = refl
  written_ok chunks (x ∷ xs) e = cc

  written_failed :
      (chunks : List Bytes) (errs : List Text)
      → errs ≢ []
      → downloaded (written (chunks, errs)) ≡ none
  written_failed chunks [] e = absurd (e refl)
  written_failed chunks (x ∷ xs) e = refl

  collected :
      (n : ℕ) (is : List ℕ)
      → Complete n is
      → downloaded (written (collect (results is) (replicate n []) [])) ≡ sequential f 0 n
  collected n is c = rw (collect-fill is (replicate n []) []) (elim (sequential-cases 0 n) [
    | inl (s, good) ↦
        ap downloaded (
          written_ok (fill is (replicate n [])) (errors is)
            (errors_none is (all_ok is c.only good)))
        ∙ ap (λ cs. some (concat cs)) (fill-values n is c)
        ∙ sym s
    | inr (s, (j, lt, bad)) ↦
        written_failed (fill is (replicate n [])) (errors is)
          (errors_some is j (c.all j (omega (arith, lt))) bad)
        ∙ sym s
  ])
    where
      all_ok :
          (js : List ℕ) → All (λ i. i < n) js → ((j : ℕ) → 0 ≤ j → j < 0 + n → IsOk j) → All IsOk js
      all_ok [] a good = tt
      all_ok (j ∷ js) a good = (good j (omega arith) (omega (arith, a.0)), all_ok js a.1 good)

-- The reference for a whole object
abbrev pub downloaded_in_order : S3Client → ℕ → (ℕ → ℕ → Reply) → Option Bytes
downloaded_in_order client size get_object =
    sequential (fetched get_object size client.download_chunk_size) 0
      (pos_part (num_chunks size client.download_chunk_size))

-- For an object that is not empty, if the number of chunks that the client computes is not negative,
-- then in whatever order its chunks arrive, the download succeeds exactly when requesting the chunks
-- one after another does, and with the same bytes. If that number is negative, the download panics.
pub download_into_buffer_lem :
    (client : S3Client) (size : ℕ) (get_object : ℕ → ℕ → Reply) (arrivals : List ℕ)
    → 0 < size
    → ((n : ℕ)
        → num_chunks size client.download_chunk_size ≡ pos n
        → Complete n arrivals
        → downloaded (download_into_buffer client (ok (pos size)) get_object arrivals)
          ≡ downloaded_in_order client size get_object)
      × ((n : ℕ)
          → num_chunks size client.download_chunk_size ≡ negsuc n
          → download_into_buffer client (ok (pos size)) get_object arrivals
            ≡ err negative_channel_size)
unfolding download_into_buffer
download_into_buffer_lem client zero get_object arrivals some_size = absurd (omega arith)
download_into_buffer_lem client (suc size) get_object arrivals some_size = (
  λ n e c. rw e (collected (fetched get_object (suc size) client.download_chunk_size) n arrivals c),
  λ n e. rw e refl,
)
