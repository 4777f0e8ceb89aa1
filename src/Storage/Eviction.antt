-- ===== src/Storage/Eviction.antt =====
-- `onEvict` of pkg/storage.go, and the index entry that `Add` records.
use blobcache_v.Base.{
  ℕ, zero, suc, ◌+◌, ◌*◌, ◌/◌, ◌≤◌, ◌<◌, ◌≡◌, refl, subst, ◌∙◌, sym, ◌⊎◌, inl, inr, none, some,
  List, [], ◌∷◌, ◌++◌, arith, Bool-cases, length, Result, ok, err, ℕ_eq, ltb, All, All-append,
}
use native.Mathlib.Decide.{ℕ_discrete}
use blobcache_v.Base.Int.{pos}
use blobcache_v.Base.Texts.{Text, Lacks, join, split-join}
use blobcache_v.Backends.{Bytes, Ristretto, Disk, Forgets}
use blobcache_v.Storage.Keys.{chunk_key, IsHash, Lacks-chunk_key}
use blobcache_v.Storage.Holds.{Forgets-trans}
use blobcache_v.Storage.Adds.{mul-div_self, add_chunk-SameSettings}
use blobcache_v.Storage.Writes.{lt_of_mul-lt}
use blobcache_v.Storage.{
  Item, keys, Storage, Error, add_from, next_chunk, index_chunks, make_directory, in_directory, add,
  delete_all, evicted_keys, on_evict,
}

-- A key of a list.
abbrev pub Has : Text → List Text → Type 0
Has k [] = ⊥
Has k (t ∷ ts) = (t ≡ k) ⊎ Has k ts

Has-append_left : (k : Text) (ts us : List Text) → Has k ts → Has k (ts ++ us)
Has-append_left k [] us h = absurd h
Has-append_left k (t ∷ ts) us (inl e) = inl e
Has-append_left k (t ∷ ts) us (inr h) = inr (Has-append_left k ts us h)

Has-append_last : (k : Text) (ts : List Text) → Has k (ts ++ k ∷ [])
Has-append_last k [] = inl refl
Has-append_last k (t ∷ ts) = inr (Has-append_last k ts)

-- The chunk keys of an index entry: those of all the chunks below `k`, and none with a comma.
pub record Lists (hash : Text) (content : Bytes) (page k : ℕ) (ks : List Text) : Type 0 where
  pub plain : All (Lacks b',') ks
  pub has : (j : ℕ) → j < k → j * page < length content → Has (chunk_key hash (pos j)) ks

module _ (hash : Text) (content : Bytes) (page : ℕ) (v : IsHash hash) where
  Lists-nil : Lists hash content page 0 []
  Lists-nil = record { plain = tt; has = λ j lt within. absurd (omega arith) }

  Lists-snoc :
      (i : ℕ) (ks : List Text)
      → Lists hash content page i ks
      → Lists hash content page (suc i) (ks ++ chunk_key hash (pos i) ∷ [])
  Lists-snoc i ks l = record {
    plain =
        All-append (Lacks b',') ks _ l.plain
          (Lacks-chunk_key b',' hash i (omega arith) (omega arith) v, tt);
    has = λ j lt within. elim (ℕ_discrete j i) [
      | yes e ↦ rw e (Has-append_last (chunk_key hash (pos i)) ks)
      | no ne ↦ Has-append_left _ ks _ (l.has j (omega arith) within)
    ];
  }

ok_injective : {A : Type 0} {a b : A} → ◌≡◌ {A = Result Error A} (ok a) (ok b) → a ≡ b
ok_injective w = cc

some_injective : {A : Type 0} {a b : A} → some a ≡ some b → a ≡ b
some_injective w = cc

module _ (R : Ristretto Item) (F : Disk) where
  delete_all-Forgets :
      (ks : List Text) (c : R.State) (j : Text)
      → Forgets (R.held c j) (R.held (delete_all R F c ks) j)
  unfolding delete_all
  delete_all-Forgets [] c j = inr refl
  delete_all-Forgets (k ∷ ks) c j =
      Forgets-trans _ _ _ (R.held-del c k j) (delete_all-Forgets ks (R.del c k) j)

  delete_all-Has :
      (ks : List Text) (c : R.State) (k : Text) → Has k ks → R.held (delete_all R F c ks) k ≡ none
  unfolding delete_all
  delete_all-Has [] c k h = absurd h
  delete_all-Has (t ∷ ts) c k (inl e) =
      let gone : R.held (R.del c t) k ≡ none =
        subst (λ x. R.held (R.del c t) x ≡ none) e (R.held-del_self c t) in
      elim (delete_all-Forgets ts (R.del c t) k) [ inl x ↦ x | inr x ↦ x ∙ gone ]
  delete_all-Has (t ∷ ts) c k (inr h) = delete_all-Has ts (R.del c t) k h

  -- What `Add` returns with its loop.
  abbrev pub Indexes : Text → Bytes → ℕ → Result Error (List Text) × Storage R F → Type 0
  Indexes hash content page out =
      (ks : List Text) → out.0 ≡ ok ks → (k : ℕ) → Lists hash content page k ks

  module _ (hash : Text) (content : Bytes) (v : IsHash hash) where
    next_chunk-Indexes :
        (page : ℕ) (loop : Storage R F → Result Error (List Text) × Storage R F)
        (r : Result Error (Unit {0}) × Storage R F)
        → r.1.page_size ≡ page
        → ((cas' : Storage R F) → cas'.page_size ≡ page → Indexes hash content page (loop cas'))
        → Indexes hash content page (next_chunk R F loop r)
    next_chunk-Indexes page loop (ok u, cas') same rest = rest cas' same
    next_chunk-Indexes page loop (err e, cas') same rest = λ ks w. cc

    all_listed :
        (page i : ℕ) (ks : List Text)
        → length content ≤ i * page
        → Lists hash content page i ks
        → (k : ℕ) → Lists hash content page k ks
    all_listed page i ks over l k = record {
      plain = l.plain;
      has = λ j lt within. l.has j (lt_of_mul-lt i j page (omega arith)) within;
    }

    add_from-Indexes :
        (fuel i : ℕ) (ks : List Text) (cas : Storage R F) (page offset : ℕ)
        → cas.page_size ≡ page
        → 0 < page
        → offset ≡ i * page
        → Lists hash content page i ks
        → Indexes hash content page (add_from R F fuel hash content offset ks cas)
    unfolding add_from
    add_from-Indexes zero i ks cas page offset same positive at l = λ out w. cc
    add_from-Indexes (suc fuel) i ks cas page offset same positive at l =
        elim (Bool-cases (ltb offset (length content))) [
          | inl more ↦
              let idx : offset / cas.page_size ≡ i = rw (same, at) (mul-div_self i page positive) in
              rw (more, idx)
                (next_chunk-Indexes page
                  (add_from R F fuel hash content (offset + cas.page_size)
                    (ks ++ chunk_key hash (pos i) ∷ []))
                  _ ((add_chunk-SameSettings R F cas hash _ _).page ∙ same)
                  λ cas' same'.
                    add_from-Indexes fuel (suc i) _ cas' page (offset + cas.page_size) same'
                      positive (rw same (ground (arith, at)))
                      (Lists-snoc hash content page v i ks l))
          | inr over ↦ rw over λ out w.
              subst (λ o. (k : ℕ) → Lists hash content page k o) (ok_injective w)
                (all_listed page i ks (ground (arith, at)) l)
        ]

    -- An index entry of all chunks.
    abbrev pub Records : ℕ → Item → Type 0
    Records page item =
        (ks : List Text) × (item ≡ keys (join b',' ks)) × ((k : ℕ) → Lists hash content page k ks)

    index_chunks-Records :
        (page : ℕ) (out : Result Error (List Text) × Storage R F) (item : Item)
        → Indexes hash content page out
        → (index_chunks R F hash out).0 ≡ ok tt
        → R.held (index_chunks R F hash out).1.cache hash ≡ some item
        → Records page item
    unfolding index_chunks
    index_chunks-Records page (err e, cas) item listed ran held = cc
    index_chunks-Records page (ok ks, cas) item listed ran held =
        let chunks = join b',' ks in
        elim (R.held-set_with_ttl_self cas.cache hash (keys chunks) (length chunks)
          cas.object_ttl_s) [
            | inl gone ↦ cc
            | inr e ↦ (ks, some_injective (sym held ∙ e), listed ks refl)
          ]

    in_directory-Records :
        (page : ℕ) (store : Storage R F → Result Error (Unit {0}) × Storage R F)
        (made : Result Error (Unit {0}) × Storage R F) (item : Item)
        → made.1.page_size ≡ page
        → ((cas' : Storage R F)
            → cas'.page_size ≡ page
            → (store cas').0 ≡ ok tt
            → R.held (store cas').1.cache hash ≡ some item
            → Records page item)
        → (in_directory R F store made).0 ≡ ok tt
        → R.held (in_directory R F store made).1.cache hash ≡ some item
        → Records page item
    in_directory-Records page store (ok u, cas') item same rest ran held = rest cas' same ran held
    in_directory-Records page store (err e, cas') item same rest ran held = cc

    make_directory-page :
        (cas : Storage R F) → (make_directory R F cas hash).1.page_size ≡ cas.page_size
    unfolding make_directory
    make_directory-page cas = ground arith

    add-Records :
        (cas : Storage R F) (item : Item)
        → 0 < cas.page_size
        → (add R F cas hash content).0 ≡ ok tt
        → R.held (add R F cas hash content).1.cache hash ≡ some item
        → Records cas.page_size item
    unfolding add
    add-Records cas item positive =
        in_directory-Records cas.page_size _ (make_directory R F cas hash) item
          (make_directory-page cas)
          λ cas' same. index_chunks-Records cas.page_size _ item (
            add_from-Indexes (suc (length content)) 0 [] cas' cas.page_size 0 same positive
              (omega arith) (Lists-nil hash content cas.page_size v))

    on_evict-Records :
        (page : ℕ) (cas : Storage R F) (item : Item)
        → 0 < length content
        → Records page item
        → (cas' : Storage R F) × (on_evict R F cas item ≡ ok cas')
          × ((i : ℕ)
              → i * page < length content
              → R.held cas'.cache (chunk_key hash (pos i)) ≡ none)
    unfolding on_evict evicted_keys
    on_evict-Records page cas item nonempty ([], e, l) =
        absurd ((l 1).has 0 (omega arith) (omega arith))
    on_evict-Records page cas item nonempty (t ∷ ts, e, l) = (
      record cas { cache = delete_all R F cas.cache (t ∷ ts) },
      rw (e, split-join b',' t ts (l 0).plain) refl,
      λ i within. delete_all-Has (t ∷ ts) cas.cache _ ((l (suc i)).has i (omega arith) within),
    )

    -- After an `Add` of a content that is not empty which returned without an error, evicting the
    -- index entry of the object, if the memory cache holds one, removes every chunk of the object
    -- from the memory cache, and does not panic. (The hash consists of digits and letters and the
    -- page size is positive.)
    pub on_evict-add :
        (cas : Storage R F) (item : Item)
        → 0 < cas.page_size
        → 0 < length content
        → (add R F cas hash content).0 ≡ ok tt
        → R.held (add R F cas hash content).1.cache hash ≡ some item
        → (cas' : Storage R F) × (on_evict R F (add R F cas hash content).1 item ≡ ok cas')
          × ((i : ℕ)
              → i * cas.page_size < length content
              → R.held cas'.cache (chunk_key hash (pos i)) ≡ none)
    on_evict-add cas item positive nonempty ran held =
        on_evict-Records cas.page_size (add R F cas hash content).1 item nonempty
          (add-Records cas item positive ran held)
