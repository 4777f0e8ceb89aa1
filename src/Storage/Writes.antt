-- ===== src/Storage/Writes.antt =====
-- What `Add` of pkg/storage.go leaves on disk and in memory.
use blobcache_v.Base.{
  ℕ, zero, suc, ◌+◌, ◌-◌, ◌*◌, ◌/◌, ◌^◌, ◌≤◌, ◌<◌, ◌≡◌, ◌≢◌, refl, ap, subst, ◌∙◌, sym, inl, inr,
  true, false, List, [], ◌∷◌, ◌++◌, arith, Bool-cases, length, drop, slice, Result, ok, err, ℕ_eq,
  ltb, if◌then◌else◌, ltb→lt,
}
use blobcache_v.Base.Int.{pos}
use blobcache_v.Base.Texts.{Text, join}
use blobcache_v.Backends.{Bytes, Ristretto, Disk}
use blobcache_v.Storage.Keys.{chunk_key, IsHash}
use blobcache_v.Storage.Holds.{Holds, chunk_at, index-MemoryHolds, mkdir_all-DiskHolds}
use blobcache_v.Storage.Gets.{OnDisk, get_sound, get-OnDisk}
use blobcache_v.Storage.Reads.{readable, available}
use blobcache_v.Storage.Adds.{
  slice-eq-chunk_at, mul-div_self, SameSettings, add_chunk-SameSettings, add_chunk-Holds, Below,
  add_chunk-Below, add_chunk-ends, after,
}
use blobcache_v.Storage.{
  Item, Storage, Error, write_failed, unending, keys, add_chunk, add_from, next_chunk, index_chunks,
  make_directory, in_directory, add, get,
}

le-mul : (i page : ℕ) → 0 < page → i ≤ i * page
le-mul i zero h = elim h [ ]
le-mul i (suc page) h = ground arith

le-lt : {a b c : ℕ} → a ≤ b → b < c → a < c
le-lt h k = omega arith

pub lt_of_mul-lt : (i j page : ℕ) → j * page < i * page → j < i
lt_of_mul-lt i j page h = grind arith

err_injective : {A : Type 0} {e e' : Error} → ◌≡◌ {A = Result Error A} (err e) (err e') → e ≡ e'
err_injective w = cc

pub ok-ne-err : {A : Type 0} {a : A} {e : Error} → ◌≢◌ {A = Result Error A} (ok a) (err e)
ok-ne-err w = cc

module _ (R : Ristretto Item) (F : Disk) (hash : Text) (content : Bytes) (v : IsHash hash) where
  -- What the loop of `Add` leaves, from the i-th round on.
  pub record Adds {A : Type 0} (cas : Storage R F) (i : ℕ) (out : Result Error A × Storage R F)
      : Type 0 where
    pub settings : SameSettings R F cas out.1
    pub holds :
        (g : Text) (other : Bytes)
        → IsHash g
        → (hash ≡ g → content ≡ other)
        → Holds R F cas g other
        → out.0 ≢ err write_failed
        → Holds R F out.1 g other
    pub on_disk :
        (a : A)
        → out.0 ≡ ok a
        → cas.disk_usage_exceeded ≡ false
        → Below R F hash content i cas
        → OnDisk R F hash content v out.1
    pub ends : out.0 ≢ err unending

  done_Adds :
      (cas : Storage R F) (i : ℕ) (chunk_keys : List Text)
      → length content ≤ i * cas.page_size
      → Adds cas i (ok chunk_keys, cas)
  done_Adds cas i chunk_keys over = record {
    settings = record { page = refl; exceeded = refl };
    holds = λ g other vg same h ran. h;
    on_disk =
        λ a e room below j within. below j (lt_of_mul-lt i j cas.page_size (omega arith)) within;
    ends = λ e. cc;
  }

  module _ (cas : Storage R F) (i : ℕ) (inside : i * cas.page_size < length content) where
    round : Result Error (Unit {0}) × Storage R F
    round = after R F hash content v cas i inside

    round-SameSettings : SameSettings R F cas round.1
    unfolding round
    round-SameSettings = add_chunk-SameSettings R F cas _ _ _

    failed_Adds : (e : Error) → round.0 ≡ err e → Adds {A = List Text} cas i (err e, round.1)
    unfolding round
    failed_Adds e failed = record {
      settings = add_chunk-SameSettings R F cas _ _ _;
      holds = λ g other vg same h ran.
          add_chunk-Holds R F hash content v cas i inside g other vg same h (λ w.
            ran (let same : e ≡ write_failed = err_injective (sym failed ∙ w) in ap err same));
      on_disk = λ a w. cc;
      ends = λ w.
          add_chunk-ends R F hash content v cas i inside
            (let same : e ≡ unending = err_injective w in failed ∙ ap err same);
    }

    then_Adds :
        (out : Result Error (List Text) × Storage R F)
        → round.0 ≡ ok tt
        → Adds round.1 (suc i) out
        → Adds cas i out
    unfolding round
    then_Adds out ran rest =
        let s =
          add_chunk-SameSettings R F cas hash (chunk_key hash (pos i))
            (chunk_at cas.page_size content i) in
        record {
          settings = record {
            page = rest.settings.page ∙ s.page;
            exceeded = rest.settings.exceeded ∙ s.exceeded;
          };
          holds = λ g other vg same h fine.
              rest.holds g other vg same
                (add_chunk-Holds R F hash content v cas i inside g other vg same h (λ w. cc)) fine;
          on_disk = λ a w room below.
              rest.on_disk a w (s.exceeded ∙ room)
                (add_chunk-Below R F hash content v cas i inside ran room below);
          ends = rest.ends;
        }

  step :
      (i : ℕ) (loop : Storage R F → Result Error (List Text) × Storage R F) (cas : Storage R F)
      (inside : i * cas.page_size < length content) (r : Result Error (Unit {0}) × Storage R F)
      → r ≡ round cas i inside
      → ((cas' : Storage R F) → SameSettings R F cas cas' → Adds cas' (suc i) (loop cas'))
      → Adds cas i (next_chunk R F loop r)
  step i loop cas inside (ok u, cas') e rest =
      then_Adds cas i inside (loop cas') (sym (ap (λ p. p.0) e)) (
        subst (λ c. Adds c (suc i) (loop cas')) (ap (λ p. p.1) e)
          (rest cas' (
            subst (λ c. SameSettings R F cas c) (sym (ap (λ p. p.1) e))
              (round-SameSettings cas i inside))))
  step i loop cas inside (err x, cas') e rest =
      subst (λ c. Adds {A = List Text} cas i (err x, c)) (sym (ap (λ p. p.1) e))
        (failed_Adds cas i inside x (sym (ap (λ p. p.0) e)))

  round_at :
      (i offset : ℕ) (cas : Storage R F) (inside : i * cas.page_size < length content)
      → offset ≡ i * cas.page_size
      → 0 < cas.page_size
      → let end =
          if ltb (length content) (offset + cas.page_size)
          then length content
          else offset + cas.page_size in
        add_chunk R F cas hash
          (chunk_key hash (pos (offset / cas.page_size)))
          (slice offset (end - offset) content)
        ≡ round cas i inside
  unfolding round
  round_at i offset cas inside at positive =
      rw (slice-eq-chunk_at cas.page_size content offset)
        (rw at (rw (mul-div_self i cas.page_size positive) refl))

  pub add_from-Adds :
      (fuel i : ℕ) (chunk_keys : List Text) (cas : Storage R F) (offset : ℕ)
      → offset ≡ i * cas.page_size
      → 0 < cas.page_size
      → i ≤ length content
      → length content < i + fuel
      → Adds cas i (add_from R F fuel hash content offset chunk_keys cas)
  unfolding add_from
  add_from-Adds zero i chunk_keys cas offset at positive begun enough = absurd (omega arith)
  add_from-Adds (suc fuel) i chunk_keys cas offset at positive begun enough =
      elim (Bool-cases (ltb offset (length content))) [
        | inl more ↦ rw more (
            step i
              (add_from R F fuel hash content (offset + cas.page_size)
                (chunk_keys ++ chunk_key hash (pos (offset / cas.page_size)) ∷ []))
              cas (subst (λ o. o < length content) at (ltb→lt _ _ more)) _
              (round_at i offset cas _ at positive)
              λ cas' s.
                add_from-Adds fuel (suc i) _ cas' (offset + cas.page_size)
                  (let e = s.page in rw e (ground (arith, at))) (rw (s.page) positive)
                  (le-lt (le-mul i cas.page_size positive)
                    (subst (λ o. o < length content) at (ltb→lt _ _ more)))
                  (omega arith))
        | inr over ↦ rw over (done_Adds cas i chunk_keys (ground (arith, at)))
      ]

  index_chunks-Adds :
      (cas : Storage R F) (i : ℕ) (out : Result Error (List Text) × Storage R F)
      → Adds cas i out
      → Adds cas i (index_chunks R F hash out)
  unfolding index_chunks
  index_chunks-Adds cas i (err e, cas') t = record {
    settings = t.settings;
    holds =
        λ g other vg same h ran. t.holds g other vg same h (λ w. ran (ap err (err_injective w)));
    on_disk = λ a w. cc;
    ends = λ w. t.ends (ap err (err_injective w));
  }
  index_chunks-Adds cas i (ok chunk_keys, cas') t = record {
    settings = record { page = t.settings.page; exceeded = t.settings.exceeded };
    holds = λ g other vg same h ran.
        let held = t.holds g other vg same h (λ w. cc) in
        record {
          memory =
              index-MemoryHolds R F _ _ _ _ held.memory hash (keys (join b',' chunk_keys)) _ _ v;
          disk = held.disk;
        };
    on_disk = λ a w room below. t.on_disk chunk_keys refl room below;
    ends = λ w. ground arith;
  }

  in_directory-Adds :
      (cas : Storage R F) (store : Storage R F → Result Error (Unit {0}) × Storage R F)
      (made : Result Error (Unit {0}) × Storage R F)
      → SameSettings R F cas made.1
      → ((g : Text) (other : Bytes) → Holds R F cas g other → Holds R F made.1 g other)
      → made.0 ≢ err unending
      → ((cas' : Storage R F) → SameSettings R F cas cas' → Adds cas' 0 (store cas'))
      → Adds cas 0 (in_directory R F store made)
  in_directory-Adds cas store (err e, cas') same keeps ends rest = record {
    settings = same;
    holds = λ g other vg same h ran. keeps g other h;
    on_disk = λ a w room below. cc;
    ends = ends;
  }
  in_directory-Adds cas store (ok u, cas') same keeps ends rest =
      let s = rest cas' same in
      record {
        settings = record {
          page = s.settings.page ∙ same.page;
          exceeded = s.settings.exceeded ∙ same.exceeded;
        };
        holds = λ g other vg same h ran. s.holds g other vg same (keeps g other h) ran;
        on_disk = λ a w room below.
            s.on_disk a w (same.exceeded ∙ room) (λ j lt within. absurd (omega arith));
        ends = s.ends;
      }

  module _ (cas : Storage R F) (positive : 0 < cas.page_size) where
    abbrev made : Result Error (Unit {0}) × Storage R F
    made = make_directory R F cas hash

    made-ends : made.0 ≢ err unending
    unfolding make_directory
    made-ends = ground arith

    made-settings : SameSettings R F cas made.1
    unfolding make_directory
    made-settings = record { page = ground arith; exceeded = ground arith }

    made-Holds : (g : Text) (other : Bytes) → Holds R F cas g other → Holds R F made.1 g other
    unfolding make_directory
    made-Holds g other h = record {
      memory = rw made-settings.page λ j. ground (arith, h.memory j);
      disk =
          rw made-settings.page
            λ j. ground (arith, h.disk j, mkdir_all-DiskHolds R F _ _ _ _ h.disk hash j);
    }

    add-Adds : Adds cas 0 (add R F cas hash content)
    unfolding add
    add-Adds = in_directory-Adds cas _ made made-settings made-Holds made-ends λ cas' same.
        index_chunks-Adds cas' 0 _ (
          add_from-Adds (suc (length content)) 0 [] cas' 0 (omega arith) (rw (same.page) positive)
            (omega arith) (omega arith))

    -- `Add` keeps every object that was held right held right, an object of the same hash if its
    -- content is the one added, also where it returns an error, unless that is of a failed write
    -- to disk. (The hashes consist of digits and letters and the page size is positive.)
    pub add-Holds :
        (g : Text) (other : Bytes)
        → IsHash g
        → (hash ≡ g → content ≡ other)
        → Holds R F cas g other
        → (add R F cas hash content).0 ≢ err write_failed
        → Holds R F (add R F cas hash content).1 g other
    add-Holds g other vg same h ran = add-Adds.holds g other vg same h ran

    -- `Add` runs its loop to the end; if it returns without an error while the disk has room, then
    -- every chunk of the content is on disk, whatever the memory cache held before. (The hash
    -- consists of digits and letters and the page size is positive.)
    pub add-OnDisk :
        (add R F cas hash content).0 ≢ err unending
        × ((add R F cas hash content).0 ≡ ok tt
            → cas.disk_usage_exceeded ≡ false
            → OnDisk R F hash content v (add R F cas hash content).1)
    add-OnDisk =
        (add-Adds.ends, λ w room. add-Adds.on_disk tt w room (λ j lt within. absurd (omega arith)))

    pub add-page : (add R F cas hash content).1.page_size ≡ cas.page_size
    add-page = add-Adds.settings.page

    readable_inside :
        (a n : ℕ)
        → a + n ≤ length content
        → 0 < n
        → readable cas.page_size (length content) a n ≡ true
    readable_inside a n inside some_left = ground arith

    -- A round trip: after an `Add` that returns without an error while the disk has room, `Get` of
    -- a range within the content returns its length and those bytes at the start of the
    -- destination, which is else as it was. (The hash consists of digits and letters and the page
    -- size is positive; what was cached of the hash before is right, the range is not empty, its
    -- end fits an int64, and the destination has room.)
    pub get-add :
        (a n : ℕ) (dst : Bytes) (now : ℕ)
        → Holds R F cas hash content
        → (add R F cas hash content).0 ≡ ok tt
        → cas.disk_usage_exceeded ≡ false
        → 0 < n
        → a + n ≤ length content
        → n ≤ length dst
        → a + n < 2 ^ 63
        → let (result, dst', cas') =
            get R F (add R F cas hash content).1 hash (pos a) (pos n) dst now in
          (result ≡ ok n) × (dst' ≡ slice a n content ++ drop n dst)
    get-add a n dst now h ran room some_left inside fits small =
        let cas' = (add R F cas hash content).1 in
        let h' = add-Adds.holds hash content v (λ e. refl) h (λ w. cc) in
        let positive' : 0 < cas'.page_size = rw (add-Adds.settings.page) positive in
        let whole : available content a n ≡ n = omega arith in
        let bytes = get_sound R F hash content v cas' a n dst now h' positive' fits small in
        let result =
          get-OnDisk R F hash content v cas' a n dst now h' positive' fits small
            (add-OnDisk.1 ran room) in
        let inside' : readable cas'.page_size (length content) a n ≡ true =
          subst (λ p. readable p (length content) a n ≡ true) (sym add-Adds.settings.page)
            (readable_inside a n inside some_left) in
        let returns : (get R F cas' hash (pos a) (pos n) dst now).0 ≡ ok n =
          result ∙ (rw inside' (ap ok whole)) in
        (
          returns,
          elim bytes.1 [
            | inl missing ↦ absurd (ok-ne-err (sym returns ∙ missing))
            | inr (e, copied) ↦ copied ∙ ap (λ m. slice a m content ++ drop m dst) whole
          ],
        )
