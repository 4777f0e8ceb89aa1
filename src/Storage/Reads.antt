-- ===== src/Storage/Reads.antt =====
-- What `Get` of pkg/storage.go returns where the storage holds the right content.
use blobcache_v.Base.{
  ℕ, zero, suc, ◌+◌, ◌-◌, ◌*◌, ◌/◌, ◌^◌, ◌≤◌, ◌<◌, ◌≡◌, refl, ap, subst, ◌∙◌, sym, ◌⊎◌, inl, inr,
  Bool, ◌||◌, ◌++◌, arith, length, take, drop, slice, Result, ok, err, ℕ_eq, ltb, leb, eqb,
  length-take, length-drop, drop-drop, take-append-take,
}
use Prim.Native.Nat.{min, max}
use blobcache_v.Base.Texts.{Text}
use blobcache_v.Backends.{Bytes, Ristretto, Disk}
use blobcache_v.Storage.Keys.{IsHash}
use blobcache_v.Storage.Holds.{Holds}
use blobcache_v.Storage.Copies.{write_at-append, length-write_at, write_at-nil}
use blobcache_v.Storage.Rounds.{reading, get_round_done}
use blobcache_v.Storage.Loop.{Kept, missed, ended, copied, get_round-Round}
use blobcache_v.Storage.{Item, Storage, Reading, Error, content_not_found, write_at, get_loop}

-- The bytes of a content that a read of `n` bytes at `a` can have.
abbrev pub available : Bytes → ℕ → ℕ → ℕ
available content a n = min n (length content - a)

pub length-slice :
    (content : Bytes) (a k : ℕ) → a + k ≤ length content → length (slice a k content) ≡ k
length-slice content a k h = omega (arith, length-take k (drop a content), length-drop a content)

-- Where the loop ends with every chunk on disk: at the end of the read, or of a last page that is
-- not full, or inside the last page.
abbrev pub readable : ℕ → ℕ → ℕ → ℕ → Bool
readable page size a n = leb (a + n) size || eqb n 0 || ltb (max a size / page * page) size

pub readable-copied :
    (page size a n k : ℕ)
    → k ≤ n
    → a + k ≤ size
    → readable page size (a + k) (n - k) ≡ readable page size a n
readable-copied page size a n k h fits =
    let e : max (a + k) size ≡ max a size = omega arith in rw e (ground arith)

module _ (R : Ristretto Item) (F : Disk) (hash : Text) (content : Bytes) (v : IsHash hash) where
  -- What the loop of `Get` leaves.
  pub record Delivers (cas : Storage R F) (dst : Bytes) (a n d : ℕ)
      (out : Result Error (Unit {0}) × Reading R F) : Type 0 where
    pub kept : Kept R F hash content v cas out.1.storage
    pub result :
        (out.0 ≡ err content_not_found)
        ⊎ ((out.0 ≡ ok tt)
            × (out.1.dst_offset ≡ d + available content a n)
            × (out.1.dst ≡ write_at dst d (slice a (available content a n) content)))

  Kept-refl : (cas : Storage R F) → Holds R F cas hash content → Kept R F hash content v cas cas
  Kept-refl cas h = record { holds = h; disk = refl; page = refl }

  Kept-trans :
      (c₁ c₂ c₃ : Storage R F)
      → Kept R F hash content v c₁ c₂
      → Kept R F hash content v c₂ c₃
      → Kept R F hash content v c₁ c₃
  Kept-trans c₁ c₂ c₃ h k = record {
    holds = k.holds;
    disk = k.disk ∙ h.disk;
    page = k.page ∙ h.page;
  }

  Delivers-copied :
      (cas cas' : Storage R F) (dst : Bytes) (a n d k : ℕ)
      (out : Result Error (Unit {0}) × Reading R F)
      → Kept R F hash content v cas cas'
      → k ≤ n
      → a + k ≤ length content
      → d + n ≤ length dst
      → Delivers cas' (write_at dst d (slice a k content)) (a + k) (n - k) (d + k) out
      → Delivers cas dst a n d out
  Delivers-copied cas cas' dst a n d k out kept le inside fits rest = record {
    kept = Kept-trans cas cas' _ kept rest.kept;
    result = elim rest.result [
      | inl e ↦ inl e
      | inr (e, offset, bytes) ↦ inr (e, omega arith, bytes ∙ joined)
    ];
  }
    where
      more : ℕ
      more = available content (a + k) (n - k)

      joined :
          write_at (write_at dst d (slice a k content)) (d + k) (slice (a + k) more content)
          ≡ write_at dst d (slice a (available content a n) content)
      joined =
          let size = length-slice content a k inside in
          subst
            (λ m.
              write_at (write_at dst d (slice a k content)) (d + m) (slice (a + k) more content)
              ≡ write_at dst d (slice a (available content a n) content))
            size
            (write_at-append dst d (slice a k content) (slice (a + k) more content)
                (omega (arith, size))
              ∙ ap (write_at dst d) (
                  ap (λ t. slice a k content ++ take more t)
                    (sym (drop-drop a k (a + k) content refl))
                  ∙ take-append-take k more (available content a n) (drop a content) (omega arith)))

  Delivers-ended :
      (cas cas' : Storage R F) (dst : Bytes) (a n d : ℕ)
      → Kept R F hash content v cas cas'
      → available content a n ≡ 0
      → Delivers cas dst a n d (ok tt, reading R F cas' dst a n d)
  Delivers-ended cas cas' dst a n d kept none_left = record {
    kept = kept;
    result = inr (refl, omega arith, rw none_left (sym (write_at-nil dst d)));
  }

  pub get_loop-Delivers :
      (fuel : ℕ) (cas : Storage R F) (dst : Bytes) (a n d : ℕ)
      → Holds R F cas hash content
      → 0 < cas.page_size
      → d + n ≤ length dst
      → a + n < 2 ^ 63
      → n < fuel
      → Delivers cas dst a n d (get_loop R F fuel hash (reading R F cas dst a n d))
  unfolding get_loop
  get_loop-Delivers zero cas dst a n d h positive fits small enough = absurd (omega arith)
  get_loop-Delivers (suc fuel) cas dst a zero d h positive fits small enough =
      rw (get_round_done R F cas dst a d hash)
        (Delivers-ended cas cas dst a 0 d (Kept-refl cas h) (omega arith))
  get_loop-Delivers (suc fuel) cas dst a (suc n) d h positive fits small enough =
      elim (get_round-Round R F hash content v cas dst a (suc n) d h positive (omega arith) fits
        small) [
          | missed cas' kept absent e ↦ rw e (record { kept = kept; result = inl refl })
          | ended cas' kept over inside e ↦
              rw e (Delivers-ended cas cas' dst a (suc n) d kept (omega arith))
          | copied cas' k kept some_read le inside e ↦ rw e (
              Delivers-copied cas cas' dst a (suc n) d k _ kept le inside fits (
                get_loop-Delivers fuel cas' (write_at dst d (slice a k content)) (a + k) (suc n - k)
                  (d + k) kept.holds (rw kept.page positive)
                  (omega (
                    arith,
                    length-write_at dst d (slice a k content),
                    length-slice content a k inside,
                  ))
                  (omega arith) (omega arith)))
        ]
