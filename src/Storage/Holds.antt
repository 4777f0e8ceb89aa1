-- ===== src/Storage/Holds.antt =====
-- When the memory cache and the disk hold nothing but parts of the right content under the keys of
-- an object, and the operations of pkg/storage.go on either.
use blobcache_v.Base.{
  ℕ, ◌*◌, ◌≡◌, ◌∙◌, sym, inl, inr, true, Option, some, arith, slice, ltb, if◌then◌else◌, length,
  lt→ltb, ap, sym, none, ◌<◌, ◌∙◌,
}
use mathlib.Core.Path.{subst₂}
use blobcache_v.Base.Int.{pos}
use blobcache_v.Base.Texts.{Text, text-cases}
use blobcache_v.Backends.{Bytes, Forgets, Ristretto, Disk}
use blobcache_v.Storage.Keys.{
  chunk_key, IsHash, chunk_key_injective, chunk_key-ne-hash, IsHash-IsName, chunk_key-IsName,
}
use blobcache_v.Storage.{Item, chunk, Storage}

-- The i-th chunk of a content, shorter or empty at the end.
abbrev pub chunk_at : ℕ → Bytes → ℕ → Bytes
chunk_at page content i = slice (i * page) page content

-- What the i-th chunk key may lead to: a chunk of the content, or nothing behind its end.
abbrev pub expected : ℕ → Bytes → ℕ → Option Bytes
expected page content i =
    if ltb (i * page) (length content) then some (chunk_at page content i) else none

pub expected_inside :
    (page : ℕ) (content : Bytes) (i : ℕ)
    → i * page < length content
    → expected page content i ≡ some (chunk_at page content i)
expected_inside page content i h = rw (lt→ltb (i * page) (length content) h)

abbrev pub item_of : Text → Option Bytes → Option Item
item_of hash none = none
item_of hash (some bytes) = some (chunk hash bytes)

pub Forgets-trans {ℓ} : {A : Type ℓ} (a b c : Option A) → Forgets a b → Forgets b c → Forgets a c
Forgets-trans a b c h k = ground arith

pub pos_injective : (i j : ℕ) → pos i ≡ pos j → i ≡ j
pos_injective i j e = cc

module _ (R : Ristretto Item) (F : Disk) where
  -- In memory: a chunk key of the hash holds that chunk of the content, if anything.
  abbrev pub MemoryHolds : ℕ → R.State → Text → Bytes → Type 0
  MemoryHolds page cache hash content =
      (i : ℕ)
      → Forgets (item_of hash (expected page content i)) (R.held cache (chunk_key hash (pos i)))

  -- On disk likewise.
  abbrev pub DiskHolds : ℕ → F.State → Text → Bytes → Type 0
  DiskHolds page disk hash content =
      (i : ℕ) → Forgets (expected page content i) (F.read_file disk hash (chunk_key hash (pos i)))

  pub record Holds (cas : Storage R F) (hash : Text) (content : Bytes) : Type 0 where
    pub memory : MemoryHolds cas.page_size cas.cache hash content
    pub disk : DiskHolds cas.page_size cas.disk hash content

  module _ (page : ℕ) (cache : R.State) (hash : Text) (content : Bytes)
      (m : MemoryHolds page cache hash content) where
    pub get-MemoryHolds : (k : Text) → MemoryHolds page (R.get cache k).1 hash content
    get-MemoryHolds k i = Forgets-trans _ _ _ (m i) (R.held-get cache k _)

    pub reset_ttl-MemoryHolds :
        (k : Text) (t : ℕ) → MemoryHolds page (R.reset_ttl cache k t) hash content
    reset_ttl-MemoryHolds k t i = Forgets-trans _ _ _ (m i) (R.held-reset_ttl cache k t _)

    pub del-MemoryHolds : (k : Text) → MemoryHolds page (R.del cache k) hash content
    del-MemoryHolds k i = Forgets-trans _ _ _ (m i) (R.held-del cache k _)

    -- Setting any chunk of any object to its right bytes.
    pub set-MemoryHolds :
        (g : Text) (j : ℕ) (other : Bytes) (n : ℕ)
        → IsHash hash
        → IsHash g
        → (g ≡ hash → other ≡ content)
        → j * page < length other
        → MemoryHolds page
            (R.set cache (chunk_key g (pos j)) (chunk g (chunk_at page other j)) n).1
            hash
            content
    set-MemoryHolds g j other n vh vg same inside i =
        elim (text-cases (chunk_key g (pos j)) (chunk_key hash (pos i))) [
          | inl hit ↦ hit_chunk hit (chunk_key_injective g hash (pos j) (pos i) vg vh hit)
          | inr miss ↦ Forgets-trans _ _ _ (m i) (R.held-set_ne cache _ _ n _ miss)
        ]
      where
        hit_chunk :
            chunk_key g (pos j) ≡ chunk_key hash (pos i)
            → (g ≡ hash) × (pos j ≡ pos i)
            → Forgets (item_of hash (expected page content i)) (
                R.held
                  (R.set cache (chunk_key g (pos j)) (chunk g (chunk_at page other j)) n).1
                  (chunk_key hash (pos i)))
        hit_chunk e (eh, ei) =
            let ej = pos_injective j i ei in
            let v : item_of g (expected page other j) ≡ item_of hash (expected page content i) =
              cc (eh, ej, same eh) in
            let c = (R.set cache (chunk_key g (pos j)) (chunk g (chunk_at page other j)) n).1 in
            subst₂ (λ k w. Forgets w (R.held c k)) e
              (sym (ap (item_of g) (expected_inside page other j inside)) ∙ v)
              (R.held-set_self cache (chunk_key g (pos j)) (chunk g (chunk_at page other j)) n)

    pub index-MemoryHolds :
        (g : Text) (v : Item) (n t : ℕ)
        → IsHash g
        → MemoryHolds page (R.set_with_ttl cache g v n t).1 hash content
    index-MemoryHolds g v n t vg i =
        Forgets-trans _ _ _ (m i) (
          R.held-set_with_ttl_ne cache g v n t _ (λ e. chunk_key-ne-hash hash g (pos i) vg (sym e)))

  module _ (page : ℕ) (disk : F.State) (hash : Text) (content : Bytes)
      (m : DiskHolds page disk hash content) where
    pub mkdir_all-DiskHolds : (g : Text) → DiskHolds page (F.mkdir_all disk g).1 hash content
    mkdir_all-DiskHolds g i = rw (F.read_file-mkdir_all disk g hash _) (m i)

    pub write_file-DiskHolds :
        (g : Text) (j : ℕ) (other : Bytes)
        → IsHash hash
        → IsHash g
        → (g ≡ hash → other ≡ content)
        → j * page < length other
        → (F.write_file disk g (chunk_key g (pos j)) (chunk_at page other j)).0 ≡ true
        → DiskHolds page
            (F.write_file disk g (chunk_key g (pos j)) (chunk_at page other j)).1
            hash
            content
    write_file-DiskHolds g j other vh vg same inside done i =
        elim (text-cases (chunk_key g (pos j)) (chunk_key hash (pos i))) [
          | inl hit ↦ hit_chunk hit (chunk_key_injective g hash (pos j) (pos i) vg vh hit)
          | inr miss ↦
              rw
                (F.read_file-write_file_ne disk g _ _ hash _ (IsHash-IsName g vg)
                  (chunk_key-IsName g j vg) (IsHash-IsName hash vh) (chunk_key-IsName hash i vh)
                  miss)
                (m i)
        ]
      where
        hit_chunk :
            chunk_key g (pos j) ≡ chunk_key hash (pos i)
            → (g ≡ hash) × (pos j ≡ pos i)
            → Forgets (expected page content i) (
                F.read_file
                  (F.write_file disk g (chunk_key g (pos j)) (chunk_at page other j)).1
                  hash
                  (chunk_key hash (pos i)))
        hit_chunk e (eh, ei) =
            let ej = pos_injective j i ei in
            let v : expected page other j ≡ expected page content i = cc (ej, same eh) in
            let d = (F.write_file disk g (chunk_key g (pos j)) (chunk_at page other j)).1 in
            let written =
              F.read_file-write_file_self disk g (chunk_key g (pos j)) (chunk_at page other j)
                done in
            inr (
              subst₂ (λ h k. F.read_file d h k ≡ expected page content i) eh e
                (written ∙ sym (expected_inside page other j inside) ∙ v))
