-- ===== src/Backends.antt =====
-- What the content store (pkg/storage.go) uses and does not implement: the ristretto cache and the
-- directory of cached chunks on disk. Both are records of operations with the documented laws.
pub mod Plain
use blobcache_v.Base.{ℕ, ◌≡◌, ◌≢◌, ◌⊎◌, Bool, true, Option, none, some, List, [], refl, inl, inr}
use blobcache_v.Base.Texts.{Text, Lacks}

abbrev pub Bytes : Type 0
Bytes = List ℕ

-- A cache may drop what it holds, and may not change it.
abbrev pub Forgets {ℓ} : {A : Type ℓ} → Option A → Option A → Type ℓ
Forgets before after = (after ≡ none) ⊎ (after ≡ before)

pub Forgets-refl {ℓ} : {A : Type ℓ} (a : Option A) → Forgets a a
Forgets-refl a = inr refl

-- ristretto: a bounded cache that may refuse an entry, and may evict any entry at any time, so
-- that `get` may miss what was set. `held` is the last value set under a key that is still there;
-- it is used by the laws, and no operation of the program reads it.
pub record Ristretto (V : Type 0) : Type 1 where
  pub State : Type 0
  pub held : State → Text → Option V
  pub get : State → Text → Option V × State
  pub get_ttl : State → Text → Bool
  pub set : State → Text → V → ℕ → Bool × State
  pub set_with_ttl : State → Text → V → ℕ → ℕ → Bool × State
  pub reset_ttl : State → Text → ℕ → State
  pub del : State → Text → State
  -- `get` returns a value that the key holds, or misses.
  pub get-held : (c : State) (k : Text) → Forgets (held c k) (get c k).0
  -- `get` and `reset_ttl` change no value.
  pub held-get : (c : State) (k j : Text) → Forgets (held c j) (held (get c k).1 j)
  pub held-reset_ttl :
      (c : State) (k : Text) (t : ℕ) (j : Text) → Forgets (held c j) (held (reset_ttl c k t) j)
  -- After `set` the key holds the new value, if anything; the other keys keep theirs or lose them.
  pub held-set_self :
      (c : State) (k : Text) (v : V) (n : ℕ) → Forgets (some v) (held (set c k v n).1 k)
  pub held-set_ne :
      (c : State) (k : Text) (v : V) (n : ℕ) (j : Text)
      → k ≢ j
      → Forgets (held c j) (held (set c k v n).1 j)
  pub held-set_with_ttl_self :
      (c : State) (k : Text) (v : V) (n t : ℕ)
      → Forgets (some v) (held (set_with_ttl c k v n t).1 k)
  pub held-set_with_ttl_ne :
      (c : State) (k : Text) (v : V) (n t : ℕ) (j : Text)
      → k ≢ j
      → Forgets (held c j) (held (set_with_ttl c k v n t).1 j)
  -- `del` removes the key.
  pub held-del_self : (c : State) (k : Text) → held (del c k) k ≡ none
  pub held-del : (c : State) (k j : Text) → Forgets (held c j) (held (del c k) j)

-- A name that `filepath.Join` leaves as it is.
pub record IsName (t : Text) : Type 0 where
  pub no_slash : Lacks b'/' t
  pub no_dot : Lacks b'.' t
  pub nonempty : t ≢ []

-- The files under `diskCacheDir`: the first text names a directory there, the second a file in it.
-- `read_file` stands for `os.Open` followed by `os.ReadFile`, with `none` for either's error, and
-- `is_dir` for `os.Stat`. A write that fails may leave anything in the file that it was to write.
pub record Disk : Type 1 where
  pub State : Type 0
  pub mkdir_all : State → Text → Bool × State
  pub write_file : State → Text → Text → Bytes → Bool × State
  pub read_file : State → Text → Text → Option Bytes
  pub is_dir : State → Text → Option Bool
  pub read_file-mkdir_all :
      (d : State) (h g k : Text) → read_file (mkdir_all d h).1 g k ≡ read_file d g k
  pub read_file-write_file_self :
      (d : State) (h k : Text) (b : Bytes)
      → (write_file d h k b).0 ≡ true
      → read_file (write_file d h k b).1 h k ≡ some b
  pub read_file-write_file_ne :
      (d : State) (h k : Text) (b : Bytes) (g j : Text)
      → IsName h
      → IsName k
      → IsName g
      → IsName j
      → k ≢ j
      → read_file (write_file d h k b).1 g j ≡ read_file d g j
