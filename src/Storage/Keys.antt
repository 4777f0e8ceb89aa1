-- ===== src/Storage/Keys.antt =====
-- The keys of chunks, `fmt.Sprintf("%s-%d", hash, chunkIdx)` of pkg/storage.go.
use blobcache_v.Base.{ℕ, ◌≤◌, ◌<◌, ◌≡◌, ◌≢◌, refl, [], ◌∷◌, ◌++◌, arith, All, All-append}
use blobcache_v.Base.Int.{ℤ, pos}
use blobcache_v.Base.Texts.{
  Text, Lacks, cut_unique, decimal, decimal_injective, decimal_bounds, Lacks-of_bounds,
}
use blobcache_v.Backends.{IsName}

unfoldable pub chunk_key : Text → ℤ → Text
chunk_key hash idx = hash ++ b'-' ∷ decimal idx

-- A hash in hexadecimal digits: they all stand above `,`, `-`, `.` and `/`.
pub record IsHash (h : Text) : Type 0 where
  pub nonempty : h ≢ []
  pub digits : All (λ c. 48 ≤ c) h

pub IsHash-Lacks : (b : ℕ) (h : Text) → b < 48 → IsHash h → Lacks b h
IsHash-Lacks b h small v = Lacks-of_bounds b h small v.digits

pub chunk_key_injective :
    (h g : Text) (i j : ℤ) → IsHash h → IsHash g → chunk_key h i ≡ chunk_key g j → (h ≡ g) × (i ≡ j)
unfolding chunk_key
chunk_key_injective h g i j vh vg e =
    let cut =
      cut_unique b'-' h g _ _ (IsHash-Lacks b'-' h (omega arith) vh)
        (IsHash-Lacks b'-' g (omega arith) vg) e in
    (cut.0, decimal_injective i j cut.1)

not-Lacks-chunk_key : (h : Text) (i : ℤ) → ¬ Lacks b'-' (chunk_key h i)
unfolding chunk_key
not-Lacks-chunk_key [] i l = l.0 refl
not-Lacks-chunk_key (c ∷ cs) i l = not-Lacks-chunk_key cs i l.1

-- A chunk never takes the key of an object's index entry.
pub chunk_key-ne-hash : (h g : Text) (i : ℤ) → IsHash g → chunk_key h i ≢ g
chunk_key-ne-hash h g i vg e = not-Lacks-chunk_key h i (rw e (IsHash-Lacks b'-' g (omega arith) vg))

append-ne-nil : (h : Text) (c : ℕ) (r : Text) → h ++ c ∷ r ≢ []
append-ne-nil [] c r e = cc
append-ne-nil (x ∷ xs) c r e = cc

pub IsHash-IsName : (h : Text) → IsHash h → IsName h
IsHash-IsName h v = record {
  no_slash = IsHash-Lacks b'/' h (omega arith) v;
  no_dot = IsHash-Lacks b'.' h (omega arith) v;
  nonempty = v.nonempty;
}

-- Chunk keys lack every character below the digits but `-`.
pub Lacks-chunk_key :
    (b : ℕ) (h : Text) (i : ℕ) → b < 48 → b'-' ≢ b → IsHash h → Lacks b (chunk_key h (pos i))
unfolding chunk_key
Lacks-chunk_key b h i small ne v =
    All-append (λ c. c ≢ b) h _ (IsHash-Lacks b h small v)
      (ne, Lacks-of_bounds b _ small (decimal_bounds i))

pub chunk_key-IsName : (h : Text) (i : ℕ) → IsHash h → IsName (chunk_key h (pos i))
unfolding chunk_key
chunk_key-IsName h i v = record {
  no_slash = Lacks-chunk_key b'/' h i (omega arith) (omega arith) v;
  no_dot = Lacks-chunk_key b'.' h i (omega arith) (omega arith) v;
  nonempty = append-ne-nil h b'-' _;
}
