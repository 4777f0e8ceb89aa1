-- ===== src/Storage/Copies.antt =====
-- Successive copies into the destination of `Get` (pkg/storage.go).
use blobcache_v.Base.{
  ℕ, ◌+◌, ◌-◌, ◌*◌, ◌/◌, ◌%◌, ◌≤◌, ◌≡◌, refl, ap, subst, ◌∙◌, sym, [], ◌++◌, append_assoc, arith,
  length, take, drop, slice, ℕ_eq, length-append, length-take, length-drop, take-append-drop,
  drop-drop, take-take, drop-take, take-append_left, drop-append_left,
}
use Prim.Native.Nat.{min}
use native.Mathlib.Nat.{div-add-mod}
use blobcache_v.Backends.{Bytes}
use blobcache_v.Storage.Holds.{chunk_at}
use blobcache_v.Storage.{write_at}

pub write_at-append :
    (dst : Bytes) (d : ℕ) (xs ys : Bytes)
    → d + length xs ≤ length dst
    → write_at (write_at dst d xs) (d + length xs) ys ≡ write_at dst d (xs ++ ys)
write_at-append dst d xs ys fits =
    let front = take d dst ++ xs in
    let rest = drop (d + length xs) dst in
    let size : length front ≡ d + length xs =
      omega (arith, length-append (take d dst) xs, length-take d dst) in
    let split : take d dst ++ (xs ++ rest) ≡ front ++ rest =
      sym (append_assoc (take d dst) xs rest) in
    let head : take (d + length xs) (front ++ rest) ≡ front =
      subst (λ n. take n (front ++ rest) ≡ front) size (take-append_left front rest) in
    let tail : drop (d + length xs + length ys) (front ++ rest) ≡ drop (d + length (xs ++ ys)) dst =
      sym (drop-drop (d + length xs) (length ys) _ (front ++ rest) refl)
      ∙ ap (drop (length ys))
          (subst (λ n. drop n (front ++ rest) ≡ rest) size (drop-append_left front rest))
      ∙ drop-drop (d + length xs) (length ys) _ dst (omega (arith, length-append xs ys)) in
    rw split (rw head (rw tail (simp append_assoc)))

pub length-write_at :
    (dst : Bytes) (d : ℕ) (xs : Bytes)
    → d + length xs ≤ length dst
    → length (write_at dst d xs) ≡ length dst
length-write_at dst d xs fits = omega (
  arith,
  length-append (take d dst) (xs ++ drop (d + length xs) dst),
  length-append xs (drop (d + length xs) dst),
  length-take d dst,
  length-drop (d + length xs) dst,
)

pub write_at-nil : (dst : Bytes) (d : ℕ) → write_at dst d [] ≡ dst
write_at-nil dst d = let e : d + 0 ≡ d = omega arith in rw e (take-append-drop d dst)

-- The slices of a chunk are slices of the content.
pub slice-chunk_at :
    (page : ℕ) (content : Bytes) (a k : ℕ)
    → a % page + k ≤ page
    → slice (a % page) k (chunk_at page content (a / page)) ≡ slice a k content
slice-chunk_at page content a k fits =
    let start = a % page in
    let first = a / page * page in
    let whole : first + start ≡ a = omega (arith, div-add-mod a page) in
    let rest : start + (page - start) ≡ page = omega arith in
    ap (take k) (drop-take start (page - start) page (drop first content) rest)
    ∙ take-take k (page - start) _ (omega arith)
    ∙ ap (take k) (drop-drop first start a content whole)

pub length-chunk_at :
    (page : ℕ) (content : Bytes) (i : ℕ)
    → length (chunk_at page content i) ≡ min page (length content - i * page)
length-chunk_at page content i =
    omega (arith, length-take page (drop (i * page) content), length-drop (i * page) content)
