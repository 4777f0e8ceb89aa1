-- ===== src/Base/Numerals.antt =====
-- `strconv.ParseUint`, in decimal, and the numbers that `fmt` prints.
use blobcache_v.Base.{
  ℕ, zero, suc, ◌+◌, ◌/◌, ◌%◌, ◌^◌, ◌<◌, ◌≡◌, refl, inl, inr, Bool, true, false, not, ◌&&◌, ◌||◌,
  [], ◌∷◌, ◌++◌, arith, Bool-cases, ℕ_eq, ltb, leb, if◌then◌else◌, lt→ltb,
}
use blobcache_v.Base.Int.{pos}
use blobcache_v.Base.Texts.{Text, digits, value_from, value_from-digits, decimal}

unfoldable pub is_digit : ℕ → Bool
is_digit c = leb b'0' c && leb c b'9'

unfoldable pub all_digits : Text → Bool
all_digits [] = true
all_digits (c ∷ cs) = is_digit c && all_digits cs

abbrev is_empty : Text → Bool
is_empty [] = true
is_empty (c ∷ cs) = false

-- The number of a text, with 0 for the errors of `ParseUint(t, 10, bits)`
unfoldable pub parse_uint_or_0 : ℕ → Text → ℕ
parse_uint_or_0 bits t =
    if is_empty t || not (all_digits t)
    then 0
    else if ltb (value_from 0 t) (2 ^ bits)
    then value_from 0 t
    else 0

all_digits-append : (xs ys : Text) → all_digits (xs ++ ys) ≡ (all_digits xs && all_digits ys)
unfolding all_digits
all_digits-append [] ys = refl
all_digits-append (x ∷ xs) ys = ground (arith, all_digits-append xs ys)

digit-is_digit : (n : ℕ) → n < 10 → is_digit (48 + n) ≡ true
unfolding is_digit
digit-is_digit n h = ground arith

all_digits-digits : (f n : ℕ) → all_digits (digits f n) ≡ true
unfolding digits all_digits
all_digits-digits zero n = refl
all_digits-digits (suc f) n = elim (Bool-cases (ltb n 10)) [
  | inl small ↦ rw small (ground (arith, digit-is_digit n, small))
  | inr big ↦
      rw
        (
          big,
          all_digits-append (digits f (n / 10)) ((48 + n % 10) ∷ []),
          all_digits-digits f (n / 10),
        )
        (ground (arith, digit-is_digit (n % 10)))
]

not-empty : (xs : Text) (c : ℕ) → is_empty (xs ++ c ∷ []) ≡ false
not-empty [] c = refl
not-empty (x ∷ xs) c = refl

is_empty-digits : (f n : ℕ) → is_empty (digits (suc f) n) ≡ false
unfolding digits
is_empty-digits f n = elim (Bool-cases (ltb n 10)) [
  | inl small ↦ rw small refl
  | inr big ↦ rw big (not-empty (digits f (n / 10)) (48 + n % 10))
]

-- Parsing undoes printing, for a number that has the bits.
pub parse_uint_or_0-decimal :
    (bits n : ℕ) → n < 2 ^ bits → parse_uint_or_0 bits (decimal (pos n)) ≡ n
unfolding parse_uint_or_0 decimal
parse_uint_or_0-decimal bits n h =
    let fits : ltb n (2 ^ bits) ≡ true = lt→ltb _ _ h in
    rw
      (
        is_empty-digits n n,
        all_digits-digits (suc n) n,
        value_from-digits (suc n) n (omega arith),
        fits,
      )
      refl
