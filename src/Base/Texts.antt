-- ===== src/Base/Texts.antt =====
-- Go strings as lists of bytes: equality, literals, `%d`, `strings.Join` and `strings.Split`.
use Prim.Native.Char.{code}
use Prim.Native.Nat.{ℕ, zero, suc, ◌+◌, ◌-◌, ◌*◌, ◌/◌, ◌%◌, ◌≤◌, ◌<◌}
use Prim.Native.String.{String}
use mathlib.Core.Path.{◌≡◌, refl, sym, ap, ◌∙◌}
use mathlib.Core.Logic.{◌≢◌, ◌↔◌, ◌⊎◌, inl, inr}
use mathlib.Core.Bool.{Bool, true, false, ◌&&◌}
use mathlib.Core.List.{List, [], ◌∷◌, ◌++◌}
use native.Mathlib.Omega.{arith}
use blobcache_v.Base.Tests.{ltb, eqb, if◌then◌else◌, Bool-cases, Eq, ◌==◌, ℕ_eq}
use blobcache_v.Base.Lists.{All, All-append}
use blobcache_v.Base.Int.{ℤ, pos, negsuc, sub_ℕ}

abbrev pub Text : Type 0
Text = List ℕ

-- The bytes of an ASCII literal.
abbrev pub codes : String → Text
codes String.[] = []
codes (String.◌∷◌ c s) = code c ∷ codes s

module _ {ℓ} {A : Type ℓ} ⦃e : Eq A⦄ where
  unfoldable pub list_beq : List A → List A → Bool
  list_beq [] [] = true
  list_beq [] (y ∷ ys) = false
  list_beq (x ∷ xs) [] = false
  list_beq (x ∷ xs) (y ∷ ys) = (x == y) && list_beq xs ys

  list_beq_sound : (xs ys : List A) → list_beq xs ys ≡ true → xs ≡ ys
  unfolding list_beq
  list_beq_sound [] [] h = refl
  list_beq_sound [] (y ∷ ys) h = cc
  list_beq_sound (x ∷ xs) [] h = cc
  list_beq_sound (x ∷ xs) (y ∷ ys) h = ground (arith, (e.equal_iff x y).0, list_beq_sound xs ys)

  list_beq_refl : (xs : List A) → list_beq xs xs ≡ true
  unfolding list_beq
  list_beq_refl [] = refl
  list_beq_refl (x ∷ xs) = ground (arith, (e.equal_iff x x).1 refl, list_beq_refl xs)

  pub list_beq_iff : (xs ys : List A) → (list_beq xs ys ≡ true) ↔ (xs ≡ ys)
  list_beq_iff xs ys = (list_beq_sound xs ys, λ p. rw p (list_beq_refl ys))

instance abbrev pub text_eq : Eq Text
text_eq = record { equal = list_beq; equal_iff = list_beq_iff }

pub text-cases : (a b : Text) → (a ≡ b) ⊎ (a ≢ b)
text-cases a b = elim (Bool-cases (a == b)) [
  | inl same ↦ inl ((text_eq.equal_iff a b).0 same)
  | inr other ↦ inr λ e. ground (arith, (text_eq.equal_iff a b).1 e)
]

abbrev pub Lacks : ℕ → Text → Type 0
Lacks b = All (λ c. c ≢ b)

-- The part before the first `b` is determined, and so is the part after it.
pub cut_unique :
    (b : ℕ) (xs ys r s : Text)
    → Lacks b xs
    → Lacks b ys
    → xs ++ b ∷ r ≡ ys ++ b ∷ s
    → (xs ≡ ys) × (r ≡ s)
cut_unique b [] [] r s hx hy e = (refl, cc)
cut_unique b [] (y ∷ ys) r s hx hy e = absurd (hy.0 (cc))
cut_unique b (x ∷ xs) [] r s hx hy e = absurd (hx.0 (cc))
cut_unique b (x ∷ xs) (y ∷ ys) r s hx hy e =
    let rest = cut_unique b xs ys r s hx.1 hy.1 (cc) in (cc rest.0, rest.1)

-- The decimal digits of a number below `10 ^ fuel`.
unfoldable pub digits : ℕ → ℕ → Text
digits zero n = []
digits (suc f) n = if ltb n 10 then (48 + n) ∷ [] else digits f (n / 10) ++ (48 + n % 10) ∷ []

unfoldable pub value_from : ℕ → Text → ℕ
value_from acc [] = acc
value_from acc (c ∷ cs) = value_from (acc * 10 + (c - 48)) cs

value_from-append :
    (acc : ℕ) (xs : Text) (c : ℕ)
    → value_from acc (xs ++ c ∷ []) ≡ value_from acc xs * 10 + (c - 48)
unfolding value_from
value_from-append acc [] c = refl
value_from-append acc (x ∷ xs) c = value_from-append (acc * 10 + (x - 48)) xs c

pub value_from-digits : (f n : ℕ) → n < f → value_from 0 (digits f n) ≡ n
unfolding digits value_from
value_from-digits zero n h = absurd (omega arith)
value_from-digits (suc f) n h = elim (Bool-cases (ltb n 10)) [
  | inl small ↦ rw small (ground arith)
  | inr big ↦
      rw (big, value_from-append 0 (digits f (n / 10)) (48 + n % 10))
        (ground (arith, value_from-digits f (n / 10)))
]

pub digits_bounds : (f n : ℕ) → All (λ c. 48 ≤ c) (digits f n)
unfolding digits
digits_bounds zero n = tt
digits_bounds (suc f) n = elim (Bool-cases (ltb n 10)) [
  | inl small ↦ rw small (omega arith, tt)
  | inr big ↦
      rw big (
        All-append (λ c. 48 ≤ c) (digits f (n / 10)) _ (digits_bounds f (n / 10)) (omega arith, tt))
]

-- Digits and letters stand above the separators `,`, `-`, `.` and `/`.
pub Lacks-of_bounds : (b : ℕ) (t : Text) → b < 48 → All (λ c. 48 ≤ c) t → Lacks b t
Lacks-of_bounds b [] h a = tt
Lacks-of_bounds b (c ∷ cs) h a = (omega (arith, a.0), Lacks-of_bounds b cs h a.1)

-- `fmt.Sprintf("%d", n)`
unfoldable pub decimal : ℤ → Text
unfolding digits
decimal (pos n) = digits (suc n) n
decimal (negsuc n) = b'-' ∷ digits (suc (suc n)) (suc n)

pub decimal_bounds : (n : ℕ) → All (λ c. 48 ≤ c) (decimal (pos n))
unfolding decimal
decimal_bounds n = digits_bounds (suc n) n

parse : Text → ℤ
parse [] = pos 0
parse (c ∷ cs) = if eqb c b'-' then sub_ℕ 0 (value_from 0 cs) else pos (value_from 0 (c ∷ cs))

parse_of_Lacks : (t : Text) → Lacks b'-' t → parse t ≡ pos (value_from 0 t)
unfolding parse value_from
parse_of_Lacks [] h = refl
parse_of_Lacks (c ∷ cs) h = ground (arith, h.0)

parse-decimal : (z : ℤ) → parse (decimal z) ≡ z
unfolding decimal
parse-decimal (pos n) =
    parse_of_Lacks (digits (suc n) n)
      (Lacks-of_bounds b'-' (digits (suc n) n) (omega arith) (digits_bounds (suc n) n))
    ∙ ap pos (value_from-digits (suc n) n (omega arith))
parse-decimal (negsuc n) =
    unfold parse in rw (value_from-digits (suc (suc n)) (suc n) (omega arith)) (ground arith)

-- Different numbers print differently.
pub decimal_injective : (a b : ℤ) → decimal a ≡ decimal b → a ≡ b
decimal_injective a b e = sym (parse-decimal a) ∙ ap parse e ∙ parse-decimal b

-- `strings.Join(ts, b)` for a separator of one byte
unfoldable pub join : ℕ → List Text → Text
join b [] = []
join b (t ∷ []) = t
join b (t ∷ u ∷ us) = t ++ b ∷ join b (u ∷ us)

unfoldable pub cons_head : ℕ → List Text → List Text
cons_head c [] = (c ∷ []) ∷ []
cons_head c (t ∷ ts) = (c ∷ t) ∷ ts

-- `strings.Split(t, b)` for a separator of one byte; it never returns an empty slice.
unfoldable pub split : ℕ → Text → List Text
unfolding cons_head
split b [] = [] ∷ []
split b (c ∷ cs) = if eqb c b then [] ∷ split b cs else cons_head c (split b cs)

split_single : (b : ℕ) (t : Text) → Lacks b t → split b t ≡ t ∷ []
unfolding split
split_single b [] h = refl
split_single b (c ∷ cs) h = ground (arith, h.0, split_single b cs h.1)

split_first : (b : ℕ) (t rest : Text) → Lacks b t → split b (t ++ b ∷ rest) ≡ t ∷ split b rest
unfolding split
split_first b [] rest h = ground arith
split_first b (c ∷ cs) rest h = ground (arith, h.0, split_first b cs rest h.1)

-- Splitting undoes joining, for a list that is not empty.
pub split-join :
    (b : ℕ) (t : Text) (ts : List Text)
    → All (Lacks b) (t ∷ ts)
    → split b (join b (t ∷ ts)) ≡ t ∷ ts
unfolding join
split-join b t [] h = split_single b t h.0
split-join b t (u ∷ us) h =
    split_first b t (join b (u ∷ us)) h.0 ∙ ap (◌∷◌ t) (split-join b u us h.1)

-- `strings.SplitN(t, b, 2)[0]`
unfoldable pub before : ℕ → Text → Text
before b [] = []
before b (c ∷ cs) = if eqb c b then [] else c ∷ before b cs

pub before_first : (b : ℕ) (t rest : Text) → Lacks b t → before b (t ++ b ∷ rest) ≡ t
unfolding before
before_first b [] rest h = ground arith
before_first b (c ∷ cs) rest h = ground (arith, h.0, before_first b cs rest h.1)

prints : decimal (negsuc 11) ++ join b',' (decimal (pos 305) ∷ codes "x" ∷ []) ≡ codes "-12305,x"
unfolding decimal join
prints = refl
