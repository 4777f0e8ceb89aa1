-- ===== src/Types/Plain.antt =====
-- Whole numbers in place of the floating-point numbers of pkg/types.go.
use blobcache_v.Base.{ℕ, ◌≡◌, refl, true, false, arith, ℕ_eq, ltb}
use blobcache_v.Types.{Floats}

pub ltb_irreflexive : (x : ℕ) → ltb x x ≡ false
ltb_irreflexive x = ground arith

pub ltb_trans : (x y z : ℕ) → ltb x y ≡ true → ltb y z ≡ true → ltb x z ≡ true
ltb_trans x y z h k = ground arith

abbrev pub whole : Floats
whole = record {
  F64 = ℕ;
  F32 = ℕ;
  zero = 0;
  zero_f32 = 0;
  narrow = λ x. x;
  widen = λ x. x;
  less = ltb;
  less_irreflexive = ltb_irreflexive;
  less_trans = ltb_trans;
  narrow-widen = λ x. refl;
}
