-- ===== src/Server/Hex.antt =====
-- `hex.EncodeToString(sha256.Sum256(content))`, of pkg/server.go and pkg/blobfs.go.
use blobcache_v.Base.{
  ℕ, zero, suc, ◌+◌, ◌-◌, ◌*◌, ◌/◌, ◌%◌, ◌^◌, ◌≤◌, ◌<◌, ◌≡◌, ◌≢◌, refl, ap, ◌&&◌, Option, none,
  some, [], ◌∷◌, arith, length, take, ℕ_eq, ltb, leb, if◌then◌else◌, All, length-take,
}
use native.Mathlib.Nat.{mul-le-mul_right, mul_assoc, pow-succ'}
use blobcache_v.Base.Texts.{Text}
use blobcache_v.Backends.{Bytes}
use blobcache_v.Storage.Keys.{IsHash}

-- The digest function of crypto/sha256
pub record Sha256 : Type 0 where
  pub sum256 : Bytes → Bytes
  pub length-sum256 : (content : Bytes) → length (sum256 content) ≡ 32
  pub sum256-bytes : (content : Bytes) → All (λ b. b < 256) (sum256 content)

pub hex_digit : ℕ → ℕ
hex_digit d = if ltb d 10 then b'0' + d else b'a' + (d - 10)

unfoldable pub encode_hex : Bytes → Text
encode_hex [] = []
encode_hex (b ∷ bs) = hex_digit (b / 16) ∷ hex_digit (b % 16) ∷ encode_hex bs

unfoldable pub hash_of : Sha256 → Bytes → Text
hash_of H content = encode_hex (H.sum256 content)

hex_digit-bound : (d : ℕ) → 48 ≤ hex_digit d
unfolding hex_digit
hex_digit-bound d = ground arith

encode_hex-digits : (bs : Bytes) → All (λ c. 48 ≤ c) (encode_hex bs)
unfolding encode_hex
encode_hex-digits [] = tt
encode_hex-digits (b ∷ bs) =
    (hex_digit-bound (b / 16), (hex_digit-bound (b % 16), encode_hex-digits bs))

encode_hex-nonempty : (bs : Bytes) → length bs ≡ 32 → encode_hex bs ≢ []
unfolding encode_hex
encode_hex-nonempty [] h e = omega (arith, h)
encode_hex-nonempty (b ∷ bs) h e = cc

pub hash_of-IsHash : (H : Sha256) (content : Bytes) → IsHash (hash_of H content)
unfolding hash_of
hash_of-IsHash H content = record {
  nonempty = encode_hex-nonempty (H.sum256 content) (H.length-sum256 content);
  digits = encode_hex-digits (H.sum256 content);
}

-- `GenerateFsID`
unfoldable pub generate_fs_id : Sha256 → Text → Text
generate_fs_id H name = encode_hex (H.sum256 name)

pub hex_value : ℕ → Option ℕ
hex_value c =
    if leb b'0' c && leb c b'9'
    then some (c - b'0')
    else if leb b'a' c && leb c b'f'
    then some (c - b'a' + 10)
    else if leb b'A' c && leb c b'F'
    then some (c - b'A' + 10)
    else none

abbrev byte_of : Option ℕ → Option ℕ → Option Bytes → Option Bytes
byte_of (some high) (some low) (some rest) = some ((16 * high + low) ∷ rest)
byte_of none low rest = none
byte_of (some high) none rest = none
byte_of (some high) (some low) none = none

-- `hex.DecodeString`, with `none` for its error
unfoldable pub decode_hex : Text → Option Bytes
decode_hex [] = some []
decode_hex (c ∷ []) = none
decode_hex (c ∷ d ∷ rest) = byte_of (hex_value c) (hex_value d) (decode_hex rest)

-- `binary.BigEndian.Uint64`, on the bytes after `acc`
unfoldable pub big_endian : ℕ → Bytes → ℕ
big_endian acc [] = acc
big_endian acc (b ∷ bs) = big_endian (256 * acc + b) bs

abbrev number_of : Option Bytes → Option ℕ
number_of none = none
number_of (some bytes) = some (big_endian 0 bytes)

-- `SHA1StringToUint64`, for a text of at least 16 bytes; `hash[:16]` panics on a shorter one.
unfoldable pub sha1_string_to_uint64 : Text → Option ℕ
sha1_string_to_uint64 hash = number_of (decode_hex (take 16 hash))

hex_value-hex_digit : (d : ℕ) → d < 16 → hex_value (hex_digit d) ≡ some d
unfolding hex_value hex_digit
hex_value-hex_digit d h = ground arith

decode_hex-encode_hex : (bs : Bytes) → All (λ b. b < 256) bs → decode_hex (encode_hex bs) ≡ some bs
unfolding decode_hex encode_hex
decode_hex-encode_hex [] h = refl
decode_hex-encode_hex (b ∷ bs) h =
    let high = hex_value-hex_digit (b / 16) (omega (arith, h.0)) in
    let low = hex_value-hex_digit (b % 16) (omega (arith, h.0)) in
    let whole : 16 * (b / 16) + b % 16 ≡ b = omega arith in
    rw (high, low, decode_hex-encode_hex bs h.1, whole) refl

take-encode_hex : (n : ℕ) (bs : Bytes) → take (2 * n) (encode_hex bs) ≡ encode_hex (take n bs)
unfolding encode_hex
take-encode_hex zero bs = refl
take-encode_hex (suc n) [] =
    let e : 2 * suc n ≡ suc (suc (2 * n)) = omega arith in ap (λ k. take k (encode_hex [])) e
take-encode_hex (suc n) (b ∷ bs) =
    let e : 2 * suc n ≡ suc (suc (2 * n)) = omega arith in rw (e, take-encode_hex n bs) refl

All-take : (n : ℕ) (bs : Bytes) → All (λ b. b < 256) bs → All (λ b. b < 256) (take n bs)
All-take zero bs h = tt
All-take (suc n) [] h = tt
All-take (suc n) (b ∷ bs) h = (h.0, All-take n bs h.1)

big_endian-bound :
    (acc : ℕ) (bs : Bytes) → All (λ b. b < 256) bs → big_endian acc bs < (acc + 1) * 256 ^ length bs
unfolding big_endian
big_endian-bound acc [] h = omega arith
big_endian-bound acc (b ∷ bs) h =
    let p = 256 ^ length bs in
    let rest = big_endian-bound (256 * acc + b) bs h.1 in
    let more =
      mul-le-mul_right {m = 256 * acc + b + 1} {n = (acc + 1) * 256} p (omega (arith, h.0)) in
    let power : 256 ^ suc (length bs) ≡ 256 * p = pow-succ' 256 (length bs) in
    rw power (omega (arith, rest, more, mul_assoc (acc + 1) 256 p))

-- The inode number of the ID of a name, the big-endian number of the first eight bytes of the
-- SHA-256 of the name, is always found, and fits 64 bits.
pub sha1_string_to_uint64-generate_fs_id :
    (H : Sha256) (name : Text)
    → (sha1_string_to_uint64 (generate_fs_id H name) ≡ some (big_endian 0 (take 8 (H.sum256 name))))
      × (big_endian 0 (take 8 (H.sum256 name)) < 2 ^ 64)
unfolding sha1_string_to_uint64 generate_fs_id
sha1_string_to_uint64-generate_fs_id H name =
    let bytes = All-take 8 (H.sum256 name) (H.sum256-bytes name) in
    let cut : take 16 (encode_hex (H.sum256 name)) ≡ encode_hex (take 8 (H.sum256 name)) =
      take-encode_hex 8 (H.sum256 name) in
    let eight : length (take 8 (H.sum256 name)) ≡ 8 =
      omega (arith, length-take 8 (H.sum256 name), H.length-sum256 name) in
    (
      rw (cut, decode_hex-encode_hex (take 8 (H.sum256 name)) bytes) refl,
      rw (eight) at (big_endian-bound 0 (take 8 (H.sum256 name)) bytes),
    )
