-- ===== src/Cas/Hex.antt =====
-- Hashes survive the way through hexadecimal.
use lunar_fs.Base.{
  ℕ, suc, ◌*◌, ◌/◌, ◌%◌, ◌<◌, ◌≡◌, refl, some, [], ◌∷◌, Bytes, ok, >>=-eq-ok, inl, inr,
  Option-cases, Bool-cases, All, length, arith, ◌=ℕ=◌, =ℕ=_iff,
}
use lunar_fs.Base.Text.{hex_digit}
use lunar_fs.Cas.{Hash, hash_to_hex, digit_value, from_str_radix, parse_pairs, hex_to_hash}

digit_value-hex_digit : (n : ℕ) → n < 16 → digit_value (hex_digit n) ≡ some n
unfolding digit_value hex_digit
digit_value-hex_digit n h = ground arith

from_str_radix-hex_digit :
    (b : ℕ) → b < 256 → from_str_radix (hex_digit (b / 16)) (hex_digit (b % 16)) ≡ some b
unfolding from_str_radix hex_digit
from_str_radix-hex_digit b h = ground arith

parse_pairs-hash_to_hex : (h : Hash) → All (λ b. b < 256) h → parse_pairs (hash_to_hex h) ≡ ok h
unfolding parse_pairs hash_to_hex
parse_pairs-hash_to_hex [] bytes = refl
parse_pairs-hash_to_hex (b ∷ h) bytes =
    rw (from_str_radix-hex_digit b bytes.0, parse_pairs) (rw (parse_pairs-hash_to_hex h bytes.1))

pub length-hash_to_hex : (h : Hash) → length (hash_to_hex h) ≡ 2 * length h
unfolding hash_to_hex
length-hash_to_hex [] = omega arith
length-hash_to_hex (b ∷ h) = omega (arith, length-hash_to_hex h)

-- Reading the hexadecimal of 32 bytes gives these bytes back.
pub hex_to_hash-hash_to_hex :
    (h : Hash) → length h ≡ 32 → All (λ b. b < 256) h → hex_to_hash (hash_to_hex h) ≡ ok h
unfolding hex_to_hash
hex_to_hash-hash_to_hex h len bytes =
    let e : length (hash_to_hex h) ≡ 64 = omega (arith, length-hash_to_hex h) in
    rw e (parse_pairs-hash_to_hex h bytes)

suc_half : (m n : ℕ) → m ≡ n / 2 → suc m ≡ suc (suc n) / 2
suc_half m n h = omega arith

parse_pairs-length : (s : Bytes) (h : Hash) → parse_pairs s ≡ ok h → length h ≡ length s / 2
unfolding parse_pairs
parse_pairs-length [] h e = ground arith
parse_pairs-length (c ∷ []) h e = ground arith
parse_pairs-length (c ∷ d ∷ s) h e = elim (Option-cases (from_str_radix c d)) [
  | inl bad ↦ cc (rw (bad, parse_pairs) at e)
  | inr (b, good) ↦
      let (rest, r, q) =
        >>=-eq-ok (parse_pairs s) (λ rest. ok (b ∷ rest)) (rw (good, parse_pairs) at e) in
      ground (arith, suc_half (length rest) (length s) (parse_pairs-length s rest r))
]

-- What is read as a hash has 32 bytes.
pub hex_to_hash-length : (s : Bytes) (h : Hash) → hex_to_hash s ≡ ok h → length h ≡ 32
unfolding hex_to_hash
hex_to_hash-length s h e = elim (Bool-cases (length s =ℕ= 64)) [
  | inl full ↦
      let n : length s ≡ 64 = (=ℕ=_iff (length s) 64).0 full in
      omega (arith, parse_pairs-length s h (rw full at e))
  | inr short ↦ cc (rw short at e)
]
