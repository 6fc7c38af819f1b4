-- ===== src/Core/Base58.antt =====
-- internal/core/base58.go, and `ReverseBytes` of utils.go. A big integer of `Base58Decode` may be
-- negative, as a byte outside the alphabet counts -1; its `Bytes` are those of its absolute value.
pub mod Reverse
pub mod Digits
pub mod RoundTrip
use go_blockchain.Prelude.{
  ℕ, zero, suc, ◌+◌, ◌-◌, ◌*◌, ◌/◌, ◌%◌, Bool, true, false, List, [], ◌∷◌, ◌++◌, Option, none, some,
  if◌then◌else◌, ltb, ◌==◌, ℤ, pos, negsuc, ◌+ℤ◌, Bytes, codes, length, get_elem?, set, replicate,
}
use go_blockchain.Core.Bignum.{set_bytes}

-- data[i], data[j] = data[j], data[i]; `ReverseBytes` stays within the slice.
unfoldable pub swap_at : ℕ → ℕ → Bytes → Bytes
swap_at i j d = elim (get_elem? d i) [
  | none ↦ d
  | some a ↦ elim (get_elem? d j) [ none ↦ d | some b ↦ set (set d i b) j a ]
]

-- The loop from i and j on.
unfoldable pub swap_ends : ℕ → ℕ → ℕ → Bytes → Bytes
swap_ends zero i j d = d
swap_ends (suc fuel) i j d = elim (ltb i j) [
  | true ↦ swap_ends fuel (i + 1) (j - 1) (swap_at i j d)
  | false ↦ d
]

-- For an empty slice j starts at -1, here at 0: there is no round either way.
unfoldable pub reverse_bytes : Bytes → Bytes
reverse_bytes d = swap_ends (length d) 0 (length d - 1) d

abbrev pub b58_alphabet : Bytes
b58_alphabet = codes "123456789ABCDEFGHJKLMNPQRSTUVWXYZabcdefghijkmnopqrstuvwxyz"

-- `b58Alphabet[i]` for i below 58.
unfoldable pub b58_char : ℕ → ℕ
b58_char i = elim (get_elem? b58_alphabet i) [ none ↦ 0 | some c ↦ c ]

-- The loop of `DivMod`: the characters, the last digit's first.
unfoldable pub b58_digits : ℕ → ℕ → Bytes
b58_digits zero x = []
b58_digits (suc fuel) x = elim (x == 0) [
  | true ↦ []
  | false ↦ b58_char (x % 58) ∷ b58_digits fuel (x / 58)
]

-- How many bytes at the start are `b`.
unfoldable pub count_leading : ℕ → Bytes → ℕ
count_leading b [] = 0
count_leading b (x ∷ d) = let rest = count_leading b d in if x == b then suc rest else 0

unfoldable pub base58_encode : Bytes → Bytes
base58_encode input =
    let x = set_bytes input in
    reverse_bytes (b58_digits x x ++ replicate (count_leading 0 input) (b58_char 0))

-- `bytes.IndexByte`: the first place, or -1.
unfoldable pub index_from : ℕ → Bytes → ℕ → ℤ
index_from i [] b = negsuc 0
index_from i (x ∷ d) b = if x == b then pos i else index_from (i + 1) d b

unfoldable pub index_byte : Bytes → ℕ → ℤ
index_byte d b = index_from 0 d b

-- x * 58
abbrev pub times_58 : ℤ → ℤ
times_58 (pos n) = pos (n * 58)
times_58 (negsuc n) = negsuc (suc n * 58 - 1)

-- The second loop of `Base58Decode`.
unfoldable pub b58_value : ℤ → Bytes → ℤ
b58_value acc [] = acc
b58_value acc (b ∷ d) = b58_value (times_58 acc +ℤ index_byte b58_alphabet b) d

-- `Bytes` of a big integer: its absolute value without leading zeros.
unfoldable pub min_bytes : ℕ → ℕ → Bytes
min_bytes zero x = []
min_bytes (suc fuel) x = elim (x == 0) [
  | true ↦ []
  | false ↦ min_bytes fuel (x / 256) ++ (x % 256) ∷ []
]

abbrev pub magnitude : ℤ → ℕ
magnitude (pos n) = n
magnitude (negsuc n) = suc n

unfoldable pub base58_decode : Bytes → Bytes
base58_decode input =
    let n = magnitude (b58_value (pos 0) input) in
    replicate (count_leading (b58_char 0) input) 0 ++ min_bytes n n
