-- ===== src/Core/Bignum.antt =====
-- Numbers as big-endian bytes: `SetBytes` and `FillBytes` of math/big, `IntToHex` of
-- internal/core/utils.go.
use native.Mathlib.Nat.{pow-suc}
use go_blockchain.Prelude.{
  ℕ, zero, suc, ◌+◌, ◌-◌, ◌*◌, ◌/◌, ◌%◌, ◌^◌, ◌<◌, ◌≡◌, refl, ◌∙◌, [], ◌∷◌, ◌++◌, arith,
  if◌then◌else◌, ltb, lt→ltb, ℤ, pos, negsuc, IsInt64, int64_mod, Bytes, AreBytes, IsByte,
  All-append, length, length-append, take, drop, take-length, drop-length, Outcome, ok, panic, ap,
  subst,
}

-- The number that bytes spell after `acc`.
unfoldable pub set_bytes_from : ℕ → Bytes → ℕ
set_bytes_from acc [] = acc
set_bytes_from acc (b ∷ bs) = set_bytes_from (acc * 256 + b) bs

-- `new(big.Int).SetBytes(bs)`
unfoldable pub set_bytes : Bytes → ℕ
unfolding set_bytes_from
set_bytes bs = set_bytes_from 0 bs

-- The low `w` bytes of `n`, the highest first.
unfoldable pub low_bytes : ℕ → ℕ → Bytes
low_bytes zero n = []
low_bytes (suc w) n = low_bytes w (n / 256) ++ (n % 256) ∷ []

-- `n.FillBytes(make([]byte, w))`, which panics where `n` does not fit.
unfoldable pub fill_bytes : ℕ → ℕ → Outcome Bytes
fill_bytes w n = if ltb n (256 ^ w) then ok (low_bytes w n) else panic

-- The two's complement pattern of an int64.
abbrev pub unsigned64 : ℤ → ℕ
unsigned64 (pos n) = n % int64_mod
unsigned64 (negsuc n) = int64_mod - 1 - n % int64_mod

unfoldable pub int_to_hex : ℤ → Bytes
unfolding low_bytes
int_to_hex n = low_bytes 8 (unsigned64 n)

pub set_bytes_from-append :
    (acc : ℕ) (xs : Bytes) (b : ℕ)
    → set_bytes_from acc (xs ++ b ∷ []) ≡ set_bytes_from acc xs * 256 + b
unfolding set_bytes_from
set_bytes_from-append acc [] b = refl
set_bytes_from-append acc (x ∷ xs) b = set_bytes_from-append (acc * 256 + x) xs b

div_below : (w n : ℕ) → n < 256 ^ suc w → n / 256 < 256 ^ w
div_below w n h = let p = pow-suc 256 w in omega arith

-- Reading the bytes that `FillBytes` wrote gives the number back.
pub set_bytes-low_bytes : (w n : ℕ) → n < 256 ^ w → set_bytes (low_bytes w n) ≡ n
unfolding set_bytes low_bytes
set_bytes-low_bytes zero n h = omega arith
set_bytes-low_bytes (suc w) n h =
    let ih = set_bytes-low_bytes w (n / 256) (div_below w n h) in
    set_bytes_from-append 0 (low_bytes w (n / 256)) (n % 256) ∙ omega (arith, ih)

pub length-low_bytes : (w n : ℕ) → length (low_bytes w n) ≡ w
unfolding low_bytes
length-low_bytes zero n = refl
length-low_bytes (suc w) n =
    length-append (low_bytes w (n / 256)) ((n % 256) ∷ [])
    ∙ omega (arith, length-low_bytes w (n / 256))

pub low_bytes-AreBytes : (w n : ℕ) → AreBytes (low_bytes w n)
unfolding low_bytes
low_bytes-AreBytes zero n = tt
low_bytes-AreBytes (suc w) n =
    All-append IsByte (low_bytes w (n / 256)) ((n % 256) ∷ []) (low_bytes-AreBytes w (n / 256))
      (omega arith)

pub fill_bytes_ok : (w n : ℕ) → n < 256 ^ w → fill_bytes w n ≡ ok (low_bytes w n)
unfolding fill_bytes
fill_bytes_ok w n h = rw (lt→ltb n (256 ^ w) h)

-- Two int64 with the same eight bytes are equal.
pub int_to_hex-injective : (a b : ℤ) → IsInt64 a → IsInt64 b → int_to_hex a ≡ int_to_hex b → a ≡ b
unfolding int_to_hex
int_to_hex-injective a b ha hb e =
    let ea = set_bytes-low_bytes 8 (unsigned64 a) (ground arith) in
    let eb = set_bytes-low_bytes 8 (unsigned64 b) (ground arith) in
    let same : unsigned64 a ≡ unsigned64 b = cc (ea, eb, e) in ground arith

pub length-low_bytes_append : (a b : ℕ) → length (low_bytes 32 a ++ low_bytes 32 b) ≡ 64
length-low_bytes_append a b =
    length-append (low_bytes 32 a) (low_bytes 32 b)
    ∙ omega (arith, length-low_bytes 32 a, length-low_bytes 32 b)

-- Of two numbers written in 32 bytes each, both are read back.
pub set_bytes-halves :
    (a b : ℕ)
    → a < 2 ^ 256
    → b < 2 ^ 256
    → (set_bytes (take 32 (low_bytes 32 a ++ low_bytes 32 b)) ≡ a)
      × (set_bytes (drop 32 (low_bytes 32 a ++ low_bytes 32 b)) ≡ b)
set_bytes-halves a b ha hb =
    let xs = low_bytes 32 a in
    let ys = low_bytes 32 b in
    (
      ap set_bytes (subst (λ n. take n (xs ++ ys) ≡ xs) (length-low_bytes 32 a) (take-length xs ys))
          ∙ set_bytes-low_bytes 32 a ha,
      ap set_bytes (subst (λ n. drop n (xs ++ ys) ≡ ys) (length-low_bytes 32 a) (drop-length xs ys))
          ∙ set_bytes-low_bytes 32 b hb,
    )
