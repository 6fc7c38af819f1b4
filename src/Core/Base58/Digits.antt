-- ===== src/Core/Base58/Digits.antt =====
-- The digits of base 58 and of base 256, and their values.
use mathlib.Core.List.{reverse, reverse-cons}
use go_blockchain.Prelude.{
  ℕ, zero, suc, ◌+◌, ◌-◌, ◌*◌, ◌/◌, ◌%◌, ◌≤◌, ◌<◌, ◌≡◌, refl, sym, ap, ◌∙◌, inl, inr, Bool, true,
  false, ◌&&◌, Bool-cases, [], ◌∷◌, ◌++◌, append_assoc, append-nil, int_laws, arith, if◌then◌else◌,
  ◌==◌, ==_iff, ltb, ℤ, pos, negsuc, ◌+ℤ◌, Bytes, AreBytes, replicate,
}
use go_blockchain.Core.Bignum.{set_bytes, set_bytes_from}
use go_blockchain.Core.Base58.{
  b58_char, b58_alphabet, b58_digits, count_leading, index_byte, index_from, times_58, b58_value,
  min_bytes,
}

all_below : ℕ → (ℕ → Bool) → Bool
all_below zero p = true
all_below (suc n) p = p n && all_below n p

all_below→holds : (n : ℕ) (p : ℕ → Bool) (x : ℕ) → all_below n p ≡ true → x < n → p x ≡ true
unfolding all_below
all_below→holds zero p x h below = absurd (omega arith)
all_below→holds (suc n) p x h below = ground (arith, all_below→holds n p x)

is_pos : ℕ → ℤ → Bool
is_pos i (pos n) = n == i
is_pos i (negsuc n) = false

is_pos→eq : (i : ℕ) (z : ℤ) → is_pos i z ≡ true → z ≡ pos i
unfolding is_pos
is_pos→eq i (pos n) h = ap pos ((==_iff n i).0 h)
is_pos→eq i (negsuc n) h = cc

found_table : all_below 58 (λ i. is_pos i (index_byte b58_alphabet (b58_char i))) ≡ true
unfolding all_below is_pos index_byte index_from b58_char
found_table = refl

-- Each character is found at its own digit.
pub index_byte-b58_char : (i : ℕ) → i < 58 → index_byte b58_alphabet (b58_char i) ≡ pos i
index_byte-b58_char i h = is_pos→eq i _ (all_below→holds 58 _ i found_table h)

ones_table : all_below 57 (λ i. (if b58_char (suc i) == b58_char 0 then false else true)) ≡ true
unfolding all_below b58_char
ones_table = refl

-- Only the digit 0 has the first character.
b58_char-suc : (i : ℕ) → suc i < 58 → (b58_char (suc i) == b58_char 0) ≡ false
b58_char-suc i h =
    let t : (if b58_char (suc i) == b58_char 0 then false else true) ≡ true =
      all_below→holds 57 _ i ones_table (omega arith) in
    ground arith

pub b58_value-append :
    (acc : ℤ) (d : Bytes) (b : ℕ)
    → b58_value acc (d ++ b ∷ []) ≡ times_58 (b58_value acc d) +ℤ index_byte b58_alphabet b
unfolding b58_value
b58_value-append acc [] b = refl
b58_value-append acc (x ∷ d) b = b58_value-append (times_58 acc +ℤ index_byte b58_alphabet x) d b

pub b58_digits_zero : (fuel : ℕ) → b58_digits fuel 0 ≡ []
unfolding b58_digits
b58_digits_zero zero = refl
b58_digits_zero (suc fuel) = refl

b58_digits-step :
    (fuel x : ℕ) → 0 < x → b58_digits (suc fuel) x ≡ b58_char (x % 58) ∷ b58_digits fuel (x / 58)
unfolding b58_digits
b58_digits-step fuel x h = ground arith

-- The last digit's character stands last.
reverse-b58_digits :
    (fuel x : ℕ)
    → 0 < x
    → reverse (b58_digits (suc fuel) x)
      ≡ reverse (b58_digits fuel (x / 58)) ++ b58_char (x % 58) ∷ []
reverse-b58_digits fuel x h =
    ap reverse (b58_digits-step fuel x h)
    ∙ reverse-cons (b58_char (x % 58)) (b58_digits fuel (x / 58))

b58_value_zero : (fuel : ℕ) → b58_value (pos 0) (reverse (b58_digits fuel 0)) ≡ pos 0
unfolding b58_value b58_digits
b58_value_zero zero = refl
b58_value_zero (suc fuel) = refl

-- The digits of a number have its value.
pub b58_value-b58_digits :
    (fuel x : ℕ) → x ≤ fuel → b58_value (pos 0) (reverse (b58_digits fuel x)) ≡ pos x
unfolding b58_value
b58_value-b58_digits zero x h = let none : x ≡ 0 = omega arith in rw none (b58_value_zero 0)
b58_value-b58_digits (suc fuel) zero h = b58_value_zero (suc fuel)
b58_value-b58_digits (suc fuel) (suc n) h =
    rw
      (
        reverse-b58_digits fuel (suc n) (omega arith),
        b58_value-append (pos 0) (reverse (b58_digits fuel (suc n / 58))) (b58_char (suc n % 58)),
        b58_value-b58_digits fuel (suc n / 58) (omega arith),
        index_byte-b58_char (suc n % 58) (omega arith),
      )
      (omega int_laws)

-- The first character of a number's digits is not that of 0.
pub count_leading-b58_digits :
    (fuel x : ℕ) (d : Bytes)
    → 0 < x
    → x ≤ fuel
    → count_leading (b58_char 0) (reverse (b58_digits fuel x) ++ d) ≡ 0
unfolding count_leading
count_leading-b58_digits zero x d some h = absurd (omega arith)
count_leading-b58_digits (suc fuel) x d some h =
    let c = b58_char (x % 58) in
    let moved : (reverse (b58_digits fuel (x / 58)) ++ c ∷ []) ++ d
        ≡ reverse (b58_digits fuel (x / 58)) ++ c ∷ d =
      append_assoc (reverse (b58_digits fuel (x / 58))) (c ∷ []) d in
    elim (Bool-cases (ltb x 58)) [
      | inl small ↦
          let none : x / 58 ≡ 0 = ground arith in
          let one : x % 58 ≡ suc (x - 1) = ground arith in
          rw (reverse-b58_digits fuel x some, moved, none, b58_digits_zero fuel, one, count_leading)
            (rw (b58_char-suc (x - 1) (ground arith)))
      | inr large ↦
          rw (reverse-b58_digits fuel x some, moved)
            (count_leading-b58_digits fuel (x / 58) (c ∷ d) (ground arith) (omega arith))
    ]

-- Leading first characters are counted, and have no value.
pub count_leading-replicate :
    (b n : ℕ) (d : Bytes) → count_leading b (replicate n b ++ d) ≡ n + count_leading b d
unfolding count_leading
count_leading-replicate b zero d = omega arith
count_leading-replicate b (suc n) d = ground (arith, count_leading-replicate b n d)

pub b58_value-replicate :
    (n : ℕ) (d : Bytes) → b58_value (pos 0) (replicate n (b58_char 0) ++ d) ≡ b58_value (pos 0) d
unfolding b58_value ◌+ℤ◌ b58_char index_byte index_from
b58_value-replicate zero d = refl
b58_value-replicate (suc n) d = b58_value-replicate n d

replicate-append : (n b : ℕ) → replicate n b ++ b ∷ [] ≡ b ∷ replicate n b
replicate-append zero b = refl
replicate-append (suc n) b = ap (λ l. b ∷ l) (replicate-append n b)

pub reverse-replicate : (n b : ℕ) → reverse (replicate n b) ≡ replicate n b
reverse-replicate zero b = refl
reverse-replicate (suc n) b =
    reverse-cons b (replicate n b)
    ∙ ap (λ l. l ++ b ∷ []) (reverse-replicate n b)
    ∙ replicate-append n b

min_bytes-fuel : (fuel more x : ℕ) → x ≤ fuel → x ≤ more → min_bytes fuel x ≡ min_bytes more x
unfolding min_bytes
min_bytes-fuel zero zero x h k = refl
min_bytes-fuel zero (suc more) x h k = ground arith
min_bytes-fuel (suc fuel) zero x h k = ground arith
min_bytes-fuel (suc fuel) (suc more) x h k = ground (arith, min_bytes-fuel fuel more (x / 256))

min_bytes_pos :
    (fuel x : ℕ) → 0 < x → min_bytes (suc fuel) x ≡ min_bytes fuel (x / 256) ++ (x % 256) ∷ []
unfolding min_bytes
min_bytes_pos fuel x h = ground arith

-- A last byte more.
min_bytes-step :
    (v b : ℕ)
    → b < 256
    → 0 < v * 256 + b
    → min_bytes (v * 256 + b) (v * 256 + b) ≡ min_bytes v v ++ b ∷ []
min_bytes-step v b small some =
    let n = v * 256 + b in
    let top : n / 256 ≡ v = omega arith in
    let low : n % 256 ≡ b = omega arith in
    min_bytes-fuel n (suc n) n (omega arith) (omega arith)
    ∙ rw (min_bytes_pos n n some, top, low)
        (ap (λ l. l ++ b ∷ []) (min_bytes-fuel n v v (omega arith) (omega arith)))

min_bytes-set_bytes_from :
    (v : ℕ) (d : Bytes)
    → 0 < v
    → AreBytes d
    → min_bytes (set_bytes_from v d) (set_bytes_from v d) ≡ min_bytes v v ++ d
unfolding set_bytes_from
min_bytes-set_bytes_from v [] some h = sym (append-nil (min_bytes v v))
min_bytes-set_bytes_from v (b ∷ d) some (small, h) =
    min_bytes-set_bytes_from (v * 256 + b) d (omega arith) h
    ∙ rw (min_bytes-step v b small (omega arith)) (append_assoc (min_bytes v v) (b ∷ []) d)

suc_beq_zero : (x : ℕ) → (suc x == 0) ≡ false
suc_beq_zero x = ground arith

-- A byte string is its leading zeros and the bytes of its number.
pub min_bytes-set_bytes :
    (d : Bytes)
    → AreBytes d
    → replicate (count_leading 0 d) 0 ++ min_bytes (set_bytes d) (set_bytes d) ≡ d
unfolding set_bytes set_bytes_from count_leading min_bytes
min_bytes-set_bytes [] h = refl
min_bytes-set_bytes (zero ∷ d) (small, h) = ap (λ l. 0 ∷ l) (min_bytes-set_bytes d h)
min_bytes-set_bytes (suc x ∷ d) (small, h) = rw (suc_beq_zero x) (
    min_bytes-set_bytes_from (0 * 256 + suc x) d (omega arith) h
    ∙ ap (λ l. l ++ d) (min_bytes-step 0 (suc x) small (omega arith)))
