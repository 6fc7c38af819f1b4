-- ===== src/Core/Base58/RoundTrip.antt =====
-- Decoding what was encoded.
use mathlib.Core.List.{reverse, reverse-append}
use go_blockchain.Prelude.{
  ℕ, zero, suc, ◌≡◌, sym, ap, ◌∙◌, [], ◌++◌, append-nil, arith, pos, Bytes, AreBytes, replicate,
}
use go_blockchain.Core.Bignum.{set_bytes}
use go_blockchain.Core.Base58.{
  b58_char, b58_digits, b58_value, count_leading, base58_encode, base58_decode,
}
use go_blockchain.Core.Base58.Reverse.{reverse_bytes-reverse}
use go_blockchain.Core.Base58.Digits.{
  b58_value-b58_digits, count_leading-b58_digits, count_leading-replicate, b58_value-replicate,
  reverse-replicate, min_bytes-set_bytes, b58_digits_zero,
}

base58_encode_lem :
    (d : Bytes)
    → base58_encode d
      ≡ replicate (count_leading 0 d) (b58_char 0)
        ++ reverse (b58_digits (set_bytes d) (set_bytes d))
unfolding base58_encode
base58_encode_lem d =
    let digits = b58_digits (set_bytes d) (set_bytes d) in
    let ones = replicate (count_leading 0 d) (b58_char 0) in
    reverse_bytes-reverse (digits ++ ones)
    ∙ reverse-append digits ones
    ∙ ap (λ l. l ++ reverse digits) (reverse-replicate (count_leading 0 d) (b58_char 0))

no_leading : (x : ℕ) → count_leading (b58_char 0) (reverse (b58_digits x x)) ≡ 0
unfolding count_leading
no_leading zero = rw (b58_digits_zero 0)
no_leading (suc n) =
    ap (count_leading (b58_char 0)) (sym (append-nil (reverse (b58_digits (suc n) (suc n)))))
    ∙ count_leading-b58_digits (suc n) (suc n) [] (omega arith) (omega arith)

-- `Base58Decode` gives back the bytes that `Base58Encode` encoded, leading zeros included.
pub base58_decode-base58_encode : (d : Bytes) → AreBytes d → base58_decode (base58_encode d) ≡ d
unfolding base58_decode
base58_decode-base58_encode d h =
    let x = set_bytes d in
    let zeros = count_leading 0 d in
    let digits = reverse (b58_digits x x) in
    let counted : count_leading (b58_char 0) (replicate zeros (b58_char 0) ++ digits) ≡ zeros =
      count_leading-replicate (b58_char 0) zeros digits ∙ omega (arith, no_leading x) in
    let value : b58_value (pos 0) (replicate zeros (b58_char 0) ++ digits) ≡ pos x =
      b58_value-replicate zeros digits ∙ b58_value-b58_digits x x (omega arith) in
    rw (base58_encode_lem d, counted, value) (min_bytes-set_bytes d h)
