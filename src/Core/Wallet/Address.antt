-- ===== src/Core/Wallet/Address.antt =====
-- The address of a wallet, and outputs that are locked with it.
use go_blockchain.Prelude.{
  ℕ, zero, suc, ◌-◌, ◌≤◌, ◌≡◌, refl, ap, ◌∙◌, true, false, List, [], ◌∷◌, ◌++◌, some, arith, ltb, ℤ,
  pos, leb_ℤ, ◌<ℤ◌, Bytes, IsByte, All, All-append, bytes_equal_refl, length, length-append, take,
  take-length, drop-length, ok,
}
use go_blockchain.Core.External.{Crypto, HashLaws}
use go_blockchain.Core.Base58.{base58_decode}
use go_blockchain.Core.Base58.RoundTrip.{base58_decode-base58_encode}
use go_blockchain.Core.Output.{TxOutput, script_p2pkh}
use go_blockchain.Core.Transaction.{hash_pub_key}
use go_blockchain.Core.Wallet.{
  Wallet, checksum, get_address, validate_payload, validate_address, key_hash_of, lock,
  new_tx_output,
}

All-take {ℓ κ} : {A : Type ℓ} (P : A → Type κ) (n : ℕ) (xs : List A) → All P xs → All P (take n xs)
All-take P zero xs h = tt
All-take P (suc n) [] h = tt
All-take P (suc n) (x ∷ xs) (p, h) = (p, All-take P n xs h)

length-take : (n : ℕ) (d : Bytes) → n ≤ length d → length (take n d) ≡ n
length-take zero d h = refl
length-take (suc n) [] h = absurd (omega arith)
length-take (suc n) (x ∷ d) h = omega (arith, length-take n d (omega arith))

-- A version, a key hash and four bytes: what the code takes out of them.
key_hash_of-payload :
    (v : ℕ) (hash sum : Bytes) → length sum ≡ 4 → key_hash_of (v ∷ (hash ++ sum)) ≡ some hash
unfolding key_hash_of
key_hash_of-payload v hash sum four =
    let all = length-append hash sum in
    let long : ltb (length (v ∷ (hash ++ sum))) 5 ≡ false = ground arith in
    let end : length (v ∷ (hash ++ sum)) - 4 - 1 ≡ length hash = omega arith in
    rw (long, end, take-length hash sum)

validate_payload-payload :
    (c : Crypto) (v : ℕ) (hash : Bytes)
    → length (checksum c (v ∷ hash)) ≡ 4
    → validate_payload c (v ∷ (hash ++ checksum c (v ∷ hash))) ≡ true
unfolding validate_payload
validate_payload-payload c v hash four =
    let sum = checksum c (v ∷ hash) in
    let all = length-append hash sum in
    let long : ltb (length (v ∷ (hash ++ sum))) 5 ≡ false = ground arith in
    let end : length (v ∷ (hash ++ sum)) - 4 - 1 ≡ length hash = omega arith in
    let start : length (v ∷ (hash ++ sum)) - 4 ≡ length (v ∷ hash) = omega arith in
    rw (long, end, start, take-length hash sum, drop-length hash sum) (bytes_equal_refl sum)

-- A pay-to-pubkey-hash output.
abbrev pub paid_to : ℤ → Bytes → TxOutput
paid_to value hash = record {
  value = value;
  pub_key_hash = hash;
  script_type = script_p2pkh;
  data_hash_lock = [];
  timeout_block = pos 0;
  buyer_pub_key_hash = [];
}

module _ (c : Crypto) (laws : HashLaws c) where
  length-checksum : (payload : Bytes) → length (checksum c payload) ≡ 4
  unfolding checksum
  length-checksum payload =
      let whole = laws.sha256_length (c.sha256 payload) in
      length-take 4 (c.sha256 (c.sha256 payload)) (omega arith)

  base58_decode-get_address :
      (w : Wallet)
      → base58_decode (get_address c w)
        ≡ 0 ∷ (hash_pub_key c w.public_key ++ checksum c (0 ∷ hash_pub_key c w.public_key))
  unfolding get_address hash_pub_key checksum
  base58_decode-get_address w =
      let hash = c.ripemd160 (c.sha256 w.public_key) in
      base58_decode-base58_encode (0 ∷ (hash ++ checksum c (0 ∷ hash))) (
        omega arith,
        All-append IsByte hash (checksum c (0 ∷ hash))
            (laws.ripemd160_bytes (c.sha256 w.public_key))
            (All-take IsByte 4 (c.sha256 (c.sha256 (0 ∷ hash)))
              (laws.sha256_bytes (c.sha256 (0 ∷ hash)))),
      )

  pub key_hash_of-get_address :
      (w : Wallet)
      → key_hash_of (base58_decode (get_address c w)) ≡ some (hash_pub_key c w.public_key)
  key_hash_of-get_address w =
      let hash = hash_pub_key c w.public_key in
      ap key_hash_of (base58_decode-get_address w)
      ∙ key_hash_of-payload 0 hash (checksum c (0 ∷ hash)) (length-checksum (0 ∷ hash))

  pub new_tx_output-get_address :
      (w : Wallet) (value : ℤ)
      → pos 0 <ℤ value
      → new_tx_output value (get_address c w) ≡ ok (paid_to value (hash_pub_key c w.public_key))
  unfolding new_tx_output lock
  new_tx_output-get_address w value positive =
      let test : leb_ℤ value (pos 0) ≡ false = ground arith in rw (test, key_hash_of-get_address w)

  -- The address of a wallet is valid, and an output of a positive value that is made for it is
  -- locked with the hash of the wallet's public key. SHA-256 gives 32 bytes and RIPEMD-160 bytes.
  pub validate_address-get_address :
      (w : Wallet) (value : ℤ)
      → pos 0 <ℤ value
      → (validate_address c (get_address c w) ≡ true)
        × (new_tx_output value (get_address c w) ≡ ok (paid_to value (hash_pub_key c w.public_key)))
  unfolding validate_address
  validate_address-get_address w value positive =
      let hash = hash_pub_key c w.public_key in
      (
        ap (validate_payload c) (base58_decode-get_address w)
            ∙ validate_payload-payload c 0 hash (length-checksum (0 ∷ hash)),
        new_tx_output-get_address w value positive,
      )
