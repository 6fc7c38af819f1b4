-- ===== src/Core/Wallet.antt =====
-- internal/core/wallet.go, and what transaction_output.go does with addresses. The answer of
-- `ecdsa.GenerateKey` is an argument.
pub mod Address
use go_blockchain.Prelude.{
  ℕ, ◌-◌, Bool, true, false, List, [], ◌∷◌, ◌++◌, Option, none, some, if◌then◌else◌, ltb, ℤ, pos,
  leb_ℤ, Bytes, bytes_equal, length, take, drop, Outcome, ok, err, panic, ◌>>=◌, or_err,
  invalid_address, random_failed,
}
use go_blockchain.Core.External.{Crypto, PrivateKey}
use go_blockchain.Core.Bignum.{fill_bytes}
use go_blockchain.Core.Base58.{base58_encode, base58_decode}
use go_blockchain.Core.Output.{TxOutput, script_p2pkh, script_escrow, script_zkcp}
use go_blockchain.Core.Transaction.{hash_pub_key}

pub record Wallet : Type 0 where
  pub private_key : PrivateKey
  pub public_key : Bytes

abbrev pub version : ℕ
version = 0

abbrev pub address_checksum_len : ℕ
address_checksum_len = 4

unfoldable pub new_key_pair : Option PrivateKey → Outcome (PrivateKey × Bytes)
new_key_pair generated = do
  private ← or_err generated random_failed
  x ← fill_bytes 32 private.x
  y ← fill_bytes 32 private.y
  ok (private, x ++ y)

unfoldable pub new_wallet : Option PrivateKey → Outcome Wallet
new_wallet generated =
    new_key_pair generated >>= λ pair. ok (record { private_key = pair.0; public_key = pair.1 })

-- `pubKeyHash[1 : len(pubKeyHash)-addressChecksumLen]` of a decoded address, if that is long enough.
unfoldable pub key_hash_of : Bytes → Option Bytes
key_hash_of decoded =
    if ltb (length decoded) 5
    then none
    else some (take (length decoded - address_checksum_len - 1) (drop 1 decoded))

module _ (c : Crypto) where
  unfoldable pub checksum : Bytes → Bytes
  checksum payload = take address_checksum_len (c.sha256 (c.sha256 payload))

  unfoldable pub get_address : Wallet → Bytes
  get_address w =
      let versioned_payload = version ∷ hash_pub_key c w.public_key in
      base58_encode (versioned_payload ++ checksum versioned_payload)

  -- `ValidateAddress` on the decoded address; one of at least five bytes has a first one.
  unfoldable pub validate_payload : Bytes → Bool
  validate_payload [] = false
  validate_payload (v ∷ rest) =
      if ltb (length (v ∷ rest)) 5
      then false
      else (let actual = drop (length (v ∷ rest) - address_checksum_len) (v ∷ rest) in
          let hash = take (length (v ∷ rest) - address_checksum_len - 1) rest in
          bytes_equal actual (checksum (v ∷ hash)))

  unfoldable pub validate_address : Bytes → Bool
  validate_address address = validate_payload (base58_decode address)

-- `Lock`
unfoldable pub lock : TxOutput → Bytes → Outcome TxOutput
lock out address = or_err (key_hash_of (base58_decode address)) invalid_address >>= λ hash.
    ok (record out { pub_key_hash = hash })

-- A failing `Lock` panics.
abbrev pub or_die : Outcome TxOutput → Outcome TxOutput
or_die (ok out) = ok out
or_die _ = panic

unfoldable pub new_tx_output : ℤ → Bytes → Outcome TxOutput
new_tx_output value address =
    if leb_ℤ value (pos 0)
    then panic
    else or_die (
        lock
          (record {
            value = value;
            pub_key_hash = [];
            script_type = script_p2pkh;
            data_hash_lock = [];
            timeout_block = pos 0;
            buyer_pub_key_hash = [];
          })
          address)

unfoldable pub new_escrow_output : ℤ → Bytes → Bytes → Bytes → ℤ → Outcome TxOutput
new_escrow_output value seller_address buyer_address hash_lock timeout =
    if leb_ℤ value (pos 0) then panic else elim (key_hash_of (base58_decode seller_address)) [
      | none ↦ panic
      | some seller ↦ elim (key_hash_of (base58_decode buyer_address)) [
        | none ↦ panic
        | some buyer ↦ ok (record {
          value = value;
          pub_key_hash = seller;
          script_type = script_escrow;
          data_hash_lock = hash_lock;
          timeout_block = timeout;
          buyer_pub_key_hash = buyer;
        })
      ]
    ]

unfoldable pub new_zkcp_output : ℤ → Bytes → Bytes → Bytes → ℤ → Outcome TxOutput
new_zkcp_output value seller_address buyer_address hash_lock timeout =
    new_escrow_output value seller_address buyer_address hash_lock timeout >>= λ out.
    ok (record out { script_type = script_zkcp })
