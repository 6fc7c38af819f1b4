-- ===== src/Mcp/Wallets.antt =====
-- internal/mcp/keyring.go: the wallets of a session. The map from addresses to wallets is an
-- association list, and a loop over it goes in the list's order; the lock is left out. The answer of
-- `ecdsa.GenerateKey` is an argument.
use go_blockchain.Prelude.{
  ◌&&◌, [], ◌∷◌, Option, none, some, if◌then◌else◌, ◌==◌, Bytes, bytes_equal, Assoc, lookup, insert,
  Outcome, ok, ◌>>=◌, or_err, index, tx_not_found, not_found,
}
use go_blockchain.Core.External.{Crypto, PrivateKey, Codec}
use go_blockchain.Core.Output.{TxOutput, script_escrow}
use go_blockchain.Core.Transaction.{Transaction, TxInput, PrevTxs, hash_pub_key, sign}
use go_blockchain.Core.Wallet.{Wallet, new_wallet, get_address}

pub record Keyring : Type 0 where
  pub keys : Assoc Wallet
  pub primary : Bytes

-- `GetPrimaryAddress`
unfoldable pub get_primary_address : Keyring → Bytes
get_primary_address kr = kr.primary

unfoldable pub get_wallet : Keyring → Bytes → Outcome Wallet
get_wallet kr address = or_err (lookup address kr.keys) not_found

-- The hash of the key that `SignTransaction` looks for.
unfoldable pub wanted_key_hash : TxInput → TxOutput → Bytes
wanted_key_hash vin out =
    if vin.is_refund && out.script_type == script_escrow
    then out.buyer_pub_key_hash
    else out.pub_key_hash

module _ (c : Crypto) where
  unfoldable pub new_keyring : Option PrivateKey → Outcome Keyring
  new_keyring generated = new_wallet generated >>= λ w.
      let addr = get_address c w in ok (record { keys = insert addr w []; primary = addr })

  unfoldable pub generate_new_wallet : Option PrivateKey → Keyring → Outcome (Keyring × Bytes)
  generate_new_wallet generated kr = new_wallet generated >>= λ w.
      let addr = get_address c w in ok (record kr { keys = insert addr w kr.keys }, addr)

  -- The loop over the wallets, with its `break`.
  unfoldable pub matching_wallet : Bytes → Assoc Wallet → Option Wallet
  matching_wallet pkh [] = none
  matching_wallet pkh ((addr, w) ∷ rest) =
      if bytes_equal (hash_pub_key c w.public_key) pkh then some w else matching_wallet pkh rest

  module _ (g : Codec Transaction) where
    -- `SignTransaction`, for a transaction with the first input `vin`.
    unfoldable pub sign_for : Keyring → Transaction → PrevTxs → TxInput → Outcome Transaction
    sign_for kr tx prev vin = do
      prev_tx ← or_err (lookup vin.txid prev) tx_not_found
      prev_out ← index prev_tx.vout vin.vout
      w ← or_err (matching_wallet (wanted_key_hash vin prev_out) kr.keys) not_found
      sign c g tx w.private_key prev

    unfoldable pub keyring_sign_transaction : Keyring → Transaction → PrevTxs → Outcome Transaction
    keyring_sign_transaction kr tx prev = elim tx.vin [
      | [] ↦ ok tx
      | vin ∷ rest ↦ sign_for kr tx prev vin
    ]
