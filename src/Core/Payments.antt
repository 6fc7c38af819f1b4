-- ===== src/Core/Payments.antt =====
-- internal/core/transaction.go: the constructors of transactions; `BuildZKCPTransaction` of
-- internal/marketplace/escrow_manager.go does the same for a ZKCP output. Ids are keys of the maps
-- as they are, so that no spelling has to be decoded.
pub mod Conservation
pub mod Settlement
mod Tests
use go_blockchain.Prelude.{
  ℕ, Bool, true, false, List, [], ◌∷◌, ◌++◌, map, Option, none, some, if◌then◌else◌, ℤ, pos, negsuc,
  sub64, ltb_ℤ, Bytes, Assoc, get_elem?, Outcome, ok, err, panic, ◌>>=◌, or_err, Running, ◌>>>◌,
  not_enough_funds, invalid_output_index, invalid_address,
}
use go_blockchain.Storage.{Storage}
use go_blockchain.Core.External.{Crypto, Codec}
use go_blockchain.Core.Output.{TxOutput}
use go_blockchain.Core.Transaction.{Transaction, TxInput, hash, hash_pub_key}
use go_blockchain.Core.Block.{Block}
use go_blockchain.Core.Chain.{Blockchain}
use go_blockchain.Core.Chain.Transactions.{find_transaction, sign_transaction}
use go_blockchain.Core.Wallet.{
  Wallet, get_address, validate_address, new_tx_output, new_escrow_output, new_zkcp_output,
}
use go_blockchain.Core.Utxo.{Spendable, find_spendable_outputs}

-- subsidy
abbrev pub subsidy : ℤ
subsidy = pos 10

-- An input that spends, not yet signed.
abbrev pub spending_input : Bytes → Bytes → Bool → Bytes → ℤ → TxInput
spending_input key witness is_refund txid vout = record {
  txid = txid;
  vout = vout;
  signature = [];
  pub_key = key;
  escrow_witness = witness;
  is_refund = is_refund;
}

-- The two loops that build the list of inputs.
unfoldable pub inputs_from : Bytes → Assoc (List ℤ) → List TxInput
inputs_from key [] = []
inputs_from key ((txid, outs) ∷ rest) =
    map (spending_input key [] false txid) outs ++ inputs_from key rest

-- The first output, and a change output if more than the amount was found.
unfoldable pub with_change : TxOutput → ℤ → ℤ → Bytes → Outcome (List TxOutput)
with_change first acc amount from =
    if ltb_ℤ amount acc
    then (new_tx_output (sub64 acc amount) from >>= λ change. ok (first ∷ change ∷ []))
    else ok (first ∷ [])

module _ (c : Crypto) (g : Codec Transaction) where
  -- The transaction with its id.
  unfoldable pub with_hash : List TxInput → List TxOutput → Transaction
  with_hash vin vout =
      let tx : Transaction = record { id = []; vin = vin; vout = vout } in
      record tx { id = hash c g tx }

  -- `NewCoinbaseTX`; twenty random bytes in hex, or their failure, are an argument.
  unfoldable pub new_coinbase_tx : Outcome Bytes → Bytes → Bytes → Outcome Transaction
  new_coinbase_tx random to text = elim text [ [] ↦ random | x ∷ xs ↦ ok (x ∷ xs) ] >>= λ content.
      new_tx_output subsidy to >>= λ out. ok (
        with_hash
          (record {
            txid = [];
            vout = negsuc 0;
            signature = [];
            pub_key = content;
            escrow_witness = [];
            is_refund = false;
          }
            ∷ [])
          (out ∷ []))

module _ {ℓ} {S : Type ℓ} (st : Storage S) (bg : Codec Block) (c : Crypto)
    (g : Codec Transaction) where
  module _ (og : Codec (List TxOutput)) (fuel : ℕ) where
    -- What the three payments share: `first` makes the output that is paid for.
    unfoldable pub pay :
        Blockchain S → Wallet → ℤ → (Bytes → Outcome TxOutput) → Running Transaction
    pay bc w amount first =
        some (find_spendable_outputs st og bc.db (hash_pub_key c w.public_key) amount) >>> λ found.
        if ltb_ℤ found.accumulated amount
        then some (err not_enough_funds)
        else (some (
              first (get_address c w) >>= λ out.
              with_change out found.accumulated amount (get_address c w))
            >>> λ outs.
                sign_transaction st bg c g fuel bc
                  (with_hash c g (inputs_from w.public_key found.outputs) outs) w.private_key)

    unfoldable pub new_utxo_transaction : Wallet → Bytes → ℤ → Blockchain S → Running Transaction
    new_utxo_transaction w to amount bc = pay bc w amount (λ from. new_tx_output amount to)

    unfoldable pub new_escrow_transaction :
        Wallet → Bytes → ℤ → Bytes → ℤ → Blockchain S → Running Transaction
    new_escrow_transaction w seller amount hash_lock timeout bc =
        pay bc w amount (λ from. new_escrow_output amount seller from hash_lock timeout)

    -- `BuildZKCPTransaction`, and `BuildEscrowTransaction` with its test.
    unfoldable pub build_zkcp_transaction :
        Wallet → Bytes → ℤ → Bytes → ℤ → Blockchain S → Running Transaction
    build_zkcp_transaction w seller amount hash_lock timeout bc =
        if validate_address c seller
        then pay bc w amount (λ from. new_zkcp_output amount seller from hash_lock timeout)
        else some (err invalid_address)

    unfoldable pub build_escrow_transaction :
        Wallet → Bytes → ℤ → Bytes → ℤ → Blockchain S → Running Transaction
    build_escrow_transaction w seller amount hash_lock timeout bc =
        if validate_address c seller
        then new_escrow_transaction w seller amount hash_lock timeout bc
        else some (err invalid_address)

  module _ (fuel : ℕ) where
    -- `escrowTx.Vout[i]` behind its test of the index.
    unfoldable pub escrow_output : Transaction → ℤ → Outcome TxOutput
    escrow_output tx (pos i) = or_err (get_elem? tx.vout i) invalid_output_index
    escrow_output tx (negsuc i) = err invalid_output_index

    -- What a claim and a refund share.
    unfoldable pub settle : Blockchain S → Wallet → Bytes → ℤ → Bytes → Bool → Running Transaction
    settle bc w escrow_id index witness is_refund =
        find_transaction st bg c g fuel bc escrow_id >>> λ escrow_tx.
        some (escrow_output escrow_tx index) >>> λ escrow.
        some (new_tx_output escrow.value (get_address c w)) >>> λ out.
        sign_transaction st bg c g fuel bc
          (with_hash c g (spending_input w.public_key witness is_refund escrow_id index ∷ [])
            (out ∷ []))
          w.private_key

    unfoldable pub new_escrow_claim_transaction :
        Wallet → Bytes → ℤ → Bytes → Blockchain S → Running Transaction
    new_escrow_claim_transaction w escrow_id index delivered bc =
        settle bc w escrow_id index delivered false

    unfoldable pub new_escrow_refund_transaction :
        Wallet → Bytes → ℤ → Blockchain S → Running Transaction
    new_escrow_refund_transaction w escrow_id index bc = settle bc w escrow_id index [] true
