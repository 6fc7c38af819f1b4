-- ===== src/Core/Payments/Settlement.antt =====
-- internal/core/transaction.go: what `NewEscrowClaimTransaction` and `NewEscrowRefundTransaction`
-- make is accepted.
use go_blockchain.Prelude.{
  ℕ, ◌<◌, ◌^◌, ◌≡◌, refl, sym, ap, ◌∙◌, Bool, true, false, [], ◌∷◌, some, arith, ℤ, pos, ◌<ℤ◌,
  Bytes, bytes_equal_refl, lookup, insert, length, get_elem?, ok, index, inl, inr, ok_injective,
  subst,
}
use go_blockchain.Storage.{Storage}
use go_blockchain.Core.External.{Crypto, SignLaws, HashLaws, PrivateKey, Codec}
use go_blockchain.Core.Output.{TxOutput}
use go_blockchain.Core.Transaction.{
  Transaction, TxInput, PrevTxs, is_coinbase, prev_tx, hash_pub_key, all_known, sign,
}
use go_blockchain.Core.Transaction.Rules.{Unlocks}
use go_blockchain.Core.Transaction.Values.{input_value}
use go_blockchain.Core.Transaction.Accepts.{sum64}
use go_blockchain.Core.Transaction.Signing.{public_key, spent64}
use go_blockchain.Core.Transaction.Effects.{sign_single}
use go_blockchain.Core.Block.{Block}
use go_blockchain.Core.Chain.{Blockchain, get_best_height}
use go_blockchain.Core.Chain.Transactions.{
  find_transaction, collect_prev_txs, sign_transaction, verify_transaction,
}
use go_blockchain.Core.Chain.Transactions.Signed.{
  verify_transaction-sign_transaction, find_transaction_id,
}
use go_blockchain.Core.Wallet.{Wallet}
use go_blockchain.Core.Wallet.Address.{paid_to, new_tx_output-get_address}
use go_blockchain.Core.Payments.{
  spending_input, with_hash, escrow_output, settle, new_escrow_claim_transaction,
  new_escrow_refund_transaction,
}

-- A draw of random numbers always gives a signature.
abbrev pub AlwaysSigns : Crypto → PrivateKey → Type 0
AlwaysSigns c key = (draw : ℕ) (h : Bytes) → (rs : ℕ × ℕ) × (c.ecdsa_sign draw key h ≡ some rs)

-- The wallet's public key is that of its private key.
pub record IsKeyPair (w : Wallet) : Type 0 where
  pub x_fits : w.private_key.x < 2 ^ 256
  pub y_fits : w.private_key.y < 2 ^ 256
  pub own_key : w.public_key ≡ public_key w.private_key

abbrev known_prev : Transaction → PrevTxs
known_prev etx = (etx.id, etx) ∷ []

known_prev-prev_tx :
    (etx : Transaction) (id : Bytes) → etx.id ≡ id → prev_tx (known_prev etx) id ≡ etx
unfolding prev_tx lookup
known_prev-prev_tx etx id h = ground (arith, h, bytes_equal_refl id)

-- The one input and the one output of a settlement.
abbrev settlement :
    Crypto → Codec Transaction → Wallet → Bytes → ℕ → TxOutput → Bytes → Bool → Transaction
settlement c g w id i out witness is_refund =
    with_hash c g (spending_input w.public_key witness is_refund id (pos i) ∷ [])
      (paid_to out.value (hash_pub_key c w.public_key) ∷ [])

module _ {ℓ} {S : Type ℓ} (st : Storage S) (bg : Codec Block) (c : Crypto) (g : Codec Transaction)
    (fuel : ℕ) (hashes : HashLaws c) (bc : Blockchain S) (w : Wallet)
    (laws : SignLaws c w.private_key) (pair : IsKeyPair w) (signs : AlwaysSigns c w.private_key)
    (etx : Transaction) (id : Bytes) (i : ℕ) (out : TxOutput) (height : ℤ)
    (found : find_transaction st bg c g fuel bc id ≡ some (ok etx)) (named : 0 < length id)
    (has : get_elem? etx.vout i ≡ some out) (positive : pos 0 <ℤ out.value)
    (best : get_best_height st bg bc ≡ ok height) where
  settle_signs :
      (witness : Bytes) (is_refund : Bool)
      → settle st bg c g fuel bc w id (pos i) witness is_refund
        ≡ sign_transaction st bg c g fuel bc
            (settlement c g w id i out witness is_refund)
            w.private_key
  unfolding settle escrow_output
  settle_signs witness is_refund =
      rw (found, has, new_tx_output-get_address c hashes w out.value positive)

  settlement-collect :
      (witness : Bytes) (is_refund : Bool)
      → collect_prev_txs st bg c g fuel bc (settlement c g w id i out witness is_refund).vin []
        ≡ some (ok (known_prev etx))
  unfolding collect_prev_txs with_hash insert
  settlement-collect witness is_refund = rw found

  sign_transaction-collected :
      (tx : Transaction) (key : PrivateKey) (prev : PrevTxs)
      → collect_prev_txs st bg c g fuel bc tx.vin [] ≡ some (ok prev)
      → sign_transaction st bg c g fuel bc tx key ≡ some (sign c g tx key prev)
  unfolding sign_transaction
  sign_transaction-collected tx key prev h = rw h

  base :
      (witness : Bytes) (is_refund : Bool)
      → is_coinbase (settlement c g w id i out witness is_refund) ≡ false
  unfolding is_coinbase with_hash
  base witness is_refund = ground arith

  known : (v : TxInput) → v.txid ≡ id → etx.id ≡ id → all_known (known_prev etx) (v ∷ []) ≡ true
  unfolding all_known prev_tx lookup
  known v h e = ground (arith, h, e, bytes_equal_refl id)

  is_index : index (prev_tx (known_prev etx) id).vout (pos i) ≡ ok out
  unfolding index
  is_index =
      let e = find_transaction_id st bg c g fuel bc id etx found in
      rw (known_prev-prev_tx etx id e, has)

  -- A settlement that meets the script of the output is made, and then accepted.
  settle_lem :
      (witness : Bytes) (is_refund : Bool)
      → Unlocks c out (spending_input w.public_key witness is_refund id (pos i)) height
      → (tx : Transaction) × (settle st bg c g fuel bc w id (pos i) witness is_refund
          ≡ some (ok tx))
        × (verify_transaction st bg c g fuel bc tx ≡ some (ok true))
  unfolding sum64 spent64 with_hash
  settle_lem witness is_refund unlocks =
      let v = spending_input w.public_key witness is_refund id (pos i) in
      let tx0 = settlement c g w id i out witness is_refund in
      let e = find_transaction_id st bg c g fuel bc id etx found in
      let collected = settlement-collect witness is_refund in
      let (tx, made) =
        sign_single c g w.private_key laws (known_prev etx) tx0.id v tx0.vout out signs
          (base witness is_refund) (known v refl e) is_index in
      let signed : sign_transaction st bg c g fuel bc tx0 w.private_key ≡ some (ok tx) =
        sign_transaction-collected tx0 w.private_key (known_prev etx) collected ∙ ap some made in
      let value : input_value (known_prev etx) v ≡ out.value = rw is_index in
      (
        tx,
        settle_signs witness is_refund ∙ signed,
        verify_transaction-sign_transaction st bg c g fuel w.private_key laws bc tx0 tx
            (known_prev etx) height pair.x_fits pair.y_fits best (base witness is_refund) collected
            (pair.own_key, tt)
            (
              (λ out' h.
                  subst (λ o. Unlocks c o v height) (ok_injective (sym is_index ∙ h)) unlocks),
              tt,
            )
            (positive, tt) (rw value (ground arith)) signed,
      )

  -- A claim by the wallet whose key hash the output is locked with, for an output of a positive value
  -- that the chain has, with data of the locked hash: the transaction is made, and the chain accepts it.
  -- The wallet's keys are a pair, the id is not empty, the chain's height can be read, and signing does
  -- not fail for want of random numbers.
  pub claim_succeeds :
      (delivered : Bytes)
      → c.sha256 delivered ≡ out.data_hash_lock
      → hash_pub_key c w.public_key ≡ out.pub_key_hash
      → (tx : Transaction) × (new_escrow_claim_transaction st bg c g fuel w id (pos i) delivered bc
          ≡ some (ok tx))
        × (verify_transaction st bg c g fuel bc tx ≡ some (ok true))
  unfolding new_escrow_claim_transaction
  claim_succeeds delivered preimage seller =
      settle_lem delivered false
        (λ any. inr (refl, record { preimage = preimage; by_seller = seller }))

  -- A refund to the wallet whose key hash is the buyer's, for a positive output that the chain has and
  -- whose timeout is below the chain's height: the transaction is made, and the chain accepts it. The
  -- wallet's keys are a pair, the id is not empty, and signing does not fail for want of random numbers.
  pub refund_succeeds :
      out.timeout_block <ℤ height
      → hash_pub_key c w.public_key ≡ out.buyer_pub_key_hash
      → (tx : Transaction) × (new_escrow_refund_transaction st bg c g fuel w id (pos i) bc
          ≡ some (ok tx))
        × (verify_transaction st bg c g fuel bc tx ≡ some (ok true))
  unfolding new_escrow_refund_transaction
  refund_succeeds late buyer =
      settle_lem [] true (λ any. inl (refl, record { timed_out = late; by_buyer = buyer }))
