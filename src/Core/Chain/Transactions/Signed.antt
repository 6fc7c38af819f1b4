-- ===== src/Core/Chain/Transactions/Signed.antt =====
-- What `SignTransaction` signs, `VerifyTransaction` accepts on the same chain.
use go_blockchain.Prelude.{
  ℕ, ◌<◌, ◌^◌, ◌≡◌, refl, sym, ap, ◌∙◌, true, false, List, [], ◌∷◌, map, Option, none, some, arith,
  ℤ, pos, ◌≤ℤ◌, Bytes, bytes_equal→eq, insert, All, ok, or_err, >>>-cong, tx_not_found,
  some_injective, or_err-eq-ok,
}
use go_blockchain.Storage.{Storage}
use go_blockchain.Core.External.{Crypto, SignLaws, PrivateKey, Codec}
use go_blockchain.Core.Transaction.{
  Transaction, TxInput, PrevTxs, is_coinbase, trimmed_input, sign, verify,
}
use go_blockchain.Core.Transaction.Accepts.{IsPositive, sum64}
use go_blockchain.Core.Transaction.Signing.{ShowsKey, MeetsScript, spent64, verify-sign}
use go_blockchain.Core.Transaction.Effects.{sign_trimmed}
use go_blockchain.Core.Block.{Block}
use go_blockchain.Core.Chain.{Blockchain, blocks, get_best_height}
use go_blockchain.Core.Chain.Transactions.{
  find_in_block, find_in_blocks, find_transaction, collect_prev_txs, sign_transaction,
  verify_transaction,
}

module _ {ℓ} {S : Type ℓ} (st : Storage S) (bg : Codec Block) (c : Crypto) (g : Codec Transaction)
    (fuel : ℕ) where
  -- The previous transactions depend on the ids that the inputs name.
  collect_prev_txs_trimmed :
      (bc : Blockchain S) (vs ws : List TxInput) (prev : PrevTxs)
      → map trimmed_input vs ≡ map trimmed_input ws
      → collect_prev_txs st bg c g fuel bc vs prev ≡ collect_prev_txs st bg c g fuel bc ws prev
  unfolding collect_prev_txs trimmed_input
  collect_prev_txs_trimmed bc [] [] prev h = refl
  collect_prev_txs_trimmed bc [] (w ∷ ws) prev h = cc
  collect_prev_txs_trimmed bc (v ∷ vs) [] prev h = cc
  collect_prev_txs_trimmed bc (v ∷ vs) (w ∷ ws) prev h =
      let id : v.txid ≡ w.txid = cc in
      let rest : map trimmed_input vs ≡ map trimmed_input ws = cc in
      rw id (
        >>>-cong (find_transaction st bg c g fuel bc w.txid) _ _
          (λ tx. collect_prev_txs_trimmed bc vs ws (insert tx.id tx prev) rest))

  verify_transaction_known :
      (bc : Blockchain S) (tx : Transaction) (prev : PrevTxs) (height : ℤ)
      → is_coinbase tx ≡ false
      → collect_prev_txs st bg c g fuel bc tx.vin [] ≡ some (ok prev)
      → get_best_height st bg bc ≡ ok height
      → verify_transaction st bg c g fuel bc tx ≡ some (verify c g tx prev height)
  unfolding verify_transaction
  verify_transaction_known bc tx prev height base collected best = rw (base, collected, best)

  pub verify_transaction-sign_transaction :
      (key : PrivateKey) (laws : SignLaws c key) (bc : Blockchain S) (tx tx' : Transaction)
      (prev : PrevTxs) (height : ℤ)
      → key.x < 2 ^ 256
      → key.y < 2 ^ 256
      → get_best_height st bg bc ≡ ok height
      → is_coinbase tx ≡ false
      → collect_prev_txs st bg c g fuel bc tx.vin [] ≡ some (ok prev)
      → All (ShowsKey key) tx.vin
      → All (MeetsScript c prev height) tx.vin
      → All IsPositive tx.vout
      → sum64 (pos 0) tx.vout ≤ℤ spent64 prev (pos 0) tx.vin
      → sign_transaction st bg c g fuel bc tx key ≡ some (ok tx')
      → verify_transaction st bg c g fuel bc tx' ≡ some (ok true)
  unfolding sign_transaction
  verify_transaction-sign_transaction key laws bc tx tx' prev height x_fits y_fits best base
        collected shown meets positive covered signed =
      let run : sign_transaction st bg c g fuel bc tx key ≡ some (sign c g tx key prev) =
        rw (collected, sign_transaction) in
      let made : sign c g tx key prev ≡ ok tx' = some_injective (sym run ∙ signed) in
      let (trimmed, still) = sign_trimmed c g key laws prev tx tx' base made in
      verify_transaction_known bc tx' prev height still
        (collect_prev_txs_trimmed bc tx'.vin tx.vin [] trimmed ∙ collected) best
      ∙ ap some (
          verify-sign c g key laws prev tx height x_fits y_fits base made shown meets positive
            covered)

find_in_block_id :
    (id : Bytes) (txs : List Transaction) (tx : Transaction)
    → find_in_block id txs ≡ some tx
    → tx.id ≡ id
unfolding find_in_block
find_in_block_id id [] tx h = cc
find_in_block_id id (t ∷ txs) tx h =
    ground (arith, bytes_equal→eq t.id id, find_in_block_id id txs tx)

find_in_blocks_id :
    (id : Bytes) (bs : List Block) (tx : Transaction) → find_in_blocks id bs ≡ some tx → tx.id ≡ id
unfolding find_in_blocks
find_in_blocks_id id [] tx h = cc
find_in_blocks_id id (b ∷ bs) tx h =
    go (find_in_block id b.transactions) refl h (find_in_blocks_id id bs tx)
  where
    go :
        (r : Option Transaction)
        → find_in_block id b.transactions ≡ r
        → (elim r [ some t ↦ some t | none ↦ find_in_blocks id bs ]) ≡ some tx
        → (find_in_blocks id bs ≡ some tx → tx.id ≡ id)
        → tx.id ≡ id
    go none miss e rest = rest e
    go (some t) hit e rest = find_in_block_id id b.transactions tx (hit ∙ e)

-- A transaction that is found has the id that was asked for.
pub find_transaction_id {ℓ} :
    {S : Type ℓ} (st : Storage S) (bg : Codec Block) (c : Crypto) (g : Codec Transaction) (fuel : ℕ)
    (bc : Blockchain S) (id : Bytes) (tx : Transaction)
    → find_transaction st bg c g fuel bc id ≡ some (ok tx)
    → tx.id ≡ id
unfolding find_transaction
find_transaction_id st bg c g fuel bc id tx h = go (blocks st bg fuel bc) refl h
  where
    go :
        (r : Option (List Block))
        → blocks st bg fuel bc ≡ r
        → (elim r [ none ↦ none | some bs ↦ some (or_err (find_in_blocks id bs) tx_not_found) ])
          ≡ some (ok tx)
        → tx.id ≡ id
    go none miss e = cc
    go (some bs) hit e =
        find_in_blocks_id id bs tx
          (or_err-eq-ok (find_in_blocks id bs) tx_not_found (some_injective e))
