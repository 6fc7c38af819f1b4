-- ===== src/Core/Chain/Transactions.antt =====
-- internal/core/blockchain.go: transactions of the chain, and `MineBlock`. A loop that stops early
-- reads the list of the whole walk here. The height, an `int`, is one of 64 bits.
pub mod Mined
pub mod Signed
use go_blockchain.Prelude.{
  ℕ, Bool, true, false, List, [], ◌∷◌, Option, none, some, if◌then◌else◌, ℤ, pos, add64, Bytes,
  bytes_equal, insert, Outcome, ok, err, panic, or_err, Running, ◌>>>◌, tx_not_found,
  invalid_transaction,
}
use go_blockchain.Storage.{Storage}
use go_blockchain.Core.External.{Crypto, PrivateKey, Codec}
use go_blockchain.Core.Transaction.{Transaction, TxInput, PrevTxs, is_coinbase, sign, verify}
use go_blockchain.Core.Block.{Block, serialize_block}
use go_blockchain.Core.Pow.{new_block}
use go_blockchain.Core.Chain.{Blockchain, blocks, get_block, get_best_height, next_bits}

unfoldable pub find_in_block : Bytes → List Transaction → Option Transaction
find_in_block id [] = none
find_in_block id (tx ∷ txs) = if bytes_equal tx.id id then some tx else find_in_block id txs

unfoldable pub find_in_blocks : Bytes → List Block → Option Transaction
find_in_blocks id [] = none
find_in_blocks id (b ∷ bs) = elim (find_in_block id b.transactions) [
  | some tx ↦ some tx
  | none ↦ find_in_blocks id bs
]

module _ {ℓ} {S : Type ℓ} (st : Storage S) (bg : Codec Block) (c : Crypto) (g : Codec Transaction)
    (fuel : ℕ) where
  unfoldable pub find_transaction : Blockchain S → Bytes → Running Transaction
  find_transaction bc id = elim (blocks st bg fuel bc) [
    | none ↦ none
    | some bs ↦ some (or_err (find_in_blocks id bs) tx_not_found)
  ]

  -- The loop that fills `prevTXs`.
  unfoldable pub collect_prev_txs : Blockchain S → List TxInput → PrevTxs → Running PrevTxs
  collect_prev_txs bc [] prev = some (ok prev)
  collect_prev_txs bc (vin ∷ rest) prev =
      find_transaction bc vin.txid >>> λ tx. collect_prev_txs bc rest (insert tx.id tx prev)

  unfoldable pub sign_transaction : Blockchain S → Transaction → PrivateKey → Running Transaction
  sign_transaction bc tx key = collect_prev_txs bc tx.vin [] >>> λ prev. some (sign c g tx key prev)

  unfoldable pub verify_transaction : Blockchain S → Transaction → Running Bool
  verify_transaction bc tx =
      if is_coinbase tx
      then some (ok true)
      else (collect_prev_txs bc tx.vin [] >>> (λ prev.
          some (get_best_height st bg bc) >>> λ height. some (verify c g tx prev height)))

  -- The first loop of `MineBlock`.
  unfoldable pub verify_all : Blockchain S → List Transaction → Running Bool
  verify_all bc [] = some (ok true)
  verify_all bc (tx ∷ txs) = verify_transaction bc tx >>> λ valid.
      if valid then verify_all bc txs else some (err invalid_transaction)

  -- `MineBlock` at time `now`: the block and the chain after it.
  unfoldable pub mine_block :
      (ℕ → Bool) → ℤ → Blockchain S → List Transaction → Running (Block × Blockchain S)
  mine_block is_done now bc txs = verify_all bc txs >>> (λ _.
      some (st.get_tip bc.db) >>> (λ last_hash. some (get_block st bg bc.db last_hash) >>> (λ last.
        next_bits st bg fuel bc.db last >>> (λ bits.
          new_block c g is_done fuel now txs last_hash (add64 last.height (pos 1)) bits >>> (λ b.
            some (st.save_block_and_tip bc.db b.hash (serialize_block bg b))
            >>> (λ s. some (ok (b, record { tip = b.hash; db = s }))))))))
