-- ===== src/Indexer/Tests.antt =====
-- The theorems about the index at a block with an escrow.
use go_blockchain.Prelude.{◌≤◌, ◌≡◌, [], ◌∷◌, some, ℤ, pos, ◌<ℤ◌, Bytes, lookup, codes, length}
use go_blockchain.Core.Output.{TxOutput, script_escrow}
use go_blockchain.Core.Block.{Block}
use go_blockchain.Core.Pow.{draft_block}
use go_blockchain.Indexer.{IndexedEscrow, pending, new_index_store, get_escrow, process_block}
use go_blockchain.Indexer.Lifecycle.{IsKeyed}
use go_blockchain.Indexer.Overdue.{process_block_lem}

abbrev output : TxOutput
output = record {
  value = pos 30;
  pub_key_hash = codes "seller";
  script_type = script_escrow;
  data_hash_lock = codes "lock";
  timeout_block = pos 7;
  buyer_pub_key_hash = codes "buyer";
}

-- The escrow is overdue at the block that has it.
abbrev block : Block
block =
    draft_block (pos 5) (record { id = codes "f"; vin = []; vout = output ∷ [] } ∷ []) [] (pos 9)
      (pos 16)

new_index_store-IsKeyed : IsKeyed new_index_store
unfolding IsKeyed lookup
new_index_store-IsKeyed k e h = cc

process_block_lem_example :
    IsKeyed (process_block block new_index_store)
    × ((tx_id : Bytes) (vout : ℤ) (e : IndexedEscrow)
        → get_escrow tx_id vout (process_block block new_index_store) ≡ some e
        → e.status ≡ pending
        → pos 9 <ℤ e.timeout_block)
    × (length (process_block block new_index_store).recent_blocks ≤ 20)
process_block_lem_example = process_block_lem block new_index_store new_index_store-IsKeyed

abbrev entry : IndexedEscrow
entry = record {
  tx_id = codes "f";
  vout = pos 0;
  amount = pos 30;
  seller_pub_key_hash = [];
  buyer_pub_key_hash = [];
  data_hash_lock = [];
  timeout_block = pos 7;
  status = pending;
  created_at_height = pos 5;
  claimed_tx_id = [];
  preimage = [];
  refunded_tx_id = [];
}
