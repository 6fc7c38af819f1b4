-- ===== src/Network/Included.antt =====
-- internal/network/server.go: a block that is added empties the mempool of its transactions.
use go_blockchain.Prelude.{
  ◌≡◌, sym, ap, ◌∙◌, List, [], ◌∷◌, none, some, arith, Bytes, bytes_equal_refl, Assoc, lookup,
  delete, lookup-delete, All, ok, >>>-eq-ok, ok_injective, some_injective, subst,
}
use go_blockchain.Core.Transaction.{Transaction}
use go_blockchain.Core.Block.{Block, deserialize_block}
use go_blockchain.Core.Chain.{Blockchain, add_block}
use go_blockchain.Core.Utxo.{reindex}
use go_blockchain.Network.{
  Env, Server, BlockMsg, delete_txs, send_get_data, reindexed, reindexed_or_logged, next_in_transit,
  notify_block, block_added, add_received, handle_block,
}
use go_blockchain.Network.Requests.{handle_block-decoded}
use go_blockchain.Network.Mempool.{send-SameData}

abbrev pub IsAbsent : Assoc Transaction → Transaction → Type 0
IsAbsent pool tx = lookup tx.id pool ≡ none

delete_txs_keep :
    (txs : List Transaction) (pool : Assoc Transaction) (id : Bytes)
    → lookup id pool ≡ none
    → lookup id (delete_txs txs pool) ≡ none
unfolding delete_txs
delete_txs_keep [] pool id h = h
delete_txs_keep (tx ∷ txs) pool id h =
    delete_txs_keep txs (delete tx.id pool) id (lookup-delete tx.id id pool ∙ ground (arith, h))

delete_txs-IsAbsent :
    (txs : List Transaction) (pool : Assoc Transaction) → All (IsAbsent (delete_txs txs pool)) txs
unfolding delete_txs
delete_txs-IsAbsent [] pool = tt
delete_txs-IsAbsent (tx ∷ txs) pool = (
  delete_txs_keep txs (delete tx.id pool) tx.id
      (lookup-delete tx.id tx.id pool ∙ rw (bytes_equal_refl tx.id)),
  delete_txs-IsAbsent txs (delete tx.id pool),
)

module _ {ℓ} {S : Type ℓ} (env : Env S) where
  reindexed_or_logged_pool :
      (s s' : Server S) → reindexed_or_logged env s ≡ some (ok s') → s'.mempool ≡ s.mempool
  unfolding reindexed_or_logged reindexed
  reindexed_or_logged_pool s s' h =
      let (r, made, e) = >>>-eq-ok (reindexed env s) _ h in
      let (left, _, e') = >>>-eq-ok (reindex env.st env.og env.bg env.fuel s.bc) _ made in
      ap (λ x. x.mempool) (sym (ok_injective (some_injective e)))
      ∙ ap (λ x. x.0.mempool) (sym (ok_injective (some_injective e')))

  next_in_transit_pool :
      (from : Bytes) (hashes : List Bytes) (s s' : Server S)
      → next_in_transit env from hashes s ≡ some (ok s')
      → s'.mempool ≡ s.mempool
  unfolding next_in_transit send_get_data
  next_in_transit_pool from [] s s' h = reindexed_or_logged_pool s s' h
  next_in_transit_pool from (hash ∷ rest) s s' h =
      (send-SameData env _ _ from _ s' (some_injective h)).0

  add_received_pool :
      (from : Bytes) (b : Block) (bc : Blockchain S) (s s' : Server S)
      → add_block env.st env.bg env.c env.g env.authorized_keys s.bc b ≡ ok bc
      → add_received env from b s ≡ some (ok s')
      → s'.mempool ≡ delete_txs b.transactions s.mempool
  unfolding add_received block_added notify_block
  add_received_pool from b bc s s' added h =
      next_in_transit_pool from s.blocks_in_transit _ s' (rw (add_received, added) at h)

  -- When `handleBlock` has added the block that it received, none of its transactions is in the mempool,
  -- whether the node then asks for another block or rebuilds its UTXO set, and whether `Reindex`
  -- succeeds or fails there.
  pub handle_block-IsAbsent :
      (payload : Bytes) (msg : BlockMsg) (b : Block) (bc : Blockchain S) (s s' : Server S)
      → env.wire.block.decode payload ≡ some msg
      → deserialize_block env.bg msg.block ≡ ok b
      → add_block env.st env.bg env.c env.g env.authorized_keys s.bc b ≡ ok bc
      → handle_block env payload s ≡ some (ok s')
      → All (IsAbsent s'.mempool) b.transactions
  handle_block-IsAbsent payload msg b bc s s' read block_read added h =
      let pool =
        add_received_pool msg.addr_from b bc s s' added
          (sym (handle_block-decoded env env payload msg b s read block_read) ∙ h) in
      subst (λ m. All (IsAbsent m) b.transactions) (sym pool)
        (delete_txs-IsAbsent b.transactions s.mempool)
