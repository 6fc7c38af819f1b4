-- ===== src/Network/Handlers.antt =====
-- internal/network/server.go: the other handlers, mining, `handleConnection` and the operations that
-- other packages call.
use go_blockchain.Prelude.{
  ℕ, zero, suc, Bool, true, false, ◌||◌, not, List, [], ◌∷◌, ◌++◌, none, some, if◌then◌else◌, ◌==◌,
  ltb, ℤ, ltb_ℤ, Bytes, map, bytes_equal, codes, Assoc, lookup, insert, length, take, drop, Outcome,
  ok, err, panic, ◌>>=◌, Running, ◌>>>◌, in_mempool, invalid_transaction,
}
use go_blockchain.Core.Transaction.{Transaction}
use go_blockchain.Core.Block.{Block}
use go_blockchain.Core.Chain.{Blockchain, get_block, get_best_height, get_block_hashes}
use go_blockchain.Core.Chain.Transactions.{verify_transaction, mine_block}
use go_blockchain.Core.Payments.{new_coinbase_tx}
use go_blockchain.Network.{
  Env, Server, GetData, Verzion, command_length, max_msg_size, bytes_to_command, without_bytes,
  add_node, delete_txs, remove_subscriber, send_block, send_inv, send_get_blocks, send_get_data,
  send_tx, send_version, send_inv_to, notify_block, reindexed_or_logged, handle_addr, handle_block,
}

-- `isFirstNode`
unfoldable pub is_first_node : Bytes → List Bytes → Bool
is_first_node self [] = false
is_first_node self (node ∷ nodes) = bytes_equal self node

-- What `io.LimitReader` lets through.
unfoldable pub limited : Bytes → Bytes
limited stream = take max_msg_size stream

-- What a round of mining needs: two transactions, an address for the reward, and a known node.
unfoldable pub may_mine {ℓ} : {S : Type ℓ} → Server S → Bool
may_mine s =
    not (ltb (length s.mempool) 2 || length s.mining_address == 0 || length s.known_nodes == 0)

unfoldable pub subscribe_blocks {ℓ} : {S : Type ℓ} → ℕ → Server S → Server S
subscribe_blocks channel s = record s {
  block_subscribers = s.block_subscribers ++ (channel, []) ∷ [];
}

unfoldable pub unsubscribe_blocks {ℓ} : {S : Type ℓ} → ℕ → Server S → Server S
unsubscribe_blocks channel s = record s {
  block_subscribers = remove_subscriber channel s.block_subscribers;
}

unfoldable pub mempool_snapshot {ℓ} : {S : Type ℓ} → Server S → List Transaction
mempool_snapshot s = map (λ p. p.1) s.mempool

module _ {ℓ} {S : Type ℓ} (env : Env S) where
  -- `handleInv` asks for the first of the blocks, or of the transactions if it does not have it.
  unfoldable pub handle_inv_block : Bytes → List Bytes → Server S → Outcome (Server S)
  handle_inv_block from [] s = ok s
  handle_inv_block from (hash ∷ rest) s =
      send_get_data env from (codes "block") hash
        (record s { blocks_in_transit = without_bytes hash (hash ∷ rest) })

  unfoldable pub handle_inv_tx : Bytes → List Bytes → Server S → Outcome (Server S)
  handle_inv_tx from [] s = ok s
  handle_inv_tx from (id ∷ rest) s = elim (lookup id s.mempool) [
    | some tx ↦ ok s
    | none ↦ send_get_data env from (codes "tx") id s
  ]

  unfoldable pub handle_inv : Bytes → Server S → Outcome (Server S)
  handle_inv payload s = elim (env.wire.inv.decode payload) [
    | none ↦ ok s
    | some msg ↦
        (if bytes_equal msg.kind (codes "block")
          then handle_inv_block msg.addr_from msg.items s
          else ok s)
        >>= λ s'.
            if bytes_equal msg.kind (codes "tx")
            then handle_inv_tx msg.addr_from msg.items s'
            else ok s'
  ]

  unfoldable pub handle_get_blocks : Bytes → Server S → Running (Server S)
  handle_get_blocks payload s = elim (env.wire.getblocks.decode payload) [
    | none ↦ some (ok s)
    | some from ↦ elim (get_block_hashes env.st env.bg env.fuel s.bc) [
      | none ↦ none
      | some hashes ↦ some (send_inv env from (codes "block") hashes s)
    ]
  ]

  unfoldable pub answer_block : GetData → Server S → Outcome (Server S)
  answer_block msg s = elim (get_block env.st env.bg s.bc.db msg.id) [
    | ok b ↦ send_block env msg.addr_from b s
    | err e ↦ ok s
    | panic ↦ panic
  ]

  unfoldable pub answer_tx : GetData → Server S → Outcome (Server S)
  answer_tx msg s = elim (lookup msg.id s.mempool) [
    | none ↦ ok s
    | some tx ↦ send_tx env msg.addr_from tx s
  ]

  -- A block that cannot be read ends the handler; the kind of its request is then not "tx".
  unfoldable pub handle_get_data : Bytes → Server S → Outcome (Server S)
  handle_get_data payload s = elim (env.wire.getdata.decode payload) [
    | none ↦ ok s
    | some msg ↦
        (if bytes_equal msg.kind (codes "block") then answer_block msg s else ok s) >>= λ s'.
        if bytes_equal msg.kind (codes "tx") then answer_tx msg s' else ok s'
  ]

  -- `valid, _ := VerifyTransaction(...)`
  unfoldable pub or_invalid : Running Bool → Running Bool
  or_invalid none = none
  or_invalid (some panic) = some panic
  or_invalid (some (err e)) = some (ok false)
  or_invalid (some (ok valid)) = some (ok valid)

  -- The transactions of the mempool that verify.
  unfoldable pub valid_txs : Blockchain S → Assoc Transaction → Running (List Transaction)
  valid_txs bc [] = some (ok [])
  valid_txs bc ((id, tx) ∷ pool) =
      or_invalid (verify_transaction env.st env.bg env.c env.g env.fuel bc tx) >>> λ valid.
      valid_txs bc pool >>> λ rest. some (ok (if valid then tx ∷ rest else rest))

  -- What follows a block that was mined.
  unfoldable pub block_mined : List Transaction → Block → Server S → Running (Server S)
  block_mined txs b s = reindexed_or_logged env s >>> λ s'.
      let s'' = record (notify_block env b s') { mempool = delete_txs txs s'.mempool } in
      some (send_inv_to env s''.known_nodes (s''.node_address ∷ []) (codes "block") b.hash s'')

  -- One round of the loop of `handleTx`: whether it goes on, and the state. An error ends the loop.
  unfoldable pub mine_with : ℕ → List Transaction → Server S → Running (Bool × Server S)
  mine_with round txs s =
      elim (new_coinbase_tx env.c env.g (env.random round) s.mining_address []) [
        | panic ↦ some panic
        | err e ↦ some (ok (false, s))
        | ok coinbase ↦
            let all = txs ++ coinbase ∷ [] in
            elim (mine_block env.st env.bg env.c env.g env.fuel env.is_done (env.now round) s.bc
              all) [
                | none ↦ none
                | some panic ↦ some panic
                | some (err e) ↦ some (ok (false, s))
                | some (ok (b, bc)) ↦
                    block_mined all b (record s { bc = bc }) >>> λ s'. some (ok (true, s'))
              ]
      ]

  unfoldable pub mine_round : ℕ → Server S → Running (Bool × Server S)
  mine_round round s =
      if not (may_mine s)
      then some (ok (false, s))
      else (valid_txs s.bc s.mempool >>> λ txs. elim txs [
        | [] ↦ some (ok (false, s))
        | tx ∷ rest ↦ mine_with round (tx ∷ rest) s
      ])

  unfoldable pub mine_loop : ℕ → Server S → Running (Server S)
  mine_loop zero s = none
  mine_loop (suc rounds) s = mine_round rounds s >>> λ done.
      let rest = mine_loop rounds done.1 in if done.0 then rest else some (ok done.1)

  -- `handleTx` behind the decoding.
  unfoldable pub tx_received : Bytes → Transaction → Server S → Running (Server S)
  tx_received from tx s =
      let s' = record s { mempool = insert tx.id tx s.mempool } in
      if is_first_node s'.node_address s'.known_nodes
      then some (send_inv_to env s'.known_nodes (s'.node_address ∷ from ∷ []) (codes "tx") tx.id s')
      else mine_loop env.fuel s'

  unfoldable pub handle_tx : Bytes → Server S → Running (Server S)
  handle_tx payload s = elim (env.wire.tx.decode payload) [
    | none ↦ some (ok s)
    | some msg ↦ elim (env.g.decode msg.transaction) [
      | none ↦ some (ok s)
      | some tx ↦ tx_received msg.add_from tx s
    ]
  ]

  unfoldable pub compare_heights : Verzion → ℤ → Server S → Outcome (Server S)
  compare_heights msg mine s =
      if ltb_ℤ mine msg.best_height
      then send_get_blocks env msg.addr_from s
      else if ltb_ℤ msg.best_height mine
      then send_version env msg.addr_from s
      else ok s

  unfoldable pub handle_version : Bytes → Server S → Outcome (Server S)
  handle_version payload s = elim (env.wire.version.decode payload) [
    | none ↦ ok s
    | some msg ↦ elim (get_best_height env.st env.bg s.bc) [
      | panic ↦ panic
      | err e ↦ ok s
      | ok mine ↦ compare_heights msg mine s >>= λ s'.
          ok (record s' { known_nodes = add_node msg.addr_from s'.known_nodes })
    ]
  ]

  -- The commands with a handler, by their names.
  unfoldable pub dispatch : Bytes → Bytes → Server S → Running (Server S)
  dispatch command payload s =
      if bytes_equal command (codes "addr")
      then some (handle_addr env payload s)
      else if bytes_equal command (codes "block")
      then handle_block env payload s
      else if bytes_equal command (codes "inv")
      then some (handle_inv payload s)
      else if bytes_equal command (codes "getblocks")
      then handle_get_blocks payload s
      else if bytes_equal command (codes "getdata")
      then some (handle_get_data payload s)
      else if bytes_equal command (codes "tx")
      then handle_tx payload s
      else if bytes_equal command (codes "version")
      then some (handle_version payload s)
      else some (ok s)

  unfoldable pub handle_request : Bytes → Server S → Running (Server S)
  handle_request request s =
      if ltb (length request) command_length
      then some (ok s)
      else dispatch (bytes_to_command (take command_length request)) (drop command_length request) s

  unfoldable pub handle_connection : Bytes → Server S → Running (Server S)
  handle_connection stream s = handle_request (limited stream) s

  -- `SendTxToKnownNodes`, on a copy of the known nodes.
  unfoldable pub send_tx_among : List Bytes → Transaction → Server S → Outcome (Server S)
  send_tx_among [] tx s = ok s
  send_tx_among (first ∷ nodes) tx s =
      if bytes_equal s.node_address first
      then send_inv_to env (first ∷ nodes) (s.node_address ∷ []) (codes "tx") tx.id s
      else send_tx env first tx s

  unfoldable pub send_tx_to_known_nodes : Transaction → Server S → Outcome (Server S)
  send_tx_to_known_nodes tx s = send_tx_among s.known_nodes tx s

  -- The second locked part of `SubmitTransaction`.
  unfoldable pub insert_transaction : Transaction → Server S → Outcome (Server S)
  insert_transaction tx s = elim (lookup tx.id s.mempool) [
    | some known ↦ err in_mempool
    | none ↦ send_tx_to_known_nodes tx (record s { mempool = insert tx.id tx s.mempool })
  ]

  -- `SubmitTransaction`, which releases its lock while it verifies: `later` is the server at the second
  -- lock, whatever others have done to it by then.
  unfoldable pub submit_transaction : Transaction → Server S → Server S → Running (Server S)
  submit_transaction tx s later = elim (lookup tx.id s.mempool) [
    | some known ↦ some (err in_mempool)
    | none ↦ verify_transaction env.st env.bg env.c env.g env.fuel s.bc tx >>> λ valid.
        some (if valid then insert_transaction tx later else err invalid_transaction)
  ]
