-- ===== src/Network/Peers/Mined.antt =====
-- internal/network/server.go: `handleTx`, with its loop of mining, keeps the list of known nodes
-- without duplicates.
use go_blockchain.Prelude.{
  ℕ, zero, suc, ◌++◌, Bool, false, List, [], ◌∷◌, none, some, Bytes, Assoc, Running, ok, err, panic,
  Bool-cases, Option-cases, Outcome-cases, inl, inr,
}
use go_blockchain.Core.Transaction.{Transaction}
use go_blockchain.Core.Block.{Block}
use go_blockchain.Core.Chain.Transactions.{mine_block, verify_transaction}
use go_blockchain.Core.Chain.{Blockchain}
use go_blockchain.Core.Payments.{new_coinbase_tx}
use go_blockchain.Network.{Env, Server, notify_block, reindexed_or_logged}
use go_blockchain.Network.Handlers.{
  may_mine, or_invalid, is_first_node, valid_txs, block_mined, mine_with, mine_round, mine_loop,
  tx_received, handle_tx,
}
use go_blockchain.Network.Peers.{Yields, >>>-Yields, HasNoError}
use go_blockchain.Network.Peers.Handled.{
  HasDistinctNodes, send_inv_to-Keeps, reindexed_or_logged-Keeps,
}

module _ {ℓ} {S : Type ℓ} (env : Env S) where
  block_mined-Keeps :
      (txs : List Transaction) (b : Block) (s : Server S)
      → HasDistinctNodes s
      → Yields HasDistinctNodes (block_mined env txs b s)
  unfolding block_mined notify_block
  block_mined-Keeps txs b s d =
      >>>-Yields HasDistinctNodes HasDistinctNodes (reindexed_or_logged env s) _
        (reindexed_or_logged-Keeps env s d)
        (λ s' d'. send_inv_to-Keeps env s'.known_nodes (s'.node_address ∷ []) _ b.hash _ d')

  abbrev GoesOn : Bool × Server S → Type 0
  GoesOn p = HasDistinctNodes p.1

  mine_with-Keeps :
      (round : ℕ) (txs : List Transaction) (s : Server S)
      → HasDistinctNodes s
      → Yields GoesOn (mine_with env round txs s)
  unfolding mine_with
  mine_with-Keeps round txs s d =
      elim (Outcome-cases (new_coinbase_tx env.c env.g (env.random round) s.mining_address [])) [
        | inr (inr e) ↦ rw (mine_with, e) tt
        | inr (inl (why, e)) ↦ rw (mine_with, e) d
        | inl (coinbase, e) ↦
            elim (Option-cases (
              mine_block env.st env.bg env.c env.g env.fuel env.is_done (env.now round) s.bc
                (txs ++ coinbase ∷ []))) [
                  | inl f ↦ rw (mine_with, e, f) tt
                  | inr (r, f) ↦ elim (Outcome-cases r) [
                    | inr (inr h) ↦ rw (mine_with, e, f, h) tt
                    | inr (inl (why, h)) ↦ rw (mine_with, e, f, h) d
                    | inl (made, h) ↦
                        rw (mine_with, e, f, h)
                          (>>>-Yields HasDistinctNodes GoesOn
                            (block_mined env (txs ++ coinbase ∷ []) made.0
                              (record s { bc = made.1 }))
                            _
                            (block_mined-Keeps (txs ++ coinbase ∷ []) made.0
                              (record s { bc = made.1 }) d)
                            (λ s' d'. d'))
                  ]
                ]
      ]

  mine_nonempty-Keeps :
      (round : ℕ) (txs : List Transaction) (s : Server S)
      → HasDistinctNodes s
      → Yields GoesOn
          (elim txs [ [] ↦ some (ok (false, s)) | tx ∷ rest ↦ mine_with env round (tx ∷ rest) s ])
  mine_nonempty-Keeps round [] s d = d
  mine_nonempty-Keeps round (tx ∷ rest) s d = mine_with-Keeps round (tx ∷ rest) s d

  or_invalid-HasNoError : (r : Running Bool) → HasNoError (or_invalid env r)
  unfolding or_invalid
  or_invalid-HasNoError none = tt
  or_invalid-HasNoError (some (ok valid)) = tt
  or_invalid-HasNoError (some (err e)) = tt
  or_invalid-HasNoError (some panic) = tt

  valid_txs-HasNoError :
      (bc : Blockchain S) (pool : Assoc Transaction) → HasNoError (valid_txs env bc pool)
  unfolding valid_txs
  valid_txs-HasNoError bc [] = tt
  valid_txs-HasNoError bc ((id, tx) ∷ pool) =
      >>>-Yields (λ v. Unit) (λ txs. Unit)
        (or_invalid env (verify_transaction env.st env.bg env.c env.g env.fuel bc tx)) _
        (or_invalid-HasNoError _)
        (λ v u.
          >>>-Yields (λ txs. Unit) (λ txs. Unit) (valid_txs env bc pool) _
            (valid_txs-HasNoError bc pool) (λ txs w. tt))

  mine_round-Keeps :
      (round : ℕ) (s : Server S) → HasDistinctNodes s → Yields GoesOn (mine_round env round s)
  unfolding mine_round
  mine_round-Keeps round s d = elim (Bool-cases (may_mine s)) [
    | inl e ↦ rw e (
        >>>-Yields (λ txs. Unit) GoesOn (valid_txs env s.bc s.mempool) _
          (valid_txs-HasNoError s.bc s.mempool) (λ txs u. mine_nonempty-Keeps round txs s d))
    | inr e ↦ rw e d
  ]

  mine_loop-Keeps :
      (rounds : ℕ) (s : Server S)
      → HasDistinctNodes s
      → Yields HasDistinctNodes (mine_loop env rounds s)
  unfolding mine_loop
  mine_loop-Keeps zero s d = tt
  mine_loop-Keeps (suc rounds) s d =
      >>>-Yields GoesOn HasDistinctNodes (mine_round env rounds s) _ (mine_round-Keeps rounds s d)
        (λ done d'. elim (Bool-cases done.0) [
          | inl e ↦ rw e (mine_loop-Keeps rounds done.1 d')
          | inr e ↦ rw e d'
        ])

  tx_received-Keeps :
      (from : Bytes) (tx : Transaction) (s : Server S)
      → HasDistinctNodes s
      → Yields HasDistinctNodes (tx_received env from tx s)
  unfolding tx_received
  tx_received-Keeps from tx s d = elim (Bool-cases (is_first_node s.node_address s.known_nodes)) [
    | inl e ↦ rw e (send_inv_to-Keeps env s.known_nodes _ _ tx.id _ d)
    | inr e ↦ rw e (mine_loop-Keeps env.fuel _ d)
  ]

  pub handle_tx-Keeps :
      (payload : Bytes) (s : Server S)
      → HasDistinctNodes s
      → Yields HasDistinctNodes (handle_tx env payload s)
  unfolding handle_tx
  handle_tx-Keeps payload s d = elim (Option-cases (env.wire.tx.decode payload)) [
    | inl e ↦ rw (handle_tx, e) d
    | inr (msg, e) ↦ elim (Option-cases (env.g.decode msg.transaction)) [
      | inl f ↦ rw (handle_tx, e, f) d
      | inr (tx, f) ↦ rw (handle_tx, e, f) (tx_received-Keeps msg.add_from tx s d)
    ]
  ]
