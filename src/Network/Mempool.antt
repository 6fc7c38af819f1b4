-- ===== src/Network/Mempool.antt =====
-- internal/network/server.go: what `SubmitTransaction` and `handleBlock` do to the mempool.
use go_blockchain.Prelude.{
  ◌≡◌, refl, sym, ap, ◌∙◌, true, List, [], ◌∷◌, ◌++◌, Option, none, some, if◌then◌else◌, Bytes,
  bytes_equal, lookup, insert, lookup-insert, ok, err, >>=-eq-ok, >>>-eq-ok, Bool-cases,
  Option-cases, inl, inr, ok_injective, some_injective, Error, in_mempool, invalid_transaction,
}
use go_blockchain.Core.External.{or_nil}
use go_blockchain.Core.Transaction.{Transaction}
use go_blockchain.Core.Chain.Transactions.{verify_transaction}
use go_blockchain.Network.{
  Env, Server, send_data, send, send_inv, send_tx, send_inv_to, node_is_known, command_to_bytes,
}
use go_blockchain.Network.Handlers.{
  send_tx_among, send_tx_to_known_nodes, insert_transaction, submit_transaction,
}

module _ {ℓ} {S : Type ℓ} (env : Env S) where
  -- Sending leaves the mempool and the chain as they are.
  abbrev pub SameData : Server S → Server S → Type ℓ
  SameData s s' = (s'.mempool ≡ s.mempool) × (s'.bc ≡ s.bc)

  send_data-SameData :
      (addr request : Bytes) (s : Server S) → SameData s (send_data env addr request s)
  unfolding send_data
  send_data-SameData addr request s = elim (Bool-cases (env.reach addr)) [
    | inl e ↦ rw e (refl, refl)
    | inr e ↦ rw e (refl, refl)
  ]

  pub send-SameData :
      (command : Bytes) (encoded : Option Bytes) (addr : Bytes) (s s' : Server S)
      → send env command encoded addr s ≡ ok s'
      → SameData s s'
  unfolding send
  send-SameData command encoded addr s s' h =
      let (head, made, e) = >>=-eq-ok (command_to_bytes command) _ h in
      let (pool, chain) = send_data-SameData addr (head ++ or_nil encoded) s in
      let same = ok_injective e in
      (ap (λ x. x.mempool) (sym same) ∙ pool, ap (λ x. x.bc) (sym same) ∙ chain)

  pub send_inv_to-SameData :
      (nodes except : List Bytes) (kind item : Bytes) (s s' : Server S)
      → send_inv_to env nodes except kind item s ≡ ok s'
      → SameData s s'
  unfolding send_inv_to
  send_inv_to-SameData [] except kind item s s' h =
      let same = ok_injective h in (ap (λ x. x.mempool) (sym same), ap (λ x. x.bc) (sym same))
  send_inv_to-SameData (node ∷ nodes) except kind item s s' h =
      let (s1, first, rest) =
        >>=-eq-ok (if node_is_known node except then ok s else send_inv env node kind (item ∷ []) s)
          _ h in
      let (pool, chain) = send_inv_to-SameData nodes except kind item s1 s' rest in
      let (pool1, chain1) = elim (Bool-cases (node_is_known node except)) as (λ x. SameData s s1) [
        | inl e ↦
            let same = ok_injective (rw e at first) in
            (ap (λ x. x.mempool) (sym same), ap (λ x. x.bc) (sym same))
        | inr e ↦ unfold send_inv in send-SameData _ _ node s s1 (rw e at first)
      ] in
      (pool ∙ pool1, chain ∙ chain1)

  send_tx_among-SameData :
      (nodes : List Bytes) (tx : Transaction) (s s' : Server S)
      → send_tx_among env nodes tx s ≡ ok s'
      → SameData s s'
  unfolding send_tx_among send_tx
  send_tx_among-SameData [] tx s s' h =
      let same = ok_injective h in (ap (λ x. x.mempool) (sym same), ap (λ x. x.bc) (sym same))
  send_tx_among-SameData (first ∷ nodes) tx s s' h =
      elim (Bool-cases (bytes_equal s.node_address first)) [
        | inl e ↦
            send_inv_to-SameData (first ∷ nodes) (s.node_address ∷ []) _ tx.id s s' (rw e at h)
        | inr e ↦ send-SameData _ _ first s s' (rw e at h)
      ]

  insert_transaction_lem :
      (tx : Transaction) (s s' : Server S)
      → insert_transaction env tx s ≡ ok s'
      → (lookup tx.id s.mempool ≡ none) × (s'.mempool ≡ insert tx.id tx s.mempool) × (s'.bc ≡ s.bc)
  unfolding send_tx_to_known_nodes insert_transaction
  insert_transaction_lem tx s s' h = elim (Option-cases (lookup tx.id s.mempool)) [
    | inl e ↦
        let (pool, chain) =
          send_tx_among-SameData s.known_nodes tx (record s { mempool = insert tx.id tx s.mempool })
            s' (rw (insert_transaction, e) at h) in
        (e, pool, chain)
    | inr (known, e) ↦ absurd (fails (rw (insert_transaction, e) at h))
  ]
    where
      fails : err in_mempool ≡ ok s' → ⊥
      fails e = cc

  -- A transaction that `SubmitTransaction` accepts verified on the node's chain and was in the mempool
  -- at neither of its two tests. The mempool is then that of the second test with the transaction, and
  -- holds each other transaction as before; the chain is that of the second test.
  pub submit_transaction_lem :
      (tx : Transaction) (s later s' : Server S)
      → submit_transaction env tx s later ≡ some (ok s')
      → (verify_transaction env.st env.bg env.c env.g env.fuel s.bc tx ≡ some (ok true))
        × (lookup tx.id s.mempool ≡ none)
        × (lookup tx.id later.mempool ≡ none)
        × ((id : Bytes)
            → lookup id s'.mempool
              ≡ (if bytes_equal tx.id id then some tx else lookup id later.mempool))
        × (s'.bc ≡ later.bc)
  unfolding submit_transaction
  submit_transaction_lem tx s later s' h = elim (Option-cases (lookup tx.id s.mempool)) [
    | inr (known, e) ↦ absurd (fails in_mempool (rw (submit_transaction, e) at h))
    | inl e ↦
        let (valid, verified, rest) =
          >>>-eq-ok (verify_transaction env.st env.bg env.c env.g env.fuel s.bc tx) _
            (rw (submit_transaction, e) at h) in
        elim (Bool-cases valid) [
          | inr v ↦ absurd (fails invalid_transaction (rw v at rest))
          | inl v ↦
              let (absent, pool, chain) =
                insert_transaction_lem tx later s' (some_injective (rw v at rest)) in
              (
                verified ∙ ap (λ b. some (ok b)) v,
                e,
                absent,
                (λ id. ap (λ m. lookup id m) pool ∙ lookup-insert tx.id id tx later.mempool),
                chain,
              )
        ]
  ]
    where
      fails : (why : Error) → some (err why) ≡ some (ok s') → ⊥
      fails why e = cc
