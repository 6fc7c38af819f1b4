-- ===== src/Network/Rpc/Minting.antt =====
-- internal/network/grpc_server.go: a mint that succeeds.
use go_blockchain.Prelude.{
  ℕ, ◌≡◌, refl, sym, ap, ◌∙◌, true, [], ◌∷◌, Option, none, some, arith, ltb_ℤ, leb_ℤ, ℤ, pos, ◌<ℤ◌,
  ◌≤ℤ◌, add64, Bytes, Error, Outcome, ok, err, panic, >>>-eq-ok, Bool-cases, inl, inr, Running,
  codes, ok_injective, some_injective, subst,
}
use go_blockchain.Hex.{hex_encode}
use go_blockchain.Core.External.{PrivateKey}
use go_blockchain.Core.Output.{TxOutput}
use go_blockchain.Core.Transaction.{
  Transaction, hash, is_coinbase, is_coinbase_inputs, is_coinbase_input,
}
use go_blockchain.Core.Block.{Block, deserialize_block}
use go_blockchain.Core.Poa.{new_block_poa}
use go_blockchain.Core.Wallet.{validate_address, new_tx_output}
use go_blockchain.Core.Chain.{Blockchain, add_block, get_block, last_block}
use go_blockchain.Core.Utxo.{reindex}
use go_blockchain.Firewall.{max_transaction_value_limit}
use go_blockchain.Network.{Env, Server, notify_block, reindexed, send_inv_to}
use go_blockchain.Network.Mempool.{SameData, send_inv_to-SameData}
use go_blockchain.Network.Rpc.{
  Refusal, no_tip, no_last_block, bad_last_block, no_block, not_added, RpcResponse, success,
  refused, MintRequest, mint_draft, mint_input, or_refuse, mint_broadcast, mint_added, mint_block,
  mint_stable_balance,
}

-- A step that may be refused went on.
or_refuse-success {ℓ κ} :
    {A : Type ℓ} {S : Type κ} (s s' : Server S) (id : Bytes) (why : Error → Refusal) (r : Outcome A)
    (next : A → Running (Server S × RpcResponse))
    → or_refuse s why r next ≡ some (ok (s', success id))
    → (a : A) × (r ≡ ok a) × (next a ≡ some (ok (s', success id)))
or_refuse-success s s' id why (ok a) next h = (a, refl, h)
or_refuse-success s s' id why (err e) next h = absurd cc
or_refuse-success s s' id why panic next h = absurd cc

module _ {ℓ} {S : Type ℓ} (env : Env S) where
  -- The block of a mint, and the chain that it was added to.
  pub record Minted (draw : ℕ) (now : ℤ) (key : PrivateKey) (tx : Transaction) (s s' : Server S)
      : Type ℓ where
    pub last_hash : Bytes
    pub tip_read : env.st.get_tip s.bc.db ≡ ok last_hash
    pub last : Block
    pub last_read : last_block env.st env.bg s.bc.db ≡ ok last
    pub block : Block
    pub made :
        new_block_poa env.c env.g draw now
          (tx ∷ [])
          last_hash
          (add64 last.height (pos 1))
          last.bits
          key
        ≡ ok block
    pub chain : Blockchain S
    pub added : add_block env.st env.bg env.c env.g env.authorized_keys s.bc block ≡ ok chain
    pub db : S
    pub indexed : reindex env.st env.og env.bg env.fuel chain ≡ some (ok (db, none))
    pub result : s'.bc ≡ record chain { db = db }
    pub same_pool : s'.mempool ≡ s.mempool

  mint_broadcast-success :
      (b : Block) (tx : Transaction) (s1 s' : Server S) (id : Bytes) (failed : Option Error)
      → mint_broadcast env b tx (s1, failed) ≡ some (ok (s', success id))
      → (failed ≡ none) × (id ≡ hex_encode tx.id) × SameData env s1 s'
  mint_broadcast-success b tx s1 s' id (some e) h = absurd cc
  mint_broadcast-success b tx s1 s' id none h =
      let (s2, sent, rest) =
        >>>-eq-ok (some (send_inv_to env s1.known_nodes [] (codes "block") b.hash s1)) _ h in
      let same = send_inv_to-SameData env s1.known_nodes [] _ b.hash s1 s2 (some_injective sent) in
      let pair = ok_injective (some_injective rest) in
      (refl, same_id pair, subst (SameData env s1) (ap (λ x. x.0) pair) same)
    where
      same_id :
          {t : Server S}
          → ◌≡◌ {A = Server S × RpcResponse} (t, success (hex_encode tx.id)) (s', success id)
          → id ≡ hex_encode tx.id
      same_id e = cc

  reindexed_lem :
      (s s1 : Server S) (failed : Option Error)
      → reindexed env s ≡ some (ok (s1, failed))
      → (db : S) × (reindex env.st env.og env.bg env.fuel s.bc ≡ some (ok (db, failed)))
        × (s1.bc ≡ record s.bc { db = db })
        × (s1.mempool ≡ s.mempool)
  unfolding reindexed
  reindexed_lem s s1 failed h =
      let ((db, e), made, last) = >>>-eq-ok (reindex env.st env.og env.bg env.fuel s.bc) _ h in
      let same = ok_injective (some_injective last) in
      (
        db,
        made ∙ ap (λ r. some (ok (db, r.1))) same,
        ap (λ x. x.0.bc) (sym same),
        ap (λ x. x.0.mempool) (sym same),
      )

  mint_block-Minted :
      (draw : ℕ) (now : ℤ) (key : PrivateKey) (tx : Transaction) (s s' : Server S) (id : Bytes)
      → mint_block env draw now key tx s ≡ some (ok (s', success id))
      → Minted draw now key tx s s' × (id ≡ hex_encode tx.id)
  unfolding mint_block mint_added notify_block last_block get_block
  mint_block-Minted draw now key tx s s' id h =
      let (last_hash, tip, h1) = or_refuse-success s s' id no_tip (env.st.get_tip s.bc.db) _ h in
      let (encoded, found, h2) =
        or_refuse-success s s' id no_last_block (env.st.get_block s.bc.db last_hash) _ h1 in
      let (last, read, h3) =
        or_refuse-success s s' id bad_last_block (deserialize_block env.bg encoded) _ h2 in
      let (b, made, h4) =
        or_refuse-success s s' id no_block
          (new_block_poa env.c env.g draw now (tx ∷ []) last_hash (add64 last.height (pos 1))
            last.bits key)
          _ h3 in
      let (chain, added, h5) =
        or_refuse-success s s' id not_added
          (add_block env.st env.bg env.c env.g env.authorized_keys s.bc b) _ h4 in
      let last_read : last_block env.st env.bg s.bc.db ≡ ok last =
        rw (tip, last_block, found, get_block) read in
      let ((s1, failed), index, h6) = >>>-eq-ok (reindexed env _) (mint_broadcast env b tx) h5 in
      let (fine, same, (pool, kept)) = mint_broadcast-success b tx s1 s' id failed h6 in
      let (db, indexed, bc, pool1) = reindexed_lem _ s1 failed index in
      (
        record {
          last_hash = last_hash;
          tip_read = tip;
          last = last;
          last_read = last_read;
          block = b;
          made = made;
          chain = chain;
          added = added;
          db = db;
          indexed = indexed ∙ ap (λ e. some (ok (db, e))) fine;
          result = kept ∙ bc;
          same_pool = pool ∙ pool1;
        },
        same,
      )

  -- A mint that the service reports as a success had a positive amount of at most 10^11, an address
  -- that is valid, and an authority key. It made a coinbase transaction with one output of that amount
  -- that is locked with the address, whose id in hex is the answer, and a block of only that
  -- transaction, one above the last block, that is signed with the authority key. `AddBlock` took
  -- the block, and the node's chain is the one behind that call, with a UTXO set that `Reindex` rebuilt.
  -- The mempool is as before.
  pub mint_stable_balance-success :
      (draw : ℕ) (now : ℤ) (authority : Option PrivateKey) (req : MintRequest) (s s' : Server S)
      (id : Bytes)
      → mint_stable_balance env draw now authority req s ≡ some (ok (s', success id))
      → (pos 0 <ℤ req.amount)
        × (req.amount ≤ℤ max_transaction_value_limit)
        × (validate_address env.c req.address ≡ true)
        × ((key : PrivateKey) × (out : TxOutput) × (tx : Transaction) × (authority ≡ some key)
            × (new_tx_output req.amount req.address ≡ ok out)
            × (is_coinbase tx ≡ true)
            × (tx.vout ≡ out ∷ [])
            × (id ≡ hex_encode tx.id)
            × Minted draw now key tx s s')
  unfolding mint_stable_balance is_coinbase is_coinbase_inputs is_coinbase_input mint_draft
      mint_input
  mint_stable_balance-success draw now none req s s' id h = absurd cc
  mint_stable_balance-success draw now (some key) req s s' id h =
      elim (Bool-cases (leb_ℤ req.amount (pos 0))) [
        | inl e ↦ absurd (refused_not (rw (mint_stable_balance, e) at h))
        | inr e ↦ elim (Bool-cases (ltb_ℤ max_transaction_value_limit req.amount)) [
          | inl e' ↦ absurd (refused_not (rw (mint_stable_balance, e, e') at h))
          | inr e' ↦ elim (Bool-cases (validate_address env.c req.address)) [
            | inr e'' ↦ absurd (refused_not (rw (mint_stable_balance, e, e', e'') at h))
            | inl e'' ↦
                let (out, paid, h1) =
                  >>>-eq-ok (some (new_tx_output req.amount req.address)) _
                    (rw (mint_stable_balance, e, e', e'') at h) in
                let draft = mint_draft req out in
                let tx = record draft { id = hash env.c env.g draft } in
                let (minted, same) = mint_block-Minted draw now key tx s s' id h1 in
                (
                  ground arith,
                  ground arith,
                  e'',
                  (key, out, tx, refl, some_injective paid, refl, refl, same, minted),
                )
          ]
        ]
      ]
    where
      refused_not :
          {t : Server S} {why : Refusal}
          → ◌≡◌ {A = Running (Server S × RpcResponse)}
              (some (ok (t, refused why)))
              (some (ok (s', success id)))
          → ⊥
      refused_not e = cc
