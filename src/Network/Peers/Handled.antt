-- ===== src/Network/Peers/Handled.antt =====
-- internal/network/server.go: every handler keeps the list of known nodes without duplicates.
use go_blockchain.Prelude.{
  List, [], ◌∷◌, Option, some, Assoc, Error, ltb, length, if◌then◌else◌, Bytes, bytes_equal, codes,
  lookup, ltb_ℤ, ℤ, Outcome, ok, err, panic, ◌>>=◌, Running, Bool-cases, Option-cases,
  Outcome-cases, inl, inr,
}
use go_blockchain.Core.Block.{Block, deserialize_block}
use go_blockchain.Core.Chain.{Blockchain, get_block, get_best_height, add_block, get_block_hashes}
use go_blockchain.Core.Output.{TxOutput}
use go_blockchain.Core.Utxo.{reindex, or_stop, save_all, serialize_outputs, find_chain_utxo}
use go_blockchain.Network.{
  Env, Server, GetData, Verzion, node_is_known, command_to_bytes, send_data, send, send_block,
  send_inv, send_get_blocks, send_get_data, send_tx, send_version, send_inv_to, request_from,
  request_blocks, handle_addr, notify_block, reindexed, reindexed_or_logged, command_length,
  next_in_transit, block_added, add_received, handle_block,
}
use go_blockchain.Network.Handlers.{
  handle_inv_block, handle_inv_tx, handle_inv, handle_get_blocks, answer_block, answer_tx,
  handle_get_data, compare_heights, handle_version,
}
use go_blockchain.Network.Peers.{
  AreDistinct, without_bytes-AreDistinct, add_node-AreDistinct, add_nodes-AreDistinct, Returns,
  Yields, >>=-Returns, >>>-Yields, HasNoError, or_panic-HasNoError,
}

abbrev pub HasDistinctNodes {ℓ} : {S : Type ℓ} → Server S → Type 0
HasDistinctNodes s = AreDistinct s.known_nodes

command_to_bytes-Returns : (command : Bytes) → HasNoError (some (command_to_bytes command))
unfolding command_to_bytes
command_to_bytes-Returns command = elim (Bool-cases (ltb command_length (length command))) [
  | inl e ↦ rw e tt
  | inr e ↦ rw e tt
]

module _ {ℓ} {S : Type ℓ} (env : Env S) where
  abbrev Keeps : Outcome (Server S) → Type 0
  Keeps r = Returns HasDistinctNodes r

  abbrev KeepsRunning : Running (Server S) → Type 0
  KeepsRunning r = Yields HasDistinctNodes r

  send-Keeps :
      (command : Bytes) (encoded : Option Bytes) (addr : Bytes) (s : Server S)
      → HasDistinctNodes s
      → Keeps (send env command encoded addr s)
  unfolding send send_data
  send-Keeps command encoded addr s d =
      >>=-Returns (λ head. Unit) HasDistinctNodes (command_to_bytes command) _
        (command_to_bytes-Returns command)
        (λ head u. elim (Bool-cases (env.reach addr)) [
          | inl e ↦ rw e d
          | inr e ↦ rw e (without_bytes-AreDistinct addr s.known_nodes d)
        ])

  pub send_inv_to-Keeps :
      (nodes except : List Bytes) (kind item : Bytes) (s : Server S)
      → HasDistinctNodes s
      → Keeps (send_inv_to env nodes except kind item s)
  unfolding send_inv_to send_inv
  send_inv_to-Keeps [] except kind item s d = d
  send_inv_to-Keeps (node ∷ nodes) except kind item s d =
      >>=-Returns HasDistinctNodes HasDistinctNodes
        (if node_is_known node except then ok s else send_inv env node kind (item ∷ []) s) _
        (elim (Bool-cases (node_is_known node except)) [
          | inl e ↦ rw e d
          | inr e ↦ rw e (send-Keeps _ _ node s d)
        ])
        (λ s' d'. send_inv_to-Keeps nodes except kind item s' d')

  request_from-Keeps :
      (nodes : List Bytes) (s : Server S) → HasDistinctNodes s → Keeps (request_from env nodes s)
  unfolding request_from send_get_blocks
  request_from-Keeps [] s d = d
  request_from-Keeps (node ∷ nodes) s d =
      >>=-Returns HasDistinctNodes HasDistinctNodes (send_get_blocks env node s) _
        (send-Keeps _ _ node s d) (λ s' d'. request_from-Keeps nodes s' d')

  send_version-Keeps :
      (addr : Bytes) (s : Server S) → HasDistinctNodes s → Keeps (send_version env addr s)
  unfolding send_version
  send_version-Keeps addr s d = elim (Outcome-cases (get_best_height env.st env.bg s.bc)) [
    | inl (height, e) ↦ rw (send_version, e) (send-Keeps _ _ addr s d)
    | inr (inl (why, e)) ↦ rw (send_version, e) d
    | inr (inr e) ↦ rw (send_version, e) tt
  ]

  pub handle_addr-Keeps :
      (payload : Bytes) (s : Server S) → HasDistinctNodes s → Keeps (handle_addr env payload s)
  unfolding handle_addr request_blocks
  handle_addr-Keeps payload s d = elim (Option-cases (env.wire.addr.decode payload)) [
    | inl e ↦ rw (handle_addr, e) d
    | inr (addrs, e) ↦
        rw (handle_addr, e) (request_from-Keeps _ _ (add_nodes-AreDistinct addrs s.known_nodes d))
  ]

  -- `Reindex` leaves a storage, with its error or without.
  or_stop-HasNoError :
      (db : S) (r : Outcome S) (next : S → Running (S × Option Error))
      → ((db' : S) → HasNoError (next db'))
      → HasNoError (or_stop env.st env.og db r next)
  or_stop-HasNoError db (ok db') next h = h db'
  or_stop-HasNoError db (err e) next h = tt
  or_stop-HasNoError db panic next h = tt

  save_all-HasNoError :
      (db : S) (utxo : Assoc (List TxOutput)) → HasNoError (save_all env.st env.og db utxo)
  unfolding save_all serialize_outputs
  save_all-HasNoError db [] = tt
  save_all-HasNoError db ((id, outs) ∷ rest) =
      >>>-Yields (λ d. Unit) (λ r. Unit) (some (serialize_outputs env.og outs)) _
        (or_panic-HasNoError (env.og.encode outs))
        (λ d u.
          or_stop-HasNoError db (env.st.save_utxo db id d) _ λ db'. save_all-HasNoError db' rest)

  reindex-HasNoError : (bc : Blockchain S) → HasNoError (reindex env.st env.og env.bg env.fuel bc)
  unfolding reindex
  reindex-HasNoError bc = or_stop-HasNoError bc.db (env.st.clear_utxo_set bc.db) _ λ db.
      elim (Option-cases (find_chain_utxo env.st env.bg env.fuel (record bc { db = db }))) [
        | inl e ↦ rw e tt
        | inr (utxo, e) ↦ rw e (save_all-HasNoError db utxo)
      ]

  pub reindexed_or_logged-Keeps :
      (s : Server S) → HasDistinctNodes s → KeepsRunning (reindexed_or_logged env s)
  unfolding reindexed_or_logged reindexed
  reindexed_or_logged-Keeps s d =
      >>>-Yields (λ r. HasDistinctNodes r.0) HasDistinctNodes (reindexed env s) _
        (>>>-Yields (λ r. Unit) (λ r. HasDistinctNodes r.0)
          (reindex env.st env.og env.bg env.fuel s.bc) _ (reindex-HasNoError s.bc) (λ r u. d))
        (λ r d'. d')

  next_in_transit-Keeps :
      (from : Bytes) (hashes : List Bytes) (s : Server S)
      → HasDistinctNodes s
      → KeepsRunning (next_in_transit env from hashes s)
  unfolding next_in_transit send_get_data
  next_in_transit-Keeps from [] s d = reindexed_or_logged-Keeps s d
  next_in_transit-Keeps from (hash ∷ rest) s d = send-Keeps _ _ from _ d

  add_received-Keeps :
      (from : Bytes) (b : Block) (s : Server S)
      → HasDistinctNodes s
      → KeepsRunning (add_received env from b s)
  unfolding add_received block_added notify_block
  add_received-Keeps from b s d =
      elim (Outcome-cases (add_block env.st env.bg env.c env.g env.authorized_keys s.bc b)) [
        | inl (bc, e) ↦ rw (add_received, e) (next_in_transit-Keeps from s.blocks_in_transit _ d)
        | inr (inl (why, e)) ↦ rw (add_received, e) d
        | inr (inr e) ↦ rw (add_received, e) tt
      ]

  pub handle_block-Keeps :
      (payload : Bytes) (s : Server S)
      → HasDistinctNodes s
      → KeepsRunning (handle_block env payload s)
  unfolding handle_block
  handle_block-Keeps payload s d = elim (Option-cases (env.wire.block.decode payload)) [
    | inl e ↦ rw (handle_block, e) d
    | inr (msg, e) ↦ elim (Outcome-cases (deserialize_block env.bg msg.block)) [
      | inl (b, f) ↦ rw (handle_block, e, f) (add_received-Keeps msg.addr_from b s d)
      | inr (inl (why, f)) ↦ rw (handle_block, e, f) d
      | inr (inr f) ↦ rw (handle_block, e, f) tt
    ]
  ]

  -- A handler of one of two kinds, behind the decoding.
  by_kind-Keeps :
      (kind : Bytes) (first second : Server S → Outcome (Server S)) (s : Server S)
      → ((t : Server S) → HasDistinctNodes t → Keeps (first t))
      → ((t : Server S) → HasDistinctNodes t → Keeps (second t))
      → HasDistinctNodes s
      → Keeps (
          (if bytes_equal kind (codes "block") then first s else ok s) >>= λ t.
          if bytes_equal kind (codes "tx") then second t else ok t)
  by_kind-Keeps kind first second s h k d =
      >>=-Returns HasDistinctNodes HasDistinctNodes
        (if bytes_equal kind (codes "block") then first s else ok s) _
        (elim (Bool-cases (bytes_equal kind (codes "block"))) [
          | inl e ↦ rw e (h s d)
          | inr e ↦ rw e d
        ])
        (λ t d'. elim (Bool-cases (bytes_equal kind (codes "tx"))) [
          | inl e ↦ rw e (k t d')
          | inr e ↦ rw e d'
        ])

  handle_inv_block-Keeps :
      (from : Bytes) (items : List Bytes) (s : Server S)
      → HasDistinctNodes s
      → Keeps (handle_inv_block env from items s)
  unfolding handle_inv_block send_get_data
  handle_inv_block-Keeps from [] s d = d
  handle_inv_block-Keeps from (hash ∷ rest) s d = send-Keeps _ _ from _ d

  handle_inv_tx-Keeps :
      (from : Bytes) (items : List Bytes) (s : Server S)
      → HasDistinctNodes s
      → Keeps (handle_inv_tx env from items s)
  unfolding handle_inv_tx send_get_data
  handle_inv_tx-Keeps from [] s d = d
  handle_inv_tx-Keeps from (id ∷ rest) s d = elim (Option-cases (lookup id s.mempool)) [
    | inl e ↦ rw (handle_inv_tx, e) (send-Keeps _ _ from s d)
    | inr (tx, e) ↦ rw (handle_inv_tx, e) d
  ]

  pub handle_inv-Keeps :
      (payload : Bytes) (s : Server S) → HasDistinctNodes s → Keeps (handle_inv env payload s)
  unfolding handle_inv
  handle_inv-Keeps payload s d = elim (Option-cases (env.wire.inv.decode payload)) [
    | inl e ↦ rw (handle_inv, e) d
    | inr (msg, e) ↦
        rw (handle_inv, e)
          (by_kind-Keeps msg.kind _ _ s (handle_inv_block-Keeps msg.addr_from msg.items)
            (handle_inv_tx-Keeps msg.addr_from msg.items) d)
  ]

  pub handle_get_blocks-Keeps :
      (payload : Bytes) (s : Server S)
      → HasDistinctNodes s
      → KeepsRunning (handle_get_blocks env payload s)
  unfolding handle_get_blocks send_inv
  handle_get_blocks-Keeps payload s d = elim (Option-cases (env.wire.getblocks.decode payload)) [
    | inl e ↦ rw (handle_get_blocks, e) d
    | inr (from, e) ↦ elim (Option-cases (get_block_hashes env.st env.bg env.fuel s.bc)) [
      | inl f ↦ rw (handle_get_blocks, e, f) tt
      | inr (hashes, f) ↦ rw (handle_get_blocks, e, f) (send-Keeps _ _ from s d)
    ]
  ]

  answer_block-Keeps :
      (msg : GetData) (s : Server S) → HasDistinctNodes s → Keeps (answer_block env msg s)
  unfolding answer_block send_block
  answer_block-Keeps msg s d = elim (Outcome-cases (get_block env.st env.bg s.bc.db msg.id)) [
    | inl (b, e) ↦ rw (answer_block, e) (send-Keeps _ _ msg.addr_from s d)
    | inr (inl (why, e)) ↦ rw (answer_block, e) d
    | inr (inr e) ↦ rw (answer_block, e) tt
  ]

  answer_tx-Keeps :
      (msg : GetData) (s : Server S) → HasDistinctNodes s → Keeps (answer_tx env msg s)
  unfolding answer_tx send_tx
  answer_tx-Keeps msg s d = elim (Option-cases (lookup msg.id s.mempool)) [
    | inl e ↦ rw (answer_tx, e) d
    | inr (tx, e) ↦ rw (answer_tx, e) (send-Keeps _ _ msg.addr_from s d)
  ]

  pub handle_get_data-Keeps :
      (payload : Bytes) (s : Server S) → HasDistinctNodes s → Keeps (handle_get_data env payload s)
  unfolding handle_get_data
  handle_get_data-Keeps payload s d = elim (Option-cases (env.wire.getdata.decode payload)) [
    | inl e ↦ rw (handle_get_data, e) d
    | inr (msg, e) ↦
        rw (handle_get_data, e)
          (by_kind-Keeps msg.kind _ _ s (answer_block-Keeps msg) (answer_tx-Keeps msg) d)
  ]

  compare_heights-Keeps :
      (msg : Verzion) (mine : ℤ) (s : Server S)
      → HasDistinctNodes s
      → Keeps (compare_heights env msg mine s)
  unfolding compare_heights send_get_blocks
  compare_heights-Keeps msg mine s d = elim (Bool-cases (ltb_ℤ mine msg.best_height)) [
    | inl e ↦ rw e (send-Keeps _ _ msg.addr_from s d)
    | inr e ↦ elim (Bool-cases (ltb_ℤ msg.best_height mine)) [
      | inl f ↦ rw (e, f) (send_version-Keeps msg.addr_from s d)
      | inr f ↦ rw (e, f) d
    ]
  ]

  pub handle_version-Keeps :
      (payload : Bytes) (s : Server S) → HasDistinctNodes s → Keeps (handle_version env payload s)
  unfolding handle_version
  handle_version-Keeps payload s d = elim (Option-cases (env.wire.version.decode payload)) [
    | inl e ↦ rw (handle_version, e) d
    | inr (msg, e) ↦ elim (Outcome-cases (get_best_height env.st env.bg s.bc)) [
      | inl (mine, f) ↦
          rw (handle_version, e, f)
            (>>=-Returns HasDistinctNodes HasDistinctNodes (compare_heights env msg mine s) _
              (compare_heights-Keeps msg mine s d)
              (λ s' d'. add_node-AreDistinct msg.addr_from s'.known_nodes d'))
      | inr (inl (why, f)) ↦ rw (handle_version, e, f) d
      | inr (inr f) ↦ rw (handle_version, e, f) tt
    ]
  ]
