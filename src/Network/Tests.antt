-- ===== src/Network/Tests.antt =====
-- The theorems about nodes at concrete ones.
use go_blockchain.Prelude.{
  ℕ, ◌≡◌, refl, true, false, [], ◌++◌, ◌∷◌, none, some, arith, pos, negsuc, Bytes, bytes_equal,
  Assoc, lookup, insert, delete, codes, All, ok, err, not_found, storage_failed, Running,
}
use go_blockchain.Storage.{Storage}
use go_blockchain.Core.Sample.{sample_crypto, sample_tx_codec}
use go_blockchain.Core.Transaction.{Transaction, is_coinbase, serialize}
use go_blockchain.Core.Block.{Block, serialize_block, deserialize_block}
use go_blockchain.Core.Pow.{draft_block}
use go_blockchain.Core.Utxo.{reindex}
use go_blockchain.Core.Chain.{add_block}
use go_blockchain.Core.Chain.Transactions.{verify_transaction}
use go_blockchain.Network.{
  node_is_known, Env, Server, BlockMsg, send, send_data, send_block, send_tx, command_to_bytes,
  delete_txs, block_added, next_in_transit, notify_block, notify_subscribers, add_received,
  handle_block, reindexed, reindexed_or_logged,
}
use go_blockchain.Network.Handlers.{
  handle_connection, submit_transaction, insert_transaction, send_tx_to_known_nodes, send_tx_among,
}
use go_blockchain.Network.Peers.{Yields}
use go_blockchain.Network.Peers.Handled.{HasDistinctNodes}
use go_blockchain.Network.Peers.Connections.{handle_all, handle_all-AreDistinct}
use go_blockchain.Network.Convert.{
  proto_block_to_core, core_block_to_proto, proto_block_to_core-core_block_to_proto,
}
use go_blockchain.Network.Requests.{handle_connection-send_block}
use go_blockchain.Network.Included.{IsAbsent, handle_block-IsAbsent}

abbrev tx : Transaction
tx = record {
  id = codes "t";
  vin =
      record {
        txid = [];
        vout = negsuc 0;
        signature = [];
        pub_key = codes "r";
        escrow_witness = [];
        is_refund = false;
      }
      ∷ [];
  vout = [];
}

abbrev block : Block
block = draft_block (pos 5) (tx ∷ []) [] (pos 9) (pos 16)

abbrev message : BlockMsg
message = record { addr_from = codes "here"; block = codes "g" }

-- A store that has every block.
abbrev store : Storage ℕ
store = record {
  save_block = λ s h d. ok s;
  save_block_and_tip = λ s h d. ok s;
  get_block = λ s h. ok (codes "g");
  get_tip = λ s. ok (codes "a");
  update_tip = λ s h. ok s;
  get_utxo = λ s k. err not_found;
  save_utxo = λ s k d. ok s;
  delete_utxo = λ s k. ok s;
  clear_utxo_set = λ s. ok s;
  iterate_utxo = λ s. ok [];
}

abbrev env : Env ℕ
env = record {
  st = store;
  bg = record { encode = λ b. some (codes "g"); decode = λ d. some block };
  c = sample_crypto;
  g = sample_tx_codec;
  og = record { encode = λ outs. some []; decode = λ d. some [] };
  wire = record {
    addr = record { encode = λ m. some []; decode = λ d. some [] };
    block = record { encode = λ m. some (codes "b"); decode = λ d. some message };
    getblocks = record { encode = λ m. some m; decode = λ d. some d };
    getdata = record { encode = λ m. some m.id; decode = λ d. none };
    inv = record { encode = λ m. some []; decode = λ d. none };
    tx = record { encode = λ m. some m.transaction; decode = λ d. none };
    version = record { encode = λ m. some []; decode = λ d. none };
  };
  reach = λ addr. true;
  authorized_keys = [];
  fuel = 5;
  is_done = λ k. false;
  now = λ k. pos 6;
  random = λ k. ok (codes "0");
}

-- A node that waits for one more block and has the transaction in its mempool.
abbrev node : Assoc Transaction → Server ℕ
node pool = record {
  node_address = codes "here";
  mining_address = [];
  known_nodes = codes "there" ∷ [];
  blocks_in_transit = codes "n" ∷ [];
  mempool = pool;
  bc = record { tip = codes "a"; db = 0 };
  block_subscribers = (0, []) ∷ [];
  sent = [];
}

handle_connection-send_block_example :
    (request : Bytes) × (send_block env (codes "there") block (node [])
      ≡ ok (record (node []) { sent = (codes "there", request) ∷ [] }))
    × (handle_connection env request (node []) ≡ add_received env (codes "here") block (node []))
unfolding serialize_block deserialize_block
handle_connection-send_block_example =
    handle_connection-send_block env env (codes "there") (codes "b") block (node []) (node []) refl
      refl refl refl (omega arith)

server_or : Server ℕ → Running (Server ℕ) → Server ℕ
server_or s r = elim r [ some (ok s') ↦ s' | _ ↦ s ]

run_submit : Running (Server ℕ)
unfolding submit_transaction verify_transaction is_coinbase insert_transaction
    send_tx_to_known_nodes send_tx_among send_tx send send_data command_to_bytes serialize lookup
    insert bytes_equal
run_submit = submit_transaction env tx (node []) (node [])

abbrev submitted : Server ℕ
unfolding run_submit server_or
submitted = server_or (node []) run_submit

run_submit-ok : submit_transaction env tx (node []) (node []) ≡ some (ok submitted)
unfolding run_submit server_or
run_submit-ok = refl

-- The node without a block in transit, on a storage where `Reindex` fails.
abbrev failing : Env ℕ
failing = record env { st = record env.st { clear_utxo_set = λ s. err storage_failed } }

abbrev last_node : Server ℕ
last_node = record (node ((codes "t", tx) ∷ [])) { blocks_in_transit = [] }

run_block : Running (Server ℕ)
unfolding handle_block deserialize_block add_received add_block block_added next_in_transit
    reindexed_or_logged reindexed reindex notify_block notify_subscribers delete_txs delete
    bytes_equal
run_block = handle_block failing (codes "b") last_node

abbrev informed : Server ℕ
unfolding run_block server_or
informed = server_or (node []) run_block

run_block-ok : handle_block failing (codes "b") last_node ≡ some (ok informed)
unfolding run_block server_or
run_block-ok = refl

handle_block-IsAbsent_example : All (IsAbsent informed.mempool) (tx ∷ [])
unfolding deserialize_block add_block
handle_block-IsAbsent_example =
    handle_block-IsAbsent failing (codes "b") message block (record { tip = codes "a"; db = 0 })
      last_node informed refl refl refl run_block-ok

-- The same node, where a peer announces one address twice.
abbrev gossip : Env ℕ
gossip = record env {
  wire = record env.wire {
    addr = record { encode = λ m. some []; decode = λ d. some (codes "x" ∷ codes "x" ∷ []) };
  };
}

abbrev announcement : Bytes
announcement = codes "addr" ++ 0 ∷ 0 ∷ 0 ∷ 0 ∷ 0 ∷ 0 ∷ 0 ∷ 0 ∷ []

handle_all-AreDistinct_example :
    Yields HasDistinctNodes
      (handle_all gossip (announcement ∷ announcement ∷ codes "short" ∷ []) (node []))
unfolding node_is_known
handle_all-AreDistinct_example =
    handle_all-AreDistinct gossip (announcement ∷ announcement ∷ codes "short" ∷ []) (node [])
      (refl, tt)

proto_block_to_core-core_block_to_proto_example :
    proto_block_to_core (core_block_to_proto block) ≡ block
proto_block_to_core-core_block_to_proto_example =
    proto_block_to_core-core_block_to_proto block (omega arith) (omega arith) (omega arith)
      ((omega arith, tt), tt)
