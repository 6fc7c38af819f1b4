-- ===== src/Network/Rpc/Tests.antt =====
-- The gRPC service at a concrete node: a mint, a submission and a balance.
use go_blockchain.Prelude.{
  ℕ, ◌+◌, ◌+ℤ◌, add64, wrap64, ◌≡◌, refl, ◌<ℤ◌, ◌≤ℤ◌, ◌≤◌, true, false, [], ◌∷◌, none, some,
  if◌then◌else◌, pos, negsuc, Bytes, bytes_equal, codes, lookup, insert, length, All, ok, err,
  not_found, Running,
}
use go_blockchain.Storage.{Storage}
use go_blockchain.Hex.{hex_encode}
use go_blockchain.Core.External.{PrivateKey}
use go_blockchain.Core.Sample.{sample_crypto, sample_tx_codec, hashing_crypto, hashing_sums}
use go_blockchain.Core.Transaction.{Transaction, serialize, is_coinbase, hash_pub_key, hash}
use go_blockchain.Core.Transaction.Signing.{public_key}
use go_blockchain.Core.Block.{Block}
use go_blockchain.Core.Base58.{
  b58_char, b58_value, base58_decode, count_leading, index_byte, index_from, min_bytes,
}
use go_blockchain.Core.Bignum.{fill_bytes, int_to_hex, low_bytes, set_bytes}
use go_blockchain.Core.Block.{deserialize_block, hash_transactions, serialize_all, serialize_block}
use go_blockchain.Core.Chain.{
  add_block, blocks, blocks_from, check_block, get_block, last_block, serialized, store_block,
}
use go_blockchain.Core.Merkle.{build_levels, new_leaf, new_merkle_tree}
use go_blockchain.Core.Poa.{is_authorized_key, new_block_poa, sign_hash, verify_poa_block}
use go_blockchain.Core.Utxo.{find_chain_utxo, reindex, save_all, scan_blocks}
use go_blockchain.Core.Pow.{draft_block}
use go_blockchain.Core.Output.{TxOutput}
use go_blockchain.Core.Chain.Transactions.{verify_transaction}
use go_blockchain.Core.Wallet.{
  Wallet, get_address, validate_address, new_tx_output, checksum, key_hash_of, lock,
  validate_payload,
}
use go_blockchain.Core.Utxo.Funds.{total_spendable}
use go_blockchain.Firewall.{max_transaction_value_limit}
use go_blockchain.Network.{
  Env, Server, command_to_bytes, node_is_known, notify_block, notify_subscribers, reindexed, send,
  send_data, send_inv, send_tx, send_inv_to,
}
use go_blockchain.Network.Handlers.{
  submit_transaction, insert_transaction, send_tx_to_known_nodes, send_tx_among,
}
use go_blockchain.Network.Convert.{ProtoTransaction, input_to_core, proto_tx_to_core}
use go_blockchain.Network.Rpc.{
  MintRequest, RpcResponse, success, mint_stable_balance, submit_transaction_call,
  max_transaction_size_limit_bytes, get_balance, decimal, mint_added, submit_converted,
  over_value_limit, mint_block, mint_draft, mint_input, mint_text,
}
use go_blockchain.Network.Rpc.Minting.{Minted, mint_stable_balance-success}
use go_blockchain.Network.Rpc.Submitting.{IsWithinLimit, submit_transaction_call-success}
use go_blockchain.Network.Rpc.Balance.{get_balance-get_address}

abbrev genesis : Block
genesis = draft_block (pos 5) [] [] (pos 9) (pos 16)

-- A store that has one block, and counts what is written.
abbrev store : Storage ℕ
store = record {
  save_block = λ s h d. ok (s + 1);
  save_block_and_tip = λ s h d. ok (s + 1);
  get_block = λ s h. if bytes_equal h (codes "a") then ok (codes "g") else err not_found;
  get_tip = λ s. ok (codes "a");
  update_tip = λ s h. ok s;
  get_utxo = λ s k. err not_found;
  save_utxo = λ s k d. ok s;
  delete_utxo = λ s k. ok s;
  clear_utxo_set = λ s. ok s;
  iterate_utxo = λ s. ok ((codes "t", codes "o") ∷ []);
}

abbrev key : PrivateKey
key = record { d = 5; x = 17; y = 19 }

abbrev wallet : Wallet
wallet = record { private_key = key; public_key = codes "k" }

abbrev env : Env ℕ
env = record {
  st = store;
  bg = record { encode = λ b. some (codes "g"); decode = λ d. some genesis };
  c = sample_crypto;
  g = sample_tx_codec;
  og = record { encode = λ outs. some []; decode = λ d. some [] };
  wire = record {
    addr = record { encode = λ m. some []; decode = λ d. none };
    block = record { encode = λ m. some []; decode = λ d. none };
    getblocks = record { encode = λ m. some m; decode = λ d. some d };
    getdata = record { encode = λ m. some m.id; decode = λ d. none };
    inv = record { encode = λ m. some []; decode = λ d. none };
    tx = record { encode = λ m. some m.transaction; decode = λ d. none };
    version = record { encode = λ m. some []; decode = λ d. none };
  };
  reach = λ addr. true;
  authorized_keys = public_key key ∷ [];
  fuel = 5;
  is_done = λ k. false;
  now = λ k. pos 6;
  random = λ k. ok (codes "0");
}

abbrev node : Server ℕ
node = record {
  node_address = codes "here";
  mining_address = [];
  known_nodes = codes "there" ∷ [];
  blocks_in_transit = [];
  mempool = [];
  bc = record { tip = codes "a"; db = 0 };
  block_subscribers = (0, []) ∷ [];
  sent = [];
}

-- The address with the key hash "abc".
abbrev mint : MintRequest
mint = record { address = codes "14h3c4Puywg"; amount = pos 250 }

run_mint : Running (Server ℕ × RpcResponse)
unfolding mint_stable_balance validate_address validate_payload base58_decode count_leading b58_char
    min_bytes b58_value ◌+ℤ◌ index_byte index_from bytes_equal checksum new_tx_output lock
    key_hash_of mint_block deserialize_block new_block_poa sign_hash hash_transactions serialize_all
    serialize new_merkle_tree build_levels new_leaf set_bytes int_to_hex low_bytes fill_bytes
    add_block check_block verify_poa_block is_authorized_key serialized serialize_block last_block
    get_block store_block mint_added notify_block notify_subscribers reindexed reindex
    find_chain_utxo blocks blocks_from scan_blocks save_all send_inv_to send_inv send send_data
    command_to_bytes node_is_known add64 wrap64 mint_draft mint_input mint_text decimal hash
run_mint = mint_stable_balance env 0 (pos 6) (some key) mint node

abbrev server_or : Server ℕ → Running (Server ℕ × RpcResponse) → Server ℕ
server_or s (some (ok (s', r))) = s'
server_or s _ = s

abbrev id_or : Running (Server ℕ × RpcResponse) → Bytes
id_or (some (ok (s', success id))) = id
id_or _ = []

abbrev minted : Server ℕ
unfolding run_mint
minted = server_or node run_mint

abbrev minted_id : Bytes
unfolding run_mint
minted_id = id_or run_mint

run_mint-ok :
    mint_stable_balance env 0 (pos 6) (some key) mint node ≡ some (ok (minted, success minted_id))
unfolding run_mint
run_mint-ok = refl

mint_stable_balance-success_example :
    (pos 0 <ℤ mint.amount)
    × (mint.amount ≤ℤ max_transaction_value_limit)
    × (validate_address sample_crypto mint.address ≡ true)
    × ((k : PrivateKey) × (out : TxOutput) × (tx : Transaction) × (some key ≡ some k)
        × (new_tx_output mint.amount mint.address ≡ ok out)
        × (is_coinbase tx ≡ true)
        × (tx.vout ≡ out ∷ [])
        × (minted_id ≡ hex_encode tx.id)
        × Minted env 0 (pos 6) k tx node minted)
mint_stable_balance-success_example =
    mint_stable_balance-success env 0 (pos 6) (some key) mint node minted minted_id run_mint-ok

abbrev sent : ProtoTransaction
sent = record {
  id = codes "t";
  vin =
      record {
        txid = [];
        vout = negsuc 0;
        signature = [];
        pub_key = codes "r";
        escrow_witness = [];
        is_refund = false;
      }
      ∷ [];
  vout = [];
}

run_submit : Running (Server ℕ × RpcResponse)
unfolding submit_transaction_call submit_converted over_value_limit proto_tx_to_core input_to_core
    submit_transaction verify_transaction is_coinbase insert_transaction send_tx_to_known_nodes
    send_tx_among send_tx send send_data command_to_bytes serialize lookup insert bytes_equal
run_submit = submit_transaction_call env (some sent) node node

abbrev submitted : Server ℕ
unfolding run_submit
submitted = server_or node run_submit

run_submit-ok :
    submit_transaction_call env (some sent) node node
    ≡ some (ok (submitted, success (hex_encode (codes "t"))))
unfolding run_submit
run_submit-ok = refl

submit_transaction_call-success_example :
    (length (serialize sample_crypto sample_tx_codec (proto_tx_to_core sent))
      ≤ max_transaction_size_limit_bytes)
    × All IsWithinLimit (proto_tx_to_core sent).vout
    × (hex_encode (codes "t") ≡ hex_encode sent.id)
    × (verify_transaction store env.bg sample_crypto sample_tx_codec 5 node.bc
          (proto_tx_to_core sent)
        ≡ some (ok true))
    × (lookup sent.id node.mempool ≡ none)
    × ((k : Bytes)
        → lookup k submitted.mempool
          ≡ (if bytes_equal sent.id k then some (proto_tx_to_core sent) else lookup k node.mempool))
    × (submitted.bc ≡ node.bc)
submit_transaction_call-success_example =
    submit_transaction_call-success env sent node node submitted (hex_encode (codes "t"))
      run_submit-ok

-- The same node, with checksums of the right length.
abbrev hashing : Env ℕ
hashing = record env { c = hashing_crypto }

get_balance-get_address_example :
    get_balance hashing (get_address hashing_crypto wallet) node
    ≡ total_spendable env.og
        (hash_pub_key hashing_crypto wallet.public_key)
        ((codes "t", codes "o") ∷ [])
        (pos 0)
get_balance-get_address_example =
    get_balance-get_address hashing hashing_sums wallet node ((codes "t", codes "o") ∷ []) refl
