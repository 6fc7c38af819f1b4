-- ===== src/Core/Creation/Tests.antt =====
-- The theorem on creating a chain at a concrete one.
use go_blockchain.Prelude.{
  [], ◌∷◌, some, pos, wrap64, ◌-ℤ◌, ◌+ℤ◌, sub64, Bytes, Assoc, lookup, insert, bytes_equal, codes,
  ok, Running,
}
use go_blockchain.Storage.{Storage}
use go_blockchain.Storage.Bolt.{Db, bolt_storage, save_block_and_tip, put_in, get_from, get_tip}
use go_blockchain.Storage.Sample.{sample_bbolt}
use go_blockchain.Core.External.{Crypto, Codec}
use go_blockchain.Core.Sample.{sample_crypto, sample_tx_codec}
use go_blockchain.Core.Bignum.{set_bytes, int_to_hex, low_bytes}
use go_blockchain.Core.Base58.{
  base58_decode, count_leading, b58_char, min_bytes, b58_value, index_byte, index_from,
}
use go_blockchain.Core.Transaction.{serialize, hash}
use go_blockchain.Core.Merkle.{new_merkle_tree, build_levels, new_leaf}
use go_blockchain.Core.Block.{Block, hash_transactions, serialize_all, serialize_block}
use go_blockchain.Core.Pow.{
  target, new_proof_of_work, prepare_data, pow_hash, solves, run, new_block, mine_from,
}
use go_blockchain.Core.Chain.{Blockchain}
use go_blockchain.Core.Wallet.{lock, key_hash_of, new_tx_output}
use go_blockchain.Core.Payments.{new_coinbase_tx, with_hash}
use go_blockchain.Core.Creation.{no_tip, or_panics, new_genesis_block, create_blockchain}

abbrev Store : Type 0
Store = Db (Assoc Bytes)

abbrev store : Storage Store
store = bolt_storage sample_bbolt

abbrev empty : Store
empty = record { blocks = some []; utxo = some [] }

abbrev mint_codec : Codec Block
mint_codec = record {
  encode = λ b. some (codes "m");
  decode = λ d. some (record {
    timestamp = pos 0;
    transactions = [];
    prev_block_hash = [];
    hash = [];
    nonce = pos 0;
    height = pos 0;
    bits = pos 0;
    authority_signature = [];
    authority_pub_key = [];
  });
}

-- Every block has the hash 1, which solves.
abbrev solved_crypto : Crypto
solved_crypto = record sample_crypto { sha256 = λ b. 1 ∷ [] }

run_create : Running (Blockchain Store)
unfolding create_blockchain no_tip new_coinbase_tx with_hash new_tx_output lock key_hash_of
    base58_decode count_leading min_bytes b58_value index_byte index_from new_genesis_block
    or_panics new_block new_proof_of_work run mine_from hash_transactions serialize_all serialize
    hash new_merkle_tree build_levels new_leaf solves pow_hash prepare_data b58_char ◌+ℤ◌ target
    set_bytes int_to_hex low_bytes sub64 wrap64 ◌-ℤ◌ serialize_block save_block_and_tip put_in
    get_from get_tip lookup insert bytes_equal
run_create =
    create_blockchain store mint_codec solved_crypto sample_tx_codec 20 (ok (codes "r"))
      (pos 1700000600) (codes "1112345678") empty

abbrev created_or : Running (Blockchain Store) → Blockchain Store
created_or (some (ok bc)) = bc
created_or _ = record { tip = codes "none"; db = empty }
