-- ===== src/Core/Chain/Tests.antt =====
-- The theorems about chains at a concrete one.
use go_blockchain.Prelude.{
  ℕ, ◌≡◌, refl, ◌⊎◌, false, List, [], ◌∷◌, some, if◌then◌else◌, ltb_ℤ, pos, negsuc, ◌+ℤ◌, ◌-ℤ◌,
  sub64, add64, wrap64, Bytes, Assoc, lookup, insert, bytes_equal, codes, Outcome, ok, Running,
}
use go_blockchain.Storage.{Storage}
use go_blockchain.Storage.Bolt.{Db, bolt_storage}
use go_blockchain.Storage.Bolt.{
  save_block, save_block_and_tip, put_in, get_from, get_block as bolt_get_block, get_tip,
}
use go_blockchain.Storage.Bolt.Refines.{IsHash, bolt_storage-StorageLaws}
use go_blockchain.Storage.Sample.{sample_bbolt, sample_bbolt_laws}
use go_blockchain.Core.External.{Codec}
use go_blockchain.Core.Sample.{sample_crypto, sample_tx_codec}
use go_blockchain.Core.Bignum.{set_bytes, int_to_hex, low_bytes}
use go_blockchain.Core.Transaction.{Transaction, serialize, is_coinbase}
use go_blockchain.Core.Merkle.{new_merkle_tree, build_levels, new_leaf}
use go_blockchain.Core.Block.{
  Block, hash_transactions, serialize_all, serialize_block, deserialize_block,
}
use go_blockchain.Core.Pow.{
  target, new_proof_of_work, prepare_data, pow_hash, solves, run, new_block, mine_from, validate,
  draft_block, calculate_new_difficulty,
}
use go_blockchain.Core.Chain.{
  Blockchain, check_block, serialized, get_block, last_block, store_block, add_block, next_bits,
  find_anchor,
}
use go_blockchain.Core.Chain.Adding.{IsKnown, IsWellFormed}
use go_blockchain.Core.Chain.Growth.{
  receive_blocks, receive_blocks_grow, add_block_lem, Rises, Keeps,
}
use go_blockchain.Core.Chain.Sample.{sample_block_codec, sample_block_trips}
use go_blockchain.Core.Chain.Transactions.{mine_block, verify_all, verify_transaction}
use go_blockchain.Core.Chain.Transactions.Mined.{Mined, mine_block-Mined}

abbrev Store : Type 0
Store = Db (Assoc Bytes)

abbrev store : Storage Store
store = bolt_storage sample_bbolt

abbrev block_at : ℕ → Bytes → Bytes → Block
block_at height prev_hash h =
    record (draft_block (pos 1700000000) [] prev_hash (pos height) (pos 16)) { hash = h }

-- A chain whose last block has the height 9.
abbrev last : Block
last = block_at 9 (codes "g") (codes "a")

abbrev chain : Blockchain Store
chain = record {
  tip = codes "a";
  db = record {
    blocks = some (
        (codes "a", 0 ∷ 1700000000 ∷ 0 ∷ 0 ∷ 0 ∷ 9 ∷ 0 ∷ 16 ∷ 1 ∷ 103 ∷ 1 ∷ 97 ∷ 0 ∷ 0 ∷ [])
        ∷ (codes "g", 0 ∷ 1699999000 ∷ 0 ∷ 0 ∷ 0 ∷ 0 ∷ 0 ∷ 16 ∷ 0 ∷ 1 ∷ 103 ∷ 0 ∷ 0 ∷ [])
        ∷ (codes "l", codes "a")
        ∷ []);
    utxo = some [];
  };
}

last_read : get_block store sample_block_codec chain.db (codes "a") ≡ ok last
unfolding get_block bolt_get_block get_from lookup bytes_equal deserialize_block
last_read = refl

chain-IsWellFormed : IsWellFormed store sample_block_codec IsHash chain
unfolding get_tip get_from lookup bytes_equal
chain-IsWellFormed = record { tip_saved = refl; tip_key = refl; last = last; last_read = last_read }

abbrev next : Block
next = block_at 10 (codes "a") (codes "b")

-- The block again, a lower one and one with a bad signature.
abbrev received : List Block
received =
    next
    ∷ next
    ∷ block_at 3 [] (codes "d")
    ∷ record next { authority_signature = codes "x"; hash = codes "e" }
    ∷ []

receive_blocks_grow_example :
    IsWellFormed store sample_block_codec IsHash
      (receive_blocks store sample_block_codec sample_crypto sample_tx_codec [] chain received)
    × Rises store sample_block_codec IsHash chain
        (receive_blocks store sample_block_codec sample_crypto sample_tx_codec [] chain received)
    × Keeps store sample_block_codec IsHash chain
        (receive_blocks store sample_block_codec sample_crypto sample_tx_codec [] chain received)
unfolding bytes_equal
receive_blocks_grow_example =
    receive_blocks_grow store sample_block_codec sample_crypto sample_tx_codec [] IsHash
      (bolt_storage-StorageLaws sample_bbolt sample_bbolt_laws) sample_block_trips received chain
      (refl, (refl, (refl, (refl, tt)))) chain-IsWellFormed

abbrev grown_or : Outcome (Blockchain Store) → Blockchain Store
grown_or (ok bc) = bc
grown_or _ = chain

run_add : Outcome (Blockchain Store)
unfolding add_block check_block serialized serialize_block last_block get_block store_block
    deserialize_block bolt_get_block get_tip get_from put_in save_block save_block_and_tip lookup
    insert bytes_equal validate hash_transactions serialize_all new_merkle_tree build_levels solves
    pow_hash prepare_data new_proof_of_work target set_bytes int_to_hex low_bytes sub64 wrap64 ◌-ℤ◌
run_add = add_block store sample_block_codec sample_crypto sample_tx_codec [] chain next

abbrev grown : Blockchain Store
grown = grown_or run_add

run_add-grown :
    add_block store sample_block_codec sample_crypto sample_tx_codec [] chain next ≡ ok grown
unfolding run_add
run_add-grown = refl

add_block_lem_example :
    (IsKnown store sample_block_codec sample_crypto sample_tx_codec [] chain next × (grown ≡ chain))
    ⊎ ((check_block sample_crypto sample_tx_codec [] next ≡ ok tt)
        × (get_block store sample_block_codec grown.db (codes "b") ≡ ok next)
        × (grown.tip ≡ (if ltb_ℤ (pos 9) (pos 10) then codes "b" else codes "a")))
unfolding last_block get_tip get_from lookup bytes_equal
add_block_lem_example =
    add_block_lem store sample_block_codec sample_crypto sample_tx_codec [] IsHash
      (bolt_storage-StorageLaws sample_bbolt sample_bbolt_laws) sample_block_trips chain grown next
      last refl last_read run_add-grown

abbrev coinbase : Transaction
coinbase = record {
  id = codes "c";
  vin =
      record {
        txid = [];
        vout = negsuc 0;
        signature = [];
        pub_key = codes "r";
        escrow_witness = [];
        is_refund = false;
      }
      ∷ [];
  vout = [];
}

-- As the sample codec, with a code for the block that is mined.
abbrev mint_codec : Codec Block
mint_codec = record { encode = λ b. some (codes "m"); decode = sample_block_codec.decode }

run_mine : Running (Block × Blockchain Store)
unfolding mine_block verify_all verify_transaction is_coinbase next_bits find_anchor get_block
    deserialize_block bolt_get_block get_tip get_from put_in save_block_and_tip serialize_block
    lookup insert bytes_equal calculate_new_difficulty new_block run mine_from hash_transactions
    serialize_all serialize new_merkle_tree build_levels new_leaf solves pow_hash prepare_data
    new_proof_of_work target set_bytes int_to_hex low_bytes sub64 add64 wrap64 ◌-ℤ◌ ◌+ℤ◌
run_mine =
    mine_block store mint_codec sample_crypto sample_tx_codec 20 (λ k. false) (pos 1700000600) chain
      (coinbase ∷ [])

abbrev mined_or : Running (Block × Blockchain Store) → Block × Blockchain Store
mined_or (some (ok p)) = p
mined_or _ = (last, chain)

abbrev minted : Block × Blockchain Store
minted = mined_or run_mine

run_mine-minted :
    mine_block store mint_codec sample_crypto sample_tx_codec 20
      (λ k. false)
      (pos 1700000600)
      chain
      (coinbase ∷ [])
    ≡ some (ok (minted.0, minted.1))
unfolding run_mine
run_mine-minted = refl

mine_block-Mined_example :
    Mined store mint_codec sample_crypto sample_tx_codec 20
      (pos 1700000600)
      chain
      minted.1
      (coinbase ∷ [])
      minted.0
mine_block-Mined_example =
    mine_block-Mined store mint_codec sample_crypto sample_tx_codec 20 (λ k. false) (pos 1700000600)
      chain minted.1 (coinbase ∷ []) minted.0 run_mine-minted
