-- ===== src/Core/Tests.antt =====
-- The theorems about trees, proof of work and authorities at concrete blocks.
use go_blockchain.Prelude.{
  ℕ, ◌≡◌, refl, true, false, [], ◌∷◌, ◌++◌, some, arith, pos, negsuc, ◌-ℤ◌, sub64, wrap64,
  bytes_equal, codes, Outcome, ok,
}
use go_blockchain.Core.External.{PrivateKey}
use go_blockchain.Core.Sample.{sample_crypto, sample_laws, sample_tx_codec}
use go_blockchain.Core.Bignum.{set_bytes, int_to_hex, low_bytes, fill_bytes}
use go_blockchain.Core.Transaction.{Transaction, serialize}
use go_blockchain.Core.Transaction.Signing.{public_key}
use go_blockchain.Core.Merkle.{new_merkle_tree, build_levels, new_leaf}
use go_blockchain.Core.Block.{Block, hash_transactions, serialize_all}
use go_blockchain.Core.Pow.{
  target, new_proof_of_work, prepare_data, pow_hash, solves, run, new_block, mine_from, draft_block,
  calculate_new_difficulty,
}
use go_blockchain.Core.Pow.Mining.{IsFirst, run_least}
use go_blockchain.Core.Pow.Difficulty.{InBounds, IsNear, calculate_new_difficulty_bounds}
use go_blockchain.Core.Poa.{is_authorized_key, new_block_poa, sign_hash, verify_poa_block}
use go_blockchain.Core.Poa.Authority.{new_block_poa-verify_poa_block}

abbrev coinbase : Transaction
coinbase = record {
  id = codes "c";
  vin =
      record {
        txid = [];
        vout = negsuc 0;
        signature = [];
        pub_key = codes "reward";
        escrow_witness = [];
        is_refund = false;
      }
      ∷ [];
  vout = [];
}

abbrev draft : Block
draft = draft_block (pos 1700000000) (coinbase ∷ []) [] (pos 20) (pos 16)

draft_hash : hash_transactions sample_crypto sample_tx_codec (coinbase ∷ []) ≡ codes "reward"
unfolding hash_transactions serialize_all serialize new_merkle_tree build_levels new_leaf
draft_hash = refl

draft_solved : solves sample_crypto sample_tx_codec draft (codes "reward") (pos 0) ≡ true
unfolding solves pow_hash prepare_data target set_bytes int_to_hex low_bytes sub64 wrap64 ◌-ℤ◌
draft_solved = refl

run_least_example :
    (m : ℕ) × (run sample_crypto sample_tx_codec draft (λ k. false) 1
      ≡ some (ok (m, pow_hash sample_crypto sample_tx_codec draft (pos m) (codes "reward"))))
    × IsFirst sample_crypto sample_tx_codec draft (codes "reward") 0 m
run_least_example =
    run_least sample_crypto sample_tx_codec draft (λ k. false) 114 (codes "eward") 0 draft_hash
      draft_solved (omega arith) (λ k. refl)

abbrev mined : Block
mined = record draft {
  hash = codes "reward" ++ low_bytes 8 1700000000 ++ low_bytes 8 16 ++ low_bytes 8 0;
}

new_block-draft :
    new_block sample_crypto sample_tx_codec
      (λ k. false)
      1
      (pos 1700000000)
      (coinbase ∷ [])
      []
      (pos 20)
      (pos 16)
    ≡ some (ok mined)
unfolding new_block new_proof_of_work run mine_from hash_transactions serialize_all serialize
    new_merkle_tree build_levels new_leaf solves pow_hash prepare_data target set_bytes int_to_hex
    low_bytes sub64 wrap64 ◌-ℤ◌
new_block-draft = refl

-- Ten blocks in 1000 seconds.
abbrev anchor : Block
anchor = record draft { timestamp = pos 1699999000; height = pos 10 }

calculate_new_difficulty_bounds_example :
    InBounds (calculate_new_difficulty draft anchor)
    × IsNear (calculate_new_difficulty draft anchor) draft.bits
calculate_new_difficulty_bounds_example = calculate_new_difficulty_bounds draft anchor (omega arith)

abbrev authority : PrivateKey
authority = record { d = 5; x = 17; y = 19 }

abbrev block_or : Outcome Block → Block → Block
block_or (ok b) _ = b
block_or _ b = b

run_poa : Outcome Block
unfolding new_block_poa sign_hash hash_transactions serialize_all serialize new_merkle_tree
    build_levels new_leaf set_bytes int_to_hex low_bytes fill_bytes
run_poa =
    new_block_poa sample_crypto sample_tx_codec 0 (pos 1700000000) (coinbase ∷ []) [] (pos 20)
      (pos 16) authority

abbrev signed : Block
signed = block_or run_poa draft

new_block_poa-signed :
    new_block_poa sample_crypto sample_tx_codec 0
      (pos 1700000000)
      (coinbase ∷ [])
      []
      (pos 20)
      (pos 16)
      authority
    ≡ ok signed
unfolding run_poa
new_block_poa-signed = refl

new_block_poa-verify_poa_block_example :
    (verify_poa_block sample_crypto sample_tx_codec (public_key authority ∷ []) signed ≡ true)
    × (verify_poa_block sample_crypto sample_tx_codec
          (public_key authority ∷ [])
          (record signed { hash = codes "l" })
        ≡ true)
unfolding is_authorized_key bytes_equal low_bytes
new_block_poa-verify_poa_block_example =
    new_block_poa-verify_poa_block sample_crypto sample_tx_codec authority (sample_laws authority)
      (omega arith) (omega arith) (public_key authority ∷ []) 0 (pos 1700000000) (coinbase ∷ []) []
      (pos 20) (pos 16) signed (codes "l") new_block_poa-signed refl
