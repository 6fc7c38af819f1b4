-- ===== src/Core/Payments/Tests.antt =====
-- The theorems about addresses, the UTXO set and payments at a concrete chain of one block.
use go_blockchain.Prelude.{
  ℕ, ◌≡◌, refl, true, false, List, [], ◌∷◌, some, arith, pos, Bytes, bytes_equal, lookup, codes, ok,
  Running, add64, wrap64, ◌+ℤ◌, sub64, ◌-ℤ◌, index, insert, map,
}
use go_blockchain.Storage.{Storage}
use go_blockchain.Core.External.{Codec, PrivateKey}
use go_blockchain.Core.Sample.{hashing_crypto, hashing_laws, hashing_sums, sample_tx_codec}
use go_blockchain.Core.Bignum.{low_bytes, set_bytes, fill_bytes}
use go_blockchain.Core.Base58.{
  count_leading, reverse_bytes, swap_ends, b58_digits, swap_at, b58_char, min_bytes, b58_value,
  index_byte, index_from, base58_encode, base58_decode,
}
use go_blockchain.Core.Base58.RoundTrip.{base58_decode-base58_encode}
use go_blockchain.Core.Output.{TxOutput, script_escrow, is_locked_with_key}
use go_blockchain.Core.Transaction.{
  Transaction, hash_pub_key, sign, is_coinbase, all_known, trimmed_copy, trimmed_input, sign_inputs,
  sign_input, expected_pub_key_hash, set_pub_key, set_signature, hash, serialize,
}
use go_blockchain.Core.Transaction.Accepts.{sum64}
use go_blockchain.Core.Utxo.{
  Spendable, find_spendable_outputs, collect_entries, deserialize_outputs, collect_outputs,
  collect_output, is_spendable, append_to, entries_of, or_empty, find_chain_utxo, scan_blocks,
  scan_txs, scan_tx, scan_outputs, scan_output, scan_inputs, has_index,
}
use go_blockchain.Core.Utxo.Unspent.{named_by, outputs_except, transactions_of, find_chain_utxo_lem}
use go_blockchain.Core.Payments.Conservation.{new_utxo_transaction_conserves}
use go_blockchain.Core.Transaction.Signing.{public_key}
use go_blockchain.Core.Block.{Block, deserialize_block}
use go_blockchain.Core.Pow.{draft_block}
use go_blockchain.Core.Chain.{
  Blockchain, blocks, blocks_from, get_block, last_block, get_best_height,
}
use go_blockchain.Core.Chain.Transactions.{
  sign_transaction, collect_prev_txs, find_transaction, find_in_blocks, find_in_block,
  verify_transaction,
}
use go_blockchain.Core.Wallet.{
  lock, key_hash_of, checksum, Wallet, get_address, validate_address, new_tx_output,
}
use go_blockchain.Core.Wallet.Address.{paid_to, validate_address-get_address}
use go_blockchain.Core.Payments.{
  pay, with_change, with_hash, inputs_from, new_escrow_claim_transaction, new_utxo_transaction,
}
use go_blockchain.Core.Payments.Settlement.{IsKeyPair, claim_succeeds}

abbrev alice : PrivateKey
alice = record { d = 5; x = 17; y = 19 }

abbrev wallet : Wallet
wallet = record { private_key = alice; public_key = public_key alice }

wallet-IsKeyPair : IsKeyPair wallet
wallet-IsKeyPair = record { x_fits = omega arith; y_fits = omega arith; own_key = refl }

abbrev own_hash : Bytes
own_hash = hash_pub_key hashing_crypto (public_key alice)

abbrev escrow : TxOutput
escrow = record {
  value = pos 30;
  pub_key_hash = own_hash;
  script_type = script_escrow;
  data_hash_lock = low_bytes 32 (set_bytes (codes "secret"));
  timeout_block = pos 40;
  buyer_pub_key_hash = own_hash;
}

-- Its first output is locked with another key's hash.
abbrev funding : Transaction
funding = record { id = codes "f"; vin = []; vout = paid_to (pos 10) (codes "bob") ∷ escrow ∷ [] }

abbrev genesis : Block
genesis = draft_block (pos 5) (funding ∷ []) [] (pos 50) (pos 16)

abbrev block_codec : Codec Block
block_codec = record { encode = λ b. some (codes "g"); decode = λ d. some genesis }

-- A store that holds one block, and one entry of the UTXO set.
abbrev store : Storage ℕ
store = record {
  save_block = λ s h d. ok s;
  save_block_and_tip = λ s h d. ok s;
  get_block = λ s h. ok (codes "g");
  get_tip = λ s. ok (codes "a");
  update_tip = λ s h. ok s;
  get_utxo = λ s k. ok (codes "u");
  save_utxo = λ s k d. ok s;
  delete_utxo = λ s k. ok s;
  clear_utxo_set = λ s. ok s;
  iterate_utxo = λ s. ok ((codes "f", codes "u") ∷ []);
}

abbrev chain : Blockchain ℕ
chain = record { tip = codes "a"; db = 0 }

base58_decode-base58_encode_example :
    base58_decode (base58_encode (0 ∷ 0 ∷ 7 ∷ 255 ∷ [])) ≡ 0 ∷ 0 ∷ 7 ∷ 255 ∷ []
base58_decode-base58_encode_example =
    base58_decode-base58_encode (0 ∷ 0 ∷ 7 ∷ 255 ∷ [])
      (omega arith, (omega arith, (omega arith, (omega arith, tt))))

validate_address-get_address_example :
    (validate_address hashing_crypto (get_address hashing_crypto wallet) ≡ true)
    × (new_tx_output (pos 7) (get_address hashing_crypto wallet) ≡ ok (paid_to (pos 7) own_hash))
validate_address-get_address_example =
    validate_address-get_address hashing_crypto hashing_sums wallet (pos 7) (omega arith)

funding_found :
    find_transaction store block_codec hashing_crypto sample_tx_codec 5 chain (codes "f")
    ≡ some (ok funding)
unfolding find_transaction blocks blocks_from get_block find_in_blocks find_in_block bytes_equal
    deserialize_block
funding_found = refl

best : get_best_height store block_codec chain ≡ ok (pos 50)
unfolding get_best_height last_block get_block deserialize_block
best = refl

claim_succeeds_example :
    (tx : Transaction) × (new_escrow_claim_transaction store block_codec hashing_crypto
        sample_tx_codec 5 wallet
        (codes "f")
        (pos 1)
        (codes "secret")
        chain
      ≡ some (ok tx))
    × (verify_transaction store block_codec hashing_crypto sample_tx_codec 5 chain tx
        ≡ some (ok true))
claim_succeeds_example =
    claim_succeeds store block_codec hashing_crypto sample_tx_codec 5 hashing_sums chain wallet
      (hashing_laws alice) wallet-IsKeyPair (λ draw h. (_, refl)) funding (codes "f") 1 escrow
      (pos 50) funding_found (omega arith) refl (omega arith) best (codes "secret") refl refl

-- The entry of the UTXO set, of one output of 30 coins, and one of an escrow.
abbrev outputs_codec : Codec (List TxOutput)
outputs_codec = record {
  encode = λ outs. some [];
  decode = λ d. some (paid_to (pos 30) own_hash ∷ escrow ∷ []);
}

run_pay : Running Transaction
unfolding new_utxo_transaction pay find_spendable_outputs collect_entries deserialize_outputs
    collect_outputs collect_output is_spendable is_locked_with_key append_to entries_of or_empty
    lookup insert bytes_equal add64 sub64 wrap64 ◌+ℤ◌ ◌-ℤ◌ with_change new_tx_output lock
    key_hash_of get_address hash_pub_key checksum sign_transaction collect_prev_txs with_hash
    inputs_from sign is_coinbase all_known trimmed_copy sign_inputs sign_input index
    expected_pub_key_hash set_pub_key set_signature hash serialize fill_bytes low_bytes set_bytes
    base58_decode base58_encode count_leading reverse_bytes swap_ends b58_digits swap_at b58_char
    min_bytes b58_value index_byte index_from find_transaction blocks blocks_from get_block
    find_in_blocks find_in_block deserialize_block
run_pay =
    new_utxo_transaction store block_codec hashing_crypto sample_tx_codec outputs_codec 5 wallet
      (get_address hashing_crypto wallet) (pos 12) chain

abbrev paid_or : Running Transaction → Transaction
paid_or (some (ok tx)) = tx
paid_or _ = funding

run_pay-ok :
    new_utxo_transaction store block_codec hashing_crypto sample_tx_codec outputs_codec 5 wallet
      (get_address hashing_crypto wallet)
      (pos 12)
      chain
    ≡ some (ok (paid_or run_pay))
unfolding run_pay
run_pay-ok = refl

new_utxo_transaction_conserves_example :
    (found : Spendable) × (find_spendable_outputs store outputs_codec 0 own_hash (pos 12)
      ≡ ok found)
    × (sum64 (pos 0) (paid_or run_pay).vout ≡ found.accumulated)
    × (map trimmed_input (paid_or run_pay).vin
        ≡ map trimmed_input (inputs_from wallet.public_key found.outputs))
new_utxo_transaction_conserves_example =
    new_utxo_transaction_conserves store block_codec hashing_crypto sample_tx_codec outputs_codec 5
      chain wallet (hashing_laws alice) (get_address hashing_crypto wallet) (pos 12)
      ((codes "f", codes "u") ∷ []) (paid_or run_pay) refl run_pay-ok

abbrev collected : Spendable
collected = record { accumulated = pos 30; outputs = (codes "f", pos 0 ∷ []) ∷ [] }

collected_found : find_spendable_outputs store outputs_codec 0 own_hash (pos 100) ≡ ok collected
unfolding find_spendable_outputs collect_entries deserialize_outputs collect_outputs collect_output
    is_spendable is_locked_with_key append_to entries_of or_empty lookup insert bytes_equal add64
    wrap64 ◌+ℤ◌ hash_pub_key low_bytes set_bytes
collected_found = refl

-- A walk that meets a spender of the first output first.
abbrev spender : Transaction
spender = record {
  id = codes "fs";
  vin =
      record {
        txid = codes "f";
        vout = pos 0;
        signature = [];
        pub_key = [];
        escrow_witness = [];
        is_refund = false;
      }
      ∷ [];
  vout = [];
}

abbrev spent_codec : Codec Block
spent_codec = record block_codec {
  decode = λ d. some (record genesis { transactions = spender ∷ funding ∷ [] });
}

find_chain_utxo_lem_example :
    entries_of (codes "f") ((codes "f", escrow ∷ []) ∷ [])
    ≡ outputs_except (named_by (codes "f") (spender ∷ [])) 0 funding.vout
unfolding find_chain_utxo blocks blocks_from get_block deserialize_block scan_blocks scan_txs
    scan_tx scan_outputs scan_output scan_inputs has_index append_to entries_of or_empty lookup
    insert bytes_equal is_coinbase transactions_of
find_chain_utxo_lem_example =
    find_chain_utxo_lem store spent_codec 5 chain
      (record genesis { transactions = spender ∷ funding ∷ [] } ∷ [])
      ((codes "f", escrow ∷ []) ∷ []) (spender ∷ []) [] funding refl refl refl ((λ e. cc), tt) tt
