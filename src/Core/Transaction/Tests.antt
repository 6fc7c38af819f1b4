-- ===== src/Core/Transaction/Tests.antt =====
-- The theorems about transactions at a concrete one.
use go_blockchain.Prelude.{
  ◌≡◌, refl, subst, ◌↔◌, ◌⊎◌, inl, inr, true, false, [], ◌∷◌, arith, ℤ, pos, ◌+ℤ◌, ◌≤ℤ◌, add64,
  wrap64, Bytes, bytes_equal, lookup, index, Outcome, ok, codes, ok_injective,
}
use go_blockchain.Core.External.{PrivateKey}
use go_blockchain.Core.Sample.{sample_crypto, sample_laws, sample_tx_codec}
use go_blockchain.Core.Bignum.{low_bytes, fill_bytes, set_bytes}
use go_blockchain.Core.Output.{TxOutput, script_p2pkh, script_escrow}
use go_blockchain.Core.Transaction.{
  TxInput, Transaction, PrevTxs, is_coinbase, all_known, trimmed_copy, sign_inputs, sign_input,
  expected_pub_key_hash, set_pub_key, set_signature, hash, serialize, prev_tx, hash_pub_key, sign,
  verify,
}
use go_blockchain.Core.Transaction.Rules.{Unlocks, Refunds, Claims}
use go_blockchain.Core.Transaction.Accepts.{Accepts, verify_iff, sum64}
use go_blockchain.Core.Transaction.Values.{
  input_sum, output_sum, verify_no_inflation, verify_escrow_safe,
}
use go_blockchain.Core.Transaction.Signing.{
  public_key, MeetsScript, NamesP2pkh, spent64, verify-sign, any_key_spends_p2pkh,
}

abbrev alice : PrivateKey
alice = record { d = 5; x = 17; y = 19 }

abbrev paid_to : Bytes → ℤ → TxOutput
paid_to pkh value = record {
  value = value;
  pub_key_hash = pkh;
  script_type = script_p2pkh;
  data_hash_lock = [];
  timeout_block = pos 0;
  buyer_pub_key_hash = [];
}

abbrev escrow : TxOutput
escrow = record {
  value = pos 30;
  pub_key_hash = public_key alice;
  script_type = script_escrow;
  data_hash_lock = codes "secret";
  timeout_block = pos 40;
  buyer_pub_key_hash = codes "buyer";
}

-- Its first output is locked with another key's hash.
abbrev funding : Transaction
funding = record { id = codes "f"; vin = []; vout = paid_to (codes "bob") (pos 10) ∷ escrow ∷ [] }

abbrev prev : PrevTxs
prev = (codes "f", funding) ∷ []

abbrev input : ℤ → Bytes → TxInput
input vout witness = record {
  txid = codes "f";
  vout = vout;
  signature = [];
  pub_key = public_key alice;
  escrow_witness = witness;
  is_refund = false;
}

abbrev spend : Transaction
spend = record {
  id = codes "s";
  vin = input (pos 1) (codes "secret") ∷ input (pos 0) [] ∷ [];
  vout = paid_to (codes "carol") (pos 35) ∷ [];
}

-- `sign` with alice's key, and all that a run of it needs unfolded.
run_sign : Transaction → Outcome Transaction
unfolding sign is_coinbase all_known bytes_equal lookup trimmed_copy sign_inputs sign_input index
    expected_pub_key_hash set_pub_key set_signature hash serialize fill_bytes low_bytes set_bytes
run_sign tx = sign sample_crypto sample_tx_codec tx alice prev

abbrev ok_or : Outcome Transaction → Transaction → Transaction
ok_or (ok tx) _ = tx
ok_or _ tx = tx

abbrev signed : Transaction
signed = ok_or (run_sign spend) spend

sign-spend : sign sample_crypto sample_tx_codec spend alice prev ≡ ok signed
unfolding run_sign
sign-spend = refl

-- The second input spends an output of bob with alice's key.
claims_escrow : MeetsScript sample_crypto prev (pos 7) (input (pos 1) (codes "secret"))
unfolding prev_tx lookup bytes_equal index hash_pub_key
claims_escrow out e =
    subst (λ o. Unlocks sample_crypto o (input (pos 1) (codes "secret")) (pos 7)) (ok_injective e)
      (λ _. inr (refl, record { preimage = refl; by_seller = refl }))

names_p2pkh : (w : Bytes) → NamesP2pkh prev (input (pos 0) w)
unfolding prev_tx lookup bytes_equal index
names_p2pkh w out e = subst (λ o. o.script_type ≡ script_p2pkh) (ok_injective e) refl

spends_bob : MeetsScript sample_crypto prev (pos 7) (input (pos 0) [])
spends_bob out e script = let p = names_p2pkh [] out e in absurd (grind arith)

verify-sign_example : verify sample_crypto sample_tx_codec signed prev (pos 7) ≡ ok true
unfolding is_coinbase spent64 sum64 add64 wrap64 ◌+ℤ◌ prev_tx lookup bytes_equal index
verify-sign_example =
    verify-sign sample_crypto sample_tx_codec alice (sample_laws alice) prev spend (pos 7)
      (omega arith) (omega arith) refl sign-spend (refl, (refl, tt))
      (claims_escrow, (spends_bob, tt)) (omega arith) (omega arith)

-- alice takes what is locked with bob's hash.
abbrev theft : Transaction
theft = record {
  id = codes "t";
  vin = input (pos 0) [] ∷ [];
  vout = paid_to (codes "carol") (pos 10) ∷ [];
}

abbrev signed_theft : Transaction
signed_theft = ok_or (run_sign theft) theft

sign-theft : sign sample_crypto sample_tx_codec theft alice prev ≡ ok signed_theft
unfolding run_sign
sign-theft = refl

any_key_spends_p2pkh_example :
    verify sample_crypto sample_tx_codec signed_theft prev (pos 7) ≡ ok true
unfolding is_coinbase spent64 sum64 add64 wrap64 ◌+ℤ◌ prev_tx lookup bytes_equal index
any_key_spends_p2pkh_example =
    any_key_spends_p2pkh sample_crypto sample_tx_codec alice (sample_laws alice) prev theft (pos 7)
      (omega arith) (omega arith) refl sign-theft (refl, tt) (names_p2pkh [], tt) (omega arith)
      (omega arith)

verify_iff_example : (verify sample_crypto sample_tx_codec signed prev (pos 7) ≡ ok true) ↔ (
    (is_coinbase signed ≡ true)
    ⊎ ((is_coinbase signed ≡ false) × Accepts sample_crypto sample_tx_codec signed prev (pos 7)))
verify_iff_example = verify_iff sample_crypto sample_tx_codec signed prev (pos 7)

not_coinbase : is_coinbase signed ≡ false
unfolding run_sign
not_coinbase = refl

verify_no_inflation_example : output_sum signed.vout ≤ℤ input_sum prev signed.vin
unfolding run_sign input_sum output_sum ◌+ℤ◌
verify_no_inflation_example =
    verify_no_inflation sample_crypto sample_tx_codec signed prev (pos 7) not_coinbase
      verify-sign_example (omega arith) (omega arith) (omega arith)

abbrev first_signed : TxInput
first_signed = elim signed.vin [ [] ↦ input (pos 1) [] | i ∷ is ↦ i ]

verify_escrow_safe_example :
    ((first_signed.is_refund ≡ true) × Refunds sample_crypto escrow first_signed (pos 7))
    ⊎ ((first_signed.is_refund ≡ false) × Claims sample_crypto escrow first_signed)
unfolding run_sign
verify_escrow_safe_example =
    verify_escrow_safe sample_crypto sample_tx_codec signed prev (pos 7) not_coinbase
      verify-sign_example 0 first_signed escrow refl refl (inl refl)

-- Two outputs whose sum is 2^64 - 2.
abbrev forged : Transaction
forged = record {
  id = codes "t";
  vin = input (pos 0) [] ∷ [];
  vout =
      paid_to (codes "carol") (pos 9223372036854775807)
      ∷ paid_to (codes "carol") (pos 9223372036854775807)
      ∷ [];
}

abbrev signed_forged : Transaction
signed_forged = ok_or (run_sign forged) forged
