-- ===== src/Core/Transaction/Rules.antt =====
-- What `verify` accepts, stated without its loops, its scratch copy and its early returns.
use go_blockchain.Prelude.{
  ℕ, zero, suc, ◌≡◌, refl, ap, ◌↔◌, ◌⊎◌, inl, inr, true, false, ◌&&◌, List, [], ◌∷◌, map, Option,
  none, some, arith, if◌then◌else◌, ℤ, ◌<ℤ◌, add64, Bytes, length, take, drop, ok, >>=-eq-ok, index,
  Bool-cases, bytes_equal→eq, bytes_equal_refl, ◌∙◌,
}
use go_blockchain.Core.External.{Crypto, Codec}
use go_blockchain.Core.Bignum.{set_bytes}
use go_blockchain.Core.Output.{
  TxOutput, script_escrow, script_zkcp, can_claim_escrow, can_claim_zkcp, can_refund_escrow,
}
use go_blockchain.Core.Transaction.{
  TxInput, Transaction, PrevTxs, trimmed_input, trimmed_copy, copied_output, update, with_signature,
  with_pub_key, set_signature, set_pub_key, prev_tx, expected_pub_key_hash, hash_pub_key,
  check_script, check_signature, hash, verify_input, verify_inputs,
}

-- The trimmed inputs with the key hash `pkh` in the i-th.
abbrev pub with_key_at : ℕ → Bytes → Transaction → Transaction
with_key_at i pkh tx = record {
  id = tx.id;
  vin = update i (with_pub_key pkh) (map trimmed_input tx.vin);
  vout = tx.vout;
}

-- The i-th input's message: the hash of the transaction without signatures, keys and witnesses, but
-- for the hash of the expected key in that input.
unfoldable pub message : Crypto → Codec Transaction → Transaction → ℕ → Bytes → Bytes
message c g tx i pkh = hash c g (with_key_at i pkh tx)

copied_outputs : (os : List TxOutput) → map copied_output os ≡ os
unfolding copied_output
copied_outputs [] = refl
copied_outputs (o ∷ os) = ap (λ l. o ∷ l) (copied_outputs os)

update_signature :
    (i : ℕ) (is : List TxInput)
    → update i (with_signature []) (map trimmed_input is) ≡ map trimmed_input is
unfolding trimmed_input
update_signature i [] = refl
update_signature zero (v ∷ is) = refl
update_signature (suc i) (v ∷ is) = ap (λ l. trimmed_input v ∷ l) (update_signature i is)

update_back :
    (i : ℕ) (pkh : Bytes) (is : List TxInput)
    → update i (with_pub_key []) (update i (with_pub_key pkh) (map trimmed_input is))
      ≡ map trimmed_input is
unfolding trimmed_input
update_back i pkh [] = refl
update_back zero pkh (v ∷ is) = refl
update_back (suc i) pkh (v ∷ is) = ap (λ l. trimmed_input v ∷ l) (update_back i pkh is)

-- The copy that a round hashes is the message's.
pub scratch_copy :
    (tx : Transaction) (i : ℕ) (pkh : Bytes)
    → set_pub_key i pkh (set_signature i [] (trimmed_copy tx)) ≡ with_key_at i pkh tx
unfolding set_pub_key set_signature trimmed_copy
scratch_copy tx i pkh = rw (copied_outputs tx.vout, update_signature i tx.vin)

-- A round leaves the copy as it found it.
pub scratch_restored :
    (tx : Transaction) (i : ℕ) (pkh : Bytes)
    → set_pub_key i [] (with_key_at i pkh tx) ≡ trimmed_copy tx
unfolding set_pub_key trimmed_copy
scratch_restored tx i pkh = rw (copied_outputs tx.vout, update_back i pkh tx.vin)

module _ (c : Crypto) where
  -- The signature is one of the message `h` under the key that the input shows.
  pub record IsSigned (i : TxInput) (h : Bytes) : Type 0 where
    pub signature_length : length i.signature ≡ 64
    pub key_length : length i.pub_key ≡ 64
    pub verified :
        c.ecdsa_verify
          (set_bytes (take 32 i.pub_key))
          (set_bytes (drop 32 i.pub_key))
          h
          (set_bytes (take 32 i.signature))
          (set_bytes (drop 32 i.signature))
        ≡ true

  -- The preimage of the lock is shown by the seller.
  pub record Claims (out : TxOutput) (i : TxInput) : Type 0 where
    pub preimage : c.sha256 i.escrow_witness ≡ out.data_hash_lock
    pub by_seller : hash_pub_key c i.pub_key ≡ out.pub_key_hash

  -- The timeout has passed, and the buyer asks.
  pub record Refunds (out : TxOutput) (i : TxInput) (height : ℤ) : Type 0 where
    pub timed_out : out.timeout_block <ℤ height
    pub by_buyer : hash_pub_key c i.pub_key ≡ out.buyer_pub_key_hash

  -- What an input has to satisfy by the script of its output.
  abbrev pub Unlocks : TxOutput → TxInput → ℤ → Type 0
  Unlocks out i height =
      ((out.script_type ≡ script_escrow) ⊎ (out.script_type ≡ script_zkcp))
      → ((i.is_refund ≡ true) × Refunds out i height) ⊎ ((i.is_refund ≡ false) × Claims out i)

  check_signature_iff : (i : TxInput) (h : Bytes) → (check_signature c i h ≡ true) ↔ IsSigned i h
  unfolding check_signature
  check_signature_iff i h = ground arith

  check_script→Unlocks :
      (out : TxOutput) (i : TxInput) (height : ℤ)
      → check_script c out i height ≡ true
      → Unlocks out i height
  unfolding check_script can_claim_escrow can_claim_zkcp can_refund_escrow
  check_script→Unlocks out i height h script = elim (Bool-cases i.is_refund) [
    | inl r ↦ inl (
      r,
      record {
        timed_out = ground arith;
        by_buyer = ground (arith, bytes_equal→eq (hash_pub_key c i.pub_key) out.buyer_pub_key_hash);
      },
    )
    | inr r ↦ inr (
      r,
      record {
        preimage = ground (arith, bytes_equal→eq (c.sha256 i.escrow_witness) out.data_hash_lock);
        by_seller = ground (arith, bytes_equal→eq (hash_pub_key c i.pub_key) out.pub_key_hash);
      },
    )
  ]

  Unlocks→check_script :
      (out : TxOutput) (i : TxInput) (height : ℤ)
      → Unlocks out i height
      → check_script c out i height ≡ true
  unfolding check_script can_claim_escrow can_claim_zkcp can_refund_escrow
  Unlocks→check_script out i height h = ground (
    arith,
    bytes_equal_refl out.buyer_pub_key_hash,
    bytes_equal_refl out.data_hash_lock,
    bytes_equal_refl out.pub_key_hash,
  )

module _ (c : Crypto) (g : Codec Transaction) (tx : Transaction) (prev : PrevTxs) (height : ℤ) where
  -- The i-th input spends `out`: it exists, the input signs for it and meets its script.
  pub record Spends (i : ℕ) (vin : TxInput) (out : TxOutput) : Type 0 where
    pub found : index (prev_tx prev vin.txid).vout vin.vout ≡ ok out
    pub signed : IsSigned c vin (message c g tx i (expected_pub_key_hash vin.is_refund out))
    pub unlocked : Unlocks c out vin height

  -- The inputs from the i-th on spend outputs whose values take the int64 sum from `acc` to `total`.
  abbrev pub AllSpend : ℕ → List TxInput → ℤ → ℤ → Type 0
  AllSpend i [] acc total = acc ≡ total
  AllSpend i (vin ∷ rest) acc total =
      (out : TxOutput) × Spends i vin out × AllSpend (suc i) rest (add64 acc out.value) total

  verify_input-found :
      (i : ℕ) (vin : TxInput) (acc : ℤ) (out : TxOutput)
      → index (prev_tx prev vin.txid).vout vin.vout ≡ ok out
      → verify_input c g prev height i vin (trimmed_copy tx) acc ≡ (
          if check_signature c vin (message c g tx i (expected_pub_key_hash vin.is_refund out))
            && check_script c out vin height
          then ok (some (trimmed_copy tx, add64 acc out.value))
          else ok none)
  unfolding verify_input message
  verify_input-found i vin acc out e =
      let pkh = expected_pub_key_hash vin.is_refund out in
      rw (e, scratch_copy tx i pkh, scratch_restored tx i pkh) (ground arith)

  verify_input→found :
      (i : ℕ) (vin : TxInput) (acc : ℤ) {done : Transaction × ℤ}
      → verify_input c g prev height i vin (trimmed_copy tx) acc ≡ ok (some done)
      → (out : TxOutput) × (index (prev_tx prev vin.txid).vout vin.vout ≡ ok out)
  unfolding verify_input
  verify_input→found i vin acc h =
      let (out, e, _) = >>=-eq-ok (index (prev_tx prev vin.txid).vout vin.vout) _ h in (out, e)

  verify_input→Spends :
      (i : ℕ) (vin : TxInput) (acc : ℤ) {done : Transaction × ℤ}
      → verify_input c g prev height i vin (trimmed_copy tx) acc ≡ ok (some done)
      → (out : TxOutput) × Spends i vin out × (done ≡ (trimmed_copy tx, add64 acc out.value))
  verify_input→Spends i vin acc {done} h =
      let (out, e) = verify_input→found i vin acc h in
      let step = verify_input-found i vin acc out e in
      let m = message c g tx i (expected_pub_key_hash vin.is_refund out) in
      (
        out,
        record {
          found = e;
          signed = (check_signature_iff c vin m).0 (ground arith);
          unlocked = check_script→Unlocks c out vin height (ground arith);
        },
        ground arith,
      )

  verify_inputs→round :
      (i : ℕ) (vin : TxInput) (rest : List TxInput) (acc : ℤ) {total : ℤ}
      → verify_inputs c g prev height i (vin ∷ rest) (trimmed_copy tx) acc ≡ ok (some total)
      → (o : Option (Transaction × ℤ)) × (verify_input c g prev height i vin (trimmed_copy tx) acc
          ≡ ok o)
  unfolding verify_inputs
  verify_inputs→round i vin rest acc h =
      let (o, e, _) = >>=-eq-ok (verify_input c g prev height i vin (trimmed_copy tx) acc) _ h in
      (o, e)

  verify_inputs-cons :
      (i : ℕ) (vin : TxInput) (rest : List TxInput) (acc : ℤ) {total : ℤ}
      (o : Option (Transaction × ℤ))
      → verify_input c g prev height i vin (trimmed_copy tx) acc ≡ ok o
      → verify_inputs c g prev height i (vin ∷ rest) (trimmed_copy tx) acc ≡ ok (some total)
      → (done : Transaction × ℤ) × (o ≡ some done)
        × (verify_inputs c g prev height (suc i) rest done.0 done.1 ≡ ok (some total))
  unfolding verify_inputs
  verify_inputs-cons i vin rest acc none e h = cc
  verify_inputs-cons i vin rest acc (some done) e h = (done, refl, rw e at h)

  pub verify_inputs→AllSpend :
      (i : ℕ) (rest : List TxInput) (acc : ℤ) {total : ℤ}
      → verify_inputs c g prev height i rest (trimmed_copy tx) acc ≡ ok (some total)
      → AllSpend i rest acc total
  verify_inputs→AllSpend i [] acc h = unfold verify_inputs in ground arith
  verify_inputs→AllSpend i (vin ∷ rest) acc {total} h =
      let (o, e) = verify_inputs→round i vin rest acc h in
      let (done, e', h') = verify_inputs-cons i vin rest acc o e h in
      let (out, s, d) = verify_input→Spends i vin acc (e ∙ ap ok e') in
      let tail : verify_inputs c g prev height (suc i) rest (trimmed_copy tx) (add64 acc out.value)
          ≡ ok (some total) =
        cc (h', d) in
      (out, s, verify_inputs→AllSpend (suc i) rest (add64 acc out.value) tail)

  pub AllSpend→verify_inputs :
      (i : ℕ) (rest : List TxInput) (acc total : ℤ)
      → AllSpend i rest acc total
      → verify_inputs c g prev height i rest (trimmed_copy tx) acc ≡ ok (some total)
  unfolding verify_inputs
  AllSpend→verify_inputs i [] acc total h = ap (λ t. ok (some t)) h
  AllSpend→verify_inputs i (vin ∷ rest) acc total (out, s, h) =
      let m = message c g tx i (expected_pub_key_hash vin.is_refund out) in
      rw
        (
          verify_input-found i vin acc out s.found,
          (check_signature_iff c vin m).1 s.signed,
          Unlocks→check_script c out vin height s.unlocked,
        )
        (AllSpend→verify_inputs (suc i) rest (add64 acc out.value) total h)
