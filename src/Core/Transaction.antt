-- ===== src/Core/Transaction.antt =====
-- internal/core/transaction.go and transaction_input.go: the data, the message that is signed,
-- `Sign` and `Verify`. A map of previous transactions is keyed by their ids; the source keys it by
-- the ids' hex spelling. An index out of range panics.
pub mod Rules
pub mod Accepts
pub mod Values
pub mod Rounds
pub mod Signing
pub mod Effects
mod Tests
use go_blockchain.Prelude.{
  ℕ, zero, suc, ◌+◌, Bool, true, false, ◌&&◌, ◌||◌, not, List, [], ◌∷◌, ◌++◌, map, Option, none,
  some, if◌then◌else◌, ◌==◌, ltb, ℤ, pos, negsuc, ◌==ℤ◌, add64, ltb_ℤ, leb_ℤ, Bytes, Assoc, lookup,
  length, get_elem?, take, drop, Outcome, ok, err, panic, ◌>>=◌, or_err, or_panic, index,
  prev_tx_incorrect, sign_failed,
}
use go_blockchain.Core.External.{Crypto, PrivateKey, Codec, or_nil}
use go_blockchain.Core.Bignum.{set_bytes, fill_bytes}
use go_blockchain.Core.Output.{
  TxOutput, script_escrow, script_zkcp, can_claim_escrow, can_claim_zkcp, can_refund_escrow,
}

pub record TxInput : Type 0 where
  pub txid : Bytes
  pub vout : ℤ
  pub signature : Bytes
  pub pub_key : Bytes
  pub escrow_witness : Bytes
  pub is_refund : Bool

pub record Transaction : Type 0 where
  pub id : Bytes
  pub vin : List TxInput
  pub vout : List TxOutput

-- The test of the one input of a coinbase: no id, and the index -1.
unfoldable pub is_coinbase_input : TxInput → Bool
is_coinbase_input i = length i.txid == 0 && i.vout ==ℤ negsuc 0

unfoldable pub is_coinbase_inputs : List TxInput → Bool
unfolding is_coinbase_input
is_coinbase_inputs (i ∷ []) = is_coinbase_input i
is_coinbase_inputs _ = false

unfoldable pub is_coinbase : Transaction → Bool
unfolding is_coinbase_inputs
is_coinbase tx = is_coinbase_inputs tx.vin

unfoldable pub trimmed_input : TxInput → TxInput
trimmed_input i = record {
  txid = i.txid;
  vout = i.vout;
  signature = [];
  pub_key = [];
  escrow_witness = [];
  is_refund = i.is_refund;
}

unfoldable pub copied_output : TxOutput → TxOutput
copied_output o = record {
  value = o.value;
  pub_key_hash = o.pub_key_hash;
  script_type = o.script_type;
  data_hash_lock = o.data_hash_lock;
  timeout_block = o.timeout_block;
  buyer_pub_key_hash = o.buyer_pub_key_hash;
}

unfoldable pub trimmed_copy : Transaction → Transaction
unfolding trimmed_input copied_output
trimmed_copy tx = record {
  id = tx.id;
  vin = map trimmed_input tx.vin;
  vout = map copied_output tx.vout;
}

-- An assignment to a field of `Vin[i]`, as an update of the i-th element.
abbrev pub update {ℓ} : {A : Type ℓ} → ℕ → (A → A) → List A → List A
update i f [] = []
update zero f (x ∷ xs) = f x ∷ xs
update (suc i) f (x ∷ xs) = x ∷ update i f xs

abbrev pub with_signature : Bytes → TxInput → TxInput
with_signature s i = record i { signature = s }

abbrev pub with_pub_key : Bytes → TxInput → TxInput
with_pub_key k i = record i { pub_key = k }

unfoldable pub set_signature : ℕ → Bytes → Transaction → Transaction
set_signature i s tx = record tx { vin = update i (with_signature s) tx.vin }

unfoldable pub set_pub_key : ℕ → Bytes → Transaction → Transaction
set_pub_key i k tx = record tx { vin = update i (with_pub_key k) tx.vin }

abbrev pub PrevTxs : Type 0
PrevTxs = Assoc Transaction

-- `prevTXs[id]`: a missing key gives the zero transaction.
unfoldable pub prev_tx : PrevTxs → Bytes → Transaction
prev_tx prev id = elim (lookup id prev) [
  | none ↦ record { id = []; vin = []; vout = [] }
  | some tx ↦ tx
]

-- `prevTXs[id].ID == nil` for none of the inputs.
unfoldable pub all_known : PrevTxs → List TxInput → Bool
unfolding prev_tx
all_known prev [] = true
all_known prev (i ∷ is) = not (length (prev_tx prev i.txid).id == 0) && all_known prev is

-- The hash of the key that has to sign for an input.
unfoldable pub expected_pub_key_hash : Bool → TxOutput → Bytes
expected_pub_key_hash is_refund out =
    if is_refund && out.script_type == script_escrow
    then out.buyer_pub_key_hash
    else out.pub_key_hash

-- `HashPubKey` of internal/core/wallet.go
unfoldable pub hash_pub_key : Crypto → Bytes → Bytes
hash_pub_key c key = c.ripemd160 (c.sha256 key)

-- The loop over the outputs: `none` where one is not positive, else their int64 sum.
unfoldable pub sum_outputs : List TxOutput → ℤ → Option ℤ
sum_outputs [] acc = some acc
sum_outputs (o ∷ os) acc =
    if leb_ℤ o.value (pos 0) then none else sum_outputs os (add64 acc o.value)

-- The conditions of an escrow or ZKCP output.
unfoldable pub check_script : Crypto → TxOutput → TxInput → ℤ → Bool
check_script c out i height =
    if out.script_type == script_escrow || out.script_type == script_zkcp
    then (let claimer = hash_pub_key c i.pub_key in
        if i.is_refund
        then can_refund_escrow out height claimer
        else if out.script_type == script_escrow
        then can_claim_escrow c out i.escrow_witness claimer
        else if out.script_type == script_zkcp
        then can_claim_zkcp c out i.escrow_witness claimer
        else true)
    else true

-- The lengths of the signature and of the key, and ECDSA on the message `h`.
unfoldable pub check_signature : Crypto → TxInput → Bytes → Bool
check_signature c i h =
    if not (length i.signature == 64)
    then false
    else if not (length i.pub_key == 64)
    then false
    else c.ecdsa_verify (set_bytes (take 32 i.pub_key)) (set_bytes (drop 32 i.pub_key)) h
        (set_bytes (take 32 i.signature)) (set_bytes (drop 32 i.signature))

module _ (c : Crypto) (g : Codec Transaction) where
  unfoldable pub serialize : Transaction → Bytes
  unfolding or_nil
  serialize tx = or_nil (g.encode tx)

  unfoldable pub hash : Transaction → Bytes
  hash tx = c.sha256 (serialize (record tx { id = [] }))

  -- One round of the loop of `Sign`: the copy and the transaction after it.
  unfoldable pub sign_input :
      PrivateKey
      → PrevTxs
      → ℕ
      → TxInput
      → Transaction
      → Transaction
      → Outcome (Transaction × Transaction)
  sign_input key prev i vin copy tx = do
    prev_out ← index (prev_tx prev vin.txid).vout vin.vout
    tx_in ← or_panic (get_elem? tx.vin i)
    let pkh = expected_pub_key_hash tx_in.is_refund prev_out
    let copy' = set_pub_key i pkh (set_signature i [] copy)
    rs ← or_err (c.ecdsa_sign i key (hash copy')) sign_failed
    r ← fill_bytes 32 rs.0
    s ← fill_bytes 32 rs.1
    ok (set_pub_key i [] copy', set_signature i (r ++ s) tx)

  -- The loop, over the inputs of the copy from the i-th on.
  unfoldable pub sign_inputs :
      PrivateKey → PrevTxs → ℕ → List TxInput → Transaction → Transaction → Outcome Transaction
  sign_inputs key prev i [] copy tx = ok tx
  sign_inputs key prev i (vin ∷ rest) copy tx =
      sign_input key prev i vin copy tx >>= λ done. sign_inputs key prev (suc i) rest done.0 done.1

  -- `Sign`: the signed transaction, or the error.
  unfoldable pub sign : Transaction → PrivateKey → PrevTxs → Outcome Transaction
  sign tx key prev =
      if is_coinbase tx
      then ok tx
      else if not (all_known prev tx.vin)
      then err prev_tx_incorrect
      else sign_inputs key prev 0 (trimmed_copy tx).vin (trimmed_copy tx) tx

  -- One round of the loop of `Verify`: `none` where it returns false, else the copy and the sum.
  unfoldable pub verify_input :
      PrevTxs → ℤ → ℕ → TxInput → Transaction → ℤ → Outcome (Option (Transaction × ℤ))
  verify_input prev height i vin copy acc = do
    prev_out ← index (prev_tx prev vin.txid).vout vin.vout
    let pkh = expected_pub_key_hash vin.is_refund prev_out
    let copy' = set_pub_key i pkh (set_signature i [] copy)
    if not (check_signature c vin (hash copy'))
        then ok none
        else if not (check_script c prev_out vin height)
        then ok none
        else ok (some (set_pub_key i [] copy', add64 acc prev_out.value))

  unfoldable pub verify_inputs :
      PrevTxs → ℤ → ℕ → List TxInput → Transaction → ℤ → Outcome (Option ℤ)
  verify_inputs prev height i [] copy acc = ok (some acc)
  verify_inputs prev height i (vin ∷ rest) copy acc =
      verify_input prev height i vin copy acc
      >>= elim [ none ↦ ok none | some done ↦ verify_inputs prev height (suc i) rest done.0 done.1 ]

  -- What `Verify` does once the outputs are summed.
  unfoldable pub verify_sums : Transaction → PrevTxs → ℤ → ℤ → Outcome Bool
  verify_sums tx prev height output_sum =
      verify_inputs prev height 0 tx.vin (trimmed_copy tx) (pos 0)
      >>= elim [ none ↦ ok false | some input_sum ↦ ok (not (ltb_ℤ input_sum output_sum)) ]

  unfoldable pub verify : Transaction → PrevTxs → ℤ → Outcome Bool
  verify tx prev height =
      if is_coinbase tx
      then ok true
      else if not (all_known prev tx.vin)
      then ok false
      else elim (sum_outputs tx.vout (pos 0)) [
        | none ↦ ok false
        | some output_sum ↦ verify_sums tx prev height output_sum
      ]
