-- ===== src/Core/Payments/Conservation.antt =====
-- internal/core/transaction.go: a payment gives out what it collects.
use go_blockchain.Prelude.{
  ℕ, ◌-◌, ◌≡◌, sym, ap, ◌∙◌, true, false, List, [], Option, none, some, arith, ℤ, pos, negsuc, ◌<ℤ◌,
  ltb_ℤ, leb_ℤ, add64, sub64, wrap64, Bytes, map, ok, err, panic, ◌>>=◌, >>=-eq-ok, >>>-eq-ok,
  some_injective, ok_injective, IsInt64, subst, invalid_address, Bool-cases, inl, inr,
  not_enough_funds, ◌+ℤ◌, ◌-ℤ◌, or_err,
}
use go_blockchain.Storage.{Storage}
use go_blockchain.Core.External.{Crypto, PrivateKey, Codec, SignLaws}
use go_blockchain.Core.Output.{TxOutput}
use go_blockchain.Core.Base58.{base58_decode}
use go_blockchain.Core.Transaction.{Transaction, trimmed_input, hash_pub_key}
use go_blockchain.Core.Transaction.Accepts.{sum64}
use go_blockchain.Core.Block.{Block}
use go_blockchain.Core.Chain.{Blockchain}
use go_blockchain.Core.Chain.Transactions.{collect_prev_txs, sign_transaction}
use go_blockchain.Core.Transaction.Effects.{sign_keeps}
use go_blockchain.Core.Utxo.Funds.{total_spendable, find_spendable_outputs_lem}
use go_blockchain.Core.Wallet.{Wallet, get_address, lock, or_die, new_tx_output, key_hash_of}
use go_blockchain.Core.Wallet.Address.{paid_to}
use go_blockchain.Core.Utxo.{Spendable, find_spendable_outputs}
use go_blockchain.Core.Payments.{inputs_from, with_change, with_hash, pay, new_utxo_transaction}

or_die-lock-value :
    (hash : Option Bytes) (o out : TxOutput)
    → or_die (or_err hash invalid_address >>= λ h. ok (record o { pub_key_hash = h })) ≡ ok out
    → out.value ≡ o.value
or_die-lock-value none o out h = cc
or_die-lock-value (some hash) o out h = ap (λ t. t.value) (sym (ok_injective h))

new_tx_output-value :
    (value : ℤ) (address : Bytes) (out : TxOutput)
    → new_tx_output value address ≡ ok out
    → (out.value ≡ value) × (pos 0 <ℤ value)
unfolding new_tx_output lock
new_tx_output-value value address out h = elim (Bool-cases (leb_ℤ value (pos 0))) [
  | inl e ↦ absurd (panics (rw e at h))
  | inr e ↦ (
    or_die-lock-value (key_hash_of (base58_decode address)) (paid_to value []) out (rw e at h),
    ground arith,
  )
]
  where
    panics : panic ≡ ok out → ⊥
    panics h = cc

-- A payment and its change are what was collected.
change_adds_up :
    (acc amount : ℤ)
    → IsInt64 acc
    → pos 0 <ℤ amount
    → ltb_ℤ amount acc ≡ true
    → add64 (add64 (pos 0) amount) (sub64 acc amount) ≡ acc
unfolding add64 sub64 wrap64 ◌+ℤ◌ ◌-ℤ◌
change_adds_up acc (negsuc b) fits positive less = absurd (omega arith)
change_adds_up (negsuc a) (pos b) fits positive less = absurd (ground arith)
change_adds_up (pos a) (pos b) fits positive less =
    let rest : sub64 (pos a) (pos b) ≡ pos (a - b) = ground arith in
    let paid : add64 (pos 0) (pos b) ≡ pos b = ground arith in
    let whole : add64 (pos b) (pos (a - b)) ≡ pos a = ground arith in rw (paid, rest, whole)

-- A payment without change is what was collected.
no_change :
    (acc amount : ℤ)
    → IsInt64 acc
    → pos 0 <ℤ amount
    → ltb_ℤ acc amount ≡ false
    → ltb_ℤ amount acc ≡ false
    → add64 (pos 0) amount ≡ acc
unfolding add64 wrap64 ◌+ℤ◌
no_change acc (negsuc b) fits positive enough less = absurd (omega arith)
no_change (negsuc a) (pos b) fits positive enough less = absurd (ground arith)
no_change (pos a) (pos b) fits positive enough less = ground arith

with_change-sum64 :
    (first : TxOutput) (acc amount : ℤ) (from : Bytes) (outs : List TxOutput)
    → IsInt64 acc
    → pos 0 <ℤ first.value
    → first.value ≡ amount
    → ltb_ℤ acc amount ≡ false
    → with_change first acc amount from ≡ ok outs
    → sum64 (pos 0) outs ≡ acc
unfolding with_change sum64
with_change-sum64 first acc amount from outs fits positive same enough h =
    elim (Bool-cases (ltb_ℤ amount acc)) [
      | inl e ↦
          let (change, made, all) =
            >>=-eq-ok (new_tx_output (sub64 acc amount) from) _ (rw e at h) in
          let (value, above) = new_tx_output-value (sub64 acc amount) from change made in
          rw⁻¹ (ok_injective all) (
            rw value
              (rw same (change_adds_up acc amount fits (subst (λ x. pos 0 <ℤ x) same positive) e)))
      | inr e ↦
          rw⁻¹ (ok_injective (rw e at h))
            (rw same (no_change acc amount fits (subst (λ x. pos 0 <ℤ x) same positive) enough e))
    ]

module _ {ℓ} {S : Type ℓ} (st : Storage S) (bg : Codec Block) (c : Crypto) (g : Codec Transaction)
    (og : Codec (List TxOutput)) (fuel : ℕ) where
  sign_transaction_keeps :
      (bc : Blockchain S) (key : PrivateKey) (laws : SignLaws c key) (tx tx' : Transaction)
      → sign_transaction st bg c g fuel bc tx key ≡ some (ok tx')
      → (tx'.vout ≡ tx.vout) × (map trimmed_input tx'.vin ≡ map trimmed_input tx.vin)
  unfolding sign_transaction
  sign_transaction_keeps bc key laws tx tx' h =
      let (prev, collected, made) = >>>-eq-ok (collect_prev_txs st bg c g fuel bc tx.vin []) _ h in
      sign_keeps c g key laws prev tx tx' (some_injective made)

  -- A payment that is made by `NewUTXOTransaction` spends the outputs that `FindSpendableOutputs`
  -- names, and the int64 sum of its outputs, the change included, is what that has accumulated. The set
  -- can be read, and signatures are in range.
  pub new_utxo_transaction_conserves :
      (bc : Blockchain S) (w : Wallet) (laws : SignLaws c w.private_key) (to : Bytes) (amount : ℤ)
      (entries : List (Bytes × Bytes)) (tx : Transaction)
      → st.iterate_utxo bc.db ≡ ok entries
      → new_utxo_transaction st bg c g og fuel w to amount bc ≡ some (ok tx)
      → (found : Spendable) × (find_spendable_outputs st og bc.db
            (hash_pub_key c w.public_key)
            amount
          ≡ ok found)
        × (sum64 (pos 0) tx.vout ≡ found.accumulated)
        × (map trimmed_input tx.vin ≡ map trimmed_input (inputs_from w.public_key found.outputs))
  unfolding new_utxo_transaction pay with_hash
  new_utxo_transaction_conserves bc w laws to amount entries tx read h =
      let from = get_address c w in
      let (found, search, h1) =
        >>>-eq-ok (some (find_spendable_outputs st og bc.db (hash_pub_key c w.public_key) amount)) _
          h in
      let fits =
        find_spendable_outputs_lem st og bc.db (hash_pub_key c w.public_key) amount entries found
          read (some_injective search) in
      elim (Bool-cases (ltb_ℤ found.accumulated amount)) [
        | inl e ↦ absurd (fails (rw e at h1))
        | inr e ↦
            let (outs, paid, h2) =
              >>>-eq-ok
                (some (
                  new_tx_output amount to >>= λ out. with_change out found.accumulated amount from))
                _ (rw e at h1) in
            let (first, made, change) =
              >>=-eq-ok (new_tx_output amount to) _ (some_injective paid) in
            let (value, positive) = new_tx_output-value amount to first made in
            let (kept, trimmed) = sign_transaction_keeps bc w.private_key laws _ tx h2 in
            (
              found,
              some_injective search,
              ap (sum64 (pos 0)) kept
                  ∙ with_change-sum64 first found.accumulated amount from outs fits.0
                      (subst (λ x. pos 0 <ℤ x) (sym value) positive) value e change,
              trimmed,
            )
      ]
    where
      fails : some (err not_enough_funds) ≡ some (ok tx) → ⊥
      fails h = cc

  -- Where `FindSpendableOutputs` accumulates less than the amount, `NewUTXOTransaction` fails for want
  -- of funds, and the int64 sum of all outputs in the set that are locked with the wallet's key hash
  -- and are no escrow is no more than that.
  pub not_enough_funds_lem :
      (bc : Blockchain S) (w : Wallet) (to : Bytes) (amount : ℤ) (entries : List (Bytes × Bytes))
      (found : Spendable)
      → st.iterate_utxo bc.db ≡ ok entries
      → find_spendable_outputs st og bc.db (hash_pub_key c w.public_key) amount ≡ ok found
      → ltb_ℤ found.accumulated amount ≡ true
      → (new_utxo_transaction st bg c g og fuel w to amount bc ≡ some (err not_enough_funds))
        × (total_spendable og (hash_pub_key c w.public_key) entries (pos 0) ≡ ok found.accumulated)
  unfolding new_utxo_transaction pay
  not_enough_funds_lem bc w to amount entries found read search less =
      let (fits, enough) =
        find_spendable_outputs_lem st og bc.db (hash_pub_key c w.public_key) amount entries found
          read search in
      (rw (search, less), elim enough [ inl more ↦ absurd (ground arith) | inr all ↦ all ])
