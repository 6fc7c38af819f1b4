-- ===== src/Core/Transaction/Values.antt =====
-- Escrows and values in a verified transaction.
use go_blockchain.Prelude.{
  ℕ, zero, suc, ◌≡◌, ◌⊎◌, inl, inr, true, false, List, [], ◌∷◌, some, arith, ℤ, pos, ◌≤ℤ◌, ◌<ℤ◌,
  ◌+ℤ◌, add64, add64_exact, int_laws, int64_laws, pos_part, int64_half, ◌<◌, get_elem?, All,
  Outcome, ok, err, panic, index, ◌∙◌, sym,
}
use go_blockchain.Core.External.{Crypto, Codec}
use go_blockchain.Core.Output.{TxOutput, script_escrow, script_zkcp}
use go_blockchain.Core.Transaction.{TxInput, Transaction, PrevTxs, is_coinbase, prev_tx, verify}
use go_blockchain.Core.Transaction.Rules.{Spends, AllSpend, Refunds, Claims}
use go_blockchain.Core.Transaction.Accepts.{IsPositive, IsKnown, Accepts→verify, verify_iff, sum64}

-- The output that an input names; a missing one counts as nothing.
abbrev pub value_of : Outcome TxOutput → ℤ
value_of (ok out) = out.value
value_of (err e) = pos 0
value_of panic = pos 0

abbrev pub input_value : PrevTxs → TxInput → ℤ
input_value prev i = value_of (index (prev_tx prev i.txid).vout i.vout)

-- Exact sums, which do not wrap around.
unfoldable pub input_sum : PrevTxs → List TxInput → ℤ
input_sum prev [] = pos 0
input_sum prev (i ∷ is) = input_value prev i +ℤ input_sum prev is

unfoldable pub output_sum : List TxOutput → ℤ
output_sum [] = pos 0
output_sum (o ∷ os) = o.value +ℤ output_sum os

output_sum_nonneg : (os : List TxOutput) → All IsPositive os → pos 0 ≤ℤ output_sum os
unfolding output_sum
output_sum_nonneg [] h = omega arith
output_sum_nonneg (o ∷ os) (p, h) = let ih = output_sum_nonneg os h in omega int_laws

sum64_exact :
    (acc : ℤ) (os : List TxOutput)
    → pos 0 ≤ℤ acc
    → All IsPositive os
    → pos_part (acc +ℤ output_sum os) < int64_half
    → sum64 acc os ≡ acc +ℤ output_sum os
unfolding sum64 output_sum
sum64_exact acc [] a0 h fits = omega int_laws
sum64_exact acc (o ∷ os) a0 (p, h) fits =
    let rest = output_sum_nonneg os h in
    rw (add64_exact acc o.value (omega int64_laws))
      (sum64_exact (acc +ℤ o.value) os (omega int_laws) h (omega int64_laws) ∙ omega int_laws)

-- The values that inputs spend are not negative.
abbrev pub IsFunded : PrevTxs → TxInput → Type 0
IsFunded prev i = pos 0 ≤ℤ input_value prev i

input_sum_nonneg :
    (prev : PrevTxs) (is : List TxInput) → All (IsFunded prev) is → pos 0 ≤ℤ input_sum prev is
unfolding input_sum
input_sum_nonneg prev [] h = omega arith
input_sum_nonneg prev (i ∷ is) (p, h) = let ih = input_sum_nonneg prev is h in omega int_laws

module _ (c : Crypto) (g : Codec Transaction) (tx : Transaction) (prev : PrevTxs) (height : ℤ) where
  AllSpend-exact :
      (n : ℕ) (is : List TxInput) (acc total : ℤ)
      → AllSpend c g tx prev height n is acc total
      → pos 0 ≤ℤ acc
      → All (IsFunded prev) is
      → pos_part (acc +ℤ input_sum prev is) < int64_half
      → total ≡ acc +ℤ input_sum prev is
  unfolding input_sum
  AllSpend-exact n [] acc total h a0 f fits = sym h ∙ omega int_laws
  AllSpend-exact n (i ∷ is) acc total (out, s, h) a0 (p, f) fits =
      let rest = input_sum_nonneg prev is f in
      let v : input_value prev i ≡ out.value = rw (s.found) in
      let exact = add64_exact acc (input_value prev i) (omega int64_laws) in
      let h' = rw (← v) at h in
      AllSpend-exact (suc n) is (acc +ℤ input_value prev i) total (rw exact at h') (omega int_laws)
        f (omega int64_laws)
      ∙ omega int_laws

  -- A verified transaction that is no coinbase pays out at most what the outputs that it names hold,
  -- as exact sums, if neither sum reaches 2^63 and no named output holds a negative value.
  pub verify_no_inflation :
      is_coinbase tx ≡ false
      → verify c g tx prev height ≡ ok true
      → All (IsFunded prev) tx.vin
      → pos_part (input_sum prev tx.vin) < int64_half
      → pos_part (output_sum tx.vout) < int64_half
      → output_sum tx.vout ≤ℤ input_sum prev tx.vin
  verify_no_inflation base h funded fits_in fits_out = elim ((verify_iff c g tx prev height).0 h) [
    | inl e ↦ cc
    | inr (_, a) ↦
        let ins =
          AllSpend-exact 0 tx.vin (pos 0) a.total a.spends (omega arith) funded
            (omega int64_laws) in
        let outs = sum64_exact (pos 0) tx.vout (omega arith) a.positive (omega int64_laws) in
        let covered = rw (outs, ins) at a.covered in omega int_laws
  ]

  -- Where the int64 sum of the outputs wraps around to a negative number, a transaction whose inputs
  -- are in order is accepted although it pays out more than it spends.
  pub overflow_passes_verify :
      is_coinbase tx ≡ false
      → All (IsKnown prev) tx.vin
      → All IsPositive tx.vout
      → AllSpend c g tx prev height 0 tx.vin (pos 0) (input_sum prev tx.vin)
      → pos 0 ≤ℤ input_sum prev tx.vin
      → pos_part (input_sum prev tx.vin) < int64_half
      → sum64 (pos 0) tx.vout <ℤ pos 0
      → (verify c g tx prev height ≡ ok true) × (input_sum prev tx.vin <ℤ output_sum tx.vout)
  overflow_passes_verify base known positive spends i0 fits negative = (
    Accepts→verify c g tx prev height base (record {
      known = known;
      positive = positive;
      total = input_sum prev tx.vin;
      spends = spends;
      covered = omega arith;
    }),
    let nonneg = output_sum_nonneg tx.vout positive in
        let exact = sum64_exact (pos 0) tx.vout (omega arith) positive in grind (int64_laws, exact),
  )

  AllSpend-at :
      (n k : ℕ) (is : List TxInput) (acc total : ℤ) {vin : TxInput}
      → AllSpend c g tx prev height n is acc total
      → get_elem? is k ≡ some vin
      → (i : ℕ) × (out : TxOutput) × Spends c g tx prev height i vin out
  AllSpend-at n k [] acc total h e = cc
  AllSpend-at n zero (i ∷ is) acc total {vin} (out, s, h) e =
      let same : i ≡ vin = ground arith in (n, out, rw same at s)
  AllSpend-at n (suc k) (i ∷ is) acc total (out, s, h) e =
      AllSpend-at (suc n) k is (add64 acc out.value) total h e

  -- In a verified transaction that is no coinbase, an input that spends an escrow or ZKCP output is
  -- a refund by the buyer after the timeout, or a claim by the seller with the lock's preimage.
  pub verify_escrow_safe :
      is_coinbase tx ≡ false
      → verify c g tx prev height ≡ ok true
      → (k : ℕ) (vin : TxInput) (out : TxOutput) → get_elem? tx.vin k ≡ some vin
      → index (prev_tx prev vin.txid).vout vin.vout ≡ ok out
      → (out.script_type ≡ script_escrow) ⊎ (out.script_type ≡ script_zkcp)
      → ((vin.is_refund ≡ true) × Refunds c out vin height)
        ⊎ ((vin.is_refund ≡ false) × Claims c out vin)
  verify_escrow_safe base h k vin out e found script = elim ((verify_iff c g tx prev height).0 h) [
    | inl e' ↦ cc
    | inr (_, a) ↦
        let (i, out', s) = AllSpend-at 0 k tx.vin (pos 0) a.total a.spends e in
        let same : out' ≡ out = ground (arith, s.found) in (rw same at s.unlocked) script
  ]
