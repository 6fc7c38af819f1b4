-- ===== src/Core/Transaction/Accepts.antt =====
-- `verify` as a whole: the exact conditions of acceptance, and what follows for escrows and values.
use go_blockchain.Prelude.{
  ◌≡◌, ◌≢◌, refl, ◌↔◌, ◌⊎◌, inl, inr, Bool, true, false, not, List, [], ◌∷◌, Option, none, some,
  arith, ℤ, pos, ◌≤ℤ◌, ◌<ℤ◌, add64, ltb_ℤ, length, All, Outcome, ok, >>=-eq-ok, Bool-cases,
  Option-cases,
}
use go_blockchain.Core.External.{Crypto, Codec}
use go_blockchain.Core.Output.{TxOutput}
use go_blockchain.Core.Transaction.{
  TxInput, Transaction, PrevTxs, is_coinbase, trimmed_copy, prev_tx, all_known, sum_outputs,
  verify_inputs, verify_sums, verify,
}
use go_blockchain.Core.Transaction.Rules.{AllSpend, verify_inputs→AllSpend, AllSpend→verify_inputs}

-- The int64 sum of the outputs, from an initial value.
unfoldable pub sum64 : ℤ → List TxOutput → ℤ
sum64 acc [] = acc
sum64 acc (o ∷ os) = sum64 (add64 acc o.value) os

abbrev pub IsPositive : TxOutput → Type 0
IsPositive o = pos 0 <ℤ o.value

abbrev pub IsKnown : PrevTxs → TxInput → Type 0
IsKnown prev i = length (prev_tx prev i.txid).id ≢ 0

pub all_known_iff :
    (prev : PrevTxs) (is : List TxInput) → (all_known prev is ≡ true) ↔ All (IsKnown prev) is
unfolding all_known
all_known_iff prev [] = ((λ _. tt), λ _. refl)
all_known_iff prev (i ∷ is) =
    let ih = all_known_iff prev is in
    ((λ h. (ground arith, ih.0 (ground arith))), λ h. let r = ih.1 h.1 in ground arith)

sum_outputs→sum64 :
    (os : List TxOutput) (acc : ℤ) {t : ℤ}
    → sum_outputs os acc ≡ some t
    → All IsPositive os × (t ≡ sum64 acc os)
unfolding sum_outputs sum64
sum_outputs→sum64 [] acc h = (tt, ground arith)
sum_outputs→sum64 (o ∷ os) acc {t} h =
    let (p, q) = sum_outputs→sum64 os (add64 acc o.value) {t = t} (ground arith) in
    ((ground arith, p), q)

sum_outputs_positive :
    (os : List TxOutput) (acc : ℤ) → All IsPositive os → sum_outputs os acc ≡ some (sum64 acc os)
unfolding sum_outputs sum64
sum_outputs_positive [] acc h = refl
sum_outputs_positive (o ∷ os) acc (p, h) =
    ground (arith, sum_outputs_positive os (add64 acc o.value) h)

module _ (c : Crypto) (g : Codec Transaction) (tx : Transaction) (prev : PrevTxs) (height : ℤ) where
  -- The conditions on a transaction that is no coinbase: every input names a known transaction,
  -- outputs are positive, every input spends an output that exists, and the values spent have at
  -- least the sum of the outputs, both sums being int64.
  pub record Accepts : Type 0 where
    pub known : All (IsKnown prev) tx.vin
    pub positive : All IsPositive tx.vout
    pub total : ℤ
    pub spends : AllSpend c g tx prev height 0 tx.vin (pos 0) total
    pub covered : sum64 (pos 0) tx.vout ≤ℤ total

  verify_sums→ :
      (output_sum : ℤ)
      → verify_sums c g tx prev height output_sum ≡ ok true
      → (total : ℤ) × (verify_inputs c g prev height 0 tx.vin (trimmed_copy tx) (pos 0)
          ≡ ok (some total))
        × (output_sum ≤ℤ total)
  unfolding verify_sums
  verify_sums→ output_sum h =
      let (o, e, f) =
        >>=-eq-ok (verify_inputs c g prev height 0 tx.vin (trimmed_copy tx) (pos 0)) _ h in
      go o e f
    where
      go :
          (o : Option ℤ)
          → verify_inputs c g prev height 0 tx.vin (trimmed_copy tx) (pos 0) ≡ ok o
          → (let x : Outcome Bool = elim o [
            | none ↦ ok false
            | some s ↦ ok (not (ltb_ℤ s output_sum))
          ] in
              x ≡ ok true)
          → (total : ℤ) × (verify_inputs c g prev height 0 tx.vin (trimmed_copy tx) (pos 0)
              ≡ ok (some total))
            × (output_sum ≤ℤ total)
      go none e f = cc
      go (some s) e f = (s, e, ground arith)

  verify→Accepts : is_coinbase tx ≡ false → verify c g tx prev height ≡ ok true → Accepts
  unfolding verify
  verify→Accepts base h = elim (Option-cases (sum_outputs tx.vout (pos 0))) [
    | inl e ↦ ground arith
    | inr (s, e) ↦
        let (total, loop, covered) = verify_sums→ s (ground arith) in
        let (positive, same) = sum_outputs→sum64 tx.vout (pos 0) e in
        record {
          known = (all_known_iff prev tx.vin).0 (ground arith);
          positive = positive;
          total = total;
          spends = verify_inputs→AllSpend c g tx prev height 0 tx.vin (pos 0) loop;
          covered = rw (← same) covered;
        }
  ]

  pub Accepts→verify : is_coinbase tx ≡ false → Accepts → verify c g tx prev height ≡ ok true
  unfolding verify verify_sums
  Accepts→verify base a =
      let covered = a.covered in
      rw
        (
          base,
          (all_known_iff prev tx.vin).1 a.known,
          sum_outputs_positive tx.vout (pos 0) a.positive,
          AllSpend→verify_inputs c g tx prev height 0 tx.vin (pos 0) a.total a.spends,
        )
        (ground arith)

  -- `Verify` returns true exactly for a coinbase and for a transaction that meets the conditions.
  pub verify_iff :
      (verify c g tx prev height ≡ ok true)
      ↔ ((is_coinbase tx ≡ true) ⊎ ((is_coinbase tx ≡ false) × Accepts))
  verify_iff = (
    (λ h. elim (Bool-cases (is_coinbase tx)) [
      | inl e ↦ inl e
      | inr e ↦ inr (e, verify→Accepts e h)
    ]),
    elim [ inl e ↦ unfold verify in rw e | inr (e, a) ↦ Accepts→verify e a ],
  )
