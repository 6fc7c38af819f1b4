-- ===== src/Core/Transaction/Effects.antt =====
-- What `Sign` leaves as it is, and that it succeeds.
use go_blockchain.Prelude.{
  ℕ, ◌≡◌, refl, ap, sym, ◌∙◌, true, false, List, [], ◌∷◌, map, some, Bytes, ok, index, Bool-cases,
  inl, inr, ok_injective,
}
use go_blockchain.Core.External.{Crypto, SignLaws, PrivateKey, Codec}
use go_blockchain.Core.Output.{TxOutput}
use go_blockchain.Core.Transaction.{
  TxInput, Transaction, PrevTxs, is_coinbase, is_coinbase_inputs, trimmed_input, trimmed_copy,
  set_signature, prev_tx, all_known, expected_pub_key_hash, sign,
}
use go_blockchain.Core.Transaction.Rules.{message}
use go_blockchain.Core.Transaction.Rounds.{
  pair_bytes, sign_inputs-single, drawn, sign_input-drawn, sign_lem, trimmed_signed,
}
use go_blockchain.Core.Transaction.Signing.{is_coinbase_trimmed}

-- Signing changes signatures only: the trimmed inputs, and with them whether the transaction is a
-- coinbase, stay.
pub sign_trimmed :
    (c : Crypto) (g : Codec Transaction) (key : PrivateKey) (laws : SignLaws c key) (prev : PrevTxs)
    (tx tx' : Transaction)
    → is_coinbase tx ≡ false
    → sign c g tx key prev ≡ ok tx'
    → (map trimmed_input tx'.vin ≡ map trimmed_input tx.vin) × (is_coinbase tx' ≡ false)
unfolding is_coinbase
sign_trimmed c g key laws prev tx tx' base h =
    let (known, (signed, a, same)) = sign_lem c g key laws prev tx base h in
    let trimmed = trimmed_signed c g key laws prev tx 0 tx.vin signed a in
    let still : is_coinbase_inputs signed ≡ is_coinbase_inputs tx.vin =
      cc (is_coinbase_trimmed signed, is_coinbase_trimmed tx.vin, trimmed) in
    rw same (trimmed, still ∙ base)

-- One input that spends a known output is signed wherever a draw of random numbers gives a signature.
pub sign_single :
    (c : Crypto) (g : Codec Transaction) (key : PrivateKey) (laws : SignLaws c key) (prev : PrevTxs)
    (id : Bytes) (v : TxInput) (outs : List TxOutput) (out : TxOutput)
    → ((draw : ℕ) (h : Bytes) → (rs : ℕ × ℕ) × (c.ecdsa_sign draw key h ≡ some rs))
    → is_coinbase (record { id = id; vin = v ∷ []; vout = outs }) ≡ false
    → all_known prev (v ∷ []) ≡ true
    → index (prev_tx prev v.txid).vout v.vout ≡ ok out
    → (tx' : Transaction) × (sign c g (record { id = id; vin = v ∷ []; vout = outs }) key prev
        ≡ ok tx')
unfolding sign trimmed_copy
sign_single c g key laws prev id v outs out draws base known found =
    let tx : Transaction = record { id = id; vin = v ∷ []; vout = outs } in
    let (rs, e) = draws 0 (message c g tx 0 (expected_pub_key_hash v.is_refund out)) in
    let round =
      sign_input-drawn c g key laws prev tx 0 v tx out found refl rs.0 rs.1 (unfold drawn in e) in
    (
      set_signature 0 (pair_bytes rs.0 rs.1) tx,
      rw (base, known)
          (sign_inputs-single c g key prev (trimmed_input v) (trimmed_copy tx) tx
            (set_signature 0 (pair_bytes rs.0 rs.1) tx) round),
    )

sign-coinbase :
    (c : Crypto) (g : Codec Transaction) (key : PrivateKey) (prev : PrevTxs) (tx : Transaction)
    → is_coinbase tx ≡ true
    → sign c g tx key prev ≡ ok tx
unfolding sign
sign-coinbase c g key prev tx base = rw base

-- Signing keeps the outputs and the trimmed inputs.
pub sign_keeps :
    (c : Crypto) (g : Codec Transaction) (key : PrivateKey) (laws : SignLaws c key) (prev : PrevTxs)
    (tx tx' : Transaction)
    → sign c g tx key prev ≡ ok tx'
    → (tx'.vout ≡ tx.vout) × (map trimmed_input tx'.vin ≡ map trimmed_input tx.vin)
sign_keeps c g key laws prev tx tx' h = elim (Bool-cases (is_coinbase tx)) [
  | inl base ↦
      let same : tx ≡ tx' = ok_injective (sym (sign-coinbase c g key prev tx base) ∙ h) in
      (ap (λ t. t.vout) (sym same), ap (λ t. map trimmed_input t.vin) (sym same))
  | inr base ↦
      let (known, (signed, a, same)) = sign_lem c g key laws prev tx base h in
      (
        ap (λ t. t.vout) same,
        ap (λ t. map trimmed_input t.vin) same
            ∙ trimmed_signed c g key laws prev tx 0 tx.vin signed a,
      )
]
