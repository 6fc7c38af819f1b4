-- ===== src/Core/Transaction/Rounds.antt =====
-- The loop of `Sign`: what it makes of the inputs.
use go_blockchain.Prelude.{
  ℕ, suc, ◌≡◌, refl, ap, sym, ◌∙◌, false, List, [], ◌∷◌, ◌++◌, append_assoc, map, Option, none,
  some, arith, Bytes, length, length-append, get_elem?, All, ok, err, ◌>>=◌, >>=-eq-ok, index,
  or_err, Option-cases, inl, inr, sign_failed, ok_injective,
}
use go_blockchain.Core.External.{Crypto, SignLaws, PrivateKey, Codec}
use go_blockchain.Core.Bignum.{low_bytes, fill_bytes, fill_bytes_ok}
use go_blockchain.Core.Output.{TxOutput}
use go_blockchain.Core.Transaction.{
  TxInput, Transaction, PrevTxs, is_coinbase, trimmed_input, trimmed_copy, update, with_signature,
  set_signature, prev_tx, expected_pub_key_hash, sign_input, sign_inputs, sign,
}
use go_blockchain.Core.Transaction.Rules.{message, scratch_copy, scratch_restored}
use go_blockchain.Core.Transaction.Accepts.{IsKnown, all_known_iff}

-- The two halves of a key or a signature.
abbrev pub pair_bytes : ℕ → ℕ → Bytes
pair_bytes a b = low_bytes 32 a ++ low_bytes 32 b

-- The public key of a wallet, as `newKeyPair` writes it.
abbrev pub public_key : PrivateKey → Bytes
public_key key = pair_bytes key.x key.y

get_elem?-length :
    (before : List TxInput) (v : TxInput) (tail : List TxInput)
    → get_elem? (before ++ v ∷ tail) (length before) ≡ some v
get_elem?-length [] v tail = refl
get_elem?-length (b ∷ before) v tail = get_elem?-length before v tail

update-length :
    (before : List TxInput) (f : TxInput → TxInput) (v : TxInput) (tail : List TxInput)
    → update (length before) f (before ++ v ∷ tail) ≡ before ++ f v ∷ tail
update-length [] f v tail = refl
update-length (b ∷ before) f v tail = ap (λ l. b ∷ l) (update-length before f v tail)

pub sign_inputs-single :
    (c : Crypto) (g : Codec Transaction) (key : PrivateKey) (prev : PrevTxs) (v : TxInput)
    (copy tx tx' : Transaction)
    → sign_input c g key prev 0 v copy tx ≡ ok (copy, tx')
    → sign_inputs c g key prev 0 (v ∷ []) copy tx ≡ ok tx'
unfolding sign_inputs
sign_inputs-single c g key prev v copy tx tx' h = rw h

module _ (c : Crypto) (g : Codec Transaction) (key : PrivateKey) (laws : SignLaws c key)
    (prev : PrevTxs) (tx0 : Transaction) where
  -- The i-th input `w` is `v` with a signature of its message by `key`.
  pub record SignedAs (i : ℕ) (v w : TxInput) : Type 0 where
    pub out : TxOutput
    pub found : index (prev_tx prev v.txid).vout v.vout ≡ ok out
    pub r : ℕ
    pub s : ℕ
    pub made :
        c.ecdsa_sign i key (message c g tx0 i (expected_pub_key_hash v.is_refund out)) ≡ some (r, s)
    pub result : w ≡ with_signature (pair_bytes r s) v

  abbrev pub AllSigned : ℕ → List TxInput → List TxInput → Type 0
  AllSigned i [] [] = Unit
  AllSigned i (v ∷ vs) (w ∷ ws) = SignedAs i v w × AllSigned (suc i) vs ws
  AllSigned i _ _ = ⊥

  sign_input→found :
      (i : ℕ) (v : TxInput) (tx : Transaction) {done : Transaction × Transaction}
      → sign_input c g key prev i (trimmed_input v) (trimmed_copy tx0) tx ≡ ok done
      → (out : TxOutput) × (index (prev_tx prev v.txid).vout v.vout ≡ ok out)
  unfolding sign_input trimmed_input
  sign_input→found i v tx h =
      let (out, found, _) = >>=-eq-ok (index (prev_tx prev v.txid).vout v.vout) _ h in (out, found)

  module _ (i : ℕ) (v : TxInput) (tx : Transaction) (out : TxOutput)
      (found : index (prev_tx prev v.txid).vout v.vout ≡ ok out)
      (own : get_elem? tx.vin i ≡ some v) where
    unfoldable pub drawn : Option (ℕ × ℕ)
    drawn = c.ecdsa_sign i key (message c g tx0 i (expected_pub_key_hash v.is_refund out))

    sign_input-found : sign_input c g key prev i (trimmed_input v) (trimmed_copy tx0) tx ≡ (
        or_err drawn sign_failed >>= λ rs. fill_bytes 32 rs.0 >>= λ r.
        fill_bytes 32 rs.1 >>= λ s. ok (trimmed_copy tx0, set_signature i (r ++ s) tx))
    unfolding sign_input trimmed_input message drawn
    sign_input-found =
        let pkh = expected_pub_key_hash v.is_refund out in
        rw (found, own, scratch_copy tx0 i pkh, scratch_restored tx0 i pkh)

    pub sign_input-drawn :
        (r s : ℕ)
        → drawn ≡ some (r, s)
        → sign_input c g key prev i (trimmed_input v) (trimmed_copy tx0) tx
          ≡ ok (trimmed_copy tx0, set_signature i (pair_bytes r s) tx)
    sign_input-drawn r s e =
        let (hr, hs) =
          laws.sign_range i (message c g tx0 i (expected_pub_key_hash v.is_refund out)) r s
            (unfold drawn in e) in
        rw (sign_input-found, e, fill_bytes_ok 32 r hr, fill_bytes_ok 32 s hs)

    sign_input-failed :
        drawn ≡ none
        → sign_input c g key prev i (trimmed_input v) (trimmed_copy tx0) tx ≡ err sign_failed
    sign_input-failed e = rw (sign_input-found, e)

  sign_input_lem :
      (i : ℕ) (v : TxInput) (tx : Transaction) {done : Transaction × Transaction}
      → get_elem? tx.vin i ≡ some v
      → sign_input c g key prev i (trimmed_input v) (trimmed_copy tx0) tx ≡ ok done
      → (w : TxInput) × SignedAs i v w × (done ≡ (trimmed_copy tx0, set_signature i w.signature tx))
  sign_input_lem i v tx own h =
      let (out, found) = sign_input→found i v tx h in
      elim (Option-cases (drawn i v tx out found own)) [
        | inl e ↦ cc (sign_input-failed i v tx out found own e)
        | inr (rs, e) ↦ (
          with_signature (pair_bytes rs.0 rs.1) v,
          record {
            out = out;
            found = found;
            r = rs.0;
            s = rs.1;
            made = unfold drawn in e;
            result = refl;
          },
          ok_injective (sym h ∙ sign_input-drawn i v tx out found own rs.0 rs.1 e),
        )
      ]

  SignedAs-with_signature :
      (i : ℕ) (v w : TxInput) → SignedAs i v w → with_signature w.signature v ≡ w
  SignedAs-with_signature i v w a = let e = a.result in rw e

  -- The state of the loop: the first `n` inputs are done, the others are as they were.
  sign_inputs_lem :
      (tail before : List TxInput) (n : ℕ) (tx : Transaction) {tx' : Transaction}
      → n ≡ length before
      → tx.vin ≡ before ++ tail
      → sign_inputs c g key prev n (map trimmed_input tail) (trimmed_copy tx0) tx ≡ ok tx'
      → (signed : List TxInput) × AllSigned n tail signed
        × (tx' ≡ record tx { vin = before ++ signed })
  unfolding sign_inputs set_signature
  sign_inputs_lem [] before n tx len own h =
      ([], tt, sym (ok_injective h) ∙ ap (λ l. record tx { vin = l }) own)
  sign_inputs_lem (v ∷ tail) before n tx {tx'} len own h =
      let (done, e, f) =
        >>=-eq-ok (sign_input c g key prev n (trimmed_input v) (trimmed_copy tx0) tx) _ h in
      let here : get_elem? tx.vin n ≡ some v = rw (own, len) (get_elem?-length before v tail) in
      let (w, a, d) = sign_input_lem n v tx here e in
      let tx1 = set_signature n w.signature tx in
      let f' : sign_inputs c g key prev (suc n) (map trimmed_input tail) (trimmed_copy tx0) tx1
          ≡ ok tx' =
        rw d at f in
      let own1 : tx1.vin ≡ (before ++ w ∷ []) ++ tail =
        rw
          (
            own,
            len,
            update-length before (with_signature w.signature) v tail,
            SignedAs-with_signature n v w a,
            append_assoc before (w ∷ []) tail,
          )
          refl in
      let len1 : suc n ≡ length (before ++ w ∷ []) =
        omega (arith, length-append before (w ∷ []), len) in
      let (signed, rest, same) = sign_inputs_lem tail (before ++ w ∷ []) (suc n) tx1 len1 own1 f' in
      (w ∷ signed, (a, rest), same ∙ rw (append_assoc before (w ∷ []) signed))

  -- A signed transaction is the original with a signature of each input's message.
  pub sign_lem :
      {tx' : Transaction}
      → is_coinbase tx0 ≡ false
      → sign c g tx0 key prev ≡ ok tx'
      → All (IsKnown prev) tx0.vin
        × ((signed : List TxInput) × AllSigned 0 tx0.vin signed
            × (tx' ≡ record tx0 { vin = signed }))
  unfolding sign trimmed_copy
  sign_lem base h = (
    (all_known_iff prev tx0.vin).0 (ground arith),
    sign_inputs_lem tx0.vin [] 0 tx0 refl refl (unfold trimmed_copy in ground arith),
  )

  pub trimmed_signed :
      (n : ℕ) (vs ws : List TxInput)
      → AllSigned n vs ws
      → map trimmed_input ws ≡ map trimmed_input vs
  unfolding trimmed_input
  trimmed_signed n [] [] h = refl
  trimmed_signed n [] (w ∷ ws) h = absurd h
  trimmed_signed n (v ∷ vs) [] h = absurd h
  trimmed_signed n (v ∷ vs) (w ∷ ws) (a, h) =
      let e = a.result in rw (e, trimmed_signed (suc n) vs ws h)

  -- The messages do not change by signing.
  pub message_signed :
      (ws : List TxInput) (i : ℕ) (pkh : Bytes)
      → map trimmed_input ws ≡ map trimmed_input tx0.vin
      → message c g (record tx0 { vin = ws }) i pkh ≡ message c g tx0 i pkh
  unfolding message
  message_signed ws i pkh h = rw h
