-- ===== src/Core/Transaction/Signing.antt =====
-- `sign` makes transactions that `verify` accepts.
use go_blockchain.Prelude.{
  ℕ, suc, ◌<◌, ◌^◌, ◌≡◌, refl, ◌∙◌, true, false, List, [], ◌∷◌, map, arith, ℤ, pos, ◌≤ℤ◌, add64,
  Bytes, All, ok, index, inl, inr,
}
use go_blockchain.Core.External.{Crypto, SignLaws, PrivateKey, Codec}
use go_blockchain.Core.Bignum.{length-low_bytes_append, set_bytes-halves}
use go_blockchain.Core.Output.{TxOutput, script_p2pkh}
use go_blockchain.Core.Transaction.{
  TxInput, Transaction, PrevTxs, is_coinbase, is_coinbase_inputs, trimmed_input, with_signature,
  prev_tx, all_known, expected_pub_key_hash, sign, verify,
}
use go_blockchain.Core.Transaction.Rules.{message, Unlocks, Spends, AllSpend}
use go_blockchain.Core.Transaction.Values.{input_value}
use go_blockchain.Core.Transaction.Accepts.{IsPositive, Accepts→verify, all_known_iff, sum64}
pub use go_blockchain.Core.Transaction.Rounds.{pair_bytes, public_key}
use go_blockchain.Core.Transaction.Rounds.{
  SignedAs, AllSigned, sign_lem, trimmed_signed, message_signed,
}

pub is_coinbase_trimmed :
    (is : List TxInput) → is_coinbase_inputs (map trimmed_input is) ≡ is_coinbase_inputs is
unfolding is_coinbase_inputs trimmed_input
is_coinbase_trimmed [] = refl
is_coinbase_trimmed (i ∷ []) = refl
is_coinbase_trimmed (i ∷ j ∷ is) = refl

all_known_trimmed :
    (prev : PrevTxs) (is : List TxInput) → all_known prev (map trimmed_input is) ≡ all_known prev is
unfolding all_known trimmed_input
all_known_trimmed prev [] = refl
all_known_trimmed prev (i ∷ is) = rw (all_known_trimmed prev is)

-- The int64 sum of the values that inputs name, from an initial value.
unfoldable pub spent64 : PrevTxs → ℤ → List TxInput → ℤ
spent64 prev acc [] = acc
spent64 prev acc (i ∷ is) = spent64 prev (add64 acc (input_value prev i)) is

-- A script does not depend on the signature.
Unlocks-with_signature :
    (c : Crypto) (out : TxOutput) (v : TxInput) (height : ℤ) (s : Bytes)
    → Unlocks c out v height
    → Unlocks c out (with_signature s v) height
Unlocks-with_signature c out v height s h script = elim (h script) [
  | inl (r, p) ↦ inl (r, record { timed_out = p.timed_out; by_buyer = p.by_buyer })
  | inr (r, p) ↦ inr (r, record { preimage = p.preimage; by_seller = p.by_seller })
]

-- The input meets the script of the output that it names.
abbrev pub MeetsScript : Crypto → PrevTxs → ℤ → TxInput → Type 0
MeetsScript c prev height v =
    (out : TxOutput) → index (prev_tx prev v.txid).vout v.vout ≡ ok out → Unlocks c out v height

-- The output that the input names is pay-to-pubkey-hash.
abbrev pub NamesP2pkh : PrevTxs → TxInput → Type 0
NamesP2pkh prev v =
    (out : TxOutput)
    → index (prev_tx prev v.txid).vout v.vout ≡ ok out
    → out.script_type ≡ script_p2pkh

abbrev pub ShowsKey : PrivateKey → TxInput → Type 0
ShowsKey key v = v.pub_key ≡ public_key key

module _ (c : Crypto) (g : Codec Transaction) (key : PrivateKey) (laws : SignLaws c key)
    (prev : PrevTxs) (tx : Transaction) (height : ℤ) (x_fits : key.x < 2 ^ 256)
    (y_fits : key.y < 2 ^ 256) where
  signed-Spends :
      (i : ℕ) (v w : TxInput) (signed : List TxInput)
      → (a : SignedAs c g key laws prev tx i v w)
      → map trimmed_input signed ≡ map trimmed_input tx.vin
      → ShowsKey key v
      → MeetsScript c prev height v
      → Spends c g (record tx { vin = signed }) prev height i w a.out
  signed-Spends i v w signed a trimmed shown meets =
      let h = message c g tx i (expected_pub_key_hash v.is_refund a.out) in
      let (rf, sf) = laws.sign_range i h a.r a.s a.made in
      let (r_read, s_read) = set_bytes-halves a.r a.s rf sf in
      let (x_read, y_read) = set_bytes-halves key.x key.y x_fits y_fits in
      let e = a.result in
      rw e (record {
        found = a.found;
        signed =
            rw
              (message_signed c g key laws prev tx signed i
                (expected_pub_key_hash v.is_refund a.out) trimmed)
              (record {
                signature_length = length-low_bytes_append a.r a.s;
                key_length = rw shown (length-low_bytes_append key.x key.y);
                verified =
                    rw (shown, x_read, y_read, r_read, s_read)
                      (laws.verify_sign i h a.r a.s a.made);
              });
        unlocked =
            Unlocks-with_signature c a.out v height (pair_bytes a.r a.s) (meets a.out a.found);
      })

  signed-AllSpend :
      (n : ℕ) (vs ws : List TxInput) (acc : ℤ) (signed : List TxInput)
      → AllSigned c g key laws prev tx n vs ws
      → map trimmed_input signed ≡ map trimmed_input tx.vin
      → All (ShowsKey key) vs
      → All (MeetsScript c prev height) vs
      → AllSpend c g (record tx { vin = signed }) prev height n ws acc (spent64 prev acc vs)
  unfolding spent64
  signed-AllSpend n [] [] acc signed a t k m = refl
  signed-AllSpend n [] (w ∷ ws) acc signed a t k m = absurd a
  signed-AllSpend n (v ∷ vs) [] acc signed a t k m = absurd a
  signed-AllSpend n (v ∷ vs) (w ∷ ws) acc signed (a, as') t (k, ks) (m, ms) =
      let value : input_value prev v ≡ a.out.value = let e = a.found in rw e in
      (
        a.out,
        signed-Spends n v w signed a t k m,
        rw value (signed-AllSpend (suc n) vs ws (add64 acc a.out.value) signed as' t ks ms),
      )

  -- A transaction that `Sign` returns passes `Verify`, if it is no coinbase, its inputs show the
  -- signing key and meet the scripts of the outputs that they name, its outputs are positive, and the
  -- values that it names have at least the sum of its outputs (both int64). The hash of the key need
  -- not be the one that an output is locked with.
  pub verify-sign :
      {tx' : Transaction}
      → is_coinbase tx ≡ false
      → sign c g tx key prev ≡ ok tx'
      → All (ShowsKey key) tx.vin
      → All (MeetsScript c prev height) tx.vin
      → All IsPositive tx.vout
      → sum64 (pos 0) tx.vout ≤ℤ spent64 prev (pos 0) tx.vin
      → verify c g tx' prev height ≡ ok true
  verify-sign base h shown meets positive covered =
      let (known, (signed, a, same)) = sign_lem c g key laws prev tx base h in
      let trimmed = trimmed_signed c g key laws prev tx 0 tx.vin signed a in
      let still : is_coinbase_inputs signed ≡ is_coinbase_inputs tx.vin =
        cc (is_coinbase_trimmed signed, is_coinbase_trimmed tx.vin, trimmed) in
      let still_known : all_known prev signed ≡ all_known prev tx.vin =
        cc (all_known_trimmed prev signed, all_known_trimmed prev tx.vin, trimmed) in
      rw same (
        Accepts→verify c g (record tx { vin = signed }) prev height
          (unfold is_coinbase in still ∙ base)
          (record {
            known =
                (all_known_iff prev signed).0 (still_known ∙ (all_known_iff prev tx.vin).1 known);
            positive = positive;
            total = spent64 prev (pos 0) tx.vin;
            spends = signed-AllSpend 0 tx.vin signed (pos 0) signed a trimmed shown meets;
            covered = covered;
          }))

  -- What `Sign` returns passes `Verify` whatever key made it, if ECDSA accepts that key's signatures,
  -- where all outputs that the inputs name are pay-to-pubkey-hash, the inputs show that key, the outputs
  -- are positive and the int64 sums fit: that the key has the hash that the outputs are locked with is
  -- not among the conditions.
  pub any_key_spends_p2pkh :
      {tx' : Transaction}
      → is_coinbase tx ≡ false
      → sign c g tx key prev ≡ ok tx'
      → All (ShowsKey key) tx.vin
      → All (NamesP2pkh prev) tx.vin
      → All IsPositive tx.vout
      → sum64 (pos 0) tx.vout ≤ℤ spent64 prev (pos 0) tx.vin
      → verify c g tx' prev height ≡ ok true
  any_key_spends_p2pkh base h shown p2pkh positive covered =
      verify-sign base h shown (meet_p2pkh tx.vin p2pkh) positive covered
    where
      meet_p2pkh :
          (vs : List TxInput) → All (NamesP2pkh prev) vs → All (MeetsScript c prev height) vs
      meet_p2pkh [] h = tt
      meet_p2pkh (v ∷ vs) (p, h) =
          ((λ out e script. let zero_type = p out e in absurd (grind arith)), meet_p2pkh vs h)
