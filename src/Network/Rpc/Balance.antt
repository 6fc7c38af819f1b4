-- ===== src/Network/Rpc/Balance.antt =====
-- internal/network/grpc_server.go: what `GetBalance` counts.
use go_blockchain.Prelude.{
  ◌≡◌, refl, ap, ◌∙◌, false, List, [], ◌∷◌, ◌++◌, some, arith, ◌==◌, ℤ, none, pos, add64, Bytes,
  length, Outcome, ok, err, panic, ◌>>=◌, Outcome-cases, inl, inr,
}
use go_blockchain.Core.External.{HashLaws, Codec}
use go_blockchain.Core.Output.{TxOutput}
use go_blockchain.Core.Transaction.{hash_pub_key}
use go_blockchain.Core.Base58.{base58_decode, b58_value, count_leading, min_bytes}
use go_blockchain.Core.Wallet.{Wallet, get_address, key_hash_of}
use go_blockchain.Core.Wallet.Address.{key_hash_of-get_address, validate_address-get_address}
use go_blockchain.Core.Utxo.{
  is_spendable, find_utxo, locked_outputs, locked_in_entries, deserialize_outputs,
}
use go_blockchain.Core.Utxo.Funds.{spendable_value, total_spendable}
use go_blockchain.Network.{Env, Server}
use go_blockchain.Network.Rpc.{address_hash, sum_balance, get_balance}

sum_balance-append :
    (xs ys : List TxOutput) (acc : ℤ)
    → sum_balance (xs ++ ys) acc ≡ sum_balance ys (sum_balance xs acc)
unfolding sum_balance
sum_balance-append [] ys acc = refl
sum_balance-append (x ∷ xs) ys acc = sum_balance-append xs ys _

-- Of the outputs that are locked with a key, the balance counts what can be spent.
sum_balance-locked_outputs :
    (pkh : Bytes) (outs : List TxOutput) (acc : ℤ)
    → sum_balance (locked_outputs pkh outs) acc ≡ spendable_value pkh outs acc
unfolding sum_balance locked_outputs spendable_value is_spendable
sum_balance-locked_outputs pkh [] acc = refl
sum_balance-locked_outputs pkh (out ∷ outs) acc = ground (
  arith,
  sum_balance-locked_outputs pkh outs acc,
  sum_balance-locked_outputs pkh outs (add64 acc out.value),
)

sum_behind :
    (first : List TxOutput) (acc : ℤ) (rest : Outcome (List TxOutput))
    → (rest >>= (λ r. ok (first ++ r)) >>= λ outs. ok (sum_balance outs acc))
      ≡ (rest >>= λ r. ok (sum_balance r (sum_balance first acc)))
sum_behind first acc (ok r) = ap ok (sum_balance-append first r acc)
sum_behind first acc (err e) = refl
sum_behind first acc panic = refl

module _ (og : Codec (List TxOutput)) (pkh : Bytes) where
  sum_in_entries :
      (entries : List (Bytes × Bytes)) (acc : ℤ)
      → (locked_in_entries og pkh entries >>= λ outs. ok (sum_balance outs acc))
        ≡ total_spendable og pkh entries acc
  unfolding locked_in_entries total_spendable
  sum_in_entries [] acc = unfold sum_balance in refl
  sum_in_entries ((k, v) ∷ entries) acc = elim (Outcome-cases (deserialize_outputs og v)) [
    | inl (outs, e) ↦ rw e (
        sum_behind (locked_outputs pkh outs) acc (locked_in_entries og pkh entries)
        ∙ rw (sum_balance-locked_outputs pkh outs acc)
            (sum_in_entries entries (spendable_value pkh outs acc)))
    | inr (inl (why, e)) ↦ rw e refl
    | inr (inr e) ↦ rw e refl
  ]

-- Where a decoded address has more than four bytes, the service takes the key hash as `Lock` does.
address_hash-key_hash_of :
    (decoded hash : Bytes) → key_hash_of decoded ≡ some hash → address_hash decoded ≡ hash
unfolding address_hash key_hash_of
address_hash-key_hash_of decoded hash h = ground arith

filled_address :
    (address hash : Bytes)
    → key_hash_of (base58_decode address) ≡ some hash
    → (length address == 0) ≡ false
unfolding base58_decode key_hash_of b58_value count_leading min_bytes
filled_address [] hash h = absurd (nothing h)
  where
    nothing : none ≡ some hash → ⊥
    nothing e = cc
filled_address (x ∷ address) hash h = ground arith

module _ {ℓ} {S : Type ℓ} (env : Env S) (laws : HashLaws env.c) where
  -- For the address of a wallet, if the UTXO set can be read, `GetBalance` answers
  -- with the int64 sum of all outputs in the set that `FindSpendableOutputs` may take for a payment
  -- by that wallet, and fails where that sum cannot be formed. SHA-256 gives 32 bytes and
  -- RIPEMD-160 bytes.
  pub get_balance-get_address :
      (w : Wallet) (s : Server S) (entries : List (Bytes × Bytes))
      → env.st.iterate_utxo s.bc.db ≡ ok entries
      → get_balance env (get_address env.c w) s
        ≡ total_spendable env.og (hash_pub_key env.c w.public_key) entries (pos 0)
  unfolding get_balance find_utxo
  get_balance-get_address w s entries read =
      let valid = (validate_address-get_address env.c laws w (pos 1) (omega arith)).0 in
      let hash = address_hash-key_hash_of _ _ (key_hash_of-get_address env.c laws w) in
      let filled = filled_address _ _ (key_hash_of-get_address env.c laws w) in
      rw (filled, valid, get_balance, hash, read, find_utxo)
        (sum_in_entries env.og (hash_pub_key env.c w.public_key) entries (pos 0))
