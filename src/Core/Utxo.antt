-- ===== src/Core/Utxo.antt =====
-- internal/core/utxo_set.go, and `FindUTXO` of blockchain.go. Maps are keyed by the ids, which the
-- source spells in hex; the order of a Go map's entries is not fixed, and is that of their first
-- insertion here.
pub mod Unspent
pub mod Funds
use go_blockchain.Prelude.{
  ℕ, zero, suc, ◌+◌, Bool, true, false, ◌&&◌, ◌||◌, not, List, [], ◌∷◌, ◌++◌, Option, none, some,
  if◌then◌else◌, ◌==◌, ℤ, pos, ◌==ℤ◌, add64, ltb_ℤ, leb_ℤ, Bytes, Assoc, lookup, insert, length,
  Outcome, ok, err, panic, ◌>>=◌, or_panic, Error, not_found, Running, ◌>>>◌,
}
use go_blockchain.Storage.{Storage}
use go_blockchain.Core.External.{Codec}
use go_blockchain.Core.Output.{TxOutput, script_escrow, is_locked_with_key, is_buyer}
use go_blockchain.Core.Transaction.{Transaction, TxInput, is_coinbase}
use go_blockchain.Core.Block.{Block}
use go_blockchain.Core.Chain.{Blockchain, blocks}

-- `m[k]`, nil for a missing key, and `m[k] = append(m[k], v)`.
unfoldable pub or_empty {ℓ} : {A : Type ℓ} → Option (List A) → List A
or_empty none = []
or_empty (some xs) = xs

unfoldable pub entries_of {ℓ} : {A : Type ℓ} → Bytes → Assoc (List A) → List A
entries_of k m = or_empty (lookup k m)

unfoldable pub append_to {ℓ} : {A : Type ℓ} → Bytes → A → Assoc (List A) → Assoc (List A)
append_to k v m = insert k (entries_of k m ++ v ∷ []) m

-- The state of the loops of `FindUTXO`: the outputs and the indices that were spent.
pub record Scan : Type 0 where
  pub utxo : Assoc (List TxOutput)
  pub spent : Assoc (List ℤ)

unfoldable pub has_index : ℤ → List ℤ → Bool
has_index i [] = false
has_index i (j ∷ js) = if j ==ℤ i then true else has_index i js

-- The loop over the outputs, from the index `i` on.
unfoldable pub scan_output : Bytes → ℕ → TxOutput → Scan → Scan
scan_output id i out s =
    if has_index (pos i) (entries_of id s.spent)
    then s
    else record s { utxo = append_to id out s.utxo }

unfoldable pub scan_outputs : Bytes → ℕ → List TxOutput → Scan → Scan
scan_outputs id i [] s = s
scan_outputs id i (out ∷ outs) s = scan_outputs id (i + 1) outs (scan_output id i out s)

unfoldable pub scan_inputs : List TxInput → Scan → Scan
scan_inputs [] s = s
scan_inputs (vin ∷ rest) s =
    scan_inputs rest (record s { spent = append_to vin.txid vin.vout s.spent })

unfoldable pub scan_tx : Transaction → Scan → Scan
scan_tx tx s =
    let s' = scan_outputs tx.id 0 tx.vout s in if is_coinbase tx then s' else scan_inputs tx.vin s'

unfoldable pub scan_txs : List Transaction → Scan → Scan
scan_txs [] s = s
scan_txs (tx ∷ txs) s = scan_txs txs (scan_tx tx s)

unfoldable pub scan_blocks : List Block → Scan → Scan
scan_blocks [] s = s
scan_blocks (b ∷ bs) s = scan_blocks bs (scan_txs b.transactions s)

abbrev pub no_scan : Scan
no_scan = record { utxo = []; spent = [] }

-- What `FindSpendableOutputs` has collected.
pub record Spendable : Type 0 where
  pub accumulated : ℤ
  pub outputs : Assoc (List ℤ)

-- The test of an output, and the loop over a transaction's outputs.
unfoldable pub is_spendable : Bytes → TxOutput → Bool
is_spendable pkh out = not (out.script_type == script_escrow) && is_locked_with_key out pkh

unfoldable pub collect_output : Bytes → ℤ → Bytes → ℕ → TxOutput → Spendable → Spendable
collect_output pkh amount id i out found =
    if is_spendable pkh out && ltb_ℤ found.accumulated amount
    then record {
      accumulated = add64 found.accumulated out.value;
      outputs = append_to id (pos i) found.outputs;
    }
    else found

unfoldable pub collect_outputs : Bytes → ℤ → Bytes → ℕ → List TxOutput → Spendable → Spendable
collect_outputs pkh amount id i [] found = found
collect_outputs pkh amount id i (out ∷ outs) found =
    collect_outputs pkh amount id (i + 1) outs (collect_output pkh amount id i out found)

-- The outputs of the callback of `FindUTXO`, and the items of that of `FindUTXOItems`.
unfoldable pub locked_outputs : Bytes → List TxOutput → List TxOutput
locked_outputs pkh [] = []
locked_outputs pkh (out ∷ outs) =
    let rest = locked_outputs pkh outs in if is_locked_with_key out pkh then out ∷ rest else rest

pub record UtxoItem : Type 0 where
  pub tx_id : Bytes
  pub vout : ℕ
  pub output : TxOutput

unfoldable pub items_of : Bytes → Bytes → ℕ → List TxOutput → List UtxoItem
items_of pkh id i [] = []
items_of pkh id i (out ∷ outs) =
    let rest = items_of pkh id (i + 1) outs in
    if is_locked_with_key out pkh || (out.script_type == script_escrow && is_buyer out pkh)
    then record { tx_id = id; vout = i; output = out } ∷ rest
    else rest

-- The outputs that `Update` keeps.
unfoldable pub without_index : ℤ → ℕ → List TxOutput → List TxOutput
without_index v i [] = []
without_index v i (out ∷ outs) =
    let rest = without_index v (i + 1) outs in if not (pos i ==ℤ v) then out ∷ rest else rest

abbrev pub is_not_found : Error → Bool
is_not_found not_found = true
is_not_found _ = false

module _ {ℓ} {S : Type ℓ} (st : Storage S) (bg : Codec Block) where
  -- `Blockchain.FindUTXO`
  unfoldable pub find_chain_utxo : ℕ → Blockchain S → Option (Assoc (List TxOutput))
  find_chain_utxo fuel bc = elim (blocks st bg fuel bc) [
    | none ↦ none
    | some bs ↦ some (scan_blocks bs no_scan).utxo
  ]

module _ (og : Codec (List TxOutput)) where
  -- `TXOutputs.Serialize` and `DeserializeOutputs` panic where gob fails.
  unfoldable pub serialize_outputs : List TxOutput → Outcome Bytes
  serialize_outputs outs = or_panic (og.encode outs)

  unfoldable pub deserialize_outputs : Bytes → Outcome (List TxOutput)
  deserialize_outputs d = or_panic (og.decode d)

  -- The loop over the entries, which ends where enough is found.
  unfoldable pub collect_entries : Bytes → ℤ → List (Bytes × Bytes) → Spendable → Outcome Spendable
  collect_entries pkh amount [] found = ok found
  collect_entries pkh amount ((k, v) ∷ entries) found = deserialize_outputs v >>= λ outs.
      let found' = collect_outputs pkh amount k 0 outs found in
      if leb_ℤ amount found'.accumulated
      then ok found'
      else collect_entries pkh amount entries found'

  unfoldable pub locked_in_entries : Bytes → List (Bytes × Bytes) → Outcome (List TxOutput)
  locked_in_entries pkh [] = ok []
  locked_in_entries pkh ((k, v) ∷ entries) = deserialize_outputs v >>= λ outs.
      locked_in_entries pkh entries >>= λ rest. ok (locked_outputs pkh outs ++ rest)

  unfoldable pub items_in_entries : Bytes → List (Bytes × Bytes) → Outcome (List UtxoItem)
  items_in_entries pkh [] = ok []
  items_in_entries pkh ((k, v) ∷ entries) = deserialize_outputs v >>= λ outs.
      items_in_entries pkh entries >>= λ rest. ok (items_of pkh k 0 outs ++ rest)

unfoldable pub count_transactions {ℓ} : {S : Type ℓ} → Storage S → S → Outcome ℕ
count_transactions st s = st.iterate_utxo s >>= λ entries. ok (length entries)

module _ {ℓ} {S : Type ℓ} (st : Storage S) (og : Codec (List TxOutput)) where
  unfoldable pub find_spendable_outputs : S → Bytes → ℤ → Outcome Spendable
  find_spendable_outputs s pkh amount = st.iterate_utxo s >>= λ entries.
      collect_entries og pkh amount entries (record { accumulated = pos 0; outputs = [] })

  -- `UTXOSet.FindUTXO`
  unfoldable pub find_utxo : S → Bytes → Outcome (List TxOutput)
  find_utxo s pkh = st.iterate_utxo s >>= λ entries. locked_in_entries og pkh entries

  unfoldable pub find_utxo_items : S → Bytes → Outcome (List UtxoItem)
  find_utxo_items s pkh = st.iterate_utxo s >>= λ entries. items_in_entries og pkh entries

  -- A write of `Reindex`, and what follows it. The result is the storage that `Reindex` leaves, with
  -- its error if it fails: what was written by then stays, and the write that failed did nothing.
  abbrev pub or_stop : S → Outcome S → (S → Running (S × Option Error)) → Running (S × Option Error)
  or_stop s (ok s') next = next s'
  or_stop s (err e) next = some (ok (s, some e))
  or_stop s panic next = some panic

  -- The loop of `Reindex`.
  unfoldable pub save_all : S → Assoc (List TxOutput) → Running (S × Option Error)
  save_all s [] = some (ok (s, none))
  save_all s ((id, outs) ∷ rest) = some (serialize_outputs og outs) >>> λ d.
      or_stop s (st.save_utxo s id d) λ s'. save_all s' rest

  unfoldable pub reindex : Codec Block → ℕ → Blockchain S → Running (S × Option Error)
  reindex bg fuel bc = or_stop bc.db (st.clear_utxo_set bc.db) λ s.
      elim (find_chain_utxo st bg fuel (record bc { db = s })) [
        | none ↦ none
        | some utxo ↦ save_all s utxo
      ]

  -- `Update`, an input that spends: a missing entry is passed over.
  unfoldable pub keep_outputs : S → Bytes → List TxOutput → Outcome S
  keep_outputs s id [] = st.delete_utxo s id
  keep_outputs s id (out ∷ outs) = serialize_outputs og (out ∷ outs) >>= λ d. st.save_utxo s id d

  unfoldable pub update_input : S → TxInput → Outcome S
  update_input s vin = elim (st.get_utxo s vin.txid) [
    | ok d ↦
        deserialize_outputs og d >>= λ outs. keep_outputs s vin.txid (without_index vin.vout 0 outs)
    | err e ↦ if is_not_found e then ok s else err e
    | panic ↦ panic
  ]

  unfoldable pub update_inputs : S → List TxInput → Outcome S
  update_inputs s [] = ok s
  update_inputs s (vin ∷ rest) = update_input s vin >>= λ s'. update_inputs s' rest

  unfoldable pub update_tx : S → Transaction → Outcome S
  update_tx s tx = (if is_coinbase tx then ok s else update_inputs s tx.vin) >>= λ s'.
      serialize_outputs og tx.vout >>= λ d. st.save_utxo s' tx.id d

  unfoldable pub update_txs : S → List Transaction → Outcome S
  update_txs s [] = ok s
  update_txs s (tx ∷ txs) = update_tx s tx >>= λ s'. update_txs s' txs

  unfoldable pub update : S → Block → Outcome S
  update s b = update_txs s b.transactions
