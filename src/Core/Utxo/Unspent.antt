-- ===== src/Core/Utxo/Unspent.antt =====
-- `FindUTXO` of internal/core/blockchain.go against a description without its maps.
use go_blockchain.Prelude.{
  ℕ, ◌+◌, ◌≡◌, ◌≢◌, refl, sym, ap, ◌∙◌, false, List, [], ◌∷◌, ◌++◌, append_assoc, append-nil, some,
  arith, if◌then◌else◌, ℤ, pos, Bytes, Assoc, lookup, lookup-insert, bytes_equal, bytes_equal→eq,
  bytes_equal_refl, All, Bool-cases, inl, inr, some_injective,
}
use go_blockchain.Storage.{Storage}
use go_blockchain.Core.External.{Codec}
use go_blockchain.Core.Output.{TxOutput}
use go_blockchain.Core.Transaction.{Transaction, TxInput, is_coinbase}
use go_blockchain.Core.Block.{Block}
use go_blockchain.Core.Chain.{Blockchain, blocks}
use go_blockchain.Core.Utxo.{
  Scan, entries_of, append_to, has_index, or_empty, scan_output, scan_outputs, scan_inputs, scan_tx,
  scan_txs, scan_blocks, no_scan, find_chain_utxo,
}

-- The indices of the outputs of the transaction `id` that inputs name.
unfoldable pub named_by_inputs : Bytes → List TxInput → List ℤ
named_by_inputs id [] = []
named_by_inputs id (v ∷ vs) =
    let rest = named_by_inputs id vs in if bytes_equal v.txid id then v.vout ∷ rest else rest

-- The same for the inputs of all transactions but coinbases.
unfoldable pub named_by : Bytes → List Transaction → List ℤ
named_by id [] = []
named_by id (tx ∷ txs) =
    (if is_coinbase tx then [] else named_by_inputs id tx.vin) ++ named_by id txs

-- The outputs, counted from `i`, whose index is not listed.
unfoldable pub outputs_except : List ℤ → ℕ → List TxOutput → List TxOutput
outputs_except spent i [] = []
outputs_except spent i (out ∷ outs) =
    let rest = outputs_except spent (i + 1) outs in
    if has_index (pos i) spent then rest else out ∷ rest

-- The transactions of blocks, in the order of the walk.
unfoldable pub transactions_of : List Block → List Transaction
transactions_of [] = []
transactions_of (b ∷ bs) = b.transactions ++ transactions_of bs

abbrev pub HasOtherId : Bytes → Transaction → Type 0
HasOtherId id tx = tx.id ≢ id

entries_of-append_to :
    {A : Type 0} (j k : Bytes) (v : A) (m : Assoc (List A))
    → entries_of j (append_to k v m)
      ≡ (if bytes_equal k j then entries_of j m ++ v ∷ [] else entries_of j m)
unfolding entries_of append_to or_empty
entries_of-append_to j k v m =
    ap or_empty (lookup-insert k j (or_empty (lookup k m) ++ v ∷ []) m)
    ∙ ground (arith, bytes_equal→eq k j)

scan_output-spent :
    (id : Bytes) (i : ℕ) (out : TxOutput) (s : Scan) → (scan_output id i out s).spent ≡ s.spent
unfolding scan_output
scan_output-spent id i out s = ground arith

scan_output-other :
    (id other : Bytes) (i : ℕ) (out : TxOutput) (s : Scan)
    → bytes_equal other id ≡ false
    → entries_of id (scan_output other i out s).utxo ≡ entries_of id s.utxo
unfolding scan_output
scan_output-other id other i out s h =
    let added = entries_of-append_to id other out s.utxo in ground arith

scan_output-utxo :
    (id : Bytes) (i : ℕ) (out : TxOutput) (s : Scan)
    → entries_of id (scan_output id i out s).utxo ≡ (
        if has_index (pos i) (entries_of id s.spent)
        then entries_of id s.utxo
        else entries_of id s.utxo ++ out ∷ [])
unfolding scan_output
scan_output-utxo id i out s =
    let added = entries_of-append_to id id out s.utxo in ground (arith, bytes_equal_refl id)

scan_outputs-spent :
    (id : Bytes) (i : ℕ) (outs : List TxOutput) (s : Scan)
    → (scan_outputs id i outs s).spent ≡ s.spent
unfolding scan_outputs
scan_outputs-spent id i [] s = refl
scan_outputs-spent id i (out ∷ outs) s =
    scan_outputs-spent id (i + 1) outs (scan_output id i out s) ∙ scan_output-spent id i out s

scan_outputs-utxo :
    (id : Bytes) (i : ℕ) (outs : List TxOutput) (s : Scan)
    → entries_of id (scan_outputs id i outs s).utxo
      ≡ entries_of id s.utxo ++ outputs_except (entries_of id s.spent) i outs
unfolding scan_outputs outputs_except
scan_outputs-utxo id i [] s = sym (append-nil (entries_of id s.utxo))
scan_outputs-utxo id i (out ∷ outs) s =
    let kept = outputs_except (entries_of id s.spent) (i + 1) outs in
    scan_outputs-utxo id (i + 1) outs (scan_output id i out s)
    ∙ rw (scan_output-spent id i out s, scan_output-utxo id i out s)
        (ground (arith, append_assoc (entries_of id s.utxo) (out ∷ []) kept))

scan_outputs-other :
    (id other : Bytes) (i : ℕ) (outs : List TxOutput) (s : Scan)
    → bytes_equal other id ≡ false
    → entries_of id (scan_outputs other i outs s).utxo ≡ entries_of id s.utxo
unfolding scan_outputs
scan_outputs-other id other i [] s h = refl
scan_outputs-other id other i (out ∷ outs) s h =
    scan_outputs-other id other (i + 1) outs (scan_output other i out s) h
    ∙ scan_output-other id other i out s h

scan_inputs-utxo : (vs : List TxInput) (s : Scan) → (scan_inputs vs s).utxo ≡ s.utxo
unfolding scan_inputs
scan_inputs-utxo [] s = refl
scan_inputs-utxo (v ∷ vs) s =
    scan_inputs-utxo vs (record s { spent = append_to v.txid v.vout s.spent })

scan_inputs-spent :
    (id : Bytes) (vs : List TxInput) (s : Scan)
    → entries_of id (scan_inputs vs s).spent ≡ entries_of id s.spent ++ named_by_inputs id vs
unfolding scan_inputs named_by_inputs
scan_inputs-spent id [] s = sym (append-nil (entries_of id s.spent))
scan_inputs-spent id (v ∷ vs) s =
    scan_inputs-spent id vs (record s { spent = append_to v.txid v.vout s.spent })
    ∙ elim (Bool-cases (bytes_equal v.txid id)) [
      | inl e ↦
          rw (entries_of-append_to id v.txid v.vout s.spent, e)
            (append_assoc (entries_of id s.spent) (v.vout ∷ []) (named_by_inputs id vs))
      | inr e ↦ rw (entries_of-append_to id v.txid v.vout s.spent, e)
    ]

-- One transaction: it does not touch the outputs of others, and adds the indices that it names.
scan_tx-spent :
    (id : Bytes) (tx : Transaction) (s : Scan)
    → entries_of id (scan_tx tx s).spent
      ≡ entries_of id s.spent ++ (if is_coinbase tx then [] else named_by_inputs id tx.vin)
unfolding scan_tx
scan_tx-spent id tx s =
    let s' = scan_outputs tx.id 0 tx.vout s in
    let same : s'.spent ≡ s.spent = scan_outputs-spent tx.id 0 tx.vout s in
    let added = scan_inputs-spent id tx.vin s' in
    elim (Bool-cases (is_coinbase tx)) [
      | inl e ↦ rw (e, same) (sym (append-nil (entries_of id s.spent)))
      | inr e ↦ rw e (added ∙ rw same)
    ]

scan_tx-other :
    (id : Bytes) (tx : Transaction) (s : Scan)
    → bytes_equal tx.id id ≡ false
    → entries_of id (scan_tx tx s).utxo ≡ entries_of id s.utxo
unfolding scan_tx
scan_tx-other id tx s h =
    let s' = scan_outputs tx.id 0 tx.vout s in
    let same = scan_outputs-other id tx.id 0 tx.vout s h in
    let kept = scan_inputs-utxo tx.vin s' in
    elim (Bool-cases (is_coinbase tx)) [ inl e ↦ rw e same | inr e ↦ rw (e, kept) same ]

scan_tx-own :
    (tx : Transaction) (s : Scan)
    → entries_of tx.id (scan_tx tx s).utxo
      ≡ entries_of tx.id s.utxo ++ outputs_except (entries_of tx.id s.spent) 0 tx.vout
unfolding scan_tx
scan_tx-own tx s =
    let s' = scan_outputs tx.id 0 tx.vout s in
    let own = scan_outputs-utxo tx.id 0 tx.vout s in
    let kept = scan_inputs-utxo tx.vin s' in
    elim (Bool-cases (is_coinbase tx)) [ inl e ↦ rw e own | inr e ↦ rw (e, kept) own ]

scan_txs-spent :
    (id : Bytes) (txs : List Transaction) (s : Scan)
    → entries_of id (scan_txs txs s).spent ≡ entries_of id s.spent ++ named_by id txs
unfolding scan_txs named_by
scan_txs-spent id [] s = sym (append-nil (entries_of id s.spent))
scan_txs-spent id (tx ∷ txs) s =
    scan_txs-spent id txs (scan_tx tx s)
    ∙ rw (scan_tx-spent id tx s) (
        append_assoc (entries_of id s.spent)
          (if is_coinbase tx then [] else named_by_inputs id tx.vin) (named_by id txs))

scan_txs-other :
    (id : Bytes) (txs : List Transaction) (s : Scan)
    → All (HasOtherId id) txs
    → entries_of id (scan_txs txs s).utxo ≡ entries_of id s.utxo
unfolding scan_txs
scan_txs-other id [] s h = refl
scan_txs-other id (tx ∷ txs) s (p, h) =
    let differ : bytes_equal tx.id id ≡ false = elim (Bool-cases (bytes_equal tx.id id)) [
      | inl e ↦ absurd (p (bytes_equal→eq tx.id id e))
      | inr e ↦ e
    ] in
    scan_txs-other id txs (scan_tx tx s) h ∙ scan_tx-other id tx s differ

scan_txs-append :
    (before rest : List Transaction) (s : Scan)
    → scan_txs (before ++ rest) s ≡ scan_txs rest (scan_txs before s)
unfolding scan_txs
scan_txs-append [] rest s = refl
scan_txs-append (tx ∷ txs) rest s = scan_txs-append txs rest (scan_tx tx s)

scan_blocks-transactions :
    (bs : List Block) (s : Scan) → scan_blocks bs s ≡ scan_txs (transactions_of bs) s
unfolding scan_blocks transactions_of scan_txs
scan_blocks-transactions [] s = refl
scan_blocks-transactions (b ∷ bs) s =
    scan_blocks-transactions bs (scan_txs b.transactions s)
    ∙ sym (scan_txs-append b.transactions (transactions_of bs) s)

scan_txs-split :
    (before after : List Transaction) (tx : Transaction)
    → All (HasOtherId tx.id) before
    → All (HasOtherId tx.id) after
    → entries_of tx.id (scan_txs (before ++ tx ∷ after) no_scan).utxo
      ≡ outputs_except (named_by tx.id before) 0 tx.vout
unfolding scan_txs entries_of lookup or_empty
scan_txs-split before after tx h k =
    let s = scan_txs before no_scan in
    ap (λ r. entries_of tx.id r.utxo) (scan_txs-append before (tx ∷ after) no_scan)
    ∙ scan_txs-other tx.id after (scan_tx tx s) k
    ∙ scan_tx-own tx s
    ∙ rw (scan_txs-other tx.id before no_scan h, scan_txs-spent tx.id before no_scan)

module _ {ℓ} {S : Type ℓ} (st : Storage S) (bg : Codec Block) where
  find_chain_utxo-walk :
      (fuel : ℕ) (bc : Blockchain S) (bs : List Block)
      → blocks st bg fuel bc ≡ some bs
      → find_chain_utxo st bg fuel bc ≡ some (scan_blocks bs no_scan).utxo
  unfolding find_chain_utxo
  find_chain_utxo-walk fuel bc bs walk = rw (find_chain_utxo, walk)

  -- For each transaction of the walk from the tip, if no other has its id, `FindUTXO` keeps of its
  -- outputs, in their order, those whose index no input names of a transaction, coinbases aside, that
  -- the walk meets earlier: one of a later block, or one before it in the same block.
  pub find_chain_utxo_lem :
      (fuel : ℕ) (bc : Blockchain S) (bs : List Block) (utxo : Assoc (List TxOutput))
      (before after : List Transaction) (tx : Transaction)
      → blocks st bg fuel bc ≡ some bs
      → find_chain_utxo st bg fuel bc ≡ some utxo
      → transactions_of bs ≡ before ++ tx ∷ after
      → All (HasOtherId tx.id) before
      → All (HasOtherId tx.id) after
      → entries_of tx.id utxo ≡ outputs_except (named_by tx.id before) 0 tx.vout
  find_chain_utxo_lem fuel bc bs utxo before after tx walk run split h k =
      let made : (scan_blocks bs no_scan).utxo ≡ utxo =
        some_injective (sym (find_chain_utxo-walk fuel bc bs walk) ∙ run) in
      sym (ap (entries_of tx.id) made)
      ∙ ap (λ s. entries_of tx.id s.utxo)
          (scan_blocks-transactions bs no_scan ∙ ap (λ txs. scan_txs txs no_scan) split)
      ∙ scan_txs-split before after tx h k
