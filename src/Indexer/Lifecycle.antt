-- ===== src/Indexer/Lifecycle.antt =====
-- internal/indexer: the invariant of the store, and what a block does to escrows that are overdue.
use go_blockchain.Prelude.{
  ℕ, ◌+◌, ◌<◌, ◌≡◌, ◌⊎◌, sym, ◌∙◌, subst, true, List, [], ◌∷◌, Option, none, some, arith,
  if◌then◌else◌, ℤ, pos, leb_ℤ, Bytes, lookup, lookup-insert, bytes_equal, bytes_equal→eq,
  bytes_equal_refl, Bool-cases, inl, inr, some_injective, ◌%◌, ◌==◌, ◌||◌, add64, Option-cases,
}
use go_blockchain.Core.Output.{TxOutput, script_escrow, script_zkcp}
use go_blockchain.Core.Transaction.{Transaction, TxInput}
use go_blockchain.Indexer.{
  expired, IndexedEscrow, IndexStore, escrow_key, byte_of, save_escrow, get_escrow, index_output,
  index_outputs, settled, save_settled, index_input, index_inputs, index_txs, expire, expire_all,
}

pub save_escrow-lookup :
    (e : IndexedEscrow) (s : IndexStore) (k : Bytes)
    → lookup k (save_escrow e s).escrows
      ≡ (if bytes_equal (escrow_key e.tx_id e.vout) k then some e else lookup k s.escrows)
unfolding save_escrow
save_escrow-lookup e s k = lookup-insert (escrow_key e.tx_id e.vout) k e s.escrows

same_output :
    (a b : Bytes) (i j : ℕ)
    → i < 256
    → j < 256
    → bytes_equal (escrow_key a (pos i)) (escrow_key b (pos j)) ≡ true
    → (a ≡ b) × (i ≡ j)
unfolding escrow_key byte_of
same_output a b i j small small' h =
    let e = bytes_equal→eq (i % 256 ∷ a) (j % 256 ∷ b) h in
    let byte : i % 256 ≡ j % 256 = cc in (cc, omega arith)

-- A saved escrow is the one that is read for its output, and those of other outputs stay, as long as
-- all indices are below 256.
pub get_escrow-save_escrow :
    (e : IndexedEscrow) (s : IndexStore) (tx_id : Bytes) (i j : ℕ)
    → e.vout ≡ pos i
    → i < 256
    → j < 256
    → (get_escrow e.tx_id e.vout (save_escrow e s) ≡ some e)
      × (((e.tx_id ≡ tx_id) × (i ≡ j))
          ⊎ (get_escrow tx_id (pos j) (save_escrow e s) ≡ get_escrow tx_id (pos j) s))
unfolding get_escrow
get_escrow-save_escrow e s tx_id i j own small small' =
    let key = escrow_key e.tx_id e.vout in
    (
      rw (save_escrow-lookup e s key, bytes_equal_refl key),
      elim (Bool-cases (bytes_equal key (escrow_key tx_id (pos j)))) [
        | inl same ↦ inl (same_output e.tx_id tx_id i j small small' (rw own at same))
        | inr other ↦ inr (rw (save_escrow-lookup e s (escrow_key tx_id (pos j)), other))
      ],
    )

-- Every escrow is stored under its own key.
unfoldable pub IsKeyed : IndexStore → Type 0
IsKeyed s =
    (k : Bytes) (e : IndexedEscrow) → lookup k s.escrows ≡ some e → escrow_key e.tx_id e.vout ≡ k

save_escrow-IsKeyed : (e : IndexedEscrow) (s : IndexStore) → IsKeyed s → IsKeyed (save_escrow e s)
unfolding IsKeyed
save_escrow-IsKeyed e s keyed k found h =
    let key = escrow_key e.tx_id e.vout in
    elim (Bool-cases (bytes_equal key k)) [
      | inl same ↦
          let e' : e ≡ found = some_injective (sym (save_escrow-lookup e s k ∙ rw same) ∙ h) in
          subst (λ x. escrow_key x.tx_id x.vout ≡ k) e' (bytes_equal→eq key k same)
      | inr other ↦ keyed k found (sym (save_escrow-lookup e s k ∙ rw other) ∙ h)
    ]

index_output-IsKeyed :
    (height : ℤ) (tx_id : Bytes) (i : ℕ) (out : TxOutput) (s : IndexStore)
    → IsKeyed s
    → IsKeyed (index_output height tx_id i out s)
unfolding index_output
index_output-IsKeyed height tx_id i out s keyed =
    elim (Bool-cases (out.script_type == script_escrow || out.script_type == script_zkcp)) [
      | inl e ↦ rw e (save_escrow-IsKeyed _ s keyed)
      | inr e ↦ rw e keyed
    ]

index_outputs-IsKeyed :
    (height : ℤ) (tx_id : Bytes) (i : ℕ) (outs : List TxOutput) (s : IndexStore) (volume : ℤ)
    → IsKeyed s
    → IsKeyed (index_outputs height tx_id i outs (s, volume)).0
unfolding index_outputs
index_outputs-IsKeyed height tx_id i [] s volume keyed = keyed
index_outputs-IsKeyed height tx_id i (out ∷ outs) s volume keyed =
    index_outputs-IsKeyed height tx_id (i + 1) outs (index_output height tx_id i out s)
      (add64 volume out.value) (index_output-IsKeyed height tx_id i out s keyed)

save_settled-IsKeyed :
    (o : Option IndexedEscrow) (s : IndexStore) → IsKeyed s → IsKeyed (save_settled o s)
save_settled-IsKeyed none s keyed = keyed
save_settled-IsKeyed (some e) s keyed = save_escrow-IsKeyed e s keyed

index_input-IsKeyed :
    (tx_id : Bytes) (vin : TxInput) (s : IndexStore) → IsKeyed s → IsKeyed (index_input tx_id vin s)
unfolding index_input
index_input-IsKeyed tx_id vin s keyed = elim (Option-cases (get_escrow vin.txid vin.vout s)) [
  | inl e ↦ rw (index_input, e) keyed
  | inr (found, e) ↦ rw (index_input, e) (save_settled-IsKeyed (settled tx_id vin found) s keyed)
]

index_inputs-IsKeyed :
    (tx_id : Bytes) (vins : List TxInput) (s : IndexStore)
    → IsKeyed s
    → IsKeyed (index_inputs tx_id vins s)
unfolding index_inputs
index_inputs-IsKeyed tx_id [] s keyed = keyed
index_inputs-IsKeyed tx_id (vin ∷ rest) s keyed =
    index_inputs-IsKeyed tx_id rest (index_input tx_id vin s)
      (index_input-IsKeyed tx_id vin s keyed)

pub index_txs-IsKeyed :
    (height : ℤ) (txs : List Transaction) (s : IndexStore) (volume : ℤ)
    → IsKeyed s
    → IsKeyed (index_txs height txs (s, volume)).0
unfolding index_txs
index_txs-IsKeyed height [] s volume keyed = keyed
index_txs-IsKeyed height (tx ∷ txs) s volume keyed =
    let (s', volume') = index_outputs height tx.id 0 tx.vout (s, volume) in
    index_txs-IsKeyed height txs (index_inputs tx.id tx.vin s') volume' (
      index_inputs-IsKeyed tx.id tx.vin s'
        (index_outputs-IsKeyed height tx.id 0 tx.vout s volume keyed))

pub expire-IsKeyed :
    (height : ℤ) (e : IndexedEscrow) (s : IndexStore) → IsKeyed s → IsKeyed (expire height e s)
unfolding expire
expire-IsKeyed height e s keyed = elim (Bool-cases (leb_ℤ e.timeout_block height)) [
  | inl t ↦ rw t (save_escrow-IsKeyed (record e { status = expired }) s keyed)
  | inr t ↦ rw t keyed
]

pub expire_all-IsKeyed :
    (height : ℤ) (es : List IndexedEscrow) (s : IndexStore)
    → IsKeyed s
    → IsKeyed (expire_all height es s)
unfolding expire_all
expire_all-IsKeyed height [] s keyed = keyed
expire_all-IsKeyed height (e ∷ es) s keyed =
    expire_all-IsKeyed height es (expire height e s) (expire-IsKeyed height e s keyed)
