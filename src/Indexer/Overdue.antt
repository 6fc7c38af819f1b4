-- ===== src/Indexer/Overdue.antt =====
-- internal/indexer: after a block, no pending escrow of the store is overdue.
use go_blockchain.Prelude.{
  ℕ, zero, suc, ◌≤◌, ◌≡◌, ◌⊎◌, sym, ap, ◌∙◌, subst, true, false, List, [], ◌∷◌, some, arith, ltb, ℤ,
  pos, ◌≤ℤ◌, ◌<ℤ◌, leb_ℤ, Bytes, Assoc, lookup, bytes_equal, bytes_equal_refl, length, take,
  Bool-cases, inl, inr, some_injective,
}
use go_blockchain.Core.Block.{Block}
use go_blockchain.Indexer.{
  pending, expired, IndexedEscrow, IndexStore, RecentBlock, escrow_key, get_escrow, is_pending,
  pending_in, get_active_escrows, update_metrics, save_block, index_txs, expire, expire_all,
  process_block,
}
use go_blockchain.Indexer.Lifecycle.{
  IsKeyed, save_escrow-lookup, index_txs-IsKeyed, expire-IsKeyed, expire_all-IsKeyed,
}

abbrev Among : IndexedEscrow → List IndexedEscrow → Type 0
Among x [] = ⊥
Among x (y ∷ ys) = (x ≡ y) ⊎ Among x ys

-- A pending escrow whose timeout the height has reached.
abbrev pub IsOverdue : ℤ → IndexedEscrow → Type 0
IsOverdue height e = (e.status ≡ pending) × (e.timeout_block ≤ℤ height)

-- The overdue escrows of the store are among those that are left to look at.
unfoldable Awaited : ℤ → List IndexedEscrow → IndexStore → Type 0
Awaited height es s =
    (k : Bytes) (e : IndexedEscrow) → lookup k s.escrows ≡ some e → IsOverdue height e → Among e es

pending_in-Among :
    (m : Assoc IndexedEscrow) (k : Bytes) (e : IndexedEscrow)
    → lookup k m ≡ some e
    → e.status ≡ pending
    → Among e (pending_in m)
unfolding lookup pending_in
pending_in-Among [] k e h p = cc
pending_in-Among ((j, x) ∷ m) k e h p = elim (Bool-cases (bytes_equal j k)) [
  | inl same ↦
      let e' : x ≡ e = some_injective (rw same at h) in
      let kept : is_pending x.status ≡ true = rw (ap (λ y. y.status) e', p) in
      rw kept (inl (sym e'))
  | inr other ↦
      let later = pending_in-Among m k e (rw other at h) p in
      elim (Bool-cases (is_pending x.status)) [ inl t ↦ rw t (inr later) | inr t ↦ rw t later ]
]

expire-Awaited :
    (height : ℤ) (x : IndexedEscrow) (es : List IndexedEscrow) (s : IndexStore)
    → IsKeyed s
    → Awaited height (x ∷ es) s
    → Awaited height es (expire height x s)
unfolding IsKeyed Awaited expire lookup
expire-Awaited height x es s keyed wait k e h (p, late) =
    elim (Bool-cases (leb_ℤ x.timeout_block height)) [
      | inl due ↦
          let key = escrow_key x.tx_id x.vout in
          let h' = rw (expire, due) at h in
          elim (Bool-cases (bytes_equal key k)) [
            | inl same ↦
                let e' : record x { status = expired } ≡ e =
                  some_injective
                    (sym (save_escrow-lookup (record x { status = expired }) s k ∙ rw same) ∙ h') in
                absurd (not_pending (ap (λ y. y.status) e' ∙ p))
            | inr other ↦
                let found : lookup k s.escrows ≡ some e =
                  sym (save_escrow-lookup (record x { status = expired }) s k ∙ rw other) ∙ h' in
                elim (wait k e found (p, late)) [
                  | inl e' ↦ absurd (clash (sym other ∙ stored e' (keyed k e found)))
                  | inr rest ↦ rest
                ]
          ]
      | inr early ↦ elim (wait k e (rw (expire, early) at h) (p, late)) [
        | inl e' ↦
            let due : x.timeout_block ≤ℤ height = subst (λ y. y.timeout_block ≤ℤ height) e' late in
            absurd (ground arith)
        | inr rest ↦ rest
      ]
    ]
  where
    not_pending : expired ≡ pending → ⊥
    not_pending h = cc

    clash : false ≡ true → ⊥
    clash h = cc

    stored :
        e ≡ x → escrow_key e.tx_id e.vout ≡ k → bytes_equal (escrow_key x.tx_id x.vout) k ≡ true
    stored e' own = rw⁻¹ e' (rw own (bytes_equal_refl k))

expire_all-Awaited :
    (height : ℤ) (es : List IndexedEscrow) (s : IndexStore)
    → IsKeyed s
    → Awaited height es s
    → Awaited height [] (expire_all height es s)
unfolding expire_all
expire_all-Awaited height [] s keyed wait = wait
expire_all-Awaited height (e ∷ es) s keyed wait =
    expire_all-Awaited height es (expire height e s) (expire-IsKeyed height e s keyed)
      (expire-Awaited height e es s keyed wait)

active-Awaited : (height : ℤ) (s : IndexStore) → Awaited height (get_active_escrows s) s
unfolding Awaited get_active_escrows
active-Awaited height s k e h (p, late) = pending_in-Among s.escrows k e h p

length-take : (n : ℕ) (xs : List RecentBlock) → length (take n xs) ≤ n
length-take zero xs = omega arith
length-take (suc n) [] = omega arith
length-take (suc n) (x ∷ xs) = omega (arith, length-take n xs)

save_block-short :
    (blk : RecentBlock) (s : IndexStore) → length (save_block blk s).recent_blocks ≤ 20
unfolding save_block
save_block-short blk s = elim (Bool-cases (ltb 20 (length (blk ∷ s.recent_blocks)))) [
  | inl long ↦ rw long (length-take 20 (blk ∷ s.recent_blocks))
  | inr short ↦ rw short (ground arith)
]

process_block-recent : (b : Block) (s : IndexStore) → length (process_block b s).recent_blocks ≤ 20
unfolding process_block update_metrics
process_block-recent b s =
    let indexed = (index_txs b.height b.transactions (s, pos 0)).0 in
    save_block-short
      (record {
        height = b.height;
        hash = b.hash;
        tx_count = length b.transactions;
        timestamp = b.timestamp;
      })
      (expire_all b.height (get_active_escrows indexed) indexed)

-- A block that is processed on a store in which each escrow is stored under its own key leaves such a
-- store, with no pending escrow whose timeout the block's height has reached, and with at most 20
-- recent blocks.
pub process_block_lem :
    (b : Block) (s : IndexStore)
    → IsKeyed s
    → IsKeyed (process_block b s)
      × ((tx_id : Bytes) (vout : ℤ) (e : IndexedEscrow)
          → get_escrow tx_id vout (process_block b s) ≡ some e
          → e.status ≡ pending
          → b.height <ℤ e.timeout_block)
      × (length (process_block b s).recent_blocks ≤ 20)
unfolding process_block update_metrics save_block IsKeyed Awaited get_escrow
process_block_lem b s keyed =
    let (indexed, volume) = index_txs b.height b.transactions (s, pos 0) in
    let kept = index_txs-IsKeyed b.height b.transactions s (pos 0) keyed in
    let active = get_active_escrows indexed in
    let none_left =
      expire_all-Awaited b.height active indexed kept (active-Awaited b.height indexed) in
    (
      expire_all-IsKeyed b.height active indexed kept,
      (λ tx_id vout e h p. elim (Bool-cases (leb_ℤ e.timeout_block b.height)) [
        | inl due ↦ absurd (none_left (escrow_key tx_id vout) e h (p, ground arith))
        | inr early ↦ ground arith
      ]),
      process_block-recent b s,
    )
