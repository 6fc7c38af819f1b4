-- ===== src/Core/Chain/Growth.antt =====
-- A chain that blocks are added to keeps its form, its blocks and its height.
use go_blockchain.Prelude.{
  ◌≡◌, refl, sym, ap, ◌∙◌, ◌⊎◌, inl, inr, subst, Bool-cases, List, [], ◌∷◌, arith, if◌then◌else◌, ℤ,
  ltb_ℤ, ◌≤ℤ◌, Bytes, Outcome, ok, err, panic, >>=-eq-ok, ok_injective, All,
}
use go_blockchain.Storage.{Storage, StorageLaws}
use go_blockchain.Core.External.{Crypto, Codec}
use go_blockchain.Core.Transaction.{Transaction}
use go_blockchain.Core.Block.{Block}
use go_blockchain.Core.Chain.{
  Blockchain, check_block, get_block, last_block, get_best_height, add_block,
}
use go_blockchain.Core.Chain.Adding.{
  RoundTrips, IsKnown, Added, add_block_inv, IsWellFormed, store_block_higher, store_block_lower,
  Added-read, Added-kept, Added-last,
}

module _ {ℓ} {S : Type ℓ} (st : Storage S) (bg : Codec Block) (c : Crypto) (g : Codec Transaction)
    (keys : List Bytes) where
  -- The chain after a block was handed to `AddBlock`, and after many, whatever it answered.
  abbrev pub chain_or : Blockchain S → Outcome (Blockchain S) → Blockchain S
  chain_or bc (ok bc') = bc'
  chain_or bc (err _) = bc
  chain_or bc panic = bc

  unfoldable pub receive_blocks : Blockchain S → List Block → Blockchain S
  receive_blocks bc [] = bc
  receive_blocks bc (b ∷ bs) = receive_blocks (chain_or bc (add_block st bg c g keys bc b)) bs

module _ {ℓ} {S : Type ℓ} (st : Storage S) (bg : Codec Block) (IsKey : Bytes → Type 0) where
  -- What was read before is read after.
  abbrev pub Keeps : Blockchain S → Blockchain S → Type 0
  Keeps bc bc' =
      (h : Bytes) (old : Block)
      → IsKey h
      → get_block st bg bc.db h ≡ ok old
      → get_block st bg bc'.db h ≡ ok old

  -- The best heights of two chains, the second not the lower.
  abbrev pub Rises : Blockchain S → Blockchain S → Type 0
  Rises bc bc' =
      (h : ℤ) × (h' : ℤ) × (get_best_height st bg bc ≡ ok h)
      × (get_best_height st bg bc' ≡ ok h')
      × (h ≤ℤ h')

module _ {ℓ} {S : Type ℓ} (st : Storage S) (bg : Codec Block) (c : Crypto) (g : Codec Transaction)
    (keys : List Bytes) (IsKey : Bytes → Type 0) (laws : StorageLaws st IsKey)
    (trips : RoundTrips bg) where
  abbrev Formed : Blockchain S → Type ℓ
  Formed = IsWellFormed st bg IsKey

  -- A block that was read keeps being read.
  Added-read_kept :
      (bc bc' : Blockchain S) (b : Block) (h : Bytes) (old : Block)
      → IsKey b.hash
      → Added st bg c g keys bc bc' b
      → IsKey h
      → get_block st bg bc.db h ≡ ok old
      → get_block st bg bc'.db h ≡ ok old
  unfolding get_block
  Added-read_kept bc bc' b h old key added other e =
      let (d, stored, read) = >>=-eq-ok (st.get_block bc.db h) _ e in
      rw (Added-kept st bg c g keys IsKey laws trips bc bc' b key added h d other stored) read

  best_height : (bc : Blockchain S) (wf : Formed bc) → get_best_height st bg bc ≡ ok wf.last.height
  unfolding get_best_height last_block
  best_height bc wf = let tip = wf.tip_saved in let read = wf.last_read in rw (tip, read)

  -- After a block was added: the form, with a last block that is not lower.
  Added-Formed :
      (bc bc' : Blockchain S) (b : Block)
      → IsKey b.hash
      → (wf : Formed bc) → Added st bg c g keys bc bc' b
      → (wf' : Formed bc') × (wf.last.height ≤ℤ wf'.last.height)
  Added-Formed bc bc' b key wf added =
      let old : wf.last ≡ added.last =
        ok_injective
          (sym wf.last_read ∙ Added-last st bg c g keys IsKey laws trips bc bc' b key added wf) in
      elim (Bool-cases (ltb_ℤ added.last.height b.height)) [
        | inl higher ↦
            let (saved, tip) =
              store_block_higher st bg c g keys IsKey laws trips bc bc' b added.last added.encoded
                higher added.stored in
            (
              record {
                tip_saved =
                    laws.get_tip-save_block_and_tip bc.db bc'.db b.hash added.encoded saved
                    ∙ ap ok (sym tip);
                tip_key = rw tip key;
                last = b;
                last_read = rw tip (Added-read st bg c g keys IsKey laws trips bc bc' b key added);
              },
              rw old (ground arith),
            )
        | inr lower ↦
            let (saved, tip) =
              store_block_lower st bg c g keys IsKey laws trips bc bc' b added.last added.encoded
                lower added.stored in
            (
              record {
                tip_saved =
                    laws.get_tip-save_block bc.db bc'.db b.hash added.encoded key saved
                    ∙ wf.tip_saved
                    ∙ ap ok (sym tip);
                tip_key = rw tip wf.tip_key;
                last = wf.last;
                last_read =
                    rw tip
                      (Added-read_kept bc bc' b bc.tip wf.last key added wf.tip_key wf.last_read);
              },
              omega arith,
            )
      ]

  add_block_grows :
      (bc bc' : Blockchain S) (b : Block)
      → IsKey b.hash
      → (wf : Formed bc) → add_block st bg c g keys bc b ≡ ok bc'
      → (wf' : Formed bc') × (wf.last.height ≤ℤ wf'.last.height) × Keeps st bg IsKey bc bc'
  add_block_grows bc bc' b key wf e = elim (add_block_inv st bg c g keys bc bc' b e) [
    | inl (known, same) ↦
        subst (λ x. (wf' : Formed x) × (wf.last.height ≤ℤ wf'.last.height) × Keeps st bg IsKey bc x)
          (sym same) (wf, omega arith, λ h old other read. read)
    | inr added ↦
        let (wf', higher) = Added-Formed bc bc' b key wf added in
        (wf', higher, λ h old other read. Added-read_kept bc bc' b h old key added other read)
  ]

  abbrev pub HashIsKey : Block → Type 0
  HashIsKey b = IsKey b.hash

  -- One step, by the answer.
  chain_or-Formed :
      (bc : Blockchain S) (b : Block) (r : Outcome (Blockchain S))
      → IsKey b.hash
      → (wf : Formed bc) → add_block st bg c g keys bc b ≡ r
      → (wf' : Formed (chain_or st bg c g keys bc r)) × (wf.last.height ≤ℤ wf'.last.height)
        × Keeps st bg IsKey bc (chain_or st bg c g keys bc r)
  chain_or-Formed bc b (ok bc') key wf e = add_block_grows bc bc' b key wf e
  chain_or-Formed bc b (err _) key wf e = (wf, omega arith, λ h old other read. read)
  chain_or-Formed bc b panic key wf e = (wf, omega arith, λ h old other read. read)

  receive_blocks-Formed :
      (bs : List Block) (bc : Blockchain S)
      → All HashIsKey bs
      → (wf : Formed bc)
      → (wf' : Formed (receive_blocks st bg c g keys bc bs)) × (wf.last.height ≤ℤ wf'.last.height)
        × Keeps st bg IsKey bc (receive_blocks st bg c g keys bc bs)
  unfolding receive_blocks
  receive_blocks-Formed [] bc allowed wf = (wf, omega arith, λ h old other read. read)
  receive_blocks-Formed (b ∷ bs) bc (key, allowed) wf =
      let (wf', higher, keeps) = chain_or-Formed bc b (add_block st bg c g keys bc b) key wf refl in
      let (wf'', higher', keeps') =
        receive_blocks-Formed bs (chain_or st bg c g keys bc (add_block st bg c g keys bc b))
          allowed wf' in
      (wf'', omega arith, λ h old other read. keeps' h old other (keeps h old other read))

  -- Whatever blocks a well-formed chain receives, and whatever `AddBlock` answers: the chain stays
  -- well formed, its best height does not fall, and every block that could be read under an allowed
  -- hash is still read. The storage keeps its laws, and the received hashes are allowed ones.
  pub receive_blocks_grow :
      (bs : List Block) (bc : Blockchain S)
      → All HashIsKey bs
      → Formed bc
      → Formed (receive_blocks st bg c g keys bc bs)
        × Rises st bg IsKey bc (receive_blocks st bg c g keys bc bs)
        × Keeps st bg IsKey bc (receive_blocks st bg c g keys bc bs)
  receive_blocks_grow bs bc allowed wf =
      let (wf', higher, keeps) = receive_blocks-Formed bs bc allowed wf in
      (
        wf',
        (
          wf.last.height,
          wf'.last.height,
          best_height bc wf,
          best_height (receive_blocks st bg c g keys bc bs) wf',
          higher,
        ),
        keeps,
      )

  Added-tip :
      (bc bc' : Blockchain S) (b last : Block)
      → IsKey b.hash
      → last_block st bg bc.db ≡ ok last
      → (added : Added st bg c g keys bc bc' b)
      → bc'.tip ≡ (if ltb_ℤ last.height b.height then b.hash else bc.tip)
  Added-tip bc bc' b last key read added =
      let same : added.last ≡ last = ok_injective (sym added.last_read ∙ read) in
      elim (Bool-cases (ltb_ℤ added.last.height b.height)) [
        | inl higher ↦
            let (_, tip) =
              store_block_higher st bg c g keys IsKey laws trips bc bc' b added.last added.encoded
                higher added.stored in
            rw (sym same, higher) tip
        | inr lower ↦
            let (_, tip) =
              store_block_lower st bg c g keys IsKey laws trips bc bc' b added.last added.encoded
                lower added.stored in
            rw (sym same, lower) tip
      ]

  -- On a storage that keeps its laws, with a gob that gives back the blocks that it encoded: for a
  -- block whose hash is an allowed key, where the last block can be read, a call of `AddBlock` that
  -- succeeds had the block already, and changed nothing; or the block passed its test, is read under
  -- its hash, and is the tip exactly if it is above the last block.
  pub add_block_lem :
      (bc bc' : Blockchain S) (b last : Block)
      → IsKey b.hash
      → last_block st bg bc.db ≡ ok last
      → add_block st bg c g keys bc b ≡ ok bc'
      → (IsKnown st bg c g keys bc b × (bc' ≡ bc))
        ⊎ ((check_block c g keys b ≡ ok tt)
            × (get_block st bg bc'.db b.hash ≡ ok b)
            × (bc'.tip ≡ (if ltb_ℤ last.height b.height then b.hash else bc.tip)))
  add_block_lem bc bc' b last key read e = elim (add_block_inv st bg c g keys bc bc' b e) [
    | inl known ↦ inl known
    | inr added ↦ inr (
      added.valid,
      Added-read st bg c g keys IsKey laws trips bc bc' b key added,
      Added-tip bc bc' b last key read added,
    )
  ]
