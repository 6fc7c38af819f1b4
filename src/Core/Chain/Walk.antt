-- ===== src/Core/Chain/Walk.antt =====
-- The walk over the blocks, and the search for a transaction.
use go_blockchain.Prelude.{
  ℕ, zero, suc, ◌<◌, ◌≡◌, refl, sym, ap, ◌∙◌, ◌⊎◌, inl, inr, List, [], ◌∷◌, some, arith, pos, Bytes,
  Outcome, ok, err, panic, ok_injective,
}
use go_blockchain.Storage.{Storage}
use go_blockchain.Core.External.{Codec}
use go_blockchain.Core.Block.{Block}
use go_blockchain.Core.Chain.{Blockchain, blocks, get_block, blocks_from}

module _ {ℓ} {S : Type ℓ} (st : Storage S) (bg : Codec Block) where
  -- The heights are not negative, and fall from a block to the one before it.
  pub record HeightsFall (s : S) : Type 0 where
    pub tall : (h : Bytes) (b : Block) → get_block st bg s h ≡ ok b → (n : ℕ) × (b.height ≡ pos n)
    pub falls :
        (h : Bytes) (b p : Block) (m n : ℕ)
        → get_block st bg s h ≡ ok b
        → get_block st bg s b.prev_block_hash ≡ ok p
        → b.height ≡ pos n
        → p.height ≡ pos m
        → m < n

  -- The blocks of a walk from a hash on: each is read under the hash that leads to it.
  abbrev pub Linked : S → Bytes → List Block → Type 0
  Linked s h [] = (h ≡ []) ⊎ ((b : Block) → get_block st bg s h ≡ ok b → ⊥)
  Linked s h (b ∷ bs) = (get_block st bg s h ≡ ok b) × Linked s b.prev_block_hash bs

  -- All blocks from the hash on are below the height `k`.
  abbrev IsBelow : S → ℕ → Bytes → Type 0
  IsBelow s k h = (b : Block) (n : ℕ) → get_block st bg s h ≡ ok b → b.height ≡ pos n → n < k

  abbrev Walked : S → ℕ → Bytes → Type 0
  Walked s fuel h = (bs : List Block) × (blocks_from st bg fuel s h ≡ some bs) × Linked s h bs

  blocks_from-read :
      (s : S) (fuel x : ℕ) (h : Bytes) (b : Block) (rest : List Block)
      → get_block st bg s (x ∷ h) ≡ ok b
      → blocks_from st bg fuel s b.prev_block_hash ≡ some rest
      → blocks_from st bg (suc fuel) s (x ∷ h) ≡ some (b ∷ rest)
  unfolding blocks_from
  blocks_from-read s fuel x h b rest read later = rw (read, later, blocks_from)

  -- Below a height `k`, `k + 1` reads are enough.
  walk :
      (s : S)
      → HeightsFall s
      → (k : ℕ) (h : Bytes) (r : Outcome Block) → get_block st bg s h ≡ r
      → IsBelow s k h
      → Walked s (suc k) h
  unfolding blocks_from
  walk s fall k [] r e below = ([], refl, inl refl)
  walk s fall k (x ∷ h) (err why) e below = ([], rw (e, blocks_from), inr (λ b read. absurd cc))
  walk s fall k (x ∷ h) panic e below = ([], rw (e, blocks_from), inr (λ b read. absurd cc))
  walk s fall zero (x ∷ h) (ok b) e below =
      let (n, tall) = fall.tall (x ∷ h) b e in absurd (omega (arith, below b n e tall))
  walk s fall (suc k) (x ∷ h) (ok b) e below =
      let (n, tall) = fall.tall (x ∷ h) b e in
      let (rest, walked, linked) =
        walk s fall k b.prev_block_hash (get_block st bg s b.prev_block_hash) refl (λ p m read high.
          omega (arith, below b n e tall, fall.falls (x ∷ h) b p m n e read tall high)) in
      (b ∷ rest, blocks_from-read s (suc k) x h b rest e walked, (e, linked))

  -- Where the heights of the stored blocks fall along their links, `Blocks` ends: from a last block
  -- of height `n` the walk reads at most `n + 2` hashes, each block is read under the hash that the
  -- one before it names, and the walk ends at an empty hash or one that cannot be read.
  pub blocks_total :
      (bc : Blockchain S) (last : Block) (n : ℕ)
      → HeightsFall bc.db
      → get_block st bg bc.db bc.tip ≡ ok last
      → last.height ≡ pos n
      → (bs : List Block) × (blocks st bg (suc (suc n)) bc ≡ some bs) × Linked bc.db bc.tip bs
  unfolding blocks
  blocks_total bc last n fall read tall =
      walk bc.db fall (suc n) bc.tip (ok last) read (λ b m same high.
        let one : last ≡ b = ok_injective (sym read ∙ same) in
        let level : pos n ≡ pos m = sym tall ∙ ap (λ x. x.height) one ∙ high in ground arith)
