-- ===== src/Core/Chain/Adding.antt =====
-- What `AddBlock` does to a chain.
use go_blockchain.Prelude.{
  ◌≡◌, refl, sym, ap, ◌∙◌, ◌⊎◌, inl, inr, subst, true, false, Bool-cases, List, [], ◌∷◌, Option,
  none, some, if◌then◌else◌, ltb_ℤ, Bytes, bytes_equal, bytes_equal_refl, bytes_equal→eq, Outcome,
  ok, err, panic, ◌>>=◌, >>=-eq-ok, ok_injective, Error, serialize_failed,
}
use go_blockchain.Storage.{Storage, StorageLaws}
use go_blockchain.Core.External.{Crypto, Codec, or_nil}
use go_blockchain.Core.Transaction.{Transaction}
use go_blockchain.Core.Block.{Block, serialize_block, deserialize_block}
use go_blockchain.Core.Chain.{
  Blockchain, check_block, serialized, get_block, last_block, store_block, add_block,
}

-- gob gives back what it encoded.
abbrev pub RoundTrips : Codec Block → Type 0
RoundTrips bg = (b : Block) (d : Bytes) → bg.encode b ≡ some d → bg.decode d ≡ some b

deserialize_block-serialized :
    (bg : Codec Block)
    → RoundTrips bg
    → (b : Block) (d : Bytes) → serialized bg b ≡ ok d
    → deserialize_block bg d ≡ ok b
unfolding serialized serialize_block deserialize_block or_nil
deserialize_block-serialized bg trips b d e = go (bg.encode b) refl e
  where
    nonempty : Bytes → Outcome Bytes
    nonempty [] = err serialize_failed
    nonempty (x ∷ xs) = ok (x ∷ xs)

    go :
        (o : Option Bytes)
        → bg.encode b ≡ o
        → nonempty (or_nil o) ≡ ok d
        → deserialize_block bg d ≡ ok b
    go none made f = cc
    go (some []) made f = cc
    go (some (x ∷ xs)) made f =
        subst (λ i. deserialize_block bg i ≡ ok b) (ok_injective f)
          (rw (trips b (x ∷ xs) made, deserialize_block))

-- The chain and its storage agree on the tip, whose block can be read.
pub record IsWellFormed {ℓ} {S : Type ℓ} (st : Storage S) (bg : Codec Block)
    (IsKey : Bytes → Type 0) (bc : Blockchain S) : Type ℓ where
  pub tip_saved : st.get_tip bc.db ≡ ok bc.tip
  pub tip_key : IsKey bc.tip
  pub last : Block
  pub last_read : get_block st bg bc.db bc.tip ≡ ok last

module _ {ℓ} {S : Type ℓ} (st : Storage S) (bg : Codec Block) (c : Crypto) (g : Codec Transaction)
    (keys : List Bytes) where
  -- How a block was added that the storage did not have.
  pub record Added (bc bc' : Blockchain S) (b : Block) : Type ℓ where
    pub why : Error
    pub unknown : st.get_block bc.db b.hash ≡ err why
    pub valid : check_block c g keys b ≡ ok tt
    pub encoded : Bytes
    pub made : serialized bg b ≡ ok encoded
    pub last : Block
    pub last_read : last_block st bg bc.db ≡ ok last
    pub stored : store_block st bg bc b encoded last ≡ ok bc'

  abbrev pub IsKnown : Blockchain S → Block → Type 0
  IsKnown bc b = (d : Bytes) × (st.get_block bc.db b.hash ≡ ok d)

  add_block_found :
      (bc bc' : Blockchain S) (b : Block) (r : Outcome Bytes)
      → st.get_block bc.db b.hash ≡ r
      → add_block st bg c g keys bc b ≡ ok bc'
      → (IsKnown bc b × (bc' ≡ bc)) ⊎ Added bc bc' b
  unfolding add_block
  add_block_found bc bc' b (ok d) known e =
      let same : add_block st bg c g keys bc b ≡ ok bc = rw (known, add_block) in
      inl ((d, known), ok_injective (sym e ∙ same))
  add_block_found bc bc' b (err why) unknown e =
      let start : add_block st bg c g keys bc b ≡ (
          check_block c g keys b >>= λ _. serialized bg b >>= λ encoded.
          last_block st bg bc.db >>= λ last. store_block st bg bc b encoded last) =
        rw (unknown, add_block) in
      let (u, valid, next) = >>=-eq-ok (check_block c g keys b) _ (sym start ∙ e) in
      let (encoded, made, next') = >>=-eq-ok (serialized bg b) _ next in
      let (last, last_read, stored) = >>=-eq-ok (last_block st bg bc.db) _ next' in
      inr (record {
        why = why;
        unknown = unknown;
        valid = valid;
        encoded = encoded;
        made = made;
        last = last;
        last_read = last_read;
        stored = stored;
      })
  add_block_found bc bc' b panic bad e =
      let failed : add_block st bg c g keys bc b ≡ panic = rw (bad, add_block) in absurd cc

  -- A call that succeeds had the block already, and changed nothing, or added it.
  pub add_block_inv :
      (bc bc' : Blockchain S) (b : Block)
      → add_block st bg c g keys bc b ≡ ok bc'
      → (IsKnown bc b × (bc' ≡ bc)) ⊎ Added bc bc' b
  add_block_inv bc bc' b e = add_block_found bc bc' b (st.get_block bc.db b.hash) refl e

  module _ (IsKey : Bytes → Type 0) (laws : StorageLaws st IsKey) (trips : RoundTrips bg) where
    -- A stored block above or not above the last one.
    pub store_block_higher :
        (bc bc' : Blockchain S) (b last : Block) (d : Bytes)
        → ltb_ℤ last.height b.height ≡ true
        → store_block st bg bc b d last ≡ ok bc'
        → (st.save_block_and_tip bc.db b.hash d ≡ ok bc'.db) × (bc'.tip ≡ b.hash)
    unfolding store_block
    store_block_higher bc bc' b last d higher e =
        let start : store_block st bg bc b d last
            ≡ (st.save_block_and_tip bc.db b.hash d >>= λ s. ok (record { tip = b.hash; db = s })) =
          rw (higher, store_block) in
        let (s, saved, result) =
          >>=-eq-ok (st.save_block_and_tip bc.db b.hash d) _ (sym start ∙ e) in
        let same = ok_injective result in
        (saved ∙ ap (λ x. ok x.db) same, sym (ap (λ x. x.tip) same))

    pub store_block_lower :
        (bc bc' : Blockchain S) (b last : Block) (d : Bytes)
        → ltb_ℤ last.height b.height ≡ false
        → store_block st bg bc b d last ≡ ok bc'
        → (st.save_block bc.db b.hash d ≡ ok bc'.db) × (bc'.tip ≡ bc.tip)
    unfolding store_block
    store_block_lower bc bc' b last d lower e =
        let start : store_block st bg bc b d last
            ≡ (st.save_block bc.db b.hash d >>= λ s. ok (record bc { db = s })) =
          rw (lower, store_block) in
        let (s, saved, result) = >>=-eq-ok (st.save_block bc.db b.hash d) _ (sym start ∙ e) in
        let same = ok_injective result in
        (saved ∙ ap (λ x. ok x.db) same, sym (ap (λ x. x.tip) same))

    module _ (bc bc' : Blockchain S) (b : Block) (key : IsKey b.hash) (added : Added bc bc' b) where
      -- The storage holds the new block under its hash, and the other blocks as before.
      pub Added-get_block :
          (k : Bytes)
          → IsKey k
          → st.get_block bc'.db k
            ≡ (if bytes_equal b.hash k then ok added.encoded else st.get_block bc.db k)
      Added-get_block k other = elim (Bool-cases (ltb_ℤ added.last.height b.height)) [
        | inl higher ↦
            let (saved, _) =
              store_block_higher bc bc' b added.last added.encoded higher added.stored in
            laws.get_block-save_block_and_tip bc.db bc'.db b.hash added.encoded k key other saved
        | inr lower ↦
            let (saved, _) =
              store_block_lower bc bc' b added.last added.encoded lower added.stored in
            laws.get_block-save_block bc.db bc'.db b.hash added.encoded k key saved
      ]

      pub Added-read : get_block st bg bc'.db b.hash ≡ ok b
      unfolding get_block
      Added-read =
          rw (Added-get_block b.hash key, bytes_equal_refl b.hash)
            (deserialize_block-serialized bg trips b added.encoded added.made)

      -- What was stored stays.
      pub Added-kept :
          (k d : Bytes) → IsKey k → st.get_block bc.db k ≡ ok d → st.get_block bc'.db k ≡ ok d
      Added-kept k d other stored = elim (Bool-cases (bytes_equal b.hash k)) [
        | inl same ↦
            let unknown =
              subst (λ h. st.get_block bc.db h ≡ err added.why) (bytes_equal→eq b.hash k same)
                added.unknown in
            absurd cc
        | inr differs ↦ rw (Added-get_block k other, differs) stored
      ]

      pub Added-last : IsWellFormed st bg IsKey bc → (get_block st bg bc.db bc.tip ≡ ok added.last)
      unfolding last_block
      Added-last wf =
          let tip = wf.tip_saved in
          let read : last_block st bg bc.db ≡ get_block st bg bc.db bc.tip = rw (last_block, tip) in
          sym read ∙ added.last_read
