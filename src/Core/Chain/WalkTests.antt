-- ===== src/Core/Chain/WalkTests.antt =====
-- The walk over a chain of two blocks.
use go_blockchain.Prelude.{
  ℕ, ◌<◌, ◌≡◌, refl, sym, ap, ◌∙◌, ◌⊎◌, inl, inr, subst, Bool-cases, List, [], ◌∷◌, some, arith,
  pos, Bytes, Assoc, lookup, bytes_equal, codes, ok, ok_injective,
}
use go_blockchain.Storage.{Storage}
use go_blockchain.Storage.Bolt.{Db, bolt_storage, get_from, get_block as bolt_get_block}
use go_blockchain.Storage.Sample.{sample_bbolt}
use go_blockchain.Core.Block.{Block, deserialize_block}
use go_blockchain.Core.Pow.{draft_block}
use go_blockchain.Core.Chain.{Blockchain, blocks, get_block}
use go_blockchain.Core.Chain.Sample.{sample_block_codec}
use go_blockchain.Core.Chain.Walk.{Linked, blocks_total}

abbrev store : Storage (Db (Assoc Bytes))
store = bolt_storage sample_bbolt

abbrev first : Block
first = record (draft_block (pos 5) [] [] (pos 0) (pos 16)) { hash = codes "g" }

abbrev second : Block
second = record (draft_block (pos 6) [] (codes "g") (pos 4) (pos 16)) { hash = codes "a" }

abbrev chain : Blockchain (Db (Assoc Bytes))
chain = record {
  tip = codes "a";
  db = record {
    blocks = some (
        (codes "a", 0 ∷ 6 ∷ 0 ∷ 0 ∷ 0 ∷ 4 ∷ 0 ∷ 16 ∷ 1 ∷ 103 ∷ 1 ∷ 97 ∷ 0 ∷ 0 ∷ [])
        ∷ (codes "g", 0 ∷ 5 ∷ 0 ∷ 0 ∷ 0 ∷ 0 ∷ 0 ∷ 16 ∷ 0 ∷ 1 ∷ 103 ∷ 0 ∷ 0 ∷ [])
        ∷ []);
    utxo = some [];
  };
}

second_read : get_block store sample_block_codec chain.db (codes "a") ≡ ok second
unfolding get_block bolt_get_block get_from lookup bytes_equal deserialize_block
second_read = refl

first_read : get_block store sample_block_codec chain.db (codes "g") ≡ ok first
unfolding get_block bolt_get_block get_from lookup bytes_equal deserialize_block
first_read = refl

nothing_read : (p : Block) → get_block store sample_block_codec chain.db [] ≡ ok p → ⊥
unfolding get_block bolt_get_block get_from lookup bytes_equal
nothing_read p e = cc

stored :
    (h : Bytes) (b : Block)
    → get_block store sample_block_codec chain.db h ≡ ok b
    → (b ≡ second) ⊎ (b ≡ first)
unfolding get_block bolt_get_block get_from lookup deserialize_block
stored h b e = elim (Bool-cases (bytes_equal (codes "a") h)) [
  | inl hit ↦ inl (ok_injective (sym e ∙ rw (hit, get_block)))
  | inr miss ↦ elim (Bool-cases (bytes_equal (codes "g") h)) [
    | inl hit ↦ inr (ok_injective (sym e ∙ rw (miss, hit, get_block)))
    | inr none_left ↦ absurd (ground arith)
  ]
]

tall_stored :
    (h : Bytes) (b : Block)
    → get_block store sample_block_codec chain.db h ≡ ok b
    → (n : ℕ) × (b.height ≡ pos n)
tall_stored h b e = elim (stored h b e) [
  | inl same ↦ (4, ap (λ x. x.height) same)
  | inr same ↦ (0, ap (λ x. x.height) same)
]

falls_stored :
    (h : Bytes) (b p : Block) (m n : ℕ)
    → get_block store sample_block_codec chain.db h ≡ ok b
    → get_block store sample_block_codec chain.db b.prev_block_hash ≡ ok p
    → b.height ≡ pos n
    → p.height ≡ pos m
    → m < n
falls_stored h b p m n e before tall low = elim (stored h b e) [
  | inl same ↦
      let before' : get_block store sample_block_codec chain.db (codes "g") ≡ ok p =
        subst (λ x. get_block store sample_block_codec chain.db x.prev_block_hash ≡ ok p) same
          before in
      let one : first ≡ p = ok_injective (sym first_read ∙ before') in
      let high : pos 4 ≡ pos n = sym (ap (λ x. x.height) same) ∙ tall in
      let bottom : pos 0 ≡ pos m = ap (λ x. x.height) one ∙ low in ground arith
  | inr same ↦ absurd (
      nothing_read p (
        subst (λ x. get_block store sample_block_codec chain.db x.prev_block_hash ≡ ok p) same
          before))
]

blocks_total_example :
    (bs : List Block) × (blocks store sample_block_codec 6 chain ≡ some bs)
    × Linked store sample_block_codec chain.db (codes "a") bs
blocks_total_example =
    blocks_total store sample_block_codec chain second 4
      (record { tall = tall_stored; falls = falls_stored }) second_read refl
