-- ===== src/Core/Chain/Retarget.antt =====
-- The difficulty of the blocks that `MineBlock` makes.
use go_blockchain.Prelude.{
  ℕ, ◌≡◌, inl, inr, Bool-cases, true, false, Option, none, some, arith, ℤ, pos, add64, wrap64,
  sub64, sym, ◌∙◌, ◌<◌, ◌+ℤ◌, Outcome, ok, err, panic,
}
use go_blockchain.Storage.{Storage}
use go_blockchain.Core.External.{Codec}
use go_blockchain.Core.Block.{Block}
use go_blockchain.Core.Pow.{or_target_bits, at_interval}
use go_blockchain.Core.Pow.Difficulty.{calculate_new_difficulty_kept}
use go_blockchain.Core.Chain.{adjusted, find_anchor, next_bits}

-- Of two heights that follow each other, not both are multiples of ten.
interval_apart :
    (n : ℕ)
    → n < 9223372036854775807
    → at_interval (add64 (pos n) (pos 1)) ≡ true
    → at_interval (pos n) ≡ false
unfolding add64 wrap64 ◌+ℤ◌
interval_apart n below h = ground arith

adjusted_kept :
    (last : Block) (found : Option (Outcome Block)) (bits : ℤ)
    → at_interval last.height ≡ false
    → adjusted last found ≡ some (ok bits)
    → bits ≡ last.bits
adjusted_kept last none bits off e = cc
adjusted_kept last (some (ok anchor)) bits off e =
    let kept = calculate_new_difficulty_kept last anchor off in cc
adjusted_kept last (some (err w)) bits off e = cc
adjusted_kept last (some panic) bits off e = cc

module _ {ℓ} {S : Type ℓ} (st : Storage S) (bg : Codec Block) where
  -- On a last block of bits other than 0, whatever the timestamps: the bits that `MineBlock` computes
  -- for the new block are the last block's, since `CalculateNewDifficulty` gets a last block whose
  -- height is no multiple of ten.
  pub next_bits_kept :
      (fuel : ℕ) (s : S) (last : Block) (n : ℕ) (bits : ℤ)
      → last.height ≡ pos n
      → n < 9223372036854775807
      → or_target_bits last.bits ≡ last.bits
      → next_bits st bg fuel s last ≡ some (ok bits)
      → bits ≡ last.bits
  unfolding next_bits
  next_bits_kept fuel s last n bits tall below set e =
      let height = add64 last.height (pos 1) in
      elim (Bool-cases (at_interval height)) [
        | inr other ↦
            let plain : next_bits st bg fuel s last ≡ some (ok (or_target_bits last.bits)) =
              rw (other, next_bits) in
            cc
        | inl here ↦
            let off : at_interval last.height ≡ false =
              rw tall (interval_apart n below (rw (sym tall) here)) in
            let found = find_anchor st bg fuel s last (sub64 height (pos 10)) in
            let same : next_bits st bg fuel s last ≡ adjusted last found = rw (here, next_bits) in
            adjusted_kept last found bits off (sym same ∙ e)
      ]
