-- ===== src/Core/Pow/Difficulty.antt =====
-- The difficulty that `CalculateNewDifficulty` computes.
use go_blockchain.Prelude.{
  ◌≡◌, ◌↔◌, inl, inr, true, false, arith, ℤ, pos, ◌≤ℤ◌, ◌<ℤ◌, ◌+ℤ◌, ◌-ℤ◌, ltb_ℤ, sub64, add64,
  wrap64, Bool-cases,
}
use go_blockchain.Core.Block.{Block}
use go_blockchain.Core.Pow.{adjust_bits, calculate_new_difficulty, at_interval, clamp_bits}

-- The bits that are allowed.
abbrev pub InBounds : ℤ → Type 0
InBounds d = (pos 8 ≤ℤ d) × (d ≤ℤ pos 24)

-- One bit apart at most.
abbrev pub IsNear : ℤ → ℤ → Type 0
IsNear a b = (a ≤ℤ b +ℤ pos 1) × (b ≤ℤ a +ℤ pos 1)

clamp_bits_up :
    (d : ℤ)
    → InBounds d
    → InBounds (clamp_bits (add64 d (pos 1))) × IsNear (clamp_bits (add64 d (pos 1))) d
unfolding add64 wrap64 ◌+ℤ◌
clamp_bits_up d h = ground arith

clamp_bits_down :
    (d : ℤ)
    → InBounds d
    → InBounds (clamp_bits (sub64 d (pos 1))) × IsNear (clamp_bits (sub64 d (pos 1))) d
unfolding sub64 wrap64 ◌-ℤ◌ ◌+ℤ◌
clamp_bits_down d h = ground arith

clamp_bits_same : (d : ℤ) → InBounds d → (clamp_bits d ≡ d) × IsNear d d
unfolding ◌+ℤ◌
clamp_bits_same d h = ground arith

-- The seconds between the two blocks, in int64.
abbrev pub elapsed : Block → Block → ℤ
elapsed last anchor = sub64 last.timestamp anchor.timestamp

adjust_bits-IsNear :
    (d actual : ℤ) → InBounds d → InBounds (adjust_bits d actual) × IsNear (adjust_bits d actual) d
unfolding adjust_bits
adjust_bits-IsNear d actual h = elim (Bool-cases (ltb_ℤ actual (pos 3000))) [
  | inl fast ↦ rw fast (clamp_bits_up d h)
  | inr in_time ↦ elim (Bool-cases (ltb_ℤ (pos 12000) actual)) [
    | inl slow ↦ rw (in_time, slow) (clamp_bits_down d h)
    | inr not_slow ↦
        let (same, near) = clamp_bits_same d h in rw (in_time, not_slow, same) (h, near)
  ]
]

adjust_bits_up :
    (d actual : ℤ)
    → InBounds d
    → d <ℤ pos 24
    → (adjust_bits d actual ≡ d +ℤ pos 1) ↔ (actual <ℤ pos 3000)
unfolding adjust_bits add64 sub64 wrap64 ◌+ℤ◌ ◌-ℤ◌
adjust_bits_up d actual h less = ground arith

calculate_new_difficulty-adjust_bits :
    (last anchor : Block)
    → at_interval last.height ≡ true
    → calculate_new_difficulty last anchor ≡ adjust_bits last.bits (elapsed last anchor)
unfolding calculate_new_difficulty
calculate_new_difficulty-adjust_bits last anchor here = rw here

-- Where the height is no multiple of ten the bits stay.
pub calculate_new_difficulty_kept :
    (last anchor : Block)
    → at_interval last.height ≡ false
    → calculate_new_difficulty last anchor ≡ last.bits
unfolding calculate_new_difficulty
calculate_new_difficulty_kept last anchor off = rw off

-- Bits within 8 and 24 stay there, and change by one at most.
pub calculate_new_difficulty_bounds :
    (last anchor : Block)
    → InBounds last.bits
    → InBounds (calculate_new_difficulty last anchor)
      × IsNear (calculate_new_difficulty last anchor) last.bits
calculate_new_difficulty_bounds last anchor h = elim (Bool-cases (at_interval last.height)) [
  | inl here ↦
      rw (calculate_new_difficulty-adjust_bits last anchor here)
        (adjust_bits-IsNear last.bits (elapsed last anchor) h)
  | inr off ↦
      let (_, near) = clamp_bits_same last.bits h in
      rw (calculate_new_difficulty_kept last anchor off) (h, near)
]

-- At an interval height, bits from 8 to 23 rise by one exactly when the blocks took under 3000
-- seconds.
pub calculate_new_difficulty_rises :
    (last anchor : Block)
    → at_interval last.height ≡ true
    → InBounds last.bits
    → last.bits <ℤ pos 24
    → (calculate_new_difficulty last anchor ≡ last.bits +ℤ pos 1)
      ↔ (elapsed last anchor <ℤ pos 3000)
calculate_new_difficulty_rises last anchor here h less =
    rw (calculate_new_difficulty-adjust_bits last anchor here)
      (adjust_bits_up last.bits (elapsed last anchor) h less)
