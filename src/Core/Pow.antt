-- ===== src/Core/Pow.antt =====
-- internal/core/proofofwork.go, and `NewBlock` of block.go. Printing is left out. The context is
-- the answer, at each nonce where it is polled, whether it is done; `time.Now()` is an argument.
pub mod Mining
pub mod Difficulty
use go_blockchain.Prelude.{
  ℕ, zero, suc, ◌+◌, ◌^◌, ◌%◌, Bool, true, false, ◌&&◌, not, List, [], ◌∷◌, ◌++◌, Option, none,
  some, if◌then◌else◌, ltb, ◌==◌, ℤ, pos, negsuc, ◌==ℤ◌, sub64, add64, ltb_ℤ, Bytes, Outcome, ok,
  err, panic, tx_hash_failed, canceled, replicate, ◌<◌, leb_ℤ, leb, ◌>>>◌,
}
use go_blockchain.Core.External.{Crypto, Codec}
use go_blockchain.Core.Bignum.{set_bytes, int_to_hex, unsigned64}
use go_blockchain.Core.Transaction.{Transaction}
use go_blockchain.Core.Block.{Block, hash_transactions}

-- math.MaxInt64
abbrev pub max_nonce : ℕ
max_nonce = 9223372036854775807

abbrev pub target_bits : ℤ
target_bits = pos 16

-- `if bits == 0 { bits = targetBits }`
abbrev pub or_target_bits : ℤ → ℤ
or_target_bits bits = if bits ==ℤ pos 0 then target_bits else bits

-- `uint(256 - bits)`, and the target of `NewProofOfWork`, 1 << uint(256 - bits).
abbrev pub target_shift : ℤ → ℕ
target_shift bits = unsigned64 (sub64 (pos 256) (or_target_bits bits))

unfoldable pub target : ℤ → ℕ
target bits = 2 ^ target_shift bits

-- `NewProofOfWork` gives the target. A number of 2^51 bits has no room in 48-bit addresses, so that
-- `Lsh` panics, as it does for all bits above 256, where the conversion to uint wraps around.
unfoldable pub new_proof_of_work : Block → Outcome ℕ
new_proof_of_work b = if leb (2 ^ 51) (target_shift b.bits) then panic else ok (target b.bits)

unfoldable pub prepare_data : Block → ℤ → Bytes → Bytes
prepare_data b nonce tx_hash =
    b.prev_block_hash
    ++ tx_hash
    ++ int_to_hex b.timestamp
    ++ int_to_hex (or_target_bits b.bits)
    ++ int_to_hex nonce

-- The block before the proof of work, and with its result.
abbrev pub draft_block : ℤ → List Transaction → Bytes → ℤ → ℤ → Block
draft_block now txs prev_hash height bits = record {
  timestamp = now;
  transactions = txs;
  prev_block_hash = prev_hash;
  hash = [];
  nonce = pos 0;
  height = height;
  bits = or_target_bits bits;
  authority_signature = [];
  authority_pub_key = [];
}

abbrev pub add_proof : Block → Option (Outcome (ℕ × Bytes)) → Option (Outcome Block)
add_proof b none = none
add_proof b (some (ok (nonce, h))) = some (ok (record b { hash = h; nonce = pos nonce }))
add_proof b (some (err e)) = some (err e)
add_proof b (some panic) = some panic

module _ (c : Crypto) (g : Codec Transaction) where
  unfoldable pub pow_hash : Block → ℤ → Bytes → Bytes
  pow_hash b nonce tx_hash = c.sha256 (prepare_data b nonce tx_hash)

  -- `hashInt.Cmp(pow.target) == -1`
  unfoldable pub solves : Block → Bytes → ℤ → Bool
  solves b tx_hash nonce = ltb (set_bytes (pow_hash b nonce tx_hash)) (target b.bits)

  -- The loop from a nonce on, with the last hash; `none` where the fuel runs out.
  unfoldable pub mine_from :
      Block → Bytes → (ℕ → Bool) → ℕ → ℕ → Bytes → Option (Outcome (ℕ × Bytes))
  mine_from b tx_hash is_done zero nonce last = none
  mine_from b tx_hash is_done (suc fuel) nonce last =
      let h = pow_hash b (pos nonce) tx_hash in
      let rest = mine_from b tx_hash is_done fuel (nonce + 1) h in
      if not (ltb nonce max_nonce)
      then some (ok (nonce, last))
      else if (nonce % 1000 == 0) && is_done nonce
      then some (err canceled)
      else if solves b tx_hash (pos nonce)
      then some (ok (nonce, h))
      else rest

  -- `Run`; the hash is 32 zero bytes before the first round.
  unfoldable pub run : Block → (ℕ → Bool) → ℕ → Option (Outcome (ℕ × Bytes))
  run b is_done fuel = elim (hash_transactions c g b.transactions) [
    | [] ↦ some (err tx_hash_failed)
    | x ∷ xs ↦ mine_from b (x ∷ xs) is_done fuel 0 (replicate 32 0)
  ]

  unfoldable pub validate : Block → Bool
  validate b = solves b (hash_transactions c g b.transactions) b.nonce

  -- `NewBlock` at time `now`.
  unfoldable pub new_block :
      (ℕ → Bool) → ℕ → ℤ → List Transaction → Bytes → ℤ → ℤ → Option (Outcome Block)
  new_block is_done fuel now txs prev_hash height bits =
      let b = draft_block now txs prev_hash height bits in
      some (new_proof_of_work b) >>> λ _. add_proof b (run b is_done fuel)

-- difficultyAdjustmentInterval, and `h % difficultyAdjustmentInterval == 0`.
abbrev pub interval : ℕ
interval = 10

abbrev pub at_interval : ℤ → Bool
at_interval (pos n) = n % interval == 0
at_interval (negsuc n) = suc n % interval == 0

-- The bound to 8 and 24.
abbrev pub clamp_bits : ℤ → ℤ
clamp_bits bits =
    let low = if ltb_ℤ bits (pos 8) then pos 8 else bits in
    if ltb_ℤ (pos 24) low then pos 24 else low

-- The new bits by the seconds that ten blocks took; the target is 6000 seconds.
unfoldable pub adjust_bits : ℤ → ℤ → ℤ
adjust_bits bits actual = clamp_bits (
    if ltb_ℤ actual (pos 3000)
    then add64 bits (pos 1)
    else if ltb_ℤ (pos 12000) actual
    then sub64 bits (pos 1)
    else bits)

-- `CalculateNewDifficulty`
unfoldable pub calculate_new_difficulty : Block → Block → ℤ
calculate_new_difficulty last anchor =
    if not (at_interval last.height)
    then last.bits
    else adjust_bits last.bits (sub64 last.timestamp anchor.timestamp)
