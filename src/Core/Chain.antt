-- ===== src/Core/Chain.antt =====
-- internal/core/blockchain.go: the chain over a storage. A `Blockchain` points to a storage that it
-- shares, so its state is the tip and the storage's state. The authorized keys, a variable of the
-- package, are a parameter. A walk over the blocks takes fuel, as a storage may hold a cycle;
-- `none` is the end of the fuel.
pub mod Adding
pub mod Growth
pub mod Retarget
pub mod Walk
pub mod Transactions
pub mod Sample
mod Tests
mod WalkTests
use go_blockchain.Prelude.{
  ℕ, zero, suc, Bool, true, false, not, List, [], ◌∷◌, map, Option, none, some, if◌then◌else◌, ℤ,
  pos, add64, sub64, ltb_ℤ, Bytes, bytes_equal, Assoc, insert, Outcome, ok, err, panic, ◌>>=◌,
  invalid_poa, invalid_pow, serialize_failed, tx_not_found, invalid_transaction, length, ◌==◌,
}
use go_blockchain.Storage.{Storage}
use go_blockchain.Core.External.{Crypto, PrivateKey, Codec}
use go_blockchain.Core.Transaction.{Transaction, TxInput, PrevTxs, is_coinbase, sign, verify}
use go_blockchain.Core.Block.{Block, serialize_block, deserialize_block}
use go_blockchain.Core.Pow.{
  validate, new_proof_of_work, new_block, or_target_bits, at_interval, calculate_new_difficulty,
}
use go_blockchain.Core.Poa.{verify_poa_block}

pub record Blockchain {ℓ} (S : Type ℓ) : Type ℓ where
  pub tip : Bytes
  pub db : S

-- `AddBlock`'s test of a block: by its authority where it has a signature, else by its work.
unfoldable pub check_block : Crypto → Codec Transaction → List Bytes → Block → Outcome {0} Unit
check_block c g keys b =
    if not (length b.authority_signature == 0)
    then (if verify_poa_block c g keys b then ok tt else err invalid_poa)
    else (new_proof_of_work b >>= λ _. if validate c g b then ok tt else err invalid_pow)

-- `Serialize` and the test for nil.
unfoldable pub serialized : Codec Block → Block → Outcome Bytes
serialized bg b = elim (serialize_block bg b) [ [] ↦ err serialize_failed | x ∷ xs ↦ ok (x ∷ xs) ]

-- The bits by the anchor that was found.
abbrev pub adjusted : Block → Option (Outcome Block) → Option (Outcome ℤ)
adjusted last none = none
adjusted last (some (ok anchor)) = some (ok (calculate_new_difficulty last anchor))
adjusted last (some (err e)) = some (err e)
adjusted last (some panic) = some panic

module _ {ℓ} {S : Type ℓ} (st : Storage S) (bg : Codec Block) where
  -- `GetBlock`
  unfoldable pub get_block : S → Bytes → Outcome Block
  get_block s h = st.get_block s h >>= λ encoded. deserialize_block bg encoded

  -- The last block, as `AddBlock`, `MineBlock` and `GetBestHeight` read it.
  unfoldable pub last_block : S → Outcome Block
  last_block s = st.get_tip s >>= λ h. get_block s h

  unfoldable pub get_best_height : Blockchain S → Outcome ℤ
  get_best_height bc = last_block bc.db >>= λ last. ok last.height

  -- A block above the last one becomes the tip.
  unfoldable pub store_block : Blockchain S → Block → Bytes → Block → Outcome (Blockchain S)
  store_block bc b encoded last =
      if ltb_ℤ last.height b.height
      then st.save_block_and_tip bc.db b.hash encoded
        >>= (λ s. ok (record { tip = b.hash; db = s }))
      else (st.save_block bc.db b.hash encoded >>= λ s. ok (record bc { db = s }))

  -- `AddBlock`
  unfoldable pub add_block :
      Crypto → Codec Transaction → List Bytes → Blockchain S → Block → Outcome (Blockchain S)
  add_block c g keys bc b = elim (st.get_block bc.db b.hash) [
    | ok _ ↦ ok bc
    | err _ ↦ check_block c g keys b >>= λ _.
        serialized bg b >>= λ encoded. last_block bc.db >>= λ last. store_block bc b encoded last
    | panic ↦ panic
  ]

  -- `Blocks` from a hash on: the walk ends at an empty hash and at any error.
  unfoldable pub blocks_from : ℕ → S → Bytes → Option (List Block)
  blocks_from fuel s [] = some []
  blocks_from zero s (x ∷ h) = none
  blocks_from (suc fuel) s (x ∷ h) = elim (get_block s (x ∷ h)) [
    | ok b ↦ elim (blocks_from fuel s b.prev_block_hash) [
      | none ↦ none
      | some rest ↦ some (b ∷ rest)
    ]
    | _ ↦ some []
  ]

  unfoldable pub blocks : ℕ → Blockchain S → Option (List Block)
  blocks fuel bc = blocks_from fuel bc.db bc.tip

  unfoldable pub get_block_hashes : ℕ → Blockchain S → Option (List Bytes)
  get_block_hashes fuel bc = elim (blocks fuel bc) [
    | none ↦ none
    | some bs ↦ some (map (λ b. b.hash) bs)
  ]

  -- The search of `MineBlock` for the anchor.
  unfoldable pub find_anchor : ℕ → S → Block → ℤ → Option (Outcome Block)
  find_anchor zero s b low = none
  find_anchor (suc fuel) s b low =
      if not (ltb_ℤ low b.height) then some (ok b) else elim (get_block s b.prev_block_hash) [
        | ok prev ↦ find_anchor fuel s prev low
        | err e ↦ some (err e)
        | panic ↦ some panic
      ]

  -- `newBits` of `MineBlock`.
  unfoldable pub next_bits : ℕ → S → Block → Option (Outcome ℤ)
  next_bits fuel s last =
      let height = add64 last.height (pos 1) in
      if not (at_interval height)
      then some (ok (or_target_bits last.bits))
      else adjusted last (find_anchor fuel s last (sub64 height (pos 10)))
