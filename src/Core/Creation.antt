-- ===== src/Core/Creation.antt =====
-- `CreateBlockchain` and `NewBlockchain` of internal/core/blockchain.go, and `NewGenesisBlock` of
-- block.go. The clock is an argument, and the context is never done.
mod Tests
use go_blockchain.Prelude.{
  ℕ, refl, sym, ap, ◌∙◌, Bool, true, false, List, [], ◌∷◌, Option, none, some, if◌then◌else◌, ℤ,
  pos, Bytes, codes, Outcome, ok, err, panic, ◌>>=◌, Running, ◌>>>◌, chain_exists, no_chain,
}
use go_blockchain.Storage.{Storage}
use go_blockchain.Core.External.{Crypto, Codec}
use go_blockchain.Core.Transaction.{Transaction}
use go_blockchain.Core.Block.{Block, serialize_block}
use go_blockchain.Core.Pow.{new_block, target_bits}
use go_blockchain.Core.Chain.{Blockchain}
use go_blockchain.Core.Payments.{new_coinbase_tx}
use go_blockchain.Core.Utxo.{is_not_found}

abbrev pub genesis_coinbase_data : Bytes
genesis_coinbase_data =
    codes "The Times 03/Jan/2009 Chancellor on brink of second bailout for banks"

-- Only a tip that is read and is not empty stands for a chain.
unfoldable pub no_tip : Outcome Bytes → Outcome {0} Unit
no_tip (ok []) = ok tt
no_tip (ok (x ∷ xs)) = err chain_exists
no_tip (err e) = ok tt
no_tip panic = panic

-- An error of `NewBlock` panics.
unfoldable pub or_panics {ℓ} : {A : Type ℓ} → Running A → Running A
or_panics none = none
or_panics (some (ok a)) = some (ok a)
or_panics (some (err e)) = some panic
or_panics (some panic) = some panic

-- The answer of `NewBlockchain` to what it reads.
unfoldable pub opened {ℓ} : {S : Type ℓ} → S → Outcome Bytes → Outcome (Blockchain S)
opened s (ok tip) = ok (record { tip = tip; db = s })
opened s (err e) = if is_not_found e then err no_chain else err e
opened s panic = panic

module _ {ℓ} {S : Type ℓ} (st : Storage S) where
  unfoldable pub new_blockchain : S → Outcome (Blockchain S)
  new_blockchain s = opened s (st.get_tip s)

  module _ (bg : Codec Block) (c : Crypto) (g : Codec Transaction) (fuel : ℕ) where
    unfoldable pub new_genesis_block : ℤ → Transaction → Running Block
    new_genesis_block now coinbase =
        or_panics (new_block c g (λ k. false) fuel now (coinbase ∷ []) [] (pos 0) target_bits)

    unfoldable pub create_blockchain : Outcome Bytes → ℤ → Bytes → S → Running (Blockchain S)
    create_blockchain random now address s = some (no_tip (st.get_tip s)) >>> λ free.
        some (new_coinbase_tx c g random address genesis_coinbase_data) >>> λ coinbase.
        new_genesis_block now coinbase >>> λ genesis.
        some (st.save_block_and_tip s genesis.hash (serialize_block bg genesis)) >>> λ s'.
        some (ok (record { tip = genesis.hash; db = s' }))
