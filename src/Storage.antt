-- ===== src/Storage.antt =====
-- internal/storage/storage.go: the interface `Storage` as operations on a state `S`. A writing
-- operation returns the state after it; where it fails, the state is as before.
pub mod Bolt
pub mod Sample
mod Tests
use go_blockchain.Prelude.{
  ◌≡◌, Bool, List, Option, none, some, if◌then◌else◌, Bytes, bytes_equal, Outcome, ok, err,
  not_found,
}

pub record Storage {ℓ} (S : Type ℓ) : Type ℓ where
  pub save_block : S → Bytes → Bytes → Outcome S
  pub save_block_and_tip : S → Bytes → Bytes → Outcome S
  pub get_block : S → Bytes → Outcome Bytes
  pub get_tip : S → Outcome Bytes
  pub update_tip : S → Bytes → Outcome S
  pub get_utxo : S → Bytes → Outcome Bytes
  pub save_utxo : S → Bytes → Bytes → Outcome S
  pub delete_utxo : S → Bytes → Outcome S
  pub clear_utxo_set : S → Outcome S
  pub iterate_utxo : S → Outcome (List (Bytes × Bytes))

-- The blocks with the tip, and the UTXO set, are read alike in two states.
abbrev pub SameChain {ℓ} : {S : Type ℓ} → Storage S → S → S → Type 0
SameChain st s s' =
    ((k : Bytes) → st.get_block s' k ≡ st.get_block s k) × (st.get_tip s' ≡ st.get_tip s)

abbrev pub SameUtxo {ℓ} : {S : Type ℓ} → Storage S → S → S → Type 0
SameUtxo st s s' = (k : Bytes) → st.get_utxo s' k ≡ st.get_utxo s k

-- What the chain relies on. The laws of blocks speak of hashes that `IsKey` allows.
pub record StorageLaws {ℓ} {S : Type ℓ} (st : Storage S) (IsKey : Bytes → Type 0) : Type ℓ where
  pub get_block-save_block :
      (s s' : S) (h d k : Bytes)
      → IsKey h
      → st.save_block s h d ≡ ok s'
      → st.get_block s' k ≡ (if bytes_equal h k then ok d else st.get_block s k)
  pub get_tip-save_block :
      (s s' : S) (h d : Bytes)
      → IsKey h
      → st.save_block s h d ≡ ok s'
      → st.get_tip s' ≡ st.get_tip s
  pub get_block-save_block_and_tip :
      (s s' : S) (h d k : Bytes)
      → IsKey h
      → IsKey k
      → st.save_block_and_tip s h d ≡ ok s'
      → st.get_block s' k ≡ (if bytes_equal h k then ok d else st.get_block s k)
  pub get_tip-save_block_and_tip :
      (s s' : S) (h d : Bytes) → st.save_block_and_tip s h d ≡ ok s' → st.get_tip s' ≡ ok h
  pub get_utxo-save_utxo :
      (s s' : S) (t d k : Bytes)
      → st.save_utxo s t d ≡ ok s'
      → st.get_utxo s' k ≡ (if bytes_equal t k then ok d else st.get_utxo s k)
  pub get_utxo-delete_utxo :
      (s s' : S) (t k : Bytes)
      → st.delete_utxo s t ≡ ok s'
      → st.get_utxo s' k ≡ (if bytes_equal t k then err not_found else st.get_utxo s k)
  pub get_utxo-clear_utxo_set :
      (s s' : S) (k : Bytes) → st.clear_utxo_set s ≡ ok s' → st.get_utxo s' k ≡ err not_found
  pub get_tip-update_tip : (s s' : S) (h : Bytes) → st.update_tip s h ≡ ok s' → st.get_tip s' ≡ ok h
  pub get_block-update_tip :
      (s s' : S) (h k : Bytes)
      → IsKey k
      → st.update_tip s h ≡ ok s'
      → st.get_block s' k ≡ st.get_block s k
  -- Writes to the blocks leave the UTXO set, and writes to that leave the blocks and the tip.
  pub save_block-SameUtxo :
      (s s' : S) (h d : Bytes) → st.save_block s h d ≡ ok s' → SameUtxo st s s'
  pub save_block_and_tip-SameUtxo :
      (s s' : S) (h d : Bytes) → st.save_block_and_tip s h d ≡ ok s' → SameUtxo st s s'
  pub update_tip-SameUtxo : (s s' : S) (h : Bytes) → st.update_tip s h ≡ ok s' → SameUtxo st s s'
  pub save_utxo-SameChain :
      (s s' : S) (t d : Bytes) → st.save_utxo s t d ≡ ok s' → SameChain st s s'
  pub delete_utxo-SameChain :
      (s s' : S) (t : Bytes) → st.delete_utxo s t ≡ ok s' → SameChain st s s'
  pub clear_utxo_set-SameChain : (s s' : S) → st.clear_utxo_set s ≡ ok s' → SameChain st s s'
