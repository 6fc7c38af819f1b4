-- ===== src/Core/Chain/Transactions/Mined.antt =====
-- What `MineBlock` has done when it returns a block.
use go_blockchain.Prelude.{
  ℕ, ◌<◌, ◌≡◌, refl, Bool, true, false, List, [], ◌∷◌, some, if◌then◌else◌, ℤ, pos, add64, Bytes,
  All, ok, err, >>>-eq-ok, ok_injective, some_injective, subst, invalid_transaction,
}
use go_blockchain.Storage.{Storage}
use go_blockchain.Core.External.{Crypto, Codec}
use go_blockchain.Core.Transaction.{Transaction}
use go_blockchain.Core.Block.{Block, serialize_block}
use go_blockchain.Core.Pow.{new_block, validate, max_nonce}
use go_blockchain.Core.Pow.Mining.{new_block-validate, new_block_fields}
use go_blockchain.Core.Chain.{Blockchain, get_block, next_bits}
use go_blockchain.Core.Chain.Transactions.{verify_transaction, verify_all, mine_block}

module _ {ℓ} {S : Type ℓ} (st : Storage S) (bg : Codec Block) (c : Crypto) (g : Codec Transaction)
    (fuel : ℕ) where
  abbrev pub IsVerified : Blockchain S → Transaction → Type 0
  IsVerified bc tx = verify_transaction st bg c g fuel bc tx ≡ some (ok true)

  verify_all-step :
      (bc : Blockchain S) (tx : Transaction) (txs : List Transaction) (valid r : Bool)
      → verify_transaction st bg c g fuel bc tx ≡ some (ok valid)
      → (verify_all st bg c g fuel bc txs ≡ some (ok r) → All (IsVerified bc) txs)
      → (if valid then verify_all st bg c g fuel bc txs else some (err invalid_transaction))
        ≡ some (ok r)
      → All (IsVerified bc) (tx ∷ txs)
  verify_all-step bc tx txs true r verified later next = (verified, later next)
  verify_all-step bc tx txs false r verified later next = cc

  verify_all_lem :
      (bc : Blockchain S) (txs : List Transaction) (r : Bool)
      → verify_all st bg c g fuel bc txs ≡ some (ok r)
      → All (IsVerified bc) txs
  unfolding verify_all
  verify_all_lem bc [] r e = tt
  verify_all_lem bc (tx ∷ txs) r e =
      let (valid, verified, next) = >>>-eq-ok (verify_transaction st bg c g fuel bc tx) _ e in
      verify_all-step bc tx txs valid r verified (verify_all_lem bc txs r) next

  -- What a mined block has, and what became of the chain.
  pub record Mined (now : ℤ) (bc bc' : Blockchain S) (txs : List Transaction) (b : Block)
      : Type ℓ where
    pub last_hash : Bytes
    pub last : Block
    pub tip_read : st.get_tip bc.db ≡ ok last_hash
    pub last_read : get_block st bg bc.db last_hash ≡ ok last
    pub verified : All (IsVerified bc) txs
    pub holds : b.transactions ≡ txs
    pub follows : b.prev_block_hash ≡ last_hash
    pub higher : b.height ≡ add64 last.height (pos 1)
    pub tip : bc'.tip ≡ b.hash
    pub saved : st.save_block_and_tip bc.db b.hash (serialize_block bg b) ≡ ok bc'.db
    pub works : (n : ℕ) → b.nonce ≡ pos n → n < max_nonce → validate c g b ≡ true

  new_block-Mined :
      (is_done : ℕ → Bool) (now : ℤ) (bc : Blockchain S) (txs : List Transaction)
      (last_hash : Bytes) (last b : Block) (bits : ℤ) (s : S)
      → st.get_tip bc.db ≡ ok last_hash
      → get_block st bg bc.db last_hash ≡ ok last
      → All (IsVerified bc) txs
      → new_block c g is_done fuel now txs last_hash (add64 last.height (pos 1)) bits ≡ some (ok b)
      → st.save_block_and_tip bc.db b.hash (serialize_block bg b) ≡ ok s
      → Mined now bc (record { tip = b.hash; db = s }) txs b
  new_block-Mined is_done now bc txs last_hash last b bits s tip read verified made saved =
      let height = add64 last.height (pos 1) in
      let (holds, follows, higher, _) =
        new_block_fields c g is_done fuel now txs last_hash height bits b made in
      record {
        last_hash = last_hash;
        last = last;
        tip_read = tip;
        last_read = read;
        verified = verified;
        holds = holds;
        follows = follows;
        higher = higher;
        tip = refl;
        saved = saved;
        works = λ n number below.
            let (valid, _, _) =
              new_block-validate c g is_done fuel now txs last_hash height bits b n made number
                below in
            valid;
      }

  -- Where `MineBlock` returns a block, all its transactions passed `VerifyTransaction` on the chain
  -- before, it holds just them, it stands on the last block and one above it, it was saved with
  -- its hash as the tip, and it passes `Validate` if its nonce is below the last one.
  pub mine_block-Mined :
      (is_done : ℕ → Bool) (now : ℤ) (bc bc' : Blockchain S) (txs : List Transaction) (b : Block)
      → mine_block st bg c g fuel is_done now bc txs ≡ some (ok (b, bc'))
      → Mined now bc bc' txs b
  unfolding mine_block
  mine_block-Mined is_done now bc bc' txs b e =
      let (r, all, e1) = >>>-eq-ok (verify_all st bg c g fuel bc txs) _ e in
      let (last_hash, tip, e2) = >>>-eq-ok (some (st.get_tip bc.db)) _ e1 in
      let (last, read, e3) = >>>-eq-ok (some (get_block st bg bc.db last_hash)) _ e2 in
      let (bits, retargeted, e4) = >>>-eq-ok (next_bits st bg fuel bc.db last) _ e3 in
      let height = add64 last.height (pos 1) in
      let (b', made, e5) =
        >>>-eq-ok (new_block c g is_done fuel now txs last_hash height bits) _ e4 in
      let (s, saved, e6) =
        >>>-eq-ok (some (st.save_block_and_tip bc.db b'.hash (serialize_block bg b'))) _ e5 in
      let same : (b', record { tip = b'.hash; db = s }) ≡ (b, bc') =
        ok_injective (some_injective e6) in
      subst (λ p. Mined now bc p.1 txs p.0) same
        (new_block-Mined is_done now bc txs last_hash last b' bits s (some_injective tip)
          (some_injective read) (verify_all_lem bc txs r all) made (some_injective saved))
