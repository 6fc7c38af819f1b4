-- ===== src/Storage/Bolt.antt =====
-- internal/storage/bolt/boltdb.go: the storage in two buckets of a bbolt database. bbolt is a
-- parameter; a bucket is a map from keys to values. Every operation runs in one transaction of
-- bbolt, which an error rolls back.
pub mod Refines
use go_blockchain.Prelude.{
  ◌≡◌, Bool, true, false, List, [], ◌∷◌, Option, none, some, if◌then◌else◌, Bytes, bytes_equal,
  codes, Outcome, ok, err, panic, ◌>>=◌, or_err, or_panic, not_found, storage_failed,
}
use go_blockchain.Storage.{Storage}

-- A bucket of bbolt. `Put` fails for an empty key, among others; the cursor gives the entries.
pub record Bbolt {ℓ} (B : Type ℓ) : Type ℓ where
  pub empty : B
  pub get : B → Bytes → Option Bytes
  pub put : B → Bytes → Bytes → Option B
  pub delete : B → Bytes → Option B
  pub entries : B → List (Bytes × Bytes)

pub record BboltLaws {ℓ} {B : Type ℓ} (bb : Bbolt B) : Type ℓ where
  pub get_empty : (k : Bytes) → bb.get bb.empty k ≡ none
  pub get-put :
      (b b' : B) (k v j : Bytes)
      → bb.put b k v ≡ some b'
      → bb.get b' j ≡ (if bytes_equal k j then some v else bb.get b j)
  pub get-delete :
      (b b' : B) (k j : Bytes)
      → bb.delete b k ≡ some b'
      → bb.get b' j ≡ (if bytes_equal k j then none else bb.get b j)

-- tipKey
abbrev pub tip_key : Bytes
tip_key = codes "l"

-- The database; a bucket may be missing.
pub record Db {ℓ} (B : Type ℓ) : Type ℓ where
  pub blocks : Option B
  pub utxo : Option B

module _ {ℓ} {B : Type ℓ} (bb : Bbolt B) where
  unfoldable pub put_in : B → Bytes → Bytes → Outcome B
  put_in b k v = or_err (bb.put b k v) storage_failed

  -- What `Get` answers for a bucket that must be there.
  unfoldable pub get_from : Option B → Bytes → Outcome Bytes
  get_from bucket k = do b ← or_err bucket not_found; or_err (bb.get b k) not_found

  unfoldable pub save_block : Db B → Bytes → Bytes → Outcome (Db B)
  save_block db h d = do
    b ← or_err db.blocks not_found
    b' ← put_in b h d
    ok (record db { blocks = some b' })

  unfoldable pub save_block_and_tip : Db B → Bytes → Bytes → Outcome (Db B)
  save_block_and_tip db h d = do
    b ← or_err db.blocks not_found
    b' ← put_in b h d
    b'' ← put_in b' tip_key h
    ok (record db { blocks = some b'' })

  unfoldable pub get_block : Db B → Bytes → Outcome Bytes
  get_block db h = get_from db.blocks h

  unfoldable pub get_tip : Db B → Outcome Bytes
  get_tip db = get_from db.blocks tip_key

  -- A missing bucket is a nil pointer here and below.
  unfoldable pub update_tip : Db B → Bytes → Outcome (Db B)
  update_tip db h = do
    b ← or_panic db.blocks
    b' ← put_in b tip_key h
    ok (record db { blocks = some b' })

  unfoldable pub get_utxo : Db B → Bytes → Outcome Bytes
  get_utxo db t = get_from db.utxo t

  unfoldable pub save_utxo : Db B → Bytes → Bytes → Outcome (Db B)
  save_utxo db t d = do b ← or_panic db.utxo; b' ← put_in b t d; ok (record db { utxo = some b' })

  unfoldable pub delete_utxo : Db B → Bytes → Outcome (Db B)
  delete_utxo db t = do
    b ← or_panic db.utxo
    b' ← or_err (bb.delete b t) storage_failed
    ok (record db { utxo = some b' })

  -- The bucket is dropped, if there is one, and made anew.
  unfoldable pub clear_utxo_set : Db B → Outcome (Db B)
  clear_utxo_set db = ok (record db { utxo = some bb.empty })

  -- The copies of all entries; the caller's loop over them may stop before the end.
  unfoldable pub iterate_utxo : Db B → Outcome (List (Bytes × Bytes))
  iterate_utxo db = do b ← or_panic db.utxo; ok (bb.entries b)

  abbrev pub bolt_storage : Storage (Db B)
  bolt_storage = record {
    save_block = save_block;
    save_block_and_tip = save_block_and_tip;
    get_block = get_block;
    get_tip = get_tip;
    update_tip = update_tip;
    get_utxo = get_utxo;
    save_utxo = save_utxo;
    delete_utxo = delete_utxo;
    clear_utxo_set = clear_utxo_set;
    iterate_utxo = iterate_utxo;
  }
