-- ===== src/Storage/Bolt/Refines.antt =====
-- The bolt storage keeps the contract of `Storage`, for hashes other than the key of the tip.
use go_blockchain.Prelude.{
  ◌≡◌, refl, false, none, some, if◌then◌else◌, Bytes, bytes_equal, bytes_equal_sym, ok, err,
  >>=-eq-ok, or_err, or_panic, or_err-eq-ok, or_err-if, or_panic-eq-ok, ok_injective, sym, ap, ◌∙◌,
  not_found, storage_failed,
}
use go_blockchain.Storage.{StorageLaws, SameChain, SameUtxo}
use go_blockchain.Storage.Bolt.{
  Bbolt, BboltLaws, tip_key, Db, put_in, get_from, save_block, save_block_and_tip, get_block,
  get_tip, update_tip, save_utxo, delete_utxo, get_utxo, clear_utxo_set, bolt_storage,
}

-- A hash that does not collide with the key of the tip.
abbrev pub IsHash : Bytes → Type 0
IsHash h = bytes_equal h tip_key ≡ false

module _ {ℓ} {B : Type ℓ} (bb : Bbolt B) (laws : BboltLaws bb) where
  put_in-get_from :
      (b b' : B) (k v j : Bytes)
      → put_in bb b k v ≡ ok b'
      → get_from bb (some b') j ≡ (if bytes_equal k j then ok v else get_from bb (some b) j)
  unfolding put_in get_from
  put_in-get_from b b' k v j e =
      let put = or_err-eq-ok (bb.put b k v) storage_failed e in
      rw (laws.get-put b b' k v j put) (or_err-if (bytes_equal k j) (some v) (bb.get b j) not_found)

  delete-get_from :
      (b b' : B) (k j : Bytes)
      → bb.delete b k ≡ some b'
      → get_from bb (some b') j
        ≡ (if bytes_equal k j then err not_found else get_from bb (some b) j)
  unfolding get_from
  delete-get_from b b' k j e =
      rw (laws.get-delete b b' k j e) (or_err-if (bytes_equal k j) none (bb.get b j) not_found)

  -- Which blocks a write starts from and leaves.
  record SavedIn (db db' : Db B) (h d : Bytes) : Type ℓ where
    before : B
    after : B
    stood : db.blocks ≡ some before
    written : put_in bb before h d ≡ ok after
    result : db' ≡ record db { blocks = some after }

  save_block-SavedIn :
      (db db' : Db B) (h d : Bytes) → save_block bb db h d ≡ ok db' → SavedIn db db' h d
  unfolding save_block
  save_block-SavedIn db db' h d e =
      let (b, stood, next) = >>=-eq-ok (or_err db.blocks not_found) _ e in
      let (b', written, last) = >>=-eq-ok (put_in bb b h d) _ next in
      record {
        before = b;
        after = b';
        stood = or_err-eq-ok db.blocks not_found stood;
        written = written;
        result = ok_injective (sym last);
      }

  -- `SaveBlockAndTip` is `SaveBlock` and then `UpdateTip` in one.
  save_block_and_tip-SavedIn :
      (db db' : Db B) (h d : Bytes)
      → save_block_and_tip bb db h d ≡ ok db'
      → (mid : Db B) × SavedIn db mid h d × SavedIn mid db' tip_key h
  unfolding save_block_and_tip
  save_block_and_tip-SavedIn db db' h d e =
      let (b, stood, next) = >>=-eq-ok (or_err db.blocks not_found) _ e in
      let (b', written, next') = >>=-eq-ok (put_in bb b h d) _ next in
      let (b'', tip_written, last) = >>=-eq-ok (put_in bb b' tip_key h) _ next' in
      (
        record db { blocks = some b' },
        record {
          before = b;
          after = b';
          stood = or_err-eq-ok db.blocks not_found stood;
          written = written;
          result = refl;
        },
        record {
          before = b';
          after = b'';
          stood = refl;
          written = tip_written;
          result = ok_injective (sym last);
        },
      )

  SavedIn-get_block :
      (db db' : Db B) (h d k : Bytes)
      → SavedIn db db' h d
      → get_block bb db' k ≡ (if bytes_equal h k then ok d else get_block bb db k)
  unfolding get_block
  SavedIn-get_block db db' h d k saved =
      let result = saved.result in
      let stood = saved.stood in
      rw (result, stood) (put_in-get_from saved.before saved.after h d k saved.written)

  -- Reading the tip is reading the block under its key.
  get_tip-get_block : (db : Db B) → get_tip bb db ≡ get_block bb db tip_key
  unfolding get_tip get_block
  get_tip-get_block db = refl

  save_utxo-get_utxo :
      (db db' : Db B) (t d k : Bytes)
      → save_utxo bb db t d ≡ ok db'
      → get_utxo bb db' k ≡ (if bytes_equal t k then ok d else get_utxo bb db k)
  unfolding save_utxo get_utxo
  save_utxo-get_utxo db db' t d k e =
      let (b, stood, next) = >>=-eq-ok (or_panic db.utxo) _ e in
      let (b', written, last) = >>=-eq-ok (put_in bb b t d) _ next in
      let there = or_panic-eq-ok db.utxo stood in
      let result : db' ≡ record db { utxo = some b' } = ok_injective (sym last) in
      rw (result, there) (put_in-get_from b b' t d k written)

  delete_utxo-get_utxo :
      (db db' : Db B) (t k : Bytes)
      → delete_utxo bb db t ≡ ok db'
      → get_utxo bb db' k ≡ (if bytes_equal t k then err not_found else get_utxo bb db k)
  unfolding delete_utxo get_utxo
  delete_utxo-get_utxo db db' t k e =
      let (b, stood, next) = >>=-eq-ok (or_panic db.utxo) _ e in
      let (b', gone, last) = >>=-eq-ok (or_err (bb.delete b t) storage_failed) _ next in
      let there = or_panic-eq-ok db.utxo stood in
      let deleted = or_err-eq-ok (bb.delete b t) storage_failed gone in
      let result : db' ≡ record db { utxo = some b' } = ok_injective (sym last) in
      rw (result, there) (delete-get_from b b' t k deleted)

  clear_utxo_set-get_utxo :
      (db db' : Db B) (k : Bytes)
      → clear_utxo_set bb db ≡ ok db'
      → get_utxo bb db' k ≡ err not_found
  unfolding clear_utxo_set get_utxo get_from
  clear_utxo_set-get_utxo db db' k e =
      let result : db' ≡ record db { utxo = some bb.empty } = ok_injective (sym e) in
      rw (result, laws.get_empty k)

  SavedIn-utxo : (db db' : Db B) (h d : Bytes) → SavedIn db db' h d → db'.utxo ≡ db.utxo
  SavedIn-utxo db db' h d saved = ap (λ x. x.utxo) saved.result

  utxo-SameUtxo : (db db' : Db B) → db'.utxo ≡ db.utxo → SameUtxo (bolt_storage bb) db db'
  unfolding get_utxo
  utxo-SameUtxo db db' same k = ap (λ u. get_from bb u k) same

  blocks-SameChain : (db db' : Db B) → db'.blocks ≡ db.blocks → SameChain (bolt_storage bb) db db'
  unfolding get_block get_tip
  blocks-SameChain db db' same =
      (λ k. ap (λ b. get_from bb b k) same, ap (λ b. get_from bb b tip_key) same)

  update_tip-SavedIn :
      (db db' : Db B) (h : Bytes) → update_tip bb db h ≡ ok db' → SavedIn db db' tip_key h
  unfolding update_tip
  update_tip-SavedIn db db' h e =
      let (b, stood, next) = >>=-eq-ok (or_panic db.blocks) _ e in
      let (b', written, last) = >>=-eq-ok (put_in bb b tip_key h) _ next in
      record {
        before = b;
        after = b';
        stood = or_panic-eq-ok db.blocks stood;
        written = written;
        result = ok_injective (sym last);
      }

  blocks-save_utxo :
      (db db' : Db B) (t d : Bytes) → save_utxo bb db t d ≡ ok db' → db'.blocks ≡ db.blocks
  unfolding save_utxo
  blocks-save_utxo db db' t d e =
      let (b, stood, next) = >>=-eq-ok (or_panic db.utxo) _ e in
      let (b', written, last) = >>=-eq-ok (put_in bb b t d) _ next in
      ap (λ x. x.blocks) (ok_injective (sym last))

  blocks-delete_utxo :
      (db db' : Db B) (t : Bytes) → delete_utxo bb db t ≡ ok db' → db'.blocks ≡ db.blocks
  unfolding delete_utxo
  blocks-delete_utxo db db' t e =
      let (b, stood, next) = >>=-eq-ok (or_panic db.utxo) _ e in
      let (b', gone, last) = >>=-eq-ok (or_err (bb.delete b t) storage_failed) _ next in
      ap (λ x. x.blocks) (ok_injective (sym last))

  blocks-clear_utxo_set : (db db' : Db B) → clear_utxo_set bb db ≡ ok db' → db'.blocks ≡ db.blocks
  unfolding clear_utxo_set
  blocks-clear_utxo_set db db' e = ap (λ x. x.blocks) (ok_injective (sym e))

  -- With buckets that are maps, the bolt storage keeps the laws of a storage for all block hashes
  -- other than the key of the tip: a block that was saved is read back and the others stay;
  -- `SaveBlockAndTip` and `UpdateTip` set the tip, and neither `SaveBlock` nor a write to the UTXO set
  -- moves it; outputs are saved, deleted and cleared as in a map; writes to the UTXO set leave all
  -- blocks, and writes to the blocks and the tip leave the UTXO set.
  pub bolt_storage-StorageLaws : StorageLaws (bolt_storage bb) IsHash
  unfolding bytes_equal
  bolt_storage-StorageLaws = record {
    get_block-save_block =
        λ s s' h d k allowed e. SavedIn-get_block s s' h d k (save_block-SavedIn s s' h d e);
    get_tip-save_block = λ s s' h d allowed e.
        get_tip-get_block s'
        ∙ SavedIn-get_block s s' h d tip_key (save_block-SavedIn s s' h d e)
        ∙ rw allowed (sym (get_tip-get_block s));
    get_block-save_block_and_tip = λ s s' h d k allowed_h allowed_k e.
        let (mid, saved, tip) = save_block_and_tip-SavedIn s s' h d e in
        SavedIn-get_block mid s' tip_key h k tip
        ∙ rw (bytes_equal_sym tip_key k, allowed_k) (SavedIn-get_block s mid h d k saved);
    get_tip-save_block_and_tip = λ s s' h d e.
        let (mid, saved, tip) = save_block_and_tip-SavedIn s s' h d e in
        get_tip-get_block s' ∙ SavedIn-get_block mid s' tip_key h tip_key tip;
    get_utxo-save_utxo = λ s s' t d k e. save_utxo-get_utxo s s' t d k e;
    get_utxo-delete_utxo = λ s s' t k e. delete_utxo-get_utxo s s' t k e;
    get_utxo-clear_utxo_set = λ s s' k e. clear_utxo_set-get_utxo s s' k e;
    get_tip-update_tip = λ s s' h e.
        get_tip-get_block s'
        ∙ SavedIn-get_block s s' tip_key h tip_key (update_tip-SavedIn s s' h e);
    get_block-update_tip = λ s s' h k allowed e.
        SavedIn-get_block s s' tip_key h k (update_tip-SavedIn s s' h e)
        ∙ rw (bytes_equal_sym tip_key k, allowed) refl;
    save_block-SameUtxo =
        λ s s' h d e. utxo-SameUtxo s s' (SavedIn-utxo s s' h d (save_block-SavedIn s s' h d e));
    save_block_and_tip-SameUtxo = λ s s' h d e.
        let (mid, saved, tip) = save_block_and_tip-SavedIn s s' h d e in
        utxo-SameUtxo s s' (SavedIn-utxo mid s' tip_key h tip ∙ SavedIn-utxo s mid h d saved);
    update_tip-SameUtxo =
        λ s s' h e. utxo-SameUtxo s s' (SavedIn-utxo s s' tip_key h (update_tip-SavedIn s s' h e));
    save_utxo-SameChain = λ s s' t d e. blocks-SameChain s s' (blocks-save_utxo s s' t d e);
    delete_utxo-SameChain = λ s s' t e. blocks-SameChain s s' (blocks-delete_utxo s s' t e);
    clear_utxo_set-SameChain = λ s s' e. blocks-SameChain s s' (blocks-clear_utxo_set s s' e);
  }
