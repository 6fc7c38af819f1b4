-- ===== src/Api/Tests.antt =====
-- A page of a chain of three blocks.
use go_blockchain.Prelude.{
  ℕ, ◌+◌, ◌≡◌, refl, [], ◌∷◌, none, some, if◌then◌else◌, pos, codes, bytes_equal, ok, err,
  not_found,
}
use go_blockchain.Storage.{Storage}
use go_blockchain.Core.External.{Codec}
use go_blockchain.Core.Block.{Block, deserialize_block}
use go_blockchain.Core.Pow.{draft_block}
use go_blockchain.Core.Chain.{Blockchain, blocks, blocks_from, get_block}
use go_blockchain.Api.{
  json, map_block, atoi, digits_value, unsigned_value, limit_of, offset_of, handle_blocks,
}
use go_blockchain.Api.Pages.{handle_blocks-page}

abbrev first : Block
first = record (draft_block (pos 5) [] [] (pos 0) (pos 16)) { hash = codes "a" }

abbrev second : Block
second = record (draft_block (pos 6) [] (codes "a") (pos 1) (pos 16)) { hash = codes "b" }

abbrev third : Block
third = record (draft_block (pos 7) [] (codes "b") (pos 2) (pos 16)) { hash = codes "c" }

-- A store where the data of a block are its hash.
abbrev store : Storage ℕ
store = record {
  save_block = λ s h d. ok (s + 1);
  save_block_and_tip = λ s h d. ok (s + 1);
  get_block = λ s h. ok h;
  get_tip = λ s. ok (codes "c");
  update_tip = λ s h. ok s;
  get_utxo = λ s k. err not_found;
  save_utxo = λ s k d. ok s;
  delete_utxo = λ s k. ok s;
  clear_utxo_set = λ s. ok s;
  iterate_utxo = λ s. ok [];
}

abbrev codec : Codec Block
codec = record {
  encode = λ b. some b.hash;
  decode = λ d.
      if bytes_equal d (codes "c")
      then some third
      else if bytes_equal d (codes "b")
      then some second
      else if bytes_equal d (codes "a")
      then some first
      else none;
}

abbrev chain : Blockchain ℕ
chain = record { tip = codes "c"; db = 0 }

walked : blocks store codec 5 chain ≡ some (third ∷ second ∷ first ∷ [])
unfolding blocks blocks_from get_block deserialize_block bytes_equal
walked = refl

handle_blocks-page_example :
    handle_blocks store codec 5 chain (codes "GET") (codes "1") (codes "+1")
    ≡ some (json (map_block second ∷ []))
unfolding atoi digits_value unsigned_value limit_of offset_of bytes_equal
handle_blocks-page_example =
    handle_blocks-page store codec 5 chain (codes "GET") (codes "1") (codes "+1")
      (third ∷ second ∷ first ∷ []) refl walked
