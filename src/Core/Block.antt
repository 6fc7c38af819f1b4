-- ===== src/Core/Block.antt =====
-- internal/core/block.go: the block and its transactions' hash. gob is a parameter; the constructor
-- `NewBlock` stands with the proof of work that it runs.
use go_blockchain.Prelude.{
  List, [], ◌∷◌, Option, none, some, ℤ, Bytes, Outcome, err, or_err, deserialize_failed,
}
use go_blockchain.Core.External.{Crypto, Codec, or_nil}
use go_blockchain.Core.Transaction.{Transaction, serialize}
use go_blockchain.Core.Merkle.{MerkleNode, node_data, new_merkle_tree}

pub record Block : Type 0 where
  pub timestamp : ℤ
  pub transactions : List Transaction
  pub prev_block_hash : Bytes
  pub hash : Bytes
  pub nonce : ℤ
  pub height : ℤ
  pub bits : ℤ
  pub authority_signature : Bytes
  pub authority_pub_key : Bytes

-- The loop over the transactions: `none` where one does not serialize.
unfoldable pub serialize_all : Crypto → Codec Transaction → List Transaction → Option (List Bytes)
serialize_all c g [] = some []
serialize_all c g (tx ∷ txs) = elim (serialize c g tx) [
  | [] ↦ none
  | b ∷ bs ↦ elim (serialize_all c g txs) [ none ↦ none | some rest ↦ some ((b ∷ bs) ∷ rest) ]
]

unfoldable pub root_data : Option MerkleNode → Bytes
root_data none = []
root_data (some n) = node_data n

-- `HashTransactions`: nil for no transactions, and where serializing fails.
unfoldable pub hash_transactions : Crypto → Codec Transaction → List Transaction → Bytes
unfolding serialize_all root_data
hash_transactions c g txs = elim (serialize_all c g txs) [
  | none ↦ []
  | some items ↦ root_data (new_merkle_tree c items)
]

-- `Serialize`: nil where encoding fails.
unfoldable pub serialize_block : Codec Block → Block → Bytes
unfolding or_nil
serialize_block g b = or_nil (g.encode b)

unfoldable pub deserialize_block : Codec Block → Bytes → Outcome Block
deserialize_block g [] = err deserialize_failed
deserialize_block g (x ∷ d) = or_err (g.decode (x ∷ d)) deserialize_failed
