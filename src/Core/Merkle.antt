-- ===== src/Core/Merkle.antt =====
-- internal/core/merkle_tree.go. The loop over the levels takes fuel; `none` is a panic or the end of
-- the fuel, neither of which happens.
pub mod Levels
pub mod Collision
use go_blockchain.Prelude.{
  ℕ, zero, suc, ◌%◌, Bool, List, [], ◌∷◌, ◌++◌, map, Option, none, some, if◌then◌else◌, ◌==◌, ltb,
  Bytes, length,
}
use go_blockchain.Core.External.{Crypto}

-- A node holds its hash; a leaf's pointers are nil.
pub data MerkleNode : Type 0 where
  leaf : Bytes → MerkleNode
  branch : MerkleNode → MerkleNode → Bytes → MerkleNode

abbrev pub node_data : MerkleNode → Bytes
node_data (leaf d) = d
node_data (branch l r d) = d

module _ (c : Crypto) where
  -- `NewMerkleNode(nil, nil, data)`
  unfoldable pub new_leaf : Bytes → MerkleNode
  new_leaf d = leaf (c.sha256 d)

  -- `NewMerkleNode(&left, &right, nil)`
  unfoldable pub new_branch : MerkleNode → MerkleNode → MerkleNode
  new_branch l r = branch l r (c.sha256 (node_data l ++ node_data r))

  -- The node that is added behind an odd last node: its hash is hashed again.
  unfoldable pub extra_node : MerkleNode → MerkleNode
  extra_node n = leaf (c.sha256 (node_data n))

  -- A level made even. The last node of the list is wanted.
  unfoldable pub pad_from : MerkleNode → List MerkleNode → List MerkleNode
  pad_from n [] = n ∷ extra_node n ∷ []
  pad_from n (m ∷ ns) = n ∷ pad_from m ns

  unfoldable pub pad : List MerkleNode → List MerkleNode
  unfolding pad_from
  pad [] = []
  pad (n ∷ ns) = if length (n ∷ ns) % 2 == 0 then n ∷ ns else pad_from n ns

  -- The loop over the pairs; a node left over would be an index out of range.
  unfoldable pub pair_up : List MerkleNode → Option (List MerkleNode)
  pair_up [] = some []
  pair_up (n ∷ []) = none
  pair_up (n ∷ m ∷ ns) = elim (pair_up ns) [
    | none ↦ none
    | some level ↦ some (new_branch n m ∷ level)
  ]

  unfoldable pub build_levels : ℕ → List MerkleNode → Option MerkleNode
  build_levels fuel [] = none
  build_levels fuel (n ∷ []) = some n
  build_levels zero (n ∷ m ∷ ns) = none
  build_levels (suc fuel) (n ∷ m ∷ ns) = elim (pair_up (pad (n ∷ m ∷ ns))) [
    | none ↦ none
    | some level ↦ build_levels fuel level
  ]

  -- The root node; nil for no data.
  unfoldable pub new_merkle_tree : List Bytes → Option MerkleNode
  unfolding build_levels
  new_merkle_tree items = build_levels (length items) (map new_leaf items)
