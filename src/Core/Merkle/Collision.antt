-- ===== src/Core/Merkle/Collision.antt =====
-- Different lists of data with one tree.
use go_blockchain.Prelude.{◌≡◌, refl, [], ◌∷◌, Bytes}
use go_blockchain.Core.External.{Crypto}
use go_blockchain.Core.Merkle.{
  new_leaf, extra_node, pad, pad_from, pair_up, build_levels, new_merkle_tree,
}

-- For every hash function, three items have the same tree as these three and the hash of the last:
-- the node that is added behind an odd last one is that hash's leaf.
pub new_merkle_tree_collision :
    (c : Crypto) (x y z : Bytes)
    → new_merkle_tree c (x ∷ y ∷ z ∷ []) ≡ new_merkle_tree c (x ∷ y ∷ z ∷ c.sha256 z ∷ [])
unfolding new_merkle_tree build_levels pad pad_from pair_up new_leaf extra_node
new_merkle_tree_collision c x y z = refl
