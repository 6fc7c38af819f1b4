-- ===== src/Core/Merkle/Levels.antt =====
-- The tree is built for every non-empty list: no level has an odd node left over, and the levels
-- shrink to one node.
use go_blockchain.Prelude.{
  ℕ, zero, suc, ◌+◌, ◌/◌, ◌%◌, ◌≤◌, ◌<◌, ◌≡◌, refl, ◌∙◌, ap, List, [], ◌∷◌, map, some, arith, Bytes,
  length,
}
use go_blockchain.Core.External.{Crypto}
use go_blockchain.Core.Merkle.{
  MerkleNode, new_leaf, new_branch, pad_from, pad, pair_up, build_levels, new_merkle_tree,
}

length-map {ℓ κ} :
    {A : Type ℓ} {B : Type κ} (f : A → B) (xs : List A) → length (map f xs) ≡ length xs
length-map f [] = refl
length-map f (x ∷ xs) = ap suc (length-map f xs)

module _ (c : Crypto) where
  length-pad_from :
      (n : MerkleNode) (ns : List MerkleNode) → length (pad_from c n ns) ≡ length ns + 2
  unfolding pad_from
  length-pad_from n [] = omega arith
  length-pad_from n (m ∷ ns) = omega (arith, length-pad_from m ns)

  -- An even level, by at most one node longer.
  length-pad :
      (ns : List MerkleNode)
      → (length (pad c ns) % 2 ≡ 0)
        × (length ns ≤ length (pad c ns))
        × (length (pad c ns) ≤ length ns + 1)
  unfolding pad
  length-pad [] = (omega arith, omega arith, omega arith)
  length-pad (n ∷ ns) = ground (arith, length-pad_from n ns)

  pair_up_even :
      (k : ℕ) (ns : List MerkleNode)
      → length ns ≡ k + k
      → (level : List MerkleNode) × (pair_up c ns ≡ some level) × (length level ≡ k)
  unfolding pair_up
  pair_up_even k [] h = ([], refl, omega arith)
  pair_up_even k (n ∷ []) h = absurd (omega arith)
  pair_up_even zero (n ∷ m ∷ ns) h = absurd (omega arith)
  pair_up_even (suc k) (n ∷ m ∷ ns) h =
      let (level, e, l) = pair_up_even k ns (omega arith) in
      (new_branch c n m ∷ level, rw e, omega arith)

  nonempty :
      (level : List MerkleNode)
      → 1 ≤ length level
      → (n : MerkleNode) × ((ns : List MerkleNode) × (level ≡ n ∷ ns))
  nonempty [] h = absurd (omega arith)
  nonempty (n ∷ ns) h = (n, (ns, refl))

  -- A level of two or more nodes is followed by a shorter one that is not empty.
  next_level :
      (n m : MerkleNode) (ns : List MerkleNode)
      → (p : MerkleNode) × (ps : List MerkleNode) × (pair_up c (pad c (n ∷ m ∷ ns)) ≡ some (p ∷ ps))
        × (length (p ∷ ps) < length (n ∷ m ∷ ns))
  next_level n m ns =
      let padded = pad c (n ∷ m ∷ ns) in
      let (even, low, high) = length-pad (n ∷ m ∷ ns) in
      let (level, e, l) = pair_up_even (length padded / 2) padded (omega arith) in
      let (p, (ps, same)) = nonempty level (omega arith) in
      let len : length (p ∷ ps) ≡ length padded / 2 = rw same at l in
      (p, ps, e ∙ ap some same, omega (arith, len))

  build_levels-pair_up :
      (fuel : ℕ) (n m : MerkleNode) (ns level : List MerkleNode)
      → pair_up c (pad c (n ∷ m ∷ ns)) ≡ some level
      → build_levels c (suc fuel) (n ∷ m ∷ ns) ≡ build_levels c fuel level
  unfolding build_levels
  build_levels-pair_up fuel n m ns level e = rw (e, build_levels)

  build_levels_total :
      (fuel : ℕ) (n : MerkleNode) (ns : List MerkleNode)
      → length ns ≤ fuel
      → (root : MerkleNode) × (build_levels c fuel (n ∷ ns) ≡ some root)
  unfolding build_levels
  build_levels_total zero n [] h = (n, refl)
  build_levels_total (suc fuel) n [] h = (n, refl)
  build_levels_total zero n (m ∷ ns) h = absurd (omega arith)
  build_levels_total (suc fuel) n (m ∷ ns) h =
      let (p, ps, e, less) = next_level n m ns in
      let (root, built) = build_levels_total fuel p ps (omega arith) in
      (root, build_levels-pair_up fuel n m ns (p ∷ ps) e ∙ built)

  -- For every non-empty list of data `NewMerkleTree` returns a tree: no level has a node without a
  -- partner, so no index is out of range, and the loop over the levels ends.
  pub new_merkle_tree_total :
      (d : Bytes) (ds : List Bytes) → (root : MerkleNode) × (new_merkle_tree c (d ∷ ds) ≡ some root)
  unfolding new_merkle_tree
  new_merkle_tree_total d ds =
      build_levels_total (length (d ∷ ds)) (new_leaf c d) (map (new_leaf c) ds)
        (omega (arith, length-map (new_leaf c) ds))
