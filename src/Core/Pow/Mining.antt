-- ===== src/Core/Pow/Mining.antt =====
-- What the mining loop finds.
use go_blockchain.Prelude.{
  ℕ, zero, suc, ◌+◌, ◌-◌, ◌≤◌, ◌<◌, ◌≡◌, refl, ◌∙◌, sym, ap, Bool, true, false, List, [], ◌∷◌,
  Option, none, some, arith, pos, Bytes, Outcome, ok, err, panic, Bool-cases, inl, inr, replicate,
  ◌⊎◌, subst, tx_hash_failed, ℤ, >>>-eq-ok,
}
use go_blockchain.Core.External.{Crypto, Codec}
use go_blockchain.Core.Transaction.{Transaction}
use go_blockchain.Core.Block.{Block, hash_transactions}
use go_blockchain.Core.Pow.{
  max_nonce, prepare_data, pow_hash, solves, mine_from, run, validate, new_block, add_proof,
  draft_block, or_target_bits, new_proof_of_work,
}

at_or_above : (k n : ℕ) → k ≤ n → (k ≡ n) ⊎ (k + 1 ≤ n)
at_or_above k n h = ground arith

module _ (c : Crypto) (g : Codec Transaction) where
  -- `n` is the first solution from `start` on.
  pub record IsFirst (b : Block) (tx_hash : Bytes) (start n : ℕ) : Type 0 where
    pub solution : solves c g b tx_hash (pos n) ≡ true
    pub first : (k : ℕ) → start ≤ k → k < n → solves c g b tx_hash (pos k) ≡ false

  module _ (b : Block) (tx_hash : Bytes) (is_done : ℕ → Bool) where
    -- A round ends the loop with a solution, or goes on behind a nonce that is none.
    mine_from-round :
        (fuel start : ℕ) (last : Bytes) (n : ℕ) (h : Bytes)
        → mine_from c g b tx_hash is_done (suc fuel) start last ≡ some (ok (n, h))
        → n < max_nonce
        → ((start ≡ n)
            × (pow_hash c g b (pos start) tx_hash ≡ h)
            × (solves c g b tx_hash (pos start) ≡ true))
          ⊎ ((solves c g b tx_hash (pos start) ≡ false)
              × (mine_from c g b tx_hash is_done fuel
                    (start + 1)
                    (pow_hash c g b (pos start) tx_hash)
                  ≡ some (ok (n, h))))
    unfolding mine_from
    mine_from-round fuel start last n h e below = ground arith

    mine_from-IsFirst :
        (fuel start : ℕ) (last : Bytes) (n : ℕ) (h : Bytes)
        → mine_from c g b tx_hash is_done fuel start last ≡ some (ok (n, h))
        → n < max_nonce
        → (start ≤ n) × IsFirst b tx_hash start n × (h ≡ pow_hash c g b (pos n) tx_hash)
    unfolding mine_from
    mine_from-IsFirst zero start last n h e below = cc
    mine_from-IsFirst (suc fuel) start last n h e below =
        elim (mine_from-round fuel start last n h e below) [
          | inl (same, hashed, hit) ↦ (
            omega arith,
            record { solution = rw (sym same) hit; first = λ k low high. absurd (omega arith) },
            rw (sym hashed, same),
          )
          | inr (miss, later) ↦
              let (low, is_first, hashed) = mine_from-IsFirst fuel (start + 1) _ n h later below in
              (
                omega arith,
                record {
                  solution = is_first.solution;
                  first = λ k at below_n. elim (at_or_above start k at) [
                    | inl same ↦ rw (sym same) miss
                    | inr above ↦ is_first.first k above below_n
                  ];
                },
                hashed,
              )
        ]

    mine_from-found :
        (fuel start : ℕ) (last : Bytes)
        → start < max_nonce
        → is_done start ≡ false
        → solves c g b tx_hash (pos start) ≡ true
        → mine_from c g b tx_hash is_done (suc fuel) start last
          ≡ some (ok (start, pow_hash c g b (pos start) tx_hash))
    unfolding mine_from
    mine_from-found fuel start last below running hit = ground arith

    mine_from-next :
        (fuel start : ℕ) (last : Bytes)
        → start < max_nonce
        → is_done start ≡ false
        → solves c g b tx_hash (pos start) ≡ false
        → mine_from c g b tx_hash is_done (suc fuel) start last
          ≡ mine_from c g b tx_hash is_done fuel (start + 1) (pow_hash c g b (pos start) tx_hash)
    unfolding mine_from
    mine_from-next fuel start last below running miss = ground arith

    -- A nonce that solves is reached, if the context is not done.
    mine_from_complete :
        (n : ℕ)
        → solves c g b tx_hash (pos n) ≡ true
        → n < max_nonce
        → ((k : ℕ) → is_done k ≡ false)
        → (d fuel start : ℕ) (last : Bytes) → n ≡ start + d
        → d < fuel
        → (m : ℕ) × (m ≤ n)
          × (mine_from c g b tx_hash is_done fuel start last
              ≡ some (ok (m, pow_hash c g b (pos m) tx_hash)))
    mine_from_complete n found below running d zero start last e less = absurd (omega arith)
    mine_from_complete n found below running d (suc fuel) start last e less =
        elim (Bool-cases (solves c g b tx_hash (pos start))) [
          | inl hit ↦ (
            start,
            omega arith,
            mine_from-found fuel start last (omega arith) (running start) hit,
          )
          | inr miss ↦ elim (at_or_above start n (omega arith)) [
            | inl same ↦ cc
            | inr above ↦
                let (m, low, result) =
                  mine_from_complete n found below running (d - 1) fuel (start + 1) _ (omega arith)
                    (omega arith) in
                (m, low, mine_from-next fuel start last (omega arith) (running start) miss ∙ result)
          ]
        ]

  run_cons :
      (b : Block) (is_done : ℕ → Bool) (fuel x : ℕ) (xs : Bytes)
      → hash_transactions c g b.transactions ≡ x ∷ xs
      → run c g b is_done fuel ≡ mine_from c g b (x ∷ xs) is_done fuel 0 (replicate 32 0)
  unfolding run
  run_cons b is_done fuel x xs e = rw (e, run)

  -- If the block's transactions have a hash, some nonce `n` below the bound solves the proof of work
  -- and the context is never done, then `n + 1` rounds of `Run` are enough: it returns the least
  -- nonce that solves, with that nonce's hash.
  pub run_least :
      (b : Block) (is_done : ℕ → Bool) (x : ℕ) (xs : Bytes) (n : ℕ)
      → hash_transactions c g b.transactions ≡ x ∷ xs
      → solves c g b (x ∷ xs) (pos n) ≡ true
      → n < max_nonce
      → ((k : ℕ) → is_done k ≡ false)
      → (m : ℕ) × (run c g b is_done (n + 1) ≡ some (ok (m, pow_hash c g b (pos m) (x ∷ xs))))
        × IsFirst b (x ∷ xs) 0 m
  run_least b is_done x xs n hashed found below running =
      let (m, low, mined) =
        mine_from_complete b (x ∷ xs) is_done n found below running n (n + 1) 0 (replicate 32 0)
          (omega arith) (omega arith) in
      let (_, is_first, _) =
        mine_from-IsFirst b (x ∷ xs) is_done (n + 1) 0 (replicate 32 0) m _ mined (omega arith) in
      (m, run_cons b is_done (n + 1) x xs hashed ∙ mined, is_first)

  run_hashed :
      (b : Block) (is_done : ℕ → Bool) (fuel n : ℕ) (h hashed : Bytes)
      → hash_transactions c g b.transactions ≡ hashed
      → run c g b is_done fuel ≡ some (ok (n, h))
      → n < max_nonce
      → (solves c g b hashed (pos n) ≡ true) × (h ≡ pow_hash c g b (pos n) hashed)
  unfolding run
  run_hashed b is_done fuel n h [] same e below =
      let failed : run c g b is_done fuel ≡ some (err tx_hash_failed) = rw (same, run) in absurd cc
  run_hashed b is_done fuel n h (x ∷ xs) same e below =
      let mined = sym (run_cons b is_done fuel x xs same) ∙ e in
      let (_, is_first, hashed) =
        mine_from-IsFirst b (x ∷ xs) is_done fuel 0 (replicate 32 0) n h mined below in
      (is_first.solution, hashed)

  validate-draft :
      (draft b : Block) (r : Option (Outcome (ℕ × Bytes))) (is_done : ℕ → Bool) (fuel n : ℕ)
      → run c g draft is_done fuel ≡ r
      → add_proof draft r ≡ some (ok b)
      → b.nonce ≡ pos n
      → n < max_nonce
      → (validate c g b ≡ true)
        × (b.hash ≡ pow_hash c g b b.nonce (hash_transactions c g draft.transactions))
        × (b.transactions ≡ draft.transactions)
  unfolding validate solves pow_hash prepare_data
  validate-draft draft b none is_done fuel n e proved same below = cc
  validate-draft draft b (some (ok (m, h))) is_done fuel n e proved same below =
      let proof : Block = record draft { hash = h; nonce = pos m } in
      let built : proof ≡ b = cc in
      let number : m ≡ n = cc in
      let (hit, hashed) =
        run_hashed draft is_done fuel m h (hash_transactions c g draft.transactions) refl e
          (omega arith) in
      subst
        (λ r.
          (validate c g r ≡ true)
          × (r.hash ≡ pow_hash c g r r.nonce (hash_transactions c g draft.transactions))
          × (r.transactions ≡ draft.transactions))
        built (hit, hashed, refl)
  validate-draft draft b (some (err x)) is_done fuel n e proved same below = cc
  validate-draft draft b (some panic) is_done fuel n e proved same below = cc

  -- A block that `NewBlock` returns passes `Validate`, and its hash is the hash that was tested, if
  -- the search did not come to the last nonce.
  pub new_block-validate :
      (is_done : ℕ → Bool) (fuel : ℕ) (now : ℤ) (txs : List Transaction) (prev_hash : Bytes)
      (height bits : ℤ) (b : Block) (n : ℕ)
      → new_block c g is_done fuel now txs prev_hash height bits ≡ some (ok b)
      → b.nonce ≡ pos n
      → n < max_nonce
      → (validate c g b ≡ true)
        × (b.hash ≡ pow_hash c g b b.nonce (hash_transactions c g txs))
        × (b.transactions ≡ txs)
  unfolding new_block
  new_block-validate is_done fuel now txs prev_hash height bits b n e same below =
      let draft = draft_block now txs prev_hash height bits in
      let (_, _, proved) = >>>-eq-ok (some (new_proof_of_work draft)) _ e in
      validate-draft draft b (run c g draft is_done fuel) is_done fuel n refl proved same below

  add_proof_fields :
      (draft b : Block) (r : Option (Outcome (ℕ × Bytes)))
      → add_proof draft r ≡ some (ok b)
      → (b.transactions ≡ draft.transactions)
        × (b.prev_block_hash ≡ draft.prev_block_hash)
        × (b.height ≡ draft.height)
        × (b.bits ≡ draft.bits)
  add_proof_fields draft b none e = cc
  add_proof_fields draft b (some (ok (m, h))) e =
      let built : record draft { hash = h; nonce = pos m } ≡ b = cc in
      (
        sym (ap (λ x. x.transactions) built),
        sym (ap (λ x. x.prev_block_hash) built),
        sym (ap (λ x. x.height) built),
        sym (ap (λ x. x.bits) built),
      )
  add_proof_fields draft b (some (err x)) e = cc
  add_proof_fields draft b (some panic) e = cc

  -- The fields that `NewBlock` sets from its arguments.
  pub new_block_fields :
      (is_done : ℕ → Bool) (fuel : ℕ) (now : ℤ) (txs : List Transaction) (prev_hash : Bytes)
      (height bits : ℤ) (b : Block)
      → new_block c g is_done fuel now txs prev_hash height bits ≡ some (ok b)
      → (b.transactions ≡ txs)
        × (b.prev_block_hash ≡ prev_hash)
        × (b.height ≡ height)
        × (b.bits ≡ or_target_bits bits)
  unfolding new_block
  new_block_fields is_done fuel now txs prev_hash height bits b e =
      let draft = draft_block now txs prev_hash height bits in
      let (_, _, proved) = >>>-eq-ok (some (new_proof_of_work draft)) _ e in
      add_proof_fields draft b (run c g draft is_done fuel) proved
