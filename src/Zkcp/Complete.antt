-- ===== src/Zkcp/Complete.antt =====
-- What a proof shows, and that the prover's proofs are accepted.
use go_blockchain.Prelude.{
  ◌≡◌, refl, sym, ap, ◌∙◌, ◌↔◌, true, false, not, ◌||◌, [], ◌∷◌, ◌++◌, none, some, arith, ◌==◌,
  Bytes, bytes_equal, bytes_equal_refl, bytes_equal→eq, AreBytes, length, Bool-cases, inl, inr,
  some_injective, ◌≢◌,
}
use go_blockchain.Core.External.{Crypto, HashLaws}
use go_blockchain.Core.Output.{TxOutput, script_zkcp, can_claim_zkcp}
use go_blockchain.Hex.{hex_encode, hex_decode, hex_decode-hex_encode}
use go_blockchain.Zkcp.{Proof, generate_preimage_proof, verify_known, verify_proof}

hex_encode-injective : (a b : Bytes) → AreBytes a → AreBytes b → hex_encode a ≡ hex_encode b → a ≡ b
hex_encode-injective a b ha hb e =
    some_injective (sym (hex_decode-hex_encode a ha) ∙ ap hex_decode e ∙ hex_decode-hex_encode b hb)

same_hex : (a : Bytes) → bytes_equal (hex_encode a) (hex_encode a) ≡ true
same_hex a = bytes_equal_refl (hex_encode a)

module _ (c : Crypto) (laws : HashLaws c) where
  -- What `VerifyProof` accepts: a lock of 32 bytes, a preimage of it that is not empty, and a proof that
  -- binds the two.
  pub record Proves (lock preimage : Bytes) (proof : Proof) : Type 0 where
    pub lock_length : length lock ≡ 32
    pub filled : preimage ≢ []
    pub opens : c.sha256 preimage ≡ lock
    pub binds : proof.proof_data ≡ c.sha256 (lock ++ preimage)

  Proves→verify :
      (lock preimage : Bytes) (proof : Proof)
      → Proves lock preimage proof
      → verify_proof c lock preimage (some proof) ≡ true
  unfolding verify_proof verify_known
  Proves→verify lock [] proof p = absurd (p.filled refl)
  Proves→verify lock (x ∷ preimage) proof p =
      let size = p.lock_length in
      let opens = p.opens in
      let binds = p.binds in
      let filled : (length (x ∷ preimage) == 0) ≡ false = ground arith in
      rw (size, filled, opens, same_hex lock, binds) (same_hex (c.sha256 (lock ++ x ∷ preimage)))

  verify→Proves :
      (lock preimage : Bytes) (proof : Proof)
      → AreBytes lock
      → AreBytes proof.proof_data
      → verify_proof c lock preimage (some proof) ≡ true
      → Proves lock preimage proof
  unfolding verify_proof verify_known
  verify→Proves lock preimage proof lock_bytes proof_bytes h =
      elim (Bool-cases (not (length lock == 32) || length preimage == 0)) [
        | inl e ↦ absurd (not_true (rw e at h))
        | inr e ↦
            elim (Bool-cases (bytes_equal (hex_encode (c.sha256 preimage)) (hex_encode lock))) [
              | inr e' ↦ absurd (not_true (rw (e, e') at h))
              | inl e' ↦ record {
                lock_length = ground arith;
                filled = nonempty preimage e;
                opens =
                    hex_encode-injective _ _ (laws.sha256_bytes preimage) lock_bytes
                      (bytes_equal→eq _ _ e');
                binds =
                    hex_encode-injective _ _ proof_bytes (laws.sha256_bytes (lock ++ preimage))
                      (bytes_equal→eq _ _ (rw (e, e') at h));
              }
            ]
      ]
    where
      not_true : false ≡ true → ⊥
      not_true e = cc

      nonempty : (p : Bytes) → (not (length lock == 32) || length p == 0) ≡ false → p ≢ []
      nonempty p e same = ground arith

  -- `VerifyProof` accepts a proof exactly if the lock has 32 bytes, the preimage is not empty and has the
  -- lock for its SHA-256 sum, and the proof's data are the sum of the two together; its other fields
  -- do not count. SHA-256 gives 32 bytes.
  pub verify_proof_iff :
      (lock preimage : Bytes) (proof : Proof)
      → AreBytes lock
      → AreBytes proof.proof_data
      → (verify_proof c lock preimage (some proof) ≡ true) ↔ Proves lock preimage proof
  verify_proof_iff lock preimage proof lock_bytes proof_bytes =
      (verify→Proves lock preimage proof lock_bytes proof_bytes, Proves→verify lock preimage proof)

  -- A proof that the prover makes for a preimage is accepted for its lock, and the holder of the key that a
  -- ZKCP output is locked with can claim an output with that lock by the preimage.
  pub verify_proof-generate_preimage_proof :
      (preimage : Bytes) (proof : Proof) (out : TxOutput)
      → generate_preimage_proof c preimage ≡ some proof
      → out.script_type ≡ script_zkcp
      → out.data_hash_lock ≡ proof.hash_lock
      → (verify_proof c proof.hash_lock preimage (some proof) ≡ true)
        × (can_claim_zkcp c out preimage out.pub_key_hash ≡ true)
  unfolding generate_preimage_proof can_claim_zkcp
  verify_proof-generate_preimage_proof [] proof out made script lock = absurd (nothing made)
    where
      nothing : none ≡ some proof → ⊥
      nothing e = cc
  verify_proof-generate_preimage_proof (x ∷ preimage) proof out made script lock =
      let filled : (length (x ∷ preimage) == 0) ≡ false = ground arith in
      let same = some_injective (rw (filled, generate_preimage_proof) at made) in
      let locked : c.sha256 (x ∷ preimage) ≡ proof.hash_lock = ap (λ p. p.hash_lock) same in
      (
        Proves→verify proof.hash_lock (x ∷ preimage) proof (record {
          lock_length = rw (sym locked) (laws.sha256_length (x ∷ preimage));
          filled = λ e. absurd cc;
          opens = locked;
          binds = rw (sym locked) (ap (λ p. p.proof_data) (sym same));
        }),
        rw (script, lock, locked, bytes_equal_refl proof.hash_lock)
            (bytes_equal_refl out.pub_key_hash),
      )
