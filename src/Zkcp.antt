-- ===== src/Zkcp.antt =====
-- internal/zkcp/circuit.go: the prover and the verifier of preimage proofs.
pub mod Complete
mod Tests
use go_blockchain.Prelude.{
  Bool, true, false, ◌||◌, not, List, [], ◌∷◌, ◌++◌, Option, none, some, if◌then◌else◌, ◌==◌, Bytes,
  bytes_equal, length,
}
use go_blockchain.Core.External.{Crypto}
use go_blockchain.Hex.{hex_encode}

pub record Proof : Type 0 where
  pub hash_lock : Bytes
  pub proof_data : Bytes
  pub public_inputs : Bytes

module _ (c : Crypto) where
  -- `GeneratePreimageProof`: an empty preimage is refused.
  unfoldable pub generate_preimage_proof : Bytes → Option Proof
  generate_preimage_proof preimage =
      if length preimage == 0
      then none
      else (let lock = c.sha256 preimage in
          some (record {
            hash_lock = lock;
            proof_data = c.sha256 (lock ++ preimage);
            public_inputs = lock;
          }))

  -- `VerifyProof` of a proof that is not nil.
  unfoldable pub verify_known : Bytes → Bytes → Proof → Bool
  verify_known lock preimage proof =
      if not (bytes_equal (hex_encode (c.sha256 preimage)) (hex_encode lock))
      then false
      else bytes_equal (hex_encode proof.proof_data) (hex_encode (c.sha256 (lock ++ preimage)))

  unfoldable pub verify_proof : Bytes → Bytes → Option Proof → Bool
  verify_proof lock preimage none = false
  verify_proof lock preimage (some proof) =
      if not (length lock == 32) || length preimage == 0
      then false
      else verify_known lock preimage proof
