-- ===== src/Zkcp/Tests.antt =====
-- The theorems on proofs at a concrete preimage.
use go_blockchain.Prelude.{◌≡◌, ◌↔◌, true, some, pos, ◌++◌, Bytes, codes}
use go_blockchain.Core.Output.{TxOutput, script_zkcp}
use go_blockchain.Core.Sample.{hashing_crypto, hashing_sums}
use go_blockchain.Zkcp.{Proof, verify_proof}
use go_blockchain.Zkcp.Complete.{Proves, verify_proof_iff}

abbrev lock : Bytes
lock = hashing_crypto.sha256 (codes "s")

abbrev proof : Proof
proof = record {
  hash_lock = lock;
  proof_data = hashing_crypto.sha256 (lock ++ codes "s");
  public_inputs = lock;
}

abbrev output : TxOutput
output = record {
  value = pos 5;
  pub_key_hash = codes "seller";
  script_type = script_zkcp;
  data_hash_lock = lock;
  timeout_block = pos 9;
  buyer_pub_key_hash = codes "buyer";
}

verify_proof_iff_example :
    (verify_proof hashing_crypto lock (codes "s") (some proof) ≡ true)
    ↔ Proves hashing_crypto hashing_sums lock (codes "s") proof
verify_proof_iff_example =
    verify_proof_iff hashing_crypto hashing_sums lock (codes "s") proof
      (hashing_sums.sha256_bytes (codes "s")) (hashing_sums.sha256_bytes (lock ++ codes "s"))
