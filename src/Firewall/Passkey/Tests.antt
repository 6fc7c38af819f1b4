-- ===== src/Firewall/Passkey/Tests.antt =====
-- The theorems on signed policies at a concrete one.
use go_blockchain.Prelude.{◌≡◌, refl, [], ◌++◌, some, arith, pos, codes, ok}
use go_blockchain.Hex.{hex_encode}
use go_blockchain.Core.External.{PrivateKey, Codec}
use go_blockchain.Core.Bignum.{set_bytes, fill_bytes, low_bytes}
use go_blockchain.Core.Sample.{sample_crypto, sample_laws}
use go_blockchain.Firewall.{Policy}
use go_blockchain.Firewall.Passkey.{unsigned_policy, canonical_hash, sign_policy, load_and_verify}
use go_blockchain.Firewall.Passkey.Signed.{load_and_verify-sign_policy}

abbrev draft : Policy
draft = record {
  version = pos 1;
  session_budget = pos 1000;
  max_per_transaction = pos 400;
  rolling_24h_budget = pos 800;
  max_tx_per_hour = pos 3;
  allowed_recipients = [];
  node_grpc_address = codes "n";
  persistent_key_path = [];
  signature = [];
  signature_public_key = [];
}

abbrev key : PrivateKey
key = record { d = 1; x = 2; y = 3 }

-- With the stand-in for ECDSA, the signature of "n" by this key.
abbrev signed : Policy
signed = record draft {
  signature = hex_encode (low_bytes 32 2 ++ low_bytes 32 113);
  signature_public_key = hex_encode (low_bytes 32 2 ++ low_bytes 32 3);
}

abbrev json : Codec Policy
json = record { encode = λ p. some p.node_grpc_address; decode = λ d. some signed }

sign-draft : sign_policy sample_crypto json 0 key draft ≡ ok signed
unfolding sign_policy canonical_hash unsigned_policy set_bytes fill_bytes
sign-draft = refl

load_and_verify-sign_policy_example :
    (load_and_verify sample_crypto json (some (codes "f")) ≡ ok signed)
    × (unsigned_policy signed ≡ unsigned_policy draft)
load_and_verify-sign_policy_example =
    load_and_verify-sign_policy sample_crypto json key (sample_laws key) (omega arith) (omega arith)
      0 draft signed (codes "f") sign-draft refl

load-signed : load_and_verify sample_crypto json (some (codes "f")) ≡ ok signed
load-signed =
    (load_and_verify-sign_policy sample_crypto json key (sample_laws key) (omega arith)
      (omega arith) 0 draft signed (codes "f") sign-draft refl).0
