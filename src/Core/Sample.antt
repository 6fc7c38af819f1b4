-- ===== src/Core/Sample.antt =====
-- Concrete stand-ins for the packages that the model takes as parameters, for the examples: they
-- meet the laws, and have nothing of the security of the real ones.
use go_blockchain.Prelude.{ℕ, ◌+◌, ◌%◌, ◌&&◌, ◌==◌, List, [], ◌∷◌, ◌++◌, some, arith, Bytes}
use go_blockchain.Core.External.{Crypto, PrivateKey, SignLaws, HashLaws, Codec}
use go_blockchain.Core.Bignum.{set_bytes, low_bytes, length-low_bytes, low_bytes-AreBytes}
use go_blockchain.Core.Transaction.{Transaction, TxInput}

-- 2^256
abbrev pub p256_mod : ℕ
p256_mod = 115792089237316195423570985008687907853269984665640564039457584007913129639936

abbrev pub sample_crypto : Crypto
sample_crypto = record {
  sha256 = λ b. b;
  ripemd160 = λ b. b;
  ecdsa_sign = λ draw k h. some (k.x % p256_mod, (k.y + set_bytes h) % p256_mod);
  ecdsa_verify = λ x y h r s. (r == x % p256_mod) && (s == (y + set_bytes h) % p256_mod);
}

pub sample_laws : (k : PrivateKey) → SignLaws sample_crypto k
sample_laws k = record {
  sign_range = λ draw h r s e. ground arith;
  verify_sign = λ draw h r s e. ground arith;
}

abbrev input_bytes : List TxInput → Bytes
input_bytes [] = []
input_bytes (i ∷ is) = i.pub_key ++ input_bytes is

abbrev pub sample_tx_codec : Codec Transaction
sample_tx_codec = record {
  encode = λ tx. some (input_bytes tx.vin);
  decode = λ b. some (record { id = b; vin = []; vout = [] });
}

-- The same with checksums of the right length for the hash functions.
abbrev pub hashing_crypto : Crypto
hashing_crypto = record sample_crypto {
  sha256 = λ b. low_bytes 32 (set_bytes b);
  ripemd160 = λ b. low_bytes 20 (set_bytes b);
}

pub hashing_laws : (k : PrivateKey) → SignLaws hashing_crypto k
hashing_laws k = record {
  sign_range = λ draw h r s e. ground arith;
  verify_sign = λ draw h r s e. ground arith;
}

pub hashing_sums : HashLaws hashing_crypto
hashing_sums = record {
  sha256_length = λ d. length-low_bytes 32 (set_bytes d);
  sha256_bytes = λ d. low_bytes-AreBytes 32 (set_bytes d);
  ripemd160_bytes = λ d. low_bytes-AreBytes 20 (set_bytes d);
}
