-- ===== src/Core/External.antt =====
-- What internal/core takes from packages that it does not implement: hash functions, ECDSA on P-256
-- and gob. They are parameters of the model, with what their documentation says as laws.
use go_blockchain.Prelude.{
  ℕ, ◌<◌, ◌^◌, ◌≡◌, Bool, true, Option, none, some, Bytes, AreBytes, length, [],
}

-- ecdsa.PrivateKey: the secret number and the point of the public key.
pub record PrivateKey : Type 0 where
  pub d : ℕ
  pub x : ℕ
  pub y : ℕ

-- `ecdsa_sign` has one more argument, for the random numbers that its call draws.
pub record Crypto : Type 0 where
  pub sha256 : Bytes → Bytes
  pub ripemd160 : Bytes → Bytes
  pub ecdsa_sign : ℕ → PrivateKey → Bytes → Option (ℕ × ℕ)
  pub ecdsa_verify : ℕ → ℕ → Bytes → ℕ → ℕ → Bool

-- For a key pair, that is where the point is that of the secret number: a signature is a pair of
-- 256-bit numbers, and verifies under the public key. The theorems take it of the key that they are
-- about.
pub record SignLaws (c : Crypto) (k : PrivateKey) : Type 0 where
  pub sign_range :
      (draw : ℕ) (h : Bytes) (r s : ℕ)
      → c.ecdsa_sign draw k h ≡ some (r, s)
      → (r < 2 ^ 256) × (s < 2 ^ 256)
  pub verify_sign :
      (draw : ℕ) (h : Bytes) (r s : ℕ)
      → c.ecdsa_sign draw k h ≡ some (r, s)
      → c.ecdsa_verify k.x k.y h r s ≡ true

-- A SHA-256 sum is 32 bytes, and a RIPEMD-160 sum consists of bytes.
pub record HashLaws (c : Crypto) : Type 0 where
  pub sha256_length : (d : Bytes) → length (c.sha256 d) ≡ 32
  pub sha256_bytes : (d : Bytes) → AreBytes (c.sha256 d)
  pub ripemd160_bytes : (d : Bytes) → AreBytes (c.ripemd160 d)

-- gob for one type. Encoding may fail, and so may decoding.
pub record Codec {ℓ} (A : Type ℓ) : Type ℓ where
  pub encode : A → Option Bytes
  pub decode : Bytes → Option A

-- `Serialize`: the encoding, or nil where it fails.
unfoldable pub or_nil : Option Bytes → Bytes
or_nil none = []
or_nil (some b) = b
