-- ===== src/Firewall/Passkey.antt =====
-- internal/firewall/passkey.go, and `CanonicalHash` and `LoadAndVerify` of policy.go: policies that
-- are signed. encoding/json is a parameter; the content of a file is an argument.
pub mod Signed
mod Tests
use go_blockchain.Prelude.{
  ℕ, Bool, true, false, not, ◌||◌, List, [], ◌∷◌, ◌++◌, Option, none, some, if◌then◌else◌, ◌==◌,
  Bytes, length, take, drop, Outcome, ok, err, panic, ◌>>=◌, or_err, sign_failed, serialize_failed,
  deserialize_failed, storage_failed,
}
use go_blockchain.Hex.{hex_encode, hex_decode}
use go_blockchain.Core.External.{Crypto, PrivateKey, Codec}
use go_blockchain.Core.Bignum.{set_bytes, fill_bytes}
use go_blockchain.Firewall.{Policy}

-- Why a signature is not accepted.
pub data SignatureError : Type 0 where
  missing invalid_signature_format invalid_key_format no_hash verification_failed : SignatureError

-- The copy that is hashed.
unfoldable pub unsigned_policy : Policy → Policy
unsigned_policy p = record p { signature = []; signature_public_key = [] }

-- A decoded field of 64 bytes.
abbrev pub sixty_four : Option Bytes → Option Bytes
sixty_four none = none
sixty_four (some b) = if length b == 64 then some b else none

module _ (c : Crypto) (json : Codec Policy) where
  unfoldable pub canonical_hash : Policy → Outcome Bytes
  canonical_hash p =
      or_err (json.encode (unsigned_policy p)) serialize_failed >>= λ d. ok (c.sha256 d)

  -- `SignPolicy`; `draw` stands for the random numbers of the signature.
  unfoldable pub sign_policy : ℕ → PrivateKey → Policy → Outcome Policy
  sign_policy draw key p = do
    h ← canonical_hash p
    rs ← or_err (c.ecdsa_sign draw key h) sign_failed
    r ← fill_bytes 32 rs.0
    s ← fill_bytes 32 rs.1
    x ← fill_bytes 32 key.x
    y ← fill_bytes 32 key.y
    ok (record p { signature = hex_encode (r ++ s); signature_public_key = hex_encode (x ++ y) })

  -- The test with the decoded signature and key.
  unfoldable pub verify_decoded : Bytes → Bytes → Outcome Bytes → Option SignatureError
  verify_decoded sig key (ok h) =
      if c.ecdsa_verify (set_bytes (take 32 key)) (set_bytes (drop 32 key)) h
        (set_bytes (take 32 sig)) (set_bytes (drop 32 sig))
      then none
      else some verification_failed
  verify_decoded sig key (err e) = some no_hash
  verify_decoded sig key panic = some no_hash

  abbrev pub verify_key : Policy → Bytes → Option Bytes → Option SignatureError
  verify_key p sig none = some invalid_key_format
  verify_key p sig (some key) = verify_decoded sig key (canonical_hash p)

  abbrev pub verify_signature : Policy → Option Bytes → Option SignatureError
  verify_signature p none = some invalid_signature_format
  verify_signature p (some sig) = verify_key p sig (sixty_four (hex_decode p.signature_public_key))

  -- `VerifyPolicySignature`: the error, if there is one.
  unfoldable pub verify_policy_signature : Policy → Option SignatureError
  verify_policy_signature p =
      if length p.signature == 0 || length p.signature_public_key == 0
      then some missing
      else verify_signature p (sixty_four (hex_decode p.signature))

  abbrev pub or_locked : Policy → Option SignatureError → Outcome Policy
  or_locked p none = ok p
  or_locked p (some why) = panic

  -- `LoadAndVerify` on the content of the file, if it can be read.
  unfoldable pub load_and_verify : Option Bytes → Outcome Policy
  load_and_verify content = do
    d ← or_err content storage_failed
    p ← or_err (json.decode d) deserialize_failed
    if length p.signature == 0 || length p.signature_public_key == 0
        then panic
        else or_locked p (verify_policy_signature p)
