-- ===== src/Core/Poa.antt =====
-- internal/core/poa.go: the list of authorized keys and the blocks that an authority signs. The
-- list, a variable of the package, is an argument; its lock is left out.
pub mod Authority
use go_blockchain.Prelude.{
  ℕ, Bool, true, false, not, List, [], ◌∷◌, ◌++◌, if◌then◌else◌, ◌==◌, ℤ, pos, Bytes, bytes_equal,
  length, take, drop, Outcome, ok, ◌>>=◌, or_err, sign_failed,
}
use go_blockchain.Core.External.{Crypto, PrivateKey, Codec}
use go_blockchain.Core.Bignum.{set_bytes, fill_bytes, int_to_hex}
use go_blockchain.Core.Transaction.{Transaction}
use go_blockchain.Core.Block.{Block, hash_transactions}
use go_blockchain.Core.Pow.{draft_block}

unfoldable pub is_authorized_key : Bytes → List Bytes → Bool
is_authorized_key key [] = false
is_authorized_key key (k ∷ keys) = if bytes_equal k key then true else is_authorized_key key keys

-- `AddAuthorizedKey`: the loop returns at a duplicate.
unfoldable pub add_authorized_key : Bytes → List Bytes → List Bytes
add_authorized_key key keys = if is_authorized_key key keys then keys else keys ++ key ∷ []

unfoldable pub sign_hash : Crypto → Codec Transaction → Block → Bytes
sign_hash c g b = c.sha256 (
    b.prev_block_hash
    ++ hash_transactions c g b.transactions
    ++ int_to_hex b.timestamp
    ++ int_to_hex b.height
    ++ int_to_hex b.bits)

-- The fields that `NewBlockPoA` sets after the first ones.
abbrev pub with_authority : Block → Bytes → Bytes → Bytes → Block
with_authority b pub_key h signature = record b {
  authority_pub_key = pub_key;
  hash = h;
  authority_signature = signature;
}

-- `NewBlockPoA` at time `now`; `draw` stands for the random numbers of the signature.
unfoldable pub new_block_poa :
    Crypto
    → Codec Transaction
    → ℕ
    → ℤ
    → List Transaction
    → Bytes
    → ℤ
    → ℤ
    → PrivateKey
    → Outcome Block
new_block_poa c g draw now txs prev_hash height bits key = do
  let b = draft_block now txs prev_hash height bits
  x ← fill_bytes 32 key.x
  y ← fill_bytes 32 key.y
  let h = sign_hash c g b
  rs ← or_err (c.ecdsa_sign draw key h) sign_failed
  r ← fill_bytes 32 rs.0
  s ← fill_bytes 32 rs.1
  ok (with_authority b (x ++ y) h (r ++ s))

unfoldable pub verify_poa_block : Crypto → Codec Transaction → List Bytes → Block → Bool
verify_poa_block c g keys b =
    if not (length b.authority_signature == 64)
    then false
    else if not (length b.authority_pub_key == 64)
    then false
    else if not (is_authorized_key b.authority_pub_key keys)
    then false
    else c.ecdsa_verify (set_bytes (take 32 b.authority_pub_key))
        (set_bytes (drop 32 b.authority_pub_key)) (sign_hash c g b)
        (set_bytes (take 32 b.authority_signature)) (set_bytes (drop 32 b.authority_signature))
