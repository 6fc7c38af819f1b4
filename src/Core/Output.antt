-- ===== src/Core/Output.antt =====
-- internal/core/transaction_output.go: outputs, and who may claim or refund an escrow.
use go_blockchain.Prelude.{
  ℕ, Bool, false, ◌&&◌, not, if◌then◌else◌, ◌==◌, ℤ, ltb_ℤ, Bytes, bytes_equal,
}
use go_blockchain.Core.External.{Crypto}

-- `ScriptType` is a uint8 with three named values.
abbrev pub ScriptType : Type 0
ScriptType = ℕ

abbrev pub script_p2pkh : ScriptType
script_p2pkh = 0

abbrev pub script_escrow : ScriptType
script_escrow = 1

abbrev pub script_zkcp : ScriptType
script_zkcp = 2

pub record TxOutput : Type 0 where
  pub value : ℤ
  pub pub_key_hash : Bytes
  pub script_type : ScriptType
  pub data_hash_lock : Bytes
  pub timeout_block : ℤ
  pub buyer_pub_key_hash : Bytes

unfoldable pub is_locked_with_key : TxOutput → Bytes → Bool
is_locked_with_key out pkh = bytes_equal out.pub_key_hash pkh

unfoldable pub is_buyer : TxOutput → Bytes → Bool
is_buyer out pkh = bytes_equal out.buyer_pub_key_hash pkh

module _ (c : Crypto) where
  unfoldable pub can_claim_escrow : TxOutput → Bytes → Bytes → Bool
  can_claim_escrow out delivered claimer =
      if not (out.script_type == script_escrow)
      then false
      else bytes_equal (c.sha256 delivered) out.data_hash_lock
        && bytes_equal claimer out.pub_key_hash

  unfoldable pub can_claim_zkcp : TxOutput → Bytes → Bytes → Bool
  can_claim_zkcp out delivered claimer =
      if not (out.script_type == script_zkcp)
      then false
      else bytes_equal (c.sha256 delivered) out.data_hash_lock
        && bytes_equal claimer out.pub_key_hash

unfoldable pub can_refund_escrow : TxOutput → ℤ → Bytes → Bool
can_refund_escrow out height claimer =
    if not (out.script_type == script_escrow) && not (out.script_type == script_zkcp)
    then false
    else ltb_ℤ out.timeout_block height && bytes_equal claimer out.buyer_pub_key_hash
