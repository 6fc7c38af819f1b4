-- ===== src/Network/Convert.antt =====
-- internal/network/proto_converter.go: blocks as messages of api/proto and back. The pointers are not
-- nil here.
use go_blockchain.Prelude.{
  ℕ, ◌-◌, ◌%◌, ◌<◌, ◌≤◌, ◌≡◌, refl, Bool, List, [], ◌∷◌, map, arith, if◌then◌else◌, ltb, ℤ, pos,
  negsuc, pos_part, neg_part, Bytes, All,
}
use go_blockchain.Core.Output.{TxOutput}
use go_blockchain.Core.Transaction.{TxInput, Transaction}
use go_blockchain.Core.Block.{Block}

-- 2^31 and 2^32
abbrev int32_half : ℕ
int32_half = 2147483648

abbrev int32_mod : ℕ
int32_mod = 4294967296

abbrev signed32 : ℕ → ℤ
signed32 u = if ltb u int32_half then pos u else negsuc (int32_mod - 1 - u)

-- `int32(a)`
unfoldable pub wrap32 : ℤ → ℤ
wrap32 (pos n) = signed32 (n % int32_mod)
wrap32 (negsuc n) = signed32 (int32_mod - 1 - n % int32_mod)

pub record ProtoTxInput : Type 0 where
  pub txid : Bytes
  pub vout : ℤ
  pub signature : Bytes
  pub pub_key : Bytes
  pub escrow_witness : Bytes
  pub is_refund : Bool

pub record ProtoTxOutput : Type 0 where
  pub value : ℤ
  pub pub_key_hash : Bytes
  pub script_type : ℕ
  pub data_hash_lock : Bytes
  pub timeout_block : ℤ
  pub buyer_pub_key_hash : Bytes

pub record ProtoTransaction : Type 0 where
  pub id : Bytes
  pub vin : List ProtoTxInput
  pub vout : List ProtoTxOutput

pub record ProtoBlock : Type 0 where
  pub timestamp : ℤ
  pub transactions : List ProtoTransaction
  pub prev_block_hash : Bytes
  pub hash : Bytes
  pub nonce : ℤ
  pub height : ℤ
  pub bits : ℤ
  pub authority_signature : Bytes
  pub authority_pub_key : Bytes

unfoldable pub input_to_proto : TxInput → ProtoTxInput
input_to_proto i = record {
  txid = i.txid;
  vout = wrap32 i.vout;
  signature = i.signature;
  pub_key = i.pub_key;
  escrow_witness = i.escrow_witness;
  is_refund = i.is_refund;
}

unfoldable pub output_to_proto : TxOutput → ProtoTxOutput
output_to_proto o = record {
  value = o.value;
  pub_key_hash = o.pub_key_hash;
  script_type = o.script_type;
  data_hash_lock = o.data_hash_lock;
  timeout_block = o.timeout_block;
  buyer_pub_key_hash = o.buyer_pub_key_hash;
}

unfoldable pub core_tx_to_proto : Transaction → ProtoTransaction
core_tx_to_proto tx = record {
  id = tx.id;
  vin = map input_to_proto tx.vin;
  vout = map output_to_proto tx.vout;
}

unfoldable pub input_to_core : ProtoTxInput → TxInput
input_to_core i = record {
  txid = i.txid;
  vout = i.vout;
  signature = i.signature;
  pub_key = i.pub_key;
  escrow_witness = i.escrow_witness;
  is_refund = i.is_refund;
}

-- A script type is a uint8, and a uint32 in the message.
unfoldable pub output_to_core : ProtoTxOutput → TxOutput
output_to_core o = record {
  value = o.value;
  pub_key_hash = o.pub_key_hash;
  script_type = o.script_type % 256;
  data_hash_lock = o.data_hash_lock;
  timeout_block = o.timeout_block;
  buyer_pub_key_hash = o.buyer_pub_key_hash;
}

unfoldable pub proto_tx_to_core : ProtoTransaction → Transaction
proto_tx_to_core tx = record {
  id = tx.id;
  vin = map input_to_core tx.vin;
  vout = map output_to_core tx.vout;
}

unfoldable pub core_block_to_proto : Block → ProtoBlock
core_block_to_proto b = record {
  timestamp = b.timestamp;
  transactions = map core_tx_to_proto b.transactions;
  prev_block_hash = b.prev_block_hash;
  hash = b.hash;
  nonce = wrap32 b.nonce;
  height = wrap32 b.height;
  bits = wrap32 b.bits;
  authority_signature = b.authority_signature;
  authority_pub_key = b.authority_pub_key;
}

unfoldable pub proto_block_to_core : ProtoBlock → Block
proto_block_to_core b = record {
  timestamp = b.timestamp;
  transactions = map proto_tx_to_core b.transactions;
  prev_block_hash = b.prev_block_hash;
  hash = b.hash;
  nonce = b.nonce;
  height = b.height;
  bits = b.bits;
  authority_signature = b.authority_signature;
  authority_pub_key = b.authority_pub_key;
}

-- The values of an int32, and what of a transaction has to be one or a uint8.
abbrev pub IsInt32 : ℤ → Type 0
IsInt32 a = (pos_part a < int32_half) × (neg_part a ≤ int32_half)

abbrev pub FitsInput : TxInput → Type 0
FitsInput i = IsInt32 i.vout

abbrev pub FitsOutput : TxOutput → Type 0
FitsOutput o = o.script_type < 256

abbrev pub FitsTransaction : Transaction → Type 0
FitsTransaction tx = All FitsInput tx.vin × All FitsOutput tx.vout

wrap32_exact : (a : ℤ) → IsInt32 a → wrap32 a ≡ a
unfolding wrap32
wrap32_exact (pos n) h = ground arith
wrap32_exact (negsuc n) h = ground arith

inputs_back :
    (is : List TxInput) → All FitsInput is → map input_to_core (map input_to_proto is) ≡ is
unfolding input_to_core input_to_proto
inputs_back [] h = refl
inputs_back (i ∷ is) (p, h) = rw (wrap32_exact i.vout p, inputs_back is h)

outputs_back :
    (os : List TxOutput) → All FitsOutput os → map output_to_core (map output_to_proto os) ≡ os
unfolding output_to_core output_to_proto
outputs_back [] h = refl
outputs_back (o ∷ os) (p, h) =
    let small : o.script_type % 256 ≡ o.script_type = omega arith in rw (small, outputs_back os h)

txs_back :
    (txs : List Transaction)
    → All FitsTransaction txs
    → map proto_tx_to_core (map core_tx_to_proto txs) ≡ txs
unfolding proto_tx_to_core core_tx_to_proto
txs_back [] h = refl
txs_back (tx ∷ txs) ((p, q), h) = rw (inputs_back tx.vin p, outputs_back tx.vout q, txs_back txs h)

-- A block that was converted to a message comes back as it was, if its nonce, height and bits and the
-- indices of its inputs are int32 values, and its script types are bytes.
pub proto_block_to_core-core_block_to_proto :
    (b : Block)
    → IsInt32 b.nonce
    → IsInt32 b.height
    → IsInt32 b.bits
    → All FitsTransaction b.transactions
    → proto_block_to_core (core_block_to_proto b) ≡ b
unfolding proto_block_to_core core_block_to_proto
proto_block_to_core-core_block_to_proto b n h k txs = rw (
  wrap32_exact b.nonce n,
  wrap32_exact b.height h,
  wrap32_exact b.bits k,
  txs_back b.transactions txs,
)
