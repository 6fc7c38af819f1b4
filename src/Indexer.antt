-- ===== src/Indexer.antt =====
-- internal/indexer: the store of escrows, services and recent blocks, and what a block does to it.
-- Ids are kept as they are, where the source spells them in hex, and a key of the store of escrows is
-- the id and the byte of the index behind it. An escrow of the store is shared by pointer and always
-- saved under its own key, so that a copy does the same. Times are numbers.
pub mod Lifecycle
pub mod Overdue
mod Tests
use go_blockchain.Prelude.{
  ℕ, ◌+◌, ◌-◌, ◌%◌, Bool, true, false, ◌||◌, not, List, [], ◌∷◌, ◌++◌, Option, none, some,
  if◌then◌else◌, ◌==◌, ltb, ℤ, pos, negsuc, leb_ℤ, add64, Bytes, Assoc, lookup, insert, length,
  take, Outcome, ok, err, invalid_address, invalid_service,
}
use go_blockchain.Core.External.{Crypto}
use go_blockchain.Core.Output.{TxOutput, script_escrow, script_zkcp}
use go_blockchain.Core.Transaction.{Transaction, TxInput}
use go_blockchain.Core.Block.{Block}
use go_blockchain.Core.Wallet.{validate_address}
use go_blockchain.Core.Utxo.{append_to}

pub data EscrowStatus : Type 0 where
  pending claimed refunded expired : EscrowStatus

pub record IndexedEscrow : Type 0 where
  pub tx_id : Bytes
  pub vout : ℤ
  pub amount : ℤ
  pub seller_pub_key_hash : Bytes
  pub buyer_pub_key_hash : Bytes
  pub data_hash_lock : Bytes
  pub timeout_block : ℤ
  pub status : EscrowStatus
  pub created_at_height : ℤ
  pub claimed_tx_id : Bytes
  pub preimage : Bytes
  pub refunded_tx_id : Bytes

pub record AgentService : Type 0 where
  pub service_id : Bytes
  pub agent_address : Bytes
  pub name : Bytes
  pub description : Bytes
  pub endpoint_url : Bytes
  pub price_per_call : ℤ
  pub registered_at : ℤ
  pub active : Bool

pub record Metrics : Type 0 where
  pub total_blocks_indexed : ℤ
  pub total_tx_count : ℤ
  pub total_escrows_count : ℤ
  pub total_volume : ℤ

pub record RecentBlock : Type 0 where
  pub height : ℤ
  pub hash : Bytes
  pub tx_count : ℕ
  pub timestamp : ℤ

pub record IndexStore : Type 0 where
  pub escrows : Assoc IndexedEscrow
  pub services : Assoc AgentService
  pub agent_services : Assoc (List Bytes)
  pub recent_blocks : List RecentBlock
  pub metrics : Metrics
  pub latest_height : ℤ

abbrev pub new_index_store : IndexStore
new_index_store = record {
  escrows = [];
  services = [];
  agent_services = [];
  recent_blocks = [];
  metrics = record {
    total_blocks_indexed = pos 0;
    total_tx_count = pos 0;
    total_escrows_count = pos 0;
    total_volume = pos 0;
  };
  latest_height = pos 0;
}

-- `byte(vout)`
unfoldable pub byte_of : ℤ → ℕ
byte_of (pos n) = n % 256
byte_of (negsuc n) = 255 - n % 256

unfoldable pub escrow_key : Bytes → ℤ → Bytes
escrow_key tx_id vout = byte_of vout ∷ tx_id

-- `_, exists := s.escrows[key]`
abbrev pub is_key {ℓ} : {V : Type ℓ} → Bytes → Assoc V → Bool
is_key k m = elim (lookup k m) [ none ↦ false | some v ↦ true ]

unfoldable pub save_escrow : IndexedEscrow → IndexStore → IndexStore
save_escrow e s =
    let key = escrow_key e.tx_id e.vout in
    let counted =
      if is_key key s.escrows
      then s.metrics
      else record s.metrics { total_escrows_count = add64 s.metrics.total_escrows_count (pos 1) } in
    record s { metrics = counted; escrows = insert key e s.escrows }

unfoldable pub get_escrow : Bytes → ℤ → IndexStore → Option IndexedEscrow
get_escrow tx_id vout s = lookup (escrow_key tx_id vout) s.escrows

abbrev pub is_pending : EscrowStatus → Bool
is_pending pending = true
is_pending _ = false

unfoldable pub pending_in : Assoc IndexedEscrow → List IndexedEscrow
pending_in [] = []
pending_in ((k, e) ∷ m) = let rest = pending_in m in if is_pending e.status then e ∷ rest else rest

unfoldable pub get_active_escrows : IndexStore → List IndexedEscrow
get_active_escrows s = pending_in s.escrows

unfoldable pub save_service : AgentService → IndexStore → IndexStore
save_service srv s = record s {
  services = insert srv.service_id srv s.services;
  agent_services = append_to srv.agent_address srv.service_id s.agent_services;
}

unfoldable pub get_service : Bytes → IndexStore → Option AgentService
get_service id s = lookup id s.services

unfoldable pub active_in : Assoc AgentService → List AgentService
active_in [] = []
active_in ((k, srv) ∷ m) = let rest = active_in m in if srv.active then srv ∷ rest else rest

unfoldable pub list_services : IndexStore → List AgentService
list_services s = active_in s.services

unfoldable pub update_metrics : ℤ → ℤ → ℤ → IndexStore → IndexStore
update_metrics height tx_count volume s = record s {
  latest_height = height;
  metrics = record s.metrics {
    total_blocks_indexed = add64 s.metrics.total_blocks_indexed (pos 1);
    total_tx_count = add64 s.metrics.total_tx_count tx_count;
    total_volume = add64 s.metrics.total_volume volume;
  };
}

unfoldable pub save_block : RecentBlock → IndexStore → IndexStore
save_block blk s =
    let all = blk ∷ s.recent_blocks in
    record s { recent_blocks = if ltb 20 (length all) then take 20 all else all }

-- An output: its value counts, and an escrow is saved as pending.
unfoldable pub index_output : ℤ → Bytes → ℕ → TxOutput → IndexStore → IndexStore
index_output height tx_id i out s =
    if out.script_type == script_escrow || out.script_type == script_zkcp
    then save_escrow
        (record {
          tx_id = tx_id;
          vout = pos i;
          amount = out.value;
          seller_pub_key_hash = out.pub_key_hash;
          buyer_pub_key_hash = out.buyer_pub_key_hash;
          data_hash_lock = out.data_hash_lock;
          timeout_block = out.timeout_block;
          status = pending;
          created_at_height = height;
          claimed_tx_id = [];
          preimage = [];
          refunded_tx_id = [];
        })
        s
    else s

unfoldable pub index_outputs : ℤ → Bytes → ℕ → List TxOutput → IndexStore × ℤ → IndexStore × ℤ
index_outputs height tx_id i [] state = state
index_outputs height tx_id i (out ∷ outs) (s, volume) =
    index_outputs height tx_id (i + 1) outs
      (index_output height tx_id i out s, add64 volume out.value)

-- What an input makes of the escrow that it names.
unfoldable pub settled : Bytes → TxInput → IndexedEscrow → Option IndexedEscrow
settled tx_id vin e =
    if ltb 0 (length vin.escrow_witness)
    then some (record e { status = claimed; claimed_tx_id = tx_id; preimage = vin.escrow_witness })
    else if vin.is_refund
    then some (record e { status = refunded; refunded_tx_id = tx_id })
    else none

abbrev pub save_settled : Option IndexedEscrow → IndexStore → IndexStore
save_settled none s = s
save_settled (some e) s = save_escrow e s

unfoldable pub index_input : Bytes → TxInput → IndexStore → IndexStore
index_input tx_id vin s = elim (get_escrow vin.txid vin.vout s) [
  | none ↦ s
  | some e ↦ save_settled (settled tx_id vin e) s
]

unfoldable pub index_inputs : Bytes → List TxInput → IndexStore → IndexStore
index_inputs tx_id [] s = s
index_inputs tx_id (vin ∷ rest) s = index_inputs tx_id rest (index_input tx_id vin s)

unfoldable pub index_txs : ℤ → List Transaction → IndexStore × ℤ → IndexStore × ℤ
index_txs height [] state = state
index_txs height (tx ∷ txs) state =
    let (s, volume) = index_outputs height tx.id 0 tx.vout state in
    index_txs height txs (index_inputs tx.id tx.vin s, volume)

-- The loop over the active escrows.
unfoldable pub expire : ℤ → IndexedEscrow → IndexStore → IndexStore
expire height e s =
    if leb_ℤ e.timeout_block height then save_escrow (record e { status = expired }) s else s

unfoldable pub expire_all : ℤ → List IndexedEscrow → IndexStore → IndexStore
expire_all height [] s = s
expire_all height (e ∷ es) s = expire_all height es (expire height e s)

unfoldable pub process_block : Block → IndexStore → IndexStore
process_block b s =
    let (indexed, volume) = index_txs b.height b.transactions (s, pos 0) in
    let swept = expire_all b.height (get_active_escrows indexed) indexed in
    let saved =
      save_block
        (record {
          height = b.height;
          hash = b.hash;
          tx_count = length b.transactions;
          timestamp = b.timestamp;
        })
        swept in
    update_metrics b.height (pos (length b.transactions)) volume saved

-- `RegisterServiceOffer`; the id, which spells the name and the clock, and the time are arguments.
unfoldable pub register_service_offer :
    Crypto
    → Bytes
    → ℤ
    → Bytes
    → Bytes
    → Bytes
    → Bytes
    → ℤ
    → IndexStore
    → Outcome (AgentService × IndexStore)
register_service_offer c id now agent name description url price s =
    if not (validate_address c agent)
    then err invalid_address
    else if length name == 0 || length url == 0 || leb_ℤ price (pos 0)
    then err invalid_service
    else let srv : AgentService = record {
      service_id = id;
      agent_address = agent;
      name = name;
      description = description;
      endpoint_url = url;
      price_per_call = price;
      registered_at = now;
      active = true;
    } in
      ok (srv, save_service srv s)
