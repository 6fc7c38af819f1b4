-- ===== src/Network.antt =====
-- internal/network/server.go: the state of a node, what it sends and how it handles a request. The
-- steps run one after another, and what was sent is part of the state. Which nodes answer a call, the
-- clock, random numbers and the end of a context, with `miningCancel`, are arguments; metrics and logs
-- are left out. A subscription is its number with the blocks in its buffer.
pub mod Chaos
pub mod Convert
pub mod Handlers
pub mod Peers
pub mod Requests
pub mod Rpc
mod Tests
pub mod Included
pub mod Mempool
use go_blockchain.Prelude.{
  ℕ, zero, suc, ◌+◌, ◌-◌, Bool, true, false, ◌&&◌, ◌||◌, not, List, [], ◌∷◌, ◌++◌, Option, none,
  some, if◌then◌else◌, ◌==◌, ltb, ℤ, pos, ltb_ℤ, ◌==ℤ◌, Bytes, bytes_equal, codes, Assoc, lookup,
  insert, delete, length, take, drop, replicate, Outcome, ok, err, panic, ◌>>=◌, or_err, Running,
  ◌>>>◌, in_mempool, invalid_transaction, Error,
}
use go_blockchain.Storage.{Storage}
use go_blockchain.Core.External.{Crypto, Codec, or_nil}
use go_blockchain.Core.Output.{TxOutput}
use go_blockchain.Core.Transaction.{Transaction, serialize}
use go_blockchain.Core.Block.{Block, serialize_block, deserialize_block}
use go_blockchain.Core.Chain.{Blockchain, get_block, get_best_height, add_block, get_block_hashes}
use go_blockchain.Core.Chain.Transactions.{verify_transaction, mine_block}
use go_blockchain.Core.Utxo.{reindex, is_not_found}
use go_blockchain.Core.Payments.{new_coinbase_tx}

abbrev pub command_length : ℕ
command_length = 12

abbrev pub node_version : ℤ
node_version = pos 1

abbrev pub max_msg_size : ℕ
max_msg_size = 33554432

-- The payloads, by the names of the structs; `addr` is a list of addresses.
pub record BlockMsg : Type 0 where
  pub addr_from : Bytes
  pub block : Bytes

pub record GetData : Type 0 where
  pub addr_from : Bytes
  pub kind : Bytes
  pub id : Bytes

pub record Inv : Type 0 where
  pub addr_from : Bytes
  pub kind : Bytes
  pub items : List Bytes

pub record TxMsg : Type 0 where
  pub add_from : Bytes
  pub transaction : Bytes

pub record Verzion : Type 0 where
  pub version : ℤ
  pub best_height : ℤ
  pub addr_from : Bytes

pub record Wire : Type 0 where
  pub addr : Codec (List Bytes)
  pub block : Codec BlockMsg
  pub getblocks : Codec Bytes
  pub getdata : Codec GetData
  pub inv : Codec Inv
  pub tx : Codec TxMsg
  pub version : Codec Verzion

pub record Server {ℓ} (S : Type ℓ) : Type ℓ where
  pub node_address : Bytes
  pub mining_address : Bytes
  pub known_nodes : List Bytes
  pub blocks_in_transit : List Bytes
  pub mempool : Assoc Transaction
  pub bc : Blockchain S
  pub block_subscribers : List (ℕ × List Block)
  pub sent : List (Bytes × Bytes)

-- The packages and arguments of a run. `authorized_keys` are the global ones of internal/core.
pub record Env {ℓ} (S : Type ℓ) : Type ℓ where
  pub st : Storage S
  pub bg : Codec Block
  pub c : Crypto
  pub g : Codec Transaction
  pub og : Codec (List TxOutput)
  pub wire : Wire
  pub reach : Bytes → Bool
  pub authorized_keys : List Bytes
  pub fuel : ℕ
  pub is_done : ℕ → Bool
  pub now : ℕ → ℤ
  pub random : ℕ → Outcome Bytes

-- `commandToBytes`: a longer command panics.
unfoldable pub command_to_bytes : Bytes → Outcome Bytes
command_to_bytes command =
    if ltb command_length (length command)
    then panic
    else ok (command ++ replicate (command_length - length command) 0)

unfoldable pub bytes_to_command : Bytes → Bytes
bytes_to_command [] = []
bytes_to_command (b ∷ bs) = let rest = bytes_to_command bs in if b == 0 then rest else b ∷ rest

unfoldable pub node_is_known : Bytes → List Bytes → Bool
node_is_known addr [] = false
node_is_known addr (node ∷ nodes) = if bytes_equal node addr then true else node_is_known addr nodes

-- `updatedNodes` of `sendData`, and the loop of `handleInv` over the hashes.
unfoldable pub without_bytes : Bytes → List Bytes → List Bytes
without_bytes b [] = []
without_bytes b (x ∷ xs) =
    let rest = without_bytes b xs in if bytes_equal x b then rest else x ∷ rest

unfoldable pub add_node : Bytes → List Bytes → List Bytes
add_node addr nodes = if node_is_known addr nodes then nodes else nodes ++ addr ∷ []

unfoldable pub add_nodes : List Bytes → List Bytes → List Bytes
add_nodes [] nodes = nodes
add_nodes (addr ∷ addrs) nodes = add_nodes addrs (add_node addr nodes)

-- A send on a channel with room for ten blocks, or none where it is full.
unfoldable pub notify_subscriber : Block → ℕ × List Block → ℕ × List Block
notify_subscriber b (channel, buffered) =
    if ltb (length buffered) 10 then (channel, buffered ++ b ∷ []) else (channel, buffered)

unfoldable pub notify_subscribers : Block → List (ℕ × List Block) → List (ℕ × List Block)
notify_subscribers b [] = []
notify_subscribers b (sub ∷ subs) = notify_subscriber b sub ∷ notify_subscribers b subs

unfoldable pub remove_subscriber : ℕ → List (ℕ × List Block) → List (ℕ × List Block)
remove_subscriber channel [] = []
remove_subscriber channel ((other, buffered) ∷ subs) =
    let rest = remove_subscriber channel subs in
    if other == channel then subs else (other, buffered) ∷ rest

unfoldable pub delete_txs : List Transaction → Assoc Transaction → Assoc Transaction
delete_txs [] pool = pool
delete_txs (tx ∷ txs) pool = delete_txs txs (delete tx.id pool)

module _ {ℓ} {S : Type ℓ} (env : Env S) where
  unfoldable pub send_data : Bytes → Bytes → Server S → Server S
  send_data addr request s =
      if env.reach addr
      then record s { sent = s.sent ++ (addr, request) ∷ [] }
      else record s { known_nodes = without_bytes addr s.known_nodes }

  unfoldable pub send : Bytes → Option Bytes → Bytes → Server S → Outcome (Server S)
  send command encoded addr s =
      command_to_bytes command >>= λ head. ok (send_data addr (head ++ or_nil encoded) s)

  unfoldable pub send_block : Bytes → Block → Server S → Outcome (Server S)
  send_block addr b s =
      send (codes "block")
        (env.wire.block.encode
          (record { addr_from = s.node_address; block = serialize_block env.bg b }))
        addr s

  unfoldable pub send_inv : Bytes → Bytes → List Bytes → Server S → Outcome (Server S)
  send_inv addr kind items s =
      send (codes "inv")
        (env.wire.inv.encode (record { addr_from = s.node_address; kind = kind; items = items }))
        addr s

  unfoldable pub send_get_blocks : Bytes → Server S → Outcome (Server S)
  send_get_blocks addr s =
      send (codes "getblocks") (env.wire.getblocks.encode s.node_address) addr s

  unfoldable pub send_get_data : Bytes → Bytes → Bytes → Server S → Outcome (Server S)
  send_get_data addr kind id s =
      send (codes "getdata")
        (env.wire.getdata.encode (record { addr_from = s.node_address; kind = kind; id = id })) addr
        s

  unfoldable pub send_tx : Bytes → Transaction → Server S → Outcome (Server S)
  send_tx addr tx s =
      send (codes "tx")
        (env.wire.tx.encode
          (record { add_from = s.node_address; transaction = serialize env.c env.g tx }))
        addr s

  unfoldable pub send_version : Bytes → Server S → Outcome (Server S)
  send_version addr s = elim (get_best_height env.st env.bg s.bc) [
    | ok height ↦
        send (codes "version")
          (env.wire.version.encode
            (record { version = node_version; best_height = height; addr_from = s.node_address }))
          addr s
    | err e ↦ ok s
    | panic ↦ panic
  ]

  -- The loops over a copy of the known nodes; `except` are the addresses that are passed over.
  unfoldable pub send_inv_to :
      List Bytes → List Bytes → Bytes → Bytes → Server S → Outcome (Server S)
  send_inv_to [] except kind item s = ok s
  send_inv_to (node ∷ nodes) except kind item s =
      (if node_is_known node except then ok s else send_inv node kind (item ∷ []) s) >>= λ s'.
      send_inv_to nodes except kind item s'

  unfoldable pub request_from : List Bytes → Server S → Outcome (Server S)
  request_from [] s = ok s
  request_from (node ∷ nodes) s = send_get_blocks node s >>= λ s'. request_from nodes s'

  unfoldable pub request_blocks : Server S → Outcome (Server S)
  request_blocks s = request_from s.known_nodes s

  unfoldable pub handle_addr : Bytes → Server S → Outcome (Server S)
  handle_addr payload s = elim (env.wire.addr.decode payload) [
    | none ↦ ok s
    | some addrs ↦ request_blocks (record s { known_nodes = add_nodes addrs s.known_nodes })
  ]

  unfoldable pub notify_block : Block → Server S → Server S
  notify_block b s = record s { block_subscribers = notify_subscribers b s.block_subscribers }

  -- The node behind `Reindex`, with its error if it fails.
  unfoldable pub reindexed : Server S → Running (Server S × Option Error)
  reindexed s = reindex env.st env.og env.bg env.fuel s.bc >>> λ r.
      some (ok (record s { bc = record s.bc { db = r.0 } }, r.1))

  -- The handlers log the error and go on.
  unfoldable pub reindexed_or_logged : Server S → Running (Server S)
  reindexed_or_logged s = reindexed s >>> λ r. some (ok r.0)

  -- `handleBlock` asks for the next block in transit, and rebuilds the UTXO set behind the last.
  unfoldable pub next_in_transit : Bytes → List Bytes → Server S → Running (Server S)
  next_in_transit from [] s = reindexed_or_logged s
  next_in_transit from (hash ∷ rest) s =
      some (send_get_data from (codes "block") hash (record s { blocks_in_transit = rest }))

  -- The rest of `handleBlock` behind `AddBlock`.
  unfoldable pub block_added : Bytes → Block → Server S → Running (Server S)
  block_added from b s =
      next_in_transit from s.blocks_in_transit
        (record (notify_block b s) { mempool = delete_txs b.transactions s.mempool })

  unfoldable pub add_received : Bytes → Block → Server S → Running (Server S)
  add_received from b s = elim (add_block env.st env.bg env.c env.g env.authorized_keys s.bc b) [
    | ok bc ↦ block_added from b (record s { bc = bc })
    | err e ↦ some (ok s)
    | panic ↦ some panic
  ]

  unfoldable pub handle_block : Bytes → Server S → Running (Server S)
  handle_block payload s = elim (env.wire.block.decode payload) [
    | none ↦ some (ok s)
    | some msg ↦ elim (deserialize_block env.bg msg.block) [
      | ok b ↦ add_received msg.addr_from b s
      | err e ↦ some (ok s)
      | panic ↦ some panic
    ]
  ]
