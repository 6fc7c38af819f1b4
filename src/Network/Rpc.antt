-- ===== src/Network/Rpc.antt =====
-- internal/network/grpc_server.go: what the gRPC service does to its node. The transport is left out; a
-- response carries the reason for a refusal in place of its text. A call that changes the node is a
-- step of the node.
pub mod Balance
pub mod Minting
pub mod Submitting
mod Tests
use go_blockchain.Prelude.{
  ℕ, zero, suc, ◌+◌, ◌-◌, ◌/◌, ◌%◌, Bool, true, false, not, ◌||◌, List, [], ◌∷◌, ◌++◌, map, Option,
  none, some, if◌then◌else◌, ◌==◌, ltb, ℤ, pos, negsuc, pos_part, add64, ltb_ℤ, leb_ℤ, Bytes, codes,
  length, take, drop, Outcome, ok, err, panic, ◌>>=◌, Running, ◌>>>◌, Error, invalid_address,
}
use go_blockchain.Hex.{hex_encode}
use go_blockchain.Storage.{Storage}
use go_blockchain.Core.External.{PrivateKey}
use go_blockchain.Core.Output.{TxOutput, script_escrow}
use go_blockchain.Core.Transaction.{Transaction, TxInput, serialize, hash}
use go_blockchain.Core.Block.{Block, deserialize_block}
use go_blockchain.Core.Poa.{new_block_poa}
use go_blockchain.Core.Base58.{base58_decode}
use go_blockchain.Core.Wallet.{validate_address, address_checksum_len, new_tx_output}
use go_blockchain.Core.Chain.{Blockchain, add_block, blocks, get_best_height}
use go_blockchain.Core.Utxo.{UtxoItem, find_utxo, find_utxo_items}
use go_blockchain.Firewall.{max_transaction_value_limit}
use go_blockchain.Network.{Env, Server, notify_block, reindexed, send_inv_to}
use go_blockchain.Network.Handlers.{submit_transaction}
use go_blockchain.Network.Convert.{
  ProtoTransaction, ProtoBlock, proto_tx_to_core, core_block_to_proto, wrap32,
}

-- core.MaxTransactionSizeLimitBytes
abbrev pub max_transaction_size_limit_bytes : ℕ
max_transaction_size_limit_bytes = 1048576

-- Why a call is refused.
pub data Refusal : Type 0 where
  empty_transaction not_positive over_mint_limit bad_target no_authority_key : Refusal
  over_size : ℕ → Refusal
  over_value : ℤ → Refusal
  rejected : Error → Refusal
  no_tip no_last_block bad_last_block no_block not_added not_reindexed : Error → Refusal

-- `Success` with the id, or the error.
pub data RpcResponse : Type 0 where
  success : Bytes → RpcResponse
  refused : Refusal → RpcResponse

-- The loop over the outputs: the first value above the limit.
unfoldable pub over_value_limit : List TxOutput → Option ℤ
over_value_limit [] = none
over_value_limit (out ∷ outs) =
    if ltb_ℤ max_transaction_value_limit out.value then some out.value else over_value_limit outs

pub record MintRequest : Type 0 where
  pub address : Bytes
  pub amount : ℤ

-- The decimal digits of a number, with as many rounds as it has digits, before `acc`.
unfoldable pub decimal : ℕ → ℕ → Bytes → Bytes
decimal zero n acc = acc
decimal (suc rounds) n acc =
    let rest = decimal rounds (n / 10) ((48 + n % 10) ∷ acc) in
    if n / 10 == 0 then (48 + n % 10) ∷ acc else rest

-- `%d` of a positive int64, which has 19 digits at most.
unfoldable pub mint_text : MintRequest → Bytes
mint_text req =
    codes "Mint " ++ (decimal 19 (pos_part req.amount) [] ++ (codes " coins to " ++ req.address))

unfoldable pub mint_input : MintRequest → TxInput
mint_input req = record {
  txid = [];
  vout = negsuc 0;
  signature = [];
  pub_key = mint_text req;
  escrow_witness = [];
  is_refund = false;
}

unfoldable pub mint_draft : MintRequest → TxOutput → Transaction
mint_draft req out = record { id = []; vin = mint_input req ∷ []; vout = out ∷ [] }

-- The key hash in an address; a short one is taken whole.
unfoldable pub address_hash : Bytes → Bytes
address_hash decoded =
    if ltb 4 (length decoded)
    then take (length decoded - address_checksum_len - 1) (drop 1 decoded)
    else decoded

pub record UtxoOutputItem : Type 0 where
  pub txid : Bytes
  pub vout : ℤ
  pub value : ℤ
  pub pub_key_hash : Bytes
  pub script_type : ℕ
  pub data_hash_lock : Bytes
  pub timeout_block : ℤ
  pub buyer_pub_key_hash : Bytes

unfoldable pub item_to_proto : UtxoItem → UtxoOutputItem
item_to_proto i = record {
  txid = i.tx_id;
  vout = wrap32 (pos i.vout);
  value = i.output.value;
  pub_key_hash = i.output.pub_key_hash;
  script_type = i.output.script_type;
  data_hash_lock = i.output.data_hash_lock;
  timeout_block = i.output.timeout_block;
  buyer_pub_key_hash = i.output.buyer_pub_key_hash;
}

-- The loop that adds up a balance.
unfoldable pub sum_balance : List TxOutput → ℤ → ℤ
sum_balance [] acc = acc
sum_balance (out ∷ outs) acc =
    sum_balance outs (if not (out.script_type == script_escrow) then add64 acc out.value else acc)

-- The first loop of `StreamNewBlocks`, and the second, which goes through what it collected from the
-- end.
unfoldable pub from_height : ℤ → List Block → List Block
from_height start [] = []
from_height start (b ∷ bs) =
    let rest = from_height start bs in if leb_ℤ start b.height then b ∷ rest else rest

unfoldable pub oldest_first : List Block → List Block → List Block
oldest_first [] acc = acc
oldest_first (b ∷ bs) acc = oldest_first bs (b ∷ acc)

-- `Send` for one block after the other, up to a failure: what was sent, and whether all was.
unfoldable pub send_blocks : (ℕ → Bool) → ℕ → List Block → List ProtoBlock × Bool
send_blocks fails n [] = ([], true)
send_blocks fails n (b ∷ bs) =
    let rest = send_blocks fails (n + 1) bs in
    if fails n then ([], false) else (core_block_to_proto b ∷ rest.0, rest.1)

-- An error on the way is an answer to the client, and the node stays as it is.
abbrev pub or_refuse {ℓ κ} :
    {A : Type ℓ} {S : Type κ}
    → Server S
    → (Error → Refusal)
    → Outcome A
    → (A → Running (Server S × RpcResponse))
    → Running (Server S × RpcResponse)
or_refuse s why (ok a) next = next a
or_refuse s why (err e) next = some (ok (s, refused (why e)))
or_refuse s why panic next = some panic

module _ {ℓ} {S : Type ℓ} (env : Env S) where
  -- The answer to what the node's `SubmitTransaction` returned.
  abbrev pub submit_answer :
      Transaction → Server S → Running (Server S) → Running (Server S × RpcResponse)
  submit_answer tx later none = none
  submit_answer tx later (some (ok s)) = some (ok (s, success (hex_encode tx.id)))
  submit_answer tx later (some (err e)) = some (ok (later, refused (rejected e)))
  submit_answer tx later (some panic) = some panic

  -- `SubmitTransaction` of the service, for a transaction that was converted.
  unfoldable pub submit_converted :
      Transaction → Server S → Server S → Running (Server S × RpcResponse)
  submit_converted tx s later =
      let size = length (serialize env.c env.g tx) in
      if ltb max_transaction_size_limit_bytes size
      then some (ok (s, refused (over_size size)))
      else elim (over_value_limit tx.vout) [
        | some value ↦ some (ok (s, refused (over_value value)))
        | none ↦ submit_answer tx later (submit_transaction env tx s later)
      ]

  unfoldable pub submit_transaction_call :
      Option ProtoTransaction → Server S → Server S → Running (Server S × RpcResponse)
  submit_transaction_call none s later = some (ok (s, refused empty_transaction))
  submit_transaction_call (some ptx) s later = submit_converted (proto_tx_to_core ptx) s later

  -- What follows `Reindex`: a refusal where it fails, although the block was added, or the broadcast.
  abbrev pub mint_broadcast :
      Block → Transaction → Server S × Option Error → Running (Server S × RpcResponse)
  mint_broadcast b tx (s, some e) = some (ok (s, refused (not_reindexed e)))
  mint_broadcast b tx (s, none) =
      some (send_inv_to env s.known_nodes [] (codes "block") b.hash s) >>> λ s'.
      some (ok (s', success (hex_encode tx.id)))

  unfoldable pub mint_added : Block → Transaction → Server S → Running (Server S × RpcResponse)
  mint_added b tx s = reindexed env (notify_block env b s) >>> mint_broadcast b tx

  -- The block of a mint, at time `now`; `draw` stands for the random numbers of the signature.
  unfoldable pub mint_block :
      ℕ → ℤ → PrivateKey → Transaction → Server S → Running (Server S × RpcResponse)
  mint_block draw now key tx s = or_refuse s no_tip (env.st.get_tip s.bc.db) λ last_hash.
      or_refuse s no_last_block (env.st.get_block s.bc.db last_hash) λ encoded.
        or_refuse s bad_last_block (deserialize_block env.bg encoded) λ last.
          or_refuse s no_block
            (new_block_poa env.c env.g draw now (tx ∷ []) last_hash (add64 last.height (pos 1))
              last.bits key)
            λ b.
              or_refuse s not_added (add_block env.st env.bg env.c env.g env.authorized_keys s.bc b)
                λ bc. mint_added b tx (record s { bc = bc })

  unfoldable pub mint_stable_balance :
      ℕ → ℤ → Option PrivateKey → MintRequest → Server S → Running (Server S × RpcResponse)
  mint_stable_balance draw now none req s = some (ok (s, refused no_authority_key))
  mint_stable_balance draw now (some key) req s =
      if leb_ℤ req.amount (pos 0)
      then some (ok (s, refused not_positive))
      else if ltb_ℤ max_transaction_value_limit req.amount
      then some (ok (s, refused over_mint_limit))
      else if not (validate_address env.c req.address)
      then some (ok (s, refused bad_target))
      else some (new_tx_output req.amount req.address) >>> λ out.
          let draft = mint_draft req out in
          mint_block draw now key (record draft { id = hash env.c env.g draft }) s

  unfoldable pub get_utxos : Bytes → Server S → Outcome (List UtxoOutputItem)
  get_utxos address s =
      if length address == 0 || not (validate_address env.c address)
      then err invalid_address
      else find_utxo_items env.st env.og s.bc.db (address_hash (base58_decode address))
        >>= (λ items. ok (map item_to_proto items))

  -- `Found` is false for no hash and for any error of the storage.
  unfoldable pub get_block_by_hash : Bytes → Server S → Outcome (Option ProtoBlock)
  get_block_by_hash [] s = ok none
  get_block_by_hash (x ∷ h) s = elim (env.st.get_block s.bc.db (x ∷ h)) [
    | ok encoded ↦ deserialize_block env.bg encoded >>= λ b. ok (some (core_block_to_proto b))
    | err e ↦ ok none
    | panic ↦ panic
  ]

  unfoldable pub get_best_height_call : Server S → Outcome ℤ
  get_best_height_call s = get_best_height env.st env.bg s.bc >>= λ height. ok (wrap32 height)

  unfoldable pub get_balance : Bytes → Server S → Outcome ℤ
  get_balance address s =
      if length address == 0 || not (validate_address env.c address)
      then ok (pos 0)
      else find_utxo env.st env.og s.bc.db (address_hash (base58_decode address)) >>= λ outs.
          ok (sum_balance outs (pos 0))

  -- The stored blocks that `StreamNewBlocks` sends first, if the start is above zero.
  unfoldable pub historical : ℤ → Server S → Option (List Block)
  historical start s =
      if ltb_ℤ (pos 0) start
      then elim (blocks env.st env.bg env.fuel s.bc) [
        | none ↦ none
        | some bs ↦ some (oldest_first (from_height start bs) [])
      ]
      else some []

  -- `StreamNewBlocks`: the stored blocks, then the `live` ones that its channel gives until it ends.
  unfoldable pub stream_new_blocks :
      (ℕ → Bool) → ℤ → List Block → Server S → Option (List ProtoBlock × Bool)
  stream_new_blocks fails start live s = elim (historical start s) [
    | none ↦ none
    | some old ↦ some (send_blocks fails 0 (old ++ from_height start live))
  ]
