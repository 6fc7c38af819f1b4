-- ===== src/Api.antt =====
-- internal/api/handler.go: what the HTTP handlers answer. Routing, headers and encoding/json are left
-- out: a request is its method with the parameters that the handler reads, and a response its status
-- and the value that is encoded.
pub mod Pages
mod Tests
use go_blockchain.Prelude.{
  ℕ, zero, suc, ◌+◌, ◌-◌, ◌*◌, Bool, true, false, ◌&&◌, ◌||◌, not, List, [], ◌∷◌, ◌++◌, map, Option,
  none, some, if◌then◌else◌, ◌==◌, ltb, leb, ℤ, pos, negsuc, pos_part, add64, ltb_ℤ, leb_ℤ,
  int64_half, Bytes, bytes_equal, codes, length, take, drop, Outcome, ok, err, panic, ◌>>=◌,
}
use go_blockchain.Hex.{hex_encode, hex_decode}
use go_blockchain.Storage.{Storage}
use go_blockchain.Core.External.{Crypto, Codec}
use go_blockchain.Core.Output.{TxOutput}
use go_blockchain.Core.Transaction.{Transaction, TxInput}
use go_blockchain.Core.Block.{Block}
use go_blockchain.Core.Base58.{base58_decode}
use go_blockchain.Core.Wallet.{validate_address}
use go_blockchain.Core.Chain.{Blockchain, blocks, get_block, get_best_height}
use go_blockchain.Core.Utxo.{find_utxo}

pub record TxInputJson : Type 0 where
  pub txid : Bytes
  pub vout : ℤ
  pub signature : Bytes
  pub pub_key : Bytes

pub record TxOutputJson : Type 0 where
  pub value : ℤ
  pub pub_key_hash : Bytes

pub record TransactionJson : Type 0 where
  pub id : Bytes
  pub vin : List TxInputJson
  pub vout : List TxOutputJson

pub record BlockJson : Type 0 where
  pub timestamp : ℤ
  pub transactions : List TransactionJson
  pub prev_block_hash : Bytes
  pub hash : Bytes
  pub nonce : ℤ
  pub height : ℤ
  pub bits : ℤ

pub record HeightJson : Type 0 where
  pub height : ℤ
  pub tip_hash : Bytes

pub record BalanceJson : Type 0 where
  pub address : Bytes
  pub balance : ℤ

-- A response to `OPTIONS`, a value with status 200, or an error with its status.
pub data ApiResponse {ℓ} (A : Type ℓ) : Type ℓ where
  no_content : ApiResponse A
  json : A → ApiResponse A
  failure : ℕ → ApiResponse A
  panicked : ApiResponse A

unfoldable pub map_input : TxInput → TxInputJson
map_input i = record {
  txid = hex_encode i.txid;
  vout = i.vout;
  signature = hex_encode i.signature;
  pub_key = hex_encode i.pub_key;
}

unfoldable pub map_output : TxOutput → TxOutputJson
map_output o = record { value = o.value; pub_key_hash = hex_encode o.pub_key_hash }

unfoldable pub map_transaction : Transaction → TransactionJson
map_transaction tx = record {
  id = hex_encode tx.id;
  vin = map map_input tx.vin;
  vout = map map_output tx.vout;
}

unfoldable pub map_block : Block → BlockJson
map_block b = record {
  timestamp = b.timestamp;
  transactions = map map_transaction b.transactions;
  prev_block_hash = hex_encode b.prev_block_hash;
  hash = hex_encode b.hash;
  nonce = b.nonce;
  height = b.height;
  bits = b.bits;
}

-- `strconv.Atoi`: digits, with a sign or without, within int64.
unfoldable pub digits_value : Bytes → ℕ → Option ℕ
digits_value [] n = some n
digits_value (d ∷ ds) n =
    let rest = digits_value ds (n * 10 + (d - 48)) in if leb 48 d && leb d 57 then rest else none

unfoldable pub unsigned_value : Bytes → Option ℕ
unsigned_value [] = none
unsigned_value (d ∷ ds) = digits_value (d ∷ ds) 0

abbrev pub negated : ℕ → ℤ
negated zero = pos 0
negated (suc n) = negsuc n

abbrev pub within_int64 : Bool → Option ℕ → Option ℤ
within_int64 negative none = none
within_int64 true (some n) = if leb n int64_half then some (negated n) else none
within_int64 false (some n) = if ltb n int64_half then some (pos n) else none

unfoldable pub atoi : Bytes → Option ℤ
atoi [] = none
atoi (c ∷ s) =
    if c == 45
    then within_int64 true (unsigned_value s)
    else if c == 43
    then within_int64 false (unsigned_value s)
    else within_int64 false (unsigned_value (c ∷ s))

-- The limit and the offset of a page: 10 and 0, unless the parameter is a number that serves.
unfoldable pub limit_of : Option ℤ → ℕ
limit_of none = 10
limit_of (some l) = if ltb_ℤ (pos 0) l then pos_part l else 10

unfoldable pub offset_of : Option ℤ → ℕ
offset_of none = 0
offset_of (some o) = if leb_ℤ (pos 0) o then pos_part o else 0

-- The loop over the blocks, with what it has collected, counted and skipped.
unfoldable pub page_from : ℕ → ℕ → List Block → List BlockJson → ℕ → ℕ → List BlockJson
page_from limit offset [] page count skipped = page
page_from limit offset (b ∷ bs) page count skipped =
    let skip = page_from limit offset bs page count (skipped + 1) in
    let more = page_from limit offset bs (page ++ map_block b ∷ []) (count + 1) skipped in
    if ltb skipped offset
    then skip
    else if leb limit (count + 1)
    then page ++ map_block b ∷ []
    else more

abbrev pub is_options : Bytes → Bool
is_options method = bytes_equal method (codes "OPTIONS")

unfoldable pub sum_values : List TxOutput → ℤ → ℤ
sum_values [] acc = acc
sum_values (out ∷ outs) acc = sum_values outs (add64 acc out.value)

-- The status of an error.
abbrev pub or_status {ℓ κ} :
    {A : Type ℓ} {B : Type κ} → ℕ → Outcome A → (A → ApiResponse B) → ApiResponse B
or_status status (ok a) next = next a
or_status status (err e) next = failure status
or_status status panic next = panicked

unfoldable pub handle_mempool : Bytes → List Transaction → ApiResponse (List TransactionJson)
handle_mempool method txs = if is_options method then no_content else json (map map_transaction txs)

module _ {ℓ} {S : Type ℓ} (st : Storage S) (bg : Codec Block) where
  -- `none` where the walk runs out of fuel.
  unfoldable pub handle_blocks :
      ℕ → Blockchain S → Bytes → Bytes → Bytes → Option (ApiResponse (List BlockJson))
  handle_blocks fuel bc method limit offset =
      if is_options method then some no_content else elim (blocks st bg fuel bc) [
        | none ↦ none
        | some bs ↦
            some (json (page_from (limit_of (atoi limit)) (offset_of (atoi offset)) bs [] 0 0))
      ]

  unfoldable pub handle_block_by_hash : Blockchain S → Bytes → Bytes → ApiResponse BlockJson
  handle_block_by_hash bc method hash_hex =
      if is_options method then no_content else elim (hex_decode hash_hex) [
        | none ↦ failure 400
        | some h ↦ or_status 404 (get_block st bg bc.db h) λ b. json (map_block b)
      ]

  -- The hash of the first block of the walk, as hex.
  unfoldable pub tip_hash : S → Bytes → Bytes
  tip_hash s [] = []
  tip_hash s (x ∷ h) = elim (get_block st bg s (x ∷ h)) [ ok b ↦ hex_encode b.hash | _ ↦ [] ]

  unfoldable pub handle_height : Blockchain S → Bytes → ApiResponse HeightJson
  handle_height bc method =
      if is_options method
      then no_content
      else or_status 500 (get_best_height st bg bc)
          λ height. json (record { height = height; tip_hash = tip_hash bc.db bc.tip })

unfoldable pub handle_balance {ℓ} :
    {S : Type ℓ}
    → Storage S
    → Codec (List TxOutput)
    → Crypto
    → Blockchain S
    → Bytes
    → Bytes
    → ApiResponse BalanceJson
handle_balance st og c bc method address =
    let decoded = base58_decode address in
    if is_options method
    then no_content
    else if not (validate_address c address)
    then failure 400
    else if ltb (length decoded) 5
    then failure 400
    else or_status 500 (find_utxo st og bc.db (take (length decoded - 4 - 1) (drop 1 decoded)))
        λ outs. json (record { address = address; balance = sum_values outs (pos 0) })
