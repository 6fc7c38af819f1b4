-- ===== src/Mcp/Tools.antt =====
-- internal/mcp/tools.go: `tools/call`. The tools of escrows and ZKCP outputs, like `tx_send`, build no
-- transaction: they ask the firewall, or only answer.
use go_blockchain.Prelude.{
  ℕ, Bool, true, false, List, [], ◌∷◌, ◌++◌, Option, none, some, if◌then◌else◌, ℤ, sub64, Bytes,
  bytes_equal, codes, Assoc, lookup, Outcome, ok, err, panic, ◌>>=◌,
}
use go_blockchain.Core.External.{Crypto}
use go_blockchain.Firewall.{Firewall, Reason, Payment, spend, get_session_stats}
use go_blockchain.Mcp.Wallets.{generate_new_wallet}
use go_blockchain.Mcp.{
  Value, text, number, Request, CallToolParams, ToolError, bad_arguments, rejected, no_wallet,
  Message, wallet_created, balance_is, balance_fallback, payment_sent, escrow_created,
  escrow_claimed, escrow_refunded, zkcp_created, zkcp_claimed, height_is, height_unavailable,
  session_is, tool_error, call_tool_result, Decoded, decoded, undecoded, Json, Moment, McpDaemon,
  invalid_params, method_not_found, send_response, send_error,
}

-- The cases of the switch over the names.
pub data ToolName : Type 0 where
  wallet_create wallet_balance tx_send tx_escrow_create tx_escrow_claim tx_escrow_refund : ToolName
  tx_zkcp_create tx_zkcp_claim blockchain_height session_budget : ToolName

unfoldable pub tool_named : Bytes → Option ToolName
tool_named n =
    if bytes_equal n (codes "wallet_create")
    then some wallet_create
    else if bytes_equal n (codes "wallet_balance")
    then some wallet_balance
    else if bytes_equal n (codes "tx_send")
    then some tx_send
    else if bytes_equal n (codes "tx_escrow_create")
    then some tx_escrow_create
    else if bytes_equal n (codes "tx_escrow_claim")
    then some tx_escrow_claim
    else if bytes_equal n (codes "tx_escrow_refund")
    then some tx_escrow_refund
    else if bytes_equal n (codes "tx_zkcp_create")
    then some tx_zkcp_create
    else if bytes_equal n (codes "tx_zkcp_claim")
    then some tx_zkcp_claim
    else if bytes_equal n (codes "blockchain_height")
    then some blockchain_height
    else if bytes_equal n (codes "session_budget")
    then some session_budget
    else none

-- The type assertions `args[k].(string)` and `args[k].(float64)`.
abbrev pub as_text : Option Value → Option Bytes
as_text (some (text s)) = some s
as_text _ = none

abbrev pub as_number : Option Value → Option ℕ
as_number (some (number f)) = some f
as_number _ = none

unfoldable pub string_arg : Bytes → Assoc Value → Option Bytes
string_arg k args = as_text (lookup k args)

unfoldable pub number_arg : Bytes → Assoc Value → Option ℕ
number_arg k args = as_number (lookup k args)

-- What a tool returns: the text, or the error.
pub data Answer : Type 0 where
  done : Message → Answer
  failed : ToolError → Answer

-- The message by the firewall's decision, which the daemon keeps.
unfoldable pub settle_payment : McpDaemon → Message → Firewall × Option Reason → McpDaemon × Answer
settle_payment d message (fw, none) = (record d { fw = fw }, done message)
settle_payment d message (fw, some reason) = (record d { fw = fw }, failed (rejected reason))

unfoldable pub answer_texts : Answer → List Message
answer_texts (done message) = message ∷ []
answer_texts (failed e) = tool_error e ∷ []

unfoldable pub is_error : Answer → Bool
is_error (done message) = false
is_error (failed e) = true

unfoldable pub tool_wallet_create : Crypto → Moment → McpDaemon → Outcome (McpDaemon × Answer)
tool_wallet_create c m d = elim (generate_new_wallet c m.generated d.keyring) [
  | ok made ↦ ok (record d { keyring = made.0 }, done (wallet_created made.1))
  | err e ↦ ok (d, failed (no_wallet e))
  | panic ↦ panic
]

unfoldable pub balance_text : Bytes → Decoded ℤ → Message
balance_text addr (decoded n) = balance_is addr n
balance_text addr (undecoded e) = balance_fallback addr e

unfoldable pub height_text : Decoded ℤ → Message
height_text (decoded n) = height_is n
height_text (undecoded e) = height_unavailable e

unfoldable pub tool_wallet_balance : Moment → Assoc Value → Answer
tool_wallet_balance m args = elim (string_arg (codes "address") args) [
  | none ↦ failed bad_arguments
  | some addr ↦ done (balance_text addr m.balance)
]

unfoldable pub tool_tx_escrow_claim : Assoc Value → Answer
tool_tx_escrow_claim args = elim (string_arg (codes "escrow_tx_id") args) [
  | none ↦ failed bad_arguments
  | some id ↦ elim (string_arg (codes "preimage_hex") args) [
    | none ↦ failed bad_arguments
    | some preimage ↦ done (escrow_claimed id preimage)
  ]
]

unfoldable pub tool_tx_escrow_refund : Assoc Value → Answer
tool_tx_escrow_refund args = elim (string_arg (codes "escrow_tx_id") args) [
  | none ↦ failed bad_arguments
  | some id ↦ done (escrow_refunded id)
]

unfoldable pub tool_tx_zkcp_claim : Assoc Value → Answer
tool_tx_zkcp_claim args = elim (string_arg (codes "tx_id") args) [
  | none ↦ failed bad_arguments
  | some id ↦ elim (string_arg (codes "preimage") args) [
    | none ↦ failed bad_arguments
    | some preimage ↦ done (zkcp_claimed id preimage)
  ]
]

unfoldable pub tool_blockchain_height : Moment → Answer
tool_blockchain_height m = done (height_text m.height)

unfoldable pub tool_session_budget : McpDaemon → Answer
tool_session_budget d =
    let (budget, spent) = get_session_stats d.fw in
    done (session_is budget spent (sub64 budget spent))

-- `Evaluate` and `RecordTransaction` at the times of the moment.
abbrev pub payment_at : Moment → ℤ → Bytes → Bytes → Payment
payment_at m amount recipient tx_id = record {
  evaluated_at = m.evaluated_at;
  recorded_at = m.recorded_at;
  amount = amount;
  recipient = recipient;
  tx_id = tx_id;
}

module _ (json : Json) where
  unfoldable pub tool_tx_send : Moment → Assoc Value → McpDaemon → McpDaemon × Answer
  tool_tx_send m args d = elim (string_arg (codes "to") args) [
    | none ↦ (d, failed bad_arguments)
    | some to ↦ elim (number_arg (codes "amount") args) [
      | none ↦ (d, failed bad_arguments)
      | some f ↦
          let amount = json.to_int64 f in
          settle_payment d (payment_sent amount to)
            (spend d.fw (payment_at m amount to (codes "tx_signed_and_sent")))
    ]
  ]

  unfoldable pub tool_tx_escrow_create : Moment → Assoc Value → McpDaemon → McpDaemon × Answer
  tool_tx_escrow_create m args d = elim (string_arg (codes "seller") args) [
    | none ↦ (d, failed bad_arguments)
    | some seller ↦ elim (number_arg (codes "amount") args) [
      | none ↦ (d, failed bad_arguments)
      | some f ↦ elim (number_arg (codes "timeout_blocks") args) [
        | none ↦ (d, failed bad_arguments)
        | some t ↦
            let amount = json.to_int64 f in
            settle_payment d (escrow_created amount seller (json.to_int64 t))
              (spend d.fw (payment_at m amount seller (codes "tx_escrow_created")))
      ]
    ]
  ]

  unfoldable pub tool_tx_zkcp_create : Moment → Assoc Value → McpDaemon → McpDaemon × Answer
  tool_tx_zkcp_create m args d = elim (string_arg (codes "to") args) [
    | none ↦ (d, failed bad_arguments)
    | some seller ↦ elim (number_arg (codes "amount") args) [
      | none ↦ (d, failed bad_arguments)
      | some f ↦ elim (string_arg (codes "hash_lock") args) [
        | none ↦ (d, failed bad_arguments)
        | some hash_lock ↦
            let amount = json.to_int64 f in
            settle_payment d (zkcp_created amount seller hash_lock)
              (spend d.fw (payment_at m amount seller (codes "tx_zkcp_created")))
      ]
    ]
  ]

  module _ (c : Crypto) where
    unfoldable pub call_tool :
        Moment → Assoc Value → McpDaemon → ToolName → Outcome (McpDaemon × Answer)
    call_tool m args d wallet_create = tool_wallet_create c m d
    call_tool m args d wallet_balance = ok (d, tool_wallet_balance m args)
    call_tool m args d tx_send = ok (tool_tx_send m args d)
    call_tool m args d tx_escrow_create = ok (tool_tx_escrow_create m args d)
    call_tool m args d tx_escrow_claim = ok (d, tool_tx_escrow_claim args)
    call_tool m args d tx_escrow_refund = ok (d, tool_tx_escrow_refund args)
    call_tool m args d tx_zkcp_create = ok (tool_tx_zkcp_create m args d)
    call_tool m args d tx_zkcp_claim = ok (d, tool_tx_zkcp_claim args)
    call_tool m args d blockchain_height = ok (d, tool_blockchain_height m)
    call_tool m args d session_budget = ok (d, tool_session_budget d)

    -- The call of a tool and its answer.
    unfoldable pub answer_call :
        Value → Moment → CallToolParams → McpDaemon → Option ToolName → Outcome McpDaemon
    answer_call id m p d none = ok (
        send_error json id method_not_found (codes "Tool " ++ (p.name ++ codes " not found")) none
          d)
    answer_call id m p d (some tool) = call_tool m p.arguments d tool >>= λ called. ok (
        send_response json id (call_tool_result (answer_texts called.1) (is_error called.1))
          called.0)

    unfoldable pub handle_tools_call : Moment → Request → McpDaemon → Outcome McpDaemon
    handle_tools_call m req d = elim (json.call_params req.params) [
      | undecoded e ↦ ok (send_error json req.id invalid_params (codes "Invalid params") (some e) d)
      | decoded p ↦ answer_call req.id m p d (tool_named p.name)
    ]
