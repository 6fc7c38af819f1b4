-- ===== src/Mcp.antt =====
-- internal/mcp: the daemon that gives an agent tools over JSON-RPC: jsonrpc.go, and the state of
-- mcp.go with its answers. encoding/json is a parameter; the clock, the keys that are generated and
-- the answers of the node's gRPC service are arguments, which a `Moment` holds for one message. A
-- message for people is its format, as a constructor, with the values that it prints; logs are left
-- out.
pub mod Wallets
pub mod Tools
pub mod Daemon
pub mod Effects
pub mod Session
pub mod Replies
pub mod Keys
mod Tests
use go_blockchain.Prelude.{
  ℕ, Bool, false, List, [], ◌∷◌, ◌++◌, Option, none, some, ℤ, Bytes, codes, Assoc, negsuc, Error,
  Outcome, ◌>>=◌, ok,
}
use go_blockchain.Core.External.{PrivateKey, Crypto}
use go_blockchain.Firewall.{Firewall, Policy, Reason}
use go_blockchain.Mcp.Wallets.{Keyring, new_keyring}

-- A JSON value in an `any`: nil, a string, a float64 by its bits, or another one by its text.
pub data Value : Type 0 where
  null : Value
  text : Bytes → Value
  number : ℕ → Value
  other_value : Bytes → Value

pub record Request : Type 0 where
  pub jsonrpc : Bytes
  pub id : Value
  pub method : Bytes
  pub params : Bytes

pub record RpcError : Type 0 where
  pub code : ℤ
  pub message : Bytes
  pub info : Option Bytes

pub record CallToolParams : Type 0 where
  pub name : Bytes
  pub arguments : Assoc Value

-- `Properties` maps a name to its type and its description.
pub record Tool : Type 0 where
  pub name : Bytes
  pub description : Bytes
  pub properties : List (Bytes × Bytes × Bytes)
  pub required : List Bytes

abbrev pub parse_error : ℤ
parse_error = negsuc 32699

abbrev pub invalid_request : ℤ
invalid_request = negsuc 32599

abbrev pub method_not_found : ℤ
method_not_found = negsuc 32600

abbrev pub invalid_params : ℤ
invalid_params = negsuc 32601

abbrev pub internal_error : ℤ
internal_error = negsuc 32602

-- Why a tool fails: its arguments, the firewall, or the random numbers for a key.
pub data ToolError : Type 0 where
  bad_arguments : ToolError
  rejected : Reason → ToolError
  no_wallet : Error → ToolError

-- The texts of the tools' results.
pub data Message : Type 0 where
  wallet_created : Bytes → Message
  balance_is : Bytes → ℤ → Message
  balance_fallback : Bytes → Bytes → Message
  payment_sent : ℤ → Bytes → Message
  escrow_created : ℤ → Bytes → ℤ → Message
  escrow_claimed : Bytes → Bytes → Message
  escrow_refunded : Bytes → Message
  zkcp_created : ℤ → Bytes → Bytes → Message
  zkcp_claimed : Bytes → Bytes → Message
  height_is : ℤ → Message
  height_unavailable : Bytes → Message
  session_is : ℤ → ℤ → ℤ → Message
  tool_error : ToolError → Message

-- `InitializeResult`, the list of tools, and `CallToolResult`.
pub data Result : Type 0 where
  initialize_result : Bytes → Bytes → Bytes → Result
  tools_result : List Tool → Result
  call_tool_result : List Message → Bool → Result

pub record Response : Type 0 where
  pub jsonrpc : Bytes
  pub id : Value
  pub result : Option Result
  pub error : Option RpcError

unfoldable pub new_response : Value → Result → Response
new_response id result = record {
  jsonrpc = codes "2.0";
  id = id;
  result = some result;
  error = none;
}

unfoldable pub new_error_response : Value → ℤ → Bytes → Option Bytes → Response
new_error_response id code message info = record {
  jsonrpc = codes "2.0";
  id = id;
  result = none;
  error = some (record { code = code; message = message; info = info });
}

-- A value, or the text of the error.
pub data Decoded {ℓ} (A : Type ℓ) : Type ℓ where
  decoded : A → Decoded A
  undecoded : Bytes → Decoded A

-- encoding/json for the types that the daemon reads and writes, and the conversion of a float64,
-- by its bits, to an int64.
pub record Json : Type 0 where
  pub request : Bytes → Decoded Request
  pub initialize_params : Bytes → Option Bytes
  pub call_params : Bytes → Decoded CallToolParams
  pub response : Response → Option Bytes
  pub to_int64 : ℕ → ℤ

-- What the handling of one message finds outside the daemon.
pub record Moment : Type 0 where
  pub evaluated_at : ℤ
  pub recorded_at : ℤ
  pub generated : Option PrivateKey
  pub balance : Decoded ℤ
  pub height : Decoded ℤ

-- `out` is what was written to the stream so far.
pub record McpDaemon : Type 0 where
  pub fw : Firewall
  pub keyring : Keyring
  pub out : Bytes
  pub initialized : Bool

-- `NewMCPDaemon`; the connection to the node is outside the model.
unfoldable pub new_mcp_daemon : Crypto → Firewall → Option PrivateKey → Outcome McpDaemon
new_mcp_daemon c fw generated = new_keyring c generated >>= λ kr.
    ok (record { fw = fw; keyring = kr; out = []; initialized = false })

module _ (json : Json) where
  -- `write`: a response that cannot be encoded is dropped; a line ends in a newline.
  unfoldable pub write : Response → McpDaemon → McpDaemon
  write v d = elim (json.response v) [
    | none ↦ d
    | some line ↦ record d { out = d.out ++ (line ++ 10 ∷ []) }
  ]

  unfoldable pub send_response : Value → Result → McpDaemon → McpDaemon
  send_response id result d = write (new_response id result) d

  unfoldable pub send_error : Value → ℤ → Bytes → Option Bytes → McpDaemon → McpDaemon
  send_error id code message info d = write (new_error_response id code message info) d
