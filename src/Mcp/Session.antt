-- ===== src/Mcp/Session.antt =====
-- The payments that the lines of a session ask for, by what a line says and not by what the daemon
-- does with it.
pub mod Steps
pub mod Total
use go_blockchain.Prelude.{
  ℕ, ◌<◌, ◌^◌, ◌≡◌, refl, sym, ap, ◌∙◌, Bool, true, false, ◌&&◌, ◌||◌, not, List, [], ◌∷◌, ◌++◌,
  Option, none, some, if◌then◌else◌, arith, ℤ, pos, ◌≤ℤ◌, Bytes, bytes_equal, codes, Assoc, All,
  length, ltb, ◌==◌, ◌⊎◌, Outcome, ok, err, panic, ◌>>=◌, >>=-eq-ok, ok_injective, Bool-cases,
  Option-cases, inl, inr, Outcome-cases,
}
use go_blockchain.Core.External.{Crypto, PrivateKey}
use go_blockchain.Firewall.{Policy, Firewall, Payment, spend, run_session, new_firewall}
use go_blockchain.Firewall.Budget.{total, accepted, IsCharge, HasRoom, run_session_within_budget}
use go_blockchain.Mcp.{
  Value, Request, CallToolParams, Response, Decoded, decoded, undecoded, Json, Moment, McpDaemon,
  write, send_response, send_error,
}
use go_blockchain.Mcp.Tools.{ToolName, tool_named, call_tool, answer_call, handle_tools_call}
use go_blockchain.Mcp.Effects.{
  SameFirewall, write-SameState, tool_payments, Called, call_tool-Called,
}
use go_blockchain.Mcp.Daemon.{
  Method, initialize, initialized_notification, tools_list, tools_call, unknown, method_named,
  is_handshake, is_blank, handle_initialize, handle_tools_list, dispatch_method, handle_valid,
  handle_parsed, handle_message, run_daemon,
}

-- The request of a line, if it is one of JSON-RPC 2.0 with a method.
unfoldable pub checked_request : Decoded Request → Option Request
checked_request (undecoded e) = none
checked_request (decoded req) =
    if not (bytes_equal req.jsonrpc (codes "2.0")) || length req.method == 0 then none else some req

unfoldable pub request_of : Json → Bytes → Option Request
request_of json line = if is_blank line then none else checked_request (json.request line)

abbrev pub is_notice : Method → Bool
is_notice initialized_notification = true
is_notice _ = false

-- Whether a daemon is initialized behind a request.
unfoldable pub ready_after : Bool → Option Request → Bool
ready_after ready none = ready
ready_after ready (some req) = ready || is_notice (method_named req.method)

unfoldable pub named_payments : Json → Moment → Assoc Value → Option ToolName → List Payment
named_payments json m args none = []
named_payments json m args (some t) = tool_payments json m args t

unfoldable pub call_payments : Json → Moment → Decoded CallToolParams → List Payment
call_payments json m (undecoded e) = []
call_payments json m (decoded p) = named_payments json m p.arguments (tool_named p.name)

unfoldable pub method_payments : Json → Moment → Request → Method → List Payment
method_payments json m req tools_call = call_payments json m (json.call_params req.params)
method_payments json m req _ = []

-- The payments that a request makes: of an initialized daemon, those of the tool that it calls.
unfoldable pub request_payments : Json → Bool → Moment → Option Request → List Payment
request_payments json ready m none = []
request_payments json ready m (some req) =
    if ready then method_payments json m req (method_named req.method) else []

-- The payments that the lines of a session ask for.
unfoldable pub session_payments : Json → Bool → List (Moment × Bytes) → List Payment
session_payments json ready [] = []
session_payments json ready ((m, line) ∷ rest) =
    request_payments json ready m (request_of json line)
    ++ session_payments json (ready_after ready (request_of json line)) rest

pub not_notice : (method : Method) → is_handshake method ≡ false → is_notice method ≡ false
not_notice initialize h = refl
not_notice initialized_notification h = cc
not_notice tools_list h = refl
not_notice tools_call h = refl
not_notice unknown h = refl
