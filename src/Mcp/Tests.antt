-- ===== src/Mcp/Tests.antt =====
-- The theorems on the daemon at a concrete session, and what it does with concrete messages.
use go_blockchain.Prelude.{
  ◌≡◌, refl, false, List, [], ◌∷◌, ◌++◌, none, some, if◌then◌else◌, arith, pos, ◌≤ℤ◌, Bytes, codes,
  bytes_equal, lookup, insert, ok,
}
use go_blockchain.Core.External.{PrivateKey}
use go_blockchain.Core.Bignum.{fill_bytes, low_bytes}
use go_blockchain.Core.Wallet.{Wallet, new_wallet, new_key_pair, get_address}
use go_blockchain.Core.Sample.{sample_crypto}
use go_blockchain.Firewall.{Policy, new_firewall, run_session}
use go_blockchain.Firewall.Budget.{total, accepted}
use go_blockchain.Mcp.{
  text, number, null, Request, decoded, Json, Moment, McpDaemon, new_mcp_daemon, send_error, write,
  new_error_response,
}
use go_blockchain.Mcp.Wallets.{new_keyring, get_wallet, get_primary_address}
use go_blockchain.Mcp.Tools.{tool_named, string_arg, number_arg}
use go_blockchain.Mcp.Effects.{tool_payments}
use go_blockchain.Mcp.Daemon.{
  is_blank, handle_parsed, handle_valid, run_daemon, handle_message, method_named,
}
use go_blockchain.Mcp.Session.{
  session_payments, request_payments, request_of, checked_request, ready_after, method_payments,
  call_payments, named_payments,
}
use go_blockchain.Mcp.Session.Total.{run_daemon_within_budget, run_daemon-IsSound, Succeeds}
use go_blockchain.Mcp.Replies.{Replies, handle_message-Handles}

abbrev policy : Policy
policy = record {
  version = pos 1;
  session_budget = pos 1000;
  max_per_transaction = pos 400;
  rolling_24h_budget = pos 800;
  max_tx_per_hour = pos 3;
  allowed_recipients = [];
  node_grpc_address = codes "localhost:50051";
  persistent_key_path = [];
  signature = [];
  signature_public_key = [];
}

abbrev notice : Request
notice = record {
  jsonrpc = codes "2.0";
  id = null;
  method = codes "notifications/initialized";
  params = [];
}

abbrev call : Request
call = record {
  jsonrpc = codes "2.0";
  id = number 7;
  method = codes "tools/call";
  params = codes "{}";
}

-- A stand-in for encoding/json: the line "n" is the notification, and any other the call of a tool.
abbrev json : Json
json = record {
  request = λ line. if bytes_equal line (codes "n") then decoded notice else decoded call;
  initialize_params = λ params. none;
  call_params = λ params. decoded (record {
    name = codes "tx_send";
    arguments = (codes "to", text (codes "bob")) ∷ (codes "amount", number 300) ∷ [];
  });
  response = λ r. some (codes "r");
  to_int64 = λ f. pos f;
}

abbrev moment : Moment
moment = record {
  evaluated_at = pos 1_000_000_000_000_000;
  recorded_at = pos 1_000_000_000_000_001;
  generated = none;
  balance = decoded (pos 5);
  height = decoded (pos 2);
}

abbrev key : PrivateKey
key = record { d = 1; x = 2; y = 3 }

abbrev wallet : Wallet
wallet = record { private_key = key; public_key = low_bytes 32 2 ++ low_bytes 32 3 }

abbrev address : Bytes
address = get_address sample_crypto wallet

abbrev daemon : McpDaemon
daemon = record {
  fw = new_firewall policy;
  keyring = record { keys = (address, wallet) ∷ []; primary = address };
  out = [];
  initialized = false;
}

-- A call before the notification, and two behind it.
abbrev feed : List (Moment × Bytes)
feed =
    (moment, codes "c")
    ∷ (moment, codes "n")
    ∷ (moment, codes "c")
    ∷ (moment, codes " ")
    ∷ (moment, codes "c")
    ∷ []

new_daemon : new_mcp_daemon sample_crypto (new_firewall policy) (some key) ≡ ok daemon
unfolding new_mcp_daemon new_keyring new_wallet new_key_pair fill_bytes insert
new_daemon = refl

run_daemon_within_budget_example :
    (d' : McpDaemon) × (run_daemon json sample_crypto feed daemon ≡ ok d')
    × (d'.fw ≡ run_session (new_firewall policy) (session_payments json false feed))
    × (d'.fw.session_spent
        ≡ total (accepted (new_firewall policy) (session_payments json false feed)))
    × (d'.fw.session_spent ≤ℤ policy.session_budget)
unfolding session_payments request_payments request_of checked_request ready_after method_payments
    call_payments named_payments tool_payments string_arg number_arg tool_named method_named
    is_blank bytes_equal lookup
run_daemon_within_budget_example =
    run_daemon_within_budget json sample_crypto policy (omega arith) (some key) daemon new_daemon
      feed (tt, (tt, (tt, (tt, (tt, tt))))) (omega arith)

run_daemon-IsSound_example :
    (d' : McpDaemon) × (run_daemon json sample_crypto feed daemon ≡ ok d')
    × (get_primary_address d'.keyring ≡ get_primary_address daemon.keyring)
    × Succeeds (get_wallet d'.keyring (get_primary_address daemon.keyring))
    × ((addr : Bytes) (w : Wallet)
        → get_wallet d'.keyring addr ≡ ok w
        → get_address sample_crypto w ≡ addr)
run_daemon-IsSound_example =
    run_daemon-IsSound json sample_crypto (new_firewall policy) (some key) daemon new_daemon feed
      (tt, (tt, (tt, (tt, (tt, tt)))))

-- A request before the handshake.
abbrev refused : McpDaemon
refused = record daemon { out = codes "r" ++ 10 ∷ [] }

early : handle_message json sample_crypto moment (codes "c") daemon ≡ ok refused
unfolding handle_message bytes_equal handle_parsed handle_valid method_named send_error write
    new_error_response
early = refl

handle_message-Handles_example : Replies json sample_crypto daemon refused (number 7)
unfolding bytes_equal checked_request method_named
handle_message-Handles_example =
    handle_message-Handles json sample_crypto moment (codes "c") daemon refused early
