-- ===== src/Mcp/Daemon.antt =====
-- internal/mcp/mcp.go: the loop over the lines of the input, and the handling of a message.
use go_blockchain.Prelude.{
  ℕ, Bool, true, false, ◌&&◌, ◌||◌, not, List, [], ◌∷◌, none, some, if◌then◌else◌, ◌==◌, leb, Bytes,
  bytes_equal, codes, length, ltb, Outcome, ok, ◌>>=◌,
}
use go_blockchain.Core.External.{Crypto}
use go_blockchain.Mcp.{
  null, Request, Tool, initialize_result, tools_result, decoded, undecoded, Json, Moment, McpDaemon,
  parse_error, invalid_request, method_not_found, invalid_params, internal_error, send_response,
  send_error,
}
use go_blockchain.Mcp.Tools.{handle_tools_call}

-- The cases of the switch over the methods.
pub data Method : Type 0 where
  initialize initialized_notification tools_list tools_call unknown : Method

unfoldable pub method_named : Bytes → Method
method_named n =
    if bytes_equal n (codes "initialize")
    then initialize
    else if bytes_equal n (codes "notifications/initialized")
    then initialized_notification
    else if bytes_equal n (codes "tools/list")
    then tools_list
    else if bytes_equal n (codes "tools/call")
    then tools_call
    else unknown

-- The methods that a daemon handles before it is initialized.
abbrev pub is_handshake : Method → Bool
is_handshake initialize = true
is_handshake initialized_notification = true
is_handshake _ = false

abbrev pub offered_tools : List Tool
offered_tools =
    record {
      name = codes "wallet_create";
      description = codes "Generate a new ephemeral wallet for this session";
      properties = [];
      required = [];
    }
    ∷ record {
      name = codes "wallet_balance";
      description = codes "Query balance for an address";
      properties = (codes "address", codes "string", codes "Base58 encoded address") ∷ [];
      required = codes "address" ∷ [];
    }
    ∷ record {
      name = codes "tx_send";
      description = codes "Send a standard P2PKH transaction";
      properties =
          (codes "to", codes "string", codes "Recipient address")
          ∷ (codes "amount", codes "integer", codes "Amount in micro-cents")
          ∷ [];
      required = codes "to" ∷ codes "amount" ∷ [];
    }
    ∷ []

-- `unicode.IsSpace` on the UTF-8 encodings of one, two and three bytes.
abbrev pub is_space1 : ℕ → Bool
is_space1 a = (leb 9 a && leb a 13) || a == 32

abbrev pub is_space2 : ℕ → ℕ → Bool
is_space2 a b = a == 194 && (b == 133 || b == 160)

abbrev pub is_space3 : ℕ → ℕ → ℕ → Bool
is_space3 a b c =
    (a == 225 && b == 154 && c == 128)
    || (a == 226 && b == 128 && ((leb 128 c && leb c 138) || c == 168 || c == 169 || c == 175))
    || (a == 226 && b == 129 && c == 159)
    || (a == 227 && b == 128 && c == 128)

-- `strings.TrimSpace(line) == ""`
unfoldable pub is_blank : Bytes → Bool
is_blank [] = true
is_blank (a ∷ []) = is_space1 a
is_blank (a ∷ b ∷ []) = if is_space1 a then is_space1 b else is_space2 a b
is_blank (a ∷ b ∷ c ∷ s) =
    let one = is_blank (b ∷ c ∷ s) in
    let two = is_blank (c ∷ s) in
    let three = is_blank s in
    if is_space1 a
    then one
    else if is_space2 a b
    then two
    else if is_space3 a b c
    then three
    else false

module _ (json : Json) where
  unfoldable pub handle_initialize : Request → McpDaemon → McpDaemon
  handle_initialize req d =
      let answer =
        send_response json req.id
          (initialize_result (codes "2024-11-05") (codes "ai-to-ai-ledger-mcp") (codes "0.1.0"))
          d in
      elim (json.initialize_params req.params) [
        | none ↦ answer
        | some e ↦
            if ltb 0 (length req.params)
            then send_error json req.id invalid_params (codes "Invalid params") (some e) d
            else answer
      ]

  unfoldable pub handle_tools_list : Request → McpDaemon → McpDaemon
  handle_tools_list req d = send_response json req.id (tools_result offered_tools) d

  module _ (c : Crypto) where
    -- The switch over the methods.
    unfoldable pub dispatch_method : Moment → Request → McpDaemon → Method → Outcome McpDaemon
    dispatch_method m req d initialize = ok (handle_initialize req d)
    dispatch_method m req d initialized_notification = ok (record d { initialized = true })
    dispatch_method m req d tools_list = ok (handle_tools_list req d)
    dispatch_method m req d tools_call = handle_tools_call json c m req d
    dispatch_method m req d unknown =
        ok (send_error json req.id method_not_found (codes "Method not found") none d)

    -- A request of the right form, by whether the daemon is initialized.
    unfoldable pub handle_valid : Bool → Moment → Request → McpDaemon → Outcome McpDaemon
    handle_valid ready m req d =
        if not ready && not (is_handshake (method_named req.method))
        then ok (send_error json req.id internal_error (codes "Server not initialized") none d)
        else dispatch_method m req d (method_named req.method)

    -- A request that could be parsed.
    unfoldable pub handle_parsed : Moment → Request → McpDaemon → Outcome McpDaemon
    handle_parsed m req d =
        if not (bytes_equal req.jsonrpc (codes "2.0")) || length req.method == 0
        then ok (send_error json req.id invalid_request (codes "Invalid Request") none d)
        else handle_valid d.initialized m req d

    unfoldable pub handle_message : Moment → Bytes → McpDaemon → Outcome McpDaemon
    handle_message m line d = elim (json.request line) [
      | undecoded e ↦ ok (send_error json null parse_error (codes "Parse error") (some e) d)
      | decoded req ↦ handle_parsed m req d
    ]

    -- `Run`, over the lines that the scanner gives until the input ends, the scanner fails or the
    -- context is done.
    unfoldable pub run_daemon : List (Moment × Bytes) → McpDaemon → Outcome McpDaemon
    run_daemon [] d = ok d
    run_daemon ((m, line) ∷ rest) d =
        (if is_blank line then ok d else handle_message m line d) >>= λ d'. run_daemon rest d'
