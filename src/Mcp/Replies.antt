-- ===== src/Mcp/Replies.antt =====
-- Which responses the daemon writes for a message.
use go_blockchain.Prelude.{
  ◌≡◌, refl, sym, ap, ◌∙◌, ◌⊎◌, inl, inr, Bool, true, false, ◌||◌, not, [], ◌∷◌, ◌++◌, Option, none,
  some, if◌then◌else◌, ltb, ◌==◌, Bytes, bytes_equal, codes, length, ok, >>=-eq-ok, ok_injective,
  Bool-cases, Option-cases,
}
use go_blockchain.Core.External.{Crypto}
use go_blockchain.Mcp.{
  Value, null, Request, RpcError, CallToolParams, Result, Response, new_response,
  new_error_response, Decoded, decoded, undecoded, Json, Moment, McpDaemon, write, send_response,
  send_error,
}
use go_blockchain.Mcp.Tools.{ToolName, tool_named, call_tool, answer_call, handle_tools_call}
use go_blockchain.Mcp.Effects.{call_tool-Called, write-SameState}
use go_blockchain.Mcp.Daemon.{
  Method, initialize, initialized_notification, tools_list, tools_call, unknown, method_named,
  is_handshake, handle_initialize, handle_tools_list, dispatch_method, handle_valid, handle_parsed,
  handle_message,
}
use go_blockchain.Mcp.Session.{is_notice, checked_request, not_notice}

-- The id that an answer carries: that of the request, or nil where it could not be read.
abbrev pub id_of : Decoded Request → Value
id_of (undecoded e) = null
id_of (decoded req) = req.id

abbrev pub is_notification : Option Request → Bool
is_notification none = false
is_notification (some req) = is_notice (method_named req.method)

-- Either a result or an error.
abbrev pub HasOne : Response → Type 0
HasOne r =
    ((x : Result) × (r.result ≡ some x) × (r.error ≡ none))
    ⊎ ((e : RpcError) × (r.result ≡ none) × (r.error ≡ some e))

module _ (json : Json) (c : Crypto) where
  -- One response was written, with that id, and the flag is as it was.
  pub record Replies (d d' : McpDaemon) (id : Value) : Type 0 where
    pub response : Response
    pub written : d'.out ≡ (write json response d).out
    pub names : response.id ≡ id
    pub one : HasOne response
    pub initialized : d'.initialized ≡ d.initialized

  send_error-Replies :
      (d : McpDaemon) (r : Response) (id : Value)
      → r.id ≡ id
      → HasOne r
      → Replies d (write json r d) id
  send_error-Replies d r id names one = record {
    response = r;
    written = refl;
    names = names;
    one = one;
    initialized = (write-SameState json r d).0.1;
  }

  -- What a handler does: to the notification, and to any other request.
  abbrev pub Handles : McpDaemon → McpDaemon → Value → Bool → Type 0
  Handles d d' id notice =
      if notice then (d' ≡ record d { initialized = true }) else Replies d d' id

  write_same :
      (r : Response) (d d1 : McpDaemon)
      → d1.out ≡ d.out
      → (write json r d1).out ≡ (write json r d).out
  unfolding write
  write_same r d d1 e = elim (Option-cases (json.response r)) [
    | inl h ↦ rw (h, write) e
    | inr (line, h) ↦ rw (h, write) (ap (λ o. o ++ (line ++ 10 ∷ [])) e)
  ]

  answer_call-Replies :
      (id : Value) (m : Moment) (p : CallToolParams) (d d' : McpDaemon) (t : Option ToolName)
      → answer_call json c id m p d t ≡ ok d'
      → Replies d d' id
  unfolding answer_call send_error send_response new_response new_error_response
  answer_call-Replies id m p d d' none h =
      rw (sym (ok_injective h)) (send_error-Replies d _ id refl (inr (_, refl, refl)))
  answer_call-Replies id m p d d' (some t) h =
      let (called, made, rest) = >>=-eq-ok (call_tool json c m p.arguments d t) _ h in
      let done = call_tool-Called json m p.arguments d c t made in
      rw (sym (ok_injective rest)) (record {
        response = _;
        written = write_same _ d called.0 done.out;
        names = refl;
        one = inl (_, refl, refl);
        initialized = (write-SameState json _ called.0).0.1 ∙ done.initialized;
      })

  handle_tools_call-Replies :
      (m : Moment) (req : Request) (d d' : McpDaemon) (p : Decoded CallToolParams)
      → json.call_params req.params ≡ p
      → handle_tools_call json c m req d ≡ ok d'
      → Replies d d' req.id
  unfolding handle_tools_call send_error new_error_response
  handle_tools_call-Replies m req d d' (undecoded e) r h =
      rw (sym (ok_injective (rw (r, handle_tools_call) at h)))
        (send_error-Replies d _ req.id refl (inr (_, refl, refl)))
  handle_tools_call-Replies m req d d' (decoded p) r h =
      answer_call-Replies req.id m p d d' (tool_named p.name) (rw (r, handle_tools_call) at h)

  handle_initialize-Replies :
      (req : Request) (d : McpDaemon) → Replies d (handle_initialize json req d) req.id
  unfolding handle_initialize send_error send_response new_response new_error_response
  handle_initialize-Replies req d = elim (Option-cases (json.initialize_params req.params)) [
    | inl e ↦ rw (e, handle_initialize) (send_error-Replies d _ req.id refl (inl (_, refl, refl)))
    | inr (why, e) ↦ elim (Bool-cases (ltb 0 (length req.params))) [
      | inl some_params ↦
          rw (e, some_params, handle_initialize)
            (send_error-Replies d _ req.id refl (inr (_, refl, refl)))
      | inr no_params ↦
          rw (e, no_params, handle_initialize)
            (send_error-Replies d _ req.id refl (inl (_, refl, refl)))
    ]
  ]

  dispatch_method-Handles :
      (m : Moment) (req : Request) (d d' : McpDaemon) (method : Method)
      → dispatch_method json c m req d method ≡ ok d'
      → Handles d d' req.id (is_notice method)
  unfolding dispatch_method handle_tools_list send_error send_response new_response
      new_error_response
  dispatch_method-Handles m req d d' initialize h =
      rw (sym (ok_injective h)) (handle_initialize-Replies req d)
  dispatch_method-Handles m req d d' initialized_notification h = sym (ok_injective h)
  dispatch_method-Handles m req d d' tools_list h =
      rw (sym (ok_injective h)) (send_error-Replies d _ req.id refl (inl (_, refl, refl)))
  dispatch_method-Handles m req d d' tools_call h =
      handle_tools_call-Replies m req d d' (json.call_params req.params) refl h
  dispatch_method-Handles m req d d' unknown h =
      rw (sym (ok_injective h)) (send_error-Replies d _ req.id refl (inr (_, refl, refl)))

  handle_valid-Handles :
      (m : Moment) (req : Request) (d d' : McpDaemon) (ready : Bool)
      → handle_valid json c ready m req d ≡ ok d'
      → Handles d d' req.id (is_notice (method_named req.method))
  unfolding handle_valid send_error new_error_response
  handle_valid-Handles m req d d' true h =
      dispatch_method-Handles m req d d' (method_named req.method) h
  handle_valid-Handles m req d d' false h =
      elim (Bool-cases (is_handshake (method_named req.method))) [
        | inl shake ↦
            dispatch_method-Handles m req d d' (method_named req.method)
              (rw (shake, handle_valid) at h)
        | inr other ↦
            rw
              (
                not_notice (method_named req.method) other,
                sym (ok_injective (rw (other, handle_valid) at h)),
              )
              (send_error-Replies d _ req.id refl (inr (_, refl, refl)))
      ]

  handle_parsed-Handles :
      (m : Moment) (req : Request) (d d' : McpDaemon)
      → handle_parsed json c m req d ≡ ok d'
      → Handles d d' req.id (is_notification (checked_request (decoded req)))
  unfolding handle_parsed checked_request send_error new_error_response
  handle_parsed-Handles m req d d' h =
      elim (Bool-cases (not (bytes_equal req.jsonrpc (codes "2.0")) || length req.method == 0)) [
        | inl bad ↦
            rw (bad, sym (ok_injective (rw (bad, handle_parsed) at h)))
              (send_error-Replies d _ req.id refl (inr (_, refl, refl)))
        | inr good ↦
            rw good (handle_valid-Handles m req d d' d.initialized (rw (good, handle_parsed) at h))
      ]

  handle_decoded-Handles :
      (m : Moment) (line : Bytes) (d d' : McpDaemon) (r : Decoded Request)
      → json.request line ≡ r
      → handle_message json c m line d ≡ ok d'
      → Handles d d' (id_of r) (is_notification (checked_request r))
  unfolding checked_request handle_message send_error new_error_response
  handle_decoded-Handles m line d d' (undecoded e) r h =
      rw (sym (ok_injective (rw (r, handle_message) at h)))
        (send_error-Replies d _ null refl (inr (_, refl, refl)))
  handle_decoded-Handles m line d d' (decoded req) r h =
      handle_parsed-Handles m req d d' (rw (r, handle_message) at h)

  -- A message that is a request of JSON-RPC 2.0 with the method `notifications/initialized` only sets
  -- the flag and is not answered. For any other message, one response is given to `write`: it has the
  -- id of the request, or nil where none could be read, and either a result or an error; and the flag
  -- is as it was, so that `initialize` alone does not let a tool be called.
  pub handle_message-Handles :
      (m : Moment) (line : Bytes) (d d' : McpDaemon)
      → handle_message json c m line d ≡ ok d'
      → Handles d d'
          (id_of (json.request line))
          (is_notification (checked_request (json.request line)))
  handle_message-Handles m line d d' h =
      handle_decoded-Handles m line d d' (json.request line) refl h
