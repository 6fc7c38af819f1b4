-- ===== src/Mcp/Session/Steps.antt =====
-- What a line does to the firewall of the daemon and to its flag.
use go_blockchain.Prelude.{
  ◌≡◌, refl, sym, ◌∙◌, Bool, true, false, ◌||◌, not, List, [], ◌∷◌, ◌++◌, Option, none, some,
  if◌then◌else◌, arith, Bytes, bytes_equal, codes, length, ltb, ◌==◌, ◌⊎◌, ok, >>=-eq-ok,
  ok_injective, Bool-cases, Option-cases, inl, inr,
}
use go_blockchain.Core.External.{Crypto}
use go_blockchain.Firewall.{Firewall, Payment, spend, run_session}
use go_blockchain.Mcp.{
  Value, Request, CallToolParams, Response, Decoded, decoded, undecoded, Json, Moment, McpDaemon,
  write, send_response, send_error,
}
use go_blockchain.Mcp.Keys.{Grows, Grows-refl, Grows-trans}
use go_blockchain.Mcp.Tools.{ToolName, tool_named, call_tool, answer_call, handle_tools_call}
use go_blockchain.Mcp.Effects.{write-SameState, call_tool-Called}
use go_blockchain.Mcp.Daemon.{
  Method, initialize, initialized_notification, tools_list, tools_call, unknown, method_named,
  is_handshake, is_blank, handle_initialize, handle_tools_list, dispatch_method, handle_valid,
  handle_parsed, handle_message, run_daemon,
}
use go_blockchain.Mcp.Session.{
  is_notice, not_notice, checked_request, request_of, ready_after, named_payments, call_payments,
  method_payments, request_payments, session_payments,
}

run_session-append :
    (ps qs : List Payment) (fw : Firewall)
    → run_session fw (ps ++ qs) ≡ run_session (run_session fw ps) qs
unfolding run_session
run_session-append [] qs fw = refl
run_session-append (p ∷ ps) qs fw = run_session-append ps qs (spend fw p).0

or_false : (b : Bool) → (b || false) ≡ b
or_false b = ground arith

or_true : (b : Bool) → (b || true) ≡ true
or_true b = ground arith

handshake_pays :
    (json : Json) (m : Moment) (req : Request) (method : Method)
    → is_handshake method ≡ true
    → method_payments json m req method ≡ []
unfolding method_payments
handshake_pays json m req initialize h = refl
handshake_pays json m req initialized_notification h = refl
handshake_pays json m req tools_list h = refl
handshake_pays json m req tools_call h = cc
handshake_pays json m req unknown h = refl

module _ (json : Json) (c : Crypto) where
  -- What a step does to the firewall and to the flag.
  pub record Steps (d d' : McpDaemon) (ps : List Payment) (ready : Bool) : Type 0 where
    pub fw : d'.fw ≡ run_session d.fw ps
    pub initialized : d'.initialized ≡ ready
    pub keyring : Grows c d.keyring d'.keyring

  Steps-write :
      (v : Response) (d d' : McpDaemon) (ps : List Payment) (ready : Bool)
      → Steps d d' ps ready
      → Steps d (write json v d') ps ready
  Steps-write v d d' ps ready s =
      let ((fw, init), keys) = write-SameState json v d' in
      record { fw = fw ∙ s.fw; initialized = init ∙ s.initialized; keyring = rw keys s.keyring }

  Steps-refl : (d : McpDaemon) → Steps d d [] d.initialized
  unfolding run_session
  Steps-refl d = record { fw = refl; initialized = refl; keyring = Grows-refl c d.keyring }

  answer_call-Steps :
      (id : Value) (m : Moment) (p : CallToolParams) (d d' : McpDaemon) (t : Option ToolName)
      → answer_call json c id m p d t ≡ ok d'
      → Steps d d' (named_payments json m p.arguments t) d.initialized
  unfolding answer_call named_payments send_error send_response
  answer_call-Steps id m p d d' none h =
      rw (sym (ok_injective h)) (Steps-write _ d d [] d.initialized (Steps-refl d))
  answer_call-Steps id m p d d' (some t) h =
      let (called, made, rest) = >>=-eq-ok (call_tool json c m p.arguments d t) _ h in
      let done = call_tool-Called json m p.arguments d c t made in
      rw (sym (ok_injective rest)) (
        Steps-write _ d called.0 _ d.initialized
          (record { fw = done.fw; initialized = done.initialized; keyring = done.keyring }))

  handle_tools_call-Steps :
      (m : Moment) (req : Request) (d d' : McpDaemon) (p : Decoded CallToolParams)
      → json.call_params req.params ≡ p
      → handle_tools_call json c m req d ≡ ok d'
      → Steps d d' (call_payments json m p) d.initialized
  unfolding call_payments send_error handle_tools_call
  handle_tools_call-Steps m req d d' (undecoded e) r h =
      rw (sym (ok_injective (rw (r, handle_tools_call) at h)))
        (Steps-write _ d d [] d.initialized (Steps-refl d))
  handle_tools_call-Steps m req d d' (decoded p) r h =
      answer_call-Steps req.id m p d d' (tool_named p.name) (rw (r, handle_tools_call) at h)

  handle_initialize-Steps :
      (req : Request) (d : McpDaemon) → Steps d (handle_initialize json req d) [] d.initialized
  unfolding handle_initialize send_error send_response
  handle_initialize-Steps req d =
      let answered : (v : Response) → Steps d (write json v d) [] d.initialized =
        λ v. Steps-write v d d [] d.initialized (Steps-refl d) in
      elim (Option-cases (json.initialize_params req.params)) [
        | inl e ↦ rw (e, handle_initialize) (answered _)
        | inr (why, e) ↦ elim (Bool-cases (ltb 0 (length req.params))) [
          | inl some_params ↦ rw (e, some_params, handle_initialize) (answered _)
          | inr no_params ↦ rw (e, no_params, handle_initialize) (answered _)
        ]
      ]

  dispatch_method-Steps :
      (m : Moment) (req : Request) (d d' : McpDaemon) (method : Method)
      → dispatch_method json c m req d method ≡ ok d'
      → Steps d d' (method_payments json m req method) (d.initialized || is_notice method)
  unfolding dispatch_method method_payments handle_tools_list send_error send_response run_session
  dispatch_method-Steps m req d d' initialize h =
      rw (or_false d.initialized, sym (ok_injective h)) (handle_initialize-Steps req d)
  dispatch_method-Steps m req d d' initialized_notification h = rw (sym (ok_injective h)) (record {
    fw = refl;
    initialized = sym (or_true d.initialized);
    keyring = Grows-refl c d.keyring;
  })
  dispatch_method-Steps m req d d' tools_list h =
      rw (or_false d.initialized, sym (ok_injective h))
        (Steps-write _ d d [] d.initialized (Steps-refl d))
  dispatch_method-Steps m req d d' tools_call h =
      rw (or_false d.initialized)
        (handle_tools_call-Steps m req d d' (json.call_params req.params) refl h)
  dispatch_method-Steps m req d d' unknown h =
      rw (or_false d.initialized, sym (ok_injective h))
        (Steps-write _ d d [] d.initialized (Steps-refl d))

  -- A step of a request that the daemon reads.
  abbrev StepsBy : Moment → McpDaemon → McpDaemon → Option Request → Type 0
  StepsBy m d d' req =
      Steps d d' (request_payments json d.initialized m req) (ready_after d.initialized req)

  refused-StepsBy : (m : Moment) (v : Response) (d : McpDaemon) → StepsBy m d (write json v d) none
  unfolding request_payments ready_after
  refused-StepsBy m v d = Steps-write v d d [] d.initialized (Steps-refl d)

  early-StepsBy :
      (m : Moment) (req : Request) (v : Response) (d : McpDaemon)
      → d.initialized ≡ false
      → is_handshake (method_named req.method) ≡ false
      → StepsBy m d (write json v d) (some req)
  unfolding request_payments ready_after
  early-StepsBy m req v d early other =
      let plain : is_notice (method_named req.method) ≡ false =
        not_notice (method_named req.method) other in
      let fixed = Steps-refl d in
      Steps-write v d d _ _ (record {
        fw = rw early fixed.fw;
        initialized = rw plain (sym (or_false d.initialized));
        keyring = fixed.keyring;
      })

  valid-StepsBy :
      (m : Moment) (req : Request) (d d' : McpDaemon)
      → (d.initialized ≡ true) ⊎ (is_handshake (method_named req.method) ≡ true)
      → dispatch_method json c m req d (method_named req.method) ≡ ok d'
      → StepsBy m d d' (some req)
  unfolding request_payments ready_after
  valid-StepsBy m req d d' (inl ready) h =
      let done = dispatch_method-Steps m req d d' (method_named req.method) h in
      record { fw = rw ready done.fw; initialized = done.initialized; keyring = done.keyring }
  valid-StepsBy m req d d' (inr shake) h =
      let done = dispatch_method-Steps m req d d' (method_named req.method) h in
      let nothing = handshake_pays json m req (method_named req.method) shake in
      elim (Bool-cases d.initialized) [
        | inl e ↦ record {
          fw = rw e done.fw;
          initialized = done.initialized;
          keyring = done.keyring;
        }
        | inr e ↦ record {
          fw = rw e (rw nothing at done.fw);
          initialized = done.initialized;
          keyring = done.keyring;
        }
      ]

  handle_valid-StepsBy :
      (m : Moment) (req : Request) (d d' : McpDaemon) (ready : Bool)
      → d.initialized ≡ ready
      → handle_valid json c ready m req d ≡ ok d'
      → StepsBy m d d' (some req)
  unfolding handle_valid send_error
  handle_valid-StepsBy m req d d' true e h = valid-StepsBy m req d d' (inl e) h
  handle_valid-StepsBy m req d d' false e h =
      elim (Bool-cases (is_handshake (method_named req.method))) [
        | inl shake ↦ valid-StepsBy m req d d' (inr shake) (rw (shake, handle_valid) at h)
        | inr other ↦
            rw (sym (ok_injective (rw (other, handle_valid) at h)))
              (early-StepsBy m req _ d e other)
      ]

  handle_parsed-StepsBy :
      (m : Moment) (req : Request) (d d' : McpDaemon)
      → handle_parsed json c m req d ≡ ok d'
      → StepsBy m d d' (checked_request (decoded req))
  unfolding handle_parsed checked_request send_error
  handle_parsed-StepsBy m req d d' h =
      elim (Bool-cases (not (bytes_equal req.jsonrpc (codes "2.0")) || length req.method == 0)) [
        | inl bad ↦
            rw (bad, sym (ok_injective (rw (bad, handle_parsed) at h))) (refused-StepsBy m _ d)
        | inr good ↦
            rw good
              (handle_valid-StepsBy m req d d' d.initialized refl (rw (good, handle_parsed) at h))
      ]

  handle_message-StepsBy :
      (m : Moment) (line : Bytes) (d d' : McpDaemon) (r : Decoded Request)
      → json.request line ≡ r
      → handle_message json c m line d ≡ ok d'
      → StepsBy m d d' (checked_request r)
  unfolding checked_request handle_message send_error
  handle_message-StepsBy m line d d' (undecoded e) r h =
      rw (sym (ok_injective (rw (r, handle_message) at h))) (refused-StepsBy m _ d)
  handle_message-StepsBy m line d d' (decoded req) r h =
      handle_parsed-StepsBy m req d d' (rw (r, handle_message) at h)

  line-StepsBy :
      (m : Moment) (line : Bytes) (d d' : McpDaemon)
      → (if is_blank line then ok d else handle_message json c m line d) ≡ ok d'
      → StepsBy m d d' (request_of json line)
  unfolding request_of request_payments ready_after
  line-StepsBy m line d d' h = elim (Bool-cases (is_blank line)) [
    | inl e ↦ rw (e, sym (ok_injective (rw e at h))) (Steps-refl d)
    | inr e ↦ rw e (handle_message-StepsBy m line d d' (json.request line) refl (rw e at h))
  ]

  -- The firewall behind a session is that of the payments that its lines ask for, and its wallets
  -- are still there.
  pub run_daemon_lem :
      (feed : List (Moment × Bytes)) (d d' : McpDaemon)
      → run_daemon json c feed d ≡ ok d'
      → (d'.fw ≡ run_session d.fw (session_payments json d.initialized feed))
        × Grows c d.keyring d'.keyring
  unfolding run_daemon session_payments run_session
  run_daemon_lem [] d d' h = rw (sym (ok_injective h)) (refl, Grows-refl c d.keyring)
  run_daemon_lem ((m, line) ∷ rest) d d' h =
      let (d1, first, after) =
        >>=-eq-ok (if is_blank line then ok d else handle_message json c m line d) _ h in
      let step = line-StepsBy m line d d1 first in
      let (fw, keys) = run_daemon_lem rest d1 d' after in
      (
        fw
            ∙ rw (step.initialized, step.fw)
                (sym (
                  run_session-append (request_payments json d.initialized m (request_of json line))
                    (session_payments json (ready_after d.initialized (request_of json line)) rest)
                    d.fw)),
        Grows-trans c d.keyring d1.keyring d'.keyring step.keyring keys,
      )
