-- ===== src/Mcp/Session/Total.antt =====
-- A session ends with a result, and within the budget of its policy.
use go_blockchain.Prelude.{
  ◌<◌, ◌^◌, ◌≡◌, refl, sym, ap, ◌∙◌, Bool, true, false, List, [], ◌∷◌, Option, none, some,
  if◌then◌else◌, arith, ◌≤ℤ◌, Bytes, Assoc, All, Outcome, ok, err, panic, ◌>>=◌, >>=-eq-ok,
  ok_injective, insert, lookup, or_err-eq-ok, ◌&&◌, ◌||◌, not, ◌==◌, length, bytes_equal, codes,
}
use go_blockchain.Core.External.{Crypto, PrivateKey}
use go_blockchain.Core.Bignum.{fill_bytes_ok}
use go_blockchain.Core.Wallet.{Wallet, new_wallet, new_key_pair, get_address}
use go_blockchain.Firewall.{Policy, Firewall, run_session, new_firewall}
use go_blockchain.Firewall.Budget.{total, accepted, IsCharge, HasRoom, run_session_within_budget}
use go_blockchain.Mcp.{
  Value, Request, CallToolParams, Decoded, decoded, undecoded, Json, Moment, McpDaemon,
  new_mcp_daemon,
}
use go_blockchain.Mcp.Wallets.{
  Keyring, get_wallet, get_primary_address, new_keyring, generate_new_wallet,
}
use go_blockchain.Mcp.Keys.{IsSound, Grows-IsSound, new_keyring-IsSound}
use go_blockchain.Mcp.Tools.{
  ToolName, wallet_create, wallet_balance, tx_send, tx_escrow_create, tx_escrow_claim,
  tx_escrow_refund, tx_zkcp_create, tx_zkcp_claim, blockchain_height, session_budget, tool_named,
  tool_wallet_create, call_tool, answer_call, handle_tools_call,
}
use go_blockchain.Mcp.Daemon.{
  Method, initialize, initialized_notification, tools_list, tools_call, unknown, method_named,
  is_handshake, is_blank, dispatch_method, handle_valid, handle_parsed, handle_message, run_daemon,
}
use go_blockchain.Mcp.Session.{session_payments}
use go_blockchain.Mcp.Session.Steps.{run_daemon_lem}

-- The coordinates of a generated key are 256-bit numbers, as those of P-256 are.
abbrev pub Fits : Option PrivateKey → Type 0
Fits none = Unit {0}
Fits (some k) = (k.x < 2 ^ 256) × (k.y < 2 ^ 256)

-- A result that is no panic.
abbrev pub Ends {ℓ} : {A : Type ℓ} → Outcome A → Type 0
Ends (ok a) = Unit {0}
Ends (err e) = Unit {0}
Ends panic = ⊥

abbrev pub Succeeds {ℓ} : {A : Type ℓ} → Outcome A → Type ℓ
Succeeds {A = A} r = (a : A) × (r ≡ ok a)

new_wallet-Ends : (generated : Option PrivateKey) → Fits generated → Ends (new_wallet generated)
unfolding new_wallet new_key_pair
new_wallet-Ends none f = tt
new_wallet-Ends (some k) (x, y) =
    rw (fill_bytes_ok 32 k.x (omega arith), fill_bytes_ok 32 k.y (omega arith)) tt

module _ (json : Json) (c : Crypto) where
  generate_new_wallet-Ends :
      (generated : Option PrivateKey) (kr : Keyring)
      → Fits generated
      → Ends (generate_new_wallet c generated kr)
  unfolding generate_new_wallet
  generate_new_wallet-Ends generated kr f = go (new_wallet generated) (new_wallet-Ends generated f)
    where
      go :
          (r : Outcome Wallet)
          → Ends r
          → Ends {A = Keyring × Bytes} (
              r >>= λ w.
              let addr = get_address c w in ok (record kr { keys = insert addr w kr.keys }, addr))
      go (ok w) e = tt
      go (err why) e = tt
      go panic e = absurd e

  tool_wallet_create-Succeeds :
      (m : Moment) (d : McpDaemon) → Fits m.generated → Succeeds (tool_wallet_create c m d)
  unfolding tool_wallet_create
  tool_wallet_create-Succeeds m d f =
      go (generate_new_wallet c m.generated d.keyring)
        (generate_new_wallet-Ends m.generated d.keyring f) refl
    where
      go :
          (r : Outcome (Keyring × Bytes))
          → Ends r
          → generate_new_wallet c m.generated d.keyring ≡ r
          → Succeeds (tool_wallet_create c m d)
      go (ok made) ends e = rw (e, tool_wallet_create) (_, refl)
      go (err why) ends e = rw (e, tool_wallet_create) (_, refl)
      go panic ends e = absurd ends

  call_tool-Succeeds :
      (m : Moment) (args : Assoc Value) (d : McpDaemon) (t : ToolName)
      → Fits m.generated
      → Succeeds (call_tool json c m args d t)
  unfolding call_tool
  call_tool-Succeeds m args d wallet_create f = tool_wallet_create-Succeeds m d f
  call_tool-Succeeds m args d wallet_balance f = (_, refl)
  call_tool-Succeeds m args d tx_send f = (_, refl)
  call_tool-Succeeds m args d tx_escrow_create f = (_, refl)
  call_tool-Succeeds m args d tx_escrow_claim f = (_, refl)
  call_tool-Succeeds m args d tx_escrow_refund f = (_, refl)
  call_tool-Succeeds m args d tx_zkcp_create f = (_, refl)
  call_tool-Succeeds m args d tx_zkcp_claim f = (_, refl)
  call_tool-Succeeds m args d blockchain_height f = (_, refl)
  call_tool-Succeeds m args d session_budget f = (_, refl)

  answer_call-Succeeds :
      (id : Value) (m : Moment) (p : CallToolParams) (d : McpDaemon) (t : Option ToolName)
      → Fits m.generated
      → Succeeds (answer_call json c id m p d t)
  unfolding answer_call
  answer_call-Succeeds id m p d none f = (_, refl)
  answer_call-Succeeds id m p d (some t) f =
      let (called, e) = call_tool-Succeeds m p.arguments d t f in rw (e, answer_call) (_, refl)

  dispatch_method-Succeeds :
      (m : Moment) (req : Request) (d : McpDaemon) (method : Method)
      → Fits m.generated
      → Succeeds (dispatch_method json c m req d method)
  unfolding dispatch_method handle_tools_call
  dispatch_method-Succeeds m req d initialize f = (_, refl)
  dispatch_method-Succeeds m req d initialized_notification f = (_, refl)
  dispatch_method-Succeeds m req d tools_list f = (_, refl)
  dispatch_method-Succeeds m req d tools_call f = go (json.call_params req.params) refl
    where
      go :
          (r : Decoded CallToolParams)
          → json.call_params req.params ≡ r
          → Succeeds (handle_tools_call json c m req d)
      go (undecoded e) h = rw (h, handle_tools_call) (_, refl)
      go (decoded p) h =
          let (d', e) = answer_call-Succeeds req.id m p d (tool_named p.name) f in
          (d', rw (h, handle_tools_call) e)
  dispatch_method-Succeeds m req d unknown f = (_, refl)

  if-Succeeds {ℓ} :
      {A : Type ℓ} (b : Bool) {r r' : Outcome A}
      → Succeeds r
      → Succeeds r'
      → Succeeds (if b then r else r')
  if-Succeeds true s s' = s
  if-Succeeds false s s' = s'

  handle_message-Succeeds :
      (m : Moment) (line : Bytes) (d : McpDaemon)
      → Fits m.generated
      → Succeeds (handle_message json c m line d)
  unfolding handle_message handle_parsed handle_valid
  handle_message-Succeeds m line d f = go (json.request line) refl
    where
      go : (r : Decoded Request) → json.request line ≡ r → Succeeds (handle_message json c m line d)
      go (undecoded e) h = rw (h, handle_message) (_, refl)
      go (decoded req) h =
          let valid =
            if-Succeeds (not d.initialized && not (is_handshake (method_named req.method)))
              (_, refl) (dispatch_method-Succeeds m req d (method_named req.method) f) in
          let whole : Succeeds (handle_parsed json c m req d) =
            if-Succeeds (not (bytes_equal req.jsonrpc (codes "2.0")) || length req.method == 0)
              (_, refl) valid in
          let (d', e) = whole in (d', rw (h, handle_message) e)

  abbrev pub AllFit : List (Moment × Bytes) → Type 0
  AllFit = All λ line. Fits line.0.generated

  -- A session ends, whatever its lines hold.
  run_daemon-Succeeds :
      (feed : List (Moment × Bytes)) (d : McpDaemon)
      → AllFit feed
      → Succeeds (run_daemon json c feed d)
  unfolding run_daemon
  run_daemon-Succeeds [] d f = (d, refl)
  run_daemon-Succeeds ((m, line) ∷ rest) d (f, fs) =
      let (d1, e1) =
        if-Succeeds (is_blank line) {r = ok d} (d, refl) (handle_message-Succeeds m line d f) in
      let (d2, e2) = run_daemon-Succeeds rest d1 fs in (d2, rw (e1, run_daemon) e2)

  new_mcp_daemon-fresh :
      (fw : Firewall) (generated : Option PrivateKey) (d : McpDaemon)
      → new_mcp_daemon c fw generated ≡ ok d
      → (d.fw ≡ fw) × (d.initialized ≡ false)
  unfolding new_mcp_daemon
  new_mcp_daemon-fresh fw generated d h =
      let (kr, made, rest) = >>=-eq-ok (new_keyring c generated) _ h in
      rw (sym (ok_injective rest)) (refl, refl)

  -- For a policy whose session budget is not negative and lies 10^11 below the top of int64, lines
  -- that ask for no negative amount, and generated keys with coordinates of 256 bits: a new daemon
  -- goes through the lines to an end; its firewall is then that of the payments that the lines ask
  -- for, calls of the three tools that spend, with their arguments there, behind a notification that
  -- the client is initialized; and the spending of the session is the exact sum of the payments that
  -- were let through, and within the budget.
  pub run_daemon_within_budget :
      (policy : Policy)
      → HasRoom policy.session_budget
      → (generated : Option PrivateKey) (d : McpDaemon)
      → new_mcp_daemon c (new_firewall policy) generated ≡ ok d
      → (feed : List (Moment × Bytes)) → AllFit feed
      → All IsCharge (session_payments json false feed)
      → (d' : McpDaemon) × (run_daemon json c feed d ≡ ok d')
        × (d'.fw ≡ run_session (new_firewall policy) (session_payments json false feed))
        × (d'.fw.session_spent
            ≡ total (accepted (new_firewall policy) (session_payments json false feed)))
        × (d'.fw.session_spent ≤ℤ policy.session_budget)
  run_daemon_within_budget policy room generated d fresh feed fits charges =
      let (d', ended) = run_daemon-Succeeds feed d fits in
      let (fw, flag) = new_mcp_daemon-fresh (new_firewall policy) generated d fresh in
      let same : d'.fw ≡ run_session (new_firewall policy) (session_payments json false feed) =
        (run_daemon_lem json c feed d d' ended).0 ∙ rw (fw, flag) refl in
      let (sum, low, high) =
        run_session_within_budget policy (session_payments json false feed) room charges in
      (d', ended, same, rw same sum, rw same high)

  -- In a new daemon and after any lines, if the coordinates of the generated keys have 256 bits: each
  -- wallet that the keyring gives for an address has that address, and the primary address is the
  -- first one and still has a wallet.
  pub run_daemon-IsSound :
      (fw : Firewall) (generated : Option PrivateKey) (d : McpDaemon)
      → new_mcp_daemon c fw generated ≡ ok d
      → (feed : List (Moment × Bytes)) → AllFit feed
      → (d' : McpDaemon) × (run_daemon json c feed d ≡ ok d')
        × (get_primary_address d'.keyring ≡ get_primary_address d.keyring)
        × Succeeds (get_wallet d'.keyring (get_primary_address d.keyring))
        × ((addr : Bytes) (w : Wallet) → get_wallet d'.keyring addr ≡ ok w → get_address c w ≡ addr)
  unfolding new_mcp_daemon get_primary_address get_wallet
  run_daemon-IsSound fw generated d fresh feed fits =
      let (d', ended) = run_daemon-Succeeds feed d fits in
      let (_, grows) = run_daemon_lem json c feed d d' ended in
      let (kr, made, rest) = >>=-eq-ok (new_keyring c generated) _ fresh in
      let start : IsSound c d.keyring =
        rw (ap (λ x. x.keyring) (sym (ok_injective rest)))
          (new_keyring-IsSound c generated kr made) in
      let sound = Grows-IsSound c d.keyring d'.keyring grows start in
      let (w, found) = sound.primary in
      let held : lookup d.keyring.primary d'.keyring.keys ≡ some w =
        ap (λ a. lookup a d'.keyring.keys) (sym grows.primary) ∙ found in
      (
        d',
        ended,
        grows.primary,
        rw held (w, refl),
        λ addr v e. sound.addresses addr v (or_err-eq-ok (lookup addr d'.keyring.keys) _ e),
      )
