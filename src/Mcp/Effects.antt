-- ===== src/Mcp/Effects.antt =====
-- What the answers and the tools of the daemon do to its state.
use go_blockchain.Prelude.{
  ◌≡◌, refl, ap, sym, List, [], ◌∷◌, Option, none, some, ℕ, Bytes, codes, Assoc, ok, panic,
  ok_injective, Option-cases, Outcome-cases, inl, inr,
}
use go_blockchain.Core.External.{Crypto}
use go_blockchain.Firewall.{Firewall, Payment, Reason, spend, run_session}
use go_blockchain.Mcp.{Value, Message, Response, Json, Moment, McpDaemon, write}
use go_blockchain.Mcp.Wallets.{generate_new_wallet}
use go_blockchain.Mcp.Keys.{Grows, Grows-refl, generate_new_wallet-Grows}
use go_blockchain.Mcp.Tools.{
  ToolName, wallet_create, wallet_balance, tx_send, tx_escrow_create, tx_escrow_claim,
  tx_escrow_refund, tx_zkcp_create, tx_zkcp_claim, blockchain_height, session_budget, string_arg,
  number_arg, Answer, settle_payment, payment_at, tool_wallet_create, tool_tx_send,
  tool_tx_escrow_create, tool_tx_zkcp_create, call_tool,
}

abbrev pub SameFirewall : McpDaemon → McpDaemon → Type 0
SameFirewall d d' = (d'.fw ≡ d.fw) × (d'.initialized ≡ d.initialized)

-- Writing changes nothing but the output.
pub write-SameState :
    (json : Json) (v : Response) (d : McpDaemon)
    → SameFirewall d (write json v d) × ((write json v d).keyring ≡ d.keyring)
unfolding write
write-SameState json v d = elim (Option-cases (json.response v)) [
  | inl e ↦ rw (e, write) ((refl, refl), refl)
  | inr (line, e) ↦ rw (e, write) ((refl, refl), refl)
]

-- The payment that a tool asks the firewall for, where it has a recipient and an amount.
abbrev pub asked : Json → Moment → Bytes → Option Bytes → Option ℕ → List Payment
asked json m label none f = []
asked json m label (some to) none = []
asked json m label (some to) (some f) = payment_at m (json.to_int64 f) to label ∷ []

abbrev pub with_arg {ℓ} : {A : Type ℓ} → Option A → List Payment → List Payment
with_arg none ps = []
with_arg (some a) ps = ps

-- The payments that a call of a tool makes: of three tools, where their arguments are there.
unfoldable pub tool_payments : Json → Moment → Assoc Value → ToolName → List Payment
tool_payments json m args tx_send =
    asked json m (codes "tx_signed_and_sent") (string_arg (codes "to") args)
      (number_arg (codes "amount") args)
tool_payments json m args tx_escrow_create = with_arg (number_arg (codes "timeout_blocks") args) (
    asked json m (codes "tx_escrow_created") (string_arg (codes "seller") args)
      (number_arg (codes "amount") args))
tool_payments json m args tx_zkcp_create = with_arg (string_arg (codes "hash_lock") args) (
    asked json m (codes "tx_zkcp_created") (string_arg (codes "to") args)
      (number_arg (codes "amount") args))
tool_payments json m args _ = []

-- A daemon after some payments: the firewall has seen them, and the rest stays.
pub record Pays (d d' : McpDaemon) (ps : List Payment) : Type 0 where
  pub fw : d'.fw ≡ run_session d.fw ps
  pub initialized : d'.initialized ≡ d.initialized
  pub keyring : d'.keyring ≡ d.keyring
  pub out : d'.out ≡ d.out

Pays-none : (d : McpDaemon) → Pays d d []
unfolding run_session
Pays-none d = record { fw = refl; initialized = refl; keyring = refl; out = refl }

Pays-settle_payment :
    (d : McpDaemon) (message : Message) (p : Payment)
    → Pays d (settle_payment d message (spend d.fw p)).0 (p ∷ [])
unfolding settle_payment run_session
Pays-settle_payment d message p = go (spend d.fw p) refl
  where
    go :
        (r : Firewall × Option Reason)
        → spend d.fw p ≡ r
        → Pays d (settle_payment d message r).0 (p ∷ [])
    go (fw, none) e = record {
      fw = ap (λ x. x.0) (sym e);
      initialized = refl;
      keyring = refl;
      out = refl;
    }
    go (fw, some why) e = record {
      fw = ap (λ x. x.0) (sym e);
      initialized = refl;
      keyring = refl;
      out = refl;
    }

module _ (json : Json) (m : Moment) (args : Assoc Value) (d : McpDaemon) where
  tool_tx_send-Pays : Pays d (tool_tx_send json m args d).0 (tool_payments json m args tx_send)
  unfolding tool_tx_send tool_payments
  tool_tx_send-Pays = elim (Option-cases (string_arg (codes "to") args)) [
    | inl e ↦ rw (tool_tx_send, e) (Pays-none d)
    | inr (to, e) ↦ elim (Option-cases (number_arg (codes "amount") args)) [
      | inl e' ↦ rw (tool_tx_send, e, e') (Pays-none d)
      | inr (f, e') ↦ rw (tool_tx_send, e, e') (Pays-settle_payment d _ _)
    ]
  ]

  tool_tx_escrow_create-Pays :
      Pays d (tool_tx_escrow_create json m args d).0 (tool_payments json m args tx_escrow_create)
  unfolding tool_tx_escrow_create tool_payments
  tool_tx_escrow_create-Pays = elim (Option-cases (string_arg (codes "seller") args)) [
    | inl e ↦ elim (Option-cases (number_arg (codes "timeout_blocks") args)) [
      | inl e' ↦ rw (tool_tx_escrow_create, e, e') (Pays-none d)
      | inr (t, e') ↦ rw (tool_tx_escrow_create, e, e') (Pays-none d)
    ]
    | inr (to, e) ↦ elim (Option-cases (number_arg (codes "amount") args)) [
      | inl e' ↦ elim (Option-cases (number_arg (codes "timeout_blocks") args)) [
        | inl e'' ↦ rw (tool_tx_escrow_create, e, e', e'') (Pays-none d)
        | inr (t, e'') ↦ rw (tool_tx_escrow_create, e, e', e'') (Pays-none d)
      ]
      | inr (f, e') ↦ elim (Option-cases (number_arg (codes "timeout_blocks") args)) [
        | inl e'' ↦ rw (tool_tx_escrow_create, e, e', e'') (Pays-none d)
        | inr (t, e'') ↦ rw (tool_tx_escrow_create, e, e', e'') (Pays-settle_payment d _ _)
      ]
    ]
  ]

  tool_tx_zkcp_create-Pays :
      Pays d (tool_tx_zkcp_create json m args d).0 (tool_payments json m args tx_zkcp_create)
  unfolding tool_tx_zkcp_create tool_payments
  tool_tx_zkcp_create-Pays = elim (Option-cases (string_arg (codes "hash_lock") args)) [
    | inl e ↦ elim (Option-cases (string_arg (codes "to") args)) [
      | inl e' ↦ rw (tool_tx_zkcp_create, e', e) (Pays-none d)
      | inr (to, e') ↦ elim (Option-cases (number_arg (codes "amount") args)) [
        | inl e'' ↦ rw (tool_tx_zkcp_create, e', e'', e) (Pays-none d)
        | inr (f, e'') ↦ rw (tool_tx_zkcp_create, e', e'', e) (Pays-none d)
      ]
    ]
    | inr (lock, e) ↦ elim (Option-cases (string_arg (codes "to") args)) [
      | inl e' ↦ rw (tool_tx_zkcp_create, e', e) (Pays-none d)
      | inr (to, e') ↦ elim (Option-cases (number_arg (codes "amount") args)) [
        | inl e'' ↦ rw (tool_tx_zkcp_create, e', e'', e) (Pays-none d)
        | inr (f, e'') ↦ rw (tool_tx_zkcp_create, e', e'', e) (Pays-settle_payment d _ _)
      ]
    ]
  ]

  -- A call of any tool.
  pub record Called (c : Crypto) (d' : McpDaemon) (t : ToolName) : Type 0 where
    pub fw : d'.fw ≡ run_session d.fw (tool_payments json m args t)
    pub initialized : d'.initialized ≡ d.initialized
    pub keyring : Grows c d.keyring d'.keyring
    pub out : d'.out ≡ d.out

  panic_not_ok {ℓ} : {A : Type ℓ} {a : A} → panic ≡ ok a → ⊥
  panic_not_ok h = cc

  Pays-Called :
      (c : Crypto) (d' : McpDaemon) (t : ToolName)
      → Pays d d' (tool_payments json m args t)
      → Called c d' t
  Pays-Called c d' t p = record {
    fw = p.fw;
    initialized = p.initialized;
    out = p.out;
    keyring = rw p.keyring (Grows-refl c d.keyring);
  }

  silent-Called : (c : Crypto) (t : ToolName) → tool_payments json m args t ≡ [] → Called c d t
  unfolding run_session
  silent-Called c t none_asked = Pays-Called c d t (rw none_asked (Pays-none d))

  pub call_tool-Called :
      (c : Crypto) (t : ToolName) {r : McpDaemon × Answer}
      → call_tool json c m args d t ≡ ok r
      → Called c r.0 t
  unfolding call_tool tool_payments tool_wallet_create run_session
  call_tool-Called c wallet_create h =
      elim (Outcome-cases (generate_new_wallet c m.generated d.keyring)) [
        | inl (made, e) ↦ rw (sym (ok_injective (rw (e, tool_wallet_create) at h))) (record {
          fw = refl;
          initialized = refl;
          out = refl;
          keyring = generate_new_wallet-Grows c m.generated d.keyring made.0 made.1 e;
        })
        | inr (inl (why, e)) ↦
            rw (sym (ok_injective (rw (e, tool_wallet_create) at h)))
              (silent-Called c wallet_create refl)
        | inr (inr e) ↦ absurd (panic_not_ok (rw (e, tool_wallet_create) at h))
      ]
  call_tool-Called c wallet_balance h =
      rw (sym (ok_injective h)) (silent-Called c wallet_balance refl)
  call_tool-Called c tx_send h =
      rw (sym (ok_injective h)) (Pays-Called c _ tx_send tool_tx_send-Pays)
  call_tool-Called c tx_escrow_create h =
      rw (sym (ok_injective h)) (Pays-Called c _ tx_escrow_create tool_tx_escrow_create-Pays)
  call_tool-Called c tx_escrow_claim h =
      rw (sym (ok_injective h)) (silent-Called c tx_escrow_claim refl)
  call_tool-Called c tx_escrow_refund h =
      rw (sym (ok_injective h)) (silent-Called c tx_escrow_refund refl)
  call_tool-Called c tx_zkcp_create h =
      rw (sym (ok_injective h)) (Pays-Called c _ tx_zkcp_create tool_tx_zkcp_create-Pays)
  call_tool-Called c tx_zkcp_claim h =
      rw (sym (ok_injective h)) (silent-Called c tx_zkcp_claim refl)
  call_tool-Called c blockchain_height h =
      rw (sym (ok_injective h)) (silent-Called c blockchain_height refl)
  call_tool-Called c session_budget h =
      rw (sym (ok_injective h)) (silent-Called c session_budget refl)
