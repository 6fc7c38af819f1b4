-- ===== src/Firewall/Tests.antt =====
-- The firewall's theorems at concrete payments.
use go_blockchain.Prelude.{
  ◌≡◌, refl, ◌↔◌, List, [], ◌∷◌, none, some, arith, ℤ, pos, ◌+ℤ◌, ◌-ℤ◌, ◌≤ℤ◌, codes, bytes_equal,
  add64, wrap64,
}
use go_blockchain.Firewall.{
  Policy, Firewall, Payment, not_listed, day, new_firewall, evaluate, spend, run_session,
  scan_window, scan, scan_entry, evaluate_window, is_listed, is_unlisted, record_transaction,
}
use go_blockchain.Firewall.Rules.{IsAllowed, recent, evaluate_iff}
use go_blockchain.Firewall.Budget.{total, accepted, run_session_within_budget}
use go_blockchain.Firewall.Rolling.{run_session_within_rolling}

abbrev policy : Policy
policy = record {
  version = pos 1;
  session_budget = pos 1000;
  max_per_transaction = pos 400;
  rolling_24h_budget = pos 800;
  max_tx_per_hour = pos 3;
  allowed_recipients = codes "bob" ∷ [];
  node_grpc_address = codes "localhost:50051";
  persistent_key_path = [];
  signature = [];
  signature_public_key = [];
}

abbrev to_bob : ℤ → ℤ → Payment
to_bob t a = record {
  evaluated_at = t;
  recorded_at = t +ℤ pos 1;
  amount = a;
  recipient = codes "bob";
  tx_id = codes "tx";
}

abbrev first : ℤ
first = pos 1_000_000_000_000_000

-- The third payment would pass the rolling budget; a day later it is within it.
abbrev payments : List Payment
payments =
    to_bob first (pos 400)
    ∷ to_bob (first +ℤ pos 9) (pos 400)
    ∷ to_bob (first +ℤ pos 20) (pos 100)
    ∷ to_bob (first +ℤ day +ℤ pos 10) (pos 200)
    ∷ []

spent-payments : (run_session (new_firewall policy) payments).session_spent ≡ pos 1000
unfolding run_session spend evaluate new_firewall scan_window scan scan_entry evaluate_window
    is_unlisted is_listed bytes_equal record_transaction add64 wrap64 ◌+ℤ◌ ◌-ℤ◌
spent-payments = refl

abbrev used : Firewall
used = (spend (new_firewall policy) (to_bob first (pos 300))).0

unknown_recipient : (evaluate used first (pos 5) (codes "eve")).1 ≡ some (not_listed (codes "eve"))
unfolding spend evaluate new_firewall scan_window scan scan_entry evaluate_window is_unlisted
    is_listed bytes_equal record_transaction add64 wrap64 ◌+ℤ◌ ◌-ℤ◌
unknown_recipient = refl

evaluate_iff_example :
    ((evaluate used first (pos 5) (codes "bob")).1 ≡ none)
    ↔ IsAllowed used first (pos 5) (codes "bob")
evaluate_iff_example = evaluate_iff used first (pos 5) (codes "bob")

run_session_within_budget_example :
    ((run_session (new_firewall policy) payments).session_spent
      ≡ total (accepted (new_firewall policy) payments))
    × (pos 0 ≤ℤ (run_session (new_firewall policy) payments).session_spent)
    × ((run_session (new_firewall policy) payments).session_spent ≤ℤ pos 1000)
run_session_within_budget_example =
    run_session_within_budget policy payments (omega arith) (omega arith)

run_session_within_rolling_example :
    total (recent (first +ℤ day +ℤ pos 11 -ℤ day) (accepted (new_firewall policy) payments))
    ≤ℤ pos 800
unfolding ◌+ℤ◌
run_session_within_rolling_example =
    run_session_within_rolling policy payments first (first +ℤ day +ℤ pos 11) (omega arith)
      (omega arith) (omega arith) (omega arith)
