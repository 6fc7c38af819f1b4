-- ===== src/Firewall/Negative.antt =====
-- `evaluate` has no rule against a negative amount.
use go_blockchain.Prelude.{
  ◌≡◌, none, arith, ℤ, pos, ◌+ℤ◌, ◌-ℤ◌, ◌<ℤ◌, add64_exact, int64_laws, IsInt64, ◌∙◌, Bytes,
}
use go_blockchain.Firewall.{Firewall, Payment, day, spend}
use go_blockchain.Firewall.Rules.{recent, total64, IsAllowed, evaluate_iff}
use go_blockchain.Firewall.Budget.{spent-spend_accepted}

-- The sum of the last day's amounts, as `evaluate` computes it.
abbrev pub day_total64 : Firewall → ℤ → ℤ
day_total64 fw now = total64 (pos 0) (recent (now -ℤ day) fw.rolling_window)

negative-IsAllowed :
    (fw : Firewall) (now a : ℤ) (recipient : Bytes)
    → IsAllowed fw now (pos 0) recipient
    → a <ℤ pos 0
    → IsInt64 fw.session_spent
    → IsInt64 (fw.session_spent +ℤ a)
    → IsInt64 (day_total64 fw now)
    → IsInt64 (day_total64 fw now +ℤ a)
    → IsAllowed fw now a recipient
negative-IsAllowed fw now a recipient h neg i j k l =
    let d = day_total64 fw now in
    let s0 = add64_exact fw.session_spent (pos 0) (omega int64_laws) in
    let s = add64_exact fw.session_spent a j in
    let d0 = add64_exact d (pos 0) (omega int64_laws) in
    let d1 = add64_exact d a l in
    let session = rw s0 at h.under_session in
    let rolling = rw d0 at h.under_rolling in
    record {
      under_cap = omega arith;
      under_per_transaction = let per = h.under_per_transaction in omega arith;
      under_session = rw s (omega int64_laws);
      under_rolling = rw d1 (omega int64_laws);
      under_rate = h.under_rate;
      listed = h.listed;
    }

-- Where a payment of nothing is allowed, a payment of any negative amount is too, as long as the two
-- sums do not leave int64; it lowers the session's spending by that amount, so it wins back budget.
pub negative_amount_wins_budget :
    (fw : Firewall) (p : Payment)
    → IsAllowed fw p.evaluated_at (pos 0) p.recipient
    → p.amount <ℤ pos 0
    → IsInt64 fw.session_spent
    → IsInt64 (fw.session_spent +ℤ p.amount)
    → IsInt64 (day_total64 fw p.evaluated_at)
    → IsInt64 (day_total64 fw p.evaluated_at +ℤ p.amount)
    → ((spend fw p).1 ≡ none)
      × ((spend fw p).0.session_spent ≡ fw.session_spent +ℤ p.amount)
      × ((spend fw p).0.session_spent <ℤ fw.session_spent)
negative_amount_wins_budget fw p h neg i j k l =
    let allowed =
      (evaluate_iff fw p.evaluated_at p.amount p.recipient).1
        (negative-IsAllowed fw p.evaluated_at p.amount p.recipient h neg i j k l) in
    let let_through : (spend fw p).1 ≡ none = unfold spend in ground arith in
    let spent =
      (spent-spend_accepted fw p let_through).0 ∙ add64_exact fw.session_spent p.amount j in
    (let_through, spent, rw spent (omega int64_laws))
