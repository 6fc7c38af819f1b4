-- ===== src/Firewall/Budget.antt =====
-- What a whole session can spend.
use go_blockchain.Prelude.{
  ◌+◌, ◌<◌, ◌≡◌, List, [], ◌∷◌, none, some, arith, ℤ, pos, ◌+ℤ◌, ◌≤ℤ◌, add64, add64_exact, int_laws,
  int64_laws, pos_part, int64_half, All, ◌∙◌, inl, inr, Option-cases,
}
use go_blockchain.Firewall.{
  Policy, LedgerEntry, Firewall, Payment, Reason, evaluate, record_transaction, spend, run_session,
  new_firewall, max_transaction_value_limit,
}

-- The exact sum of the amounts.
unfoldable pub total : List LedgerEntry → ℤ
total [] = pos 0
total (e ∷ w) = e.amount +ℤ total w

abbrev pub entry_of : Payment → LedgerEntry
entry_of p = record { timestamp = p.recorded_at; amount = p.amount; tx_id = p.tx_id }

-- The payments of a session that were let through, as ledger entries.
unfoldable pub accepted : Firewall → List Payment → List LedgerEntry
accepted fw [] = []
accepted fw (p ∷ ps) =
    let (fw', refusal) = spend fw p in
    elim refusal [ none ↦ entry_of p ∷ accepted fw' ps | some r ↦ accepted fw' ps ]

abbrev pub IsCharge : Payment → Type 0
IsCharge p = pos 0 ≤ℤ p.amount

-- A limit of the policy that is not negative and that one more payment cannot carry past the range of int64.
abbrev pub HasRoom : ℤ → Type 0
HasRoom limit = (pos 0 ≤ℤ limit) × (pos_part limit + 100_000_000_000 < int64_half)

pub policy-spend : (fw : Firewall) (p : Payment) → (spend fw p).0.policy ≡ fw.policy
unfolding spend evaluate record_transaction
policy-spend fw p = ground arith

-- A payment that is refused leaves the session's spending.
spent-spend_refused :
    (fw : Firewall) (p : Payment) {r : Reason}
    → (spend fw p).1 ≡ some r
    → (spend fw p).0.session_spent ≡ fw.session_spent
unfolding spend evaluate
spent-spend_refused fw p h = ground arith

-- One that is let through is within the limits, and its amount is added.
pub spent-spend_accepted :
    (fw : Firewall) (p : Payment)
    → (spend fw p).1 ≡ none
    → ((spend fw p).0.session_spent ≡ add64 fw.session_spent p.amount)
      × (add64 fw.session_spent p.amount ≤ℤ fw.policy.session_budget)
      × (p.amount ≤ℤ max_transaction_value_limit)
unfolding spend evaluate record_transaction
spent-spend_accepted fw p h = ground arith

add_in_room :
    (limit s a : ℤ)
    → HasRoom limit
    → pos 0 ≤ℤ s
    → s ≤ℤ limit
    → pos 0 ≤ℤ a
    → a ≤ℤ max_transaction_value_limit
    → add64 s a ≡ s +ℤ a
add_in_room limit s a room s0 sl a0 al = add64_exact s a (omega int64_laws)

-- The spending is what was let through, and stays within the budget.
abbrev Accounts : Firewall → List Payment → Type 0
Accounts fw ps =
    ((run_session fw ps).session_spent ≡ fw.session_spent +ℤ total (accepted fw ps))
    × (pos 0 ≤ℤ (run_session fw ps).session_spent)
    × ((run_session fw ps).session_spent ≤ℤ fw.policy.session_budget)

pub accepted-none :
    (fw : Firewall) (p : Payment) (ps : List Payment)
    → (spend fw p).1 ≡ none
    → accepted fw (p ∷ ps) ≡ entry_of p ∷ accepted (spend fw p).0 ps
unfolding accepted
accepted-none fw p ps h = ground arith

pub accepted-some :
    (fw : Firewall) (p : Payment) (ps : List Payment) {r : Reason}
    → (spend fw p).1 ≡ some r
    → accepted fw (p ∷ ps) ≡ accepted (spend fw p).0 ps
unfolding accepted
accepted-some fw p ps h = ground arith

run_session_lem :
    (ps : List Payment) (fw : Firewall)
    → HasRoom fw.policy.session_budget
    → pos 0 ≤ℤ fw.session_spent
    → fw.session_spent ≤ℤ fw.policy.session_budget
    → All IsCharge ps
    → Accounts fw ps
unfolding run_session total
run_session_lem [] fw room s0 sb c = (unfold accepted in omega int_laws, s0, sb)
run_session_lem (p ∷ ps) fw room s0 sb (c, cs) =
    let fw' = (spend fw p).0 in
    let same = policy-spend fw p in
    elim (Option-cases (spend fw p).1) [
      | inl e ↦
          let (added, within, capped) = spent-spend_accepted fw p e in
          let exact =
            add_in_room fw.policy.session_budget fw.session_spent p.amount room s0 sb c capped in
          let (sum, low, high) =
            run_session_lem ps fw' (rw same room) (rw (added, exact) (omega int_laws))
              (rw (same, added) within) cs in
          (
            rw (accepted-none fw p ps e) (sum ∙ (rw (added, exact) (omega int_laws))),
            low,
            rw same at high,
          )
      | inr (r, e) ↦
          let kept = spent-spend_refused fw p e in
          let (sum, low, high) =
            run_session_lem ps fw' (rw same room) (rw kept s0) (rw (same, kept) sb) cs in
          (rw (accepted-some fw p ps e) (sum ∙ rw kept), low, rw same at high)
    ]

-- From a new firewall, whatever payments of no negative amount are asked for and whenever: the
-- session's spending is exactly the sum of the amounts that were let through, and it is never
-- negative nor above the session budget, if the budget is not negative and lies 10^11 below the top
-- of int64.
pub run_session_within_budget :
    (p : Policy) (ps : List Payment)
    → HasRoom p.session_budget
    → All IsCharge ps
    → ((run_session (new_firewall p) ps).session_spent ≡ total (accepted (new_firewall p) ps))
      × (pos 0 ≤ℤ (run_session (new_firewall p) ps).session_spent)
      × ((run_session (new_firewall p) ps).session_spent ≤ℤ p.session_budget)
unfolding new_firewall
run_session_within_budget p ps room c =
    let (sum, low, high) = run_session_lem ps (new_firewall p) room (omega arith) room.0 c in
    (sum ∙ omega int_laws, low, high)
