-- ===== src/Firewall.antt =====
-- internal/firewall/firewall.go and the `Policy` of policy.go: the spending rules that an agent's
-- session is held to. `time.Now()` is an argument, in nanoseconds; int64 sums wrap around.
pub mod Rules
pub mod Budget
pub mod Window
pub mod Rolling
pub mod Negative
pub mod Passkey
mod Tests
use go_blockchain.Prelude.{
  ℕ, ◌+◌, Bool, true, false, ◌||◌, not, List, [], ◌∷◌, ◌++◌, Option, none, some, if◌then◌else◌, ℤ,
  pos, ◌-ℤ◌, add64, sub64, ltb_ℤ, leb_ℤ, Bytes, bytes_equal,
}

pub record Policy : Type 0 where
  pub version : ℤ
  pub session_budget : ℤ
  pub max_per_transaction : ℤ
  pub rolling_24h_budget : ℤ
  pub max_tx_per_hour : ℤ
  pub allowed_recipients : List Bytes
  pub node_grpc_address : Bytes
  pub persistent_key_path : Bytes
  pub signature : Bytes
  pub signature_public_key : Bytes

pub record LedgerEntry : Type 0 where
  pub timestamp : ℤ
  pub amount : ℤ
  pub tx_id : Bytes

pub record Firewall : Type 0 where
  pub policy : Policy
  pub rolling_window : List LedgerEntry
  pub session_spent : ℤ

unfoldable pub new_firewall : Policy → Firewall
new_firewall p = record { policy = p; rolling_window = []; session_spent = pos 0 }

-- `GetSessionStats`
unfoldable pub get_session_stats : Firewall → ℤ × ℤ
get_session_stats fw = (fw.policy.session_budget, fw.session_spent)

-- core.MaxTransactionValueLimit
abbrev pub max_transaction_value_limit : ℤ
max_transaction_value_limit = pos 100_000_000_000

-- 24 * time.Hour and time.Hour, in nanoseconds.
abbrev pub day : ℤ
day = pos 86_400_000_000_000

abbrev pub hour : ℤ
hour = pos 3_600_000_000_000

-- The reason for a refusal, with the numbers or the text that its message prints.
pub data Reason : Type 0 where
  over_hard_limit : ℤ → Reason
  over_per_transaction : ℤ → Reason
  over_session : ℤ → ℤ → Reason
  over_rolling : ℤ → ℤ → Reason
  over_rate : ℤ → Reason
  not_listed : Bytes → Reason

-- `entry.Timestamp.After(cutoff)`
abbrev pub is_after : ℤ → LedgerEntry → Bool
is_after cutoff e = ltb_ℤ cutoff e.timestamp

-- The variables of the loop over the rolling window.
pub record Scan : Type 0 where
  pub valid_entries : List LedgerEntry
  pub rolling_total : ℤ
  pub last_hour_count : ℕ

-- One round of the loop.
unfoldable pub scan_entry : ℤ → ℤ → LedgerEntry → Scan → Scan
scan_entry cutoff_24h cutoff_1h e s =
    if is_after cutoff_24h e
    then record {
      valid_entries = s.valid_entries ++ e ∷ [];
      rolling_total = add64 s.rolling_total e.amount;
      last_hour_count = if is_after cutoff_1h e then s.last_hour_count + 1 else s.last_hour_count;
    }
    else s

unfoldable pub scan : ℤ → ℤ → List LedgerEntry → Scan → Scan
scan cutoff_24h cutoff_1h [] s = s
scan cutoff_24h cutoff_1h (e ∷ w) s =
    scan cutoff_24h cutoff_1h w (scan_entry cutoff_24h cutoff_1h e s)

abbrev pub scan_start : Scan
scan_start = record { valid_entries = []; rolling_total = pos 0; last_hour_count = 0 }

unfoldable pub scan_window : ℤ → List LedgerEntry → Scan
scan_window now w = scan (now -ℤ day) (now -ℤ hour) w scan_start

-- The loop over the allowlist, with its `break`.
unfoldable pub is_listed : Bytes → List Bytes → Bool
is_listed recipient [] = false
is_listed recipient (a ∷ as') = bytes_equal a recipient || is_listed recipient as'

-- `len(AllowedRecipients) > 0 && !allowed`
unfoldable pub is_unlisted : Bytes → List Bytes → Bool
is_unlisted recipient [] = false
is_unlisted recipient (a ∷ as') = not (is_listed recipient (a ∷ as'))

-- Rules 4 to 6, once the window has been cleaned up.
unfoldable pub evaluate_window : Policy → Scan → ℤ → Bytes → Option Reason
evaluate_window p s amount recipient =
    if ltb_ℤ p.rolling_24h_budget (add64 s.rolling_total amount)
    then some (over_rolling (sub64 p.rolling_24h_budget s.rolling_total) p.rolling_24h_budget)
    else if leb_ℤ p.max_tx_per_hour (pos s.last_hour_count)
    then some (over_rate p.max_tx_per_hour)
    else if is_unlisted recipient p.allowed_recipients
    then some (not_listed recipient)
    else none

-- `Evaluate` at time `now`: the firewall afterwards, and the reason if the payment is refused.
unfoldable pub evaluate : Firewall → ℤ → ℤ → Bytes → Firewall × Option Reason
evaluate fw now amount recipient =
    if ltb_ℤ max_transaction_value_limit amount
    then (fw, some (over_hard_limit max_transaction_value_limit))
    else if ltb_ℤ fw.policy.max_per_transaction amount
    then (fw, some (over_per_transaction fw.policy.max_per_transaction))
    else if ltb_ℤ fw.policy.session_budget (add64 fw.session_spent amount)
    then (
      fw,
      some
          (over_session (sub64 fw.policy.session_budget fw.session_spent) fw.policy.session_budget),
    )
    else (let s = scan_window now fw.rolling_window in
        (
          record fw { rolling_window = s.valid_entries },
          evaluate_window fw.policy s amount recipient,
        ))

-- `RecordTransaction` at time `now`.
unfoldable pub record_transaction : Firewall → ℤ → ℤ → Bytes → Firewall
record_transaction fw now amount tx_id = record fw {
  rolling_window =
      fw.rolling_window ++ record { timestamp = now; amount = amount; tx_id = tx_id } ∷ [];
  session_spent = add64 fw.session_spent amount;
}

-- What a tool call asks for, with the readings of the clock by its two calls of the firewall.
pub record Payment : Type 0 where
  pub evaluated_at : ℤ
  pub recorded_at : ℤ
  pub amount : ℤ
  pub recipient : Bytes
  pub tx_id : Bytes

-- The tools that spend (`toolTxSend` and its like): `Evaluate`, then `RecordTransaction` if allowed.
unfoldable pub spend : Firewall → Payment → Firewall × Option Reason
spend fw p =
    let (fw', refusal) = evaluate fw p.evaluated_at p.amount p.recipient in
    elim refusal [
      | none ↦ (record_transaction fw' p.recorded_at p.amount p.tx_id, none)
      | some r ↦ (fw', some r)
    ]

-- A session: the payments that are asked for, one after the other.
unfoldable pub run_session : Firewall → List Payment → Firewall
run_session fw [] = fw
run_session fw (p ∷ ps) = run_session (spend fw p).0 ps
