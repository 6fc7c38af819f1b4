-- ===== src/Firewall/Rules.antt =====
-- What `evaluate` decides, stated without its loops and early returns.
use go_blockchain.Prelude.{
  ◌+◌, ◌≡◌, refl, ◌↔◌, ◌⊎◌, inl, inr, true, false, List, [], ◌∷◌, ◌++◌, append_assoc, append-nil,
  none, arith, if◌then◌else◌, ℤ, pos, ◌-ℤ◌, ◌≤ℤ◌, ◌<ℤ◌, add64, Bytes, bytes_equal→eq,
  bytes_equal_refl, length,
}
use go_blockchain.Firewall.{
  LedgerEntry, Firewall, Scan, day, hour, is_after, scan, scan_entry, scan_start, scan_window,
  is_listed, is_unlisted, evaluate, evaluate_window, max_transaction_value_limit,
}

-- The entries later than the cutoff, in their order.
unfoldable pub recent : ℤ → List LedgerEntry → List LedgerEntry
recent cutoff [] = []
recent cutoff (e ∷ w) = let rest = recent cutoff w in if is_after cutoff e then e ∷ rest else rest

-- The int64 sum of the amounts, from an initial value.
unfoldable pub total64 : ℤ → List LedgerEntry → ℤ
total64 acc [] = acc
total64 acc (e ∷ w) = total64 (add64 acc e.amount) w

-- `a` is one of the list.
abbrev pub Elem : Bytes → List Bytes → Type 0
Elem a [] = ⊥
Elem a (x ∷ xs) = (x ≡ a) ⊎ Elem a xs

-- The conditions under which a payment is let through.
pub record IsAllowed (fw : Firewall) (now amount : ℤ) (recipient : Bytes) : Type 0 where
  pub under_cap : amount ≤ℤ max_transaction_value_limit
  pub under_per_transaction : amount ≤ℤ fw.policy.max_per_transaction
  pub under_session : add64 fw.session_spent amount ≤ℤ fw.policy.session_budget
  pub under_rolling :
      add64 (total64 (pos 0) (recent (now -ℤ day) fw.rolling_window)) amount
      ≤ℤ fw.policy.rolling_24h_budget
  pub under_rate :
      pos (length (recent (now -ℤ hour) (recent (now -ℤ day) fw.rolling_window)))
      <ℤ fw.policy.max_tx_per_hour
  pub listed : (fw.policy.allowed_recipients ≡ []) ⊎ Elem recipient fw.policy.allowed_recipients

scan_lem :
    (c d : ℤ) (w : List LedgerEntry) (s : Scan)
    → scan c d w s ≡ record {
      valid_entries = s.valid_entries ++ recent c w;
      rolling_total = total64 s.rolling_total (recent c w);
      last_hour_count = s.last_hour_count + length (recent d (recent c w));
    }
unfolding scan scan_entry recent total64
scan_lem c d [] s = ground (arith, append-nil s.valid_entries)
scan_lem c d (e ∷ w) s =
    ground (
      arith,
      scan_lem c d w (scan_entry c d e s),
      append_assoc s.valid_entries (e ∷ []) (recent c w),
    )

-- The loop keeps the entries of the last day, in order, with their sum and the hour's count.
pub scan_window_lem :
    (now : ℤ) (w : List LedgerEntry)
    → scan_window now w ≡ record {
      valid_entries = recent (now -ℤ day) w;
      rolling_total = total64 (pos 0) (recent (now -ℤ day) w);
      last_hour_count = length (recent (now -ℤ hour) (recent (now -ℤ day) w));
    }
unfolding scan_window
scan_window_lem now w = ground (arith, scan_lem (now -ℤ day) (now -ℤ hour) w scan_start)

is_listed_iff : (a : Bytes) (xs : List Bytes) → (is_listed a xs ≡ true) ↔ Elem a xs
unfolding is_listed
is_listed_iff a [] = ground arith
is_listed_iff a (x ∷ xs) =
    let ih = is_listed_iff a xs in
    (
      (λ h. ground (arith, bytes_equal→eq x a, ih.0)),
      elim [ inl e ↦ rw (e, bytes_equal_refl a) refl | inr m ↦ rw (ih.1 m) (ground arith) ],
    )

is_unlisted_iff :
    (a : Bytes) (xs : List Bytes) → (is_unlisted a xs ≡ false) ↔ ((xs ≡ []) ⊎ Elem a xs)
unfolding is_unlisted
is_unlisted_iff a [] = ((λ _. inl refl), λ _. refl)
is_unlisted_iff a (x ∷ xs) =
    let iff = is_listed_iff a (x ∷ xs) in
    ((λ h. inr (iff.0 (ground arith))), elim [ inl e ↦ cc | inr m ↦ rw (iff.1 m) refl ])

-- A payment is allowed exactly when the conditions hold.
pub evaluate_iff :
    (fw : Firewall) (now amount : ℤ) (recipient : Bytes)
    → ((evaluate fw now amount recipient).1 ≡ none) ↔ IsAllowed fw now amount recipient
unfolding evaluate evaluate_window
evaluate_iff fw now amount recipient = rw (scan_window_lem now fw.rolling_window) (
    let iff = is_unlisted_iff recipient fw.policy.allowed_recipients in
    (
      (λ h. record {
        under_cap = ground arith;
        under_per_transaction = ground arith;
        under_session = ground arith;
        under_rolling = ground arith;
        under_rate = ground arith;
        listed = iff.0 (ground arith);
      }),
      λ h. let l = iff.1 h.listed in ground arith,
    ))
