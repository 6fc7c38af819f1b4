-- ===== src/Firewall/Rolling.antt =====
-- What a session can spend in 24 hours.
use go_blockchain.Prelude.{
  ◌≡◌, refl, List, [], ◌∷◌, ◌++◌, append_assoc, append-nil, none, some, arith, ℤ, pos, ◌+ℤ◌, ◌-ℤ◌,
  ◌≤ℤ◌, add64, add64_exact, int_laws, int64_laws, All, All-append, ◌∙◌, inl, inr, Option-cases,
}
use go_blockchain.Firewall.{
  Policy, LedgerEntry, Firewall, Payment, Reason, day, evaluate, record_transaction, spend,
  run_session, new_firewall, evaluate_window, max_transaction_value_limit,
}
use go_blockchain.Firewall.Rules.{recent, total64, scan_window_lem}
use go_blockchain.Firewall.Window.{recent-recent, recent-append, shift_mono}
use go_blockchain.Firewall.Budget.{
  total, accepted, accepted-none, accepted-some, entry_of, IsCharge, HasRoom, policy-spend,
}

abbrev IsNonneg : LedgerEntry → Type 0
IsNonneg e = pos 0 ≤ℤ e.amount

-- The clock never goes back, within a payment and from one to the next.
abbrev pub InOrder : ℤ → List Payment → Type 0
InOrder now [] = Unit
InOrder now (p ∷ ps) =
    (now ≤ℤ p.evaluated_at) × (p.evaluated_at ≤ℤ p.recorded_at) × InOrder p.recorded_at ps

-- The reading of the clock at the end.
abbrev pub last_time : ℤ → List Payment → ℤ
last_time now [] = now
last_time now (p ∷ ps) = last_time p.recorded_at ps

total-append : (v w : List LedgerEntry) → total (v ++ w) ≡ total v +ℤ total w
unfolding total
total-append [] w = omega int_laws
total-append (e ∷ v) w = rw (total-append v w) (omega int_laws)

total_nonneg : (w : List LedgerEntry) → All IsNonneg w → pos 0 ≤ℤ total w
unfolding total
total_nonneg [] h = omega arith
total_nonneg (e ∷ w) (p, h) = let ih = total_nonneg w h in omega int_laws

recent-IsNonneg : (c : ℤ) (w : List LedgerEntry) → All IsNonneg w → All IsNonneg (recent c w)
unfolding recent
recent-IsNonneg c [] h = tt
recent-IsNonneg c (e ∷ w) (p, h) = let ih = recent-IsNonneg c w h in ground arith

-- A later cutoff leaves no more.
total-recent_mono :
    (c d : ℤ) (w : List LedgerEntry)
    → All IsNonneg w
    → c ≤ℤ d
    → total (recent d w) ≤ℤ total (recent c w)
unfolding recent total
total-recent_mono c d [] h le = omega arith
total-recent_mono c d (e ∷ w) (p, h) le = let ih = total-recent_mono c d w h le in grind int_laws

total64_exact :
    (limit acc : ℤ) (w : List LedgerEntry)
    → All IsNonneg w
    → HasRoom limit
    → pos 0 ≤ℤ acc
    → acc +ℤ total w ≤ℤ limit
    → total64 acc w ≡ acc +ℤ total w
unfolding total total64
total64_exact limit acc [] h room a0 al = omega int_laws
total64_exact limit acc (e ∷ w) (p, h) room a0 al =
    let rest = total_nonneg w h in
    let exact = add64_exact acc e.amount (omega int64_laws) in
    rw exact (
      total64_exact limit (acc +ℤ e.amount) w h room (omega int_laws) (omega int_laws)
      ∙ omega int_laws)

-- The window agrees with the whole history on the last day, whose sum is within the limit.
record Tracks (fw : Firewall) (history : List LedgerEntry) (now : ℤ) : Type 0 where
  charges : All IsNonneg history
  agree : (c : ℤ) → now -ℤ day ≤ℤ c → recent c fw.rolling_window ≡ recent c history
  bounded : (c : ℤ) → now -ℤ day ≤ℤ c → total (recent c history) ≤ℤ fw.policy.rolling_24h_budget

refused_window :
    (fw : Firewall) (p : Payment) {r : Reason}
    → (spend fw p).1 ≡ some r
    → (c : ℤ) → p.evaluated_at -ℤ day ≤ℤ c
    → recent c (spend fw p).0.rolling_window ≡ recent c fw.rolling_window
unfolding spend evaluate
refused_window fw p h c le = ground (
  arith,
  scan_window_lem p.evaluated_at fw.rolling_window,
  recent-recent (p.evaluated_at -ℤ day) c fw.rolling_window le,
)

accepted_window :
    (fw : Firewall) (p : Payment)
    → (spend fw p).1 ≡ none
    → ((spend fw p).0.rolling_window
        ≡ recent (p.evaluated_at -ℤ day) fw.rolling_window ++ entry_of p ∷ [])
      × (add64 (total64 (pos 0) (recent (p.evaluated_at -ℤ day) fw.rolling_window)) p.amount
          ≤ℤ fw.policy.rolling_24h_budget)
      × (p.amount ≤ℤ max_transaction_value_limit)
unfolding spend evaluate record_transaction evaluate_window
accepted_window fw p h = ground (arith, scan_window_lem p.evaluated_at fw.rolling_window)

-- The entry of a payment adds at most its amount after any cutoff.
total_last :
    (c : ℤ) (w : List LedgerEntry) (e : LedgerEntry)
    → IsNonneg e
    → total (recent c (w ++ e ∷ [])) ≤ℤ total (recent c w) +ℤ e.amount
unfolding recent total
total_last c w e h =
    rw (recent-append c w (e ∷ []), total-append (recent c w) (recent c (e ∷ []))) (grind int_laws)

module _ (fw : Firewall) (p : Payment) (h : List LedgerEntry) (now : ℤ) (t : Tracks fw h now)
    (later : now ≤ℤ p.evaluated_at) (then_recorded : p.evaluated_at ≤ℤ p.recorded_at)
    (charge : IsCharge p) (room : HasRoom fw.policy.rolling_24h_budget) where
  from_evaluated : (c : ℤ) → p.recorded_at -ℤ day ≤ℤ c → p.evaluated_at -ℤ day ≤ℤ c
  from_evaluated c le = omega int_laws

  from_now : (c : ℤ) → p.evaluated_at -ℤ day ≤ℤ c → now -ℤ day ≤ℤ c
  from_now c le = omega int_laws

  Tracks-refused : {r : Reason} → (spend fw p).1 ≡ some r → Tracks (spend fw p).0 h p.recorded_at
  Tracks-refused e = record {
    charges = t.charges;
    agree = λ c le.
        let le' = from_evaluated c le in refused_window fw p e c le' ∙ t.agree c (from_now c le');
    bounded = λ c le. rw (policy-spend fw p) (t.bounded c (from_now c (from_evaluated c le)));
  }

  -- The last day before the evaluation, with the payment, is within the limit.
  day_total :
      (spend fw p).1 ≡ none
      → total (recent (p.evaluated_at -ℤ day) h) +ℤ p.amount ≤ℤ fw.policy.rolling_24h_budget
  day_total e =
      let c = p.evaluated_at -ℤ day in
      let c_le : c ≤ℤ c = omega arith in
      let (w, within, capped) = accepted_window fw p e in
      let same = t.agree c (from_now c c_le) in
      let small = t.bounded c (from_now c c_le) in
      let nonneg = recent-IsNonneg c h t.charges in
      let low = total_nonneg (recent c h) nonneg in
      let exact =
        total64_exact fw.policy.rolling_24h_budget (pos 0) (recent c h) nonneg room (omega arith)
          (omega int_laws) in
      let zero_add : pos 0 +ℤ total (recent c h) ≡ total (recent c h) = omega int_laws in
      let sum = add64_exact (total (recent c h)) p.amount (omega int64_laws) in
      rw (same, exact, zero_add, sum) at within

  Tracks-accepted :
      (spend fw p).1 ≡ none → Tracks (spend fw p).0 (h ++ entry_of p ∷ []) p.recorded_at
  Tracks-accepted e = record {
    charges = All-append IsNonneg h (entry_of p ∷ []) t.charges (charge, tt);
    agree = λ c le.
        let le' = from_evaluated c le in
        rw (
          (accepted_window fw p e).0,
          recent-append c (recent (p.evaluated_at -ℤ day) fw.rolling_window) (entry_of p ∷ []),
          recent-append c h (entry_of p ∷ []),
          recent-recent (p.evaluated_at -ℤ day) c fw.rolling_window le',
          t.agree c (from_now c le'),
        );
    bounded = λ c le.
        let le' = from_evaluated c le in
        let mono = total-recent_mono (p.evaluated_at -ℤ day) c h t.charges le' in
        let last = total_last c h (entry_of p) charge in
        let within = day_total e in rw (policy-spend fw p) (omega int_laws);
  }

run_session-Tracks :
    (ps : List Payment) (fw : Firewall) (h : List LedgerEntry) (now : ℤ)
    → Tracks fw h now
    → HasRoom fw.policy.rolling_24h_budget
    → All IsCharge ps
    → InOrder now ps
    → Tracks (run_session fw ps) (h ++ accepted fw ps) (last_time now ps)
unfolding run_session
run_session-Tracks [] fw h now t room c o = unfold accepted in rw append-nil t
run_session-Tracks (p ∷ ps) fw h now t room (c, cs) (o, o', os) =
    let same = policy-spend fw p in
    elim (Option-cases (spend fw p).1) [
      | inl e ↦
          rw
            (
              accepted-none fw p ps e,
              ← append_assoc h (entry_of p ∷ []) (accepted (spend fw p).0 ps),
            )
            (run_session-Tracks ps (spend fw p).0 (h ++ entry_of p ∷ []) p.recorded_at
              (Tracks-accepted fw p h now t o o' c room e) (rw same room) cs os)
      | inr (r, e) ↦ rw (accepted-some fw p ps e) (
          run_session-Tracks ps (spend fw p).0 h p.recorded_at
            (Tracks-refused fw p h now t o o' c room e) (rw same room) cs os)
    ]

policy-run_session : (ps : List Payment) (fw : Firewall) → (run_session fw ps).policy ≡ fw.policy
unfolding run_session
policy-run_session [] fw = refl
policy-run_session (p ∷ ps) fw = policy-run_session ps (spend fw p).0 ∙ policy-spend fw p

-- From a new firewall, for payments of no negative amount and a clock that never goes back: at the
-- end of the session, and at any later time, what was let through and recorded in the 24 hours
-- before is at most the rolling budget, if that is not negative and lies 10^11 below the top of
-- int64.
pub run_session_within_rolling :
    (p : Policy) (ps : List Payment) (start t : ℤ)
    → HasRoom p.rolling_24h_budget
    → All IsCharge ps
    → InOrder start ps
    → last_time start ps ≤ℤ t
    → total (recent (t -ℤ day) (accepted (new_firewall p) ps)) ≤ℤ p.rolling_24h_budget
unfolding new_firewall recent total
run_session_within_rolling p ps start t room c o le =
    let fw = new_firewall p in
    let tracks =
      run_session-Tracks ps fw [] start
        (record { charges = tt; agree = λ c _. refl; bounded = λ c _. room.0 }) room c o in
    rw (policy-run_session ps fw) at
      (tracks.bounded (t -ℤ day) (shift_mono (last_time start ps) t day le))
