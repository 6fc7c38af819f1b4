-- ===== src/Firewall/Window.antt =====
-- The clean-up of the rolling window loses nothing that a later evaluation would read.
use go_blockchain.Prelude.{◌≡◌, refl, List, [], ◌∷◌, ◌++◌, arith, ℤ, ◌-ℤ◌, ◌≤ℤ◌, Bytes, int_laws}
use go_blockchain.Firewall.{LedgerEntry, Firewall, day, scan_window, evaluate}
use go_blockchain.Firewall.Rules.{recent, scan_window_lem}

pub recent-recent : (c d : ℤ) (w : List LedgerEntry) → c ≤ℤ d → recent d (recent c w) ≡ recent d w
unfolding recent
recent-recent c d [] h = refl
recent-recent c d (e ∷ w) h = ground (arith, recent-recent c d w h)

pub recent-append : (c : ℤ) (v w : List LedgerEntry) → recent c (v ++ w) ≡ recent c v ++ recent c w
unfolding recent
recent-append c [] w = refl
recent-append c (e ∷ v) w = ground (arith, recent-append c v w)

pub shift_mono : (s t k : ℤ) → s ≤ℤ t → s -ℤ k ≤ℤ t -ℤ k
shift_mono s t k h = omega int_laws

scan_window-recent :
    (s t : ℤ) (w : List LedgerEntry)
    → s ≤ℤ t
    → scan_window t (recent (s -ℤ day) w) ≡ scan_window t w
scan_window-recent s t w h = rw (
  scan_window_lem t (recent (s -ℤ day) w),
  scan_window_lem t w,
  recent-recent (s -ℤ day) (t -ℤ day) w (shift_mono s t day h),
)

-- A payment that was only evaluated, at some earlier time, has no effect on what is decided now:
-- neither the decision nor its reason depends on earlier evaluations.
pub evaluate-evaluate :
    (fw : Firewall) (earlier now amount amount' : ℤ) (recipient recipient' : Bytes)
    → earlier ≤ℤ now
    → (evaluate (evaluate fw earlier amount recipient).0 now amount' recipient').1
      ≡ (evaluate fw now amount' recipient').1
unfolding evaluate
evaluate-evaluate fw earlier now amount amount' recipient recipient' h = ground (
  arith,
  scan_window_lem earlier fw.rolling_window,
  scan_window-recent earlier now fw.rolling_window h,
)
