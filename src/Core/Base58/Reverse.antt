-- ===== src/Core/Base58/Reverse.antt =====
-- `ReverseBytes` against the reversal of a list.
use mathlib.Core.List.{reverse, reverse-append, reverse-cons}
use go_blockchain.Prelude.{
  false, true, ℕ, zero, suc, ◌+◌, ◌-◌, ◌≤◌, ◌≡◌, refl, sym, ap, [], ◌∷◌, ◌++◌, append_assoc,
  append-nil, some, arith, ltb, Bytes, length, length-append, get_elem?, set,
}
use go_blockchain.Core.Base58.{swap_at, swap_ends, reverse_bytes}

get_elem?-length :
    (before : Bytes) (x : ℕ) (d : Bytes) → get_elem? (before ++ x ∷ d) (length before) ≡ some x
get_elem?-length [] x d = refl
get_elem?-length (b ∷ before) x d = get_elem?-length before x d

set-length :
    (before : Bytes) (x y : ℕ) (d : Bytes)
    → set (before ++ x ∷ d) (length before) y ≡ before ++ y ∷ d
set-length [] x y d = refl
set-length (b ∷ before) x y d = ap (λ l. b ∷ l) (set-length before x y d)

-- A list is empty or has a last element.
data Snoc : Bytes → Type 0 where
  empty : Snoc []
  last : (d : Bytes) (x : ℕ) → Snoc (d ++ x ∷ [])

snoc : (d : Bytes) → Snoc d
snoc [] = empty
snoc (x ∷ d) = go (snoc d)
  where
    go : {e : Bytes} → Snoc e → Snoc (x ∷ e)
    go empty = last [] x
    go (last e y) = last (x ∷ e) y

-- The place of `y` behind `before`, one byte and `middle`.
length-far :
    (before middle : Bytes) (x : ℕ)
    → length (before ++ x ∷ middle) ≡ length before + length middle + 1
length-far before middle x = omega (arith, length-append before (x ∷ middle))

get_elem?-far :
    (before middle after : Bytes) (x y : ℕ)
    → get_elem? (before ++ x ∷ (middle ++ y ∷ after)) (length before + length middle + 1) ≡ some y
get_elem?-far before middle after x y =
    rw (sym (length-far before middle x), sym (append_assoc before (x ∷ middle) (y ∷ after)))
      (get_elem?-length (before ++ x ∷ middle) y after)

set-far :
    (before middle after : Bytes) (x y z : ℕ)
    → set (before ++ x ∷ (middle ++ y ∷ after)) (length before + length middle + 1) z
      ≡ before ++ x ∷ (middle ++ z ∷ after)
set-far before middle after x y z =
    rw
      (
        sym (length-far before middle x),
        sym (append_assoc before (x ∷ middle) (y ∷ after)),
        sym (append_assoc before (x ∷ middle) (z ∷ after)),
      )
      (set-length (before ++ x ∷ middle) y z after)

swap_at_ends :
    (before middle after : Bytes) (x y : ℕ)
    → swap_at
        (length before)
        (length before + length middle + 1)
        (before ++ x ∷ (middle ++ y ∷ after))
      ≡ before ++ y ∷ (middle ++ x ∷ after)
unfolding swap_at
swap_at_ends before middle after x y = rw (
  get_elem?-length before x (middle ++ y ∷ after),
  get_elem?-far before middle after x y,
  set-length before x y (middle ++ y ∷ after),
  set-far before middle after y y x,
  swap_at,
)

swap_ends-step :
    (fuel i j : ℕ) (d : Bytes)
    → ltb i j ≡ true
    → swap_ends (suc fuel) i j d ≡ swap_ends fuel (i + 1) (j - 1) (swap_at i j d)
unfolding swap_ends
swap_ends-step fuel i j d e = rw (e, swap_ends)

swap_ends_done : (fuel i j : ℕ) (d : Bytes) → ltb i j ≡ false → swap_ends fuel i j d ≡ d
unfolding swap_ends
swap_ends_done zero i j d e = refl
swap_ends_done (suc fuel) i j d e = rw (e, swap_ends)

reverse_ends :
    (middle after : Bytes) (x y : ℕ)
    → reverse (x ∷ (middle ++ y ∷ [])) ++ after ≡ y ∷ (reverse middle ++ x ∷ after)
reverse_ends middle after x y =
    rw (reverse-cons x (middle ++ y ∷ []), reverse-append middle (y ∷ []))
      (ap (λ l. y ∷ l) (append_assoc (reverse middle) (x ∷ []) after))

-- One round moves the two ends to the outside.
swap_ends_around :
    (fuel : ℕ) (before middle after : Bytes) (x y : ℕ)
    → swap_ends fuel
        (length (before ++ y ∷ []))
        (length (before ++ y ∷ []) + length middle - 1)
        ((before ++ y ∷ []) ++ (middle ++ x ∷ after))
      ≡ (before ++ y ∷ []) ++ (reverse middle ++ x ∷ after)
    → swap_ends
        (suc fuel)
        (length before)
        (length before + length (x ∷ (middle ++ y ∷ [])) - 1)
        (before ++ (x ∷ ((middle ++ y ∷ []) ++ after)))
      ≡ before ++ (reverse (x ∷ (middle ++ y ∷ [])) ++ after)
swap_ends_around fuel before middle after x y later =
    let n = length before in
    let j = n + length middle + 1 in
    let start : n + length (x ∷ (middle ++ y ∷ [])) - 1 ≡ j =
      omega (arith, length-append middle (y ∷ [])) in
    let one : length (before ++ y ∷ []) ≡ n + 1 = omega (arith, length-append before (y ∷ [])) in
    let end : length (before ++ y ∷ []) + length middle - 1 ≡ j - 1 = omega (arith, one) in
    let whole : before ++ (x ∷ ((middle ++ y ∷ []) ++ after))
        ≡ before ++ x ∷ (middle ++ y ∷ after) =
      ap (λ l. before ++ x ∷ l) (append_assoc middle (y ∷ []) after) in
    let left : (before ++ y ∷ []) ++ (middle ++ x ∷ after) ≡ before ++ y ∷ (middle ++ x ∷ after) =
      append_assoc before (y ∷ []) (middle ++ x ∷ after) in
    let right : (before ++ y ∷ []) ++ (reverse middle ++ x ∷ after)
        ≡ before ++ y ∷ (reverse middle ++ x ∷ after) =
      append_assoc before (y ∷ []) (reverse middle ++ x ∷ after) in
    let done : swap_ends fuel (n + 1) (j - 1) (before ++ y ∷ (middle ++ x ∷ after))
        ≡ before ++ y ∷ (reverse middle ++ x ∷ after) =
      rw (sym left, sym right, sym end, sym one) later in
    rw
      (
        start,
        whole,
        reverse_ends middle after x y,
        swap_ends-step fuel n j (before ++ x ∷ (middle ++ y ∷ after)) (ground arith),
        swap_at_ends before middle after x y,
      )
      done

-- The loop over `middle` between two parts that it leaves alone.
swap_ends_lem :
    (fuel : ℕ) (before middle after : Bytes)
    → length middle ≤ fuel
    → swap_ends fuel
        (length before)
        (length before + length middle - 1)
        (before ++ (middle ++ after))
      ≡ before ++ (reverse middle ++ after)
swap_ends_lem fuel before [] after h = swap_ends_done fuel _ _ _ (ground arith)
swap_ends_lem zero before (x ∷ middle) after h = absurd (omega arith)
swap_ends_lem (suc fuel) before (x ∷ rest) after h = ends (snoc rest) h (swap_ends_lem fuel)
  where
    ends :
        {r : Bytes}
        → Snoc r
        → length (x ∷ r) ≤ suc fuel
        → ((b m a : Bytes)
            → length m ≤ fuel
            → swap_ends fuel (length b) (length b + length m - 1) (b ++ (m ++ a))
              ≡ b ++ (reverse m ++ a))
        → swap_ends
            (suc fuel)
            (length before)
            (length before + length (x ∷ r) - 1)
            (before ++ (x ∷ (r ++ after)))
          ≡ before ++ (reverse (x ∷ r) ++ after)
    ends empty l rec = swap_ends_done (suc fuel) _ _ _ (ground arith)
    ends (last middle y) l rec =
        swap_ends_around fuel before middle after x y
          (rec (before ++ y ∷ []) middle (x ∷ after) (omega (arith, length-append middle (y ∷ []))))

-- `ReverseBytes` reverses.
pub reverse_bytes-reverse : (d : Bytes) → reverse_bytes d ≡ reverse d
unfolding reverse_bytes
reverse_bytes-reverse d =
    let zero_add : 0 + length d - 1 ≡ length d - 1 = omega arith in
    let run = swap_ends_lem (length d) [] d [] (omega arith) in
    rw (append-nil d, append-nil (reverse d), zero_add) at run
