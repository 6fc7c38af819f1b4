-- ===== src/Network/Peers.antt =====
-- internal/network/server.go: the list of known nodes.
pub mod Handled
pub mod Mined
pub mod Connections
use go_blockchain.Prelude.{
  ℕ, ◌≡◌, refl, sym, ap, ◌∙◌, subst, Bool, true, false, List, [], ◌∷◌, ◌++◌, Option, none, some,
  arith, if◌then◌else◌, Bytes, bytes_equal, bytes_equal→eq, bytes_equal_refl, Outcome, ok, err,
  panic, ◌>>=◌, or_panic, Running, ◌>>>◌, Bool-cases, inl, inr,
}
use go_blockchain.Network.{
  Env, Server, node_is_known, without_bytes, add_node, add_nodes, command_to_bytes, send_data, send,
}
use go_blockchain.Core.External.{or_nil}

-- No address is listed twice.
abbrev pub AreDistinct : List Bytes → Type 0
AreDistinct [] = Unit
AreDistinct (x ∷ xs) = (node_is_known x xs ≡ false) × AreDistinct xs

different : (a b : Bytes) → bytes_equal a b ≡ false → bytes_equal b a ≡ false
different a b h = ground (arith, bytes_equal→eq b a, bytes_equal_refl a, bytes_equal_refl b)

without_bytes_unknown :
    (a b : Bytes) (xs : List Bytes)
    → node_is_known a xs ≡ false
    → node_is_known a (without_bytes b xs) ≡ false
unfolding node_is_known without_bytes
without_bytes_unknown a b [] h = refl
without_bytes_unknown a b (x ∷ xs) h = ground (arith, without_bytes_unknown a b xs)

pub without_bytes-AreDistinct :
    (b : Bytes) (xs : List Bytes) → AreDistinct xs → AreDistinct (without_bytes b xs)
unfolding without_bytes
without_bytes-AreDistinct b [] h = tt
without_bytes-AreDistinct b (x ∷ xs) (new, h) = elim (Bool-cases (bytes_equal x b)) [
  | inl e ↦ rw e (without_bytes-AreDistinct b xs h)
  | inr e ↦ rw e (without_bytes_unknown x b xs new, without_bytes-AreDistinct b xs h)
]

append_unknown :
    (a x : Bytes) (xs : List Bytes)
    → node_is_known x xs ≡ false
    → bytes_equal a x ≡ false
    → node_is_known x (xs ++ a ∷ []) ≡ false
unfolding node_is_known
append_unknown a x [] h e = rw e
append_unknown a x (y ∷ ys) h e = ground (arith, append_unknown a x ys)

append-AreDistinct :
    (a : Bytes) (xs : List Bytes)
    → node_is_known a xs ≡ false
    → AreDistinct xs
    → AreDistinct (xs ++ a ∷ [])
unfolding node_is_known
append-AreDistinct a [] h d = (refl, tt)
append-AreDistinct a (x ∷ xs) h (new, d) =
    let other : bytes_equal x a ≡ false = ground arith in
    let later : node_is_known a xs ≡ false = ground arith in
    (append_unknown a x xs new (different x a other), append-AreDistinct a xs later d)

pub add_node-AreDistinct :
    (a : Bytes) (xs : List Bytes) → AreDistinct xs → AreDistinct (add_node a xs)
unfolding add_node
add_node-AreDistinct a xs d = elim (Bool-cases (node_is_known a xs)) [
  | inl e ↦ rw e d
  | inr e ↦ rw e (append-AreDistinct a xs e d)
]

pub add_nodes-AreDistinct : (as' xs : List Bytes) → AreDistinct xs → AreDistinct (add_nodes as' xs)
unfolding add_nodes
add_nodes-AreDistinct [] xs d = d
add_nodes-AreDistinct (a ∷ as') xs d =
    add_nodes-AreDistinct as' (add_node a xs) (add_node-AreDistinct a xs d)

-- A predicate of the value that a computation returns, unless it panics or runs out of fuel: it does
-- not end in an error.
module _ {ℓ} {A : Type ℓ} (P : A → Type 0) where
  abbrev pub Returns : Outcome A → Type 0
  Returns (ok a) = P a
  Returns (err e) = ⊥
  Returns panic = Unit

  abbrev pub Yields : Running A → Type 0
  Yields none = Unit
  Yields (some r) = Returns r

module _ {ℓ κ} {A : Type ℓ} {B : Type κ} (P : A → Type 0) (Q : B → Type 0) where
  pub >>=-Returns :
      (m : Outcome A) (f : A → Outcome B)
      → Returns P m
      → ((a : A) → P a → Returns Q (f a))
      → Returns Q (m >>= f)
  >>=-Returns (ok a) f h k = k a h
  >>=-Returns (err e) f h k = h
  >>=-Returns panic f h k = tt

  pub >>>-Yields :
      (m : Running A) (f : A → Running B)
      → Yields P m
      → ((a : A) → P a → Yields Q (f a))
      → Yields Q (m >>> f)
  >>>-Yields none f h k = tt
  >>>-Yields (some (ok a)) f h k = k a h
  >>>-Yields (some (err e)) f h k = h
  >>>-Yields (some panic) f h k = tt

-- A computation that does not end in an error.
abbrev pub HasNoError {ℓ} : {A : Type ℓ} → Running A → Type 0
HasNoError m = Yields (λ a. Unit) m

pub or_panic-HasNoError {ℓ} : {A : Type ℓ} (o : Option A) → HasNoError (some (or_panic o))
or_panic-HasNoError none = tt
or_panic-HasNoError (some a) = tt
