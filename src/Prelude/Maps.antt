-- ===== src/Prelude/Maps.antt =====
-- Go maps keyed by strings, as association lists with the newest entry of a key in its first place.
use mathlib.Core.Path.{◌≡◌, refl}
use mathlib.Core.Bool.{true}
use mathlib.Core.Option.{Option, none, some}
use mathlib.Core.List.{List, [], ◌∷◌}
use native.Mathlib.Omega.{arith}
use go_blockchain.Prelude.Tests.{if◌then◌else◌}
use go_blockchain.Prelude.ByteStrings.{Bytes, bytes_equal, bytes_equal→eq, bytes_equal_refl}

abbrev pub Assoc {ℓ} : Type ℓ → Type ℓ
Assoc V = List (Bytes × V)

-- To have the equation of two keys at hand where `ground` splits on their test.
pub same_key : (j k : Bytes) → bytes_equal j k ≡ true → j ≡ k
same_key = bytes_equal→eq

module _ {ℓ} {V : Type ℓ} where
  -- `m[k]`
  unfoldable pub lookup : Bytes → Assoc V → Option V
  lookup k [] = none
  lookup k ((j, v) ∷ m) = if bytes_equal j k then some v else lookup k m

  -- `m[k] = v`
  unfoldable pub insert : Bytes → V → Assoc V → Assoc V
  insert k v [] = (k, v) ∷ []
  insert k v ((j, w) ∷ m) = if bytes_equal j k then (k, v) ∷ m else (j, w) ∷ insert k v m

  -- `delete(m, k)`
  unfoldable pub delete : Bytes → Assoc V → Assoc V
  delete k [] = []
  delete k ((j, w) ∷ m) = let rest = delete k m in if bytes_equal j k then rest else (j, w) ∷ rest

  pub lookup-insert :
      (k j : Bytes) (v : V) (m : Assoc V)
      → lookup j (insert k v m) ≡ (if bytes_equal k j then some v else lookup j m)
  unfolding lookup insert
  lookup-insert k j v [] = refl
  lookup-insert k j v ((i, w) ∷ m) = ground (
    arith,
    same_key i k,
    same_key i j,
    same_key k j,
    bytes_equal_refl k,
    bytes_equal_refl j,
    lookup-insert k j v m,
  )

  pub lookup-delete :
      (k j : Bytes) (m : Assoc V)
      → lookup j (delete k m) ≡ (if bytes_equal k j then none else lookup j m)
  unfolding lookup delete
  lookup-delete k j [] = ground arith
  lookup-delete k j ((i, w) ∷ m) = ground (
    arith,
    same_key i k,
    same_key i j,
    same_key k j,
    bytes_equal_refl k,
    bytes_equal_refl j,
    lookup-delete k j m,
  )
