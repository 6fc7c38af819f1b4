-- ===== src/Prelude/ByteStrings.antt =====
-- Byte strings ([]byte and string) as lists of numbers, and `bytes.Equal`. A nil slice and an empty
-- one are the same list.
use Prim.Native.Nat.{ℕ, ◌<◌}
use Prim.Native.Char.{code}
use Prim.Native.String.{String}
use mathlib.Core.Path.{◌≡◌, refl, ap₂}
use mathlib.Core.Bool.{Bool, true, false, ◌&&◌}
use mathlib.Core.List.{List, [], ◌∷◌}
use native.Mathlib.Omega.{arith}
use go_blockchain.Prelude.Tests.{◌==◌, ==_iff, and_true}
use go_blockchain.Prelude.Lists.{All}

abbrev pub Bytes : Type 0
Bytes = List ℕ

-- The code points of a literal; these are its bytes when the text is ASCII.
abbrev pub codes : String → Bytes
codes String.[] = []
codes (String.◌∷◌ c s) = code c ∷ codes s

abbrev pub IsByte : ℕ → Type 0
IsByte b = b < 256

abbrev pub AreBytes : Bytes → Type 0
AreBytes = All IsByte

-- `bytes.Equal`, and `==` on strings.
unfoldable pub bytes_equal : Bytes → Bytes → Bool
bytes_equal [] [] = true
bytes_equal (a ∷ as') (b ∷ bs) = a == b && bytes_equal as' bs
bytes_equal _ _ = false

pub bytes_equal→eq : (a b : Bytes) → bytes_equal a b ≡ true → a ≡ b
unfolding bytes_equal
bytes_equal→eq [] [] h = refl
bytes_equal→eq [] (x ∷ b) h = cc
bytes_equal→eq (x ∷ a) [] h = cc
bytes_equal→eq (x ∷ a) (y ∷ b) h =
    let (p, q) = and_true (x == y) (bytes_equal a b) h in
    ap₂ ◌∷◌ ((==_iff x y).0 p) (bytes_equal→eq a b q)

pub bytes_equal_refl : (a : Bytes) → bytes_equal a a ≡ true
unfolding bytes_equal
bytes_equal_refl [] = refl
bytes_equal_refl (x ∷ a) = ground (arith, bytes_equal_refl a)

pub bytes_equal_sym : (a b : Bytes) → bytes_equal a b ≡ bytes_equal b a
unfolding bytes_equal
bytes_equal_sym [] [] = refl
bytes_equal_sym [] (x ∷ b) = refl
bytes_equal_sym (x ∷ a) [] = refl
bytes_equal_sym (x ∷ a) (y ∷ b) = ground (arith, bytes_equal_sym a b)
