-- ===== src/Prelude/Results.antt =====
-- The results of Go functions that return an error or panic.
use mathlib.Core.Path.{◌≡◌, refl}
use mathlib.Core.Bool.{Bool, true, false}
use mathlib.Core.Logic.{◌⊎◌, inl, inr}
use go_blockchain.Prelude.Tests.{if◌then◌else◌}
use mathlib.Core.Option.{Option, none, some}
use mathlib.Core.List.{List}
use go_blockchain.Prelude.Lists.{get_elem?}
use go_blockchain.Prelude.Int.{ℤ, pos, negsuc}

-- The errors that the modelled functions make themselves or pass on, by their message.
pub data Error : Type 0 where
  prev_tx_incorrect sign_failed : Error
  not_enough_funds tx_not_found invalid_output_index : Error
  not_found invalid_pow invalid_poa serialize_failed deserialize_failed : Error
  tx_hash_failed canceled invalid_transaction : Error
  storage_failed chain_exists no_chain invalid_service in_mempool invalid_address random_failed :
      Error

pub data Outcome {ℓ} (A : Type ℓ) : Type ℓ where
  ok : A → Outcome A
  err : Error → Outcome A
  panic : Outcome A

module _ {ℓ κ} {A : Type ℓ} {B : Type κ} where
  -- The next step runs only after a success.
  infixl 5 ◌>>=◌
  abbrev pub ◌>>=◌ : Outcome A → (A → Outcome B) → Outcome B
  panic >>= next = panic
  err why >>= next = err why
  ok value >>= next = next value

  pub >>=-eq-ok :
      (m : Outcome A) (next : A → Outcome B) {b : B}
      → (m >>= next) ≡ ok b
      → (value : A) × (m ≡ ok value) × (next value ≡ ok b)
  >>=-eq-ok panic next e = cc
  >>=-eq-ok (err why) next e = cc
  >>=-eq-ok (ok value) next e = (value, refl, e)

pub Outcome-cases {ℓ} :
    {A : Type ℓ} (r : Outcome A)
    → ((a : A) × (r ≡ ok a)) ⊎ (((e : Error) × (r ≡ err e)) ⊎ (r ≡ panic))
Outcome-cases (ok a) = inl (a, refl)
Outcome-cases (err e) = inr (inl (e, refl))
Outcome-cases panic = inr (inr refl)

pub ok_injective {ℓ} : {A : Type ℓ} {a b : A} → ok a ≡ ok b → a ≡ b
ok_injective h = cc

pub some_injective {ℓ} : {A : Type ℓ} {a b : A} → some a ≡ some b → a ≡ b
some_injective h = cc

abbrev pub or_err {ℓ} : {A : Type ℓ} → Option A → Error → Outcome A
or_err none e = err e
or_err (some a) e = ok a

pub or_err-eq-ok {ℓ} :
    {A : Type ℓ} (o : Option A) (why : Error) {a : A} → or_err o why ≡ ok a → o ≡ some a
or_err-eq-ok none why e = cc
or_err-eq-ok (some x) why e = cc

pub or_err-if {ℓ} :
    {A : Type ℓ} (c : Bool) (x y : Option A) (why : Error)
    → or_err (if c then x else y) why ≡ (if c then or_err x why else or_err y why)
or_err-if true x y why = refl
or_err-if false x y why = refl

abbrev pub or_panic {ℓ} : {A : Type ℓ} → Option A → Outcome A
or_panic none = panic
or_panic (some a) = ok a

pub or_panic-eq-ok {ℓ} : {A : Type ℓ} (o : Option A) {a : A} → or_panic o ≡ ok a → o ≡ some a
or_panic-eq-ok none e = cc
or_panic-eq-ok (some x) e = cc

-- `xs[i]`: an index below 0 or past the end panics.
unfoldable pub index {ℓ} : {A : Type ℓ} → List A → ℤ → Outcome A
index xs (pos i) = or_panic (get_elem? xs i)
index xs (negsuc i) = panic

-- A computation that takes fuel: `none` where the fuel runs out.
abbrev pub Running {ℓ} : Type ℓ → Type ℓ
Running A = Option (Outcome A)

module _ {ℓ κ} {A : Type ℓ} {B : Type κ} where
  infixl 5 ◌>>>◌
  abbrev pub ◌>>>◌ : Running A → (A → Running B) → Running B
  none >>> next = none
  some panic >>> next = some panic
  some (err why) >>> next = some (err why)
  some (ok value) >>> next = next value

  pub >>>-eq-ok :
      (m : Running A) (next : A → Running B) {b : B}
      → (m >>> next) ≡ some (ok b)
      → (value : A) × (m ≡ some (ok value)) × (next value ≡ some (ok b))
  >>>-eq-ok none next e = cc
  >>>-eq-ok (some panic) next e = cc
  >>>-eq-ok (some (err why)) next e = cc
  >>>-eq-ok (some (ok value)) next e = (value, refl, e)

  pub >>>-cong :
      (m : Running A) (f g : A → Running B) → ((a : A) → f a ≡ g a) → (m >>> f) ≡ (m >>> g)
  >>>-cong none f g h = refl
  >>>-cong (some panic) f g h = refl
  >>>-cong (some (err why)) f g h = refl
  >>>-cong (some (ok value)) f g h = h value
