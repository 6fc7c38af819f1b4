-- ===== src/Core/Wallets/Saved.antt =====
-- Wallets that are saved and loaded.
use go_blockchain.Prelude.{
  ℕ, ◌≡◌, refl, sym, ap, ◌∙◌, Bool, false, [], ◌∷◌, Option, none, some, arith, Bytes, bytes_equal,
  bytes_equal_refl, Assoc, lookup, insert, lookup-insert, same_key, Error, not_found,
  deserialize_failed, ok, >>=-eq-ok, or_err, or_err-eq-ok, Option-cases, ◌⊎◌, serialize_failed,
  Bool-cases, inl, inr, ok_injective, some_injective, subst,
}
use go_blockchain.Core.External.{PrivateKey, Codec}
use go_blockchain.Core.Wallet.{Wallet}
use go_blockchain.Core.Wallets.{
  SerializableWallet, X509, WalletFile, content, convert_all, serialized_wallet, parsed_wallet,
  load_from_file, new_wallets, save_to_file, get_wallet,
}

-- Each key is in the list once.
unfoldable pub IsMap {ℓ} : {V : Type ℓ} → Assoc V → Type ℓ
IsMap [] = Unit
IsMap ((k, v) ∷ m) = (lookup k m ≡ none) × IsMap m

abbrev pub converted {ℓ κ} :
    {V : Type ℓ} {W : Type κ} → (V → Option W) → Option V → Option W → Option W
converted convert none before = before
converted convert (some v) before = convert v

insert-IsMap {ℓ} : {V : Type ℓ} (k : Bytes) (v : V) (m : Assoc V) → IsMap m → IsMap (insert k v m)
unfolding IsMap insert lookup
insert-IsMap k v [] one = (refl, tt)
insert-IsMap k v ((j, w) ∷ m) (alone, one) = elim (Bool-cases (bytes_equal j k)) [
  | inl same ↦ rw same (ap (λ i. lookup i m) (sym (same_key j k same)) ∙ alone, one)
  | inr other ↦
      let apart : bytes_equal k j ≡ false = ground (arith, same_key k j, bytes_equal_refl k) in
      rw other (rw (lookup-insert k j v m, apart) alone, insert-IsMap k v m one)
]

module _ {ℓ κ} {V : Type ℓ} {W : Type κ} (convert : V → Option W) (why : Error) where
  converted-insert :
      (a k : Bytes) (v : V) (w : W) (m : Assoc V) (done : Assoc W)
      → lookup k m ≡ none
      → convert v ≡ some w
      → converted convert (lookup a m) (lookup a (insert k w done))
        ≡ converted convert (lookup a ((k, v) ∷ m)) (lookup a done)
  unfolding lookup
  converted-insert a k v w m done alone e = elim (Bool-cases (bytes_equal k a)) [
    | inl same ↦
        let missing : lookup a m ≡ none = ap (λ j. lookup j m) (sym (same_key k a same)) ∙ alone in
        rw (same, missing, lookup-insert k a w done, e) (rw same refl)
    | inr other ↦ rw (other, lookup-insert k a w done) (rw other refl)
  ]

  -- What a loop sets is the conversion of what it visits, and else what was there.
  convert_all-lookup :
      (m : Assoc V) (done out : Assoc W) (a : Bytes)
      → IsMap m
      → convert_all convert why m done ≡ ok out
      → lookup a out ≡ converted convert (lookup a m) (lookup a done)
  unfolding convert_all IsMap lookup
  convert_all-lookup [] done out a one e = ap (λ m. lookup a m) (sym (ok_injective e))
  convert_all-lookup ((k, v) ∷ m) done out a (alone, one) e =
      let (w, found, rest) = >>=-eq-ok (or_err (convert v) why) _ e in
      convert_all-lookup m (insert k w done) out a one rest
      ∙ converted-insert a k v w m done alone (or_err-eq-ok (convert v) why found)

  convert_all-IsMap :
      (m : Assoc V) (done out : Assoc W)
      → IsMap done
      → convert_all convert why m done ≡ ok out
      → IsMap out
  unfolding convert_all
  convert_all-IsMap [] done out one e = subst IsMap (ok_injective e) one
  convert_all-IsMap ((k, v) ∷ m) done out one e =
      let (w, found, rest) = >>=-eq-ok (or_err (convert v) why) _ e in
      convert_all-IsMap m (insert k w done) out (insert-IsMap k w done one) rest

  -- Where the loop ends well, each value that it visits is converted.
  convert_all-converts :
      (m : Assoc V) (done out : Assoc W) (a : Bytes) (v : V)
      → convert_all convert why m done ≡ ok out
      → lookup a m ≡ some v
      → (w : W) × (convert v ≡ some w)
  unfolding convert_all lookup
  convert_all-converts [] done out a v e found = absurd (ground arith)
  convert_all-converts ((k, u) ∷ m) done out a v e found =
      let (w, can, rest) = >>=-eq-ok (or_err (convert u) why) _ e in
      elim (Bool-cases (bytes_equal k a)) [
        | inl same ↦
            let here : u ≡ v = ground arith in
            (w, subst (λ y. convert y ≡ some w) here (or_err-eq-ok (convert u) why can))
        | inr other ↦ convert_all-converts m (insert k w done) out a v rest (ground arith)
      ]

  -- And it ends well where each can be.
  convert_all_total :
      (m : Assoc V) (done : Assoc W)
      → IsMap m
      → ((a : Bytes) (v : V) → lookup a m ≡ some v → (w : W) × (convert v ≡ some w))
      → (out : Assoc W) × (convert_all convert why m done ≡ ok out)
  unfolding convert_all lookup IsMap
  convert_all_total [] done one can = (done, refl)
  convert_all_total ((k, v) ∷ m) done (alone, one) can =
      let (w, e) = can k v (rw (bytes_equal_refl k) refl) in
      let (out, rest) =
        convert_all_total m (insert k w done) one
          λ a u found. can a u (ground (arith, same_key k a)) in
      (out, rw e rest)

-- A key whose point is that of its secret number.
abbrev pub HasPoint : (ℕ → ℕ × ℕ) → PrivateKey → Type 0
HasPoint point k = (k.x, k.y) ≡ point k.d

-- A key of the curve that is marshalled is parsed again: parsing computes the point.
pub record X509Laws (x : X509) (point : ℕ → ℕ × ℕ) : Type 0 where
  pub parse_marshal :
      (k : PrivateKey) (d : Bytes) → HasPoint point k → x.marshal k ≡ some d → x.parse d ≡ some k

-- A map that is encoded is decoded as a map with the same entries, in any order.
pub record MapLaws {ℓ} {V : Type ℓ} (g : Codec (Assoc V)) : Type ℓ where
  pub decode_encode :
      (m : Assoc V) (d : Bytes)
      → IsMap m
      → g.encode m ≡ some d
      → (n : Assoc V) × (g.decode d ≡ some n) × IsMap n × ((a : Bytes) → lookup a n ≡ lookup a m)

parsed_wallet-serialized_wallet :
    (x : X509) (point : ℕ → ℕ × ℕ) (w : Wallet) (sw : SerializableWallet)
    → X509Laws x point
    → HasPoint point w.private_key
    → serialized_wallet x w ≡ some sw
    → parsed_wallet x sw ≡ some w
unfolding serialized_wallet parsed_wallet
parsed_wallet-serialized_wallet x point w sw laws own e =
    elim (Option-cases (x.marshal w.private_key)) [
      | inl missing ↦
          let refused : serialized_wallet x w ≡ none = rw (missing, serialized_wallet) refl in
          absurd (ground arith)
      | inr (d, found) ↦
          let sealed : serialized_wallet x w
              ≡ some (record { secret = d; public_key = w.public_key }) =
            rw (found, serialized_wallet) refl in
          subst (λ s. parsed_wallet x s ≡ some w) (some_injective (sym sealed ∙ e))
            (rw (laws.parse_marshal w.private_key d own found, parsed_wallet) refl)
    ]

module _ (x : X509) (g : Codec (Assoc SerializableWallet)) (point : ℕ → ℕ × ℕ)
    (x509 : X509Laws x point) (gob : MapLaws g) where
  -- What the loop of `SaveToFile` makes of an address.
  Entry : Assoc Wallet → Assoc SerializableWallet → Bytes → Type 0
  Entry ws saved a =
      ((lookup a ws ≡ none) × (lookup a saved ≡ none))
      ⊎ ((w : Wallet) × (sw : SerializableWallet) × (lookup a ws ≡ some w)
          × (lookup a saved ≡ some sw)
          × (parsed_wallet x sw ≡ some w))

  convert_all-Entry :
      (ws : Assoc Wallet) (saved : Assoc SerializableWallet)
      → IsMap ws
      → ((a : Bytes) (w : Wallet) → lookup a ws ≡ some w → HasPoint point w.private_key)
      → convert_all (serialized_wallet x) serialize_failed ws [] ≡ ok saved
      → (a : Bytes) → Entry ws saved a
  unfolding Entry lookup
  convert_all-Entry ws saved one own e a =
      let there = convert_all-lookup (serialized_wallet x) serialize_failed ws [] saved a one e in
      elim (Option-cases (lookup a ws)) [
        | inl missing ↦ inl (missing, there ∙ rw missing refl)
        | inr (w, found) ↦
            let (sw, sealed) =
              convert_all-converts (serialized_wallet x) serialize_failed ws [] saved a w e found in
            inr (
              w,
              sw,
              found,
              there ∙ rw found sealed,
              parsed_wallet-serialized_wallet x point w sw x509 (own a w found) sealed,
            )
      ]

  -- And `LoadFromFile`, of the same entries in any order.
  load-Entry :
      (ws : Assoc Wallet) (saved n : Assoc SerializableWallet)
      → IsMap n
      → ((a : Bytes) → lookup a n ≡ lookup a saved)
      → ((a : Bytes) → Entry ws saved a)
      → (loaded : Assoc Wallet) × (convert_all (parsed_wallet x) deserialize_failed n []
          ≡ ok loaded)
        × ((a : Bytes) → get_wallet loaded a ≡ get_wallet ws a)
  unfolding Entry get_wallet lookup
  load-Entry ws saved n one same entry =
      let (loaded, e) =
        convert_all_total (parsed_wallet x) deserialize_failed n [] one λ a sw found.
          elim (entry a) [
            | inl (missing, unsaved) ↦ absurd (ground (arith, same a))
            | inr (w, sw', held, kept, parsed) ↦ (
              w,
              subst (λ y. parsed_wallet x y ≡ some w)
                  (some_injective (sym kept ∙ sym (same a) ∙ found)) parsed,
            )
          ] in
      (
        loaded,
        e,
        λ a.
            let there =
              convert_all-lookup (parsed_wallet x) deserialize_failed n [] loaded a one e in
            elim (entry a) [
              | inl (missing, unsaved) ↦
                  ap (λ o. or_err o not_found) (there ∙ rw (same a, unsaved) (sym missing))
              | inr (w, sw', held, kept, parsed) ↦
                  ap (λ o. or_err o not_found) (there ∙ rw (same a, kept, parsed) (sym held))
            ],
      )

  save_to_file-content :
      (is_written : Bool) (ws : Assoc Wallet) (file : WalletFile)
      → save_to_file x g is_written ws ≡ ok file
      → (saved : Assoc SerializableWallet) × (d : Bytes) × (convert_all
            (serialized_wallet x)
            serialize_failed
            ws
            []
          ≡ ok saved)
        × (g.encode saved ≡ some d)
        × (content d ≡ file)
  unfolding save_to_file
  save_to_file-content is_written ws file e =
      let (saved, filled, after) =
        >>=-eq-ok (convert_all (serialized_wallet x) serialize_failed ws []) _ e in
      let (d, coded, written) = >>=-eq-ok (or_err (g.encode saved) serialize_failed) _ after in
      (saved, d, filled, or_err-eq-ok (g.encode saved) serialize_failed coded, ground arith)

  new_wallets-content :
      (d : Bytes) (n : Assoc SerializableWallet) (loaded : Assoc Wallet)
      → g.decode d ≡ some n
      → convert_all (parsed_wallet x) deserialize_failed n [] ≡ ok loaded
      → new_wallets x g (content d) ≡ ok loaded
  unfolding load_from_file new_wallets
  new_wallets-content d n loaded read loads =
      let loads_file : load_from_file x g (content d) [] ≡ ok loaded = rw read loads in
      rw (loads_file, new_wallets) refl

  -- Wallets that are saved are those that the file holds for the next start: where every address has one
  -- wallet, and each wallet's key the point of its secret number, a file that was written is loaded
  -- without an error, and each address has the wallet that it had, or none if it had none.
  pub new_wallets-save_to_file :
      (is_written : Bool) (ws : Assoc Wallet) (file : WalletFile)
      → IsMap ws
      → ((a : Bytes) (w : Wallet) → lookup a ws ≡ some w → HasPoint point w.private_key)
      → save_to_file x g is_written ws ≡ ok file
      → (loaded : Assoc Wallet) × (new_wallets x g file ≡ ok loaded)
        × ((a : Bytes) → get_wallet loaded a ≡ get_wallet ws a)
  unfolding IsMap
  new_wallets-save_to_file is_written ws file one own e =
      let (saved, d, filled, coded, same_file) = save_to_file-content is_written ws file e in
      let (n, read, once, same) =
        gob.decode_encode saved d
          (convert_all-IsMap (serialized_wallet x) serialize_failed ws [] saved tt filled) coded in
      let (loaded, loads, all) =
        load-Entry ws saved n once same (convert_all-Entry ws saved one own filled) in
      (
        loaded,
        subst (λ f. new_wallets x g f ≡ ok loaded) same_file
            (new_wallets-content d n loaded read loads),
        all,
      )
