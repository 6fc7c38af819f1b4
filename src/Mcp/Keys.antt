-- ===== src/Mcp/Keys.antt =====
-- The wallets of a keyring stand under their addresses, and none is lost.
use go_blockchain.Prelude.{
  ◌≡◌, refl, sym, ap, ◌∙◌, Option, none, some, Bytes, bytes_equal, bytes_equal_refl, bytes_equal→eq,
  lookup, insert, lookup-insert, ok, >>=-eq-ok, ok_injective, some_injective, Bool-cases, inl, inr,
}
use go_blockchain.Core.External.{Crypto, PrivateKey}
use go_blockchain.Core.Wallet.{Wallet, new_wallet, get_address}
use go_blockchain.Mcp.Wallets.{Keyring, new_keyring, generate_new_wallet}

module _ (c : Crypto) where
  -- Each wallet stands under its address, and the primary address has one.
  pub record IsSound (kr : Keyring) : Type 0 where
    pub addresses :
        (addr : Bytes) (w : Wallet) → lookup addr kr.keys ≡ some w → get_address c w ≡ addr
    pub primary : (w : Wallet) × (lookup kr.primary kr.keys ≡ some w)

  -- A later keyring has a wallet wherever an earlier one had one.
  pub record Grows (kr kr' : Keyring) : Type 0 where
    pub primary : kr'.primary ≡ kr.primary
    pub kept :
        (addr : Bytes) (w : Wallet)
        → lookup addr kr.keys ≡ some w
        → (w' : Wallet) × (lookup addr kr'.keys ≡ some w')
    pub addresses :
        IsSound kr
        → (addr : Bytes) (w : Wallet) → lookup addr kr'.keys ≡ some w
        → get_address c w ≡ addr

  pub Grows-refl : (kr : Keyring) → Grows kr kr
  Grows-refl kr = record {
    primary = refl;
    kept = λ addr w e. (w, e);
    addresses = λ sound. sound.addresses;
  }

  pub Grows-IsSound : (kr kr' : Keyring) → Grows kr kr' → IsSound kr → IsSound kr'
  Grows-IsSound kr kr' grows sound =
      let (w, e) = sound.primary in
      record {
        addresses = grows.addresses sound;
        primary = rw grows.primary (grows.kept kr.primary w e);
      }

  pub Grows-trans : (kr kr' kr'' : Keyring) → Grows kr kr' → Grows kr' kr'' → Grows kr kr''
  Grows-trans kr kr' kr'' first second = record {
    primary = second.primary ∙ first.primary;
    kept = λ addr w e. let (w', e') = first.kept addr w e in second.kept addr w' e';
    addresses = λ sound. second.addresses (Grows-IsSound kr kr' first sound);
  }

  insert-Grows :
      (kr : Keyring) (w : Wallet)
      → Grows kr (record kr { keys = insert (get_address c w) w kr.keys })
  insert-Grows kr w = record {
    primary = refl;
    kept = λ addr v e. elim (Bool-cases (bytes_equal (get_address c w) addr)) [
      | inl here ↦ (w, rw (lookup-insert (get_address c w) addr w kr.keys, here) refl)
      | inr there ↦ (v, rw (lookup-insert (get_address c w) addr w kr.keys, there) e)
    ];
    addresses = λ sound addr v e. elim (Bool-cases (bytes_equal (get_address c w) addr)) [
      | inl here ↦
          let same =
            some_injective (rw (lookup-insert (get_address c w) addr w kr.keys, here) at e) in
          ap (get_address c) (sym same) ∙ bytes_equal→eq (get_address c w) addr here
      | inr there ↦
          sound.addresses addr v (rw (lookup-insert (get_address c w) addr w kr.keys, there) at e)
    ];
  }

  pub generate_new_wallet-Grows :
      (generated : Option PrivateKey) (kr kr' : Keyring) (addr : Bytes)
      → generate_new_wallet c generated kr ≡ ok (kr', addr)
      → Grows kr kr'
  unfolding generate_new_wallet
  generate_new_wallet-Grows generated kr kr' addr h =
      let (w, made, rest) = >>=-eq-ok (new_wallet generated) _ h in
      rw (ap (λ x. x.0) (sym (ok_injective rest))) (insert-Grows kr w)

  pub new_keyring-IsSound :
      (generated : Option PrivateKey) (kr : Keyring) → new_keyring c generated ≡ ok kr → IsSound kr
  unfolding new_keyring insert lookup
  new_keyring-IsSound generated kr h =
      let (w, made, rest) = >>=-eq-ok (new_wallet generated) _ h in
      rw (sym (ok_injective rest)) (record {
        addresses = λ addr v e. elim (Bool-cases (bytes_equal (get_address c w) addr)) [
          | inl here ↦
              let same = some_injective (rw here at e) in
              ap (get_address c) (sym same) ∙ bytes_equal→eq (get_address c w) addr here
          | inr there ↦ absurd (nothing v (rw there at e))
        ];
        primary = (w, rw (bytes_equal_refl (get_address c w)) refl);
      })
    where
      nothing : (v : Wallet) → none ≡ some v → ⊥
      nothing v e = cc
