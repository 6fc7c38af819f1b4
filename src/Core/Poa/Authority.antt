-- ===== src/Core/Poa/Authority.antt =====
-- Who can make a block that `VerifyPoABlock` accepts.
use go_blockchain.Prelude.{
  ℕ, ◌<◌, ◌^◌, ◌≡◌, sym, ◌∙◌, true, ◌||◌, List, [], ◌∷◌, ◌++◌, none, some, arith, ℤ, Bytes,
  bytes_equal, bytes_equal→eq, ok, err, sign_failed, Option-cases, inl, inr, ok_injective, subst,
  Bool-cases,
}
use go_blockchain.Core.External.{Crypto, SignLaws, PrivateKey, Codec}
use go_blockchain.Core.Bignum.{fill_bytes_ok, length-low_bytes_append, set_bytes-halves}
use go_blockchain.Core.Transaction.{Transaction}
use go_blockchain.Core.Transaction.Signing.{pair_bytes, public_key}
use go_blockchain.Core.Block.{Block}
use go_blockchain.Core.Pow.{draft_block}
use go_blockchain.Core.Poa.{
  is_authorized_key, add_authorized_key, sign_hash, new_block_poa, verify_poa_block, with_authority,
}

is_authorized_key-append :
    (k key : Bytes) (keys : List Bytes)
    → is_authorized_key k (keys ++ key ∷ []) ≡ is_authorized_key k keys || bytes_equal key k
unfolding is_authorized_key
is_authorized_key-append k key [] = ground arith
is_authorized_key-append k key (j ∷ keys) = ground (arith, is_authorized_key-append k key keys)

absorb :
    (k key : Bytes) (keys : List Bytes)
    → is_authorized_key key keys ≡ true
    → is_authorized_key k keys ≡ is_authorized_key k keys || bytes_equal key k
absorb k key keys h = elim (Bool-cases (bytes_equal key k)) [
  | inl same ↦
      let now : is_authorized_key k keys ≡ true =
        subst (λ j. is_authorized_key j keys ≡ true) (bytes_equal→eq key k same) h in
      rw now
  | inr other ↦ ground arith
]

-- After `AddAuthorizedKey` exactly that key and those before are authorized.
pub is_authorized_key-add_authorized_key :
    (k key : Bytes) (keys : List Bytes)
    → is_authorized_key k (add_authorized_key key keys)
      ≡ is_authorized_key k keys || bytes_equal key k
unfolding add_authorized_key
is_authorized_key-add_authorized_key k key keys = elim (Bool-cases (is_authorized_key key keys)) [
  | inl known ↦ rw known (absorb k key keys known)
  | inr new ↦ rw new (is_authorized_key-append k key keys)
]

module _ (c : Crypto) (g : Codec Transaction) (key : PrivateKey) (laws : SignLaws c key)
    (x_fits : key.x < 2 ^ 256) (y_fits : key.y < 2 ^ 256) where
  new_block_poa-signed :
      (draw : ℕ) (now : ℤ) (txs : List Transaction) (prev_hash : Bytes) (height bits : ℤ) (r s : ℕ)
      → c.ecdsa_sign draw key (sign_hash c g (draft_block now txs prev_hash height bits))
        ≡ some (r, s)
      → new_block_poa c g draw now txs prev_hash height bits key
        ≡ ok (
            with_authority
              (draft_block now txs prev_hash height bits)
              (public_key key)
              (sign_hash c g (draft_block now txs prev_hash height bits))
              (pair_bytes r s))
  unfolding new_block_poa
  new_block_poa-signed draw now txs prev_hash height bits r s e =
      let (hr, hs) = laws.sign_range draw _ r s e in
      rw (
        fill_bytes_ok 32 key.x x_fits,
        fill_bytes_ok 32 key.y y_fits,
        e,
        fill_bytes_ok 32 r hr,
        fill_bytes_ok 32 s hs,
      )

  new_block_poa-unsigned :
      (draw : ℕ) (now : ℤ) (txs : List Transaction) (prev_hash : Bytes) (height bits : ℤ)
      → c.ecdsa_sign draw key (sign_hash c g (draft_block now txs prev_hash height bits)) ≡ none
      → new_block_poa c g draw now txs prev_hash height bits key ≡ err sign_failed
  unfolding new_block_poa
  new_block_poa-unsigned draw now txs prev_hash height bits e =
      rw (fill_bytes_ok 32 key.x x_fits, fill_bytes_ok 32 key.y y_fits, e)

  -- A draft with the authority's key and a signature of its hash verifies, whatever is in `hash`.
  with_authority-verify :
      (keys : List Bytes) (draft : Block) (draw r s : ℕ) (h : Bytes)
      → c.ecdsa_sign draw key (sign_hash c g draft) ≡ some (r, s)
      → is_authorized_key (public_key key) keys ≡ true
      → verify_poa_block c g keys (with_authority draft (public_key key) h (pair_bytes r s)) ≡ true
  unfolding verify_poa_block sign_hash
  with_authority-verify keys draft draw r s h e known =
      let (rf, sf) = laws.sign_range draw _ r s e in
      let (r_read, s_read) = set_bytes-halves r s rf sf in
      let (x_read, y_read) = set_bytes-halves key.x key.y x_fits y_fits in
      rw
        (
          length-low_bytes_append r s,
          length-low_bytes_append key.x key.y,
          known,
          x_read,
          y_read,
          r_read,
          s_read,
        )
        (laws.verify_sign draw _ r s e)

  -- A block that `NewBlockPoA` makes passes `VerifyPoABlock` wherever its key is authorized, and
  -- keeps doing so whatever its `hash` is replaced with.
  pub new_block_poa-verify_poa_block :
      (keys : List Bytes) (draw : ℕ) (now : ℤ) (txs : List Transaction) (prev_hash : Bytes)
      (height bits : ℤ) (b : Block) (h : Bytes)
      → new_block_poa c g draw now txs prev_hash height bits key ≡ ok b
      → is_authorized_key (public_key key) keys ≡ true
      → (verify_poa_block c g keys b ≡ true)
        × (verify_poa_block c g keys (record b { hash = h }) ≡ true)
  new_block_poa-verify_poa_block keys draw now txs prev_hash height bits b h made known =
      let draft = draft_block now txs prev_hash height bits in
      elim (Option-cases (c.ecdsa_sign draw key (sign_hash c g draft))) [
        | inl e ↦
            let failed = new_block_poa-unsigned draw now txs prev_hash height bits e in absurd cc
        | inr ((r, s), e) ↦
            let signed = new_block_poa-signed draw now txs prev_hash height bits r s e in
            subst
              (λ p.
                (verify_poa_block c g keys p ≡ true)
                × (verify_poa_block c g keys (record p { hash = h }) ≡ true))
              (ok_injective (sym signed ∙ made))
              (
                with_authority-verify keys draft draw r s (sign_hash c g draft) e known,
                with_authority-verify keys draft draw r s h e known,
              )
      ]
