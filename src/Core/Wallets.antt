-- ===== src/Core/Wallets.antt =====
-- internal/core/wallets.go: the wallets by their addresses, and the file that keeps them. A map is
-- visited in the order of its list. crypto/x509 and gob are parameters, and so are the answers of
-- `ecdsa.GenerateKey` and of `os.WriteFile`.
pub mod Saved
mod Tests
use go_blockchain.Prelude.{
  ℕ, ◌≡◌, Bool, true, false, List, [], ◌∷◌, map, Option, none, some, if◌then◌else◌, Bytes, Assoc,
  lookup, insert, Error, not_found, serialize_failed, deserialize_failed, storage_failed, Outcome,
  ok, err, panic, ◌>>=◌, or_err,
}
use go_blockchain.Core.External.{PrivateKey, Crypto, Codec}
use go_blockchain.Core.Wallet.{Wallet, new_wallet, get_address}

pub record SerializableWallet : Type 0 where
  pub secret : Bytes
  pub public_key : Bytes

-- `x509.MarshalECPrivateKey` and `x509.ParseECPrivateKey`.
pub record X509 : Type 0 where
  pub marshal : PrivateKey → Option Bytes
  pub parse : Bytes → Option PrivateKey

-- The file of a node.
pub data WalletFile : Type 0 where
  absent unreadable : WalletFile
  content : Bytes → WalletFile

-- The loop over a map that converts each value, stops at a failure, and sets it in another map.
unfoldable pub convert_all {ℓ κ} :
    {V : Type ℓ} {W : Type κ} → (V → Option W) → Error → Assoc V → Assoc W → Outcome (Assoc W)
convert_all convert why [] done = ok done
convert_all convert why ((k, v) ∷ m) done =
    or_err (convert v) why >>= λ w. convert_all convert why m (insert k w done)

unfoldable pub serialized_wallet : X509 → Wallet → Option SerializableWallet
serialized_wallet x w = elim (x.marshal w.private_key) [
  | none ↦ none
  | some d ↦ some (record { secret = d; public_key = w.public_key })
]

unfoldable pub parsed_wallet : X509 → SerializableWallet → Option Wallet
parsed_wallet x sw = elim (x.parse sw.secret) [
  | none ↦ none
  | some k ↦ some (record { private_key = k; public_key = sw.public_key })
]

module _ (x : X509) (g : Codec (Assoc SerializableWallet)) where
  -- An absent file is the error that `os.IsNotExist` is true of.
  unfoldable pub load_from_file : WalletFile → Assoc Wallet → Outcome (Assoc Wallet)
  load_from_file absent wallets = err not_found
  load_from_file unreadable wallets = err storage_failed
  load_from_file (content d) wallets = or_err (g.decode d) deserialize_failed >>= λ serialized.
      convert_all (parsed_wallet x) deserialize_failed serialized wallets

  unfoldable pub new_wallets : WalletFile → Outcome (Assoc Wallet)
  new_wallets file = elim (load_from_file file []) [
    | ok wallets ↦ ok wallets
    | err not_found ↦ ok []
    | err e ↦ err e
    | panic ↦ panic
  ]

  -- The new content of the file; `is_written` tells whether the file could be written.
  unfoldable pub save_to_file : Bool → Assoc Wallet → Outcome WalletFile
  save_to_file is_written wallets =
      convert_all (serialized_wallet x) serialize_failed wallets [] >>= λ serialized.
      or_err (g.encode serialized) serialize_failed >>= λ d.
      if is_written then ok (content d) else err storage_failed

unfoldable pub create_wallet :
    Crypto → Option PrivateKey → Assoc Wallet → Outcome (Assoc Wallet × Bytes)
create_wallet c generated wallets =
    new_wallet generated >>= λ w. ok (insert (get_address c w) w wallets, get_address c w)

unfoldable pub get_addresses : Assoc Wallet → List Bytes
get_addresses wallets = map (λ entry. entry.0) wallets

unfoldable pub get_wallet : Assoc Wallet → Bytes → Outcome Wallet
get_wallet wallets address = or_err (lookup address wallets) not_found
