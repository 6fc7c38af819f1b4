-- ===== src/Core/Wallets/Tests.antt =====
-- Two wallets that are saved and loaded, with stand-ins for crypto/x509 and for gob on maps of two.
use go_blockchain.Prelude.{
  ℕ, ◌+◌, ◌≡◌, refl, sym, ap, subst, true, false, same_key, bytes_equal_refl, Bool-cases, inl, inr,
  [], ◌∷◌, Option, none, some, some_injective, arith, Bytes, take-length, drop-length, bytes_equal,
  Assoc, lookup, insert, codes, ok,
}
use go_blockchain.Core.External.{PrivateKey, Codec}
use go_blockchain.Core.Chain.Sample.{put_bytes, read_bytes, after_bytes}
use go_blockchain.Core.Wallet.{Wallet}
use go_blockchain.Core.Wallets.{
  SerializableWallet, X509, content, convert_all, serialized_wallet, new_wallets, save_to_file,
  get_wallet,
}
use go_blockchain.Core.Wallets.Saved.{IsMap, HasPoint, X509Laws, MapLaws, new_wallets-save_to_file}

abbrev point : ℕ → ℕ × ℕ
point d = (d + 1, d + 2)

abbrev parse_key : Bytes → Option PrivateKey
parse_key (d ∷ []) = some (record { d = d; x = d + 1; y = d + 2 })
parse_key _ = none

abbrev sec1 : X509
sec1 = record { marshal = λ k. some (k.d ∷ []); parse = parse_key }

sec1_laws : X509Laws sec1 point
sec1_laws = record {
  parse_marshal = λ k d own e.
      subst (λ b. parse_key b ≡ some k) (some_injective e)
        (ap (λ p. some (record { d = k.d; x = p.0; y = p.1 })) (sym own));
}

abbrev put_entry : Bytes × SerializableWallet → Bytes → Bytes
put_entry (a, sw) rest = put_bytes a (put_bytes sw.secret (put_bytes sw.public_key rest))

abbrev read_entry : Bytes → Bytes × SerializableWallet
read_entry d = (
  read_bytes d,
  record {
    secret = read_bytes (after_bytes d);
    public_key = read_bytes (after_bytes (after_bytes d));
  },
)

abbrev after_entry : Bytes → Bytes
after_entry d = after_bytes (after_bytes (after_bytes d))

read_entry-put_entry :
    (e : Bytes × SerializableWallet) (rest : Bytes) → read_entry (put_entry e rest) ≡ e
read_entry-put_entry (a, sw) rest = simp (take-length, drop-length)

after_entry-put_entry :
    (e : Bytes × SerializableWallet) (rest : Bytes) → after_entry (put_entry e rest) ≡ rest
after_entry-put_entry (a, sw) rest = simp drop-length

-- The map is decoded in another order.
abbrev encode_two : Assoc SerializableWallet → Option Bytes
encode_two (e ∷ f ∷ []) = some (put_entry e (put_entry f []))
encode_two _ = none

abbrev decode_two : Bytes → Option (Assoc SerializableWallet)
decode_two d = some (read_entry (after_entry d) ∷ read_entry d ∷ [])

abbrev gob_two : Codec (Assoc SerializableWallet)
gob_two = record { encode = encode_two; decode = decode_two }

decode_two-put_entry :
    (e f : Bytes × SerializableWallet)
    → decode_two (put_entry e (put_entry f [])) ≡ some (f ∷ e ∷ [])
decode_two-put_entry e f =
    rw
      (
        after_entry-put_entry e (put_entry f []),
        read_entry-put_entry f [],
        read_entry-put_entry e (put_entry f []),
      )
      refl

two_swap :
    (e f : Bytes × SerializableWallet)
    → IsMap (e ∷ f ∷ [])
    → IsMap (f ∷ e ∷ []) × ((a : Bytes) → lookup a (f ∷ e ∷ []) ≡ lookup a (e ∷ f ∷ []))
unfolding IsMap lookup
two_swap (j, u) (k, v) (alone, rest) =
    let apart : bytes_equal k j ≡ false = ground arith in
    let apart' : bytes_equal j k ≡ false = ground (arith, same_key j k, bytes_equal_refl j) in
    (
      (rw apart' refl, (refl, tt)),
      λ a. ground (arith, same_key j a, same_key k a, bytes_equal_refl j),
    )

decode_two-encode_two :
    (m : Assoc SerializableWallet) (d : Bytes)
    → IsMap m
    → encode_two m ≡ some d
    → (n : Assoc SerializableWallet) × (decode_two d ≡ some n)
      × IsMap n
      × ((a : Bytes) → lookup a n ≡ lookup a m)
decode_two-encode_two [] d one e = cc
decode_two-encode_two (e' ∷ []) d one e = cc
decode_two-encode_two (e' ∷ f ∷ []) d one e =
    let (swapped, same) = two_swap e' f one in
    let code : put_entry e' (put_entry f []) ≡ d = some_injective e in
    (
      f ∷ e' ∷ [],
      subst (λ b. decode_two b ≡ some (f ∷ e' ∷ [])) code (decode_two-put_entry e' f),
      swapped,
      same,
    )
decode_two-encode_two (e' ∷ f ∷ g ∷ m) d one e = cc

gob_two_laws : MapLaws gob_two
gob_two_laws = record { decode_encode = decode_two-encode_two }

abbrev alice : Wallet
alice = record { private_key = record { d = 5; x = 6; y = 7 }; public_key = codes "k" }

abbrev bob : Wallet
bob = record { private_key = record { d = 8; x = 9; y = 10 }; public_key = codes "l" }

abbrev wallets : Assoc Wallet
wallets = (codes "a", alice) ∷ (codes "b", bob) ∷ []

abbrev saved : Bytes
saved =
    put_entry (codes "a", record { secret = 5 ∷ []; public_key = codes "k" })
      (put_entry (codes "b", record { secret = 8 ∷ []; public_key = codes "l" }) [])

wallets-HasPoint :
    (a : Bytes) (w : Wallet) → lookup a wallets ≡ some w → HasPoint point w.private_key
unfolding lookup
wallets-HasPoint a w found = elim (Bool-cases (bytes_equal (codes "a") a)) [
  | inl first ↦
      let it : alice ≡ w = ground arith in subst (λ v. HasPoint point v.private_key) it refl
  | inr other ↦ elim (Bool-cases (bytes_equal (codes "b") a)) [
    | inl second ↦
        let it : bob ≡ w = ground arith in subst (λ v. HasPoint point v.private_key) it refl
    | inr neither ↦ absurd (ground arith)
  ]
]

wallets_once : IsMap wallets
unfolding IsMap lookup bytes_equal
wallets_once = (refl, (refl, tt))

new_wallets-save_to_file_example :
    (loaded : Assoc Wallet) × (new_wallets sec1 gob_two (content saved) ≡ ok loaded)
    × ((a : Bytes) → get_wallet loaded a ≡ get_wallet wallets a)
unfolding convert_all serialized_wallet insert bytes_equal save_to_file
new_wallets-save_to_file_example =
    new_wallets-save_to_file sec1 gob_two point sec1_laws gob_two_laws true wallets (content saved)
      wallets_once wallets-HasPoint refl
