-- ===== src/Firewall/Passkey/Signed.antt =====
-- A policy that was signed is loaded, and a policy that is loaded is signed.
use go_blockchain.Prelude.{
  ℕ, ◌<◌, ◌^◌, ◌≡◌, refl, sym, ap, ◌∙◌, subst, true, false, ◌||◌, [], ◌∷◌, ◌++◌, Option, none, some,
  arith, ◌==◌, Bytes, AreBytes, All-append, IsByte, length, take, drop, Outcome, ok, err, panic,
  >>=-eq-ok, or_err, or_err-eq-ok, ok_injective, some_injective, sign_failed, serialize_failed,
  storage_failed, deserialize_failed, Bool-cases, Option-cases, inl, inr,
}
use go_blockchain.Hex.{hex_encode, hex_decode, hex_decode-hex_encode}
use go_blockchain.Core.External.{Crypto, SignLaws, PrivateKey, Codec}
use go_blockchain.Core.Bignum.{
  set_bytes, fill_bytes_ok, low_bytes, low_bytes-AreBytes, length-low_bytes_append,
  set_bytes-halves,
}
use go_blockchain.Firewall.{Policy}
use go_blockchain.Firewall.Passkey.{
  SignatureError, unsigned_policy, sixty_four, canonical_hash, sign_policy, verify_decoded,
  verify_policy_signature, load_and_verify,
}

abbrev pair : ℕ → ℕ → Bytes
pair a b = low_bytes 32 a ++ low_bytes 32 b

pair-AreBytes : (a b : ℕ) → AreBytes (pair a b)
pair-AreBytes a b =
    All-append IsByte (low_bytes 32 a) (low_bytes 32 b) (low_bytes-AreBytes 32 a)
      (low_bytes-AreBytes 32 b)

sixty_four-pair : (a b : ℕ) → sixty_four (hex_decode (hex_encode (pair a b))) ≡ some (pair a b)
sixty_four-pair a b =
    rw (hex_decode-hex_encode (pair a b) (pair-AreBytes a b), length-low_bytes_append a b) refl

-- The hex spelling of 64 bytes is not empty.
hex_filled : (b : Bytes) → length b ≡ 64 → (length (hex_encode b) == 0) ≡ false
unfolding hex_encode
hex_filled [] h = absurd (omega arith)
hex_filled (x ∷ b) h = ground arith

module _ (c : Crypto) (json : Codec Policy) (key : PrivateKey) (laws : SignLaws c key)
    (x_fits : key.x < 2 ^ 256) (y_fits : key.y < 2 ^ 256) where
  -- What `SignPolicy` returns.
  abbrev signed_as : Policy → ℕ → ℕ → Policy
  signed_as p r s = record p {
    signature = hex_encode (pair r s);
    signature_public_key = hex_encode (pair key.x key.y);
  }

  sign_policy_lem :
      (draw : ℕ) (p p' : Policy)
      → sign_policy c json draw key p ≡ ok p'
      → (h : Bytes) × (r : ℕ) × (s : ℕ) × (canonical_hash c json p ≡ ok h)
        × (c.ecdsa_sign draw key h ≡ some (r, s))
        × (p' ≡ signed_as p r s)
  unfolding sign_policy
  sign_policy_lem draw p p' made =
      let (h, hashed, e1) = >>=-eq-ok (canonical_hash c json p) _ made in
      let ((r, s), signed, e2) = >>=-eq-ok (or_err (c.ecdsa_sign draw key h) sign_failed) _ e1 in
      let done = or_err-eq-ok (c.ecdsa_sign draw key h) sign_failed signed in
      let (r_fits, s_fits) = laws.sign_range draw h r s done in
      (
        h,
        r,
        s,
        hashed,
        done,
        sym (
            ok_injective (
              rw
                (
                  fill_bytes_ok 32 r r_fits,
                  fill_bytes_ok 32 s s_fits,
                  fill_bytes_ok 32 key.x x_fits,
                  fill_bytes_ok 32 key.y y_fits,
                )
                at e2)),
      )

  signed_as-verifies :
      (draw : ℕ) (p : Policy) (h : Bytes) (r s : ℕ)
      → canonical_hash c json p ≡ ok h
      → c.ecdsa_sign draw key h ≡ some (r, s)
      → verify_policy_signature c json (signed_as p r s) ≡ none
  unfolding verify_policy_signature canonical_hash unsigned_policy verify_decoded
  signed_as-verifies draw p h r s hashed done =
      let (r_fits, s_fits) = laws.sign_range draw h r s done in
      let (r_read, s_read) = set_bytes-halves r s r_fits s_fits in
      let (x_read, y_read) = set_bytes-halves key.x key.y x_fits y_fits in
      let decoded : verify_decoded c json (pair r s) (pair key.x key.y) (ok h) ≡ none =
        rw (verify_decoded, x_read, y_read, r_read, s_read, laws.verify_sign draw h r s done)
          refl in
      let same : canonical_hash c json (signed_as p r s) ≡ ok h = hashed in
      let sig_filled = hex_filled (pair r s) (length-low_bytes_append r s) in
      let key_filled = hex_filled (pair key.x key.y) (length-low_bytes_append key.x key.y) in
      rw
        (
          sig_filled,
          key_filled,
          sixty_four-pair r s,
          sixty_four-pair key.x key.y,
          verify_policy_signature,
          same,
        )
        decoded

  -- A policy that `SignPolicy` signed with any key of 256-bit coordinates whose signatures ECDSA accepts,
  -- and whose file is read back as it was written, passes `LoadAndVerify`: no key is named from outside.
  -- All but the two fields of the signature is as it was.
  pub load_and_verify-sign_policy :
      (draw : ℕ) (p p' : Policy) (content : Bytes)
      → sign_policy c json draw key p ≡ ok p'
      → json.decode content ≡ some p'
      → (load_and_verify c json (some content) ≡ ok p') × (unsigned_policy p' ≡ unsigned_policy p)
  unfolding load_and_verify unsigned_policy
  load_and_verify-sign_policy draw p p' content made read =
      let (h, r, s, hashed, done, same) = sign_policy_lem draw p p' made in
      let good = signed_as-verifies draw p h r s hashed done in
      let sig_filled = hex_filled (pair r s) (length-low_bytes_append r s) in
      let key_filled = hex_filled (pair key.x key.y) (length-low_bytes_append key.x key.y) in
      (rw (read, same, sig_filled, key_filled, good) refl, ap unsigned_policy same)

sixty_four-some :
    (o : Option Bytes) {b : Bytes} → sixty_four o ≡ some b → (o ≡ some b) × (length b ≡ 64)
sixty_four-some none h = absurd cc
sixty_four-some (some x) h = elim (Bool-cases (length x == 64)) [
  | inl e ↦
      let same = some_injective (rw e at h) in
      let size : length x ≡ 64 = ground arith in (ap some same, ap length (sym same) ∙ size)
  | inr e ↦ absurd (nothing (rw e at h))
]
  where
    nothing : {y : Bytes} → none ≡ some y → ⊥
    nothing e = cc

module _ (c : Crypto) (json : Codec Policy) where
  -- The signature of a policy: 64 bytes of signature and of key, which the policy holds in hex, and that
  -- verify for the hash of its other fields.
  pub record IsSigned (p : Policy) : Type 0 where
    pub sig : Bytes
    pub sig_read : hex_decode p.signature ≡ some sig
    pub sig_length : length sig ≡ 64
    pub key : Bytes
    pub key_read : hex_decode p.signature_public_key ≡ some key
    pub key_length : length key ≡ 64
    pub encoded : Bytes
    pub made : json.encode (unsigned_policy p) ≡ some encoded
    pub verified :
        c.ecdsa_verify
          (set_bytes (take 32 key))
          (set_bytes (drop 32 key))
          (c.sha256 encoded)
          (set_bytes (take 32 sig))
          (set_bytes (drop 32 sig))
        ≡ true

  verify_decoded-none :
      (sig key : Bytes) (hashed : Outcome Bytes)
      → verify_decoded c json sig key hashed ≡ none
      → (h : Bytes) × (hashed ≡ ok h)
        × (c.ecdsa_verify
              (set_bytes (take 32 key))
              (set_bytes (drop 32 key))
              h
              (set_bytes (take 32 sig))
              (set_bytes (drop 32 sig))
            ≡ true)
  unfolding verify_decoded
  verify_decoded-none sig key (ok h) e = (h, refl, ground arith)
  verify_decoded-none sig key (err why) e = absurd cc
  verify_decoded-none sig key panic e = absurd cc

  verify_policy_signature-none : (p : Policy) → verify_policy_signature c json p ≡ none → IsSigned p
  unfolding verify_policy_signature canonical_hash
  verify_policy_signature-none p h =
      elim (Bool-cases (length p.signature == 0 || length p.signature_public_key == 0)) [
        | inl e ↦ absurd (failing (rw (e, verify_policy_signature) at h))
        | inr e ↦ elim (Option-cases (sixty_four (hex_decode p.signature))) [
          | inl e1 ↦ absurd (failing (rw (e, e1, verify_policy_signature) at h))
          | inr (sig, e1) ↦ elim (Option-cases (sixty_four (hex_decode p.signature_public_key))) [
            | inl e2 ↦ absurd (failing (rw (e, e1, e2, verify_policy_signature) at h))
            | inr (key, e2) ↦
                let (hash, hashed, verified) =
                  verify_decoded-none sig key (canonical_hash c json p)
                    (rw (e, e1, e2, verify_policy_signature) at h) in
                let (d, made, same) =
                  >>=-eq-ok (or_err (json.encode (unsigned_policy p)) serialize_failed) _ hashed in
                let (sig_read, sig_length) = sixty_four-some (hex_decode p.signature) e1 in
                let (key_read, key_length) =
                  sixty_four-some (hex_decode p.signature_public_key) e2 in
                record {
                  sig = sig;
                  sig_read = sig_read;
                  sig_length = sig_length;
                  key = key;
                  key_read = key_read;
                  key_length = key_length;
                  encoded = d;
                  made = or_err-eq-ok (json.encode (unsigned_policy p)) serialize_failed made;
                  verified = rw (ok_injective same) verified;
                }
          ]
        ]
      ]
    where
      failing : {why : SignatureError} → some why ≡ none → ⊥
      failing e = cc

  -- A policy that `LoadAndVerify` returns was decoded from the file, and is signed: it holds 64 bytes of
  -- signature and of key in hex, which verify for the SHA-256 sum of the JSON of its other fields. Any
  -- other file ends in an error or a panic.
  pub load_and_verify-IsSigned :
      (content : Option Bytes) (p : Policy)
      → load_and_verify c json content ≡ ok p
      → ((d : Bytes) × (content ≡ some d) × (json.decode d ≡ some p)) × IsSigned p
  unfolding load_and_verify
  load_and_verify-IsSigned content p h =
      let (d, read, e1) = >>=-eq-ok (or_err content storage_failed) _ h in
      let (q, decoded, e2) = >>=-eq-ok (or_err (json.decode d) deserialize_failed) _ e1 in
      let given = or_err-eq-ok content storage_failed read in
      let parsed = or_err-eq-ok (json.decode d) deserialize_failed decoded in
      elim (Bool-cases (length q.signature == 0 || length q.signature_public_key == 0)) [
        | inl e ↦ absurd (locked (rw e at e2))
        | inr e ↦ elim (Option-cases (verify_policy_signature c json q)) [
          | inr (why, e') ↦ absurd (locked (rw (e, e') at e2))
          | inl e' ↦
              let same : q ≡ p = ok_injective (rw (e, e') at e2) in
              (
                (d, given, parsed ∙ ap some same),
                subst IsSigned same (verify_policy_signature-none q e'),
              )
        ]
      ]
    where
      locked : panic ≡ ok p → ⊥
      locked e = cc
