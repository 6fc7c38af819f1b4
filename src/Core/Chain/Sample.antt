-- ===== src/Core/Chain/Sample.antt =====
-- A stand-in for gob on blocks without transactions, for the examples: numbers as two bytes, byte
-- strings behind their length.
use go_blockchain.Prelude.{
  zero, suc, ◌≡◌, refl, sym, ap, ◌∙◌, List, [], ◌∷◌, ◌++◌, Option, none, some, ℤ, pos, negsuc,
  Bytes, length, take, drop, take-length, drop-length,
}
use go_blockchain.Core.External.{Codec}
use go_blockchain.Core.Transaction.{Transaction}
use go_blockchain.Core.Block.{Block}
use go_blockchain.Core.Chain.Adding.{RoundTrips}

abbrev put_int : ℤ → Bytes → Bytes
put_int (pos n) rest = 0 ∷ n ∷ rest
put_int (negsuc n) rest = 1 ∷ n ∷ rest

abbrev pub put_bytes : Bytes → Bytes → Bytes
put_bytes bs rest = length bs ∷ (bs ++ rest)

abbrev read_int : Bytes → ℤ
read_int (zero ∷ n ∷ rest) = pos n
read_int (suc m ∷ n ∷ rest) = negsuc n
read_int _ = pos 0

abbrev after_int : Bytes → Bytes
after_int (m ∷ n ∷ rest) = rest
after_int _ = []

abbrev pub read_bytes : Bytes → Bytes
read_bytes [] = []
read_bytes (n ∷ rest) = take n rest

abbrev pub after_bytes : Bytes → Bytes
after_bytes [] = []
after_bytes (n ∷ rest) = drop n rest

read_int-put_int : (a : ℤ) (rest : Bytes) → read_int (put_int a rest) ≡ a
read_int-put_int (pos n) rest = refl
read_int-put_int (negsuc n) rest = refl

after_int-put_int : (a : ℤ) (rest : Bytes) → after_int (put_int a rest) ≡ rest
after_int-put_int (pos n) rest = refl
after_int-put_int (negsuc n) rest = refl

abbrev put_block : Block → Bytes
put_block b = put_int b.timestamp (
    put_int b.nonce (
      put_int b.height (
        put_int b.bits (
          put_bytes b.prev_block_hash (
            put_bytes b.hash
              (put_bytes b.authority_signature (put_bytes b.authority_pub_key [])))))))

abbrev read_block : Bytes → Block
read_block d0 =
    let d1 = after_int d0 in
    let d2 = after_int d1 in
    let d3 = after_int d2 in
    let d4 = after_int d3 in
    let d5 = after_bytes d4 in
    let d6 = after_bytes d5 in
    let d7 = after_bytes d6 in
    record {
      timestamp = read_int d0;
      transactions = [];
      prev_block_hash = read_bytes d4;
      hash = read_bytes d5;
      nonce = read_int d1;
      height = read_int d2;
      bits = read_int d3;
      authority_signature = read_bytes d6;
      authority_pub_key = read_bytes d7;
    }

read_block-put_block : (b : Block) → read_block (put_block b) ≡ record b { transactions = [] }
read_block-put_block b = simp (read_int-put_int, after_int-put_int, take-length, drop-length)

abbrev encode_block : Block → Option Bytes
encode_block b = elim b.transactions [ [] ↦ some (put_block b) | tx ∷ txs ↦ none ]

abbrev pub sample_block_codec : Codec Block
sample_block_codec = record { encode = encode_block; decode = λ d. some (read_block d) }

encoded_by :
    (b : Block) (txs : List Transaction) (d : Bytes)
    → b.transactions ≡ txs
    → (elim txs [ [] ↦ some (put_block b) | tx ∷ rest ↦ none ]) ≡ some d
    → some (read_block d) ≡ some b
encoded_by b [] d same e =
    let code : d ≡ put_block b = cc in
    let whole : record b { transactions = [] } ≡ b =
      ap (λ t. record b { transactions = t }) (sym same) in
    ap (λ x. some (read_block x)) code ∙ ap some (read_block-put_block b ∙ whole)
encoded_by b (tx ∷ txs) d same e = cc

pub sample_block_trips : RoundTrips sample_block_codec
sample_block_trips b d e = encoded_by b b.transactions d refl e
