-- ===== src/Storage/Sample.antt =====
-- A stand-in for bbolt, for the examples: buckets as association lists.
use go_blockchain.Prelude.{
  some, Bytes, Assoc, lookup, insert, delete, lookup-insert, lookup-delete, subst, ◌≡◌, refl,
  if◌then◌else◌, bytes_equal, none, [],
}
use go_blockchain.Storage.Bolt.{Bbolt, BboltLaws}

abbrev pub sample_bbolt : Bbolt (Assoc Bytes)
sample_bbolt = record {
  empty = [];
  get = λ b k. lookup k b;
  put = λ b k v. some (insert k v b);
  delete = λ b k. some (delete k b);
  entries = λ b. b;
}

pub sample_bbolt_laws : BboltLaws sample_bbolt
unfolding lookup
sample_bbolt_laws = record {
  get_empty = λ k. refl;
  get-put = λ b b' k v j e.
      let same : insert k v b ≡ b' = cc in
      subst (λ x. lookup j x ≡ (if bytes_equal k j then some v else lookup j b)) same
        (lookup-insert k j v b);
  get-delete = λ b b' k j e.
      let same : delete k b ≡ b' = cc in
      subst (λ x. lookup j x ≡ (if bytes_equal k j then none else lookup j b)) same
        (lookup-delete k j b);
}
