-- ===== src/Core/Utxo/Funds.antt =====
-- internal/core/utxo_set.go: what `FindSpendableOutputs` collects.
use go_blockchain.Prelude.{
  ℕ, ◌+◌, ◌≡◌, ◌⊎◌, refl, sym, ap, ◌∙◌, subst, false, ◌&&◌, List, [], ◌∷◌, arith, if◌then◌else◌, ℤ,
  pos, ◌≤ℤ◌, ltb_ℤ, leb_ℤ, add64, IsInt64, add64-IsInt64, Bytes, Outcome, ok, ◌>>=◌, >>=-eq-ok,
  ok_injective, Bool-cases, inl, inr,
}
use go_blockchain.Storage.{Storage}
use go_blockchain.Core.External.{Codec}
use go_blockchain.Core.Output.{TxOutput}
use go_blockchain.Core.Utxo.{
  Spendable, is_spendable, collect_output, collect_outputs, collect_entries, deserialize_outputs,
  find_spendable_outputs,
}

-- The int64 sum of the values of all outputs that can be spent, from an initial value.
unfoldable pub spendable_value : Bytes → List TxOutput → ℤ → ℤ
spendable_value pkh [] acc = acc
spendable_value pkh (out ∷ outs) acc =
    spendable_value pkh outs (if is_spendable pkh out then add64 acc out.value else acc)

unfoldable pub total_spendable :
    Codec (List TxOutput) → Bytes → List (Bytes × Bytes) → ℤ → Outcome ℤ
total_spendable og pkh [] acc = ok acc
total_spendable og pkh ((k, v) ∷ entries) acc = deserialize_outputs og v >>= λ outs.
    total_spendable og pkh entries (spendable_value pkh outs acc)

-- What was collected is enough, or it is all there is.
abbrev EnoughOr : ℤ → ℤ → ℤ → Type 0
EnoughOr amount collected all = (amount ≤ℤ collected) ⊎ (collected ≡ all)

collect_output_done :
    (pkh : Bytes) (amount : ℤ) (id : Bytes) (i : ℕ) (out : TxOutput) (found : Spendable)
    → amount ≤ℤ found.accumulated
    → collect_output pkh amount id i out found ≡ found
unfolding collect_output
collect_output_done pkh amount id i out found h = ground arith

collect_output_more :
    (pkh : Bytes) (amount : ℤ) (id : Bytes) (i : ℕ) (out : TxOutput) (found : Spendable)
    → leb_ℤ amount found.accumulated ≡ false
    → (collect_output pkh amount id i out found).accumulated
      ≡ (if is_spendable pkh out then add64 found.accumulated out.value else found.accumulated)
unfolding collect_output
collect_output_more pkh amount id i out found h = ground arith

collect_output-IsInt64 :
    (pkh : Bytes) (amount : ℤ) (id : Bytes) (i : ℕ) (out : TxOutput) (found : Spendable)
    → IsInt64 found.accumulated
    → IsInt64 (collect_output pkh amount id i out found).accumulated
unfolding collect_output
collect_output-IsInt64 pkh amount id i out found h =
    elim (Bool-cases (is_spendable pkh out && ltb_ℤ found.accumulated amount)) [
      | inl e ↦ rw e (add64-IsInt64 found.accumulated out.value)
      | inr e ↦ rw e h
    ]

collect_outputs-IsInt64 :
    (pkh : Bytes) (amount : ℤ) (id : Bytes) (i : ℕ) (outs : List TxOutput) (found : Spendable)
    → IsInt64 found.accumulated
    → IsInt64 (collect_outputs pkh amount id i outs found).accumulated
unfolding collect_outputs
collect_outputs-IsInt64 pkh amount id i [] found h = h
collect_outputs-IsInt64 pkh amount id i (out ∷ outs) found h =
    collect_outputs-IsInt64 pkh amount id (i + 1) outs (collect_output pkh amount id i out found)
      (collect_output-IsInt64 pkh amount id i out found h)

collect_outputs_done :
    (pkh : Bytes) (amount : ℤ) (id : Bytes) (i : ℕ) (outs : List TxOutput) (found : Spendable)
    → amount ≤ℤ found.accumulated
    → (collect_outputs pkh amount id i outs found).accumulated ≡ found.accumulated
unfolding collect_outputs
collect_outputs_done pkh amount id i [] found h = refl
collect_outputs_done pkh amount id i (out ∷ outs) found h =
    ap (λ f. (collect_outputs pkh amount id (i + 1) outs f).accumulated)
      (collect_output_done pkh amount id i out found h)
    ∙ collect_outputs_done pkh amount id (i + 1) outs found h

collect_outputs_enough :
    (pkh : Bytes) (amount : ℤ) (id : Bytes) (i : ℕ) (outs : List TxOutput) (found : Spendable)
    → EnoughOr amount
        (collect_outputs pkh amount id i outs found).accumulated
        (spendable_value pkh outs found.accumulated)
unfolding collect_outputs spendable_value
collect_outputs_enough pkh amount id i [] found = inr refl
collect_outputs_enough pkh amount id i (out ∷ outs) found =
    elim (Bool-cases (leb_ℤ amount found.accumulated)) [
      | inl e ↦
          let enough : amount ≤ℤ found.accumulated = ground arith in
          inl (
            subst (λ a. amount ≤ℤ a)
              (sym (collect_outputs_done pkh amount id i (out ∷ outs) found enough)) enough)
      | inr e ↦
          let found' = collect_output pkh amount id i out found in
          subst
            (λ a.
              EnoughOr amount (collect_outputs pkh amount id (i + 1) outs found').accumulated
                (spendable_value pkh outs a))
            (collect_output_more pkh amount id i out found e)
            (collect_outputs_enough pkh amount id (i + 1) outs found')
    ]

module _ (og : Codec (List TxOutput)) (pkh : Bytes) (amount : ℤ) where
  -- The two ways in which a round of the loop over the entries goes on.
  collect_entries-cons :
      (k v : Bytes) (entries : List (Bytes × Bytes)) (found found' : Spendable)
      → collect_entries og pkh amount ((k, v) ∷ entries) found ≡ ok found'
      → (outs : List TxOutput) × (deserialize_outputs og v ≡ ok outs)
        × (((amount ≤ℤ found'.accumulated) × (collect_outputs pkh amount k 0 outs found ≡ found'))
            ⊎ ((leb_ℤ amount (collect_outputs pkh amount k 0 outs found).accumulated ≡ false)
                × (collect_entries og pkh amount entries (collect_outputs pkh amount k 0 outs found)
                    ≡ ok found')))
  unfolding collect_entries
  collect_entries-cons k v entries found found' run =
      let (outs, read, rest) = >>=-eq-ok (deserialize_outputs og v) _ run in
      let done = collect_outputs pkh amount k 0 outs found in
      (
        outs,
        read,
        elim (Bool-cases (leb_ℤ amount done.accumulated)) [
          | inl e ↦
              let same : done ≡ found' = ok_injective (rw e at rest) in
              inl (subst (λ f. amount ≤ℤ f.accumulated) same (ground arith), same)
          | inr e ↦ inr (e, rw e at rest)
        ],
      )

  collect_entries-IsInt64 :
      (entries : List (Bytes × Bytes)) (found found' : Spendable)
      → IsInt64 found.accumulated
      → collect_entries og pkh amount entries found ≡ ok found'
      → IsInt64 found'.accumulated
  collect_entries-IsInt64 [] found found' h run =
      unfold collect_entries in subst (λ f. IsInt64 f.accumulated) (ok_injective run) h
  collect_entries-IsInt64 ((k, v) ∷ entries) found found' h run =
      let (outs, read, go) = collect_entries-cons k v entries found found' run in
      let kept = collect_outputs-IsInt64 pkh amount k 0 outs found h in
      elim go [
        | inl (enough, same) ↦ subst (λ f. IsInt64 f.accumulated) same kept
        | inr (more, rest) ↦
            collect_entries-IsInt64 entries (collect_outputs pkh amount k 0 outs found) found' kept
              rest
      ]

  collect_entries_enough :
      (entries : List (Bytes × Bytes)) (found found' : Spendable)
      → collect_entries og pkh amount entries found ≡ ok found'
      → (amount ≤ℤ found'.accumulated)
        ⊎ (total_spendable og pkh entries found.accumulated ≡ ok found'.accumulated)
  unfolding total_spendable
  collect_entries_enough [] found found' run =
      inr (unfold collect_entries in ap (λ f. ok f.accumulated) (ok_injective run))
  collect_entries_enough ((k, v) ∷ entries) found found' run =
      let (outs, read, go) = collect_entries-cons k v entries found found' run in
      let done = collect_outputs pkh amount k 0 outs found in
      elim go [
        | inl (enough, same) ↦ inl enough
        | inr (more, rest) ↦ elim (collect_entries_enough entries done found' rest) [
          | inl enough ↦ inl enough
          | inr all ↦ elim (collect_outputs_enough pkh amount k 0 outs found) [
            | inl enough ↦ absurd (ground arith)
            | inr value ↦ inr (rw (read, sym value) all)
          ]
        ]
      ]

module _ {ℓ} {S : Type ℓ} (st : Storage S) (og : Codec (List TxOutput)) where
  -- What `FindSpendableOutputs` has accumulated is an int64, and it is at least the amount, or the int64
  -- sum of all outputs in the set that are locked with the key hash and are no escrow.
  pub find_spendable_outputs_lem :
      (s : S) (pkh : Bytes) (amount : ℤ) (entries : List (Bytes × Bytes)) (found : Spendable)
      → st.iterate_utxo s ≡ ok entries
      → find_spendable_outputs st og s pkh amount ≡ ok found
      → IsInt64 found.accumulated
        × ((amount ≤ℤ found.accumulated)
            ⊎ (total_spendable og pkh entries (pos 0) ≡ ok found.accumulated))
  unfolding find_spendable_outputs
  find_spendable_outputs_lem s pkh amount entries found read run =
      let go : collect_entries og pkh amount entries (record { accumulated = pos 0; outputs = [] })
          ≡ ok found =
        rw read at run in
      (
        collect_entries-IsInt64 og pkh amount entries _ found (omega arith) go,
        collect_entries_enough og pkh amount entries _ found go,
      )
