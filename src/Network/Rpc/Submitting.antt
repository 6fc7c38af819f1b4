-- ===== src/Network/Rpc/Submitting.antt =====
-- internal/network/grpc_server.go: a submission that succeeds.
use go_blockchain.Prelude.{
  ◌≤◌, ◌≡◌, true, List, [], ◌∷◌, none, some, arith, if◌then◌else◌, ltb, ltb_ℤ, ◌≤ℤ◌, Bytes,
  bytes_equal, lookup, length, All, ok, err, panic, Bool-cases, Option-cases, inl, inr, Running,
}
use go_blockchain.Hex.{hex_encode}
use go_blockchain.Core.Output.{TxOutput}
use go_blockchain.Core.Transaction.{Transaction, serialize}
use go_blockchain.Core.Chain.Transactions.{verify_transaction}
use go_blockchain.Firewall.{max_transaction_value_limit}
use go_blockchain.Network.{Env, Server}
use go_blockchain.Network.Handlers.{submit_transaction}
use go_blockchain.Network.Convert.{ProtoTransaction, proto_tx_to_core}
use go_blockchain.Network.Mempool.{submit_transaction_lem}
use go_blockchain.Network.Rpc.{
  Refusal, RpcResponse, success, refused, over_value_limit, max_transaction_size_limit_bytes,
  submit_answer, submit_converted, submit_transaction_call,
}

abbrev pub IsWithinLimit : TxOutput → Type 0
IsWithinLimit out = out.value ≤ℤ max_transaction_value_limit

over_value_limit-none :
    (outs : List TxOutput) → over_value_limit outs ≡ none → All IsWithinLimit outs
unfolding over_value_limit
over_value_limit-none [] h = tt
over_value_limit-none (out ∷ outs) h =
    elim (Bool-cases (ltb_ℤ max_transaction_value_limit out.value)) [
      | inl e ↦ absurd (stops (rw e at h))
      | inr e ↦ (ground arith, over_value_limit-none outs (rw e at h))
    ]
  where
    stops : some out.value ≡ none → ⊥
    stops e = cc

module _ {ℓ} {S : Type ℓ} (env : Env S) where
  success_only :
      (tx : Transaction) (later s' : Server S) (id : Bytes) (r : Running (Server S))
      → submit_answer env tx later r ≡ some (ok (s', success id))
      → (r ≡ some (ok s')) × (id ≡ hex_encode tx.id)
  success_only tx later s' id none h = absurd cc
  success_only tx later s' id (some (ok s)) h = (cc, cc)
  success_only tx later s' id (some (err e)) h = absurd cc
  success_only tx later s' id (some panic) h = absurd cc

  converted-success :
      (tx : Transaction) (s later s' : Server S) (id : Bytes)
      → submit_converted env tx s later ≡ some (ok (s', success id))
      → (length (serialize env.c env.g tx) ≤ max_transaction_size_limit_bytes)
        × All IsWithinLimit tx.vout
        × (submit_transaction env tx s later ≡ some (ok s'))
        × (id ≡ hex_encode tx.id)
  unfolding submit_converted
  converted-success tx s later s' id h =
      let size = length (serialize env.c env.g tx) in
      elim (Bool-cases (ltb max_transaction_size_limit_bytes size)) [
        | inl e ↦ absurd (refused_not (rw (submit_converted, e) at h))
        | inr e ↦ elim (Option-cases (over_value_limit tx.vout)) [
          | inr (value, e') ↦ absurd (refused_not (rw (submit_converted, e, e') at h))
          | inl e' ↦
              let (made, same) =
                success_only tx later s' id _ (rw (submit_converted, e, e') at h) in
              (ground arith, over_value_limit-none tx.vout e', made, same)
        ]
      ]
    where
      refused_not :
          {t : Server S} {why : Refusal}
          → ◌≡◌ {A = Running (Server S × RpcResponse)}
              (some (ok (t, refused why)))
              (some (ok (s', success id)))
          → ⊥
      refused_not e = cc

  -- A transaction that the service reports as submitted, with its id in hex: it has at most 2^20 bytes and
  -- no output above 10^11, it verified on the node's chain and was not in the mempool, which it is in
  -- now; each other transaction of the mempool is as before, and so is the chain.
  pub submit_transaction_call-success :
      (ptx : ProtoTransaction) (s later s' : Server S) (id : Bytes)
      → submit_transaction_call env (some ptx) s later ≡ some (ok (s', success id))
      → (length (serialize env.c env.g (proto_tx_to_core ptx)) ≤ max_transaction_size_limit_bytes)
        × All IsWithinLimit (proto_tx_to_core ptx).vout
        × (id ≡ hex_encode ptx.id)
        × (verify_transaction env.st env.bg env.c env.g env.fuel s.bc (proto_tx_to_core ptx)
            ≡ some (ok true))
        × (lookup ptx.id s.mempool ≡ none)
        × ((key : Bytes)
            → lookup key s'.mempool ≡ (
                if bytes_equal ptx.id key
                then some (proto_tx_to_core ptx)
                else lookup key later.mempool))
        × (s'.bc ≡ later.bc)
  unfolding submit_transaction_call proto_tx_to_core
  submit_transaction_call-success ptx s later s' id h =
      let tx = proto_tx_to_core ptx in
      let (size, value, made, same) = converted-success tx s later s' id h in
      let (verified, absent, _, pool, chain) = submit_transaction_lem env tx s later s' made in
      (size, value, same, verified, absent, pool, chain)
