-- ===== src/Network/Requests.antt =====
-- internal/network/server.go: what a node sends is dispatched to the handler of its command.
use go_blockchain.Prelude.{
  ℕ, zero, suc, ◌+◌, ◌-◌, ◌≤◌, ◌<◌, ◌≡◌, refl, ap, ◌∙◌, true, false, [], ◌∷◌, ◌++◌, append-nil,
  some, arith, ◌==◌, ltb, Bytes, length, length-append, take, drop, take-length, drop-length,
  replicate, All, ok, panic, Bool-cases, inl, inr, ok_injective, codes, bytes_equal, subst,
}
use go_blockchain.Core.External.{or_nil}
use go_blockchain.Core.Block.{Block, serialize_block, deserialize_block}
use go_blockchain.Network.{
  Env, Server, BlockMsg, send_block, handle_block, add_received, command_length, max_msg_size,
  command_to_bytes, bytes_to_command, send, send_data,
}
use go_blockchain.Network.Handlers.{dispatch, limited, handle_request, handle_connection}

abbrev pub IsNonzero : ℕ → Type 0
IsNonzero b = 0 < b

zeros : (n : ℕ) → bytes_to_command (replicate n 0) ≡ []
unfolding bytes_to_command
zeros zero = refl
zeros (suc n) = zeros n

bytes_to_command-append :
    (command rest : Bytes)
    → All IsNonzero command
    → bytes_to_command (command ++ rest) ≡ command ++ bytes_to_command rest
unfolding bytes_to_command
bytes_to_command-append [] rest h = refl
bytes_to_command-append (b ∷ command) rest (p, h) =
    let test : (b == 0) ≡ false = ground arith in rw (test, bytes_to_command-append command rest h)

length-replicate : (n b : ℕ) → length (replicate n b) ≡ n
length-replicate zero b = refl
length-replicate (suc n) b = ap suc (length-replicate n b)

take-all : (n : ℕ) (d : Bytes) → length d ≤ n → take n d ≡ d
take-all zero [] h = refl
take-all zero (x ∷ d) h = absurd (omega arith)
take-all (suc n) [] h = refl
take-all (suc n) (x ∷ d) h = ap (λ l. x ∷ l) (take-all n d (omega arith))

-- The twelve bytes of a command give it back.
bytes_to_command-command_to_bytes :
    (command head : Bytes)
    → All IsNonzero command
    → command_to_bytes command ≡ ok head
    → (length head ≡ command_length) × (bytes_to_command head ≡ command)
unfolding command_to_bytes
bytes_to_command-command_to_bytes command head h made =
    elim (Bool-cases (ltb command_length (length command))) [
      | inl long ↦ absurd (panics (rw long at made))
      | inr short ↦
          let same : command ++ replicate (command_length - length command) 0 ≡ head =
            ok_injective (rw short at made) in
          let zs : Bytes = replicate (command_length - length command) 0 in
          let fits : length command ≤ 12 = ground arith in
          rw⁻¹ same (
            omega (
              arith,
              length-append command zs,
              length-replicate (command_length - length command) 0,
            ),
            bytes_to_command-append command zs h
                ∙ rw (zeros (command_length - length command)) (append-nil command),
          )
    ]
  where
    panics : panic ≡ ok head → ⊥
    panics e = cc

limited_fits : (d : Bytes) → length d ≤ max_msg_size → limited d ≡ d
unfolding limited
limited_fits d h = take-all max_msg_size d h

take-twelve :
    (head payload : Bytes)
    → length head ≡ command_length
    → take command_length (head ++ payload) ≡ head
take-twelve head payload h =
    subst (λ n. take n (head ++ payload) ≡ head) h (take-length head payload)

drop-twelve :
    (head payload : Bytes)
    → length head ≡ command_length
    → drop command_length (head ++ payload) ≡ payload
drop-twelve head payload h =
    subst (λ n. drop n (head ++ payload) ≡ payload) h (drop-length head payload)

long_enough :
    (head payload : Bytes)
    → length head ≡ command_length
    → ltb (length (head ++ payload)) command_length ≡ false
long_enough head payload h = let all = length-append head payload in ground arith

module _ {ℓ} {S : Type ℓ} (env : Env S) where
  handle_request-parts :
      (command head payload : Bytes) (s : Server S)
      → length head ≡ command_length
      → bytes_to_command head ≡ command
      → handle_request env (head ++ payload) s ≡ dispatch env command payload s
  unfolding handle_request
  handle_request-parts command head payload s twelve back = rw (
    long_enough head payload twelve,
    take-twelve head payload twelve,
    drop-twelve head payload twelve,
    back,
  )

  -- A request made of a command without zero bytes and a payload that fits is handled by the handler of
  -- that command, on that payload.
  pub handle_connection-command_to_bytes :
      (command head payload : Bytes) (s : Server S)
      → All IsNonzero command
      → command_to_bytes command ≡ ok head
      → length (head ++ payload) ≤ max_msg_size
      → handle_connection env (head ++ payload) s ≡ dispatch env command payload s
  unfolding handle_connection
  handle_connection-command_to_bytes command head payload s h made fits =
      let (twelve, back) = bytes_to_command-command_to_bytes command head h made in
      ap (λ r. handle_request env r s) (limited_fits (head ++ payload) fits)
      ∙ handle_request-parts command head payload s twelve back

module _ {ℓ} {S : Type ℓ} (env other : Env S) where
  send-reached :
      (command head d addr : Bytes) (s : Server S)
      → env.reach addr ≡ true
      → command_to_bytes command ≡ ok head
      → send env command (some d) addr s ≡ ok (record s { sent = s.sent ++ (addr, head ++ d) ∷ [] })
  unfolding send send_data or_nil
  send-reached command head d addr s answers made = rw (made, answers)

  dispatch-block :
      (payload : Bytes) (r : Server S)
      → dispatch other (codes "block") payload r ≡ handle_block other payload r
  unfolding dispatch bytes_equal
  dispatch-block payload r = refl

  pub handle_block-decoded :
      (payload : Bytes) (msg : BlockMsg) (b : Block) (r : Server S)
      → other.wire.block.decode payload ≡ some msg
      → deserialize_block other.bg msg.block ≡ ok b
      → handle_block other payload r ≡ add_received other msg.addr_from b r
  unfolding handle_block
  handle_block-decoded payload msg b r read block_read = rw (handle_block, read, block_read)

  -- A block that `sendBlock` sends to a node that answers is the last thing sent, and a node that
  -- receives that request goes on to add the block, if gob gives back the message and the block, and
  -- the request fits the limit on the size of messages.
  pub handle_connection-send_block :
      (addr d : Bytes) (b : Block) (s r : Server S)
      → env.reach addr ≡ true
      → env.wire.block.encode
          (record { addr_from = s.node_address; block = serialize_block env.bg b })
        ≡ some d
      → other.wire.block.decode d
        ≡ some (record { addr_from = s.node_address; block = serialize_block env.bg b })
      → deserialize_block other.bg (serialize_block env.bg b) ≡ ok b
      → command_length + length d ≤ max_msg_size
      → (request : Bytes) × (send_block env addr b s
          ≡ ok (record s { sent = s.sent ++ (addr, request) ∷ [] }))
        × (handle_connection other request r ≡ add_received other s.node_address b r)
  unfolding send_block
  handle_connection-send_block addr d b s r answers written read block_read fits =
      let head : Bytes = codes "block" ++ replicate 7 0 in
      let made : command_to_bytes (codes "block") ≡ ok head = unfold command_to_bytes in refl in
      let all = length-append head d in
      (
        head ++ d,
        rw written (send-reached (codes "block") head d addr s answers made),
        handle_connection-command_to_bytes other (codes "block") head d r (omega arith) made
              (omega arith)
            ∙ dispatch-block d r
            ∙ handle_block-decoded d _ b r read block_read,
      )
