-- ===== src/Dashboard/Listening.antt =====
-- What the broker does to channels, event by event.
use go_blockchain.Prelude.{
  ℕ, ◌≤◌, ◌≡◌, refl, sym, ap, ◌∙◌, true, false, List, [], ◌∷◌, ◌++◌, arith, ◌==◌, ltb, Bytes, Assoc,
  lookup, insert, delete, length, length-append, All, ok, Bool-cases, Option-cases, inl, inr,
  ==_iff,
}
use go_blockchain.Dashboard.{
  Client, SseBroker, BrokerEvent, register, unregister, broadcast, receive, new_sse_broker,
  is_closed, set_queue, close, send_to, send_all, without_first, listen, listen_all,
}
use go_blockchain.Dashboard.Channels.{
  Phase, unused, gone, serving, set_phase, Orderly, Serves, IsTidy, gone_not_serving,
  gone_not_unused, insert-Serves, delete-Serves, missing-Serves,
}

-- A send to an open channel.
send_to-open :
    (msg : Bytes) (n : ℕ) (b : SseBroker)
    → is_closed n b.closed ≡ false
    → ((k : ℕ) → length (b.queue k) ≤ 50)
    → (b' : SseBroker) × (send_to msg n b ≡ ok b')
      × (b'.clients ≡ b.clients)
      × (b'.closed ≡ b.closed)
      × ((k : ℕ) → length (b'.queue k) ≤ 50)
unfolding send_to
send_to-open msg n b open_n bounded = elim (Bool-cases (ltb (length (b.queue n)) 50)) [
  | inl e ↦ (
    record b { queue = set_queue n (b.queue n ++ msg ∷ []) b.queue },
    rw (open_n, e) refl,
    refl,
    refl,
    λ k. elim (Bool-cases (k == n)) [
      | inl e' ↦ rw (e', length-append (b.queue n) (msg ∷ [])) (ground arith)
      | inr e' ↦ rw e' (bounded k)
    ],
  )
  | inr e ↦ (b, rw (open_n, e) refl, refl, refl, bounded)
]

module _ (phase : ℕ → Phase) where
  open_channel :
      (b : SseBroker) (k : Bytes) (n : ℕ)
      → ((m : ℕ) → is_closed m b.closed ≡ true → phase m ≡ gone)
      → phase n ≡ serving k
      → is_closed n b.closed ≡ false
  open_channel b k n ended serves = elim (Bool-cases (is_closed n b.closed)) [
    | inl e ↦ absurd (gone_not_serving (sym serves ∙ ended n e))
    | inr e ↦ e
  ]

  send_all-IsTidy :
      (msg : Bytes) (m : Assoc Client) (b : SseBroker)
      → All (Serves phase) m
      → IsTidy phase b
      → (b' : SseBroker) × (send_all msg m b ≡ ok b') × IsTidy phase b'
  unfolding send_all
  send_all-IsTidy msg [] b all tidy = (b, refl, tidy)
  send_all-IsTidy msg ((k, client) ∷ m) b (serves, all) tidy =
      let (b1, sent, same, closed, bounded) =
        send_to-open msg client.send_ch b (open_channel b k client.send_ch tidy.ended serves)
          tidy.bounded in
      let (b2, rest, tidy') = send_all-IsTidy msg m b1 all (record {
        served = rw same tidy.served;
        ended = λ n e. tidy.ended n (sym (ap (is_closed n) closed) ∙ e);
        bounded = bounded;
      }) in
      (b2, rw sent rest, tidy')

abbrev phase_after : BrokerEvent → (ℕ → Phase) → ℕ → Phase
phase_after (register client) phase = set_phase client.send_ch (serving client.id) phase
phase_after (unregister client) phase = set_phase client.send_ch gone phase
phase_after (broadcast msg) phase = phase
phase_after (receive n) phase = phase

abbrev Allowed : BrokerEvent → (ℕ → Phase) → Type 0
Allowed (register client) phase = phase client.send_ch ≡ unused
Allowed (unregister client) phase = phase client.send_ch ≡ serving client.id
Allowed (broadcast msg) phase = Unit {0}
Allowed (receive n) phase = Unit {0}

shorter : (msgs : List Bytes) → length msgs ≤ 50 → length (without_first msgs) ≤ 50
shorter [] h = h
shorter (msg ∷ msgs) h = omega arith

ended_after :
    (phase : ℕ → Phase) (n : ℕ) (closed : List ℕ)
    → ((m : ℕ) → is_closed m closed ≡ true → phase m ≡ gone)
    → (m : ℕ) → is_closed m closed ≡ true
    → set_phase n gone phase m ≡ gone
ended_after phase n closed ended m e = elim (Bool-cases (m == n)) [
  | inl here ↦ rw here refl
  | inr there ↦ rw there (ended m e)
]

ended_closing :
    (phase : ℕ → Phase) (n : ℕ) (closed : List ℕ)
    → ((m : ℕ) → is_closed m closed ≡ true → phase m ≡ gone)
    → (m : ℕ) → is_closed m (n ∷ closed) ≡ true
    → set_phase n gone phase m ≡ gone
unfolding is_closed
ended_closing phase n closed ended m e = elim (Bool-cases (m == n)) [
  | inl here ↦ rw here refl
  | inr there ↦ let apart : (n == m) ≡ false = ground arith in rw there (ended m (rw apart at e))
]

listen-IsTidy :
    (e : BrokerEvent) (phase : ℕ → Phase) (b : SseBroker)
    → Allowed e phase
    → IsTidy phase b
    → (b' : SseBroker) × (listen e b ≡ ok b') × IsTidy (phase_after e phase) b'
unfolding listen close
listen-IsTidy (register client) phase b fresh tidy = (
  record b { clients = insert client.id client b.clients },
  refl,
  record {
    served = insert-Serves phase client b.clients fresh tidy.served;
    ended = λ n e. elim (Bool-cases (n == client.send_ch)) [
      | inl here ↦ absurd (
          gone_not_unused
            (sym fresh ∙ ap phase (sym ((==_iff n client.send_ch).0 here)) ∙ tidy.ended n e))
      | inr there ↦ rw there (tidy.ended n e)
    ];
    bounded = tidy.bounded;
  },
)
listen-IsTidy (unregister client) phase b serves tidy =
    elim (Option-cases (lookup client.id b.clients)) [
      | inl e ↦ (
        b,
        rw (e, listen) refl,
        record {
          served = missing-Serves phase client b.clients serves e tidy.served;
          ended = ended_after phase client.send_ch b.closed tidy.ended;
          bounded = tidy.bounded;
        },
      )
      | inr (known, e) ↦
          let is_open = open_channel phase b client.id client.send_ch tidy.ended serves in
          (
            record b { clients = delete client.id b.clients; closed = client.send_ch ∷ b.closed },
            rw (e, listen, close, is_open) refl,
            record {
              served = delete-Serves phase client b.clients serves tidy.served;
              ended = ended_closing phase client.send_ch b.closed tidy.ended;
              bounded = tidy.bounded;
            },
          )
    ]
listen-IsTidy (broadcast msg) phase b u tidy =
    send_all-IsTidy phase msg b.clients b tidy.served tidy
listen-IsTidy (receive n) phase b u tidy = (
  record b { queue = set_queue n (without_first (b.queue n)) b.queue },
  refl,
  record {
    served = tidy.served;
    ended = tidy.ended;
    bounded = λ k. elim (Bool-cases (k == n)) [
      | inl e ↦ rw e (shorter (b.queue n) (tidy.bounded n))
      | inr e ↦ rw e (tidy.bounded k)
    ];
  },
)

run-IsTidy :
    (es : List BrokerEvent) (phase : ℕ → Phase) (b : SseBroker)
    → Orderly phase es
    → IsTidy phase b
    → (b' : SseBroker) × (listen_all es b ≡ ok b') × ((n : ℕ) → length (b'.queue n) ≤ 50)
unfolding listen_all
run-IsTidy [] phase b orderly tidy = (b, refl, tidy.bounded)
run-IsTidy (register client ∷ es) phase b (fresh, orderly) tidy =
    let (b1, e1, tidy1) = listen-IsTidy (register client) phase b fresh tidy in
    let (b2, e2, bounded) = run-IsTidy es _ b1 orderly tidy1 in (b2, rw e1 e2, bounded)
run-IsTidy (unregister client ∷ es) phase b (serves, orderly) tidy =
    let (b1, e1, tidy1) = listen-IsTidy (unregister client) phase b serves tidy in
    let (b2, e2, bounded) = run-IsTidy es _ b1 orderly tidy1 in (b2, rw e1 e2, bounded)
run-IsTidy (broadcast msg ∷ es) phase b orderly tidy =
    let (b1, e1, tidy1) = listen-IsTidy (broadcast msg) phase b tt tidy in
    let (b2, e2, bounded) = run-IsTidy es phase b1 orderly tidy1 in (b2, rw e1 e2, bounded)
run-IsTidy (receive n ∷ es) phase b orderly tidy =
    let (b1, e1, tidy1) = listen-IsTidy (receive n) phase b tt tidy in
    let (b2, e2, bounded) = run-IsTidy es phase b1 orderly tidy1 in (b2, rw e1 e2, bounded)

-- However connections come and go, if each registers a channel of its own and unregisters at most once
-- after that, and whatever is broadcast or read in between: the broker never sends on a closed channel
-- and never closes one twice, which would panic, and no buffer holds more than 50 messages. Connections
-- may have the same id.
pub listen_all-safe :
    (es : List BrokerEvent)
    → Orderly (λ n. unused) es
    → (b : SseBroker) × (listen_all es new_sse_broker ≡ ok b) × ((n : ℕ) → length (b.queue n) ≤ 50)
unfolding is_closed
listen_all-safe es orderly =
    run-IsTidy es (λ n. unused) new_sse_broker orderly
      (record { served = tt; ended = λ n e. absurd (nothing e); bounded = λ n. omega arith })
  where
    nothing : false ≡ true → ⊥
    nothing e = cc
