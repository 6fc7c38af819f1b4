-- ===== src/Dashboard/Channels.antt =====
-- The channels of connections, and the clients that the broker has of them.
use go_blockchain.Prelude.{
  ==_refl, subst, bytes_equal_refl, ℕ, ◌≤◌, ◌≡◌, ◌≢◌, refl, sym, ap, ◌∙◌, true, false, List, [],
  ◌∷◌, none, some, if◌then◌else◌, ◌==◌, Bytes, bytes_equal, Assoc, lookup, insert, delete, length,
  All, Bool-cases, inl, inr, ==_iff,
}
use go_blockchain.Dashboard.{
  Client, SseBroker, BrokerEvent, register, unregister, broadcast, receive, is_closed,
}

-- What a channel is in: not used yet, that of a connection under an id, or of one that has ended.
pub data Phase : Type 0 where
  unused gone : Phase
  serving : Bytes → Phase

abbrev pub set_phase : ℕ → Phase → (ℕ → Phase) → ℕ → Phase
set_phase n p phase k = if k == n then p else phase k

-- The events that `ServeHTTP` causes, in any interleaving: a connection registers with a channel of its
-- own, and unregisters at most once, after that. Connections may share an id.
abbrev pub Orderly : (ℕ → Phase) → List BrokerEvent → Type 0
Orderly phase [] = Unit {0}
Orderly phase (register client ∷ es) =
    (phase client.send_ch ≡ unused)
    × Orderly (set_phase client.send_ch (serving client.id) phase) es
Orderly phase (unregister client ∷ es) =
    (phase client.send_ch ≡ serving client.id) × Orderly (set_phase client.send_ch gone phase) es
Orderly phase (broadcast msg ∷ es) = Orderly phase es
Orderly phase (receive n ∷ es) = Orderly phase es

abbrev pub Serves : (ℕ → Phase) → (Bytes × Client) → Type 0
Serves phase entry = phase entry.1.send_ch ≡ serving entry.0

-- The clients of the map are served, and a closed channel is one of an ended connection.
pub record IsTidy (phase : ℕ → Phase) (b : SseBroker) : Type 0 where
  pub served : All (Serves phase) b.clients
  pub ended : (n : ℕ) → is_closed n b.closed ≡ true → phase n ≡ gone
  pub bounded : (n : ℕ) → length (b.queue n) ≤ 50

-- A channel in another phase is not one that is set.
Serves-set_phase :
    (phase : ℕ → Phase) (n : ℕ) (p : Phase) (k : Bytes) (client : Client)
    → phase client.send_ch ≡ serving k
    → (phase n ≢ serving k)
    → set_phase n p phase client.send_ch ≡ serving k
Serves-set_phase phase n p k client serves other = elim (Bool-cases (client.send_ch == n)) [
  | inl e ↦ absurd (other (subst (λ m. phase m ≡ serving k) ((==_iff client.send_ch n).0 e) serves))
  | inr e ↦ rw e serves
]

serving_injective : {a b : Bytes} → serving a ≡ serving b → a ≡ b
serving_injective e = cc

not_serving : {k : Bytes} → unused ≡ serving k → ⊥
not_serving e = cc

pub gone_not_serving : {k : Bytes} → serving k ≡ gone → ⊥
gone_not_serving e = cc

pub gone_not_unused : unused ≡ gone → ⊥
gone_not_unused e = cc

module _ (phase : ℕ → Phase) (client : Client) where
  All-register :
      (m : Assoc Client)
      → phase client.send_ch ≡ unused
      → All (Serves phase) m
      → All (Serves (set_phase client.send_ch (serving client.id) phase)) m
  All-register [] fresh all = tt
  All-register ((k, other) ∷ m) fresh (serves, all) = (
    Serves-set_phase phase client.send_ch (serving client.id) k other serves
        (λ e. not_serving (sym fresh ∙ e)),
    All-register m fresh all,
  )

  own : set_phase client.send_ch (serving client.id) phase client.send_ch ≡ serving client.id
  own = rw (==_refl client.send_ch) refl

  pub insert-Serves :
      (m : Assoc Client)
      → phase client.send_ch ≡ unused
      → All (Serves phase) m
      → All
          (Serves (set_phase client.send_ch (serving client.id) phase))
          (insert client.id client m)
  unfolding insert
  insert-Serves [] fresh all = (own, tt)
  insert-Serves ((k, other) ∷ m) fresh (serves, all) = elim (Bool-cases (bytes_equal k client.id)) [
    | inl e ↦ rw e (own, All-register m fresh all)
    | inr e ↦ rw e (
      Serves-set_phase phase client.send_ch (serving client.id) k other serves
          (λ e'. not_serving (sym fresh ∙ e')),
      insert-Serves m fresh all,
    )
  ]

  pub delete-Serves :
      (m : Assoc Client)
      → phase client.send_ch ≡ serving client.id
      → All (Serves phase) m
      → All (Serves (set_phase client.send_ch gone phase)) (delete client.id m)
  unfolding delete
  delete-Serves [] serves all = tt
  delete-Serves ((k, other) ∷ m) serves (known, all) = elim (Bool-cases (bytes_equal k client.id)) [
    | inl e ↦ rw e (delete-Serves m serves all)
    | inr e ↦ rw e (
      Serves-set_phase phase client.send_ch gone k other known
          (λ e'. differs k e (sym (serving_injective (sym serves ∙ e')))),
      delete-Serves m serves all,
    )
  ]
    where
      differs : (k : Bytes) → bytes_equal k client.id ≡ false → k ≡ client.id → ⊥
      differs k e same =
          clash (sym e ∙ ap (λ i. bytes_equal i client.id) same ∙ bytes_equal_refl client.id)
        where
          clash : false ≡ true → ⊥
          clash f = cc

pub missing-Serves :
    (phase : ℕ → Phase) (client : Client) (m : Assoc Client)
    → phase client.send_ch ≡ serving client.id
    → lookup client.id m ≡ none
    → All (Serves phase) m
    → All (Serves (set_phase client.send_ch gone phase)) m
unfolding lookup
missing-Serves phase client [] serves absent all = tt
missing-Serves phase client ((k, other) ∷ m) serves absent (known, all) =
    elim (Bool-cases (bytes_equal k client.id)) [
      | inl e ↦ absurd (found (rw e at absent))
      | inr e ↦ (
        Serves-set_phase phase client.send_ch gone k other known
            (λ e'. differs e (sym (serving_injective (sym serves ∙ e')))),
        missing-Serves phase client m serves (rw e at absent) all,
      )
    ]
  where
    found : some other ≡ none → ⊥
    found f = cc

    clash : false ≡ true → ⊥
    clash f = cc

    differs : bytes_equal k client.id ≡ false → k ≡ client.id → ⊥
    differs e same =
        clash (sym e ∙ ap (λ i. bytes_equal i client.id) same ∙ bytes_equal_refl client.id)
