-- ===== src/Dashboard/Tests.antt =====
-- The theorems on the broker at concrete events.
use go_blockchain.Prelude.{ℕ, ◌≤◌, ◌≡◌, refl, List, [], ◌∷◌, codes, length, ok}
use go_blockchain.Dashboard.{
  Client, SseBroker, BrokerEvent, register, unregister, broadcast, receive, new_sse_broker,
  listen_all,
}
use go_blockchain.Dashboard.Listening.{listen_all-safe}

-- Two connections that share an id.
abbrev first : Client
first = record { id = codes "client_a"; send_ch = 0 }

abbrev second : Client
second = record { id = codes "client_a"; send_ch = 1 }

abbrev events : List BrokerEvent
events =
    register first
    ∷ broadcast (codes "m")
    ∷ register second
    ∷ unregister first
    ∷ broadcast (codes "n")
    ∷ receive 1
    ∷ unregister second
    ∷ []

listen_all-safe_example :
    (b : SseBroker) × (listen_all events new_sse_broker ≡ ok b)
    × ((n : ℕ) → length (b.queue n) ≤ 50)
listen_all-safe_example = listen_all-safe events (refl, (refl, (refl, (refl, tt))))
