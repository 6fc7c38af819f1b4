-- ===== src/Dashboard.antt =====
-- internal/dashboard/sse.go: the broker of server-sent events. A channel is a number; its buffer and
-- whether it is closed are part of the broker's state, with the messages that its client has not
-- read yet. The entries of the map are visited in the order in which they were first inserted. Writing
-- to a connection is left out.
pub mod Channels
pub mod Listening
pub mod Events
mod Tests
use go_blockchain.Prelude.{
  ℕ, Bool, true, false, List, [], ◌∷◌, ◌++◌, Option, none, some, if◌then◌else◌, ◌==◌, ltb, Bytes,
  codes, Assoc, lookup, insert, delete, length, Outcome, ok, panic, ◌>>=◌,
}

pub record Client : Type 0 where
  pub id : Bytes
  pub send_ch : ℕ

pub record SseBroker : Type 0 where
  pub clients : Assoc Client
  pub queue : ℕ → List Bytes
  pub closed : List ℕ

-- What `listen` receives, and a client's reading of its channel.
pub data BrokerEvent : Type 0 where
  register unregister : Client → BrokerEvent
  broadcast : Bytes → BrokerEvent
  receive : ℕ → BrokerEvent

abbrev pub new_sse_broker : SseBroker
new_sse_broker = record { clients = []; queue = λ n. []; closed = [] }

unfoldable pub is_closed : ℕ → List ℕ → Bool
is_closed n [] = false
is_closed n (m ∷ ms) = if m == n then true else is_closed n ms

abbrev pub set_queue : ℕ → List Bytes → (ℕ → List Bytes) → ℕ → List Bytes
set_queue n msgs queue k = if k == n then msgs else queue k

-- Closing a closed channel panics.
unfoldable pub close : ℕ → SseBroker → Outcome SseBroker
close n b = if is_closed n b.closed then panic else ok (record b { closed = n ∷ b.closed })

-- A send that is dropped where the buffer of 50 is full; on a closed channel it panics.
unfoldable pub send_to : Bytes → ℕ → SseBroker → Outcome SseBroker
send_to msg n b =
    if is_closed n b.closed
    then panic
    else if ltb (length (b.queue n)) 50
    then ok (record b { queue = set_queue n (b.queue n ++ msg ∷ []) b.queue })
    else ok b

unfoldable pub send_all : Bytes → Assoc Client → SseBroker → Outcome SseBroker
send_all msg [] b = ok b
send_all msg ((id, client) ∷ rest) b = send_to msg client.send_ch b >>= λ b'. send_all msg rest b'

abbrev pub without_first : List Bytes → List Bytes
without_first [] = []
without_first (msg ∷ msgs) = msgs

-- One round of the loop of `listen`, or one message read by a client.
unfoldable pub listen : BrokerEvent → SseBroker → Outcome SseBroker
listen (register client) b = ok (record b { clients = insert client.id client b.clients })
listen (unregister client) b = elim (lookup client.id b.clients) [
  | none ↦ ok b
  | some known ↦ close client.send_ch (record b { clients = delete client.id b.clients })
]
listen (broadcast msg) b = send_all msg b.clients b
listen (receive n) b = ok (record b { queue = set_queue n (without_first (b.queue n)) b.queue })

unfoldable pub listen_all : List BrokerEvent → SseBroker → Outcome SseBroker
listen_all [] b = ok b
listen_all (e ∷ es) b = listen e b >>= λ b'. listen_all es b'

-- `strings.Split` at newlines.
abbrev pub onto_first : ℕ → List Bytes → List Bytes
onto_first c [] = (c ∷ []) ∷ []
onto_first c (line ∷ lines) = (c ∷ line) ∷ lines

unfoldable pub split_lines : Bytes → List Bytes
split_lines [] = [] ∷ []
split_lines (c ∷ s) = let rest = split_lines s in if c == 10 then [] ∷ rest else onto_first c rest

unfoldable pub data_lines : List Bytes → Bytes
data_lines [] = []
data_lines (line ∷ lines) = codes "data: " ++ (line ++ 10 ∷ data_lines lines)

-- The text that `BroadcastEvent` sends to the broker.
unfoldable pub event_text : Bytes → Bytes → Bytes
event_text event html_data =
    codes "event: " ++ (event ++ 10 ∷ (data_lines (split_lines html_data) ++ 10 ∷ []))
