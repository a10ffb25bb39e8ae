-- ===== src/Server/Hub.antt =====
-- internal/server/websocket.go: the hub of the live updates. A client is a number, the pointer to it, and
-- `channels` has the `send` channel of every client that was ever made. An event is a step of one
-- goroutine; an event that would block changes nothing, as it does not happen. A send on a closed
-- channel and a second close of one panic. The timers, the connection and Upgrade are not modelled: a
-- write to the connection succeeds, or the pump ends by the event `broken`.
pub mod Clients
pub mod Safety
pub mod Quiet
pub mod Listed
pub mod Drain
pub mod Shutdown
use sys_sentient.Prelude.{
  ltb, if◌then◌else◌, is_some, length, keep_if, any, ◌==◌, nat_key, string_key, lookup, insert, ℕ,
  ◌+◌, String, Bool, true, false, not, ◌||◌, none, some, List, [], ◌∷◌, ◌++◌, arith,
}

abbrev pub send_buffer : ℕ
send_buffer = 256

abbrev pub broadcast_buffer : ℕ
broadcast_buffer = 256

-- The `send` channel of a client, and whether its writePump has returned.
pub record Channel : Type 0 where
  pub queue : List String
  pub closed : Bool
  pub pump_ended : Bool

-- `done` is closed by Close; `exited` says that Run has returned.
pub record Hub : Type 0 where
  pub clients : List ℕ
  pub channels : List (ℕ × Channel)
  pub broadcast : List String
  pub done : Bool
  pub exited : Bool
  pub panicked : Bool

pub data HubEvent : Type 0 where
  serves leaves pumps broken : (client : ℕ) → HubEvent
  publishes : (message : String) → HubEvent
  fans_out closes exits : HubEvent

unfoldable pub new_hub : Hub
new_hub = record {
  clients = [];
  channels = [];
  broadcast = [];
  done = false;
  exited = false;
  panicked = false;
}

abbrev pub is_client : ℕ → List ℕ → Bool
is_client c clients = any (λ d. d == c) clients

abbrev pub without : ℕ → List ℕ → List ℕ
without c clients = keep_if (λ d. not (d == c)) clients

-- `close(client.send)`.
unfoldable pub close_channel : ℕ → Hub → Hub
close_channel c h = elim (lookup c h.channels) [
  | none ↦ h
  | some ch ↦
      if ch.closed
      then record h { panicked = true }
      else record h { channels = insert c (record ch { closed = true }) h.channels }
]

-- `select { case client.send <- message: default: }`.
unfoldable pub offer : String → ℕ → Hub → Hub
offer message c h = elim (lookup c h.channels) [
  | none ↦ h
  | some ch ↦
      if ch.closed
      then record h { panicked = true }
      else if ltb (length ch.queue) send_buffer
      then record h {
        channels = insert c (record ch { queue = ch.queue ++ message ∷ [] }) h.channels;
      }
      else h
]

unfoldable pub offer_all : String → List ℕ → Hub → Hub
offer_all message [] h = h
offer_all message (c ∷ rest) h = offer_all message rest (offer message c h)

-- The deferred loop of Run.
unfoldable pub close_all : List ℕ → Hub → Hub
close_all [] h = h
close_all (c ∷ rest) h =
    close_all rest (close_channel c (record h { clients = without c h.clients }))

-- The message and the rest, for a queue that has one.
unfoldable pub fan_out : List String → Hub → Hub
fan_out [] h = h
fan_out (message ∷ rest) h = offer_all message h.clients (record h { broadcast = rest })

-- A round of writePump: a message is written, or the channel is found closed.
unfoldable pub pump : ℕ → Channel → Hub → Hub
pump c ch h = elim (ch.queue) [
  | [] ↦
      if ch.closed
      then record h { channels = insert c (record ch { pump_ended = true }) h.channels }
      else h
  | message ∷ rest ↦ record h { channels = insert c (record ch { queue = rest }) h.channels }
]

-- BroadcastMetrics, and whether it answers ErrBroadcastQueueFull.
unfoldable pub broadcast_metrics : String → Hub → Hub × Bool
broadcast_metrics message h =
    if ltb (length h.broadcast) broadcast_buffer
    then (record h { broadcast = h.broadcast ++ message ∷ [] }, false)
    else (h, true)

abbrev pub new_channel : Channel
new_channel = record { queue = []; closed = false; pump_ended = false }

unfoldable pub hub_step : HubEvent → Hub → Hub
hub_step (serves c) h =
    if h.exited || is_some (lookup c h.channels)
    then h
    else record h { clients = c ∷ h.clients; channels = insert c new_channel h.channels }
hub_step (leaves c) h =
    if h.exited || not (is_client c h.clients)
    then h
    else close_channel c (record h { clients = without c h.clients })
hub_step (pumps c) h = elim (lookup c h.channels) [
  | none ↦ h
  | some ch ↦ if ch.pump_ended then h else pump c ch h
]
hub_step (broken c) h = elim (lookup c h.channels) [
  | none ↦ h
  | some ch ↦ record h { channels = insert c (record ch { pump_ended = true }) h.channels }
]
hub_step (publishes message) h = (broadcast_metrics message h).0
hub_step fans_out h = if h.exited then h else fan_out h.broadcast h
hub_step closes h = record h { done = true }
hub_step exits h =
    if not h.done || h.exited then h else close_all h.clients (record h { exited = true })

unfoldable pub hub_run : List HubEvent → Hub → Hub
unfolding hub_step
hub_run [] h = h
hub_run (e ∷ rest) h = hub_run rest (hub_step e h)
