-- ===== src/Server/HubTests.antt =====
-- internal/server/websocket.go: two clients of a hub, and the theorem at them.
use sys_sentient.Prelude.{
  nat_key, string_key, lookup, insert, ℕ, zero, suc, ◌≡◌, refl, true, List, [], ◌∷◌, arith,
}
use sys_sentient.Server.Hub.{
  broadcast_metrics, pump, fan_out, close_all, offer_all, offer, close_channel, hub_step, HubEvent,
  serves, leaves, pumps, publishes, fans_out, closes, exits, new_hub, hub_run, new_channel, Channel,
}
use sys_sentient.Server.Hub.Clients.{IsSafe}
use sys_sentient.Server.Hub.Drain.{turns}
use sys_sentient.Server.Hub.Shutdown.{hub_shuts_down}
use sys_sentient.Server.Hub.Safety.{hub_run-IsSafe}

-- One client is slow to leave, and leaves after the hub has closed its channel.
abbrev two_clients : List HubEvent
two_clients =
    serves 1
    ∷ serves 2
    ∷ publishes "a sample"
    ∷ fans_out
    ∷ pumps 1
    ∷ leaves 1
    ∷ closes
    ∷ exits
    ∷ leaves 2
    ∷ pumps 2
    ∷ pumps 2
    ∷ []

hub_run-IsSafe_example : IsSafe (hub_run two_clients new_hub)
hub_run-IsSafe_example = hub_run-IsSafe two_clients

-- The second client's pump writes what was queued, and ends.
two_clients_end :
    (hub_run two_clients new_hub).channels
    ≡ (1, record new_channel { closed = true })
      ∷ (2, record new_channel { closed = true; pump_ended = true })
      ∷ []
unfolding hub_run hub_step new_hub lookup insert close_channel offer offer_all close_all fan_out
    pump broadcast_metrics
two_clients_end = refl

-- So many turns of the second client's pump.
abbrev rounds : ℕ → List HubEvent
rounds zero = []
rounds (suc n) = pumps 2 ∷ rounds n

turns-rounds : (n : ℕ) → turns 2 (rounds n) ≡ n
turns-rounds zero = refl
turns-rounds (suc n) = omega (arith, turns-rounds n)

abbrev shut_channel : Channel
shut_channel = record new_channel { closed = true; pump_ended = true }

-- The second client leaves after the hub has gone.
hub_shuts_down_example : (shut_channel.closed ≡ true) × (shut_channel.pump_ended ≡ true)
unfolding hub_run hub_step new_hub lookup insert close_channel close_all pump
hub_shuts_down_example =
    hub_shuts_down (serves 1 ∷ serves 2 ∷ leaves 1 ∷ []) (leaves 2 ∷ rounds 257) 2 shut_channel
      (omega (arith, turns-rounds 257)) refl
