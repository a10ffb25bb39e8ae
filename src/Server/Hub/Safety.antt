-- ===== src/Server/Hub/Safety.antt =====
-- internal/server/websocket.go: the hub over any schedule of its goroutines.
use sys_sentient.Prelude.{
  ltb, if◌then◌else◌, ltb→lt, Bool-cases, Option-cases, is_some, length, length-append, nat_key,
  string_key, lookup, insert, ℕ, ◌≤◌, String, ◌≡◌, refl, sym, ap, inl, inr, Bool, true, false, not,
  ◌||◌, none, some, List, [], ◌∷◌, ◌++◌, arith, All-insert, lookup-All, lookup-insert_self,
}
use sys_sentient.Server.Hub.{
  Hub, Channel, send_buffer, broadcast_buffer, is_client, without, HubEvent, serves, leaves, pumps,
  broken, publishes, fans_out, closes, exits, new_hub, close_channel, offer, offer_all, close_all,
  fan_out, pump, broadcast_metrics, new_channel, hub_step, hub_run,
}
use sys_sentient.Server.Hub.Clients.{
  is_open, Opens, Distinct, Fits, IsSafe, Opens-insert_open, Opens-insert_absent, without-absent,
  Opens-without, Distinct-without, is_client-Opens, list_cases, lookup-closed, Opens-insert_like,
}

-- What a step of the Run goroutine needs of the clients it is about to serve.
abbrev Serves : List ℕ → Hub → Type 0
Serves cs h = Opens cs h.channels × IsSafe h

queue_of :
    (k : ℕ) (ch : Channel) (h : Hub)
    → IsSafe h
    → lookup k h.channels ≡ some ch
    → length ch.queue ≤ send_buffer
queue_of k ch h s found = lookup-All Fits k ch h.channels s.fits found

-- A new value for a channel that is open, or closed, as before.
renewed :
    (k : ℕ) (ch new : Channel) (h : Hub)
    → IsSafe h
    → lookup k h.channels ≡ some ch
    → new.closed ≡ ch.closed
    → length new.queue ≤ send_buffer
    → IsSafe (record h { channels = insert k new h.channels })
renewed k ch new h s found like few = record {
  calm = s.calm;
  opens = Opens-insert_like k ch new h.clients h.channels found like s.opens;
  distinct = s.distinct;
  fits = All-insert Fits k new h.channels few s.fits;
  room = s.room;
}

offer-Serves :
    (message : String) (c : ℕ) (cs : List ℕ) (h : Hub)
    → Serves (c ∷ cs) h
    → Serves cs (offer message c h)
unfolding offer
offer-Serves message c cs h s = elim (Option-cases (lookup c h.channels)) [
  | inl e ↦ rw (offer, e) (s.0.1, s.1)
  | inr (ch, e) ↦
      let still = lookup-closed c ch h.channels e s.0.0 in
      elim (Bool-cases (ltb (length ch.queue) send_buffer)) [
        | inl few ↦
            let new : Channel = record {
              queue = ch.queue ++ message ∷ [];
              closed = false;
              pump_ended = ch.pump_ended;
            } in
            rw (offer, e, still, few)
              (
                Opens-insert_like c ch new cs h.channels e (sym still) s.0.1,
                renewed c ch new h s.1 e (sym still) (
                    rw (length-append ch.queue (message ∷ []))
                      (omega (arith, ltb→lt (length ch.queue) send_buffer few))),
              )
        | inr full ↦ rw (offer, e, still, full) (s.0.1, s.1)
      ]
]

offer_all-Serves :
    (message : String) (cs : List ℕ) (h : Hub) → Serves cs h → IsSafe (offer_all message cs h)
unfolding offer_all
offer_all-Serves message [] h s = s.1
offer_all-Serves message (c ∷ cs) h s =
    offer_all-Serves message cs (offer message c h) (offer-Serves message c cs h s)

fan_out-IsSafe :
    (queue : List String) (h : Hub) → h.broadcast ≡ queue → IsSafe h → IsSafe (fan_out queue h)
unfolding fan_out
fan_out-IsSafe [] h e s = s
fan_out-IsSafe (message ∷ rest) h e s =
    offer_all-Serves message h.clients (record h { broadcast = rest })
      (
        s.opens,
        record {
          calm = s.calm;
          opens = s.opens;
          distinct = s.distinct;
          fits = s.fits;
          room = omega (arith, s.room, ap length e);
        },
      )

-- The hub takes a client off its list and closes the channel.
close_channel-Serves :
    (c : ℕ) (cs : List ℕ) (h : Hub)
    → is_open (lookup c h.channels) ≡ true
    → is_client c cs ≡ false
    → Serves cs h
    → Serves cs (close_channel c (record h { clients = without c h.clients }))
unfolding close_channel
close_channel-Serves c cs h o a s = elim (Option-cases (lookup c h.channels)) [
  | inl e ↦ absurd (ground (arith, e, o))
  | inr (ch, e) ↦
      rw (close_channel, e, lookup-closed c ch h.channels e o)
        (
          Opens-insert_absent c _ cs h.channels a s.0,
          record {
            calm = s.1.calm;
            opens =
                Opens-insert_absent c _ (without c h.clients) h.channels
                  (without-absent c h.clients) (Opens-without c h.clients h.channels s.1.opens);
            distinct = Distinct-without c h.clients s.1.distinct;
            fits = All-insert Fits c _ h.channels (queue_of c ch h s.1 e) s.1.fits;
            room = s.1.room;
          },
        )
]

close_all-IsSafe : (cs : List ℕ) (h : Hub) → Distinct cs → Serves cs h → IsSafe (close_all cs h)
unfolding close_all
close_all-IsSafe [] h u s = s.1
close_all-IsSafe (c ∷ cs) h u s =
    close_all-IsSafe cs _ u.1 (close_channel-Serves c cs h s.0.0 u.0 (s.0.1, s.1))

pump-IsSafe :
    (c : ℕ) (ch : Channel) (h : Hub)
    → lookup c h.channels ≡ some ch
    → IsSafe h
    → IsSafe (pump c ch h)
unfolding pump
pump-IsSafe c ch h found s = elim (list_cases ch.queue) [
  | inl e ↦ elim (Bool-cases ch.closed) [
    | inl shut ↦
        rw (e, shut)
          (renewed c ch (record { queue = []; closed = true; pump_ended = true }) h s found
            (sym shut) (omega arith))
    | inr still ↦ rw (e, still) s
  ]
  | inr (message, rest, e) ↦
      rw e (renewed c ch _ h s found refl (omega (arith, queue_of c ch h s found, ap length e)))
]

serves-IsSafe :
    (c : ℕ) (h : Hub)
    → lookup c h.channels ≡ none
    → IsSafe h
    → IsSafe (record h { clients = c ∷ h.clients; channels = insert c new_channel h.channels })
serves-IsSafe c h e s = record {
  calm = s.calm;
  opens = (
    rw (lookup-insert_self c new_channel h.channels) refl,
    Opens-insert_open c new_channel h.clients h.channels refl s.opens,
  );
  distinct = (
    elim (Bool-cases (is_client c h.clients)) [
      | inl m ↦ absurd (ground (arith, e, is_client-Opens c h.clients h.channels m s.opens))
      | inr m ↦ m
    ],
    s.distinct,
  );
  fits = All-insert Fits c new_channel h.channels (omega arith) s.fits;
  room = s.room;
}

-- Whichever branch a test takes.
if_either : (b : Bool) (x y : Hub) → IsSafe x → (b ≡ false → IsSafe y) → IsSafe (if b then x else y)
if_either true x y s t = s
if_either false x y s t = t refl

pub hub_step-IsSafe : (e : HubEvent) (h : Hub) → IsSafe h → IsSafe (hub_step e h)
unfolding hub_step broadcast_metrics
hub_step-IsSafe (serves c) h s = if_either (h.exited || is_some (lookup c h.channels)) h _ s (λ e.
    serves-IsSafe c h
      (elim (Option-cases (lookup c h.channels)) [
        | inl f ↦ f
        | inr (ch, f) ↦ absurd (ground (arith, e, ap is_some f))
      ])
      s)
hub_step-IsSafe (leaves c) h s = if_either (h.exited || not (is_client c h.clients)) h _ s (λ e.
    let member : is_client c h.clients ≡ true = (ground (arith, e)) in
    (close_channel-Serves c [] h (is_client-Opens c h.clients h.channels member s.opens) refl
      (tt, s)).1)
hub_step-IsSafe (pumps c) h s = elim (Option-cases (lookup c h.channels)) [
  | inl e ↦ rw (hub_step, e) s
  | inr (ch, e) ↦
      rw (hub_step, e) (if_either ch.pump_ended h (pump c ch h) s (λ _. pump-IsSafe c ch h e s))
]
hub_step-IsSafe (broken c) h s = elim (Option-cases (lookup c h.channels)) [
  | inl e ↦ rw (hub_step, e) s
  | inr (ch, e) ↦ rw (hub_step, e) (renewed c ch _ h s e refl (queue_of c ch h s e))
]
hub_step-IsSafe (publishes message) h s =
    elim (Bool-cases (ltb (length h.broadcast) broadcast_buffer)) [
      | inl few ↦
          rw (hub_step, few)
            (record {
              calm = s.calm;
              opens = s.opens;
              distinct = s.distinct;
              fits = s.fits;
              room =
                  rw (length-append h.broadcast (message ∷ []))
                    (omega (arith, ltb→lt (length h.broadcast) broadcast_buffer few));
            })
      | inr full ↦ rw (hub_step, full) s
    ]
hub_step-IsSafe fans_out h s = if_either h.exited h _ s (λ e. fan_out-IsSafe h.broadcast h refl s)
hub_step-IsSafe closes h s = record {
  calm = s.calm;
  opens = s.opens;
  distinct = s.distinct;
  fits = s.fits;
  room = s.room;
}
hub_step-IsSafe exits h s = if_either (not h.done || h.exited) h _ s (λ e.
    close_all-IsSafe h.clients (record h { exited = true }) s.distinct
      (
        s.opens,
        record {
          calm = s.calm;
          opens = s.opens;
          distinct = s.distinct;
          fits = s.fits;
          room = s.room;
        },
      ))

pub hub_run-kept : (events : List HubEvent) (h : Hub) → IsSafe h → IsSafe (hub_run events h)
unfolding hub_run
hub_run-kept [] h s = s
hub_run-kept (e ∷ events) h s = hub_run-kept events (hub_step e h) (hub_step-IsSafe e h s)

-- Over any schedule of the handlers, the pumps, BroadcastMetrics, Run and Close, from a new hub: nothing
-- panics, so no channel is written to or closed once it is closed; each registered client's channel is
-- open; no client is registered twice; and no channel holds more than its buffer.
pub hub_run-IsSafe : (events : List HubEvent) → IsSafe (hub_run events new_hub)
unfolding new_hub
hub_run-IsSafe events =
    hub_run-kept events new_hub
      (record { calm = refl; opens = tt; distinct = tt; fits = tt; room = omega arith })
