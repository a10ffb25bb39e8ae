-- ===== src/Server/Hub/Listed.antt =====
-- internal/server/websocket.go: which clients the open channels are of, while Run goes on and
-- once it has returned.
use sys_sentient.Prelude.{
  ltb, if◌then◌else◌, nat_beq_iff, Bool-cases, Option-cases, is_some, length, ◌==◌, nat_key,
  string_key, ==_refl, lookup, insert, lookup-insert, ℕ, ◌≡◌, refl, sym, ap, subst, ◌∙◌, inl, inr,
  Bool, true, false, not, ◌||◌, some, List, [], ◌∷◌, arith,
}
use sys_sentient.Server.Hub.{
  Hub, broadcast_buffer, is_client, without, HubEvent, serves, leaves, pumps, broken, publishes,
  fans_out, closes, exits, close_channel, close_all, pump, broadcast_metrics, new_channel, hub_step,
}
use sys_sentient.Server.Hub.Clients.{is_open, Distinct, IsSafe}
use sys_sentient.Server.Hub.Quiet.{is_live, Keeps, renew-Keeps, fan_out-Keeps, pump-Keeps}

-- Each open channel is registered, and Run leaves no client behind.
pub record IsListed (h : Hub) : Type 0 where
  pub listed : (c : ℕ) → is_live c h ≡ true → is_client c h.clients ≡ true
  pub emptied : h.exited ≡ true → h.clients ≡ []

Keeps-IsListed : (h h' : Hub) → Keeps h h' → IsListed h → IsListed h'
Keeps-IsListed h h' k l = record {
  listed = λ c o.
      subst (λ cs. is_client c cs ≡ true) (sym k.same_clients) (l.listed c (k.none_opened c o));
  emptied = λ e. k.same_clients ∙ l.emptied (sym k.same_exit ∙ e);
}

-- A channel is closed, and the others are as they were.
record Shuts (c : ℕ) (h h' : Hub) : Type 0 where
  still_clients : h'.clients ≡ h.clients
  still_exit : h'.exited ≡ h.exited
  shut : (d : ℕ) → is_live d h' ≡ true → ((c == d) ≡ false) × (is_live d h ≡ true)

apart_of : (c d : ℕ) (h : Hub) → is_live c h ≡ false → is_live d h ≡ true → (c == d) ≡ false
apart_of c d h ended o = elim (Bool-cases (c == d)) [
  | inl hit ↦
      let same : c ≡ d = (nat_beq_iff c d).0 hit in
      absurd (ground (arith, sym ended ∙ ap (λ k. is_live k h) same ∙ o))
  | inr miss ↦ miss
]

if_Shuts :
    (c : ℕ) (h : Hub) (b : Bool) (x y : Hub)
    → (b ≡ true → Shuts c h x)
    → (b ≡ false → Shuts c h y)
    → Shuts c h (if b then x else y)
if_Shuts c h true x y k l = k refl
if_Shuts c h false x y k l = l refl

close_channel-Shuts : (c : ℕ) (h : Hub) → Shuts c h (close_channel c h)
unfolding close_channel
close_channel-Shuts c h = elim (Option-cases (lookup c h.channels)) [
  | inl e ↦
      rw (close_channel, e)
        (record {
          still_clients = refl;
          still_exit = refl;
          shut = λ d o. (apart_of c d h (ap is_open e) o, o);
        })
  | inr (ch, e) ↦
      rw (close_channel, e)
        (if_Shuts c h ch.closed _ _
          (λ done. record {
            still_clients = refl;
            still_exit = refl;
            shut = λ d o. (apart_of c d h (ap is_open e ∙ ap not done) o, o);
          })
          (λ _. record {
            still_clients = refl;
            still_exit = refl;
            shut = λ d o. elim (Bool-cases (c == d)) [
              | inl hit ↦ absurd (
                  ground (
                    arith,
                    sym (
                          ap (λ x. is_open x)
                            (lookup-insert c d (record ch { closed = true }) h.channels
                              ∙ ap
                                  (λ b.
                                    if b
                                    then some (record ch { closed = true })
                                    else lookup d h.channels)
                                  hit))
                        ∙ o,
                  ))
              | inr miss ↦ (
                miss,
                sym (
                      ap (λ x. is_open x)
                        (lookup-insert c d (record ch { closed = true }) h.channels
                          ∙ ap
                              (λ b.
                                if b
                                then some (record ch { closed = true })
                                else lookup d h.channels)
                              miss))
                    ∙ o,
              )
            ];
          }))
]

is_client-without_apart :
    (c d : ℕ) (cs : List ℕ)
    → (c == d) ≡ false
    → is_client d cs ≡ true
    → is_client d (without c cs) ≡ true
is_client-without_apart c d [] apart m = m
is_client-without_apart c d (e ∷ cs) apart m =
    ground (
      arith,
      is_client-without_apart c d cs apart,
      nat_beq_iff c d,
      nat_beq_iff e d,
      nat_beq_iff e c,
    )

without-none : (c : ℕ) (cs : List ℕ) → is_client c cs ≡ false → without c cs ≡ cs
without-none c [] a = refl
without-none c (d ∷ cs) a = ground (arith, without-none c cs)

without_head : (c : ℕ) (cs : List ℕ) → is_client c cs ≡ false → without c (c ∷ cs) ≡ cs
without_head c cs a = rw (==_refl c) (without-none c cs a)

abbrev pub Listed : Hub → Type 0
Listed h = (c : ℕ) → is_live c h ≡ true → is_client c h.clients ≡ true

-- The hub takes a client off its list and closes the channel.
abbrev drop_client : ℕ → Hub → Hub
drop_client c h = close_channel c (record h { clients = without c h.clients })

drop_client-Listed : (c : ℕ) (h : Hub) → Listed h → Listed (drop_client c h)
drop_client-Listed c h l d o =
    let s = close_channel-Shuts c (record h { clients = without c h.clients }) in
    let (apart, was) = s.shut d o in
    subst (λ cs. is_client d cs ≡ true) (sym s.still_clients)
      (is_client-without_apart c d h.clients apart (l d was))

close_all-Listed : (cs : List ℕ) (h : Hub) → Listed h → Listed (close_all cs h)
unfolding close_all
close_all-Listed [] h l = l
close_all-Listed (c ∷ cs) h l = close_all-Listed cs (drop_client c h) (drop_client-Listed c h l)

close_all-empties :
    (cs : List ℕ) (h : Hub) → h.clients ≡ cs → Distinct cs → (close_all cs h).clients ≡ []
unfolding close_all
close_all-empties [] h e u = e
close_all-empties (c ∷ cs) h e u =
    close_all-empties cs (drop_client c h)
      ((close_channel-Shuts c (record h { clients = without c h.clients })).still_clients
        ∙ ap (without c) e
        ∙ without_head c cs u.0)
      u.1

pub close_all-exited : (cs : List ℕ) (h : Hub) → (close_all cs h).exited ≡ h.exited
unfolding close_all
close_all-exited [] h = refl
close_all-exited (c ∷ cs) h =
    close_all-exited cs (drop_client c h)
    ∙ (close_channel-Shuts c (record h { clients = without c h.clients })).still_exit

-- Whichever branch a test takes.
if_IsListed :
    (b : Bool) (x y : Hub) → IsListed x → (b ≡ false → IsListed y) → IsListed (if b then x else y)
if_IsListed true x y s t = s
if_IsListed false x y s t = t refl

serves-IsListed :
    (c : ℕ) (h : Hub)
    → h.exited ≡ false
    → IsListed h
    → IsListed (record h { clients = c ∷ h.clients; channels = insert c new_channel h.channels })
serves-IsListed c h running l = record {
  listed = λ d o. elim (Bool-cases (c == d)) [
    | inl hit ↦ rw hit refl
    | inr miss ↦ rw miss (
        l.listed d (
          sym (
            ap is_open (
              lookup-insert c d new_channel h.channels
              ∙ ap (λ b. if b then some new_channel else lookup d h.channels) miss))
          ∙ o))
  ];
  emptied = λ e. absurd (ground (arith, sym running ∙ e));
}

leaves-IsListed : (c : ℕ) (h : Hub) → h.exited ≡ false → IsListed h → IsListed (drop_client c h)
leaves-IsListed c h running l = record {
  listed = drop_client-Listed c h l.listed;
  emptied = λ e. absurd (
      ground (
        arith,
        sym running
            ∙ (sym (close_channel-Shuts c (record h { clients = without c h.clients })).still_exit
                ∙ e),
      ));
}

exits-IsListed :
    (h : Hub)
    → Distinct h.clients
    → IsListed h
    → IsListed (close_all h.clients (record h { exited = true }))
exits-IsListed h u l = record {
  listed = close_all-Listed h.clients (record h { exited = true }) l.listed;
  emptied = λ _. close_all-empties h.clients (record h { exited = true }) refl u;
}

pub hub_step-IsListed : (e : HubEvent) (h : Hub) → IsSafe h → IsListed h → IsListed (hub_step e h)
unfolding hub_step broadcast_metrics
hub_step-IsListed (serves c) h s l =
    if_IsListed (h.exited || is_some (lookup c h.channels)) h _ l
      (λ e. serves-IsListed c h (ground (arith, e)) l)
hub_step-IsListed (leaves c) h s l =
    if_IsListed (h.exited || not (is_client c h.clients)) h _ l
      (λ e. leaves-IsListed c h (ground (arith, e)) l)
hub_step-IsListed (pumps c) h s l = elim (Option-cases (lookup c h.channels)) [
  | inl e ↦ rw (hub_step, e) l
  | inr (ch, e) ↦
      rw (hub_step, e)
        (if_IsListed ch.pump_ended h (pump c ch h) l
          (λ _. Keeps-IsListed h _ (pump-Keeps c ch h e) l))
]
hub_step-IsListed (broken c) h s l = elim (Option-cases (lookup c h.channels)) [
  | inl e ↦ rw (hub_step, e) l
  | inr (ch, e) ↦
      rw (hub_step, e)
        (Keeps-IsListed h _ (renew-Keeps c ch (record ch { pump_ended = true }) h e (λ o. o)) l)
]
hub_step-IsListed (publishes message) h s l =
    elim (Bool-cases (ltb (length h.broadcast) broadcast_buffer)) [
      | inl few ↦ rw (hub_step, few) (record { listed = l.listed; emptied = l.emptied })
      | inr full ↦ rw (hub_step, full) l
    ]
hub_step-IsListed fans_out h s l =
    if_IsListed h.exited h _ l (λ _. Keeps-IsListed h _ (fan_out-Keeps h.broadcast h) l)
hub_step-IsListed closes h s l = record { listed = l.listed; emptied = l.emptied }
hub_step-IsListed exits h s l =
    if_IsListed (not h.done || h.exited) h _ l (λ _. exits-IsListed h s.distinct l)
