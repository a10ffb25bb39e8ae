-- ===== src/Server/Hub/Drain.antt =====
-- internal/server/websocket.go: what a write pump has left to do once Run has returned.
use sys_sentient.Prelude.{
  ltb, if◌then◌else◌, nat_beq_iff, Bool-cases, Option-cases, length, ◌==◌, nat_key, string_key,
  lookup, insert, lookup-insert, after, before, ℕ, suc, ◌+◌, ◌-◌, ◌≤◌, ◌≡◌, refl, sym, ap, ◌∙◌, inl,
  inr, Bool, true, false, not, ◌||◌, Option, none, some, List, [], ◌∷◌, arith,
}
use sys_sentient.Server.Hub.{
  Hub, Channel, broadcast_buffer, HubEvent, serves, leaves, pumps, broken, publishes, fans_out,
  closes, exits, pump, broadcast_metrics, hub_step,
}
use sys_sentient.Server.Hub.Clients.{is_open, list_cases}
use sys_sentient.Server.Hub.Quiet.{is_live, pump-Keeps}
use sys_sentient.Server.Hub.Listed.{close_all-exited}

-- How often the pump of a client gets a turn.
abbrev pub turn : ℕ → HubEvent → ℕ
turn c (pumps d) = if d == c then 1 else 0
turn c _ = 0

abbrev pub turns : ℕ → List HubEvent → ℕ
turns c [] = 0
turns c (e ∷ es) = turn c e + turns c es

-- The turns that a client's pump still needs once its channel is closed.
abbrev pub left : Option Channel → ℕ
left none = 0
left (some ch) = if ch.pump_ended then 0 else suc (length ch.queue)

abbrev pub left_of : ℕ → Hub → ℕ
left_of c h = left (lookup c h.channels)

left-insert :
    (d c : ℕ) (new : Channel) (h : Hub)
    → left_of c (record h { channels = insert d new h.channels })
      ≡ (if d == c then left (some new) else left_of c h)
left-insert d c new h =
    ap left (lookup-insert d c new h.channels)
    ∙ (elim (Bool-cases (d == c)) [ inl hit ↦ rw hit refl | inr miss ↦ rw miss refl ])

left-same :
    (d c : ℕ) (ch : Channel) (h : Hub)
    → lookup d h.channels ≡ some ch
    → (d == c) ≡ true
    → left_of c h ≡ left (some ch)
left-same d c ch h found hit = ap (λ k. left_of k h) (sym ((nat_beq_iff d c).0 hit)) ∙ ap left found

-- A channel that needs one turn less.
pumped-left :
    (d c n : ℕ) (ch new : Channel) (h : Hub)
    → lookup d h.channels ≡ some ch
    → left (some ch) ≡ suc n
    → left (some new) ≤ n
    → left_of c (record h { channels = insert d new h.channels }) ≤ left_of c h - turn c (pumps d)
pumped-left d c n ch new h found before after = elim (Bool-cases (d == c)) [
  | inl hit ↦
      rw (left-insert d c new h, hit, left-same d c ch h found hit, before) (omega (arith, after))
  | inr miss ↦ rw (left-insert d c new h, miss) (omega arith)
]

still-left : (c d : ℕ) (h : Hub) → left_of d h ≡ 0 → left_of c h ≤ left_of c h - turn c (pumps d)
still-left c d h none_left = elim (Bool-cases (d == c)) [
  | inl hit ↦
      rw (hit, sym (ap (λ k. left_of k h) ((nat_beq_iff d c).0 hit)) ∙ none_left) (omega arith)
  | inr miss ↦ rw miss (omega arith)
]

pump-left :
    (d c : ℕ) (ch : Channel) (h : Hub)
    → lookup d h.channels ≡ some ch
    → ch.pump_ended ≡ false
    → ch.closed ≡ true
    → left_of c (pump d ch h) ≤ left_of c h - turn c (pumps d)
unfolding pump
pump-left d c ch h found running shut =
    let before : left (some ch) ≡ suc (length ch.queue) = rw running refl in
    elim (list_cases ch.queue) [
      | inl e ↦
          rw (pump, e, shut) (pumped-left d c (length ch.queue) ch _ h found before (omega arith))
      | inr (message, rest, e) ↦
          rw (pump, e)
            (pumped-left d c (length ch.queue) ch (record ch { queue = rest }) h found before
              (rw running (omega (arith, ap length e))))
    ]

pub shut_of : (b : Bool) → not b ≡ false → b ≡ true
shut_of true e = refl
shut_of false e = cc

if_fewer :
    (c n : ℕ) (b : Bool) (x y : Hub)
    → (b ≡ true → left_of c x ≤ n)
    → (b ≡ false → left_of c y ≤ n)
    → left_of c (if b then x else y) ≤ n
if_fewer c n true x y s t = s refl
if_fewer c n false x y s t = t refl

-- Once Run has returned, no step gives a pump more to do, and a turn of it leaves it with less.
pub hub_step-left :
    (e : HubEvent) (c : ℕ) (h : Hub)
    → h.exited ≡ true
    → ((d : ℕ) → is_live d h ≡ false)
    → left_of c (hub_step e h) ≤ left_of c h - turn c e
unfolding hub_step broadcast_metrics
hub_step-left (serves d) c h gone dead = rw (hub_step, gone) (omega arith)
hub_step-left (leaves d) c h gone dead = rw (hub_step, gone) (omega arith)
hub_step-left (pumps d) c h gone dead = elim (Option-cases (lookup d h.channels)) [
  | inl e ↦ rw (hub_step, e) (still-left c d h (ap left e))
  | inr (ch, e) ↦
      rw (hub_step, e)
        (if_fewer c (left_of c h - turn c (pumps d)) ch.pump_ended h (pump d ch h)
          (λ ended.
            still-left c d h (ap left e ∙ ap (λ b. if b then 0 else suc (length ch.queue)) ended))
          (λ running.
            pump-left d c ch h e running (shut_of ch.closed (sym (ap is_open e) ∙ dead d))))
]
hub_step-left (broken d) c h gone dead = elim (Option-cases (lookup d h.channels)) [
  | inl e ↦ rw (hub_step, e) (omega arith)
  | inr (ch, e) ↦
      rw (hub_step, e, left-insert d c (record ch { pump_ended = true }) h)
        (elim (Bool-cases (d == c)) [
          | inl hit ↦ rw hit (omega arith)
          | inr miss ↦ rw miss (omega arith)
        ])
]
hub_step-left (publishes message) c h gone dead =
    elim (Bool-cases (ltb (length h.broadcast) broadcast_buffer)) [
      | inl few ↦ rw (hub_step, few) (omega arith)
      | inr full ↦ rw (hub_step, full) (omega arith)
    ]
hub_step-left fans_out c h gone dead = rw (hub_step, gone) (omega arith)
hub_step-left closes c h gone dead = omega arith
hub_step-left exits c h gone dead =
    if_fewer c (left_of c h - 0) (not h.done || h.exited) h _ (λ _. omega arith)
      (λ e. absurd (ground (arith, gone, e)))

if_gone :
    (b : Bool) (x y : Hub) → x.exited ≡ true → y.exited ≡ true → (if b then x else y).exited ≡ true
if_gone true x y s t = s
if_gone false x y s t = t

pub hub_step-exited : (e : HubEvent) (h : Hub) → h.exited ≡ true → (hub_step e h).exited ≡ true
unfolding hub_step broadcast_metrics
hub_step-exited (serves d) h gone = rw (hub_step, gone) refl
hub_step-exited (leaves d) h gone = rw (hub_step, gone) refl
hub_step-exited (pumps d) h gone = elim (Option-cases (lookup d h.channels)) [
  | inl e ↦ rw (hub_step, e) gone
  | inr (ch, e) ↦
      rw (hub_step, e)
        (if_gone ch.pump_ended h (pump d ch h) gone ((pump-Keeps d ch h e).same_exit ∙ gone))
]
hub_step-exited (broken d) h gone = elim (Option-cases (lookup d h.channels)) [
  | inl e ↦ rw (hub_step, e) gone
  | inr (ch, e) ↦ rw (hub_step, e) gone
]
hub_step-exited (publishes message) h gone =
    elim (Bool-cases (ltb (length h.broadcast) broadcast_buffer)) [
      | inl few ↦ rw (hub_step, few) gone
      | inr full ↦ rw (hub_step, full) gone
    ]
hub_step-exited fans_out h gone = rw (hub_step, gone) refl
hub_step-exited closes h gone = gone
hub_step-exited exits h gone =
    if_gone (not h.done || h.exited) h _ gone
      (close_all-exited h.clients (record h { exited = true }))
