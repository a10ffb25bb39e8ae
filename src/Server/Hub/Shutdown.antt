-- ===== src/Server/Hub/Shutdown.antt =====
-- internal/server/websocket.go: the channels and the write pumps after Close.
use sys_sentient.Prelude.{
  Bool-cases, Option-cases, length, nat_key, string_key, lookup, ℕ, suc, ◌-◌, ◌≤◌, ◌<◌, ◌≡◌, refl,
  sym, ap, subst, ◌∙◌, inl, inr, true, false, some, List, [], ◌∷◌, ◌++◌, arith, lookup-All,
}
use sys_sentient.Server.Hub.{
  Hub, Channel, send_buffer, is_client, HubEvent, closes, exits, new_hub, hub_step, hub_run,
}
use sys_sentient.Server.Hub.Clients.{is_open, Fits, IsSafe}
use sys_sentient.Server.Hub.Safety.{hub_step-IsSafe, hub_run-kept}
use sys_sentient.Server.Hub.Quiet.{is_live}
use sys_sentient.Server.Hub.Listed.{IsListed, hub_step-IsListed, close_all-exited}
use sys_sentient.Server.Hub.Drain.{turns, left, left_of, shut_of, hub_step-left, hub_step-exited}

-- What holds once Run has returned.
record IsGone (h : Hub) : Type 0 where
  safe : IsSafe h
  listed : IsListed h
  gone : h.exited ≡ true

none_live : (h : Hub) (c : ℕ) → IsGone h → is_live c h ≡ false
none_live h c g = elim (Bool-cases (is_live c h)) [
  | inl o ↦
      let member : is_client c [] ≡ true =
        subst (λ cs. is_client c cs ≡ true) (g.listed.emptied g.gone) (g.listed.listed c o) in
      absurd (ground (arith, member))
  | inr e ↦ e
]

hub_step-IsGone : (e : HubEvent) (h : Hub) → IsGone h → IsGone (hub_step e h)
hub_step-IsGone e h g = record {
  safe = hub_step-IsSafe e h g.safe;
  listed = hub_step-IsListed e h g.safe g.listed;
  gone = hub_step-exited e h g.gone;
}

hub_run-IsGone :
    (later : List HubEvent) (c : ℕ) (h : Hub)
    → IsGone h
    → IsGone (hub_run later h) × (left_of c (hub_run later h) ≤ left_of c h - turns c later)
unfolding hub_run
hub_run-IsGone [] c h g = (g, omega arith)
hub_run-IsGone (e ∷ later) c h g =
    let (end, fewer) = hub_run-IsGone later c (hub_step e h) (hub_step-IsGone e h g) in
    (end, omega (arith, fewer, hub_step-left e c h g.gone (λ d. none_live h d g)))

hub_run-IsListed :
    (events : List HubEvent) (h : Hub) → IsSafe h → IsListed h → IsListed (hub_run events h)
unfolding hub_run
hub_run-IsListed [] h s l = l
hub_run-IsListed (e ∷ events) h s l =
    hub_run-IsListed events (hub_step e h) (hub_step-IsSafe e h s) (hub_step-IsListed e h s l)

hub_run-append :
    (events later : List HubEvent) (h : Hub)
    → hub_run (events ++ later) h ≡ hub_run later (hub_run events h)
unfolding hub_run
hub_run-append [] later h = refl
hub_run-append (e ∷ events) later h = hub_run-append events later (hub_step e h)

exits-exited : (h : Hub) → (hub_step exits (hub_step closes h)).exited ≡ true
unfolding hub_step
exits-exited h = elim (Bool-cases h.exited) [
  | inl e ↦ rw (hub_step, e) refl
  | inr e ↦ rw (hub_step, e) (close_all-exited h.clients _)
]

shut-IsGone : (h : Hub) → IsSafe h → IsListed h → IsGone (hub_step exits (hub_step closes h))
shut-IsGone h s l =
    let s' = hub_step-IsSafe closes h s in
    let l' = hub_step-IsListed closes h s l in
    record {
      safe = hub_step-IsSafe exits (hub_step closes h) s';
      listed = hub_step-IsListed exits (hub_step closes h) s' l';
      gone = exits-exited h;
    }

left_some : (c : ℕ) (h : Hub) → IsSafe h → left_of c h ≤ suc send_buffer
left_some c h s = elim (Option-cases (lookup c h.channels)) [
  | inl e ↦ rw e (omega arith)
  | inr (ch, e) ↦
      let few : length ch.queue ≤ send_buffer = lookup-All Fits c ch h.channels s.fits e in
      rw e (elim (Bool-cases ch.pump_ended) [
        | inl b ↦ rw b (omega arith)
        | inr b ↦ rw b (omega (arith, few))
      ])
]

pump_has_ended : (ch : Channel) → left (some ch) ≡ 0 → ch.pump_ended ≡ true
pump_has_ended ch e = elim (Bool-cases ch.pump_ended) [
  | inl b ↦ b
  | inr b ↦ absurd (ground (arith, e, b))
]

new_hub-IsSafe : IsSafe new_hub
unfolding new_hub
new_hub-IsSafe = record { calm = refl; opens = tt; distinct = tt; fits = tt; room = omega arith }

new_hub-IsListed : IsListed new_hub
unfolding new_hub lookup
new_hub-IsListed = record { listed = λ d o. cc; emptied = λ _. refl }

-- Whatever has happened before and whatever happens later: once Close has been called and Run has
-- returned, and a client's pump has had 257 turns from then on, whatever came between them, its channel
-- is closed and the pump has returned. So does that of a client that leaves late.
pub hub_shuts_down :
    (events later : List HubEvent) (c : ℕ) (ch : Channel)
    → send_buffer < turns c later
    → lookup c (hub_run (events ++ closes ∷ exits ∷ later) new_hub).channels ≡ some ch
    → (ch.closed ≡ true) × (ch.pump_ended ≡ true)
unfolding hub_run
hub_shuts_down events later c ch enough found =
    let h = hub_run events new_hub in
    let safe = hub_run-kept events new_hub new_hub-IsSafe in
    let listed = hub_run-IsListed events new_hub new_hub-IsSafe new_hub-IsListed in
    let gone = shut-IsGone h safe listed in
    let (end, fewer) = hub_run-IsGone later c (hub_step exits (hub_step closes h)) gone in
    let same =
      sym (
        ap (λ (k : Hub). lookup c k.channels)
          (hub_run-append events (closes ∷ exits ∷ later) new_hub))
      ∙ found in
    (
      shut_of ch.closed (sym (ap is_open same) ∙ none_live _ c end),
      pump_has_ended ch
          (sym (ap left same) ∙ (omega (arith, fewer, enough, left_some c _ gone.safe))),
    )
