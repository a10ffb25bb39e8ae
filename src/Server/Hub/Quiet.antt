-- ===== src/Server/Hub/Quiet.antt =====
-- internal/server/websocket.go: the operations that register no one and open no channel.
use sys_sentient.Prelude.{
  ltb, if◌then◌else◌, nat_beq_iff, Bool-cases, Option-cases, length, ◌==◌, nat_key, string_key,
  lookup, insert, lookup-insert, ℕ, String, ◌≡◌, refl, ap, subst, ◌∙◌, inl, inr, Bool, true, false,
  not, some, List, [], ◌∷◌, ◌++◌,
}
use sys_sentient.Server.Hub.{Hub, Channel, send_buffer, offer, offer_all, fan_out, pump}
use sys_sentient.Server.Hub.Clients.{is_open, list_cases}

-- Whether a client's channel is open.
abbrev pub is_live : ℕ → Hub → Bool
is_live c h = is_open (lookup c h.channels)

-- What an operation that leaves the registrations keeps: who is registered, whether Run has returned,
-- and no channel is opened.
pub record Keeps (h h' : Hub) : Type 0 where
  pub same_clients : h'.clients ≡ h.clients
  pub same_exit : h'.exited ≡ h.exited
  pub none_opened : (c : ℕ) → is_live c h' ≡ true → is_live c h ≡ true

pub Keeps-refl : (h : Hub) → Keeps h h
Keeps-refl h = record { same_clients = refl; same_exit = refl; none_opened = λ c o. o }

pub Keeps-trans : (a b c : Hub) → Keeps a b → Keeps b c → Keeps a c
Keeps-trans a b c k l = record {
  same_clients = l.same_clients ∙ k.same_clients;
  same_exit = l.same_exit ∙ k.same_exit;
  none_opened = λ d o. k.none_opened d (l.none_opened d o);
}

-- A new value for a channel that is open only if it was.
pub renew-Keeps :
    (k : ℕ) (ch new : Channel) (h : Hub)
    → lookup k h.channels ≡ some ch
    → (not new.closed ≡ true → not ch.closed ≡ true)
    → Keeps h (record h { channels = insert k new h.channels })
renew-Keeps k ch new h found shut = record {
  same_clients = refl;
  same_exit = refl;
  none_opened = λ c o. elim (Bool-cases (k == c)) [
    | inl hit ↦
        let same : k ≡ c = (nat_beq_iff k c).0 hit in
        let now_open : not new.closed ≡ true =
          subst (λ b. is_open (if b then some new else lookup c h.channels) ≡ true) hit
            (subst (λ x. is_open x ≡ true) (lookup-insert k c new h.channels) o) in
        subst (λ d. is_live d h ≡ true) same (ap is_open found ∙ shut now_open)
    | inr miss ↦
        subst (λ b. is_open (if b then some new else lookup c h.channels) ≡ true) miss
          (subst (λ x. is_open x ≡ true) (lookup-insert k c new h.channels) o)
  ];
}

if_Keeps : (h : Hub) (b : Bool) (x y : Hub) → Keeps h x → Keeps h y → Keeps h (if b then x else y)
if_Keeps h true x y k l = k
if_Keeps h false x y k l = l

pub offer-Keeps : (message : String) (c : ℕ) (h : Hub) → Keeps h (offer message c h)
unfolding offer
offer-Keeps message c h = elim (Option-cases (lookup c h.channels)) [
  | inl e ↦ rw (offer, e) (Keeps-refl h)
  | inr (ch, e) ↦
      rw (offer, e)
        (if_Keeps h ch.closed _ _
          (record { same_clients = refl; same_exit = refl; none_opened = λ c o. o })
          (if_Keeps h (ltb (length ch.queue) send_buffer) _ h
            (renew-Keeps c ch (record ch { queue = ch.queue ++ message ∷ [] }) h e (λ o. o))
            (Keeps-refl h)))
]

pub offer_all-Keeps : (message : String) (cs : List ℕ) (h : Hub) → Keeps h (offer_all message cs h)
unfolding offer_all
offer_all-Keeps message [] h = Keeps-refl h
offer_all-Keeps message (c ∷ cs) h =
    Keeps-trans h (offer message c h) _ (offer-Keeps message c h)
      (offer_all-Keeps message cs (offer message c h))

pub fan_out-Keeps : (queue : List String) (h : Hub) → Keeps h (fan_out queue h)
unfolding fan_out
fan_out-Keeps [] h = Keeps-refl h
fan_out-Keeps (message ∷ rest) h =
    Keeps-trans h (record h { broadcast = rest }) _
      (record { same_clients = refl; same_exit = refl; none_opened = λ c o. o })
      (offer_all-Keeps message h.clients (record h { broadcast = rest }))

pub pump-Keeps :
    (c : ℕ) (ch : Channel) (h : Hub) → lookup c h.channels ≡ some ch → Keeps h (pump c ch h)
unfolding pump
pump-Keeps c ch h found = elim (list_cases ch.queue) [
  | inl e ↦
      rw (pump, e)
        (if_Keeps h ch.closed _ h
          (renew-Keeps c ch (record ch { pump_ended = true }) h found (λ o. o)) (Keeps-refl h))
  | inr (message, rest, e) ↦
      rw (pump, e) (renew-Keeps c ch (record ch { queue = rest }) h found (λ o. o))
]
