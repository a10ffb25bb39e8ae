-- ===== src/Server/Hub/Clients.antt =====
-- internal/server/websocket.go: the registered clients, and the channels that are open.
use sys_sentient.Prelude.{
  nat_beq_iff, Bool-cases, length, All, ◌==◌, nat_key, string_key, lookup, insert, lookup-insert, ℕ,
  ◌≤◌, String, ◌≡◌, refl, sym, ap, subst, ◌∙◌, ◌⊎◌, inl, inr, Bool, true, false, not, Option, none,
  some, List, [], ◌∷◌, arith,
}
use sys_sentient.Server.Hub.{Hub, Channel, send_buffer, broadcast_buffer, is_client, without}

abbrev pub is_open : Option Channel → Bool
is_open none = false
is_open (some ch) = not ch.closed

abbrev pub Opens : List ℕ → List (ℕ × Channel) → Type 0
Opens cs chans = All (λ c. is_open (lookup c chans) ≡ true) cs

-- No client stands twice in a list.
abbrev pub Distinct : List ℕ → Type 0
Distinct [] = Unit
Distinct (c ∷ cs) = (is_client c cs ≡ false) × Distinct cs

abbrev pub Fits : ℕ × Channel → Type 0
Fits e = length (e.1).queue ≤ send_buffer

-- The clients are registered once, have open channels, and no buffer is overfull.
pub record IsSafe (h : Hub) : Type 0 where
  pub calm : h.panicked ≡ false
  pub opens : Opens h.clients h.channels
  pub distinct : Distinct h.clients
  pub fits : All Fits h.channels
  pub room : length h.broadcast ≤ broadcast_buffer

pub Opens-insert_open :
    (k : ℕ) (ch : Channel) (cs : List ℕ) (chans : List (ℕ × Channel))
    → ch.closed ≡ false
    → Opens cs chans
    → Opens cs (insert k ch chans)
Opens-insert_open k ch [] chans e o = tt
Opens-insert_open k ch (c ∷ cs) chans e o = (
  rw (lookup-insert k c ch chans)
      (elim (Bool-cases (k == c)) [ inl hit ↦ rw hit (ap not e) | inr miss ↦ rw miss o.0 ]),
  Opens-insert_open k ch cs chans e o.1,
)

pub Opens-insert_absent :
    (k : ℕ) (ch : Channel) (cs : List ℕ) (chans : List (ℕ × Channel))
    → is_client k cs ≡ false
    → Opens cs chans
    → Opens cs (insert k ch chans)
Opens-insert_absent k ch [] chans a o = tt
Opens-insert_absent k ch (c ∷ cs) chans a o =
    let apart : (k == c) ≡ false = (ground (arith, nat_beq_iff k c, nat_beq_iff c k)) in
    let rest : is_client k cs ≡ false = (ground arith) in
    (rw (lookup-insert k c ch chans) (rw apart o.0), Opens-insert_absent k ch cs chans rest o.1)

-- A client that has left is not among those left.
pub without-absent : (c : ℕ) (cs : List ℕ) → is_client c (without c cs) ≡ false
without-absent c [] = refl
without-absent c (d ∷ cs) = ground (arith, without-absent c cs)

pub Opens-without :
    (c : ℕ) (cs : List ℕ) (chans : List (ℕ × Channel)) → Opens cs chans → Opens (without c cs) chans
Opens-without c [] chans o = tt
Opens-without c (d ∷ cs) chans o = ground (arith, Opens-without c cs chans o.1)

pub is_client-without :
    (k c : ℕ) (cs : List ℕ) → is_client k cs ≡ false → is_client k (without c cs) ≡ false
is_client-without k c [] a = refl
is_client-without k c (d ∷ cs) a = ground (arith, is_client-without k c cs)

pub Distinct-without : (c : ℕ) (cs : List ℕ) → Distinct cs → Distinct (without c cs)
Distinct-without c [] u = tt
Distinct-without c (d ∷ cs) u =
    ground (arith, Distinct-without c cs u.1, is_client-without d c cs u.0)

pub is_client-Opens :
    (c : ℕ) (cs : List ℕ) (chans : List (ℕ × Channel))
    → is_client c cs ≡ true
    → Opens cs chans
    → is_open (lookup c chans) ≡ true
is_client-Opens c [] chans m o = cc
is_client-Opens c (d ∷ cs) chans m o = ground (arith, is_client-Opens c cs chans, nat_beq_iff d c)

pub list_cases :
    (xs : List String) → (xs ≡ []) ⊎ ((x : String) × (rest : List String) × (xs ≡ x ∷ rest))
list_cases [] = inl refl
list_cases (x ∷ xs) = inr (x, xs, refl)

pub not-closed : (b : Bool) → not b ≡ true → b ≡ false
not-closed true e = cc
not-closed false e = refl

pub lookup-closed :
    (k : ℕ) (ch : Channel) (chans : List (ℕ × Channel))
    → lookup k chans ≡ some ch
    → is_open (lookup k chans) ≡ true
    → ch.closed ≡ false
lookup-closed k ch chans found opened = not-closed ch.closed (sym (ap is_open found) ∙ opened)

-- A change that leaves a channel open or closed as it was.
pub Opens-insert_like :
    (k : ℕ) (ch new : Channel) (cs : List ℕ) (chans : List (ℕ × Channel))
    → lookup k chans ≡ some ch
    → new.closed ≡ ch.closed
    → Opens cs chans
    → Opens cs (insert k new chans)
Opens-insert_like k ch new [] chans found like o = tt
Opens-insert_like k ch new (c ∷ cs) chans found like o = (
  rw (lookup-insert k c new chans) (elim (Bool-cases (k == c)) [
    | inl hit ↦
        let same : k ≡ c = (nat_beq_iff k c).0 hit in
        rw hit (
          ap not like
          ∙ ap is_open (sym found)
          ∙ subst (λ d. is_open (lookup d chans) ≡ true) (sym same) o.0)
    | inr miss ↦ rw miss o.0
  ]),
  Opens-insert_like k ch new cs chans found like o.1,
)
