-- ===== src/Alerting/Evaluator/Listing.antt =====
-- internal/alerting/evaluator.go: `Active` and `ActiveForHost`, the alerts as the API lists them.
-- sort.Slice is an insertion sort by the same comparison.
use sys_sentient.Alerting.Rule.{warning, critical, other_severity, Alert, Severity}
use mathlib.Core.List.Perm
use mathlib.Core.List.{Perm}
use Prim.Native.String.{compare}
use text.Mathlib.Text.{is_lt}
use sys_sentient.Alerting.Evaluator.{Evaluator, ActiveMap, alert_key}
use sys_sentient.Prelude.{
  ◌⊎◌, if◌then◌else◌, Bool-cases, keep_if, All, All-keep_if, ◌==◌, nat_key, string_key, before,
  String, ◌≡◌, sym, ◌∙◌, inl, inr, Bool, true, false, not, List, [], ◌∷◌, arith,
}

abbrev pub str_lt : String → String → Bool
str_lt a b = is_lt (compare a b)

abbrev pub is_critical : Severity → Bool
is_critical critical = true
is_critical _ = false

abbrev pub severity_beq : Severity → Severity → Bool
severity_beq warning warning = true
severity_beq critical critical = true
severity_beq (other_severity s) (other_severity t) = s == t
severity_beq _ _ = false

severity_same : (s t : Severity) → severity_beq s t ≡ true → is_critical s ≡ is_critical t
severity_same s t h = ground arith

module _ {F : Type 0} where
  -- The comparison that sort.Slice is given.
  unfoldable pub less : Alert F → Alert F → Bool
  less a b =
      if not (severity_beq a.severity b.severity)
      then is_critical a.severity
      else if not (a.started_at == b.started_at)
      then before a.started_at b.started_at
      else if not (a.host_id == b.host_id)
      then str_lt a.host_id b.host_id
      else str_lt a.rule_id b.rule_id

  unfoldable pub place : Alert F → List (Alert F) → List (Alert F)
  place a [] = a ∷ []
  place a (b ∷ bs) = if less b a then b ∷ place a bs else a ∷ b ∷ bs

  unfoldable pub sort : List (Alert F) → List (Alert F)
  unfolding place
  sort [] = []
  sort (a ∷ rest) = place a (sort rest)

  abbrev pub alerts : ActiveMap F → List (Alert F)
  alerts [] = []
  alerts ((k, a) ∷ m) = a ∷ alerts m

  unfoldable pub active_alerts : Evaluator F → List (Alert F)
  unfolding sort
  active_alerts e = sort (alerts e.active)

  -- An empty host id asks for every host.
  unfoldable pub active_for_host : Evaluator F → String → List (Alert F)
  unfolding active_alerts
  active_for_host e host =
      let all_alerts = active_alerts e in
      if host == "" then all_alerts else keep_if (λ a. a.host_id == host) all_alerts

  -- No critical alert stands behind one that is not critical.
  abbrev pub CriticalFirst : List (Alert F) → Type 0
  CriticalFirst [] = Unit {0}
  CriticalFirst (a ∷ rest) =
      ((is_critical a.severity ≡ true) ⊎ All (λ b. is_critical b.severity ≡ false) rest)
      × CriticalFirst rest

  place-perm : (a : Alert F) (bs : List (Alert F)) → Perm (place a bs) (a ∷ bs)
  unfolding place
  place-perm a [] = Perm.rfl
  place-perm a (b ∷ bs) = elim (Bool-cases (less b a)) [
    | inl up ↦ rw up (Perm.trans (Perm.cons b (place-perm a bs)) (Perm.swap a b bs))
    | inr stay ↦ rw stay Perm.rfl
  ]

  sort-perm : (rest : List (Alert F)) → Perm (sort rest) rest
  unfolding sort
  sort-perm [] = Perm.nil
  sort-perm (a ∷ rest) = Perm.trans (place-perm a (sort rest)) (Perm.cons a (sort-perm rest))

  place-All :
      (a : Alert F) (bs : List (Alert F))
      → is_critical a.severity ≡ false
      → All (λ b. is_critical b.severity ≡ false) bs
      → All (λ b. is_critical b.severity ≡ false) (place a bs)
  unfolding place
  place-All a [] h k = (h, tt)
  place-All a (b ∷ bs) h k = ground (arith, place-All a bs h k.1)

  -- What stands above an alert that is not critical is either critical or as little so.
  less_above :
      (b a : Alert F)
      → less b a ≡ true
      → is_critical b.severity ≡ false
      → is_critical a.severity ≡ false
  unfolding less
  less_above b a u q = elim (Bool-cases (severity_beq b.severity a.severity)) [
    | inl same ↦ sym (severity_same b.severity a.severity same) ∙ q
    | inr other ↦ let crit : is_critical b.severity ≡ true = rw other at u in cc
  ]

  less_below :
      (b a : Alert F)
      → less b a ≡ false
      → is_critical a.severity ≡ false
      → is_critical b.severity ≡ false
  unfolding less
  less_below b a u q = elim (Bool-cases (severity_beq b.severity a.severity)) [
    | inl same ↦ severity_same b.severity a.severity same ∙ q
    | inr other ↦ rw other at u
  ]

  place_above :
      (a b : Alert F) (bs : List (Alert F))
      → less b a ≡ true
      → (is_critical b.severity ≡ true) ⊎ All (λ c. is_critical c.severity ≡ false) bs
      → (is_critical b.severity ≡ true) ⊎ All (λ c. is_critical c.severity ≡ false) (place a bs)
  place_above a b bs up (inl c) = inl c
  place_above a b bs up (inr k) = elim (Bool-cases (is_critical b.severity)) [
    | inl c ↦ inl c
    | inr mild ↦ inr (place-All a bs (less_above b a up mild) k)
  ]

  place-CriticalFirst :
      (a : Alert F) (bs : List (Alert F)) → CriticalFirst bs → CriticalFirst (place a bs)
  unfolding place
  place-CriticalFirst a [] h = (inr tt, tt)
  place-CriticalFirst a (b ∷ bs) h = elim (Bool-cases (less b a)) [
    | inl up ↦ rw up (place_above a b bs up h.0, place-CriticalFirst a bs h.1)
    | inr stay ↦ elim (Bool-cases (is_critical a.severity)) [
      | inl crit ↦ rw stay (inl crit, h)
      | inr mild ↦
          let mild_b = less_below b a stay mild in
          rw stay (inr (mild_b, elim h.0 [ inl c ↦ absurd (cc) | inr k ↦ k ]), h)
    ]
  ]

  sort-CriticalFirst : (rest : List (Alert F)) → CriticalFirst (sort rest)
  unfolding sort
  sort-CriticalFirst [] = tt
  sort-CriticalFirst (a ∷ rest) = place-CriticalFirst a (sort rest) (sort-CriticalFirst rest)

  -- The listing holds every tracked alert exactly once and the critical ones before all others;
  -- asked for one host, by a name that is not empty, it holds alerts of that host alone.
  pub active_alerts_lem :
      (e : Evaluator F) (host : String)
      → (host == "") ≡ false
      → Perm (active_alerts e) (alerts e.active)
        × CriticalFirst (active_alerts e)
        × All (λ a. (a.host_id == host) ≡ true) (active_for_host e host)
  unfolding active_for_host
  active_alerts_lem e host named = (
    sort-perm (alerts e.active),
    sort-CriticalFirst (alerts e.active),
    rw named (All-keep_if (λ a. a.host_id == host) (active_alerts e)),
  )
