-- ===== src/Config/Runtime/Live.antt =====
-- internal/config/runtime.go: an update is all or nothing, and what listens is never behind.
use sys_sentient.Config.Runtime.{
  Runtime, RuntimeValues, RuntimeUpdate, RuntimeError, Notice, poll_changed, level_changed, Applied,
  applied, refused, in_seconds, of_seconds, same_ℤ, values, merged, validate_runtime, set_values,
  poll_notice, level_notice, apply_update,
}
use sys_sentient.Prelude.{
  Bool-cases, Option-cases, ℤ, pos, negsuc, ltb_ℤ, ◌==◌, nat_key, string_key, ==_eq, Duration,
  String, ◌≡◌, refl, sym, ap, ◌∙◌, inl, inr, true, false, none, some, List, [], ◌∷◌, ◌++◌, arith,
}

-- Settings that can be: a poll interval of 1 to 3600 whole seconds, retentions that nest, and a level
-- that the logger has.
pub record IsRuntime (r : Runtime) : Type 0 where
  pub whole : of_seconds (in_seconds r.poll_interval) ≡ r.poll_interval
  pub accepted : validate_runtime (values r) ≡ none

seconds_back : (z : ℤ) → ltb_ℤ z (pos 1) ≡ false → in_seconds (of_seconds z) ≡ z
seconds_back (pos n) h = ap pos (omega arith)
seconds_back (negsuc n) h = absurd (ground arith)

validate_runtime_poll :
    (v : RuntimeValues) → validate_runtime v ≡ none → ltb_ℤ v.poll_interval_seconds (pos 1) ≡ false
unfolding validate_runtime
validate_runtime_poll v h = ground arith

values-set_values :
    (r : Runtime) (next : RuntimeValues)
    → validate_runtime next ≡ none
    → values (set_values r next) ≡ next
values-set_values r next h =
    ap
      (λ z. record {
        poll_interval_seconds = z;
        metrics_retention_hours = next.metrics_retention_hours;
        minute_rollup_days = next.minute_rollup_days;
        five_minute_rollup_days = next.five_minute_rollup_days;
        log_level = next.log_level;
      })
      (seconds_back next.poll_interval_seconds (validate_runtime_poll next h))

set_values-IsRuntime :
    (r : Runtime) (next : RuntimeValues)
    → validate_runtime next ≡ none
    → IsRuntime (set_values r next)
set_values-IsRuntime r next h = record {
  whole = ap of_seconds (seconds_back next.poll_interval_seconds (validate_runtime_poll next h));
  accepted = ap validate_runtime (values-set_values r next h) ∙ h;
}

pub apply_refused :
    (r : Runtime) (u : RuntimeUpdate) (e : RuntimeError)
    → validate_runtime (merged (values r) u) ≡ some e
    → apply_update r u ≡ (r, [], refused e)
unfolding apply_update
apply_refused r u e h = rw (h, apply_update) refl

pub apply_applied :
    (r : Runtime) (u : RuntimeUpdate)
    → validate_runtime (merged (values r) u) ≡ none
    → let next = merged (values r) u in
      apply_update r u
      ≡ (set_values r next, poll_notice r next ++ level_notice r next, applied next)
unfolding apply_update
apply_applied r u h = rw (h, apply_update) refl

-- All of an update is applied, or nothing and no callback runs.
abbrev pub AllOrNothing : Runtime → RuntimeUpdate → Runtime × List Notice × Applied → Type 0
AllOrNothing r u (r', notices, refused e) =
    (r' ≡ r) × (notices ≡ []) × (validate_runtime (merged (values r) u) ≡ some e)
AllOrNothing r u (r', notices, applied v) = (values r' ≡ merged (values r) u) × (v ≡ values r')

-- An update is applied whole, and its answer tells the new settings, or it is refused for what the
-- settings would become, and then nothing changes and no callback runs; settings that can be stay so.
pub apply_update_lem :
    (r : Runtime) (u : RuntimeUpdate)
    → IsRuntime r
    → AllOrNothing r u (apply_update r u) × IsRuntime (apply_update r u).0
apply_update_lem r u v = elim (Option-cases (validate_runtime (merged (values r) u))) [
  | inr (e, h) ↦ rw (apply_refused r u e h) ((refl, refl, h), v)
  | inl h ↦
      let next = merged (values r) u in
      let told = values-set_values r next h in
      rw (apply_applied r u h) ((told, sym told), set_values-IsRuntime r next h)
]

-- Updates in turn, and every notice of them in order.
unfoldable pub run_updates : Runtime → List RuntimeUpdate → Runtime × List Notice
run_updates r [] = (r, [])
run_updates r (u ∷ us) =
    let (r', notices, answer) = apply_update r u in
    let (r'', rest) = run_updates r' us in (r'', notices ++ rest)

-- The interval of the collector and the level of the logger, after notices.
abbrev pub hears : Duration × String → List Notice → Duration × String
hears (d, level) [] = (d, level)
hears (d, level) (poll_changed d' ∷ ns) = hears (d', level) ns
hears (d, level) (level_changed l ∷ ns) = hears (d, l) ns

hears-append :
    (x : Duration × String) (ns ms : List Notice) → hears x (ns ++ ms) ≡ hears (hears x ns) ms
hears-append (d, level) [] ms = refl
hears-append (d, level) (poll_changed d' ∷ ns) ms = hears-append (d', level) ns ms
hears-append (d, level) (level_changed l ∷ ns) ms = hears-append (d, l) ns ms

same_ℤ_eq : (a b : ℤ) → same_ℤ a b ≡ true → a ≡ b
same_ℤ_eq (pos m) (pos n) h = ap pos (==_eq m n h)
same_ℤ_eq (negsuc m) (negsuc n) h = ap negsuc (==_eq m n h)
same_ℤ_eq (pos m) (negsuc n) h = cc
same_ℤ_eq (negsuc m) (pos n) h = cc

-- What listens, given the notices of one change, is where the settings are.
notices_heard :
    (r : Runtime) (next : RuntimeValues)
    → r.on_poll_change ≡ true
    → r.on_log_level_change ≡ true
    → IsRuntime r
    → hears (r.poll_interval, r.log_level) (poll_notice r next ++ level_notice r next)
      ≡ (of_seconds next.poll_interval_seconds, next.log_level)
notices_heard r next p l v =
    let polled =
      elim (Bool-cases (same_ℤ next.poll_interval_seconds (in_seconds r.poll_interval)))
        as (λ _.
          hears (r.poll_interval, r.log_level) (poll_notice r next)
          ≡ (of_seconds next.poll_interval_seconds, r.log_level)) [
            | inr other ↦ rw (other, p) refl
            | inl same ↦
                let z = same_ℤ_eq next.poll_interval_seconds (in_seconds r.poll_interval) same in
                rw same (ap (λ d. (d, r.log_level)) (sym (ap of_seconds z ∙ v.whole)))
          ] in
    let leveled =
      elim (Bool-cases (next.log_level == r.log_level))
        as (λ _.
          hears (of_seconds next.poll_interval_seconds, r.log_level) (level_notice r next)
          ≡ (of_seconds next.poll_interval_seconds, next.log_level)) [
            | inr other ↦ rw (other, l) refl
            | inl same ↦ rw same (
                ap (λ s. (of_seconds next.poll_interval_seconds, s))
                  (sym (==_eq next.log_level r.log_level same)))
          ] in
    hears-append (r.poll_interval, r.log_level) (poll_notice r next) (level_notice r next)
    ∙ ap (λ x. hears x (level_notice r next)) polled
    ∙ leveled

-- One update is heard, and the callbacks stay registered.
update_heard :
    (r : Runtime) (u : RuntimeUpdate)
    → r.on_poll_change ≡ true
    → r.on_log_level_change ≡ true
    → IsRuntime r
    → let (r', notices, answer) = apply_update r u in
      (hears (r.poll_interval, r.log_level) notices ≡ (r'.poll_interval, r'.log_level))
      × (r'.on_poll_change ≡ true)
      × (r'.on_log_level_change ≡ true)
update_heard r u p l v = elim (Option-cases (validate_runtime (merged (values r) u))) [
  | inr (e, h) ↦ rw (apply_refused r u e h) (refl, p, l)
  | inl h ↦ rw (apply_applied r u h) (notices_heard r (merged (values r) u) p l v, p, l)
]

-- Once both callbacks are registered, and over any updates, refused ones among them: what the callbacks
-- told last, or the settings at the start where they told nothing, are the settings at the end, which
-- are again ones that can be.
pub run_updates_heard :
    (r : Runtime) (us : List RuntimeUpdate)
    → r.on_poll_change ≡ true
    → r.on_log_level_change ≡ true
    → IsRuntime r
    → let (r', notices) = run_updates r us in
      (hears (r.poll_interval, r.log_level) notices ≡ (r'.poll_interval, r'.log_level))
      × IsRuntime r'
unfolding run_updates
run_updates_heard r [] p l v = (refl, v)
run_updates_heard r (u ∷ us) p l v =
    let (r', notices, answer) = apply_update r u in
    let (heard, p', l') = update_heard r u p l v in
    let (rest, valid) = run_updates_heard r' us p' l' (apply_update_lem r u v).1 in
    (
      hears-append (r.poll_interval, r.log_level) notices (run_updates r' us).1
          ∙ ap (λ x. hears x (run_updates r' us).1) heard
          ∙ rest,
      valid,
    )
