-- ===== src/Ai/CircuitBreaker/Concurrent.antt =====
-- internal/ai/circuit_breaker.go: calls from several goroutines, in any order of their steps.
use sys_sentient.Prelude.{
  all, if◌then◌else◌, is_some, Bool-cases, ltb_ℤ, since, nat_key, string_key, Time, Duration, ℕ,
  ◌+◌, ◌≤◌, ◌≡◌, inl, inr, refl, Bool, true, false, none, some, List, [], ◌∷◌, arith,
}
use sys_sentient.Ai.CircuitBreaker.{
  CircuitBreaker, CircuitState, closed, open_circuit, half_open, circuit_open, too_many_requests,
  new_circuit_breaker, before_request, after_request, reset, IsValid, is_closed, is_half_open,
}

-- One atomic step of some goroutine at an instant: a call that asks to start, a call that returns,
-- or an operator's reset.
pub data Event : Type 0 where
  starts : Time → Event
  returns : Time → Bool → Event
  resets : Event

unfoldable pub step : CircuitBreaker → Event → CircuitBreaker
step cb (starts now) = (before_request cb now).0
step cb (returns now err) = after_request cb now err
step cb resets = reset cb

unfoldable pub run : CircuitBreaker → List Event → CircuitBreaker
run cb [] = cb
run cb (e ∷ es) = run (step cb e) es

pub new_circuit_breaker-IsValid : (n : ℕ) (d : Duration) → IsValid (new_circuit_breaker n d)
unfolding new_circuit_breaker
new_circuit_breaker-IsValid n d = ground arith

pub step-IsValid : (cb : CircuitBreaker) (e : Event) → IsValid cb → IsValid (step cb e)
unfolding step before_request after_request reset
step-IsValid cb (starts now) v = ground arith
step-IsValid cb (returns now true) v = ground arith
step-IsValid cb (returns now false) v = ground arith
step-IsValid cb resets v = ground arith

run-IsValid : (cb : CircuitBreaker) (es : List Event) → IsValid cb → IsValid (run cb es)
unfolding run
run-IsValid cb [] v = v
run-IsValid cb (e ∷ es) v = run-IsValid (step cb e) es (step-IsValid cb e v)

-- After any interleaving of calls and resets on a new breaker, one probe is counted while the
-- circuit is half open and none otherwise, and while it is closed the failures counted are none or
-- fewer than the limit.
pub run-new_circuit_breaker-IsValid :
    (n : ℕ) (d : Duration) (es : List Event) → IsValid (run (new_circuit_breaker n d) es)
run-new_circuit_breaker-IsValid n d es =
    run-IsValid (new_circuit_breaker n d) es (new_circuit_breaker-IsValid n d)

abbrev pub is_start : Event → Bool
is_start (starts now) = true
is_start _ = false

-- How many of the calls that ask to start are let through.
unfoldable pub admitted : CircuitBreaker → List Event → ℕ
admitted cb [] = 0
admitted cb (starts now ∷ es) =
    let (cb', refusal) = before_request cb now in
    let rest = admitted cb' es in if is_some refusal then rest else 1 + rest
admitted cb (returns now err ∷ es) = admitted (after_request cb now err) es
admitted cb (resets ∷ es) = admitted (reset cb) es

half_open_start :
    (cb : CircuitBreaker) (now : Time)
    → IsValid cb
    → cb.state ≡ half_open
    → before_request cb now ≡ (cb, some too_many_requests)
unfolding before_request
half_open_start cb now v h = ground arith

half_open_admits :
    (cb : CircuitBreaker) (es : List Event)
    → IsValid cb
    → cb.state ≡ half_open
    → all is_start es ≡ true
    → admitted cb es ≡ 0
unfolding admitted
half_open_admits cb [] v h s = refl
half_open_admits cb (starts t ∷ es) v h s =
    rw (half_open_start cb t v h) (half_open_admits cb es v h s)
half_open_admits cb (returns t err ∷ es) v h s = cc
half_open_admits cb (resets ∷ es) v h s = cc

-- What a call does to an open circuit: it is the probe, or it is refused.
open_start :
    (cb : CircuitBreaker) (now : Time)
    → cb.state ≡ open_circuit
    → before_request cb now ≡ (
        if ltb_ℤ cb.reset_timeout (since now cb.last_fail_time)
        then (record cb { state = half_open; half_open_calls = 1 }, none)
        else (cb, some circuit_open))
unfolding before_request
open_start cb now h = ground arith

open_admits :
    (cb : CircuitBreaker) (es : List Event)
    → IsValid cb
    → cb.state ≡ open_circuit
    → all is_start es ≡ true
    → admitted cb es ≤ 1
unfolding admitted
open_admits cb [] v h s = omega arith
open_admits cb (starts t ∷ es) v h s =
    elim (Bool-cases (ltb_ℤ cb.reset_timeout (since t cb.last_fail_time))) [
      | inr early ↦ rw (open_start cb t h, early) (open_admits cb es v h s)
      | inl due ↦
          let cb' = record cb { state = half_open; half_open_calls = 1 } in
          let v' : IsValid cb' = ground (arith, v) in
          rw (open_start cb t h, due) (omega (arith, half_open_admits cb' es v' refl s))
    ]
open_admits cb (returns t err ∷ es) v h s = cc
open_admits cb (resets ∷ es) v h s = cc

admits_by :
    (cb : CircuitBreaker) (es : List Event) (s : CircuitState)
    → cb.state ≡ s
    → IsValid cb
    → is_closed s ≡ false
    → all is_start es ≡ true
    → admitted cb es ≤ (if is_half_open s then 0 else 1)
admits_by cb es closed e v h a = cc
admits_by cb es open_circuit e v h a = open_admits cb es v e a
admits_by cb es half_open e v h a = omega (arith, half_open_admits cb es v e a)

-- After any interleaving of calls and resets on a new breaker: once the circuit is not closed, and
-- until a call returns or the breaker is reset, the calls that ask to start, however many there are
-- and whenever they come, are let through at most once if the circuit is open, and never if it is
-- half open already.
pub one_probe_at_a_time :
    (n : ℕ) (d : Duration) (past es : List Event)
    → let cb = run (new_circuit_breaker n d) past in
      is_closed cb.state ≡ false
      → all is_start es ≡ true
      → admitted cb es ≤ (if is_half_open cb.state then 0 else 1)
one_probe_at_a_time n d past es h s =
    let cb = run (new_circuit_breaker n d) past in
    admits_by cb es cb.state refl (run-new_circuit_breaker-IsValid n d past) h s
