-- ===== src/Ai/Tests.antt =====
-- internal/ai/circuit_breaker.go: runs of the breaker, and the theorems at them.
use sys_sentient.Ai.CircuitBreaker.{
  CircuitBreaker, before_request, after_request, new_circuit_breaker,
}
use sys_sentient.Ai.CircuitBreaker.Concurrent.{
  Event, starts, returns, run, step, admitted, one_probe_at_a_time,
}
use sys_sentient.Prelude.{
  pos, nat_key, string_key, minute, hour, ◌*◌, ◌≤◌, ◌≡◌, refl, true, List, [], ◌∷◌,
}

-- Two calls that fail, on a breaker that opens after two failures.
abbrev two_failures : List Event
two_failures = starts hour ∷ returns hour true ∷ starts hour ∷ returns hour true ∷ []

-- Refused at first, then the probe, and a call beside it.
abbrev three_calls : List Event
three_calls = starts hour ∷ starts (2 * hour) ∷ starts (2 * hour) ∷ []

tripped : CircuitBreaker
tripped = run (new_circuit_breaker 2 (pos minute)) two_failures

three_calls_probe : admitted tripped three_calls ≡ 1
unfolding tripped run before_request after_request new_circuit_breaker admitted step
three_calls_probe = refl

one_probe_at_a_time_example :
    admitted (run (new_circuit_breaker 2 (pos minute)) two_failures) three_calls ≤ 1
unfolding run before_request after_request new_circuit_breaker step
one_probe_at_a_time_example = one_probe_at_a_time 2 (pos minute) two_failures three_calls refl refl
