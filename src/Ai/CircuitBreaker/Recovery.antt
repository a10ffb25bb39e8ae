-- ===== src/Ai/CircuitBreaker/Recovery.antt =====
-- internal/ai/circuit_breaker.go: when the circuit opens, and how it closes again.
use sys_sentient.Prelude.{
  ltb, if◌then◌else◌, ltb→lt, lt→ltb, Bool-cases, pos, ltb_ℤ, nat_key, string_key, Time, since, ℕ,
  ◌+◌, ◌≤◌, ◌<◌, max, ◌≡◌, refl, sym, subst, inl, inr, Bool, true, false, Option, none, some, List,
  [], ◌∷◌, arith,
}
use sys_sentient.Ai.CircuitBreaker.{
  CircuitBreaker, closed, open_circuit, circuit_open, execute, CallError, refused, failed,
}

abbrev pub IsClosedOrOpen : CircuitBreaker → Bool → Type 0
IsClosedOrOpen cb true = cb.state ≡ closed
IsClosedOrOpen cb false = cb.state ≡ open_circuit

execute_ok :
    (E : Type 0) (cb : CircuitBreaker) (now : Time)
    → cb.state ≡ closed
    → (execute {E = E} cb now now none).0 ≡ record cb { failures = 0 }
unfolding execute
execute_ok E cb now h = ground arith

ltb-max : (n l m : ℕ) → n < m → ltb (max n l) m ≡ ltb l m
ltb-max n l m h = ground arith

module _ {E : Type 0} where
  -- Calls one after the other, all at one instant; `some` is an error that the call returned.
  unfoldable pub execute_all : CircuitBreaker → Time → List (Option E) → CircuitBreaker
  execute_all cb now [] = cb
  execute_all cb now (r ∷ rs) = execute_all (execute cb now now r).0 now rs

  -- The greatest number of failures in a row, with `n` failures just before the list.
  unfoldable pub longest_run : ℕ → List (Option E) → ℕ
  longest_run n [] = n
  longest_run n (none ∷ rs) = max n (longest_run 0 rs)
  longest_run n (some err ∷ rs) = longest_run (n + 1) rs

  le-longest_run : (n : ℕ) (rs : List (Option E)) → n ≤ longest_run n rs
  unfolding longest_run
  le-longest_run n [] = omega arith
  le-longest_run n (none ∷ rs) = omega arith
  le-longest_run n (some err ∷ rs) = omega (arith, le-longest_run (n + 1) rs)

  execute_open :
      (cb : CircuitBreaker) (now : Time) (r : Option E)
      → cb.state ≡ open_circuit
      → cb.last_fail_time ≡ now
      → ltb_ℤ cb.reset_timeout (pos 0) ≡ false
      → execute cb now now r ≡ (cb, some (refused circuit_open))
  unfolding execute
  execute_open cb now r h t d = ground arith

  execute_all_open :
      (cb : CircuitBreaker) (now : Time) (rs : List (Option E))
      → cb.state ≡ open_circuit
      → cb.last_fail_time ≡ now
      → ltb_ℤ cb.reset_timeout (pos 0) ≡ false
      → execute_all cb now rs ≡ cb
  unfolding execute_all
  execute_all_open cb now [] h t d = refl
  execute_all_open cb now (r ∷ rs) h t d =
      rw (execute_open cb now r h t d) (execute_all_open cb now rs h t d)

  execute_failed :
      (cb : CircuitBreaker) (now : Time) (err : E)
      → cb.state ≡ closed
      → cb.failures + 1 < cb.max_failures
      → (execute cb now now (some err)).0
        ≡ record cb { failures = cb.failures + 1; last_fail_time = now }
  unfolding execute
  execute_failed cb now err h lt = ground arith

  execute_trips :
      (cb : CircuitBreaker) (now : Time) (err : E)
      → cb.state ≡ closed
      → cb.max_failures ≤ cb.failures + 1
      → (execute cb now now (some err)).0
        ≡ record cb { failures = cb.failures + 1; last_fail_time = now; state = open_circuit }
  unfolding execute
  execute_trips cb now err h le = ground arith

  execute_all_counts :
      (cb : CircuitBreaker) (now : Time) (n : ℕ) (rs : List (Option E))
      → cb.state ≡ closed
      → cb.failures ≡ n
      → n < cb.max_failures
      → ltb_ℤ cb.reset_timeout (pos 0) ≡ false
      → IsClosedOrOpen (execute_all cb now rs) (ltb (longest_run n rs) cb.max_failures)
  unfolding execute_all longest_run
  execute_all_counts cb now n [] h f lt d = rw (lt→ltb n cb.max_failures lt) h
  execute_all_counts cb now n (none ∷ rs) h f lt d =
      let cb' = record cb { failures = 0 } in
      subst (IsClosedOrOpen (execute_all (execute cb now now none).0 now rs))
        (sym (ltb-max n (longest_run 0 rs) cb.max_failures lt))
        (rw (execute_ok E cb now h) (execute_all_counts cb' now 0 rs h refl (omega arith) d))
  execute_all_counts cb now n (some err ∷ rs) h f lt d =
      elim (Bool-cases (ltb (n + 1) cb.max_failures)) [
        | inl more ↦
            let cb' = record cb { failures = cb.failures + 1; last_fail_time = now } in
            rw (execute_failed cb now err h (ground arith))
              (execute_all_counts cb' now (n + 1) rs h (omega arith) (ltb→lt _ _ more) d)
        | inr last ↦
            let cb' = record cb {
              failures = cb.failures + 1;
              last_fail_time = now;
              state = open_circuit;
            } in
            rw (execute_trips cb now err h (ground arith)) (
              rw (execute_all_open cb' now rs refl refl d) (
                let long : ltb (longest_run (n + 1) rs) cb.max_failures ≡ false =
                  ground (arith, le-longest_run (n + 1) rs) in
                rw long refl))
      ]

  -- Calls made one after the other within the reset timeout, from a closed circuit with no failures
  -- counted: the circuit ends open if they hold `max_failures` failures in a row, and it ends closed
  -- if they do not.
  pub execute_all_trips :
      (cb : CircuitBreaker) (now : Time) (rs : List (Option E))
      → cb.state ≡ closed
      → cb.failures ≡ 0
      → 0 < cb.max_failures
      → ltb_ℤ cb.reset_timeout (pos 0) ≡ false
      → IsClosedOrOpen (execute_all cb now rs) (ltb (longest_run 0 rs) cb.max_failures)
  execute_all_trips cb now rs h f lt d = execute_all_counts cb now 0 rs h f lt d

  -- What a probe leaves: a success closes the circuit, and a failure opens it again from its end.
  abbrev pub probed : CircuitBreaker → Time → Option E → CircuitBreaker × Option (CallError E)
  probed cb later none = (record cb { state = closed; failures = 0; half_open_calls = 0 }, none)
  probed cb later (some err) = (
    record cb {
      state = open_circuit;
      failures = cb.failures + 1;
      last_fail_time = later;
      half_open_calls = 0;
    },
    some (failed err),
  )

  -- An open circuit refuses every call until more than the reset timeout has passed since the last
  -- failure, and leaves the breaker as it was; then it lets one call through, whose success closes
  -- the circuit with no failures counted and whose failure opens it for a new timeout from its end.
  pub execute_open_circuit :
      (cb : CircuitBreaker) (now later : Time) (r : Option E)
      → cb.state ≡ open_circuit
      → execute cb now later r ≡ (
          if ltb_ℤ cb.reset_timeout (since now cb.last_fail_time)
          then probed cb later r
          else (cb, some (refused circuit_open)))
  unfolding execute
  execute_open_circuit cb now later none h = ground arith
  execute_open_circuit cb now later (some err) h = ground arith
