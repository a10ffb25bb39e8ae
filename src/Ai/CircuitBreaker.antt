-- ===== src/Ai/CircuitBreaker.antt =====
-- internal/ai/circuit_breaker.go: the circuit breaker round the AI service. Each method holds the
-- lock from entry to exit, so it is one step; `Execute` is two steps with the call between them.
-- `failures` and the limits are non-negative ints that do not overflow.
pub mod Recovery
pub mod Concurrent
use sys_sentient.Prelude.{
  ltb, leb, if◌then◌else◌, ltb_ℤ, ◌==◌, nat_key, string_key, Time, Duration, since, ℕ, ◌+◌, ◌≡◌,
  Bool, true, false, not, ◌&&◌, ◌||◌, Option, none, some, arith,
}

pub data CircuitState : Type 0 where
  closed open_circuit half_open : CircuitState

pub record CircuitBreaker : Type 0 where
  pub max_failures : ℕ
  pub reset_timeout : Duration
  pub half_open_max_calls : ℕ
  pub state : CircuitState
  pub failures : ℕ
  pub last_fail_time : Time
  pub half_open_calls : ℕ

pub data Refusal : Type 0 where
  circuit_open too_many_requests : Refusal

unfoldable pub new_circuit_breaker : ℕ → Duration → CircuitBreaker
new_circuit_breaker max_failures reset_timeout = record {
  max_failures = max_failures;
  reset_timeout = reset_timeout;
  half_open_max_calls = 1;
  state = closed;
  failures = 0;
  last_fail_time = 0;
  half_open_calls = 0;
}

before_by : CircuitState → CircuitBreaker → Time → CircuitBreaker × Option Refusal
before_by open_circuit cb now =
    if ltb_ℤ cb.reset_timeout (since now cb.last_fail_time)
    then (record cb { state = half_open; half_open_calls = 1 }, none)
    else (cb, some circuit_open)
before_by half_open cb now =
    if leb cb.half_open_max_calls cb.half_open_calls
    then (cb, some too_many_requests)
    else (record cb { half_open_calls = cb.half_open_calls + 1 }, none)
before_by closed cb now = (cb, none)

unfoldable pub before_request : CircuitBreaker → Time → CircuitBreaker × Option Refusal
unfolding before_by
before_request cb now = before_by cb.state cb now

abbrev pub is_half_open : CircuitState → Bool
is_half_open half_open = true
is_half_open _ = false

-- `failed` is whether the call returned an error.
unfoldable pub after_request : CircuitBreaker → Time → Bool → CircuitBreaker
after_request cb now true =
    let cb' = record cb { failures = cb.failures + 1; last_fail_time = now } in
    if is_half_open cb.state
    then record cb' { state = open_circuit; half_open_calls = 0 }
    else if leb cb.max_failures (cb.failures + 1)
    then record cb' { state = open_circuit }
    else cb'
after_request cb now false =
    if is_half_open cb.state
    then record cb { state = closed; failures = 0; half_open_calls = 0 }
    else record cb { failures = 0 }

unfoldable pub reset : CircuitBreaker → CircuitBreaker
reset cb = record cb { state = closed; failures = 0; half_open_calls = 0 }

pub data CallError (E : Type 0) : Type 0 where
  refused : Refusal → CallError E
  failed : E → CallError E

-- `fn` is called only if the breaker admits the call; it returns `err`, and `now` and `later` are
-- the instants before and after it.
module _ {E : Type 0} where
  finish : CircuitBreaker → Time → Option E → CircuitBreaker × Option (CallError E)
  finish cb later none = (after_request cb later false, none)
  finish cb later (some err) = (after_request cb later true, some (failed err))

  unfoldable pub execute :
      CircuitBreaker → Time → Time → Option E → CircuitBreaker × Option (CallError E)
  unfolding before_request after_request finish
  execute cb now later err =
      let (cb', refusal) = before_request cb now in
      elim refusal [ some r ↦ (cb', some (refused r)) | none ↦ finish cb' later err ]

abbrev pub is_closed : CircuitState → Bool
is_closed closed = true
is_closed _ = false

-- What holds between two steps: a probe is counted exactly while the circuit is half open, and a
-- closed circuit counts no failures or fewer than its limit.
pub record IsValid (cb : CircuitBreaker) : Type 0 where
  pub one_probe : cb.half_open_max_calls ≡ 1
  pub probing : cb.half_open_calls ≡ (if is_half_open cb.state then 1 else 0)
  pub counting :
      (is_closed cb.state && not (cb.failures == 0 || ltb cb.failures cb.max_failures)) ≡ false
