-- ===== src/Auth/Setup.antt =====
-- internal/auth/setup.go: the one-time token of the first run. `Consume` holds the lock, so it is one
-- step.
use sys_sentient.Prelude.{
  if◌then◌else◌, any, ◌==◌, nat_key, string_key, ℕ, ◌+◌, String, ◌≡◌, refl, Bool, true, false, not,
  ◌&&◌, List, [], ◌∷◌, arith,
}

pub record SetupToken : Type 0 where
  pub value : String
  pub consumed : Bool

unfoldable pub new_setup_token : String → SetupToken
new_setup_token v = record { value = v; consumed = false }

unfoldable pub consume : SetupToken → String → SetupToken × Bool
consume t candidate =
    if t.consumed
    then (t, false)
    else if not (candidate == t.value)
    then (t, false)
    else (record t { consumed = true }, true)

-- Attempts one after the other, and how many of them succeed.
unfoldable pub consume_all : SetupToken → List String → ℕ
consume_all t [] = 0
consume_all t (c ∷ cs) =
    let (t', done) = consume t c in let rest = consume_all t' cs in (if done then 1 else 0) + rest

consumed_stays : (t : SetupToken) (cs : List String) → t.consumed ≡ true → consume_all t cs ≡ 0
unfolding consume_all consume
consumed_stays t [] h = refl
consumed_stays t (c ∷ cs) h = ground (arith, consumed_stays t cs)

-- However many candidates are tried, from any state of the token, at most one succeeds, and none if
-- the token is not among them.
pub consume_all_lem :
    (t : SetupToken) (cs : List String)
    → consume_all t cs ≡ (if not t.consumed && any (λ c. c == t.value) cs then 1 else 0)
unfolding consume_all consume
consume_all_lem t [] = ground arith
consume_all_lem t (c ∷ cs) =
    ground (arith, consume_all_lem t cs, consumed_stays (record t { consumed = true }) cs refl)
