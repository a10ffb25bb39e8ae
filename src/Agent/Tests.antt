-- ===== src/Agent/Tests.antt =====
-- internal/agent: a spool of Booleans in the place of samples, and the theorems at it.
use mathlib.Core.List.{Sublistᴰ}
use sys_sentient.Agent.Spool.{Spool, known_count}
use sys_sentient.Agent.SpoolFile.{Codec, contents, starts_array}
use sys_sentient.Agent.Spool.Format.{CodecLaws}
use sys_sentient.Agent.Spool.Buffer.{IsSpool}
use sys_sentient.Agent.Client.{Client, no_answer, answer}
use sys_sentient.Agent.Client.History.{
  AgentEvent, collected, flushes, run_agent, received, acknowledged, unheard, run_agent_delivers,
}
use sys_sentient.Prelude.{
  length, ◌+◌, if◌then◌else◌, leb→le, is_some, pos, ◌==◌, nat_key, string_key, ℕ, ◌≡◌, refl, ◌⊎◌,
  inl, inr, Bool, true, false, Option, none, some, List, [], ◌∷◌, ◌++◌, arith,
}

-- `t` and `f`.
abbrev encode_bool : Bool → Option (List ℕ)
encode_bool true = some (116 ∷ [])
encode_bool false = some (102 ∷ [])

abbrev decode_bool : List ℕ → Option Bool
decode_bool [] = none
decode_bool (c ∷ []) = if c == 116 then some true else if c == 102 then some false else none
decode_bool (c ∷ d ∷ rest) = none

abbrev bools : Codec Bool
bools = record { encode = encode_bool; decode = decode_bool; decode_array = λ raw. none }

bools_encodable :
    (l : List ℕ) (s : Bool) → bools.decode l ≡ some s → is_some (bools.encode s) ≡ true
bools_encodable l true h = refl
bools_encodable l false h = refl

bools_text : (s : Bool) (l : List ℕ) → bools.encode s ≡ some l → (l ≡ 116 ∷ []) ⊎ (l ≡ 102 ∷ [])
bools_text true l h = inl (ground arith)
bools_text false l h = inr (ground arith)

bools_no_array :
    (s : Bool) (l rest : List ℕ) → bools.encode s ≡ some l → starts_array (l ++ rest) ≡ false
unfolding starts_array
bools_no_array s l rest h = elim (bools_text s l h) [ inl e ↦ rw e refl | inr e ↦ rw e refl ]

bools_decodes : (s : Bool) (l : List ℕ) → bools.encode s ≡ some l → bools.decode l ≡ some s
bools_decodes true l h = ground arith
bools_decodes false l h = ground arith

bools-CodecLaws : CodecLaws bools
bools-CodecLaws = record {
  one_line = λ s l h. elim (bools_text s l h) [ inl e ↦ rw e refl | inr e ↦ rw e refl ];
  visible = λ s l h. elim (bools_text s l h) [ inl e ↦ rw e refl | inr e ↦ rw e refl ];
  no_array = bools_no_array;
  encodable = bools_encodable;
  decodes = bools_decodes;
}

-- Two samples, and a third cut off by a crash.
abbrev torn : Spool
torn = record { capacity = 2; count = none; file = some (116 ∷ 10 ∷ 102 ∷ 10 ∷ 120 ∷ []) }

torn-IsSpool : IsSpool bools torn
unfolding starts_array known_count
torn-IsSpool = record { lines = refl; counted = refl }

abbrev torn_client : Client
torn_client = record { spool = torn; batch_size = pos 2 }

abbrev roomy_client : Client
roomy_client = record { spool = record torn { capacity = 100 }; batch_size = pos 2 }

-- One reply is lost after its push arrived, one push is refused, and the last is acknowledged.
abbrev agent_events : List (AgentEvent Bool)
agent_events =
    collected true
    ∷ flushes true no_answer
    ∷ flushes true (answer 503 none)
    ∷ collected false
    ∷ flushes true (answer 200 (some 2))
    ∷ []

run_agent_delivers_example :
    (acknowledged bools roomy_client agent_events
        ++ contents bools ((run_agent bools roomy_client agent_events).spool).file
      ≡ contents bools torn.file ++ true ∷ false ∷ [])
    × Sublistᴰ
        (acknowledged bools roomy_client agent_events)
        (received bools roomy_client agent_events)
    × (length (received bools roomy_client agent_events)
        ≡ length (acknowledged bools roomy_client agent_events)
          + length (unheard bools roomy_client agent_events))
unfolding starts_array known_count
run_agent_delivers_example =
    run_agent_delivers bools bools-CodecLaws roomy_client 1 agent_events refl
      (record { lines = refl; counted = refl }) (refl, (refl, tt)) (leb→le 4 110 refl) refl
