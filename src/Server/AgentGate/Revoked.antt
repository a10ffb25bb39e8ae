-- ===== src/Server/AgentGate/Revoked.antt =====
-- internal/server/agent_handlers.go with storage/agents.go: whom the gate of the ingest lets through.
use sys_sentient.Storage.Fleet.{Fleet, Agent, agent_by_key, revoke_agent}
use sys_sentient.Storage.Fleet.History.{FleetCall, calls, withdrawn}
use sys_sentient.Storage.Fleet.Revocation.{withdrawn-calls, revoke_agent_withdraws}
use sys_sentient.Auth.Password.{Crypto}
use sys_sentient.Server.Sessions.{Request, api_key_from, valid_api_key}
use sys_sentient.Server.AgentGate.{passes, refuses, authenticate_agent}
use sys_sentient.Prelude.{
  Option-cases, is_some, ◌==◌, nat_key, string_key, lookup, Time, String, ◌≡◌, ◌⊎◌, inl, inr, Bool,
  true, false, Option, none, some, List, arith,
}

module _ (crypto : Crypto) where
  withdrawn_refused :
      (shared : String) (db : Fleet) (r : Request)
      → (api_key_from r == "") ≡ false
      → withdrawn (lookup (crypto.sha256 (api_key_from r)) db.agents) ≡ true
      → authenticate_agent crypto true false shared db r ≡ refuses 403
  unfolding authenticate_agent agent_by_key
  withdrawn_refused shared db r visible w = ground arith

  -- Once an agent has been revoked, every request with its key is refused with 403 where the table can
  -- be read and the console is not open, whatever calls follow the revocation, and even if the key is
  -- the shared key as well.
  pub authenticate_agent_revoked :
      (shared : String) (db : Fleet) (cs : List FleetCall) (a : Agent) (now : Time) (r : Request)
      → (api_key_from r == "") ≡ false
      → lookup (crypto.sha256 (api_key_from r)) db.agents ≡ some a
      → (revoke_agent true db a.id now).1 ≡ none
      → authenticate_agent crypto true false shared (calls (revoke_agent true db a.id now).0 cs) r
        ≡ refuses 403
  authenticate_agent_revoked shared db cs a now r visible e done =
      let key = crypto.sha256 (api_key_from r) in
      let db' = (revoke_agent true db a.id now).0 in
      withdrawn_refused shared (calls db' cs) r visible
        (withdrawn-calls db' cs key (revoke_agent_withdraws db key a now e done))

  -- Whether or not the table can be read, the gate of a console that is not open lets a request through
  -- only with a key that is not empty, and either as the agent whose row the key's hash names, whose
  -- credential holds, or with the shared key.
  pub authenticate_agent_passes :
      (up : Bool) (shared : String) (db : Fleet) (r : Request) (o : Option Agent)
      → authenticate_agent crypto up false shared db r ≡ passes o
      → ((api_key_from r == "") ≡ false)
        × (withdrawn o ≡ false)
        × (((o ≡ lookup (crypto.sha256 (api_key_from r)) db.agents) × (is_some o ≡ true))
            ⊎ ((o ≡ none) × (valid_api_key crypto shared (api_key_from r) ≡ true)))
  unfolding authenticate_agent agent_by_key
  authenticate_agent_passes up shared db r o h =
      elim (Option-cases (lookup (crypto.sha256 (api_key_from r)) db.agents)) [
        | inl e ↦ ground arith
        | inr (a, e) ↦ ground arith
      ]
