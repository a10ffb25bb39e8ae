-- ===== src/Agent/Client.antt =====
-- internal/agent/agent.go: the push client. The exchange over HTTP is an argument: what the server
-- answered, or that no answer came.
pub mod Delivery
pub mod History
use sys_sentient.Agent.Spool.{Faults, Spool, SpoolError, append, peek, commit, len}
use sys_sentient.Agent.SpoolFile.{Codec}
use sys_sentient.Prelude.{
  ltb, leb, if◌then◌else◌, length, ℤ, pos, ltb_ℤ, ◌==◌, nat_key, string_key, before, ℕ, ◌||◌,
  Option, none, some, List, [], ◌∷◌, arith,
}

pub data Reply : Type 0 where
  no_answer : Reply
  answer : ℕ → Option ℕ → Reply  -- the status, and `accepted` if the body can be read

pub data PushError : Type 0 where
  transport_failed credential_revoked credential_rejected : PushError
  server_status : ℕ → PushError

pub data FlushError : Type 0 where
  read_spool : FlushError
  push_error : PushError → FlushError
  commit_spool : SpoolError → FlushError

pub record Client : Type 0 where
  pub spool : Spool
  pub batch_size : ℤ

-- `New`: the batch size if it is positive, and 60 otherwise.
unfoldable pub new_client : Spool → ℤ → Client
new_client spool batch_size = record {
  spool = spool;
  batch_size = if ltb_ℤ batch_size (pos 1) then pos 60 else batch_size;
}

-- The status checks of `push`, on a batch of `sent` samples: an error, or how many were accepted.
unfoldable pub push_status : ℕ → ℕ → Option ℕ → Option PushError × ℕ
push_status sent status accepted =
    if status == 403
    then (some credential_revoked, 0)
    else if status == 401
    then (some credential_rejected, 0)
    else if ltb status 200 || leb 300 status
    then (some (server_status status), 0)
    else elim accepted [ none ↦ (none, sent) | some n ↦ (none, n) ]

unfoldable pub push : ℕ → Reply → Option PushError × ℕ
unfolding push_status
push sent no_answer = (some transport_failed, 0)
push sent (answer status accepted) = push_status sent status accepted

module _ {S : Type 0} (json : Codec S) where
  unfoldable pub enqueue : Faults → Client → S → Client × Option SpoolError
  enqueue f c sample =
      let (sp, failure) = append json f c.spool sample in (record c { spool = sp }, failure)

  -- The batch is retired once the server has answered for it.
  retire : Faults → Client → ℕ → Client × Option FlushError
  retire f c n =
      let (sp, failure) = commit json f c.spool (pos n) in
      (record c { spool = sp }, elim failure [ none ↦ none | some e ↦ some (commit_spool e) ])

  deliver : Faults → Client → List S → Reply → Client × Option FlushError
  unfolding retire push
  deliver f c [] reply = (c, none)
  deliver f c (s ∷ ss) reply = elim (push (length (s ∷ ss)) reply).0 [
    | some e ↦ (c, some (push_error e))
    | none ↦ retire f c (length (s ∷ ss))
  ]

  -- `before` are the faults of the peek, and `behind` those of the commit.
  unfoldable pub flush : Faults → Faults → Client → Reply → Client × Option FlushError
  unfolding deliver
  flush before behind c reply = elim (peek json before c.spool c.batch_size) [
    | none ↦ (c, some read_spool)
    | some batch ↦ deliver behind c batch reply
  ]

  unfoldable pub pending_samples : Faults → Client → ℕ
  pending_samples f c = elim (len json f c.spool) [ none ↦ 0 | some n ↦ n ]
