-- ===== src/Agent/Client/History.antt =====
-- cmd/daemon/main.go (runAgent) over internal/agent: the agent's loop is one goroutine, so its life
-- is a sequence of collected samples and flushes.
use mathlib.Core.List.{Sublistᴰ}
use mathlib.Core.List.{append_assoc, append-nil}
use sys_sentient.Agent.Spool.{peek, compaction_slack}
use sys_sentient.Agent.SpoolFile.{Codec, contents}
use sys_sentient.Agent.Spool.Format.{CodecLaws}
use sys_sentient.Agent.Spool.Buffer.{IsSpool, Encodable, no_faults}
use sys_sentient.Agent.Spool.Calls.{append_ok, trimmed, peek_takes}
use sys_sentient.Agent.Client.{Reply, Client, enqueue, flush}
use sys_sentient.Agent.Client.Delivery.{acknowledges, flush_lem}
use sys_sentient.Prelude.{
  Bool, true, false, not, ◌&&◌, ◌||◌, all, subst, sym, All, length-append, if◌then◌else◌,
  Bool-cases, Option-cases, length, take, take-append-drop, pos, nat_key, string_key, ℕ, suc, ◌+◌,
  ◌≤◌, ◌≡◌, refl, ap, ◌∙◌, inl, inr, none, some, List, [], ◌∷◌, ◌++◌, arith,
}

-- A flush with whether its push reached the server, and the reply that reached the agent: a reply can
-- be lost though the push arrived.
pub data AgentEvent (S : Type 0) : Type 0 where
  collected : S → AgentEvent S
  flushes : Bool → Reply → AgentEvent S

module _ {S : Type 0} (json : Codec S) where
  -- The batch that a flush posts.
  abbrev pub posted : Client → List S
  posted c = elim (peek json no_faults c.spool c.batch_size) [ none ↦ [] | some batch ↦ batch ]

  -- The client after the events.
  unfoldable pub run_agent : Client → List (AgentEvent S) → Client
  run_agent c [] = c
  run_agent c (collected s ∷ es) = run_agent (enqueue json no_faults c s).0 es
  run_agent c (flushes arrived r ∷ es) = run_agent (flush json no_faults no_faults c r).0 es

  -- What the events' pushes brought to the server, in order: every sample of each push that arrived,
  -- as often as it arrived.
  unfoldable pub received : Client → List (AgentEvent S) → List S
  received c [] = []
  received c (collected s ∷ es) = received (enqueue json no_faults c s).0 es
  received c (flushes arrived r ∷ es) =
      (if arrived then posted c else []) ++ received (flush json no_faults no_faults c r).0 es

  -- What was acknowledged to the agent, in order.
  unfoldable pub acknowledged : Client → List (AgentEvent S) → List S
  acknowledged c [] = []
  acknowledged c (collected s ∷ es) = acknowledged (enqueue json no_faults c s).0 es
  acknowledged c (flushes arrived r ∷ es) =
      (if acknowledges r then posted c else [])
      ++ acknowledged (flush json no_faults no_faults c r).0 es

  abbrev pub samples_of : List (AgentEvent S) → List S
  samples_of [] = []
  samples_of (collected s ∷ es) = s ∷ samples_of es
  samples_of (flushes arrived r ∷ es) = samples_of es

  -- The server answers a push only if the push has arrived.
  abbrev pub is_answered : AgentEvent S → Bool
  is_answered (collected s) = true
  is_answered (flushes arrived r) = not (acknowledges r) || arrived

  -- What arrived and was not acknowledged to the agent, so that it is posted again.
  unfoldable pub unheard : Client → List (AgentEvent S) → List S
  unheard c [] = []
  unheard c (collected s ∷ es) = unheard (enqueue json no_faults c s).0 es
  unheard c (flushes arrived r ∷ es) =
      (if arrived && not (acknowledges r) then posted c else [])
      ++ unheard (flush json no_faults no_faults c r).0 es

module _ {ℓ} {A : Type ℓ} where
  append-Sublist :
      (xs : List A) {fewer more : List A}
      → Sublistᴰ fewer more
      → Sublistᴰ (xs ++ fewer) (xs ++ more)
  append-Sublist [] h = h
  append-Sublist (x ∷ xs) h = Sublistᴰ.cons-cons refl (append-Sublist xs h)

  skip-Sublist :
      (xs : List A) {fewer more : List A} → Sublistᴰ fewer more → Sublistᴰ fewer (xs ++ more)
  skip-Sublist [] h = h
  skip-Sublist (x ∷ xs) h = Sublistᴰ.cons (skip-Sublist xs h)

module _ {S : Type 0} (json : Codec S) (laws : CodecLaws json) where
  enqueue_keeps :
      (c : Client) (s : S)
      → Encodable json s
      → IsSpool json c.spool
      → length (contents json (c.spool).file ++ s ∷ [])
        ≤ (c.spool).capacity + compaction_slack (c.spool).capacity
      → let c' = (enqueue json no_faults c s).0 in
        (contents json (c'.spool).file ≡ contents json (c.spool).file ++ s ∷ [])
        × IsSpool json c'.spool
        × ((c'.spool).capacity ≡ (c.spool).capacity)
        × (c'.batch_size ≡ c.batch_size)
  unfolding enqueue
  enqueue_keeps c s enc v fits = elim (Option-cases (json.encode s)) [
    | inl q ↦ absurd (ground (arith, enc))
    | inr (line, q) ↦
        let h = append_ok json laws c.spool s line q v in
        let all_of : trimmed (c.spool).capacity (contents json (c.spool).file ++ s ∷ [])
            ≡ contents json (c.spool).file ++ s ∷ [] =
          ground arith in
        (h.holds ∙ all_of, h.spool, h.same_capacity, refl)
  ]

  flush_batch_size :
      (c : Client) (r : Reply) → ((flush json no_faults no_faults c r).0).batch_size ≡ c.batch_size
  unfolding flush
  flush_batch_size c r = ground arith

  -- What a flush acknowledges and what it leaves are what there was.
  flush_splits :
      (c : Client) (b : ℕ) (r : Reply)
      → c.batch_size ≡ pos (suc b)
      → IsSpool json c.spool
      → (if acknowledges r then posted json c else [])
          ++ contents json (((flush json no_faults no_faults c r).0).spool).file
        ≡ contents json (c.spool).file
  flush_splits c b r e v =
      let ss = contents json (c.spool).file in
      let left = (flush_lem json laws c b r e v).0 in
      let peeked : peek json no_faults c.spool c.batch_size ≡ some (take (suc b) ss) =
        ap (peek json no_faults c.spool) e ∙ peek_takes json laws c.spool b in
      rw left (elim (Bool-cases (acknowledges r)) [
        | inr t ↦ rw t refl
        | inl t ↦
            let batch : posted json c ≡ take (suc b) ss =
              ap (λ o. elim o [ none ↦ [] | some xs ↦ xs ]) peeked in
            rw (t, batch) (take-append-drop (suc b) ss)
      ])

  length-regroup :
      (xs ys : List S) (s : S) → length (xs ++ s ∷ []) + length ys ≡ length xs + suc (length ys)
  length-regroup xs ys s = omega (arith, length-append xs (s ∷ []))

  length-flush : (xs ys zs : List S) → xs ++ ys ≡ zs → length ys ≤ length zs
  length-flush xs ys zs e = omega (arith, ap length e, length-append xs ys)

  run_agent_conserves :
      (c : Client) (b : ℕ) (es : List (AgentEvent S))
      → c.batch_size ≡ pos (suc b)
      → IsSpool json c.spool
      → All (Encodable json) (samples_of json es)
      → length (contents json (c.spool).file) + length (samples_of json es)
        ≤ (c.spool).capacity + compaction_slack (c.spool).capacity
      → acknowledged json c es ++ contents json ((run_agent json c es).spool).file
        ≡ contents json (c.spool).file ++ samples_of json es
  unfolding run_agent acknowledged
  run_agent_conserves c b [] e v enc fits = sym (append-nil _)
  run_agent_conserves c b (collected s ∷ es) e v enc fits =
      let ss = contents json (c.spool).file in
      let rest = samples_of json es in
      let c' = (enqueue json no_faults c s).0 in
      let kept = enqueue_keeps c s enc.0 v (omega (arith, length-append ss (s ∷ []))) in
      let fits' : length (contents json (c'.spool).file) + length rest
          ≤ (c'.spool).capacity + compaction_slack (c'.spool).capacity =
        subst (λ k. length (contents json (c'.spool).file) + length rest ≤ k + compaction_slack k)
          (sym kept.2) (omega (arith, ap length kept.0, length-regroup ss rest s)) in
      run_agent_conserves c' b es (kept.3 ∙ e) kept.1 enc.1 fits'
      ∙ ap (λ xs. xs ++ rest) kept.0
      ∙ append_assoc ss (s ∷ []) rest
  run_agent_conserves c b (flushes arrived r ∷ es) e v enc fits =
      let ss = contents json (c.spool).file in
      let rest = samples_of json es in
      let c' = (flush json no_faults no_faults c r).0 in
      let ss' = contents json (c'.spool).file in
      let told = flush_lem json laws c b r e v in
      let taken = if acknowledges r then posted json c else [] in
      let splits = flush_splits c b r e v in
      let fits' : length ss' + length rest
          ≤ (c'.spool).capacity + compaction_slack (c'.spool).capacity =
        subst (λ k. length ss' + length rest ≤ k + compaction_slack k) (sym told.2)
          (omega (arith, length-flush taken ss' ss splits)) in
      append_assoc taken _ _
      ∙ ap (λ xs. taken ++ xs)
          (run_agent_conserves c' b es (flush_batch_size c r ∙ e) told.1 enc fits')
      ∙ sym (append_assoc taken ss' rest)
      ∙ ap (λ xs. xs ++ rest) splits

  acknowledged-Sublist :
      (c : Client) (es : List (AgentEvent S))
      → all (is_answered json) es ≡ true
      → Sublistᴰ (acknowledged json c es) (received json c es)
  unfolding acknowledged received
  acknowledged-Sublist c [] a = Sublistᴰ.slnil
  acknowledged-Sublist c (collected s ∷ es) a =
      acknowledged-Sublist (enqueue json no_faults c s).0 es a
  acknowledged-Sublist c (flushes true r ∷ es) a =
      let rest = acknowledged-Sublist (flush json no_faults no_faults c r).0 es (ground arith) in
      elim (Bool-cases (acknowledges r)) [
        | inl t ↦ rw t (append-Sublist (posted json c) rest)
        | inr f ↦ rw f (skip-Sublist (posted json c) rest)
      ]
  acknowledged-Sublist c (flushes false r ∷ es) a =
      let rest = acknowledged-Sublist (flush json no_faults no_faults c r).0 es (ground arith) in
      elim (Bool-cases (acknowledges r)) [ inl t ↦ absurd (ground arith) | inr f ↦ rw f rest ]

  length-received :
      (c : Client) (es : List (AgentEvent S))
      → all (is_answered json) es ≡ true
      → length (received json c es) ≡ length (acknowledged json c es) + length (unheard json c es)
  unfolding acknowledged received unheard
  length-received c [] a = refl
  length-received c (collected s ∷ es) a = length-received (enqueue json no_faults c s).0 es a
  length-received c (flushes arrived r ∷ es) a =
      let c' = (flush json no_faults no_faults c r).0 in
      let batch = posted json c in
      ground (
        arith,
        length-received c' es,
        length-append batch (received json c' es),
        length-append batch (acknowledged json c' es),
        length-append batch (unheard json c' es),
      )

  -- Let there be no file faults, a positive batch size, and a spool of lines with the right count; let every
  -- sample that is collected be one that can be encoded, and the samples at the start and those collected
  -- fit the capacity and its slack. Then over any sequence of collected samples and flushes in which no
  -- push is acknowledged that did not arrive: the samples that
  -- were acknowledged to the agent and those still spooled are together the samples at the start and
  -- those collected, in order, each once. What the server received holds all that were acknowledged,
  -- in order, and is longer by just the pushes that arrived and were not acknowledged.
  pub run_agent_delivers :
      (c : Client) (b : ℕ) (es : List (AgentEvent S))
      → c.batch_size ≡ pos (suc b)
      → IsSpool json c.spool
      → All (Encodable json) (samples_of json es)
      → length (contents json (c.spool).file) + length (samples_of json es)
        ≤ (c.spool).capacity + compaction_slack (c.spool).capacity
      → all (is_answered json) es ≡ true
      → (acknowledged json c es ++ contents json ((run_agent json c es).spool).file
          ≡ contents json (c.spool).file ++ samples_of json es)
        × Sublistᴰ (acknowledged json c es) (received json c es)
        × (length (received json c es)
            ≡ length (acknowledged json c es) + length (unheard json c es))
  run_agent_delivers c b es e v enc fits answered = (
    run_agent_conserves c b es e v enc fits,
    acknowledged-Sublist c es answered,
    length-received c es answered,
  )
