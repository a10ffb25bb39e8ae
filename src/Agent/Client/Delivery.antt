-- ===== src/Agent/Client/Delivery.antt =====
-- internal/agent/agent.go: what a flush does to the spool. Samples leave it only once the server has
-- acknowledged them.
use sys_sentient.Agent.Spool.{peek}
use sys_sentient.Agent.SpoolFile.{Codec, contents}
use sys_sentient.Agent.Spool.Format.{CodecLaws}
use sys_sentient.Agent.Spool.Buffer.{IsSpool, no_faults}
use sys_sentient.Agent.Spool.Calls.{peek_takes, commit-Holds}
use sys_sentient.Agent.Client.{
  Reply, no_answer, answer, FlushError, Client, push, flush, deliver, retire,
}
use sys_sentient.Prelude.{
  ltb, leb, if◌then◌else◌, Bool-cases, Option-cases, is_some, length, take, drop, pos, nat_key,
  string_key, ℕ, zero, suc, ◌≡◌, refl, ap, subst, ◌∙◌, inl, inr, Bool, true, false, not, ◌&&◌,
  Option, some, List, [], ◌∷◌, arith,
}

-- The agent is told that the server has the batch: any status of the two hundreds.
abbrev pub acknowledges : Reply → Bool
acknowledges no_answer = false
acknowledges (answer status accepted) = leb 200 status && ltb status 300

push-acknowledges : (n : ℕ) (r : Reply) → is_some (push n r).0 ≡ not (acknowledges r)
unfolding push
push-acknowledges n no_answer = refl
push-acknowledges n (answer status accepted) = ground arith

drop-length-take {ℓ} : {A : Type ℓ} (n : ℕ) (xs : List A) → drop (length (take n xs)) xs ≡ drop n xs
drop-length-take zero xs = refl
drop-length-take (suc n) [] = refl
drop-length-take (suc n) (x ∷ xs) = drop-length-take n xs

module _ {S : Type 0} (json : Codec S) where
  -- What a delivery makes of the spool: the samples left, in a spool as good as before.
  abbrev pub Leaves : Client → List S → Client × Option FlushError → Type 0
  Leaves c ss r =
      (contents json ((r.0).spool).file ≡ ss)
      × IsSpool json (r.0).spool
      × (((r.0).spool).capacity ≡ (c.spool).capacity)

module _ {S : Type 0} (json : Codec S) (laws : CodecLaws json) where
  retire-Leaves :
      (c : Client) (n : ℕ)
      → IsSpool json c.spool
      → Leaves json c (drop n (contents json (c.spool).file)) (retire json no_faults c n)
  unfolding retire
  retire-Leaves c n v =
      let h = commit-Holds json laws c.spool n v in (h.holds, h.spool, h.same_capacity)

  deliver-Leaves :
      (c : Client) (batch : List S) (r : Reply)
      → IsSpool json c.spool
      → Leaves json c
          (if acknowledges r
            then drop (length batch) (contents json (c.spool).file)
            else contents json (c.spool).file)
          (deliver json no_faults c batch r)
  unfolding deliver
  deliver-Leaves c [] r v = elim (Bool-cases (acknowledges r)) [
    | inl t ↦ rw t (refl, v, refl)
    | inr t ↦ rw t (refl, v, refl)
  ]
  deliver-Leaves c (s ∷ ss) r v =
      let n = length (s ∷ ss) in
      elim (Option-cases (push n r).0) [
        | inl p ↦
            let t : acknowledges r ≡ true = ground (arith, push-acknowledges n r) in
            rw (p, deliver) (rw t (retire-Leaves c n v))
        | inr (e, p) ↦
            let t : acknowledges r ≡ false = ground (arith, push-acknowledges n r) in
            rw (p, deliver) (rw t (refl, v, refl))
      ]

  -- Without a file fault, a flush whose batch the server acknowledges removes the oldest `batch_size`
  -- samples and nothing else; any other flush leaves the samples as they were. The spool keeps its
  -- capacity and is again a spool of lines with the right count.
  pub flush_lem :
      (c : Client) (b : ℕ) (r : Reply)
      → c.batch_size ≡ pos (suc b)
      → IsSpool json c.spool
      → Leaves json c
          (if acknowledges r
            then drop (suc b) (contents json (c.spool).file)
            else contents json (c.spool).file)
          (flush json no_faults no_faults c r)
  unfolding flush
  flush_lem c b r e v =
      let ss = contents json (c.spool).file in
      let peeked : peek json no_faults c.spool c.batch_size ≡ some (take (suc b) ss) =
        ap (peek json no_faults c.spool) e ∙ peek_takes json laws c.spool b in
      rw (peeked, flush)
        (subst
          (λ xs.
            Leaves json c (if acknowledges r then xs else ss)
              (deliver json no_faults c (take (suc b) ss) r))
          (drop-length-take (suc b) ss) (deliver-Leaves c (take (suc b) ss) r v))
