-- ===== src/Collector/Processes/Selected.antt =====
-- internal/collector/collector.go: the choice among the candidates, by CPU and by memory.
use mathlib.Core.List.{Memᴰ}
use sys_sentient.Collector.{Arithmetic}
use sys_sentient.Collector.Order.{IsWeakOrder, IsOrders, rank, rank-sort, take-sort, Mem-perm}
use sys_sentient.Collector.Processes.{Orders, Candidate, busier}
use sys_sentient.Collector.Processes.Top.{
  by_memory, uses_memory, select_each, by_cpu, uses_cpu, select_top,
}
use sys_sentient.Prelude.{
  if◌then◌else◌, Bool-cases, is_some, length, take, All, ◌==◌, nat_key, string_key, ==_eq, lookup,
  insert, lookup-insert, length-insert-le, ℕ, zero, suc, ◌+◌, ◌≤◌, ◌≡◌, refl, sym, ap, subst, ◌⊎◌,
  inl, inr, Bool, true, false, List, [], ◌∷◌, arith, All-insert, lookup-insert_self,
}

by_memory-order : {F H : Type 0} → IsWeakOrder (by_memory {F = F} {H = H})
by_memory-order = record {
  asym = λ x y h. ground arith;
  negative_trans = λ x y z h k. ground arith;
}

module _ {F H : Type 0} where
  pub length-select_each-le :
      (test : Candidate F H → Bool) (l : List (Candidate F H)) (m : List (ℕ × Candidate F H))
      → length (select_each test l m) ≤ length m + length l
  length-select_each-le test [] m = omega arith
  length-select_each-le test (x ∷ l) m = ground (
    arith,
    length-select_each-le test l (if test x then insert x.pid x m else m),
    length-insert-le x.pid x m,
  )

  select_each-keeps :
      (test : Candidate F H → Bool) (k : ℕ) (l : List (Candidate F H))
      (m : List (ℕ × Candidate F H))
      → is_some (lookup k m) ≡ true
      → is_some (lookup k (select_each test l m)) ≡ true
  select_each-keeps test k [] m h = h
  select_each-keeps test k (x ∷ l) m h = elim (Bool-cases (test x)) [
    | inl t ↦ rw t (select_each-keeps test k l (insert x.pid x m) (still (Bool-cases (x.pid == k))))
    | inr f ↦ rw f (select_each-keeps test k l m h)
  ]
    where
      still :
          ((x.pid == k) ≡ true) ⊎ ((x.pid == k) ≡ false)
          → is_some (lookup k (insert x.pid x m)) ≡ true
      still (inl e) = rw (lookup-insert, e) refl
      still (inr e) = rw (lookup-insert, e) h

  select_each-Mem :
      (test : Candidate F H → Bool) (x : Candidate F H) (l : List (Candidate F H))
      (m : List (ℕ × Candidate F H))
      → Memᴰ x l
      → test x ≡ true
      → is_some (lookup x.pid (select_each test l m)) ≡ true
  select_each-Mem test x [] m k h = elim k [ ]
  select_each-Mem test x (y ∷ l) m (Memᴰ.head e) h =
      select_each-keeps test x.pid l (if test y then insert y.pid y m else m) (
        subst (λ z. is_some (lookup x.pid (if test z then insert z.pid z m else m)) ≡ true) e
          (rw (h, lookup-insert_self) refl))
  select_each-Mem test x (y ∷ l) m (Memᴰ.tail k) h =
      select_each-Mem test x l (if test y then insert y.pid y m else m) k h

  pub select_each-All :
      (P : ℕ × Candidate F H → Type 0) (test : Candidate F H → Bool) (l : List (Candidate F H))
      (m : List (ℕ × Candidate F H))
      → All (λ x. P (x.pid, x)) l
      → All P m
      → All P (select_each test l m)
  select_each-All P test [] m h k = k
  select_each-All P test (x ∷ l) m h k = elim (Bool-cases (test x)) [
    | inl t ↦ rw t (select_each-All P test l (insert x.pid x m) h.1 (All-insert P x.pid x m h.0 k))
    | inr f ↦ rw f (select_each-All P test l m h.1 k)
  ]

  pub take-All :
      (P : Candidate F H → Type 0) (n : ℕ) (l : List (Candidate F H)) → All P l → All P (take n l)
  take-All P zero l h = tt
  take-All P (suc n) [] h = tt
  take-All P (suc n) (x ∷ l) h = (h.0, take-All P n l h.1)

  pub lookup-Mem :
      (k : ℕ) (m : List (ℕ × Candidate F H))
      → is_some (lookup k m) ≡ true
      → (x : Candidate F H) × Memᴰ (k, x) m
  unfolding lookup
  lookup-Mem k [] h = cc
  lookup-Mem k ((j, x) ∷ m) h = elim (Bool-cases (j == k)) [
    | inl e ↦ (x, Memᴰ.head (ap (λ i. (i, x)) (sym (==_eq j k e))))
    | inr f ↦ let (y, n) = lookup-Mem k m (rw f at h) in (y, Memᴰ.tail n)
  ]

pub busier-order : {F : Type 0} (a : Arithmetic F) → IsWeakOrder a.less → IsWeakOrder (busier a)
busier-order a order = record {
  asym = λ p q h. ground (arith, order.asym p.cpu q.cpu, order.asym q.cpu p.cpu);
  negative_trans = λ p q r h k. ground (
    arith,
    order.negative_trans p.cpu q.cpu r.cpu,
    order.negative_trans p.cpu r.cpu q.cpu,
    order.negative_trans q.cpu p.cpu r.cpu,
    order.negative_trans q.cpu r.cpu p.cpu,
    order.negative_trans r.cpu p.cpu q.cpu,
    order.negative_trans r.cpu q.cpu p.cpu,
  );
}

module _ {F H : Type 0} (a : Arithmetic F) (order : IsWeakOrder a.less) (orders : Orders)
    (laws : IsOrders orders) where
  by_cpu-order : IsWeakOrder (by_cpu {F = F} {H = H} a)
  by_cpu-order = record {
    asym = λ x y h. order.asym y.cpu x.cpu h;
    negative_trans = λ x y z h k. order.negative_trans z.cpu y.cpu x.cpu k h;
  }

  pub select_top-Mem :
      (limit : ℕ) (x : Candidate F H) (l : List (Candidate F H))
      → Memᴰ x l
      → ((rank (by_cpu a) x l ≤ limit) × (uses_cpu a x ≡ true))
        ⊎ ((rank by_memory x l ≤ limit) × (uses_memory x ≡ true))
      → is_some (lookup x.pid (select_top a orders limit l)) ≡ true
  unfolding select_top
  select_top-Mem limit x l m (inl (top, busy)) =
      let ranked = orders.sort (by_cpu a) l in
      select_each-keeps uses_memory x.pid (take limit (orders.sort by_memory ranked))
        (select_each (uses_cpu a) (take limit ranked) [])
        (select_each-Mem (uses_cpu a) x (take limit ranked) []
          (take-sort orders laws (by_cpu a) by_cpu-order x limit l m top) busy)
  select_top-Mem limit x l m (inr (top, large)) =
      let ranked = orders.sort (by_cpu a) l in
      let still : Memᴰ x ranked = Mem-perm (laws.permutes (by_cpu a) l) m in
      select_each-Mem uses_memory x (take limit (orders.sort by_memory ranked))
        (select_each (uses_cpu a) (take limit ranked) [])
        (take-sort orders laws by_memory by_memory-order x limit ranked still
          (rw (rank-sort orders laws (by_cpu a) by_memory x l) top))
        large
