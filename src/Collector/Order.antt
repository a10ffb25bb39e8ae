-- ===== src/Collector/Order.antt =====
-- What Go documents of slices.SortFunc and of ranging over a map, and ranks in a sorted list.
use mathlib.Core.List.{Memᴰ, Permᴰ}
use sys_sentient.Collector.Processes.{Orders}
use sys_sentient.Prelude.{
  any, Bool-cases, length, take, keep_if, All, nat_key, string_key, ℕ, zero, suc, ◌≤◌, ◌≡◌, refl,
  sym, ap, subst, ◌∙◌, inl, inr, Bool, true, false, not, List, [], ◌∷◌, arith,
}

module _ {A : Type 0} where
  -- The comparison that SortFunc asks for, a strict weak order.
  pub record IsWeakOrder (less : A → A → Bool) : Type 0 where
    pub asym : (x y : A) → less x y ≡ true → less y x ≡ false
    pub negative_trans : (x y z : A) → less x y ≡ false → less y z ≡ false → less x z ≡ false

  -- Nothing stands behind an item that goes before it.
  abbrev pub IsSortedBy : (A → A → Bool) → List A → Type 0
  IsSortedBy less [] = Unit
  IsSortedBy less (x ∷ xs) = All (λ y. less y x ≡ false) xs × IsSortedBy less xs

  -- How many items `x` does not go before; `x` is one of them.
  abbrev pub rank : (A → A → Bool) → A → List A → ℕ
  rank less x l = length (keep_if (λ y. not (less x y)) l)

-- SortFunc returns a permutation, sorted if the comparison is an order; a range visits each entry
-- once.
pub record IsOrders (o : Orders) : Type 1 where
  pub permutes : {A : Type 0} (less : A → A → Bool) (l : List A) → Permᴰ l (o.sort less l)
  pub sorts :
      {A : Type 0} (less : A → A → Bool) (l : List A)
      → IsWeakOrder less
      → IsSortedBy less (o.sort less l)
  pub ranges : {A : Type 0} (l : List A) → Permᴰ l (o.range l)

module _ {A : Type 0} where
  length-keep_if-perm :
      (p : A → Bool) {xs ys : List A} → Permᴰ xs ys → length (keep_if p xs) ≡ length (keep_if p ys)
  length-keep_if-perm p Permᴰ.nil = refl
  length-keep_if-perm p (Permᴰ.cons {a = a} {b = b} e d) =
      let same : p a ≡ p b = ap p e in ground (arith, length-keep_if-perm p d)
  length-keep_if-perm p (Permᴰ.swap {a = a} {b = b} {a' = a'} {b' = b'} e f) =
      let first : p a ≡ p b' = ap p e in let second : p b ≡ p a' = ap p f in ground arith
  length-keep_if-perm p (Permᴰ.trans d e) = length-keep_if-perm p d ∙ length-keep_if-perm p e

  pub All-perm {κ} : (P : A → Type κ) {xs ys : List A} → Permᴰ xs ys → All P xs → All P ys
  All-perm P Permᴰ.nil h = tt
  All-perm P (Permᴰ.cons e d) h = (subst P e h.0, All-perm P d h.1)
  All-perm P (Permᴰ.swap e f) h = (subst P f h.1.0, (subst P e h.0, h.1.1))
  All-perm P (Permᴰ.trans d e) h = All-perm P e (All-perm P d h)

  pub Mem-perm : {x : A} {xs ys : List A} → Permᴰ xs ys → Memᴰ x xs → Memᴰ x ys
  Mem-perm Permᴰ.nil m = elim m [ ]
  Mem-perm (Permᴰ.cons e d) (Memᴰ.head f) = Memᴰ.head (f ∙ e)
  Mem-perm (Permᴰ.cons e d) (Memᴰ.tail m) = Memᴰ.tail (Mem-perm d m)
  Mem-perm (Permᴰ.swap e f) (Memᴰ.head g) = Memᴰ.tail (Memᴰ.head (g ∙ e))
  Mem-perm (Permᴰ.swap e f) (Memᴰ.tail (Memᴰ.head g)) = Memᴰ.head (g ∙ f)
  Mem-perm (Permᴰ.swap e f) (Memᴰ.tail (Memᴰ.tail m)) = Memᴰ.tail (Memᴰ.tail m)
  Mem-perm (Permᴰ.trans d e) m = Mem-perm e (Mem-perm d m)

  pub any-perm : (t : A → Bool) {xs ys : List A} → Permᴰ xs ys → any t xs ≡ any t ys
  any-perm t Permᴰ.nil = refl
  any-perm t (Permᴰ.cons {a = a} {b = b} e d) =
      let same : t a ≡ t b = ap t e in ground (arith, any-perm t d)
  any-perm t (Permᴰ.swap {a = a} {b = b} {a' = a'} {b' = b'} e f) =
      let first : t a ≡ t b' = ap t e in let second : t b ≡ t a' = ap t f in ground arith
  any-perm t (Permᴰ.trans d e) = any-perm t d ∙ any-perm t e

  pub All-Mem {κ} : (P : A → Type κ) {x : A} {xs : List A} → All P xs → Memᴰ x xs → P x
  All-Mem P h (Memᴰ.head e) = subst P (sym e) h.0
  All-Mem P h (Memᴰ.tail m) = All-Mem P h.1 m

  irreflexive : (less : A → A → Bool) → IsWeakOrder less → (x : A) → less x x ≡ false
  irreflexive less w x = elim (Bool-cases (less x x)) [ inl t ↦ w.asym x x t | inr f ↦ f ]

  rank-pos :
      (less : A → A → Bool) → IsWeakOrder less → (x : A) (l : List A) → Memᴰ x l → 1 ≤ rank less x l
  rank-pos less w x [] m = elim m [ ]
  rank-pos less w x (y ∷ l) (Memᴰ.head e) =
      let same : less x y ≡ false = subst (λ z. less x z ≡ false) e (irreflexive less w x) in
      ground arith
  rank-pos less w x (y ∷ l) (Memᴰ.tail m) = ground (arith, rank-pos less w x l m)

  -- An item that few do not come behind is among the first of a sorted list.
  take_rank :
      (less : A → A → Bool)
      → IsWeakOrder less
      → (x : A) (n : ℕ) (l : List A) → IsSortedBy less l
      → Memᴰ x l
      → rank less x l ≤ n
      → Memᴰ x (take n l)
  take_rank less w x zero [] s m h = elim m [ ]
  take_rank less w x (suc n) [] s m h = elim m [ ]
  take_rank less w x zero (y ∷ l) s m h = absurd (omega (arith, rank-pos less w x (y ∷ l) m))
  take_rank less w x (suc n) (y ∷ l) s (Memᴰ.head e) h = Memᴰ.head e
  take_rank less w x (suc n) (y ∷ l) s (Memᴰ.tail m) h =
      let behind : less x y ≡ false = All-Mem _ s.0 m in
      Memᴰ.tail (take_rank less w x n l s.1 m (ground arith))

  pub rank-sort :
      (o : Orders)
      → IsOrders o
      → (less test : A → A → Bool) (x : A) (l : List A)
      → rank test x (o.sort less l) ≡ rank test x l
  rank-sort o laws less test x l =
      sym (length-keep_if-perm (λ y. not (test x y)) (laws.permutes less l))

  pub length-perm : {xs ys : List A} → Permᴰ xs ys → length xs ≡ length ys
  length-perm Permᴰ.nil = refl
  length-perm (Permᴰ.cons e d) = ap suc (length-perm d)
  length-perm (Permᴰ.swap e f) = refl
  length-perm (Permᴰ.trans d e) = length-perm d ∙ length-perm e

  pub take-sort :
      (o : Orders)
      → IsOrders o
      → (less : A → A → Bool) → IsWeakOrder less
      → (x : A) (n : ℕ) (l : List A) → Memᴰ x l
      → rank less x l ≤ n
      → Memᴰ x (take n (o.sort less l))
  take-sort o laws less w x n l m h =
      take_rank less w x n (o.sort less l) (laws.sorts less l w) (Mem-perm (laws.permutes less l) m)
        (rw (rank-sort o laws less less x l) h)
