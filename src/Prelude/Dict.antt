-- ===== src/Prelude/Dict.antt =====
-- Go maps as association lists over a decidable key.
use Prim.Native.Nat.{◌+◌, ◌≤◌}
use mathlib.Core.Path.{◌≡◌, refl, subst}
use mathlib.Core.Bool.{Bool}
use mathlib.Core.Option.{Option, none, some}
use mathlib.Core.Logic.{inl, inr}
use mathlib.Core.List.{List, [], ◌∷◌}
use native.Mathlib.Omega.{arith}
use sys_sentient.Prelude.Tests.{if◌then◌else◌, Bool-cases}
use sys_sentient.Prelude.Lists.{length, All}
use sys_sentient.Prelude.Keys.{Keyed, ◌==◌}

module _ {ℓ κ} {K : Type ℓ} {V : Type κ} ⦃e : Keyed K⦄ where
  -- `for key, value := range m { if !keep(key, value) { delete(m, key) } }`.
  unfoldable pub retain : (K → V → Bool) → List (K × V) → List (K × V)
  retain keep [] = []
  retain keep (entry ∷ rest) =
      if keep entry.0 entry.1 then entry ∷ retain keep rest else retain keep rest

  -- `delete(m, key)`.
  unfoldable pub erase : K → List (K × V) → List (K × V)
  erase key [] = []
  erase key (entry ∷ rest) = if entry.0 == key then erase key rest else entry ∷ erase key rest

  -- `value, ok := m[key]`.
  unfoldable pub lookup : K → List (K × V) → Option V
  lookup key [] = none
  lookup key (entry ∷ rest) = if entry.0 == key then some entry.1 else lookup key rest

  pub lookup-erase :
      (key k : K) (m : List (K × V))
      → lookup k (erase key m) ≡ (if key == k then none else lookup k m)
  unfolding erase lookup
  lookup-erase key k [] = ground arith
  lookup-erase key k ((i, old) ∷ rest) =
      ground (arith, lookup-erase key k rest, e.same_iff i k, e.same_iff i key, e.same_iff key k)

  -- `m[key] = value`.
  unfoldable pub insert : K → V → List (K × V) → List (K × V)
  insert key value [] = (key, value) ∷ []
  insert key value (entry ∷ rest) =
      if entry.0 == key then (key, value) ∷ rest else entry ∷ insert key value rest

  pub lookup-insert :
      (key k : K) (value : V) (m : List (K × V))
      → lookup k (insert key value m) ≡ (if key == k then some value else lookup k m)
  unfolding insert lookup
  lookup-insert key k value [] = refl
  lookup-insert key k value ((i, old) ∷ rest) =
      ground
        (arith, lookup-insert key k value rest, e.same_iff i k, e.same_iff i key, e.same_iff key k)

  pub lookup-insert_self : (k : K) (v : V) (m : List (K × V)) → lookup k (insert k v m) ≡ some v
  lookup-insert_self k v m = rw (lookup-insert, (e.same_iff k k).1 refl)

  -- A test on the key alone keeps exactly the entries whose key passes it.
  pub lookup-retain_key :
      (p : K → Bool) (j : K) (m : List (K × V))
      → lookup j (retain (λ k _. p k) m) ≡ (if p j then lookup j m else none)
  unfolding lookup retain
  lookup-retain_key p j [] = ground arith
  lookup-retain_key p j ((i, w) ∷ m) = ground (arith, e.same_iff i j, lookup-retain_key p j m)

  pub length-insert-le : (k : K) (v : V) (m : List (K × V)) → length (insert k v m) ≤ length m + 1
  unfolding insert
  length-insert-le k v [] = omega arith
  length-insert-le k v ((i, w) ∷ m) = ground (arith, length-insert-le k v m)

  pub length-retain-le : (p : K → V → Bool) (m : List (K × V)) → length (retain p m) ≤ length m
  unfolding retain
  length-retain-le p [] = omega arith
  length-retain-le p ((i, w) ∷ m) = ground (arith, length-retain-le p m)

module _ {ℓ κ μ} {K : Type ℓ} {V : Type κ} ⦃e : Keyed K⦄ (P : K × V → Type μ) where
  pub All-insert : (k : K) (v : V) (m : List (K × V)) → P (k, v) → All P m → All P (insert k v m)
  unfolding insert
  All-insert k v [] p h = (p, tt)
  All-insert k v ((j, w) ∷ m) p h = ground (arith, All-insert k v m p h.1)

  pub All-erase : (k : K) (m : List (K × V)) → All P m → All P (erase k m)
  unfolding erase
  All-erase k [] h = tt
  All-erase k ((j, w) ∷ m) h = ground (arith, All-erase k m h.1)

  pub All-retain : (p : K → V → Bool) (m : List (K × V)) → All P m → All P (retain p m)
  unfolding retain
  All-retain p [] h = tt
  All-retain p ((j, w) ∷ m) h = ground (arith, All-retain p m h.1)

  pub lookup-All : (k : K) (v : V) (m : List (K × V)) → All P m → lookup k m ≡ some v → P (k, v)
  unfolding lookup
  lookup-All k v [] h q = cc
  lookup-All k v ((j, w) ∷ m) h q = elim (Bool-cases (j == k)) [
    | inl hit ↦
        let same : w ≡ v = (ground arith) in subst P (λ i. ((e.same_iff j k).0 hit i, same i)) h.0
    | inr miss ↦ lookup-All k v m h.1 (rw miss at q)
  ]

module _ {ℓ κ} {K : Type ℓ} {V : Type κ} ⦃e : Keyed K⦄ where
  -- No key stands twice.
  abbrev pub IsUnique : List (K × V) → Type κ
  IsUnique [] = Unit
  IsUnique ((k, v) ∷ m) = (lookup k m ≡ none) × IsUnique m

  abbrev pub filtered : (K → V → Bool) → K → Option V → Option V
  filtered p k none = none
  filtered p k (some v) = if p k v then some v else none

  pub insert-IsUnique : (k : K) (v : V) (m : List (K × V)) → IsUnique m → IsUnique (insert k v m)
  unfolding insert lookup
  insert-IsUnique k v [] u = (refl, tt)
  insert-IsUnique k v ((j, w) ∷ m) u =
      ground
        (arith, insert-IsUnique k v m u.1, lookup-insert k j v m, e.same_iff j k, e.same_iff k j)

  pub lookup-retain-none :
      (p : K → V → Bool) (j : K) (m : List (K × V))
      → lookup j m ≡ none
      → lookup j (retain p m) ≡ none
  unfolding lookup retain
  lookup-retain-none p j [] h = refl
  lookup-retain-none p j ((i, w) ∷ m) h = ground (arith, lookup-retain-none p j m)

  pub retain-IsUnique : (p : K → V → Bool) (m : List (K × V)) → IsUnique m → IsUnique (retain p m)
  unfolding retain
  retain-IsUnique p [] u = tt
  retain-IsUnique p ((j, w) ∷ m) u =
      ground (arith, retain-IsUnique p m u.1, lookup-retain-none p j m u.0)

  pub lookup-retain :
      (p : K → V → Bool) (j : K) (m : List (K × V))
      → IsUnique m
      → lookup j (retain p m) ≡ filtered p j (lookup j m)
  unfolding lookup retain
  lookup-retain p j [] u = refl
  lookup-retain p j ((i, w) ∷ m) u = elim (Bool-cases (i == j)) [
    | inl hit ↦
        let same : i ≡ j = (e.same_iff i j).0 hit in
        let gone : lookup j (retain p m) ≡ none =
          lookup-retain-none p j m (subst (λ x. lookup x m ≡ none) same u.0) in
        rw hit (
          subst
            (λ x.
              lookup j (if p i w then (i, w) ∷ retain p m else retain p m)
              ≡ (if p x w then some w else none))
            same (elim (Bool-cases (p i w)) [ inl t ↦ rw (t, hit) | inr f ↦ rw f gone ]))
    | inr miss ↦ rw miss (elim (Bool-cases (p i w)) [
      | inl t ↦ rw (t, miss) (lookup-retain p j m u.1)
      | inr f ↦ rw f (lookup-retain p j m u.1)
    ])
  ]
