-- ===== src/Storage/Rollup/Groups.antt =====
-- internal/storage/rollup.go: what a GROUP BY leaves under each key.
use sys_sentient.Prelude.{
  if◌then◌else◌, Bool-cases, keep_if, any, all, All, Keyed, ◌==◌, nat_key, string_key, lookup,
  insert, lookup-insert, ◌≡◌, refl, ap, inl, inr, true, some, List, [], ◌∷◌, arith,
}
use sys_sentient.Storage.Rollup.{RollupKey, RollupRow, Rollups, rollup_key, insert_groups}

-- An insertion of what is there already changes nothing.
pub insert_self {ℓ κ} :
    {K : Type ℓ} {V : Type κ} ⦃e : Keyed K⦄ (k : K) (v : V) (m : List (K × V))
    → lookup k m ≡ some v
    → insert k v m ≡ m
unfolding insert lookup
insert_self ⦃e⦄ k v [] h = cc
insert_self ⦃e⦄ k v ((j, w) ∷ m) h = ground (arith, e.same_iff j k, insert_self ⦃e = e⦄ k v m)

module _ {ℓ} {A : Type ℓ} {F : Type 0} (key : A → RollupKey) (row : List A → RollupRow F) where
  -- A key of some member has the row of its group; any other has what it had.
  pub lookup-insert_groups :
      (all xs : List A) (t : Rollups F) (k : RollupKey)
      → lookup k (insert_groups key row all xs t) ≡ (
          if any (λ y. key y == k) xs
          then some (row (keep_if (λ y. key y == k) all))
          else lookup k t)
  unfolding insert_groups
  lookup-insert_groups all [] t k = refl
  lookup-insert_groups all (x ∷ xs) t k = elim (Bool-cases (key x == k)) [
    | inl hit ↦
        rw (lookup-insert, hit)
          (ap (λ j. some (row (keep_if (λ y. key y == j) all)))
            ((rollup_key.same_iff (key x) k).0 hit))
    | inr miss ↦ rw (lookup-insert, miss) (lookup-insert_groups all xs t k)
  ]

  -- Where each member's row stands already, the insertion changes nothing.
  pub insert_groups_self :
      (all xs : List A) (t : Rollups F)
      → All (λ x. lookup (key x) t ≡ some (row (keep_if (λ y. key y == key x) all))) xs
      → insert_groups key row all xs t ≡ t
  unfolding insert_groups
  insert_groups_self all [] t h = refl
  insert_groups_self all (x ∷ xs) t h = rw (insert_groups_self all xs t h.1) (insert_self _ _ t h.0)

  -- After the insertion each member's row stands.
  pub insert_groups-stands :
      (all xs ys : List A) (t : Rollups F)
      → All (λ x. any (λ y. key y == key x) ys ≡ true) xs
      → All
          (λ x.
            lookup (key x) (insert_groups key row all ys t)
            ≡ some (row (keep_if (λ y. key y == key x) all)))
          xs
  insert_groups-stands all [] ys t h = tt
  insert_groups-stands all (x ∷ xs) ys t h =
      (rw (lookup-insert_groups all ys t (key x), h.0), insert_groups-stands all xs ys t h.1)
