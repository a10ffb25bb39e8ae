-- ===== src/Storage/Archive/Order.antt =====
-- internal/storage/archive.go: the rows of a tier in the order of their buckets.
use sys_sentient.Prelude.{
  leb, if◌then◌else◌, Bool-cases, ◌==◌, nat_key, string_key, lookup, ℕ, ◌≡◌, refl, ◌∙◌, inl, inr,
  false, none, some, List, [], ◌∷◌, arith, IsUnique, insert_by, sort_by,
}
use sys_sentient.Storage.Rollup.{RollupKey, rollup_key}

module _ {V : Type 0} (key : RollupKey × V → ℕ) where
  lookup-insert_by :
      (k j : RollupKey) (v : V) (m : List (RollupKey × V))
      → lookup j m ≡ none
      → lookup k (insert_by key (j, v) m) ≡ (if j == k then some v else lookup k m)
  unfolding lookup
  lookup-insert_by k j v [] h = refl
  lookup-insert_by k j v ((i, w) ∷ m) h = ground (
    arith,
    lookup-insert_by k j v m,
    rollup_key.same_iff i j,
    rollup_key.same_iff i k,
    rollup_key.same_iff j k,
  )

  -- Sorting the entries of a map changes no answer.
  pub lookup-sort_by :
      (k : RollupKey) (m : List (RollupKey × V))
      → IsUnique m
      → lookup k (sort_by key m) ≡ lookup k m
  unfolding lookup sort_by
  lookup-sort_by k [] u = refl
  lookup-sort_by k ((j, v) ∷ m) (absent, u) =
      rw (
        lookup-insert_by k j v (sort_by key m) (lookup-sort_by j m u ∙ absent),
        lookup-sort_by k m u,
      )

  lookup-insert_by-none :
      (k j : RollupKey) (v : V) (m : List (RollupKey × V))
      → (j == k) ≡ false
      → lookup k m ≡ none
      → lookup k (insert_by key (j, v) m) ≡ none
  unfolding lookup
  lookup-insert_by-none k j v [] h e = rw h
  lookup-insert_by-none k j v ((i, w) ∷ m) h e = ground (arith, lookup-insert_by-none k j v m)

  insert_by-IsUnique :
      (j : RollupKey) (v : V) (m : List (RollupKey × V))
      → lookup j m ≡ none
      → IsUnique m
      → IsUnique (insert_by key (j, v) m)
  unfolding lookup
  insert_by-IsUnique j v [] h u = (refl, tt)
  insert_by-IsUnique j v ((i, w) ∷ m) h u = elim (Bool-cases (leb (key (j, v)) (key (i, w)))) [
    | inl e ↦ rw e (h, u)
    | inr e ↦
        let apart : (j == i) ≡ false =
          (ground (arith, rollup_key.same_iff i j, rollup_key.same_iff j i)) in
        let absent : lookup j m ≡ none = (ground arith) in
        rw e (lookup-insert_by-none i j v m apart u.0, insert_by-IsUnique j v m absent u.1)
  ]

  pub sort_by-IsUnique : (m : List (RollupKey × V)) → IsUnique m → IsUnique (sort_by key m)
  unfolding sort_by
  sort_by-IsUnique [] u = tt
  sort_by-IsUnique ((j, v) ∷ m) (absent, u) =
      insert_by-IsUnique j v (sort_by key m) (lookup-sort_by j m u ∙ absent) (sort_by-IsUnique m u)
