-- ===== src/Storage/Accounts/Counts.antt =====
-- internal/storage/users.go: the invariant of the table of users, and what deleting a row does to the
-- count of administrators.
use sys_sentient.Storage.Accounts.{Accounts, UserRecord, count_if}
use sys_sentient.Prelude.{
  if◌then◌else◌, Bool-cases, All, ◌==◌, nat_key, string_key, ==_eq, lookup, erase, ◌+◌, String, ◌≡◌,
  refl, ap, subst, inl, inr, Bool, none, some, List, [], ◌∷◌, arith, IsUnique,
}

-- Every row stands under its own id.
abbrev pub IsKeyed : List (String × UserRecord) → Type 0
IsKeyed m = All (λ e. (e.1).id ≡ e.0) m

pub record IsAccounts (db : Accounts) : Type 0 where
  pub keyed : IsKeyed db.users
  pub unique : IsUnique db.users

module _ {V : Type 0} where
  erase_absent : (key : String) (m : List (String × V)) → lookup key m ≡ none → erase key m ≡ m
  unfolding erase lookup
  erase_absent key [] h = refl
  erase_absent key ((k, v) ∷ m) h = elim (Bool-cases (k == key)) [
    | inl e ↦ absurd (ground arith)
    | inr e ↦ rw e (ap (◌∷◌ (k, v)) (erase_absent key m (ground arith)))
  ]

  -- Deleting a row takes it out of a count by which it is counted.
  pub count_if-erase :
      (p : V → Bool) (key : String) (v : V) (m : List (String × V))
      → IsUnique m
      → lookup key m ≡ some v
      → count_if p (erase key m) + (if p v then 1 else 0) ≡ count_if p m
  unfolding erase lookup
  count_if-erase p key v [] u h = absurd (ground arith)
  count_if-erase p key v ((k, w) ∷ m) u h = elim (Bool-cases (k == key)) [
    | inl e ↦
        let same : w ≡ v = ground arith in
        let gone : erase key m ≡ m =
          erase_absent key m (subst (λ j. lookup j m ≡ none) (==_eq k key e) u.0) in
        rw (e, gone, same) (omega arith)
    | inr e ↦ let ih = count_if-erase p key v m u.1 (ground arith) in rw e (omega (arith, ih))
  ]
