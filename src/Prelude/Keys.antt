-- ===== src/Prelude/Keys.antt =====
-- Decidable keys as an interface, with the instances that the program's maps use.
use Prim.Native.Nat.{ℕ}
use Prim.Native.String.{String}
use mathlib.Core.Path.{◌≡◌, refl}
use mathlib.Core.Bool.{Bool, true, false}
use mathlib.Core.Logic.{◌↔◌, ◌≢◌, inl, inr}
use text.Mathlib.Text.{◌==◌ as str_eq}
use text.Mathlib.TextEquality.{eq_iff}
use sys_sentient.Prelude.Tests.{nat_beq, nat_beq_iff, Bool-cases}

-- A type of keys: a test that answers exactly when two of them are equal.
pub record Keyed {ℓ} (K : Type ℓ) : Type ℓ where
  pub same : K → K → Bool
  pub same_iff : (j k : K) → (same j k ≡ true) ↔ (j ≡ k)

infix 50 ◌==◌
abbrev pub ◌==◌ {ℓ} : {K : Type ℓ} ⦃keyed : Keyed K⦄ → K → K → Bool
◌==◌ ⦃keyed⦄ = keyed.same

module _ {ℓ} {A : Type ℓ} ⦃e : Keyed A⦄ where
  pub ==_refl : (a : A) → (a == a) ≡ true
  ==_refl a = (e.same_iff a a).1 refl

  pub ==_ne : (a b : A) → a ≢ b → (a == b) ≡ false
  ==_ne a b h = elim (Bool-cases (a == b)) [ inl p ↦ absurd (h ((e.same_iff a b).0 p)) | inr p ↦ p ]

  pub ==_eq : (a b : A) → (a == b) ≡ true → a ≡ b
  ==_eq a b h = (e.same_iff a b).0 h

-- Texts and numbers are keys.
instance abbrev pub string_key : Keyed String
string_key = record { same = str_eq; same_iff = eq_iff }

instance abbrev pub nat_key : Keyed ℕ
nat_key = record { same = nat_beq; same_iff = nat_beq_iff }
