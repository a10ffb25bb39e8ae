-- ===== src/Collector/Insertion.antt =====
-- Insertion sort, and a range in the order of insertion, as an instance of what Go documents.
use mathlib.Core.List.{Permᴰ}
use mathlib.Core.List.Permᴰ
use sys_sentient.Collector.Processes.{Orders}
use sys_sentient.Collector.Order.{IsWeakOrder, IsSortedBy, IsOrders, All-perm}
use sys_sentient.Prelude.{
  if◌then◌else◌, Bool-cases, All, nat_key, string_key, ◌≡◌, refl, inl, inr, Bool, false, List, [],
  ◌∷◌,
}

module _ {A : Type 0} (less : A → A → Bool) where
  unfoldable pub place : A → List A → List A
  place x [] = x ∷ []
  place x (y ∷ l) = let rest = place x l in if less y x then y ∷ rest else x ∷ y ∷ l

  unfoldable pub insertion : List A → List A
  insertion [] = []
  insertion (x ∷ l) = place x (insertion l)

  place-perm : (x : A) (l : List A) → Permᴰ (x ∷ l) (place x l)
  unfolding place
  place-perm x [] = Permᴰ.refl (x ∷ [])
  place-perm x (y ∷ l) = elim (Bool-cases (less y x)) [
    | inl t ↦ rw t (Permᴰ.trans (Permᴰ.swap refl refl) (Permᴰ.cons refl (place-perm x l)))
    | inr f ↦ rw f (Permᴰ.refl (x ∷ y ∷ l))
  ]

  insertion-perm : (l : List A) → Permᴰ l (insertion l)
  unfolding insertion
  insertion-perm [] = Permᴰ.nil
  insertion-perm (x ∷ l) =
      Permᴰ.trans (Permᴰ.cons refl (insertion-perm l)) (place-perm x (insertion l))

  module _ (w : IsWeakOrder less) where
    behind :
        (x y : A) (l : List A)
        → less y x ≡ false
        → All (λ z. less z y ≡ false) l
        → All (λ z. less z x ≡ false) l
    behind x y [] f h = tt
    behind x y (z ∷ l) f h = (w.negative_trans z y x h.0 f, behind x y l f h.1)

    place-IsSortedBy : (x : A) (l : List A) → IsSortedBy less l → IsSortedBy less (place x l)
    unfolding place
    place-IsSortedBy x [] s = (tt, tt)
    place-IsSortedBy x (y ∷ l) s = elim (Bool-cases (less y x)) [
      | inl t ↦ rw t (
        All-perm (λ z. less z y ≡ false) (place-perm x l) (w.asym y x t, s.0),
        place-IsSortedBy x l s.1,
      )
      | inr f ↦ rw f ((f, behind x y l f s.0), s)
    ]

    insertion-IsSortedBy : (l : List A) → IsSortedBy less (insertion l)
    unfolding insertion
    insertion-IsSortedBy [] = tt
    insertion-IsSortedBy (x ∷ l) = place-IsSortedBy x (insertion l) (insertion-IsSortedBy l)

unfoldable pub insertion_orders : Orders
unfolding insertion place
insertion_orders = record { sort = insertion; range = λ l. l }

pub insertion_orders-IsOrders : IsOrders insertion_orders
unfolding insertion_orders
insertion_orders-IsOrders = record {
  permutes = insertion-perm;
  sorts = λ less l w. insertion-IsSortedBy less w l;
  ranges = Permᴰ.refl;
}
