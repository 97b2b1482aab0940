-- ===== src/Prelude/Sorting/Insertion.antt =====
-- Insertion sort meets the interface of `sort.Slice`.
use mathlib.Core.List.Perm
use mathlib.Core.Path.{◌≡◌}
use mathlib.Core.Logic.{inl, inr}
use mathlib.Core.Bool.{Bool, true, false}
use mathlib.Core.List.{List, [], ◌∷◌, Perm}
use music_p2p.Prelude.Tests.{if◌then◌else◌, Bool-cases}
use music_p2p.Prelude.Lists.{All}
use music_p2p.Prelude.Sorting.{StrictWeak, IsSorted, SliceSort}
use native.Mathlib.Omega.{arith}

module _ {ℓ} {A : Type ℓ} where
  unfoldable pub insert : (A → A → Bool) → A → List A → List A
  insert less a [] = a ∷ []
  insert less a (x ∷ xs) = if less x a then x ∷ insert less a xs else a ∷ x ∷ xs

  unfoldable pub insertion_sort : (A → A → Bool) → List A → List A
  unfolding insert
  insertion_sort less [] = []
  insertion_sort less (x ∷ xs) = insert less x (insertion_sort less xs)

  insert-perm : (less : A → A → Bool) (a : A) (xs : List A) → Perm (insert less a xs) (a ∷ xs)
  unfolding insert
  insert-perm less a [] = Perm.refl (a ∷ [])
  insert-perm less a (x ∷ xs) = elim (Bool-cases (less x a)) [
    | inl e ↦ rw e (Perm.trans (Perm.cons x (insert-perm less a xs)) (Perm.swap a x xs))
    | inr e ↦ rw e (Perm.refl (a ∷ x ∷ xs))
  ]

  pub insertion_sort-perm : (less : A → A → Bool) (xs : List A) → Perm (insertion_sort less xs) xs
  unfolding insertion_sort
  insertion_sort-perm less [] = Perm.nil
  insertion_sort-perm less (x ∷ xs) =
      Perm.trans (insert-perm less x (insertion_sort less xs))
        (Perm.cons x (insertion_sort-perm less xs))

  module _ (less : A → A → Bool) (w : StrictWeak less) where
    not_less : (a b c : A) → less b a ≡ false → less c b ≡ false → less c a ≡ false
    not_less a b c p q = elim (Bool-cases (less c a)) [
      | inl e ↦ ground (arith, w.cotransitive c b a e)
      | inr e ↦ e
    ]

    asymmetric : (a b : A) → less a b ≡ true → less b a ≡ false
    asymmetric a b p = elim (Bool-cases (less b a)) [
      | inl e ↦ ground (arith, w.transitive a b a p e, w.irreflexive a)
      | inr e ↦ e
    ]

    All-not_less :
        (a b : A) (xs : List A)
        → less b a ≡ false
        → All (λ y. less y b ≡ false) xs
        → All (λ y. less y a ≡ false) xs
    All-not_less a b [] p h = tt
    All-not_less a b (x ∷ xs) p h = (not_less a b x p h.0, All-not_less a b xs p h.1)

    All-insert :
        (a b : A) (xs : List A)
        → less a b ≡ false
        → All (λ y. less y b ≡ false) xs
        → All (λ y. less y b ≡ false) (insert less a xs)
    unfolding insert
    All-insert a b [] p h = (p, tt)
    All-insert a b (x ∷ xs) p h = elim (Bool-cases (less x a)) [
      | inl e ↦ rw e (h.0, All-insert a b xs p h.1)
      | inr e ↦ rw e (p, h)
    ]

    insert-IsSorted : (a : A) (xs : List A) → IsSorted less xs → IsSorted less (insert less a xs)
    unfolding insert
    insert-IsSorted a [] h = (tt, tt)
    insert-IsSorted a (x ∷ xs) h = elim (Bool-cases (less x a)) [
      | inl e ↦ rw e (All-insert a x xs (asymmetric x a e) h.0, insert-IsSorted a xs h.1)
      | inr e ↦ rw e ((e, All-not_less a x xs e h.0), h)
    ]

  pub insertion_sort-IsSorted :
      (less : A → A → Bool) (xs : List A) → StrictWeak less → IsSorted less (insertion_sort less xs)
  unfolding insertion_sort
  insertion_sort-IsSorted less [] w = tt
  insertion_sort-IsSorted less (x ∷ xs) w =
      insert-IsSorted less w x (insertion_sort less xs) (insertion_sort-IsSorted less xs w)

  abbrev pub slice_sort : SliceSort A
  slice_sort = record {
    sort = insertion_sort;
    sort-perm = insertion_sort-perm;
    sort-IsSorted = insertion_sort-IsSorted;
  }
