-- ===== src/Prelude/Sorting.antt =====
-- Go's `sort.Slice` as an interface: it returns a permutation that is sorted by `less`, if `less` is
-- a strict weak order, and says nothing of the order of elements that `less` does not separate.
pub mod Insertion
use Prim.Native.Nat.{ℕ}
use mathlib.Core.List.Perm
use mathlib.Core.Logic.Or
use mathlib.Core.HLevel.{⊥_prop}
use mathlib.Core.Path.{◌≡◌, refl, sym, ap, ap₂, ◌∙◌}
use mathlib.Core.Logic.{◌⊎◌, inl, inr}
use mathlib.Core.Bool.{Bool, true, false}
use mathlib.Core.List.{List, [], ◌∷◌, Perm, Mem, mem-cons, mem-cons_self, not-mem-nil, perm-cons}
use music_p2p.Prelude.Lists.{All}
use native.Mathlib.Omega.{arith}

pub record StrictWeak {ℓ} {A : Type ℓ} (less : A → A → Bool) : Type ℓ where
  pub irreflexive : (a : A) → less a a ≡ false
  pub transitive : (a b c : A) → less a b ≡ true → less b c ≡ true → less a c ≡ true
  pub cotransitive : (a b c : A) → less a c ≡ true → (less a b ≡ true) ⊎ (less b c ≡ true)

module _ {ℓ} {A : Type ℓ} (less : A → A → Bool) where
  -- No element is less than one that stands before it.
  abbrev pub IsSorted : List A → Type ℓ
  IsSorted [] = Unit
  IsSorted (x ∷ xs) = All (λ y. less y x ≡ false) xs × IsSorted xs

  -- Each element is less than all that stand after it.
  abbrev pub IsIncreasing : List A → Type ℓ
  IsIncreasing [] = Unit
  IsIncreasing (x ∷ xs) = All (λ y. less x y ≡ true) xs × IsIncreasing xs

pub record SliceSort {ℓ} (A : Type ℓ) : Type ℓ where
  pub sort : (A → A → Bool) → List A → List A
  pub sort-perm : (less : A → A → Bool) (xs : List A) → Perm (sort less xs) xs
  pub sort-IsSorted :
      (less : A → A → Bool) (xs : List A) → StrictWeak less → IsSorted less (sort less xs)

Bool_path-prop : (a b : Bool) → IsProp (a ≡ b)
Bool_path-prop a b = hlevel

module _ {ℓ} {A : Type ℓ} (set : IsSet A) (less : A → A → Bool) where
  All-mem :
      (b : Bool) (f : A → Bool) (xs : List A) {a : A} → All (λ y. f y ≡ b) xs → Mem a xs → f a ≡ b
  All-mem b f [] h m = absurd (not-mem-nil m)
  All-mem b f (x ∷ xs) h m =
      Or.elim (Bool_path-prop _ _) (mem-cons.0 m) (λ e. ap f e ∙ h.0) (All-mem b f xs h.1)

  clash : {x y : A} → less x y ≡ true → less x y ≡ false → y ≡ x
  clash p q = cc

  heads :
      (x y : A) (xs ys : List A)
      → All (λ z. less x z ≡ true) xs
      → All (λ z. less z y ≡ false) ys
      → Perm (y ∷ ys) (x ∷ xs)
      → y ≡ x
  heads x y xs ys h k p =
      Or.elim (set y x) (mem-cons.0 ((Perm.mem_iff p).0 mem-cons_self)) (λ e. e)
        (λ m.
          Or.elim (set y x) (mem-cons.0 ((Perm.mem_iff p).1 mem-cons_self)) (λ e. sym e)
            (λ n. clash (All-mem true (less x) xs h m) (All-mem false (λ z. less z y) ys k n)))

  -- There is one way to sort what is already in strictly increasing order.
  pub sorted_unique :
      (xs ys : List A) → IsIncreasing less xs → IsSorted less ys → Perm ys xs → ys ≡ xs
  sorted_unique [] ys h k p = Perm.eq-nil p
  sorted_unique (x ∷ xs) [] h k p = cc (Perm.nil-eq p)
  sorted_unique (x ∷ xs) (y ∷ ys) h k p =
      let e = heads x y xs ys h.0 k.0 p in
      ap₂ ◌∷◌ e (sorted_unique xs ys h.1 k.1 ((perm-cons x).0 (rw e at p)))

  pub sort-increasing :
      (s : SliceSort A) (xs : List A) → StrictWeak less → IsIncreasing less xs → s.sort less xs ≡ xs
  sort-increasing s xs w h =
      sorted_unique xs (s.sort less xs) h (s.sort-IsSorted less xs w) (s.sort-perm less xs)
