-- ===== src/Prelude/Assoc.antt =====
-- Go maps as association lists, over keys with a decidable equality. `m[k] = v` keeps the place
-- of a key that is there; `delete` removes it. A set `map[K]struct{}` is the list of its keys.
use Prim.Native.Nat.{◌+◌, ◌≤◌}
use mathlib.Core.List.Perm
use mathlib.Core.Logic.Or
use mathlib.Core.Path.{◌≡◌, refl, subst}
use mathlib.Core.Logic.{ite, ◌≢◌}
use mathlib.Core.Bool.{Bool, true, false}
use mathlib.Core.List.{
  List, [], ◌∷◌, Mem, Perm, mem-cons, mem-cons_self, mem-cons_of_mem, not-mem-nil,
}
use mathlib.Core.Option.{Option, none, some}
use music_p2p.Prelude.Lists.{length, All}
use native.Mathlib.Omega.{arith}

module _ {ℓ} {K V : Type ℓ} (dec : Discrete K) where
  unfoldable pub lookup : K → List (K × V) → Option V
  lookup k [] = none
  lookup k ((j, v) ∷ m) = ite (dec j k) (some v) (lookup k m)

  unfoldable pub insert : K → V → List (K × V) → List (K × V)
  insert k v [] = (k, v) ∷ []
  insert k v ((j, w) ∷ m) = ite (dec j k) ((k, v) ∷ m) ((j, w) ∷ insert k v m)

  unfoldable pub delete : K → List (K × V) → List (K × V)
  delete k [] = []
  delete k ((j, w) ∷ m) = ite (dec j k) (delete k m) ((j, w) ∷ delete k m)

  pub lookup-insert :
      (k j : K) (v : V) (m : List (K × V))
      → lookup j (insert k v m) ≡ ite (dec k j) (some v) (lookup j m)
  unfolding lookup insert
  lookup-insert k j v [] = refl
  lookup-insert k j v ((i, w) ∷ m) = ground (arith, lookup-insert k j v m)

  pub lookup-delete :
      (k j : K) (m : List (K × V)) → lookup j (delete k m) ≡ ite (dec k j) none (lookup j m)
  unfolding lookup delete
  lookup-delete k j [] = ground arith
  lookup-delete k j ((i, w) ∷ m) = ground (arith, lookup-delete k j m)

  pub lookup-insert_self : (k : K) (v : V) (m : List (K × V)) → lookup k (insert k v m) ≡ some v
  lookup-insert_self k v m = ground (arith, lookup-insert k k v m)

  pub lookup-insert_ne :
      (k j : K) (v : V) (m : List (K × V)) → k ≢ j → lookup j (insert k v m) ≡ lookup j m
  lookup-insert_ne k j v m h = ground (arith, lookup-insert k j v m)

  pub lookup-delete_self : (k : K) (m : List (K × V)) → lookup k (delete k m) ≡ none
  lookup-delete_self k m = ground (arith, lookup-delete k k m)

  pub lookup-delete_ne : (k j : K) (m : List (K × V)) → k ≢ j → lookup j (delete k m) ≡ lookup j m
  lookup-delete_ne k j m h = ground (arith, lookup-delete k j m)

module _ {ℓ} {K : Type ℓ} (dec : Discrete K) where
  unfoldable pub contains : K → List K → Bool
  contains k [] = false
  contains k (j ∷ s) = elim (dec j k) [ yes _ ↦ true | no _ ↦ contains k s ]

  -- `s[k] = struct{}{}`
  unfoldable pub add : K → List K → List K
  add k [] = k ∷ []
  add k (j ∷ s) = ite (dec j k) (j ∷ s) (j ∷ add k s)

  unfoldable pub remove : K → List K → List K
  remove k [] = []
  remove k (j ∷ s) = ite (dec j k) (remove k s) (j ∷ remove k s)

  pub contains-add :
      (k j : K) (s : List K)
      → contains j (add k s) ≡ elim (dec k j) [ yes _ ↦ true | no _ ↦ contains j s ]
  unfolding contains add
  contains-add k j [] = refl
  contains-add k j (i ∷ s) = ground (arith, contains-add k j s)

  pub contains-remove :
      (k j : K) (s : List K)
      → contains j (remove k s) ≡ elim (dec k j) [ yes _ ↦ false | no _ ↦ contains j s ]
  unfolding contains remove
  contains-remove k j [] = ground arith
  contains-remove k j (i ∷ s) = ground (arith, contains-remove k j s)

  pub length-add : (k : K) (s : List K) → length (add k s) ≤ length s + 1
  unfolding add
  length-add k [] = omega arith
  length-add k (j ∷ s) = ground (arith, length-add k s)

  pub length-remove : (k : K) (s : List K) → length (remove k s) ≤ length s
  unfolding remove
  length-remove k [] = omega arith
  length-remove k (j ∷ s) = ground (arith, length-remove k s)

  pub All-contains {κ} : (Q : K → Type κ) (k : K) (s : List K) → All Q s → contains k s ≡ true → Q k
  unfolding contains
  All-contains Q k [] h e = cc
  All-contains Q k (j ∷ s) h e = elim (dec j k) [
    | yes p ↦ subst Q p h.0
    | no p ↦ All-contains Q k s h.1 (ground (arith, e))
  ]

  All-contains_cons :
      (x : K) (xs ys : List K)
      → All (λ p. contains p xs ≡ true) ys
      → All (λ p. contains p (x ∷ xs) ≡ true) ys
  unfolding contains
  All-contains_cons x xs [] h = tt
  All-contains_cons x xs (y ∷ ys) h = (ground (arith, h.0), All-contains_cons x xs ys h.1)

  pub All-contains_self : (xs : List K) → All (λ p. contains p xs ≡ true) xs
  unfolding contains
  All-contains_self [] = tt
  All-contains_self (x ∷ xs) = (ground arith, All-contains_cons x xs xs (All-contains_self xs))

  contains→mem : (k : K) (s : List K) → contains k s ≡ true → Mem k s
  unfolding contains
  contains→mem k [] e = cc
  contains→mem k (j ∷ s) e = elim (dec j k) [
    | yes p ↦ subst (λ x. Mem x (j ∷ s)) p mem-cons_self
    | no p ↦ mem-cons_of_mem j (contains→mem k s (ground (arith, e)))
  ]

  mem→contains : (k : K) (s : List K) → Mem k s → contains k s ≡ true
  unfolding contains
  mem→contains k [] m = absurd (not-mem-nil m)
  mem→contains k (j ∷ s) m =
      Or.elim (hlevel) (mem-cons.0 m) (λ e. ground (arith, e))
        (λ n. ground (arith, mem→contains k s n))

  pub contains-perm :
      (k : K) (xs ys : List K) → Perm xs ys → contains k xs ≡ true → contains k ys ≡ true
  contains-perm k xs ys p e = mem→contains k ys ((Perm.mem_iff p).0 (contains→mem k xs e))
