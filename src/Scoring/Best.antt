-- ===== src/Scoring/Best.antt =====
-- internal/scoring/scoring.go: `BestPeers`.
use mathlib.Core.List.Perm
use mathlib.Core.List.{Perm, foldr}
use music_p2p.Prelude.{
  min, refl, sym, ap, ◌∙◌, ℕ, zero, suc, ◌<◌, ◌≡◌, Bool, true, false, List, [], ◌∷◌, ◌++◌, arith,
  length, take, drop, ltb, if◌then◌else◌, All, All-imp, All-take, All-drop, take-append-drop,
  length-take,
}
use music_p2p.Prelude.Assoc.{contains, All-contains_self, contains-perm}
use music_p2p.Prelude.Sorting.{SliceSort, StrictWeak, IsSorted}
use native.Mathlib.Nat.{ℕ_set}
use music_p2p.Ranking.{Ranks}
use music_p2p.Scoring.{Floats, Stats, score, better, best_peers}

module _ {ℓ} {A : Type ℓ} where
  -- Of a sorted list no later element is less than an earlier one.
  IsSorted-split :
      (less : A → A → Bool) (n : ℕ) (xs : List A)
      → IsSorted less xs
      → All (λ a. All (λ b. less b a ≡ false) (drop n xs)) (take n xs)
  IsSorted-split less zero xs h = tt
  IsSorted-split less (suc n) [] h = tt
  IsSorted-split less (suc n) (x ∷ xs) h =
      (All-drop (λ b. less b x ≡ false) n xs h.0, IsSorted-split less n xs h.1)

  IsSorted-take :
      (less : A → A → Bool) (n : ℕ) (xs : List A) → IsSorted less xs → IsSorted less (take n xs)
  IsSorted-take less zero xs h = tt
  IsSorted-take less (suc n) [] h = tt
  IsSorted-take less (suc n) (x ∷ xs) h =
      (All-take (λ y. less y x ≡ false) n xs h.0, IsSorted-take less n xs h.1)

  length-perm : (xs ys : List A) → Perm xs ys → 0 < length ys → 0 < length xs
  length-perm [] [] p h = h
  length-perm [] (y ∷ ys) p h = cc (Perm.nil-eq p)
  length-perm (x ∷ xs) ys p h = omega arith

  abbrev count_one : A → ℕ → ℕ
  count_one x n = suc n

  length-foldr : (xs : List A) → foldr count_one 0 xs ≡ length xs
  length-foldr [] = refl
  length-foldr (x ∷ xs) = ap suc (length-foldr xs)

  length-perm_eq : (xs ys : List A) → Perm xs ys → length xs ≡ length ys
  length-perm_eq xs ys p =
      sym (length-foldr xs) ∙ Perm.foldr-eq ℕ_set count_one (λ a b n. refl) p 0 ∙ length-foldr ys

module _ (fl : Floats) {P : Type 0} (dec : Discrete P) (sorter : SliceSort P)
    (stats : Stats fl dec) where
  abbrev sorted : List P → List P
  sorted = sorter.sort (better fl dec stats)

  abbrev clamp : ℕ → List P → ℕ
  clamp n cs = if ltb (length (sorted cs)) n then length (sorted cs) else n

  best_peers-member :
      (n : ℕ) (cs : List P)
      → All (λ p. contains dec p cs ≡ true) (best_peers fl dec sorter stats n cs)
  unfolding best_peers
  best_peers-member n cs =
      All-take (λ p. contains dec p cs ≡ true) (clamp n cs) (sorted cs)
        (All-imp _ _ (sorted cs)
          (λ p h. contains-perm dec p (sorted cs) cs (sorter.sort-perm (better fl dec stats) cs) h)
          (All-contains_self dec (sorted cs)))

  best_peers-some : (cs : List P) → 0 < length cs → 0 < length (best_peers fl dec sorter stats 1 cs)
  unfolding best_peers
  best_peers-some cs h =
      let some = length-perm (sorted cs) cs (sorter.sort-perm (better fl dec stats) cs) h in
      ground (arith, some, length-take (clamp 1 cs) (sorted cs))

  -- `BestPeers` meets what the scheduler needs of it, whatever the scores are: it chooses among the
  -- peers that it is given, and some peer of one or more.
  pub best_peers-Ranks : Ranks dec (best_peers fl dec sorter stats)
  best_peers-Ranks = record { member = best_peers-member; some_best = best_peers-some }

  -- The scores are compared by a strict weak order, as float64 is where no score is NaN. Then
  -- `BestPeers` splits the candidates in those that it returns and the rest, and no score of the
  -- rest is higher than one of those that it returns; these stand in descending order, and they are `n`, or
  -- all if there are fewer.
  pub best_peers-best :
      (n : ℕ) (cs : List P)
      → StrictWeak (better fl dec stats)
      → (rest : List P) × Perm (best_peers fl dec sorter stats n cs ++ rest) cs
        × All
            (λ a. All (λ b. fl.less (score fl dec stats a) (score fl dec stats b) ≡ false) rest)
            (best_peers fl dec sorter stats n cs)
        × IsSorted (better fl dec stats) (best_peers fl dec sorter stats n cs)
        × (length (best_peers fl dec sorter stats n cs) ≡ min n (length cs))
  unfolding best_peers
  best_peers-best n cs w =
      let s = sorter.sort-IsSorted (better fl dec stats) cs w in
      let k = clamp n cs in
      (
        drop k (sorted cs),
        rw (take-append-drop k (sorted cs)) (sorter.sort-perm (better fl dec stats) cs),
        IsSorted-split (better fl dec stats) k (sorted cs) s,
        IsSorted-take (better fl dec stats) k (sorted cs) s,
        ground (
          arith,
          length-take k (sorted cs),
          length-perm_eq (sorted cs) cs (sorter.sort-perm (better fl dec stats) cs),
        ),
      )
