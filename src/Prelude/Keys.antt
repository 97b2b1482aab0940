-- ===== src/Prelude/Keys.antt =====
-- Maps keyed by numbers: distinct keys in a range, and how many of them there can be.
use Prim.Native.Nat.{ℕ, zero, suc, ◌+◌, ◌≤◌, ◌<◌}
use mathlib.Core.Path.{◌≡◌, refl, ap, ◌∙◌}
use mathlib.Core.Logic.{if_pos, if_neg}
use mathlib.Core.List.{List, [], ◌∷◌}
use mathlib.Core.Option.{none, some}
use music_p2p.Prelude.Lists.{length, All}
use music_p2p.Prelude.Assoc.{lookup, insert, delete, lookup-insert, lookup-delete, lookup-delete_ne}
use native.Mathlib.Decide.{ℕ_discrete}
use native.Mathlib.Omega.{arith}

module _ {V : Type 0} where
  abbrev pub InRange : ℕ → ℕ → List (ℕ × V) → Type 0
  InRange lo hi = All (λ e. (lo ≤ e.0) × (e.0 < hi))

  abbrev pub IsDistinct : List (ℕ × V) → Type 0
  IsDistinct [] = Unit {0}
  IsDistinct (e ∷ m) = (lookup ℕ_discrete e.0 m ≡ none) × IsDistinct m

  pub lookup-InRange :
      (lo hi k : ℕ) {v : V} (m : List (ℕ × V))
      → InRange lo hi m
      → lookup ℕ_discrete k m ≡ some v
      → (lo ≤ k) × (k < hi)
  unfolding lookup
  lookup-InRange lo hi k {v} [] h e = cc
  lookup-InRange lo hi k {v} ((j, w) ∷ m) h e = elim (ℕ_discrete j k) [
    | yes p ↦ ground arith
    | no p ↦ lookup-InRange lo hi k {v = v} m h.1 (ground (arith, e))
  ]

  pub insert-InRange :
      (lo hi k : ℕ) (v : V) (m : List (ℕ × V))
      → InRange lo hi m
      → lo ≤ k
      → k < hi
      → InRange lo hi (insert ℕ_discrete k v m)
  unfolding insert
  insert-InRange lo hi k v [] h p q = (omega arith, tt)
  insert-InRange lo hi k v ((j, w) ∷ m) h p q = elim (ℕ_discrete j k) [
    | yes e ↦ rw (if_pos _ e) (omega arith, h.1)
    | no e ↦ rw (if_neg _ e) (h.0, insert-InRange lo hi k v m h.1 p q)
  ]

  pub insert-IsDistinct :
      (k : ℕ) (v : V) (m : List (ℕ × V)) → IsDistinct m → IsDistinct (insert ℕ_discrete k v m)
  unfolding insert lookup
  insert-IsDistinct k v [] d = (refl, tt)
  insert-IsDistinct k v ((j, w) ∷ m) d = elim (ℕ_discrete j k) [
    | yes e ↦ rw (if_pos _ e) (ground (arith, d.0), d.1)
    | no e ↦
        rw (if_neg _ e)
          (ground (arith, lookup-insert ℕ_discrete k j v m), insert-IsDistinct k v m d.1)
  ]

  pub length-insert_new :
      (k : ℕ) (v : V) (m : List (ℕ × V))
      → lookup ℕ_discrete k m ≡ none
      → length (insert ℕ_discrete k v m) ≡ length m + 1
  unfolding insert lookup
  length-insert_new k v [] e = refl
  length-insert_new k v ((j, w) ∷ m) e = ground (arith, length-insert_new k v m)

  pub length-insert_old :
      (k : ℕ) (v : V) {w : V} (m : List (ℕ × V))
      → lookup ℕ_discrete k m ≡ some w
      → length (insert ℕ_discrete k v m) ≡ length m
  unfolding insert lookup
  length-insert_old k v [] e = cc
  length-insert_old k v {w} ((j, x) ∷ m) e = ground (arith, length-insert_old k v {w = w} m)

  delete-missing :
      (k : ℕ) (m : List (ℕ × V)) → lookup ℕ_discrete k m ≡ none → delete ℕ_discrete k m ≡ m
  unfolding delete lookup
  delete-missing k [] e = refl
  delete-missing k ((j, w) ∷ m) e = ground (arith, delete-missing k m)

  pub length-delete :
      (k : ℕ) {v : V} (m : List (ℕ × V))
      → IsDistinct m
      → lookup ℕ_discrete k m ≡ some v
      → length (delete ℕ_discrete k m) + 1 ≡ length m
  unfolding delete lookup
  length-delete k [] d e = cc
  length-delete k {v} ((j, w) ∷ m) d e =
      ground (arith, d.0, delete-missing k m, length-delete k {v = v} m d.1)

  length-delete-le :
      (k : ℕ) (m : List (ℕ × V)) → IsDistinct m → length m ≤ length (delete ℕ_discrete k m) + 1
  unfolding delete lookup
  length-delete-le k [] d = omega arith
  length-delete-le k ((j, w) ∷ m) d =
      ground (arith, d.0, delete-missing k m, length-delete-le k m d.1)

  pub delete-IsDistinct :
      (k : ℕ) (m : List (ℕ × V)) → IsDistinct m → IsDistinct (delete ℕ_discrete k m)
  unfolding delete
  delete-IsDistinct k [] d = tt
  delete-IsDistinct k ((j, w) ∷ m) d = elim (ℕ_discrete j k) [
    | yes e ↦ rw (if_pos _ e) (delete-IsDistinct k m d.1)
    | no e ↦
        rw (if_neg _ e)
          (ground (arith, d.0, lookup-delete ℕ_discrete k j m), delete-IsDistinct k m d.1)
  ]

  -- What is left after the lowest key is gone.
  pub delete-InRange :
      (lo hi : ℕ) (m : List (ℕ × V))
      → InRange lo hi m
      → InRange (suc lo) hi (delete ℕ_discrete lo m)
  unfolding delete
  delete-InRange lo hi [] h = tt
  delete-InRange lo hi ((j, w) ∷ m) h = elim (ℕ_discrete j lo) [
    | yes e ↦ rw (if_pos _ e) (delete-InRange lo hi m h.1)
    | no e ↦ rw (if_neg _ e) (omega arith, delete-InRange lo hi m h.1)
  ]

  -- A range of `n` numbers holds at most `n` distinct keys, and fewer if one of them is missing.
  pub length-le :
      (n lo hi : ℕ) (m : List (ℕ × V)) → lo + n ≡ hi → InRange lo hi m → IsDistinct m → length m ≤ n
  length-le zero lo hi [] e h d = omega arith
  length-le zero lo hi (x ∷ m) e h d = absurd (omega (arith, h.0))
  length-le (suc n) lo hi m e h d = omega (
    arith,
    length-delete-le lo m d,
    length-le n (suc lo) hi (delete ℕ_discrete lo m) (omega arith) (delete-InRange lo hi m h)
        (delete-IsDistinct lo m d),
  )

  pub length-lt :
      (n lo hi k : ℕ) (m : List (ℕ × V))
      → lo + n ≡ hi
      → InRange lo hi m
      → IsDistinct m
      → lookup ℕ_discrete k m ≡ none
      → lo ≤ k
      → k < hi
      → length m < n
  length-lt zero lo hi k m e h d f p q = absurd (omega arith)
  length-lt (suc n) lo hi k m e h d f p q = elim (ℕ_discrete k lo) [
    | yes g ↦
        let same : delete ℕ_discrete lo m ≡ m = delete-missing lo m (rw (← g) f) in
        omega (
          arith,
          ap length same,
          length-le n (suc lo) hi (delete ℕ_discrete lo m) (omega arith) (delete-InRange lo hi m h)
              (delete-IsDistinct lo m d),
        )
    | no g ↦ omega (
      arith,
      length-delete-le lo m d,
      length-lt n (suc lo) hi k (delete ℕ_discrete lo m) (omega arith) (delete-InRange lo hi m h)
          (delete-IsDistinct lo m d) (ground (arith, f, lookup-delete ℕ_discrete lo k m))
          (omega arith) q,
    )
  ]

  -- Where `n` numbers in a row are keys there are at least `n` entries.
  pub length-ge :
      (n lo : ℕ) (m : List (ℕ × V))
      → IsDistinct m
      → ((k : ℕ) → lo ≤ k → k < lo + n → (v : V) × (lookup ℕ_discrete k m ≡ some v))
      → n ≤ length m
  length-ge zero lo m d h = omega arith
  length-ge (suc n) lo m d h =
      let (v, e) = h lo (omega arith) (omega arith) in
      let rest = length-ge n (suc lo) (delete ℕ_discrete lo m) (delete-IsDistinct lo m d) (λ k p q.
        let (w, f) = h k (omega (arith, p)) (omega (arith, q)) in
        (w, lookup-delete_ne ℕ_discrete lo k m (λ g. omega (arith, g, p)) ∙ f)) in
      omega (arith, rest, length-delete lo {v = v} m d e)
