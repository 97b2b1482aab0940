-- ===== src/Queue/Insertion.antt =====
-- internal/queue/queue.go: `Insert` against its specification.
use music_p2p.Prelude.{
  ℕ, zero, suc, ◌<◌, ◌≡◌, refl, ap, List, [], ◌∷◌, ◌++◌, arith, length, take, drop, length-append,
  take_of_length-le, drop_of_length-le, append-nil,
}
use music_p2p.Prelude.Int.{ℤ, pos_part}
use music_p2p.Queue.{Item, Queue, copy_into, shift_in, insert, empty_item}

-- The list with the item at index `n`, or at the end if the list is shorter.
abbrev pub inserted : ℕ → Item → List Item → List Item
inserted n item items = take n items ++ item ∷ drop n items

take-append : (xs ys : List Item) → take (length xs) (xs ++ ys) ≡ xs
take-append [] ys = refl
take-append (x ∷ xs) ys = ap (◌∷◌ x) (take-append xs ys)

copy_into-shifted :
    (x : Item) (xs : List Item)
    → copy_into (xs ++ empty_item ∷ []) (x ∷ (xs ++ empty_item ∷ [])) ≡ x ∷ xs
unfolding copy_into
copy_into-shifted x xs =
    let n : length (xs ++ empty_item ∷ []) ≡ suc (length xs) =
      omega (arith, length-append xs (empty_item ∷ [])) in
    rw
      (
        n,
        take-append xs (empty_item ∷ []),
        drop_of_length-le (suc (suc (length xs))) (xs ++ empty_item ∷ []) (omega arith),
      )
      (append-nil (x ∷ xs))

shift_in-inserted :
    (n : ℕ) (item : Item) (items : List Item)
    → n < length items
    → shift_in n item items ≡ inserted n item items
unfolding shift_in
shift_in-inserted zero item (x ∷ xs) h = rw (copy_into-shifted x xs)
shift_in-inserted (suc n) item (x ∷ xs) h = ap (◌∷◌ x) (shift_in-inserted n item xs (omega arith))
shift_in-inserted n item [] h = absurd (omega arith)

-- `Insert` puts the item before the one at index `pos`: at the front for a negative `pos`, at the
-- end for one past the end. All other items keep their order, and the rest of the state is kept.
pub insert-inserted :
    (at : ℤ) (item : Item) (q : Queue)
    → insert at item q ≡ record q { items = inserted (pos_part at) item q.items }
unfolding insert
insert-inserted at item q = ground (
  arith,
  shift_in-inserted (pos_part at) item q.items,
  shift_in-inserted 0 item q.items,
  take_of_length-le (pos_part at) q.items,
  drop_of_length-le (pos_part at) q.items,
)
