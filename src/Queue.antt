-- ===== src/Queue.antt =====
-- internal/queue/queue.go: the playback queue. The mutex makes each method one atomic step, so a
-- method is a function from the state to the new state (and its result).
pub mod Order
pub mod Insertion
mod Tests
use music_p2p.Prelude.{
  ℕ, suc, Bool, true, false, List, [], ◌∷◌, ◌++◌, Option, none, some, String, length, take, drop,
  if◌then◌else◌,
}
use music_p2p.Prelude.Int.{ℤ, pos, pos_part, ltb_ℤ, leb_ℤ}

pub record Item : Type 0 where
  pub cid : String
  pub title : String
  pub artist : String

-- Go's zero value `Item{}`.
abbrev pub empty_item : Item
empty_item = record { cid = ""; title = ""; artist = "" }

pub record Queue : Type 0 where
  pub items : List Item
  pub history : List Item
  pub current : Option Item

unfoldable pub new : Queue
new = record { items = []; history = []; current = none }

unfoldable pub enqueue : Item → Queue → Queue
enqueue item q = record q { items = q.items ++ item ∷ [] }

-- Go's `copy(dst, src)`: what `dst` holds afterwards.
pub copy_into : List Item → List Item → List Item
copy_into dst src = take (length dst) src ++ drop (length src) dst

-- `xs[i] = v`; no write out of range.
pub assign : List Item → ℕ → Item → List Item
assign xs i v = take i xs ++ elim (drop i xs) [ [] ↦ [] | x ∷ rest ↦ v ∷ rest ]

-- The slice `items` after it is grown by one, shifted right from `p` and written at `p`.
pub shift_in : ℕ → Item → List Item → List Item
unfolding copy_into assign
shift_in p item items =
    let grown = items ++ empty_item ∷ [] in
    let shifted = take (suc p) grown ++ copy_into (drop (suc p) grown) (drop p grown) in
    assign shifted p item

pub insert : ℤ → Item → Queue → Queue
insert at item q =
    let p = if ltb_ℤ at (pos 0) then pos 0 else at in
    if leb_ℤ (pos (length q.items)) p
    then record q { items = q.items ++ item ∷ [] }
    else record q { items = shift_in (pos_part p) item q.items }

-- The first part of `Next`: the current item, if any, goes to the history.
unfoldable pub retire : Queue → Queue
retire q = elim q.current [
  | none ↦ q
  | some item ↦ record q { history = q.history ++ item ∷ []; current = none }
]

unfoldable pub start_first : List Item → Queue → Queue × (Item × Bool)
start_first [] q = (q, (empty_item, false))
start_first (item ∷ rest) q = (record q { items = rest; current = some item }, (item, true))

unfoldable pub next : Queue → Queue × (Item × Bool)
unfolding retire start_first
next q = start_first q.items (retire q)

unfoldable pub peek : Queue → Item × Bool
peek q = elim q.items [ [] ↦ (empty_item, false) | item ∷ rest ↦ (item, true) ]

pub current_item : Queue → Item × Bool
current_item q = elim q.current [ none ↦ (empty_item, false) | some item ↦ (item, true) ]

pub played : Queue → List Item
played q = q.history

pub upcoming : Queue → List Item
upcoming q = q.items

pub len : Queue → ℕ
len q = length q.items

pub clear : Queue → Queue
clear q = record q { items = [] }

pub data Call : Type 0 where
  enqueues : Item → Call
  inserts : ℤ → Item → Call
  nexts clears : Call

unfoldable pub step : Queue → Call → Queue
step q (enqueues item) = enqueue item q
step q (inserts at item) = insert at item q
step q nexts = (next q).0
step q clears = clear q

unfoldable pub run : Queue → List Call → Queue
run q [] = q
run q (c ∷ cs) = run (step q c) cs
