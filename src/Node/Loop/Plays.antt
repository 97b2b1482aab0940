-- ===== src/Node/Loop/Plays.antt =====
-- cmd/node/main.go: the loop plays every item once, in order, and ends.
use music_p2p.Prelude.{
  ℕ, zero, suc, ◌<◌, ◌≡◌, refl, String, List, [], ◌∷◌, ◌++◌, map, Option, none, some, arith, length,
}
use music_p2p.Node.Loop.{
  take_turn, Turn, not_started, cancelled, not_played, finished, interrupted, Event, starts, plays,
  halts, stops, queue_empty, Played, play_rounds,
}
use music_p2p.Queue.{Item, Queue, next, retire, start_first}
use music_p2p.Queue.Order.{timeline, timeline-next}

-- The CIDs whose streams were started, in order.
pub started : List Event → List String
started [] = []
started (starts cid ∷ es) = cid ∷ started es
started (plays cid ∷ es) = started es
started (halts ∷ es) = started es
started (stops ∷ es) = started es

-- Neither a cancelled wait nor a signal.
abbrev pub GoesOn : Turn → Type 0
GoesOn not_started = Unit {0}
GoesOn cancelled = ⊥
GoesOn not_played = Unit {0}
GoesOn finished = Unit {0}
GoesOn interrupted = ⊥

-- Every item of the queue was started once, in order, and none is left.
abbrev pub IsPlayed : Queue → Played → Type 0
IsPlayed q p =
    (p.ending ≡ queue_empty)
    × (started p.events ≡ map (λ item. item.cid) q.items)
    × (p.queue.items ≡ [])
    × (timeline p.queue ≡ timeline q)

take_turn-IsPlayed :
    (t : Turn) (x : Item) (q q' : Queue) (rest : Played)
    → GoesOn t
    → q.items ≡ x ∷ q'.items
    → timeline q' ≡ timeline q
    → IsPlayed q' rest
    → IsPlayed q (take_turn t x q' rest)
unfolding take_turn started
take_turn-IsPlayed not_started x q q' rest g i t p = ground (arith, i, t, p)
take_turn-IsPlayed not_played x q q' rest g i t p = ground (arith, i, t, p)
take_turn-IsPlayed finished x q q' rest g i t p = ground (arith, i, t, p)
take_turn-IsPlayed cancelled x q q' rest g i t p = absurd g
take_turn-IsPlayed interrupted x q q' rest g i t p = absurd g

play_rounds-items :
    (fuel round : ℕ) (turn : ℕ → Turn) (items history : List Item) (current : Option Item)
    → length items < fuel
    → ((n : ℕ) → GoesOn (turn n))
    → let q : Queue = record { items = items; history = history; current = current } in
      IsPlayed q (play_rounds fuel round turn q)
unfolding play_rounds started next start_first retire
play_rounds-items zero round turn items history current h g = absurd (omega arith)
play_rounds-items (suc fuel) round turn [] history none h g = (refl, refl, refl, refl)
play_rounds-items (suc fuel) round turn [] history (some c) h g =
    let q : Queue = record { items = []; history = history; current = some c } in
    (refl, refl, refl, timeline-next q)
play_rounds-items (suc fuel) round turn (x ∷ xs) history none h g =
    let q : Queue = record { items = x ∷ xs; history = history; current = none } in
    take_turn-IsPlayed (turn round) x q (next q).0 _ (g round) refl (timeline-next q)
      (play_rounds-items fuel (suc round) turn xs history (some x) (omega arith) g)
play_rounds-items (suc fuel) round turn (x ∷ xs) history (some c) h g =
    let q : Queue = record { items = x ∷ xs; history = history; current = some c } in
    take_turn-IsPlayed (turn round) x q (next q).0 _ (g round) refl (timeline-next q)
      (play_rounds-items fuel (suc round) turn xs (history ++ c ∷ []) (some x) (omega arith) g)

-- If no wait is cancelled and no signal comes, one round more than the queue has items is enough for the
-- loop to end because the queue is empty. By then the stream of every item was started, exactly once
-- and in the order of the queue, also when some could not be started or played; and the history and
-- the current item hold all of them.
pub play_rounds-IsPlayed :
    (fuel round : ℕ) (turn : ℕ → Turn) (q : Queue)
    → length q.items < fuel
    → ((n : ℕ) → GoesOn (turn n))
    → IsPlayed q (play_rounds fuel round turn q)
play_rounds-IsPlayed fuel round turn q h g =
    play_rounds-items fuel round turn q.items q.history q.current h g
