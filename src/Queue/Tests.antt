-- ===== src/Queue/Tests.antt =====
-- internal/queue/queue.go: runs of the queue on concrete items.
use music_p2p.Prelude.{◌≡◌, refl, List, [], ◌∷◌, some, true}
use music_p2p.Prelude.Int.{pos}
use music_p2p.Queue.{
  Item, Queue, new, insert, retire, start_first, next, copy_into, assign, shift_in, Call, enqueues,
  nexts, run,
}
use music_p2p.Queue.Order.{timeline, timeline-run}
use music_p2p.Queue.Insertion.{insert-inserted}

abbrev first : Item
first = record { cid = "c1"; title = "One"; artist = "A" }

abbrev second : Item
second = record { cid = "c2"; title = "Two"; artist = "B" }

abbrev third : Item
third = record { cid = "c3"; title = "Three"; artist = "C" }

abbrev playing : Queue
playing = record { items = second ∷ third ∷ []; history = []; current = some first }

insert_test :
    (insert (pos 1) third (record playing { items = first ∷ second ∷ [] })).items
    ≡ first ∷ third ∷ second ∷ []
unfolding insert shift_in assign copy_into
insert_test = refl

next_test : (next playing).1 ≡ (second, true)
unfolding next retire start_first
next_test = refl

abbrev calls : List Call
calls = enqueues first ∷ nexts ∷ enqueues second ∷ enqueues third ∷ nexts ∷ []

timeline-run_example : timeline (run new calls) ≡ first ∷ second ∷ third ∷ []
timeline-run_example = timeline-run calls tt

insert-inserted_example :
    insert (pos 1) first playing ≡ record playing { items = second ∷ first ∷ third ∷ [] }
insert-inserted_example = insert-inserted (pos 1) first playing
