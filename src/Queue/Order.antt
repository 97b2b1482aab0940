-- ===== src/Queue/Order.antt =====
-- internal/queue/queue.go: the order in which items are played.
use music_p2p.Prelude.{
  ◌≡◌, sym, ap, ◌∙◌, List, [], ◌∷◌, ◌++◌, Option, none, some, append_assoc, append-nil, arith,
}
use music_p2p.Queue.{
  Item, Queue, new, enqueue, insert, retire, start_first, next, peek, clear, Call, enqueues,
  inserts, nexts, clears, step, run,
}

abbrev pub as_list : Option Item → List Item
as_list none = []
as_list (some item) = item ∷ []

-- Everything that was or will be played, in order.
abbrev pub timeline : Queue → List Item
timeline q = (q.history ++ as_list q.current) ++ q.items

-- The items of the `Enqueue` calls, in order.
abbrev pub enqueued : List Call → List Item
enqueued [] = []
enqueued (enqueues item ∷ cs) = item ∷ enqueued cs
enqueued (inserts at item ∷ cs) = enqueued cs
enqueued (nexts ∷ cs) = enqueued cs
enqueued (clears ∷ cs) = enqueued cs

-- Only `Enqueue` and `Next` are called.
abbrev pub IsFifo : List Call → Type 0
IsFifo [] = Unit {0}
IsFifo (enqueues item ∷ cs) = IsFifo cs
IsFifo (inserts at item ∷ cs) = ⊥
IsFifo (nexts ∷ cs) = IsFifo cs
IsFifo (clears ∷ cs) = ⊥

start_first-timeline :
    (items history : List Item)
    → timeline (start_first items (record { items = items; history = history; current = none })).0
      ≡ history ++ items
unfolding start_first
start_first-timeline [] h = simp (append-nil)
start_first-timeline (x ∷ xs) h = append_assoc h (x ∷ []) xs

next_parts :
    (items history : List Item) (current : Option Item)
    → timeline (next (record { items = items; history = history; current = current })).0
      ≡ (history ++ as_list current) ++ items
unfolding next retire start_first
next_parts items h none = rw (append-nil) (start_first-timeline items h)
next_parts [] h (some c) = simp append-nil
next_parts (x ∷ xs) h (some c) = append_assoc (h ++ c ∷ []) (x ∷ []) xs

-- `Next` moves items along the timeline and neither loses, repeats nor reorders any of them, also
-- when nothing is left to play.
pub timeline-next : (q : Queue) → timeline (next q).0 ≡ timeline q
timeline-next q = next_parts q.items q.history q.current

timeline-enqueue : (item : Item) (q : Queue) → timeline (enqueue item q) ≡ timeline q ++ item ∷ []
unfolding enqueue
timeline-enqueue item q = sym (append_assoc (q.history ++ as_list q.current) q.items (item ∷ []))

timeline-run_from :
    (q : Queue) (cs : List Call) → IsFifo cs → timeline (run q cs) ≡ timeline q ++ enqueued cs
unfolding run step
timeline-run_from q [] h = sym (append-nil (timeline q))
timeline-run_from q (enqueues item ∷ cs) h =
    timeline-run_from (enqueue item q) cs h
    ∙ rw (timeline-enqueue item q) (append_assoc (timeline q) (item ∷ []) (enqueued cs))
timeline-run_from q (inserts at item ∷ cs) h = absurd h
timeline-run_from q (nexts ∷ cs) h =
    timeline-run_from (next q).0 cs h ∙ ap (λ t. t ++ enqueued cs) (timeline-next q)
timeline-run_from q (clears ∷ cs) h = absurd h

-- From a new queue, after any mix of `Enqueue` and `Next`, the history, the current item and the
-- upcoming items are together exactly the enqueued items in the order of the calls.
pub timeline-run : (cs : List Call) → IsFifo cs → timeline (run new cs) ≡ enqueued cs
unfolding new
timeline-run cs h = timeline-run_from new cs h

-- `Next` returns what `Peek` shows; if there is an item it becomes the current one and leaves the
-- queue, if there is none the queue has no current item; and the item that was current ends the
-- history.
pub next-peek :
    (q : Queue)
    → ((next q).1 ≡ peek q)
      × ((next q).0.current ≡ (elim q.items [ [] ↦ none | item ∷ rest ↦ some item ]))
      × ((next q).0.items ≡ (elim q.items [ [] ↦ [] | item ∷ rest ↦ rest ]))
      × ((next q).0.history ≡ q.history ++ as_list q.current)
unfolding next retire start_first peek
next-peek q = ground (arith, append-nil q.history)

-- The history only grows: after any calls it starts with the history before them.
pub history-run :
    (q : Queue) (cs : List Call) → (more : List Item) × ((run q cs).history ≡ q.history ++ more)
unfolding run step enqueue clear insert
history-run q [] = ([], sym (append-nil q.history))
history-run q (enqueues item ∷ cs) = history-run (enqueue item q) cs
history-run q (inserts at item ∷ cs) = ground (arith, history-run (insert at item q) cs)
history-run q (nexts ∷ cs) =
    let (more, e) = history-run (next q).0 cs in
    (
      as_list q.current ++ more,
      e ∙ rw ((next-peek q).3) (append_assoc q.history (as_list q.current) more),
    )
history-run q (clears ∷ cs) = history-run (clear q) cs
