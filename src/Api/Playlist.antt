-- ===== src/Api/Playlist.antt =====
-- internal/api/handlers.go: the handlers of the routes under /queue.
use Prim.Native.String.{◌++◌}
use music_p2p.Prelude.{List, [], map, Option, none, some, if◌then◌else◌}
use music_p2p.Prelude.Int.{ℤ, pos}
use music_p2p.Scoring.{Floats}
use music_p2p.Metadata.{is_empty}
use music_p2p.Queue.{Item, Queue, enqueue, insert, clear, current_item, upcoming, played}
use music_p2p.Api.Models as Models
use music_p2p.Api.Models.{
  QueueItemRequest, QueueItemResponse, QueueState, to_queue_item_response, fail,
}
use music_p2p.Api.Server.{Outcome, value, error, Backends, Server, Reply, write_status, write_json}

unfoldable pub requested_item : QueueItemRequest → Item
requested_item req = record { cid = req.cid; title = req.title; artist = req.artist }

-- `if cur, ok2 := s.q.Current(); ok2`
unfoldable pub shown_current : Queue → Option QueueItemResponse
shown_current q =
    let (item, found) = current_item q in if found then some (to_queue_item_response item) else none

unfoldable pub shown_upcoming : Option Queue → List QueueItemResponse
shown_upcoming none = []
shown_upcoming (some q) = map to_queue_item_response (upcoming q)

unfoldable pub enqueue_at : Option Queue → Item → Option Queue
enqueue_at none item = none
enqueue_at (some q) item = some (enqueue item q)

unfoldable pub insert_at : Option Queue → Option ℤ → Item → Option Queue
insert_at none position item = none
insert_at (some q) none item = some (insert (pos 0) item q)
insert_at (some q) (some at) item = some (insert at item q)

unfoldable pub clear_at : Option Queue → Option Queue
clear_at none = none
clear_at (some q) = some (clear q)

module _ (fl : Floats) (bk : Backends fl) where
  unfoldable pub handle_get_queue : Server fl bk → Server fl bk × Reply fl bk
  handle_get_queue s =
      let current : Option QueueItemResponse = elim s.q [
        | none ↦ none
        | some q ↦ shown_current q
      ] in
      let state : QueueState = record { current = current; upcoming = shown_upcoming s.q } in
      (s, write_json fl bk (Models.ok (Models.queue state)))

  -- The reply of both handlers that add an item: no current item, and the upcoming ones.
  unfoldable pub reply_added : Server fl bk → Server fl bk × Reply fl bk
  reply_added s =
      let state : QueueState = record { current = none; upcoming = shown_upcoming s.q } in
      (s, write_status fl bk 201 (Models.ok (Models.queue state)))

  unfoldable pub handle_enqueue :
      Outcome QueueItemRequest → Server fl bk → Server fl bk × Reply fl bk
  handle_enqueue (error e) s = (s, write_status fl bk 400 (fail ("invalid request: " ++ e)))
  handle_enqueue (value req) s =
      if is_empty req.cid
      then (s, write_status fl bk 400 (fail "cid is required"))
      else reply_added (record s { q = enqueue_at s.q (requested_item req) })

  unfoldable pub handle_insert_queue :
      Outcome QueueItemRequest → Server fl bk → Server fl bk × Reply fl bk
  handle_insert_queue (error e) s = (s, write_status fl bk 400 (fail ("invalid request: " ++ e)))
  handle_insert_queue (value req) s =
      if is_empty req.cid
      then (s, write_status fl bk 400 (fail "cid is required"))
      else reply_added (record s { q = insert_at s.q req.position (requested_item req) })

  unfoldable pub handle_clear_queue : Server fl bk → Server fl bk × Reply fl bk
  handle_clear_queue s =
      (record s { q = clear_at s.q }, write_json fl bk (Models.ok Models.nothing))

  unfoldable pub handle_get_history : Server fl bk → Server fl bk × Reply fl bk
  handle_get_history s =
      let items : List QueueItemResponse = elim s.q [
        | none ↦ []
        | some q ↦ map to_queue_item_response (played q)
      ] in
      (s, write_json fl bk (Models.ok (Models.queue_items items)))
