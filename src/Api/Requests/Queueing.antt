-- ===== src/Api/Requests/Queueing.antt =====
-- internal/api/handlers.go: the queue behind the API against internal/queue/queue.go.
use music_p2p.Prelude.{
  [], arith, ap, none, Option, ◌∷◌, if◌then◌else◌, ◌∙◌, ◌≡◌, refl, sym, List, some,
}
use music_p2p.Prelude.Int.{ℤ, pos}
use music_p2p.Queue as Queue
use music_p2p.Metadata.{is_empty}
use music_p2p.Queue.{Item, Queue, Call, enqueues, inserts, clears, step}
use music_p2p.Scoring.{Floats}
use music_p2p.Api.Models as Models
use music_p2p.Api.Server.{error, Outcome, value, Backends, Server, called, write_status, write_json}
use music_p2p.Api.Models.{QueueItemRequest, Response, nothing}
use music_p2p.Api.Requests.{run, Request, handle}
use music_p2p.Api.Tracks.{
  save_metadata, announce_track, ShareForm, upload, handle_get_tracks, handle_share_track,
  handle_stream_track, handle_delete_track, share_form, share_upload, share_loaded, delete_stored,
  stream_audio, share_described,
}
use music_p2p.Api.Playback.{
  play, stop, handle_play, handle_stop, handle_seek, handle_playback_status, reply_playback,
}
use music_p2p.Api.Playlist.{
  requested_item, enqueue_at, insert_at, clear_at, handle_get_queue, handle_enqueue,
  handle_insert_queue, handle_clear_queue, handle_get_history, reply_added,
}
use music_p2p.Api.Library.{
  handle_get_all_metadata, handle_search_metadata, handle_get_metadata, handle_publish_metadata,
  publish_metadata,
}
use music_p2p.Api.Peers.{
  handle_get_status, handle_get_peers, handle_connect_peer, handle_get_invite, handle_join,
  handle_get_peer_score, handle_dht_provide, handle_dht_providers, handle_engine_status,
  connect_addr, connect_to, reply_joined, count_join,
}

-- The call of the queue that a request makes when it is accepted.
unfoldable pub accepted : Outcome QueueItemRequest → (Item → Call) → Option Call
accepted (error e) call = none
accepted (value req) call = if is_empty req.cid then none else some (call (requested_item req))

abbrev pub position_of : Outcome QueueItemRequest → ℤ
position_of (error e) = pos 0
position_of (value req) = elim req.position [ none ↦ pos 0 | some at ↦ at ]

abbrev pub queue_call : {Float : Type 0} → Request Float → Option Call
queue_call (Request.enqueue body) = accepted body enqueues
queue_call (Request.insert_queue body) = accepted body (inserts (position_of body))
queue_call Request.clear_queue = some clears
queue_call r = none

-- The calls that the accepted requests of a run make, in order.
pub queue_calls : {Float : Type 0} → List (Request Float) → List Call
queue_calls [] = []
queue_calls (r ∷ rs) = elim (queue_call r) [ none ↦ queue_calls rs | some c ↦ c ∷ queue_calls rs ]

abbrev after : Queue → Option Call → Queue
after q none = q
after q (some c) = step q c

run_after :
    (o : Option Call) (cs : List Call) (q : Queue)
    → Queue.run q (elim o [ none ↦ cs | some c ↦ c ∷ cs ]) ≡ Queue.run (after q o) cs
unfolding Queue.run
run_after none cs q = refl
run_after (some c) cs q = refl

module _ (fl : Floats) (bk : Backends fl) where
  open fl use {Float}

  share_track-q :
      (form : ShareForm) (s : Server fl bk) → (handle_share_track fl bk form s).0.q ≡ s.q
  unfolding handle_share_track share_form share_upload share_described share_loaded save_metadata
      announce_track called
  share_track-q (upload filename announce temp contents) s = ground arith
  share_track-q form s = ground arith

  handle-q :
      (r : Request Float) (s : Server fl bk) (q : Queue)
      → s.q ≡ some q
      → (handle fl bk r s).0.q ≡ some (after q (queue_call r))
  unfolding handle handle_get_tracks write_json write_status Models.ok Models.fail
      handle_get_all_metadata handle_search_metadata handle_get_metadata handle_publish_metadata
      publish_metadata called handle_play handle_stop handle_seek handle_playback_status
      reply_playback handle_get_queue handle_enqueue handle_insert_queue handle_clear_queue
      handle_get_history reply_added handle_get_status handle_get_peers handle_connect_peer
      handle_get_invite handle_join handle_get_peer_score handle_dht_provide handle_dht_providers
      handle_engine_status connect_addr connect_to reply_joined count_join handle_stream_track
      stream_audio handle_delete_track delete_stored play stop enqueue_at insert_at clear_at
      accepted step
  handle-q (Request.share_track form) s q e = share_track-q form s ∙ e
  handle-q (Request.enqueue (value req)) s q e = ground arith
  handle-q (Request.insert_queue (value req)) s q e = ground arith
  handle-q r s q e = ground arith

  -- For a server with a queue, the queue behind the API is the queue of the calls: after any
  -- requests it is what the calls of `Enqueue`, `Insert` and `Clear` that the accepted ones stand
  -- for, in their order, make of it.
  pub run-queue_calls :
      (rs : List (Request Float)) (s : Server fl bk) (q : Queue)
      → s.q ≡ some q
      → (run fl bk rs s).q ≡ some (Queue.run q (queue_calls rs))
  unfolding run Queue.run queue_calls
  run-queue_calls [] s q e = e
  run-queue_calls (r ∷ rs) s q e =
      run-queue_calls rs (handle fl bk r s).0 (after q (queue_call r)) (handle-q r s q e)
      ∙ ap some (sym (run_after (queue_call r) (queue_calls rs) q))
