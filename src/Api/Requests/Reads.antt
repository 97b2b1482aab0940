-- ===== src/Api/Requests/Reads.antt =====
-- internal/api/handlers.go: the requests that only ask.
use music_p2p.Prelude.{refl, inl, inr, List, arith, All, Option-cases, [], ◌∷◌}
use music_p2p.Scoring.{Floats}
use music_p2p.Api.Models as Models
use music_p2p.Api.Models.{Response, nothing}
use music_p2p.Api.Server.{Backends, Server, called, write_status, write_json}
use music_p2p.Api.Tracks.{handle_get_tracks, handle_stream_track, stream_audio}
use music_p2p.Api.Library.{
  handle_get_all_metadata, handle_search_metadata, handle_get_metadata, handle_publish_metadata,
  publish_metadata,
}
use music_p2p.Api.Playback.{
  handle_play, handle_stop, handle_seek, handle_playback_status, reply_playback,
}
use music_p2p.Api.Playlist.{
  handle_get_queue, handle_enqueue, handle_insert_queue, handle_clear_queue, handle_get_history,
  reply_added,
}
use music_p2p.Api.Peers.{
  handle_get_status, handle_get_peers, handle_connect_peer, handle_get_invite, handle_join,
  handle_get_peer_score, handle_dht_provide, handle_dht_providers, handle_engine_status,
  connect_addr, connect_to, reply_joined, count_join,
}
use music_p2p.Api.Requests.{Request, handle, run}
use music_p2p.Api.Requests.Kept.{IsKept}

module _ (fl : Floats) (bk : Backends fl) where
  open fl use {Float}

  -- Requests that only ask.
  abbrev pub IsRead : Request Float → Type 0
  IsRead (Request.share_track form) = ⊥
  IsRead (Request.delete_track cid) = ⊥
  IsRead (Request.publish_metadata body) = ⊥
  IsRead (Request.play body) = ⊥
  IsRead Request.stop = ⊥
  IsRead (Request.seek body) = ⊥
  IsRead (Request.enqueue body) = ⊥
  IsRead (Request.insert_queue body) = ⊥
  IsRead Request.clear_queue = ⊥
  IsRead r = Unit {0}

  handle-IsKept :
      (r : Request Float) (s : Server fl bk) → IsRead r → IsKept fl bk s (handle fl bk r s).0
  unfolding handle_stream_track stream_audio handle handle_get_tracks write_json write_status
      Models.ok Models.fail handle_get_all_metadata handle_search_metadata handle_get_metadata
      handle_publish_metadata publish_metadata called handle_play handle_stop handle_seek
      handle_playback_status reply_playback handle_get_queue handle_enqueue handle_insert_queue
      handle_clear_queue handle_get_history reply_added handle_get_status handle_get_peers
      handle_connect_peer handle_get_invite handle_join handle_get_peer_score handle_dht_provide
      handle_dht_providers handle_engine_status connect_addr connect_to reply_joined count_join
  handle-IsKept (Request.stream_track cid) s h = ground arith
  handle-IsKept (Request.connect_peer body) s h = ground arith
  handle-IsKept (Request.join body) s h = ground arith
  handle-IsKept (Request.get_status uptime) s h = elim (Option-cases bk.host) [
    | inl e ↦ rw (e, handle_get_status) (refl, refl, refl, refl, refl, refl)
    | inr (host, e) ↦ rw (e, handle_get_status) (refl, refl, refl, refl, refl, refl)
  ]
  handle-IsKept Request.get_tracks s h = ground arith
  handle-IsKept Request.get_all_metadata s h = ground arith
  handle-IsKept (Request.search_metadata query) s h = ground arith
  handle-IsKept (Request.get_metadata cid) s h = ground arith
  handle-IsKept Request.playback_status s h = ground arith
  handle-IsKept Request.get_queue s h = ground arith
  handle-IsKept Request.get_history s h = ground arith
  handle-IsKept Request.get_peers s h = ground arith
  handle-IsKept Request.get_invite s h = ground arith
  handle-IsKept (Request.get_peer_score peer_id) s h = ground arith
  handle-IsKept (Request.dht_provide cid) s h = ground arith
  handle-IsKept (Request.dht_providers cid) s h = ground arith
  handle-IsKept Request.engine_status s h = ground arith
  handle-IsKept r s h = absurd h

  IsKept-trans : (s t u : Server fl bk) → IsKept fl bk s t → IsKept fl bk t u → IsKept fl bk s u
  IsKept-trans s t u h k = ground arith

  -- Any requests that only ask, whatever they answer, leave the stored tracks, the metadata, the queue
  -- and the playback state as they were.
  pub run-IsKept :
      (rs : List (Request Float)) (s : Server fl bk)
      → All IsRead rs
      → IsKept fl bk s (run fl bk rs s)
  unfolding run
  run-IsKept [] s h = (refl, refl, refl, refl, refl, refl)
  run-IsKept (r ∷ rs) s h =
      IsKept-trans s (handle fl bk r s).0 (run fl bk rs (handle fl bk r s).0)
        (handle-IsKept r s h.0) (run-IsKept rs (handle fl bk r s).0 h.1)
