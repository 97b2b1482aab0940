-- ===== src/Api/Requests/Playing.antt =====
-- internal/api/handlers.go: the playback state over runs of requests.
use music_p2p.Prelude.{◌∷◌, [], arith, ap, All, ◌++◌, ◌∙◌, ◌≡◌, refl, true, false, String, List}
use music_p2p.Prelude.Int.{ℤ, pos}
use music_p2p.Metadata.{is_empty}
use music_p2p.Queue.{step}
use music_p2p.Scoring.{Floats}
use music_p2p.Api.Models as Models
use music_p2p.Api.Server.{error, value, Backends, Server, called, write_status, write_json}
use music_p2p.Api.Models.{PlayRequest, PlaybackStatus, Response, nothing}
use music_p2p.Api.Requests.{run, Request, handle}
use music_p2p.Api.Tracks.{
  save_metadata, announce_track, ShareForm, upload, handle_get_tracks, handle_share_track,
  handle_stream_track, handle_delete_track, share_form, share_upload, share_loaded, delete_stored,
  stream_audio, share_described,
}
use music_p2p.Api.Playback.{
  play, stop, playback_status, handle_play, handle_stop, handle_seek, handle_playback_status,
  reply_playback,
}
use music_p2p.Api.Playlist.{
  enqueue_at, insert_at, clear_at, handle_get_queue, handle_enqueue, handle_insert_queue,
  handle_clear_queue, handle_get_history, reply_added,
}
use music_p2p.Api.Library.{
  handle_get_all_metadata, handle_search_metadata, handle_get_metadata, handle_publish_metadata,
  publish_metadata,
}
use music_p2p.Api.Peers.{
  handle_get_status, handle_get_peers, handle_connect_peer, handle_get_invite, handle_join,
  handle_get_peer_score, handle_dht_provide, handle_dht_providers, handle_engine_status,
  connect_addr, connect_to, reply_joined, count_join,
}

module _ {Float : Type 0} where
  -- Neither an accepted `play` nor a `stop`.
  abbrev pub IsQuiet : Request Float → Type 0
  IsQuiet (Request.play (value req)) = is_empty req.cid ≡ true
  IsQuiet Request.stop = ⊥
  IsQuiet r = Unit {0}

  -- The position that the last accepted `seek` asks for.
  abbrev pub position : Request Float → ℤ → ℤ
  position (Request.seek (value req)) at = req.chunk_index
  position r at = at

  unfoldable pub last_position : List (Request Float) → ℤ → ℤ
  last_position [] at = at
  last_position (r ∷ rs) at = last_position rs (position r at)

abbrev playing_at : String → ℤ → PlaybackStatus
playing_at cid at = record { playing = true; cid = cid; chunk_index = at; buffer_level = 0 }

module _ (fl : Floats) (bk : Backends fl) where
  open fl use {Float}

  share_track-playback :
      (form : ShareForm) (s : Server fl bk)
      → playback_status fl bk (handle_share_track fl bk form s).0 ≡ playback_status fl bk s
  unfolding handle_share_track share_form share_upload share_described share_loaded save_metadata
      announce_track called playback_status
  share_track-playback (upload filename announce temp contents) s = ground arith
  share_track-playback form s = ground arith

  handle-playback :
      (r : Request Float) (s : Server fl bk) (cid : String) (at : ℤ)
      → IsQuiet r
      → playback_status fl bk s ≡ playing_at cid at
      → playback_status fl bk (handle fl bk r s).0 ≡ playing_at cid (position r at)
  unfolding handle handle_get_tracks write_json write_status Models.ok Models.fail
      handle_get_all_metadata handle_search_metadata handle_get_metadata handle_publish_metadata
      publish_metadata called handle_play handle_stop handle_seek handle_playback_status
      reply_playback handle_get_queue handle_enqueue handle_insert_queue handle_clear_queue
      handle_get_history reply_added handle_get_status handle_get_peers handle_connect_peer
      handle_get_invite handle_join handle_get_peer_score handle_dht_provide handle_dht_providers
      handle_engine_status connect_addr connect_to reply_joined count_join handle_stream_track
      stream_audio handle_delete_track delete_stored play stop enqueue_at insert_at clear_at step
      playback_status
  handle-playback (Request.share_track form) s cid at h e = share_track-playback form s ∙ e
  handle-playback (Request.play (value req)) s cid at h e = ground arith
  handle-playback (Request.play (error msg)) s cid at h e = ground arith
  handle-playback (Request.seek (value req)) s cid at h e = ground arith
  handle-playback (Request.seek (error msg)) s cid at h e = ground arith
  handle-playback r s cid at h e = ground arith

  run_quiet :
      (rs : List (Request Float)) (s : Server fl bk) (cid : String) (at : ℤ)
      → All IsQuiet rs
      → playback_status fl bk s ≡ playing_at cid at
      → playback_status fl bk (run fl bk rs s) ≡ playing_at cid (last_position rs at)
  unfolding run last_position
  run_quiet [] s cid at h e = e
  run_quiet (r ∷ rs) s cid at h e =
      run_quiet rs (handle fl bk r s).0 cid (position r at) h.1 (handle-playback r s cid at h.0 e)

  run-append :
      (rs ts : List (Request Float)) (s : Server fl bk)
      → run fl bk (rs ++ ts) s ≡ run fl bk ts (run fl bk rs s)
  unfolding run
  run-append [] ts s = refl
  run-append (r ∷ rs) ts s = run-append rs ts (handle fl bk r s).0

  handle_play_lem :
      (req : PlayRequest) (s : Server fl bk)
      → is_empty req.cid ≡ false
      → playback_status fl bk (handle fl bk (Request.play (value req)) s).0
        ≡ playing_at req.cid (pos 0)
  unfolding handle handle_play reply_playback play playback_status
  handle_play_lem req s h = ground arith

  -- Whatever came before, from an accepted `play` on and until the next accepted `play` or a
  -- `stop`, the playback status shows that track as playing, at the position of the last readable
  -- `seek` since then, or at 0; all other requests, failed ones included, leave it so.
  pub run-playback_status :
      (before after : List (Request Float)) (req : PlayRequest) (s : Server fl bk)
      → is_empty req.cid ≡ false
      → All IsQuiet after
      → playback_status fl bk (run fl bk (before ++ Request.play (value req) ∷ after) s) ≡ record {
        playing = true;
        cid = req.cid;
        chunk_index = last_position after (pos 0);
        buffer_level = 0;
      }
  unfolding run
  run-playback_status before after req s h q =
      ap (playback_status fl bk) (run-append before (Request.play (value req) ∷ after) s)
      ∙ run_quiet after (handle fl bk (Request.play (value req)) (run fl bk before s)).0 req.cid
          (pos 0) q (handle_play_lem req (run fl bk before s) h)
