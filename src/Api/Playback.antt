-- ===== src/Api/Playback.antt =====
-- internal/api/handlers.go: the handlers of the routes under /playback. They only record the state.
use Prim.Native.String.{◌++◌}
use music_p2p.Prelude.{◌+◌, true, false, String, if◌then◌else◌}
use music_p2p.Prelude.Int.{pos}
use music_p2p.Scoring.{Floats}
use music_p2p.Metadata.{is_empty}
use music_p2p.Api.Models as Models
use music_p2p.Api.Models.{PlayRequest, SeekRequest, PlaybackStatus, fail}
use music_p2p.Api.Server.{Outcome, value, error, Backends, Server, Reply, write_status, write_json}

module _ (fl : Floats) (bk : Backends fl) where
  unfoldable pub playback_status : Server fl bk → PlaybackStatus
  playback_status s = record {
    playing = s.is_playing;
    cid = s.playing_cid;
    chunk_index = s.chunk_index;
    buffer_level = 0;
  }

  unfoldable pub reply_playback : Server fl bk → Server fl bk × Reply fl bk
  reply_playback s = (s, write_json fl bk (Models.ok (Models.playback (playback_status s))))

  unfoldable pub play : String → Server fl bk → Server fl bk
  play cid s =
      let m = s.metrics in
      record s {
        playing_cid = cid;
        is_playing = true;
        chunk_index = pos 0;
        metrics = record m { tracks_played = m.tracks_played + 1; playback_state = 1 };
      }

  unfoldable pub handle_play : Outcome PlayRequest → Server fl bk → Server fl bk × Reply fl bk
  handle_play (error e) s = (s, write_status fl bk 400 (fail ("invalid request: " ++ e)))
  handle_play (value req) s =
      if is_empty req.cid
      then (s, write_status fl bk 400 (fail "cid is required"))
      else reply_playback (play req.cid s)

  unfoldable pub stop : Server fl bk → Server fl bk
  stop s =
      let m = s.metrics in
      record s { is_playing = false; metrics = record m { playback_state = 0 } }

  unfoldable pub handle_stop : Server fl bk → Server fl bk × Reply fl bk
  handle_stop s = reply_playback (stop s)

  unfoldable pub handle_seek : Outcome SeekRequest → Server fl bk → Server fl bk × Reply fl bk
  handle_seek (error e) s = (s, write_status fl bk 400 (fail ("invalid request: " ++ e)))
  handle_seek (value req) s = reply_playback (record s { chunk_index = req.chunk_index })

  unfoldable pub handle_playback_status : Server fl bk → Server fl bk × Reply fl bk
  handle_playback_status s = reply_playback s
