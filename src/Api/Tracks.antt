-- ===== src/Api/Tracks.antt =====
-- internal/api/handlers.go: the handlers of the routes under /tracks.
pub mod Shared
use Prim.Native.String.{◌++◌}
use music_p2p.Prelude.{ℕ, ◌+◌, Bool, String, List, [], map, Option, none, some, if◌then◌else◌}
use music_p2p.Prelude.Int.{pos}
use music_p2p.Metadata as Meta
use music_p2p.Scoring.{Floats}
use music_p2p.Metadata.{TrackMetadata, is_empty, add_local}
use music_p2p.Storage.Tracks.{
  Storage, ok, err, load_track, remove_track, list_tracks, get_total_chunks,
}
use music_p2p.Api.Models as Models
use music_p2p.Api.Models.{TrackInfo, fail}
use music_p2p.Api.Names.{is_hex_cid, slice_to, trim_ext}
use music_p2p.Api.Server.{
  value, error, Backends, Server, Reply, panicked, audio, publishes, provides, opens, called,
  write_status, write_json,
}

-- The multipart form of `POST /tracks/share`, by the step at which it fails.
pub data ShareForm : Type 0 where
  bad_form no_file no_temp_file copy_failed : String → ShareForm
  -- The name of the uploaded file, the flag `announce`, the name of the temporary file and its bytes.
  upload : String → Bool → String → List ℕ → ShareForm

unfoldable pub track_info : Storage → String → TrackInfo
track_info stor cid = record { cid = cid; chunk_count = get_total_chunks cid stor }

-- The metadata of an uploaded track; `cid[:8]` may panic.
unfoldable pub share_title : String → String → Option String
share_title filename cid =
    if is_empty (trim_ext filename) then slice_to 8 cid else some (trim_ext filename)

unfoldable pub share_metadata : String → String → TrackMetadata
share_metadata title cid = record {
  cid = cid;
  meta_id = "";
  title = title;
  artist = "Unknown";
  duration = pos 0;
  variants = [];
}

module _ (fl : Floats) (bk : Backends fl) where
  unfoldable pub handle_get_tracks : Server fl bk → Server fl bk × Reply fl bk
  handle_get_tracks s = elim s.stor [
    | none ↦ (s, write_json fl bk (Models.ok (Models.tracks [])))
    | some stor ↦
        (s, write_json fl bk (Models.ok (Models.tracks (map (track_info stor) (list_tracks stor)))))
  ]

  -- The metadata are stored, and published if asked for.
  unfoldable pub save_metadata : Bool → TrackMetadata → Meta.Store → Server fl bk → Server fl bk
  save_metadata announce m store s =
      let saved : Server fl bk = record s { meta = some (add_local bk.meta_io m store) } in
      if announce then called fl bk (publishes m) saved else saved

  -- `if announce && s.dht != nil`; the error is dropped.
  unfoldable pub announce_track : Bool → String → Server fl bk → Server fl bk
  announce_track announce cid s = elim bk.dht [
    | none ↦ s
    | some dht ↦ if announce then called fl bk (provides cid) s else s
  ]

  -- The end of `handleShareTrack`, with the track loaded under `cid`.
  unfoldable pub share_loaded : Storage → Bool → String → Server fl bk → Server fl bk × Reply fl bk
  share_loaded stor announce cid s = (
    announce_track announce cid s,
    write_status fl bk 201 (Models.ok (Models.track (track_info stor cid))),
  )

  unfoldable pub share_described :
      String → Storage → Bool → String → Server fl bk → Server fl bk × Reply fl bk
  share_described filename stor announce cid s = elim s.meta [
    | none ↦ share_loaded stor announce cid s
    | some store ↦ elim (share_title filename cid) [
      | none ↦ (s, panicked)
      | some title ↦
          share_loaded stor announce cid (save_metadata announce (share_metadata title cid) store s)
    ]
  ]

  unfoldable pub share_upload :
      String → Bool → String → List ℕ → Storage → Server fl bk → Server fl bk × Reply fl bk
  share_upload filename announce temp contents stor s =
      let (stor', loaded) = load_track (bk.files_with temp contents) temp stor in
      let s' : Server fl bk = record s { stor = some stor' } in
      elim loaded [
        | err e ↦ (s', write_status fl bk 500 (fail ("load track: " ++ bk.storage_error e)))
        | ok cid ↦ share_described filename stor' announce cid s'
      ]

  unfoldable pub share_form : ShareForm → Storage → Server fl bk → Server fl bk × Reply fl bk
  share_form (bad_form e) stor s =
      (s, write_status fl bk 400 (fail ("failed to parse form: " ++ e)))
  share_form (no_file e) stor s = (s, write_status fl bk 400 (fail ("file is required: " ++ e)))
  share_form (no_temp_file e) stor s =
      (s, write_status fl bk 500 (fail ("failed to create temp file: " ++ e)))
  share_form (copy_failed e) stor s =
      (s, write_status fl bk 500 (fail ("failed to save file: " ++ e)))
  share_form (upload filename announce temp contents) stor s =
      share_upload filename announce temp contents stor s

  unfoldable pub handle_share_track : ShareForm → Server fl bk → Server fl bk × Reply fl bk
  handle_share_track form s = elim s.stor [
    | none ↦ (s, write_status fl bk 503 (fail "storage not available"))
    | some stor ↦ share_form form stor s
  ]

  -- The gauge is 1 while the bytes are copied, and 0 when the handler returns.
  unfoldable pub stream_audio : List ℕ → Server fl bk → Server fl bk × Reply fl bk
  stream_audio bytes s =
      let m = s.metrics in
      (
        record s { metrics = record m { tracks_played = m.tracks_played + 1; playback_state = 0 } },
        audio bytes,
      )

  unfoldable pub handle_stream_track : String → Server fl bk → Server fl bk × Reply fl bk
  handle_stream_track cid s =
      if is_hex_cid cid
      then elim bk.new_stream [
        | none ↦ (s, write_status fl bk 503 (fail "streaming not available"))
        | some open_stream ↦ elim (open_stream cid) [
          | error e ↦ (called fl bk (opens cid) s, write_status fl bk 500 (fail ("stream: " ++ e)))
          | value bytes ↦ stream_audio bytes (called fl bk (opens cid) s)
        ]
      ]
      else (s, write_status fl bk 400 (fail "invalid cid"))

  unfoldable pub delete_stored : String → Storage → Server fl bk → Server fl bk × Reply fl bk
  delete_stored cid stor s =
      let (stor', removed) = remove_track cid stor in
      let s' : Server fl bk = record s { stor = some stor' } in
      elim removed [
        | err e ↦ (s', write_status fl bk 404 (fail (bk.storage_error e)))
        | ok _ ↦ (s', write_json fl bk (Models.ok Models.nothing))
      ]

  unfoldable pub handle_delete_track : String → Server fl bk → Server fl bk × Reply fl bk
  handle_delete_track cid s = elim s.stor [
    | none ↦ (s, write_status fl bk 503 (fail "storage not available"))
    | some stor ↦ delete_stored cid stor s
  ]
