-- ===== src/Api/Requests/Kept.antt =====
-- internal/api/handlers.go: what the replies look like, and what requests leave as it was.
use music_p2p.Prelude.{
  ℕ, ◌≤◌, ◌≡◌, refl, sym, subst, ◌⊎◌, inl, inr, Bool, true, false, String, List, some, arith,
  Option-cases, List-cases,
}
use music_p2p.Scoring.{Floats}
use music_p2p.Storage.Tracks.{Storage, Files, ok, load_track, store_frames, remove_track}
use music_p2p.Storage.Frames.{extract_mp3_frames}
use music_p2p.Api.Models as Models
use music_p2p.Api.Models.{Response, nothing}
use music_p2p.Api.Server.{
  Backends, Server, Reply, json, audio, panicked, called, write_status, write_json,
}
use music_p2p.Api.Tracks.{
  ShareForm, upload, handle_get_tracks, handle_share_track, handle_stream_track,
  handle_delete_track, share_form, share_upload, share_loaded, delete_stored, stream_audio,
  share_described,
}
use music_p2p.Api.Library.{
  handle_get_all_metadata, handle_search_metadata, handle_get_metadata, handle_publish_metadata,
  publish_metadata,
}
use music_p2p.Api.Playback.{
  handle_play, handle_stop, handle_seek, handle_playback_status, reply_playback,
}
use music_p2p.Api.Playlist.{
  handle_get_queue, handle_enqueue, handle_insert_queue, handle_clear_queue, handle_get_history,
  reply_added,
}
use music_p2p.Api.Peers.{
  handle_get_status, handle_get_peers, handle_connect_peer, handle_get_invite, handle_join,
  handle_get_peer_score, handle_dht_provide, handle_dht_providers, handle_engine_status,
  connect_addr, connect_to, reply_joined, count_join,
}
use music_p2p.Api.Requests.{Request, handle}

module _ (fl : Floats) (bk : Backends fl) where
  open fl use {Float}

  -- The two servers hold the same tracks, metadata, queue and playback state.
  abbrev pub IsKept : Server fl bk → Server fl bk → Type 0
  IsKept s t =
      (t.stor ≡ s.stor)
      × (t.meta ≡ s.meta)
      × (t.q ≡ s.q)
      × (t.playing_cid ≡ s.playing_cid)
      × (t.is_playing ≡ s.is_playing)
      × (t.chunk_index ≡ s.chunk_index)

  -- A success has status 200 or 201 and no error text; a failure has a status from 400 on and no data,
  -- and it left the server as it was.
  abbrev pub IsSound : Server fl bk → Server fl bk × Reply fl bk → Type 0
  IsSound s (t, json code response) =
      ((response.success ≡ true) × (response.error ≡ "") × ((code ≡ 200) ⊎ (code ≡ 201)))
      ⊎ (((response.success ≡ false) × (response.content ≡ nothing) × (400 ≤ code)) × IsKept s t)
  IsSound s (t, audio bytes) = IsKept s t
  IsSound s (t, panicked) = Unit {0}

  load_track_failed :
      (path : String) (stor : Storage) (io : Files)
      → ((cid : String) × ((load_track io path stor).1 ≡ ok cid))
        ⊎ ((load_track io path stor).0 ≡ stor)
  unfolding load_track store_frames
  load_track_failed path stor io = elim (Option-cases (io.read_file (io.clean path))) [
    | inl e ↦ rw (e, load_track) (inr refl)
    | inr (contents, e) ↦ elim (List-cases (extract_mp3_frames contents)) [
      | inl f ↦ rw (e, f, load_track) (inr refl)
      | inr (x, xs, f) ↦ rw (e, f, load_track) (inl (_, refl))
    ]
  ]

  remove_track_failed :
      (cid : String) (stor : Storage)
      → ((remove_track cid stor).1 ≡ ok tt) ⊎ ((remove_track cid stor).0 ≡ stor)
  unfolding remove_track
  remove_track_failed cid stor = ground arith

  share_upload-IsSound :
      (filename : String) (announce : Bool) (temp : String) (contents : List ℕ) (stor : Storage)
      (s : Server fl bk)
      → s.stor ≡ some stor
      → IsSound s (share_upload fl bk filename announce temp contents stor s)
  unfolding share_upload share_described share_loaded write_status Models.ok Models.fail
  share_upload-IsSound filename announce temp contents stor s h =
      ground (arith, load_track_failed temp stor (bk.files_with temp contents))

  share_track-IsSound :
      (form : ShareForm) (s : Server fl bk) → IsSound s (handle_share_track fl bk form s)
  unfolding handle_share_track share_form write_status Models.fail
  share_track-IsSound (upload filename announce temp contents) s = elim (Option-cases s.stor) [
    | inl e ↦ ground arith
    | inr (stor, e) ↦
        let same : handle_share_track fl bk (upload filename announce temp contents) s
            ≡ share_upload fl bk filename announce temp contents stor s =
          simp (e, handle_share_track, share_form) in
        subst (IsSound s) (sym same) (share_upload-IsSound filename announce temp contents stor s e)
  ]
  share_track-IsSound form s = ground arith

  delete_track-IsSound :
      (cid : String) (s : Server fl bk) → IsSound s (handle_delete_track fl bk cid s)
  unfolding handle_delete_track delete_stored write_json write_status Models.ok Models.fail
  delete_track-IsSound cid s = elim (Option-cases s.stor) [
    | inl e ↦ ground arith
    | inr (stor, e) ↦ ground (arith, remove_track_failed cid stor)
  ]

  stream_track-IsSound :
      (cid : String) (s : Server fl bk) → IsSound s (handle_stream_track fl bk cid s)
  unfolding handle_stream_track stream_audio called write_status Models.fail
  stream_track-IsSound cid s = ground arith

  -- Every JSON reply is well formed: a success has status 200 or 201 and no error text; a failure has a
  -- status from 400 on and no data, and leaves the stored tracks, the metadata, the queue and the
  -- playback state as they were before the request. A reply of audio leaves them so too.
  pub handle-IsSound : (r : Request Float) (s : Server fl bk) → IsSound s (handle fl bk r s)
  unfolding handle handle_get_tracks write_json write_status Models.ok Models.fail
      handle_get_all_metadata handle_search_metadata handle_get_metadata handle_publish_metadata
      publish_metadata called handle_play handle_stop handle_seek handle_playback_status
      reply_playback handle_get_queue handle_enqueue handle_insert_queue handle_clear_queue
      handle_get_history reply_added handle_get_status handle_get_peers handle_connect_peer
      handle_get_invite handle_join handle_get_peer_score handle_dht_provide handle_dht_providers
      handle_engine_status connect_addr connect_to reply_joined count_join
  handle-IsSound (Request.share_track form) s = share_track-IsSound form s
  handle-IsSound (Request.stream_track cid) s = stream_track-IsSound cid s
  handle-IsSound (Request.delete_track cid) s = delete_track-IsSound cid s
  handle-IsSound (Request.publish_metadata body) s = ground arith
  handle-IsSound (Request.connect_peer body) s = ground arith
  handle-IsSound (Request.join body) s = ground arith
  handle-IsSound (Request.play body) s = ground arith
  handle-IsSound (Request.seek body) s = ground arith
  handle-IsSound (Request.enqueue body) s = ground arith
  handle-IsSound (Request.insert_queue body) s = ground arith
  handle-IsSound r s = ground arith
