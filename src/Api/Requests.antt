-- ===== src/Api/Requests.antt =====
-- internal/api/server.go: the routes and their handlers. A request is named by its handler and holds
-- what the handler reads from it: path variables, the query, and the decoded body or the decoder's
-- error.
pub mod Kept
pub mod Playing
pub mod Queueing
pub mod Reads
use music_p2p.Prelude.{String, List, [], ◌∷◌}
use music_p2p.Scoring.{Floats}
use music_p2p.Api.Models.{
  MetadataRequest, PlayRequest, SeekRequest, QueueItemRequest, ConnectRequest, JoinRequest,
}
use music_p2p.Api.Server.{Outcome, Backends, Server, Reply}
use music_p2p.Api.Tracks.{
  ShareForm, handle_get_tracks, handle_share_track, handle_stream_track, handle_delete_track,
}
use music_p2p.Api.Library.{
  handle_get_all_metadata, handle_search_metadata, handle_get_metadata, handle_publish_metadata,
}
use music_p2p.Api.Playback.{handle_play, handle_stop, handle_seek, handle_playback_status}
use music_p2p.Api.Playlist.{
  handle_get_queue, handle_enqueue, handle_insert_queue, handle_clear_queue, handle_get_history,
}
use music_p2p.Api.Peers.{
  handle_get_status, handle_get_peers, handle_connect_peer, handle_get_invite, handle_join,
  handle_get_peer_score, handle_dht_provide, handle_dht_providers, handle_engine_status,
}

pub data Request (Float : Type 0) : Type 0 where
  get_status : Float → Request Float
  get_tracks : Request Float
  share_track : ShareForm → Request Float
  stream_track delete_track : String → Request Float
  get_all_metadata : Request Float
  search_metadata get_metadata : String → Request Float
  publish_metadata : Outcome MetadataRequest → Request Float
  play : Outcome PlayRequest → Request Float
  stop : Request Float
  seek : Outcome SeekRequest → Request Float
  playback_status get_queue : Request Float
  enqueue insert_queue : Outcome QueueItemRequest → Request Float
  clear_queue get_history get_peers : Request Float
  connect_peer : Outcome ConnectRequest → Request Float
  get_invite : Request Float
  join : Outcome JoinRequest → Request Float
  get_peer_score dht_provide dht_providers : String → Request Float
  engine_status : Request Float

module _ (fl : Floats) (bk : Backends fl) where
  open fl use {Float}

  unfoldable pub handle : Request Float → Server fl bk → Server fl bk × Reply fl bk
  handle (Request.get_status uptime) s = handle_get_status fl bk uptime s
  handle Request.get_tracks s = handle_get_tracks fl bk s
  handle (Request.share_track form) s = handle_share_track fl bk form s
  handle (Request.stream_track cid) s = handle_stream_track fl bk cid s
  handle (Request.delete_track cid) s = handle_delete_track fl bk cid s
  handle Request.get_all_metadata s = handle_get_all_metadata fl bk s
  handle (Request.search_metadata query) s = handle_search_metadata fl bk query s
  handle (Request.get_metadata cid) s = handle_get_metadata fl bk cid s
  handle (Request.publish_metadata body) s = handle_publish_metadata fl bk body s
  handle (Request.play body) s = handle_play fl bk body s
  handle Request.stop s = handle_stop fl bk s
  handle (Request.seek body) s = handle_seek fl bk body s
  handle Request.playback_status s = handle_playback_status fl bk s
  handle Request.get_queue s = handle_get_queue fl bk s
  handle (Request.enqueue body) s = handle_enqueue fl bk body s
  handle (Request.insert_queue body) s = handle_insert_queue fl bk body s
  handle Request.clear_queue s = handle_clear_queue fl bk s
  handle Request.get_history s = handle_get_history fl bk s
  handle Request.get_peers s = handle_get_peers fl bk s
  handle (Request.connect_peer body) s = handle_connect_peer fl bk body s
  handle Request.get_invite s = handle_get_invite fl bk s
  handle (Request.join body) s = handle_join fl bk body s
  handle (Request.get_peer_score peer_id) s = handle_get_peer_score fl bk peer_id s
  handle (Request.dht_provide cid) s = handle_dht_provide fl bk cid s
  handle (Request.dht_providers cid) s = handle_dht_providers fl bk cid s
  handle Request.engine_status s = handle_engine_status fl bk s

  -- Requests one after the other, as they take the locks.
  unfoldable pub run : List (Request Float) → Server fl bk → Server fl bk
  run [] s = s
  run (r ∷ rs) s = run rs (handle r s).0
