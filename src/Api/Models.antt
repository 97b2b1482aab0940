-- ===== src/Api/Models.antt =====
-- internal/api/models.go: the bodies of requests and responses. A duration and a float64 stay
-- abstract: `Float` is a parameter of the types that hold a score or a time.
use music_p2p.Prelude.{ℕ, Bool, true, false, String, List, Option}
use music_p2p.Prelude.Int.{ℤ}
use music_p2p.Metadata.{TrackMetadata}
use music_p2p.Queue.{Item}

pub record StatusResponse (Float : Type 0) : Type 0 where
  pub peer_id : String
  pub addrs : List String
  pub peer_count : ℕ
  pub uptime_secs : Float

pub record TrackInfo : Type 0 where
  pub cid : String
  pub chunk_count : ℕ

pub record MetadataRequest : Type 0 where
  pub cid : String
  pub title : String
  pub artist : String
  pub duration : ℤ

pub record PlayRequest : Type 0 where
  pub cid : String

pub record SeekRequest : Type 0 where
  pub chunk_index : ℤ

pub record PlaybackStatus : Type 0 where
  pub playing : Bool
  pub cid : String
  pub chunk_index : ℤ
  pub buffer_level : ℕ

pub record QueueItemRequest : Type 0 where
  pub cid : String
  pub title : String
  pub artist : String
  pub position : Option ℤ

pub record ConnectRequest : Type 0 where
  pub multiaddr : String

pub record JoinRequest : Type 0 where
  pub invite : String

pub record InviteResponse : Type 0 where
  pub invite : String
  pub peer_id : String
  pub reachable : Bool
  pub note : String

pub record JoinResponse : Type 0 where
  pub peer_id : String
  pub connected : Bool

pub record PeerInfo (Float : Type 0) : Type 0 where
  pub id : String
  pub score : Float

pub record EngineStatus : Type 0 where
  pub active_streams : ℕ
  pub bandwidth_bps : ℕ

pub record QueueItemResponse : Type 0 where
  pub cid : String
  pub title : String
  pub artist : String

pub record QueueState : Type 0 where
  pub current : Option QueueItemResponse
  pub upcoming : List QueueItemResponse

-- What the handlers put into the field `Data interface{}`.
pub data Data (Float : Type 0) : Type 0 where
  nothing : Data Float
  status : StatusResponse Float → Data Float
  tracks : List TrackInfo → Data Float
  track : TrackInfo → Data Float
  all_metadata : List TrackMetadata → Data Float
  metadata : TrackMetadata → Data Float
  playback : PlaybackStatus → Data Float
  queue : QueueState → Data Float
  queue_items : List QueueItemResponse → Data Float
  peers : List (PeerInfo Float) → Data Float
  peer : PeerInfo Float → Data Float
  invite : InviteResponse → Data Float
  join : JoinResponse → Data Float
  engine : EngineStatus → Data Float

pub record Response (Float : Type 0) : Type 0 where
  pub success : Bool
  pub content : Data Float
  pub error : String

unfoldable pub ok : {Float : Type 0} → Data Float → Response Float
ok content = record { success = true; content = content; error = "" }

unfoldable pub fail : {Float : Type 0} → String → Response Float
fail msg = record { success = false; content = nothing; error = msg }

-- `toQueueItemResponse`
unfoldable pub to_queue_item_response : Item → QueueItemResponse
to_queue_item_response item = record { cid = item.cid; title = item.title; artist = item.artist }
