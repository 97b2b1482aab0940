-- ===== src/Api/Server.antt =====
-- internal/api/server.go: the server, the parts of the node that it was given and the replies. A part
-- that is nil is `none`. What the parts do outside this repository is the parameter `Backends`.
use music_p2p.Prelude.{false, ℕ, Bool, String, List, [], ◌∷◌, ◌++◌, Option}
use music_p2p.Prelude.Int.{pos, ℤ}
use music_p2p.Metadata as Meta
use music_p2p.Storage.Tracks as Tracks
use music_p2p.Scoring.{Floats, Stats}
use music_p2p.Bitrate.{AdaptiveBitrate}
use music_p2p.Metadata.{TrackMetadata}
use music_p2p.Queue.{Queue}
use music_p2p.Storage.Tracks.{Storage, Files}
use music_p2p.Api.Models.{Response}

-- A result of Go: a value, or an error with its text.
pub data Outcome (A : Type 0) : Type 0 where
  value : A → Outcome A
  error : String → Outcome A

-- `HostInfo`; the error of `Connect` is its text.
pub record Host (PeerId AddrInfo : Type 0) : Type 0 where
  pub id : PeerId
  pub addrs : List String
  pub connected : List PeerId
  pub connect : AddrInfo → Option String

-- `DHTBackend`
pub record Dht (PeerId : Type 0) : Type 0 where
  pub provide : String → Option String
  pub find_providers : String → Outcome (List PeerId)

-- What `InviteProvider` returns.
pub record Invitation : Type 0 where
  pub code : String
  pub peer_id : String
  pub reachable : Bool
  pub note : String

-- How a join failed: `errors.Is(err, ErrInvalidInvite)` or any other error.
pub data JoinError : Type 0 where
  invalid_invite other : String → JoinError

pub data Joined : Type 0 where
  joined : String → Joined
  refused : JoinError → Joined

pub record Backends (fl : Floats) : Type 1 where
  pub PeerId : Type 0
  pub AddrInfo : Type 0
  pub Multiaddr : Type 0
  pub peer_discrete : Discrete PeerId
  pub peer_string : PeerId → String
  pub decode_peer : String → Outcome PeerId
  pub new_multiaddr : String → Outcome Multiaddr
  pub addr_info : Multiaddr → Outcome AddrInfo
  pub meta_io : Meta.Externals
  -- The text of a storage error.
  pub storage_error : Tracks.Error → String
  -- The file system after a file was written.
  pub files_with : String → List ℕ → Files
  pub dht : Option (Dht PeerId)
  pub host : Option (Host PeerId AddrInfo)
  -- The bytes that a new stream delivers until it ends.
  pub new_stream : Option (String → Outcome (List ℕ))
  pub invite : Option Invitation
  pub joiner : Option (String → Joined)

-- The counters and gauges of internal/metrics/metrics.go that the handlers set.
pub record Metrics : Type 0 where
  pub tracks_played : ℕ
  pub playback_state : ℕ
  pub joins_succeeded : ℕ
  pub joins_failed : ℕ

-- What a handler asks of the network, in the order of the calls.
pub data Call : Type 0 where
  publishes : TrackMetadata → Call
  provides looks_up connects joins opens : String → Call

module _ (fl : Floats) (bk : Backends fl) where
  open fl use {Float}

  pub record Server : Type 0 where
    pub stor : Option Storage
    pub meta : Option Meta.Store
    pub q : Option Queue
    pub scorer : Option (Stats fl bk.peer_discrete)
    pub engine : Option AdaptiveBitrate
    pub playing_cid : String
    pub is_playing : Bool
    pub chunk_index : ℤ
    pub metrics : Metrics
    pub calls : List Call

  -- What a handler wrote: a status with a JSON body, or audio with status 200; or it panicked.
  pub data Reply : Type 0 where
    json : ℕ → Response Float → Reply
    audio : List ℕ → Reply
    panicked : Reply

  unfoldable pub called : Call → Server → Server
  called c s = record s { calls = s.calls ++ c ∷ [] }

  unfoldable pub write_status : ℕ → Response Float → Reply
  write_status code response = json code response

  -- The status is 200 if none is written.
  unfoldable pub write_json : Response Float → Reply
  write_json response = json 200 response

  -- `New`, with the parts of the node that the API changes or reads.
  unfoldable pub new :
      Option Storage
      → Option Meta.Store
      → Option Queue
      → Option (Stats fl bk.peer_discrete)
      → Option AdaptiveBitrate
      → Server
  new stor meta q scorer engine = record {
    stor = stor;
    meta = meta;
    q = q;
    scorer = scorer;
    engine = engine;
    playing_cid = "";
    is_playing = false;
    chunk_index = pos 0;
    metrics = record {
      tracks_played = 0;
      playback_state = 0;
      joins_succeeded = 0;
      joins_failed = 0;
    };
    calls = [];
  }
