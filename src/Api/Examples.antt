-- ===== src/Api/Examples.antt =====
-- internal/api/server.go: a server with parts for runs.
use music_p2p.Prelude.{ℕ, String, some, none, List}
use music_p2p.Prelude.Text.{String_discrete}
use music_p2p.Metadata as Meta
use music_p2p.Queue as Queue
use music_p2p.Metadata.Examples.{plain}
use music_p2p.Storage.Tracks as Tracks
use music_p2p.Scoring.Fixed.{thousandths}
use music_p2p.Api.Server.{Backends, Server, value, new, refused, other}

-- The file system holds the file that was written, and every CID is "ab12".
abbrev pub files_with : String → List ℕ → Tracks.Files
files_with path contents = record {
  clean = λ p. p;
  read_file = λ p. some contents;
  sha256_hex = λ b. "ab12";
}

abbrev pub parts : Backends thousandths
parts = record {
  PeerId = String;
  AddrInfo = String;
  Multiaddr = String;
  peer_discrete = String_discrete;
  peer_string = λ p. p;
  decode_peer = value;
  new_multiaddr = value;
  addr_info = value;
  meta_io = plain;
  storage_error = λ e. "track not found";
  files_with = files_with;
  dht = none;
  host = none;
  new_stream = none;
  invite = none;
  joiner = some (λ code. refused (other "no route"));
}

abbrev pub server : (bk : Backends thousandths) → Server thousandths bk
server bk =
    new thousandths bk (some (Tracks.new "")) (some Meta.new_local_store) (some Queue.new) none none
