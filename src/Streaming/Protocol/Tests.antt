-- ===== src/Streaming/Protocol/Tests.antt =====
-- internal/streaming/engine.go: a chunk that a peer has, over a stream of the pool.
use music_p2p.Prelude.{
  subst, Option, ℕ, ℕ_discrete, ◌^◌, ◌<◌, ◌≡◌, refl, true, false, String, List, [], ◌∷◌, ◌++◌, some,
  arith, All, length,
}
use music_p2p.Prelude.Text.{String_discrete}
use music_p2p.Prelude.Int.{pos}
use music_p2p.Prelude.Assoc.{lookup}
use music_p2p.ConnPool as ConnPool
use music_p2p.Storage.Chunks.{Chunk, chunk_bytes}
use music_p2p.Storage.Tracks.{is_below, nth, chunk_at, Storage, ok, err, get_chunk}
use music_p2p.ConnPool.{Pool, acquire, release}
use music_p2p.Streaming.Wire.{is_space, newline}
use music_p2p.Streaming.Wire.Lines.{IsSolid}
use music_p2p.Streaming.Protocol.{
  get_request, serve_stream, fetched, broken, read_framed, fetch_chunk,
}
use music_p2p.Streaming.Protocol.RoundTrip.{read_framed-serve_stream}
use music_p2p.Streaming.Protocol.Fetch.{fetch_chunk-get_chunk}

abbrev stored : Storage
stored = record {
  base_dir = "";
  tracks = ("ab12", record { index = 0; frames = (1 ∷ 2 ∷ []) ∷ [] } ∷ []) ∷ [];
}

abbrev name : List ℕ → String
name bytes = "ab12"

solid : All IsSolid (b'a' ∷ b'b' ∷ [])
unfolding is_space
solid = (refl, (refl, tt))

abbrev held : Chunk
held = record { index = 0; frames = (1 ∷ 2 ∷ []) ∷ [] }

found : get_chunk "ab12" (pos 0) stored ≡ ok held
unfolding get_chunk chunk_at lookup String_discrete is_below nth
found = refl

small : length (chunk_bytes held) < 2 ^ 63
unfolding chunk_bytes
small = omega arith

fits : (c : Chunk) → get_chunk "ab12" (pos 0) stored ≡ ok c → length (chunk_bytes c) < 2 ^ 63
fits c e = let same : held ≡ c = cc found in subst (λ x. length (chunk_bytes x) < 2 ^ 63) same small

read_framed-serve_stream_example :
    read_framed
      (serve_stream name 2 stored (get_request (b'a' ∷ b'b' ∷ []) 0 ++ b'X' ∷ newline ∷ []))
    ≡ (
      elim (get_chunk "ab12" (pos 0) stored) [ err e ↦ broken | ok c ↦ fetched (chunk_bytes c) ],
      serve_stream name 1 stored (b'X' ∷ newline ∷ []),
    )
read_framed-serve_stream_example =
    read_framed-serve_stream name 1 stored b'a' (b'b' ∷ []) (b'X' ∷ newline ∷ []) 0 solid
      (omega arith) fits

abbrev pool : Pool ℕ ℕ
pool = ConnPool.new

abbrev exchange : ℕ → List ℕ → Option (List ℕ)
exchange s request = some (serve_stream name 1 stored (request ++ []))

abbrev pool' : Pool ℕ ℕ
pool' = (acquire ℕ_discrete (some 7) 0 3 pool).0

acquired : acquire ℕ_discrete (some 7) 0 3 pool ≡ (pool', some 7)
unfolding acquire ConnPool.settle ConnPool.take_idle ConnPool.get_or_create lookup ConnPool.new
acquired = refl

fetch_chunk-get_chunk_example :
    fetch_chunk ℕ_discrete exchange (some 7) 0 3 (b'a' ∷ b'b' ∷ []) 0 pool
    ≡ (elim (get_chunk "ab12" (pos 0) stored) [
      | err e ↦ (release ℕ_discrete 0 3 7 true pool', broken)
      | ok c ↦ (release ℕ_discrete 0 3 7 false pool', fetched (chunk_bytes c))
    ])
fetch_chunk-get_chunk_example =
    fetch_chunk-get_chunk ℕ_discrete exchange name stored (some 7) 0 3 b'a' (b'b' ∷ []) 0 pool pool'
      7 solid (omega arith) fits acquired (λ request. refl)
