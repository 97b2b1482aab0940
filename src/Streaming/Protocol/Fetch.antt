-- ===== src/Streaming/Protocol/Fetch.antt =====
-- internal/streaming/engine.go: `fetchChunk` from a peer that serves, over the pool.
use music_p2p.Prelude.{
  inl, inr, ◌∙◌, none, ap, ℕ, ◌^◌, ◌<◌, ◌≡◌, true, false, String, List, [], ◌∷◌, ◌++◌, Option, some,
  All, length,
}
use music_p2p.Prelude.Int.{pos}
use music_p2p.Storage.Chunks.{Chunk, chunk_bytes}
use music_p2p.Storage.Tracks.{Storage, ok, err, get_chunk}
use music_p2p.ConnPool.{Pool, acquire, release}
use music_p2p.Streaming.Wire.Lines.{IsSolid}
use music_p2p.Streaming.Protocol.{
  Fetched, get_request, serve_stream, fetched, broken, read_framed, fetch_on, fetch_chunk,
}
use music_p2p.Streaming.Protocol.RoundTrip.{Result-cases, read_framed-serve_stream}

module _ {P S : Type 0} (dec : Discrete P) (exchange : S → List ℕ → Option (List ℕ)) where
  -- The result of a fetch, and whether its stream goes back to the pool with an error.
  fetch_chunk-read :
      (opened : Option S) (now : ℕ) (p : P) (cid : List ℕ) (n : ℕ) (pool pool' : Pool P S) (s : S)
      (input : List ℕ)
      → acquire dec opened now p pool ≡ (pool', some s)
      → exchange s (get_request cid n) ≡ some input
      → fetch_chunk dec exchange opened now p cid n pool ≡ (elim (read_framed input).0 [
        | fetched bytes ↦ (release dec now p s false pool', fetched bytes)
        | broken ↦ (release dec now p s true pool', broken)
      ])
  unfolding fetch_chunk fetch_on
  fetch_chunk-read opened now p cid n pool pool' s input e f =
      ap (λ r. elim r.1 [ none ↦ (r.0, broken) | some t ↦ fetch_on dec exchange now p cid n t r.0 ])
        e
      ∙ rw (f, fetch_on)

  -- If the pool gives a stream, and the peer at its other end runs `ServeStream` on what is
  -- written: a chunk that is fetched is the chunk that the peer has, and the stream goes back to
  -- the pool as good; if the peer does not have it the fetch fails, and the stream goes back with
  -- an error. The CID is a word with no white space, and the index and the size of the chunk fit an
  -- `int`.
  pub fetch_chunk-get_chunk :
      (name : List ℕ → String) (peer_storage : Storage) (opened : Option S) (now : ℕ) (p : P)
      (a : ℕ) (word : List ℕ) (n : ℕ) (pool pool' : Pool P S) (s : S)
      → All IsSolid (a ∷ word)
      → n < 2 ^ 63
      → ((c : Chunk)
          → get_chunk (name (a ∷ word)) (pos n) peer_storage ≡ ok c
          → length (chunk_bytes c) < 2 ^ 63)
      → acquire dec opened now p pool ≡ (pool', some s)
      → ((request : List ℕ)
          → exchange s request ≡ some (serve_stream name 1 peer_storage (request ++ [])))
      → fetch_chunk dec exchange opened now p (a ∷ word) n pool
        ≡ (elim (get_chunk (name (a ∷ word)) (pos n) peer_storage) [
          | err e ↦ (release dec now p s true pool', broken)
          | ok c ↦ (release dec now p s false pool', fetched (chunk_bytes c))
        ])
  fetch_chunk-get_chunk name peer_storage opened now p a word n pool pool' s h small fits got
        serves =
      let framed = read_framed-serve_stream name 0 peer_storage a word [] n h small fits in
      let back : Fetched → Pool P S × Fetched = λ r. elim r [
        | fetched bytes ↦ (release dec now p s false pool', fetched bytes)
        | broken ↦ (release dec now p s true pool', broken)
      ] in
      fetch_chunk-read opened now p (a ∷ word) n pool pool' s _ got
        (serves (get_request (a ∷ word) n))
      ∙ ap (λ r. back r.0) framed
      ∙ (elim (Result-cases (get_chunk (name (a ∷ word)) (pos n) peer_storage)) [
        | inl (c, e) ↦ rw e
        | inr (x, e) ↦ rw e
      ])
