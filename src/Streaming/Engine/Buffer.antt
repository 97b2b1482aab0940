-- ===== src/Streaming/Engine/Buffer.antt =====
-- internal/streaming/engine.go: the invariant of the read buffer.
pub mod Steps
use music_p2p.Prelude.{
  ℕ, zero, suc, ◌+◌, ◌≤◌, ◌<◌, ◌≡◌, true, List, [], ◌∷◌, ◌++◌, none, some, length, ℕ_discrete,
}
use music_p2p.Prelude.Assoc.{lookup}
use music_p2p.Prelude.Keys.{InRange, IsDistinct}
use music_p2p.Streaming.Engine.{Engine}

-- The bytes of the first `n` chunks of a track.
abbrev pub bytes_upto : (ℕ → List ℕ) → ℕ → List ℕ
bytes_upto track zero = []
bytes_upto track (suc n) = bytes_upto track n ++ track n

-- The buffer of an engine that streams `track` from its first chunk, without `Seek`, and from
-- which `out` has been read.
pub record IsBuffer (track : ℕ → List ℕ) (out : List ℕ) (e : Engine) : Type 0 where
  -- The chunks are those from the read pointer on, each once.
  pub range : InRange e.next_read e.total_chunks e.chunks
  pub distinct : IsDistinct e.chunks
  pub within : e.next_read ≤ e.total_chunks
  -- `received` counts the chunks that were read and those that are buffered.
  pub counted : e.received ≡ e.next_read + length e.chunks
  pub finished : e.done ≡ true → e.total_chunks ≤ e.received
  -- A chunk behind the read pointer is whole.
  pub whole :
      (i : ℕ) (found : List ℕ)
      → e.next_read < i
      → lookup ℕ_discrete i e.chunks ≡ some found
      → found ≡ track i
  -- What was read, and the rest of the chunk at the read pointer.
  pub at_chunk :
      (found : List ℕ)
      → lookup ℕ_discrete e.next_read e.chunks ≡ some found
      → out ++ found ≡ bytes_upto track (suc e.next_read)
  pub at_gap : lookup ℕ_discrete e.next_read e.chunks ≡ none → out ≡ bytes_upto track e.next_read
