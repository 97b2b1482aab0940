-- ===== src/Streaming/Start.antt =====
-- internal/streaming/engine.go: `StartStreaming`, with the search for providers and the question for
-- the number of chunks, and the rounds of `serveFromLocalStorage`. The DHT and the peers' answers are
-- parameters; connecting to a provider changes no state of the engine.
pub mod First
use music_p2p.Prelude.{
  ℕ, Bool, true, false, String, List, [], ◌∷◌, Option, none, some, ltb, leb, if◌then◌else◌,
}
use music_p2p.Prelude.Int.{pos}
use music_p2p.Scheduler.Congestion
use music_p2p.Storage.Tracks
use music_p2p.Storage.Chunks.{chunk_bytes}
use music_p2p.Storage.Tracks.{Storage, ok, err, get_chunk, get_total_chunks}
use music_p2p.Scheduler.Congestion.{
  Scheduler, set_cid, set_total_chunks, set_current_position, set_available_chunks,
}
use music_p2p.Streaming.Engine.{
  Engine, start, buffer_ahead, max_buffer_chunks, supply_chunk, finish,
}

pub data StartError : Type 0 where
  find_failed no_providers total_unknown : StartError

pub data Started (P : Type 0) : Type 0 where
  serves_locally : Engine → Started P
  downloads : Engine → Scheduler P → Started P
  failed : StartError → Started P

module _ {P : Type 0} (dec : Discrete P) (self : P) where
  -- The providers other than this node.
  unfoldable pub others : List P → List P
  others [] = []
  others (p ∷ ps) = elim (dec p self) [ yes _ ↦ others ps | no _ ↦ p ∷ others ps ]

  -- An answer counts if it is a positive number.
  unfoldable pub first_total : (P → Option ℕ) → List P → Option ℕ
  first_total query [] = none
  first_total query (p ∷ ps) =
      let rest = first_total query ps in
      elim (dec p self) [
        | yes _ ↦ rest
        | no _ ↦ elim (query p) [ none ↦ rest | some n ↦ if ltb 0 n then some n else rest ]
      ]

  unfoldable pub query_total_chunks : (P → Option ℕ) → Storage → String → List P → Option ℕ
  query_total_chunks query storage cid providers =
      if ltb 0 (get_total_chunks cid storage)
      then some (get_total_chunks cid storage)
      else first_total query providers

  -- The scheduler that `StartStreaming` sets up: all providers advertise all chunks.
  unfoldable pub schedule : String → ℕ → List P → Scheduler P
  schedule cid total providers =
      set_available_chunks (λ i. if ltb i total then others providers else [])
        (set_current_position 0 (set_total_chunks total (set_cid cid Congestion.new)))

  unfoldable pub download_from : (P → Option ℕ) → Storage → String → ℕ → List P → Engine → Started P
  download_from query storage cid now [] e = failed no_providers
  download_from query storage cid now (p ∷ ps) e =
      elim (query_total_chunks query storage cid (p ∷ ps)) [
        | none ↦ failed total_unknown
        | some total ↦ downloads (start cid total now e) (schedule cid total (p ∷ ps))
      ]

  unfoldable pub start_streaming :
      Option (List P) → (P → Option ℕ) → Storage → String → ℕ → Engine → Started P
  start_streaming found query storage cid now e =
      if ltb 0 (get_total_chunks cid storage)
      then serves_locally (start cid (get_total_chunks cid storage) now e)
      else elim found [
        | none ↦ failed find_failed
        | some providers ↦ download_from query storage cid now providers e
      ]

pub data Served : Type 0 where
  continues stops : Engine → Served
  waits : Served

-- One round of the loop of `serveFromLocalStorage`; a wait for room is run again.
unfoldable pub serve_chunk : Storage → String → ℕ → ℕ → Engine → Served
serve_chunk storage cid i now e = elim (get_chunk cid (pos i) storage) [
  | err _ ↦ stops (finish e)
  | ok chunk ↦
      if leb max_buffer_chunks (buffer_ahead e)
      then waits
      else continues (supply_chunk i (chunk_bytes chunk) now e)
]

unfoldable pub serve_round : Storage → String → ℕ → ℕ → ℕ → Engine → Served
serve_round storage cid total i now e =
    if ltb i total then serve_chunk storage cid i now e else stops (finish e)
