-- ===== src/Streaming/Session.antt =====
-- internal/streaming/engine.go: `downloadLoop`, the goroutines that it starts, the stall monitor,
-- the reader and `Seek`, around one scheduler and the scorer, as sequences of their atomic steps.
-- The requests that are out are a list; `fetchChunk` answers any of them at any time, or fails. The
-- calls of one goroutine after its fetch are one step.
pub mod Kept
pub mod Seek
use music_p2p.Prelude.{
  ℕ, suc, Bool, true, false, List, [], ◌∷◌, ◌++◌, none, some, length, take, drop, get_elem?, leb,
}
use music_p2p.Prelude.Sorting.{SliceSort}
use music_p2p.Scheduler.Congestion.{
  Scheduler, mark_completed, mark_failed, set_current_position, reset_to,
}
use music_p2p.Scheduler.Requests.{ChunkRequest, Candidate, next_requests}
use music_p2p.Scoring.{Floats, Stats, record_success, record_failure, best_peers}
use music_p2p.Streaming.Engine.{
  Engine, accept_chunk, check_done, read, buffer_ahead, max_buffer_chunks,
}

pub record Session (fl : Floats) {P : Type 0} (dec : Discrete P) : Type 0 where
  pub engine : Engine
  pub scheduler : Scheduler P
  pub stats : Stats fl dec
  pub pending : List (ChunkRequest P)

-- `answers n found latency now`: the fetch of request `n` returns `found` after `latency` ms.
pub data Call : Type 0 where
  asks : Call
  answers : ℕ → List ℕ → ℕ → ℕ → Call
  fails : ℕ → Call
  stalls : Call
  reads : ℕ → Call

-- The requests without number `n`.
abbrev pub without {ℓ} : {P : Type ℓ} → ℕ → List (ChunkRequest P) → List (ChunkRequest P)
without n rs = take n rs ++ drop (suc n) rs

module _ (fl : Floats) {P : Type 0} (dec : Discrete P) where
  -- One round of the loop: the requests go out; with none, the test for the end of the track.
  unfoldable pub send : ℕ → Scheduler P × List (ChunkRequest P) → Session fl dec → Session fl dec
  send total (sched, []) s = record s { engine = check_done total s.engine; scheduler = sched }
  send total (sched, r ∷ rs) s = record s { scheduler = sched; pending = s.pending ++ r ∷ rs }

  -- The goroutine of a request whose fetch succeeds, from the result of `acceptChunk` on.
  unfoldable pub arrive :
      Engine × Bool → Scheduler P → Stats fl dec → List (ChunkRequest P) → Session fl dec
  arrive (e, false) sched stats rest = record {
    engine = e;
    scheduler = sched;
    stats = stats;
    pending = rest;
  }
  arrive (e, true) sched stats rest = record {
    engine = e;
    scheduler = set_current_position e.next_read sched;
    stats = stats;
    pending = rest;
  }

module _ (fl : Floats) {P : Type 0} (dec : Discrete P) (sorter : SliceSort (Candidate P))
    (peer_sorter : SliceSort P) where
  -- `NextRequests` with the scores at this time.
  abbrev pub ask : Session fl dec → Scheduler P × List (ChunkRequest P)
  ask s = next_requests dec sorter (best_peers fl dec peer_sorter s.stats) s.scheduler

  -- With the buffer full the loop waits.
  unfoldable pub step : ℕ → Session fl dec → Call → Session fl dec
  step total s asks = elim (leb max_buffer_chunks (buffer_ahead s.engine)) [
    | true ↦ s
    | false ↦ send fl dec total (ask s) s
  ]
  step total s (answers n found latency now) = elim (get_elem? s.pending n) [
    | none ↦ s
    | some r ↦
        arrive fl dec (accept_chunk r.index found now s.engine) (mark_completed r.index s.scheduler)
          (record_success fl dec r.peer latency (length found) s.stats) (without n s.pending)
  ]
  step total s (fails n) = elim (get_elem? s.pending n) [
    | none ↦ s
    | some r ↦ record s {
      scheduler = mark_failed dec r.index r.peer s.scheduler;
      stats = record_failure fl dec r.peer s.stats;
      pending = without n s.pending;
    }
  ]
  step total s stalls = record s { scheduler = reset_to s.engine.next_read s.scheduler }
  step total s (reads room) = record s { engine = (read room s.engine).0 }

  unfoldable pub run : ℕ → Session fl dec → List Call → Session fl dec
  run total s [] = s
  run total s (c ∷ cs) = run total (step total s c) cs
