-- ===== src/Streaming/Session/Seek.antt =====
-- internal/streaming/engine.go: `Seek` to a chunk that was downloaded before.
use music_p2p.Prelude.{
  length, Bool-cases, ℕ, ◌≡◌, ◌≢◌, refl, subst, ap, Bool, true, false, List, [], ◌∷◌, none,
  get_elem?, All, All-imp, All-append, All-get_elem?, arith, leb, inl, inr, Option-cases,
  ℕ_discrete,
}
use music_p2p.Prelude.Assoc.{contains, lookup}
use music_p2p.Prelude.Sorting.{SliceSort}
use music_p2p.Scoring.{Floats, Stats, record_success, best_peers}
use music_p2p.Scoring.Best.{best_peers-Ranks}
use music_p2p.Scheduler.Congestion.{Scheduler, mark_completed, set_current_position, reset_to}
use music_p2p.Scheduler.Requests.{ChunkRequest, Candidate}
use music_p2p.Scheduler.Requests.Next.{IsRequest, next_requests-IsRequest, next_requests-same}
use music_p2p.Streaming.Engine.{
  buffer_ahead, max_buffer_chunks, Engine, accept_chunk, read, bytes, seek,
}
use music_p2p.Streaming.Session.{
  Session, Call, asks, answers, fails, stalls, reads, send, arrive, without, ask, step, run,
}
use music_p2p.Streaming.Session.Kept.{
  mark_failed-completed, mark_completed-completed, accept_chunk-absent, read-absent, read-bytes,
  check_done-IsLost, without-not_pending,
}

-- The read pointer is at chunk `k`, which is not buffered and not on its way, and counts as
-- completed.
pub record IsLost (fl : Floats) {P : Type 0} (dec : Discrete P) (k : ℕ) (s : Session fl dec)
    : Type 0 where
  pub completed : contains ℕ_discrete k s.scheduler.completed ≡ true
  pub not_pending : All (λ r. r.index ≢ k) s.pending
  pub at : s.engine.next_read ≡ k
  pub absent : lookup ℕ_discrete k s.engine.chunks ≡ none

module _ (fl : Floats) {P : Type 0} (dec : Discrete P) (total k : ℕ) where
  send-IsLost :
      (sched : Scheduler P) (rs : List (ChunkRequest P)) (s : Session fl dec)
      → contains ℕ_discrete k sched.completed ≡ true
      → All (λ r. r.index ≢ k) rs
      → IsLost fl dec k s
      → IsLost fl dec k (send fl dec total (sched, rs) s)
  unfolding send
  send-IsLost sched [] s c h v =
      let (p, q) = check_done-IsLost total k s.engine (v.at, v.absent) in
      record { completed = c; not_pending = v.not_pending; at = p; absent = q }
  send-IsLost sched (r ∷ rs) s c h v = record {
    completed = c;
    not_pending = All-append (λ q. q.index ≢ k) s.pending (r ∷ rs) v.not_pending h;
    at = v.at;
    absent = v.absent;
  }

  arrive-IsLost :
      (e : Engine) (b : Bool) (sched : Scheduler P) (stats : Stats fl dec)
      (rest : List (ChunkRequest P))
      → contains ℕ_discrete k sched.completed ≡ true
      → All (λ r. r.index ≢ k) rest
      → (e.next_read ≡ k) × (lookup ℕ_discrete k e.chunks ≡ none)
      → IsLost fl dec k (arrive fl dec (e, b) sched stats rest)
  unfolding arrive set_current_position
  arrive-IsLost e true sched stats rest c h v = record {
    completed = c;
    not_pending = h;
    at = v.0;
    absent = v.1;
  }
  arrive-IsLost e false sched stats rest c h v = record {
    completed = c;
    not_pending = h;
    at = v.0;
    absent = v.1;
  }

module _ (fl : Floats) {P : Type 0} (dec : Discrete P) (sorter : SliceSort (Candidate P))
    (peer_sorter : SliceSort P) where
  ask-other :
      (k : ℕ) (s : Session fl dec)
      → contains ℕ_discrete k s.scheduler.completed ≡ true
      → All (λ r. r.index ≢ k) (ask fl dec sorter peer_sorter s).1
  ask-other k s c =
      All-imp (IsRequest dec s.scheduler) (λ r. r.index ≢ k) (ask fl dec sorter peer_sorter s).1
        (λ r v p. ground (
          arith,
          c,
          subst (λ i. contains ℕ_discrete i s.scheduler.completed ≡ false) p v.open_chunk,
        ))
        (next_requests-IsRequest dec sorter (best_peers fl dec peer_sorter s.stats) s.scheduler
          (best_peers-Ranks fl dec peer_sorter s.stats)).0

  ask-IsLost :
      (total k : ℕ) (s : Session fl dec)
      → IsLost fl dec k s
      → IsLost fl dec k (send fl dec total (ask fl dec sorter peer_sorter s) s)
  ask-IsLost total k s v =
      let r = ask fl dec sorter peer_sorter s in
      let kept =
        next_requests-same dec sorter (best_peers fl dec peer_sorter s.stats) s.scheduler in
      send-IsLost fl dec total k r.0 r.1 s (rw (ap (λ q. q.completed) kept) v.completed)
        (ask-other k s v.completed) v

  step-IsLost :
      (total k : ℕ) (s : Session fl dec) (c : Call)
      → IsLost fl dec k s
      → IsLost fl dec k (step fl dec sorter peer_sorter total s c)
  unfolding step reset_to
  step-IsLost total k s asks v = elim (Bool-cases (leb max_buffer_chunks (buffer_ahead s.engine))) [
    | inl f ↦ rw (step, f) v
    | inr f ↦ rw (step, f) (ask-IsLost total k s v)
  ]
  step-IsLost total k s (answers n found latency now) v =
      elim (Option-cases (get_elem? s.pending n)) [
        | inl h ↦ rw (step, h) v
        | inr (r, h) ↦
            let other : r.index ≢ k = All-get_elem? _ s.pending n v.not_pending h in
            let a = accept_chunk r.index found now s.engine in
            rw (step, h)
              (arrive-IsLost fl dec total k a.0 a.1 (mark_completed r.index s.scheduler)
                (record_success fl dec r.peer latency (length found) s.stats) (without n s.pending)
                (mark_completed-completed k r.index s.scheduler v.completed)
                (without-not_pending k n s.pending v.not_pending)
                (accept_chunk-absent r.index k found now s.engine other (v.at, v.absent)))
      ]
  step-IsLost total k s (fails n) v = elim (Option-cases (get_elem? s.pending n)) [
    | inl h ↦ rw (step, h) v
    | inr (r, h) ↦
        rw (step, h)
          (record {
            completed = rw (mark_failed-completed dec r.index r.peer s.scheduler) v.completed;
            not_pending = without-not_pending k n s.pending v.not_pending;
            at = v.at;
            absent = v.absent;
          })
  ]
  step-IsLost total k s stalls v = record {
    completed = v.completed;
    not_pending = v.not_pending;
    at = v.at;
    absent = v.absent;
  }
  step-IsLost total k s (reads room) v =
      let same = read-absent room s.engine (rw v.at v.absent) in
      record {
        completed = v.completed;
        not_pending = v.not_pending;
        at = rw same v.at;
        absent = rw same v.absent;
      }

  run-IsLost :
      (total k : ℕ) (s : Session fl dec) (cs : List Call)
      → IsLost fl dec k s
      → IsLost fl dec k (run fl dec sorter peer_sorter total s cs)
  unfolding run
  run-IsLost total k s [] v = v
  run-IsLost total k s (c ∷ cs) v =
      run-IsLost total k (step fl dec sorter peer_sorter total s c) cs (step-IsLost total k s c v)

  -- The session after `Seek` to chunk `k` and then the calls `cs`.
  abbrev pub after_seek : ℕ → ℕ → ℕ → Session fl dec → List Call → Session fl dec
  after_seek total k now s cs =
      run fl dec sorter peer_sorter total (record s { engine = seek k now s.engine }) cs

  -- After `Seek` to a chunk that the scheduler has as completed, with no request for it out, that
  -- chunk is never delivered again: in any later run without another `Seek` or `StartStreaming`
  -- no read returns bytes, and the read pointer stays where it is.
  pub seek-IsLost :
      (total k now room : ℕ) (found : List ℕ) (s : Session fl dec) (cs : List Call)
      → contains ℕ_discrete k s.scheduler.completed ≡ true
      → All (λ r. r.index ≢ k) s.pending
      → ((read room (after_seek total k now s cs).engine).1 ≢ bytes found)
        × ((after_seek total k now s cs).engine.next_read ≡ k)
  unfolding seek lookup
  seek-IsLost total k now room found s cs c h =
      let sought : Session fl dec = record s { engine = seek k now s.engine } in
      let v =
        run-IsLost total k sought cs
          (record { completed = c; not_pending = h; at = refl; absent = refl }) in
      (read-bytes room found _ (rw v.at v.absent), v.at)
