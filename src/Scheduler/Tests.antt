-- ===== src/Scheduler/Tests.antt =====
-- internal/scheduler/scheduler.go: runs on a concrete track with two peers.
use music_p2p.Prelude.{ℕ, ◌≡◌, ◌≤◌, refl, true, [], ◌∷◌, arith, length, max, All, ℕ_discrete}
use music_p2p.Prelude.Assoc.{contains}
use music_p2p.Prelude.Sorting.Insertion.{slice_sort}
use music_p2p.Ranking.First.{first_peers, first_peers-Ranks}
use music_p2p.Scheduler.Congestion.{Scheduler, new}
use music_p2p.Scheduler.Congestion.Bounds.{InBounds, completes, fails, resets, run, run-InBounds}
use music_p2p.Scheduler.Requests.{next_requests, window_end}
use music_p2p.Scheduler.Requests.Candidates.{IsOpen}
use music_p2p.Scheduler.Requests.Dispatch.{requested, IsRising}
use music_p2p.Scheduler.Requests.Next.{
  IsRequest, next_requests-limit, next_requests-IsRequest, next_requests-critical,
}

abbrev started : Scheduler ℕ
started = record {
  cid = "c1";
  total_chunks = 3;
  current_pos = 1;
  chunk_peers = λ i. 7 ∷ 8 ∷ [];
  inflight = [];
  completed = 0 ∷ [];
  failed = λ i. 7 ∷ [];
  max_inflight = 8;
  recent_outcomes = [];
  consecutive_fail = 0;
}

next_requests-limit_example :
    (length (next_requests ℕ_discrete slice_sort first_peers started).1 ≤ max 8 5)
    × (length (next_requests ℕ_discrete slice_sort first_peers started).0.inflight ≤ max 8 5)
next_requests-limit_example = next_requests-limit ℕ_discrete slice_sort first_peers started

next_requests-IsRequest_example :
    All (IsRequest ℕ_discrete started) (next_requests ℕ_discrete slice_sort first_peers started).1
    × IsRising first_peers (next_requests ℕ_discrete slice_sort first_peers started).1
next_requests-IsRequest_example =
    next_requests-IsRequest ℕ_discrete slice_sort first_peers started first_peers-Ranks

started-IsOpen : IsOpen started 2
unfolding contains ℕ_discrete
started-IsOpen = record { open_chunk = refl; not_flying = refl; some_holder = omega arith }

next_requests-critical_example :
    contains ℕ_discrete 2 (requested (next_requests ℕ_discrete slice_sort first_peers started).1)
    ≡ true
unfolding window_end
next_requests-critical_example =
    next_requests-critical ℕ_discrete slice_sort first_peers started 2 first_peers-Ranks
      started-IsOpen (omega arith) (omega arith) (omega arith)

run-InBounds_example :
    InBounds (run ℕ_discrete (completes 1 ∷ fails 2 7 ∷ resets 1 ∷ []) (new {P = ℕ}))
run-InBounds_example = run-InBounds ℕ_discrete (completes 1 ∷ fails 2 7 ∷ resets 1 ∷ [])
