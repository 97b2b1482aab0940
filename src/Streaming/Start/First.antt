-- ===== src/Streaming/Start/First.antt =====
-- internal/streaming/engine.go: the first requests of a download.
use music_p2p.Prelude.{ℕ, ◌<◌, ◌≡◌, refl, true, String, List, length, arith, ℕ_discrete}
use music_p2p.Prelude.Assoc.{contains}
use music_p2p.Prelude.Sorting.{SliceSort}
use music_p2p.Scheduler.Congestion
use music_p2p.Scoring.{Floats, Stats, best_peers}
use music_p2p.Scoring.Best.{best_peers-Ranks}
use music_p2p.Scheduler.Congestion.{
  Scheduler, set_cid, set_total_chunks, set_current_position, set_available_chunks,
}
use music_p2p.Scheduler.Requests.{Candidate, next_requests, window_end, zone_critical_end}
use music_p2p.Scheduler.Requests.Candidates.{IsOpen}
use music_p2p.Scheduler.Requests.Dispatch.{requested}
use music_p2p.Scheduler.Requests.Next.{next_requests-critical}
use music_p2p.Streaming.Start.{others, schedule}

module _ {P : Type 0} (dec : Discrete P) (self : P) where
  schedule-IsOpen :
      (cid : String) (total j : ℕ) (providers : List P)
      → 0 < length (others dec self providers)
      → j < total
      → IsOpen (schedule dec self cid total providers) j
  unfolding schedule set_cid set_total_chunks set_current_position set_available_chunks
      Congestion.new contains
  schedule-IsOpen cid total j providers h p = record {
    open_chunk = refl;
    not_flying = refl;
    some_holder = ground (arith, h);
  }

  schedule-window_end :
      (cid : String) (total j : ℕ) (providers : List P)
      → j < zone_critical_end
      → j < total
      → j < window_end (schedule dec self cid total providers)
  unfolding schedule set_cid set_total_chunks set_current_position set_available_chunks
      Congestion.new window_end
  schedule-window_end cid total j providers h p = ground arith

  schedule-current_pos :
      (cid : String) (total : ℕ) (providers : List P)
      → (schedule dec self cid total providers).current_pos ≡ 0
  unfolding schedule set_cid set_total_chunks set_current_position set_available_chunks
      Congestion.new
  schedule-current_pos cid total providers = refl

  -- When a download begins and some provider is another node, the first round of requests asks for
  -- every one of the first five chunks of the track, whatever the scores of the peers are.
  pub schedule-requested :
      (fl : Floats) (sorter : SliceSort (Candidate P)) (peer_sorter : SliceSort P)
      (stats : Stats fl dec) (cid : String) (total j : ℕ) (providers : List P)
      → 0 < length (others dec self providers)
      → j < total
      → j < zone_critical_end
      → contains ℕ_discrete j (
          requested
            (next_requests dec sorter
              (best_peers fl dec peer_sorter stats)
              (schedule dec self cid total providers)).1)
        ≡ true
  schedule-requested fl sorter peer_sorter stats cid total j providers h p q =
      let s = schedule dec self cid total providers in
      next_requests-critical dec sorter (best_peers fl dec peer_sorter stats) s j
        (best_peers-Ranks fl dec peer_sorter stats) (schedule-IsOpen cid total j providers h p)
        (omega (arith, schedule-current_pos cid total providers))
        (omega (arith, schedule-current_pos cid total providers))
        (schedule-window_end cid total j providers q p)
