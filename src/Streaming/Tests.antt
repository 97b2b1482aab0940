-- ===== src/Streaming/Tests.antt =====
-- internal/streaming/engine.go: a short stream, and a seek.
use music_p2p.Prelude.{
  length, ◌<◌, ℕ, zero, suc, ◌≡◌, ◌≢◌, refl, true, false, List, [], ◌∷◌, ◌++◌, arith, All,
  ℕ_discrete,
}
use music_p2p.Prelude.Assoc.{contains, lookup, insert, delete}
use music_p2p.Prelude.Sorting.Insertion.{slice_sort}
use music_p2p.Streaming.Session
use music_p2p.Scheduler.Congestion.{Scheduler}
use music_p2p.Scoring.Fixed.{thousandths}
use music_p2p.Streaming.Engine.{
  Engine, start, accept_chunk, check_done, finish, read, read_chunk, idle, bytes, eof, missing,
}
use music_p2p.Streaming.Engine.Run.{Call, accepts, checks, reads, step, run, IsFrom, stream}
use music_p2p.Streaming.Engine.Run.Reads.{stream-read_missing, stream-read_eof, stream-prefix}
use music_p2p.Streaming.Engine.Run.Arrivals.{arrives, IsServed, stream-read_arrived}
use music_p2p.Scheduler.Requests.{next_requests}
use music_p2p.Scheduler.Requests.Dispatch.{requested}
use music_p2p.Scoring.{best_peers}
use music_p2p.Streaming.Start.{others, schedule}
use music_p2p.Streaming.Start.First.{schedule-requested}
use music_p2p.Streaming.Session.{Session, asks, answers}
use music_p2p.Streaming.Session.Seek.{after_seek, seek-IsLost}

-- Two chunks of two bytes.
abbrev track : ℕ → List ℕ
track zero = 10 ∷ 11 ∷ []
track (suc i) = 20 ∷ 21 ∷ []

abbrev before : Engine
before = record {
  chunks = [];
  next_read = 0;
  received = 0;
  total_chunks = 0;
  cid = "";
  done = false;
  last_chunk_time = 0;
}

-- The second chunk comes first, and once more later.
abbrev calls : List Call
calls =
    accepts 1 (20 ∷ 21 ∷ []) 5
    ∷ reads 1
    ∷ accepts 0 (10 ∷ 11 ∷ []) 6
    ∷ reads 1
    ∷ accepts 1 (20 ∷ 21 ∷ []) 7
    ∷ reads 4
    ∷ checks
    ∷ reads 4
    ∷ []

calls-IsFrom : All (IsFrom track 2) calls
calls-IsFrom = (
  (omega arith, refl),
  (tt, ((omega arith, refl), (tt, ((omega arith, refl), (tt, (tt, (tt, tt))))))),
)

end_of_stream : (read 4 (stream "c1" 2 0 before calls).0).1 ≡ eof
unfolding read read_chunk idle start run step accept_chunk check_done finish lookup insert delete
    ℕ_discrete
end_of_stream = refl

stream-read_eof_example : (stream "c1" 2 0 before calls).1 ≡ 10 ∷ 11 ∷ 20 ∷ 21 ∷ []
stream-read_eof_example = stream-read_eof track 2 "c1" 0 before calls calls-IsFrom 4 end_of_stream

stream-read_missing_example : (read 4 (stream "c1" 2 0 before calls).0).1 ≢ missing 2
stream-read_missing_example = stream-read_missing track 2 "c1" 0 before calls calls-IsFrom 4 2

stream-prefix_example :
    (rest : List ℕ) × ((stream "c1" 2 0 before calls).1 ++ rest ≡ 10 ∷ 11 ∷ 20 ∷ 21 ∷ [])
stream-prefix_example = stream-prefix track 2 "c1" 0 before calls calls-IsFrom

all_arrive : (i : ℕ) → i < 2 → arrives i calls ≡ true
unfolding arrives ℕ_discrete
all_arrive zero h = refl
all_arrive (suc zero) h = refl
all_arrive (suc (suc i)) h = absurd (omega (arith, h))

stream-read_arrived_example :
    IsServed
      (10 ∷ 11 ∷ 20 ∷ 21 ∷ [])
      (stream "c1" 2 0 before calls).1
      (read 4 (check_done 2 (stream "c1" 2 0 before calls).0)).1
stream-read_arrived_example =
    stream-read_arrived track 2 "c1" 0 before calls 4 calls-IsFrom all_arrive

abbrev scheduler : Scheduler ℕ
scheduler = record {
  cid = "c1";
  total_chunks = 2;
  current_pos = 1;
  chunk_peers = λ i. 7 ∷ [];
  inflight = [];
  completed = 0 ∷ [];
  failed = λ i. [];
  max_inflight = 8;
  recent_outcomes = [];
  consecutive_fail = 0;
}

-- The first chunk was read.
abbrev session : Session thousandths ℕ_discrete
session = record {
  engine = record before { next_read = 1; received = 1; total_chunks = 2 };
  scheduler = scheduler;
  stats = [];
  pending = [];
}

first_completed : contains ℕ_discrete 0 scheduler.completed ≡ true
unfolding contains ℕ_discrete
first_completed = refl

abbrev later : List Session.Call
later = asks ∷ answers 0 (20 ∷ 21 ∷ []) 3 10 ∷ asks ∷ []

seek-IsLost_example :
    ((read 4 (after_seek thousandths ℕ_discrete slice_sort slice_sort 2 0 9 session later).engine).1
      ≢ bytes (10 ∷ 11 ∷ []))
    × ((after_seek thousandths ℕ_discrete slice_sort slice_sort 2 0 9 session
          later).engine.next_read
        ≡ 0)
seek-IsLost_example =
    seek-IsLost thousandths ℕ_discrete slice_sort slice_sort 2 0 9 4 (10 ∷ 11 ∷ []) session later
      first_completed tt

some_other : 0 < length (others ℕ_discrete 1 (1 ∷ 2 ∷ 3 ∷ []))
unfolding others ℕ_discrete
some_other = omega arith

schedule-requested_example :
    contains ℕ_discrete 4 (
      requested
        (next_requests ℕ_discrete slice_sort
          (best_peers thousandths ℕ_discrete slice_sort [])
          (schedule ℕ_discrete 1 "c1" 9 (1 ∷ 2 ∷ 3 ∷ []))).1)
    ≡ true
schedule-requested_example =
    schedule-requested ℕ_discrete 1 thousandths slice_sort slice_sort [] "c1" 9 4 (1 ∷ 2 ∷ 3 ∷ [])
      some_other (omega arith) (omega arith)
