-- ===== src/Streaming/Engine.antt =====
-- internal/streaming/engine.go: the read buffer of `Engine`. The mutex makes each critical section
-- one atomic step; `time.Now()` is an argument. A wait on `readCond` is the result `waits`, after
-- which the caller runs the same step again.
pub mod Buffer
pub mod Run
use music_p2p.Prelude.{
  ℕ, suc, ◌+◌, Bool, true, false, ◌&&◌, ◌||◌, String, List, [], ◌∷◌, Option, none, some, length,
  take, drop, ltb, leb, if◌then◌else◌, ℕ_discrete,
}
use music_p2p.Prelude.Assoc.{lookup, insert, delete}

abbrev pub max_buffer_chunks : ℕ
max_buffer_chunks = 50

pub record Engine : Type 0 where
  pub chunks : List (ℕ × List ℕ)
  pub next_read : ℕ
  pub received : ℕ
  pub total_chunks : ℕ
  pub cid : String
  pub done : Bool
  pub last_chunk_time : ℕ

-- The critical section of `StartStreaming`.
unfoldable pub start : String → ℕ → ℕ → Engine → Engine
start cid n now e = record {
  chunks = [];
  next_read = 0;
  received = 0;
  total_chunks = n;
  cid = cid;
  done = false;
  last_chunk_time = now;
}

abbrev pub count_from : ℕ → List (ℕ × List ℕ) → ℕ
count_from at [] = 0
count_from at ((idx, bytes) ∷ m) = (if leb at idx then 1 else 0) + count_from at m

unfoldable pub buffer_ahead : Engine → ℕ
buffer_ahead e = count_from e.next_read e.chunks

unfoldable pub accept_chunk : ℕ → List ℕ → ℕ → Engine → Engine × Bool
accept_chunk index bytes now e =
    if ltb index e.next_read then (e, false) else elim (lookup ℕ_discrete index e.chunks) [
      | some _ ↦ (e, false)
      | none ↦ (
        record e {
          chunks = insert ℕ_discrete index bytes e.chunks;
          received = e.received + 1;
          last_chunk_time = now;
        },
        true,
      )
    ]

-- The last critical section of the loop of `serveFromLocalStorage`, after the wait for room.
unfoldable pub supply_chunk : ℕ → List ℕ → ℕ → Engine → Engine
supply_chunk index bytes now e = record e {
  chunks = insert ℕ_discrete index bytes e.chunks;
  received = e.received + 1;
  last_chunk_time = now;
}

unfoldable pub finish : Engine → Engine
finish e = record e { done = true }

-- The test of `downloadLoop` when there is nothing to request, with `total` its argument.
unfoldable pub check_done : ℕ → Engine → Engine
unfolding finish
check_done total e = if leb total e.received then finish e else e

-- `Seek` with an index that is not negative.
unfoldable pub seek : ℕ → ℕ → Engine → Engine
seek chunk_index now e = record e {
  next_read = chunk_index;
  chunks = [];
  done = false;
  last_chunk_time = now;
}

-- The result of one round of the loop of `Read`.
pub data ReadResult : Type 0 where
  bytes : List ℕ → ReadResult
  eof : ReadResult
  missing : ℕ → ReadResult
  waits : ReadResult

-- The branch with the next chunk at hand; `room` is `len(p)`.
unfoldable pub read_chunk : ℕ → List ℕ → Engine → Engine × ReadResult
read_chunk room found e =
    let n = if ltb room (length found) then room else length found in
    if ltb n (length found)
    then (
      record e { chunks = insert ℕ_discrete e.next_read (drop n found) e.chunks },
      bytes (take n found),
    )
    else (
      record e { chunks = delete ℕ_discrete e.next_read e.chunks; next_read = e.next_read + 1 },
      bytes (take n found),
    )

-- The branches without it; `at_end` is the first test.
unfoldable pub idle : Bool → Bool → Engine → Engine × ReadResult
idle at_end done e =
    if at_end then (e, eof) else if done then (e, missing e.next_read) else (e, waits)

unfoldable pub read : ℕ → Engine → Engine × ReadResult
read room e = elim (lookup ℕ_discrete e.next_read e.chunks) [
  | some found ↦ read_chunk room found e
  | none ↦ idle (e.done && leb e.total_chunks e.next_read) e.done e
]

-- What a read delivers: bytes, or none.
abbrev pub delivered : ReadResult → List ℕ
delivered (bytes xs) = xs
delivered eof = []
delivered (missing i) = []
delivered waits = []

-- The test of the loop of `WaitForChunks`.
unfoldable pub has_chunks : ℕ → Engine → Bool
has_chunks n e = leb n e.received || e.done
