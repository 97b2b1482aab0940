-- ===== src/ConnPool/Tests.antt =====
-- internal/connpool/pool.go: two peers with numbers for streams.
use music_p2p.Prelude.{ℕ, ◌≡◌, ◌<◌, false, [], ◌∷◌, none, some, length, arith, ℕ_discrete}
use music_p2p.Prelude.Assoc.{lookup}
use music_p2p.ConnPool.{Pool, new, get_or_create, acquire, release, max_streams_per_peer}
use music_p2p.ConnPool.Streams.{IsBounded, acquires, releases, reaps, run, run-IsBounded}
use music_p2p.ConnPool.Reuse.{acquire-release}

abbrev pool : Pool ℕ ℕ
pool = record {
  peers =
      (1, record { idle = record { stream = 11; idle_since = 5 } ∷ []; active = 2 })
      ∷ (2, record { idle = []; active = 1 })
      ∷ [];
  closed = [];
  done = false;
}

run-IsBounded_example :
    IsBounded
      (run ℕ_discrete
        (new {P = ℕ} {S = ℕ})
        (acquires (some 7) 0 1 ∷ releases 3 1 7 false ∷ reaps 9 ∷ [])).peers
run-IsBounded_example =
    run-IsBounded ℕ_discrete (acquires (some 7) 0 1 ∷ releases 3 1 7 false ∷ reaps 9 ∷ [])

one_idle : length (get_or_create ℕ_discrete 1 pool).idle < max_streams_per_peer
unfolding get_or_create lookup ℕ_discrete
one_idle = omega arith

acquire-release_example :
    ((acquire ℕ_discrete none 20 1 (release ℕ_discrete 10 1 12 false pool)).1 ≡ some 12)
    × ((acquire ℕ_discrete none 20 1 (release ℕ_discrete 10 1 12 false pool)).0.closed ≡ [])
    × ((get_or_create ℕ_discrete 1
          (acquire ℕ_discrete none 20 1 (release ℕ_discrete 10 1 12 false pool)).0).idle
        ≡ (get_or_create ℕ_discrete 1 pool).idle)
acquire-release_example = acquire-release ℕ_discrete none 10 20 1 12 pool one_idle (omega arith)
