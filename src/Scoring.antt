-- ===== src/Scoring.antt =====
-- internal/scoring/scoring.go: the statistics of the peers and their scores. The arithmetic of
-- float64 and `sort.Slice` are interfaces; a method is one atomic step under the lock.
pub mod Best
pub mod Counts
pub mod Fixed
pub mod History
mod Tests
use music_p2p.Prelude.{
  ℕ, ◌+◌, Bool, List, [], ◌∷◌, Option, none, some, length, take, ltb, if◌then◌else◌,
}
use music_p2p.Prelude.Assoc.{lookup, insert}
use music_p2p.Prelude.Sorting.{SliceSort}

-- float64: the operations that the score is computed with. `decimal m k` is the literal m / 10^k.
pub record Floats : Type 1 where
  pub Float : Type 0
  pub of_int : ℕ → Float
  pub decimal : ℕ → ℕ → Float
  pub add : Float → Float → Float
  pub mul : Float → Float → Float
  pub div : Float → Float → Float
  pub minimum : Float → Float → Float
  pub less : Float → Float → Bool

module _ (fl : Floats) where
  open fl use {Float, of_int, decimal, add, mul, div, minimum, less}

  pub record PeerStats : Type 0 where
    pub successes : ℕ
    pub failures : ℕ
    pub total_bytes : ℕ
    pub total_time_ms : Float

  unfoldable pub no_stats : PeerStats
  no_stats = record { successes = 0; failures = 0; total_bytes = 0; total_time_ms = of_int 0 }

  module _ {P : Type 0} (dec : Discrete P) where
    abbrev pub Stats : Type 0
    Stats = List (P × PeerStats)

    -- `getOrCreate` hands out a pointer: its callers write the entry back.
    unfoldable pub get_or_create : P → Stats → PeerStats
    get_or_create id stats = elim (lookup dec id stats) [ none ↦ no_stats | some ps ↦ ps ]

    unfoldable pub record_success : P → ℕ → ℕ → Stats → Stats
    record_success peer latency_ms bytes stats =
        let ps = get_or_create peer stats in
        insert dec peer
          (record ps {
            successes = ps.successes + 1;
            total_bytes = ps.total_bytes + bytes;
            total_time_ms = add ps.total_time_ms (of_int latency_ms);
          })
          stats

    unfoldable pub record_failure : P → Stats → Stats
    record_failure peer stats =
        let ps = get_or_create peer stats in
        insert dec peer (record ps { failures = ps.failures + 1 }) stats

    unfoldable pub success_rate : PeerStats → Float
    success_rate ps =
        if ltb 0 (ps.successes + ps.failures)
        then div (of_int ps.successes) (of_int (ps.successes + ps.failures))
        else of_int 0

    unfoldable pub latency_score : PeerStats → Float
    latency_score ps =
        if ltb 0 ps.successes
        then div (decimal 1 0)
            (add (decimal 1 0) (div (div ps.total_time_ms (of_int ps.successes)) (decimal 100 0)))
        else of_int 0

    unfoldable pub throughput_score : PeerStats → Float
    throughput_score ps =
        if less (of_int 0) ps.total_time_ms
        then minimum (decimal 1 0) (
            div (div (of_int ps.total_bytes) (div ps.total_time_ms (decimal 1000 0)))
              (decimal 1000000 0))
        else of_int 0

    unfoldable pub score : Stats → P → Float
    unfolding success_rate latency_score throughput_score
    score stats peer = elim (lookup dec peer stats) [
      | none ↦ decimal 5 1
      | some ps ↦
          add (add (mul (success_rate ps) (decimal 4 1)) (mul (throughput_score ps) (decimal 3 1)))
            (mul (latency_score ps) (decimal 3 1))
    ]

    -- Higher scores first.
    abbrev pub better : Stats → P → P → Bool
    better stats a b = less (score stats b) (score stats a)

    unfoldable pub best_peers : SliceSort P → Stats → ℕ → List P → List P
    best_peers sorter stats n candidates =
        let sorted = sorter.sort (better stats) candidates in
        take (if ltb (length sorted) n then length sorted else n) sorted
