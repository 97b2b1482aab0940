-- ===== src/Scoring/Tests.antt =====
-- internal/scoring/scoring.go: runs with fixed-point numbers for float64, in thousandths.
use music_p2p.Prelude.{ℕ, List, [], ◌∷◌, arith, ℕ_discrete}
use music_p2p.Prelude.Sorting.{StrictWeak}
use music_p2p.Prelude.Sorting.Insertion.{slice_sort}
use music_p2p.Scoring.Fixed.{thousandths}
use music_p2p.Scoring.{best_peers}
use music_p2p.Scoring.Counts.{Outcome, success, failure, record_all}
use music_p2p.Scoring.History.{rated, ahead, IsBest, best_peers-rated}

abbrev outcomes : List (ℕ × Outcome)
outcomes = (1, success 30 100) ∷ (2, failure) ∷ (1, success 20 50) ∷ (1, failure) ∷ []

ahead-StrictWeak : StrictWeak (ahead thousandths ℕ_discrete (rated thousandths ℕ_discrete outcomes))
ahead-StrictWeak = record {
  irreflexive = λ a. ground arith;
  transitive = λ a b c p q. ground (arith, p, q);
  cotransitive = λ a b c p. ground (arith, p);
}

-- Peer 3 is unknown.
best_peers-rated_example :
    IsBest thousandths ℕ_discrete (rated thousandths ℕ_discrete outcomes) 2 (2 ∷ 1 ∷ 3 ∷ []) (
      best_peers thousandths ℕ_discrete slice_sort
        (record_all thousandths ℕ_discrete outcomes)
        2
        (2 ∷ 1 ∷ 3 ∷ []))
best_peers-rated_example =
    best_peers-rated thousandths ℕ_discrete slice_sort outcomes 2 (2 ∷ 1 ∷ 3 ∷ []) ahead-StrictWeak
