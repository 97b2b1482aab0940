-- ===== src/Ranking.antt =====
-- The interface between internal/scheduler/scheduler.go and internal/scoring/scoring.go: what
-- `NextRequests` needs of `Scorer.BestPeers`.
pub mod First
use music_p2p.Prelude.{ℕ, ◌<◌, ◌≡◌, true, List, length, All}
use music_p2p.Prelude.Assoc.{contains}

abbrev pub BestPeers {ℓ} : Type ℓ → Type ℓ
BestPeers P = ℕ → List P → List P

-- The peers that it returns are among those that it is given, and of some peers it returns one.
pub record Ranks {ℓ} {P : Type ℓ} (dec : Discrete P) (best_peers : BestPeers P) : Type ℓ where
  pub member : (n : ℕ) (ps : List P) → All (λ p. contains dec p ps ≡ true) (best_peers n ps)
  pub some_best : (ps : List P) → 0 < length ps → 0 < length (best_peers 1 ps)
