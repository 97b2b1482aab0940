-- ===== src/Ranking/First.antt =====
-- The simplest `BestPeers`, for runs of the scheduler on concrete peers.
use music_p2p.Prelude.{
  ℕ, zero, suc, ◌≡◌, ◌<◌, true, List, [], ◌∷◌, arith, length, All, ℕ_discrete, take,
}
use music_p2p.Prelude.Assoc.{contains, All-contains_self}
use music_p2p.Ranking.{Ranks}

-- A choice of peers that keeps the order in which they are given.
abbrev pub first_peers : ℕ → List ℕ → List ℕ
first_peers n ps = take n ps

All-take-contains :
    (n : ℕ) (qs ps : List ℕ)
    → All (λ p. contains ℕ_discrete p qs ≡ true) ps
    → All (λ p. contains ℕ_discrete p qs ≡ true) (take n ps)
All-take-contains zero qs ps h = tt
All-take-contains (suc n) qs [] h = tt
All-take-contains (suc n) qs (p ∷ ps) h = (h.0, All-take-contains n qs ps h.1)

first_some : (ps : List ℕ) → 0 < length ps → 0 < length (first_peers 1 ps)
first_some [] h = h
first_some (p ∷ ps) h = omega arith

pub first_peers-Ranks : Ranks ℕ_discrete first_peers
first_peers-Ranks = record {
  member = λ n ps. All-take-contains n ps ps (All-contains_self ℕ_discrete ps);
  some_best = first_some;
}
