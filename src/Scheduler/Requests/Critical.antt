-- ===== src/Scheduler/Requests/Critical.antt =====
-- internal/scheduler/scheduler.go: the critical zone passes the limit on requests.
use music_p2p.Prelude.{ℕ, suc, ◌+◌, ◌≤◌, ◌<◌, ◌≡◌, true, List, [], ◌∷◌, arith, All, ℕ_discrete}
use music_p2p.Prelude.Assoc.{contains}
use music_p2p.Ranking.{BestPeers}
use music_p2p.Scheduler.Congestion.{Scheduler}
use music_p2p.Scheduler.Requests.{
  Candidate, ChunkRequest, chunk_priority, zone_critical_end, dispatch,
}
use music_p2p.Scheduler.Requests.Candidates.{Ordered, indices}
use music_p2p.Scheduler.Requests.Limit.{request, started, stops, dispatch_cases}
use music_p2p.Scheduler.Requests.Dispatch.{
  HasBest, requested, contains-append_last, dispatch-requested,
}

module _ {ℓ} {P : Type ℓ} (best_peers : BestPeers P) (at : ℕ) where
  -- A candidate stands its distance ahead of the position `at`, and some peer is chosen for it.
  abbrev pub IsPlaced : Candidate P → Type ℓ
  IsPlaced c = (c.index ≡ at + c.distance) × HasBest best_peers c

  Ordered-contains :
      (d j : ℕ) (cs : List (Candidate P))
      → Ordered d cs
      → All IsPlaced cs
      → contains ℕ_discrete j (indices cs) ≡ true
      → at + d ≤ j
  unfolding contains
  Ordered-contains d j [] o v h = cc
  Ordered-contains d j (c ∷ cs) o v h = elim (ℕ_discrete c.index j) [
    | yes e ↦ omega (arith, v.0.0)
    | no e ↦ omega (arith, Ordered-contains (suc c.distance) j cs o.2 v.1 (ground (arith, h)))
  ]

  critical_passes :
      (available : ℕ) (c : Candidate P) (requests : List (ChunkRequest P))
      → c.priority ≡ chunk_priority c.distance
      → c.distance < zone_critical_end
      → stops best_peers available c requests ≡ true
      → ⊥
  unfolding chunk_priority
  critical_passes available c requests p h e = ground arith

  -- Every candidate of the critical zone is requested.
  pub dispatch-critical :
      (available d j : ℕ) (cs : List (Candidate P)) (requests : List (ChunkRequest P))
      (s : Scheduler P)
      → Ordered d cs
      → All IsPlaced cs
      → contains ℕ_discrete j (indices cs) ≡ true
      → j < at + zone_critical_end
      → contains ℕ_discrete j (requested (dispatch best_peers available cs requests s).1) ≡ true
  unfolding contains dispatch
  dispatch-critical available d j [] requests s o v h k = cc
  dispatch-critical available d j (c ∷ cs) requests s o v h k =
      let near : at + c.distance ≤ j =
        omega (arith, Ordered-contains c.distance j (c ∷ cs) (omega arith, o.1, o.2) v h) in
      dispatch_cases best_peers (λ r. contains ℕ_discrete j (requested r.1) ≡ true) available c cs
        requests s (λ e. absurd (critical_passes available c requests o.1 (omega arith) e))
        (λ e f. cc (f, v.0.1.2))
        (λ p ps e f. elim (ℕ_discrete c.index j) [
          | yes g ↦
              dispatch-requested best_peers available cs _ (started best_peers s c) j
                (contains-append_last best_peers j requests (request best_peers s.cid c p) g)
          | no g ↦
              dispatch-critical available (suc c.distance) j cs _ (started best_peers s c) o.2 v.1
                (ground (arith, h)) k
        ])
