-- ===== src/Scheduler/Requests/Limit.antt =====
-- internal/scheduler/scheduler.go: the loop of `NextRequests` over the sorted candidates.
use music_p2p.Prelude.{
  String, ℕ, suc, ◌+◌, ◌≤◌, ◌≡◌, inl, inr, Bool, true, false, not, ◌&&◌, List, [], ◌∷◌, ◌++◌, arith,
  length, leb, Bool-cases, List-cases, ℕ_discrete, max, length-append, ◌==◌,
}
use music_p2p.Prelude.Assoc.{add}
use music_p2p.Ranking.{BestPeers}
use music_p2p.Scheduler.Congestion.{Scheduler}
use music_p2p.Scheduler.Requests.{
  Candidate, ChunkRequest, chunk_priority, priority_critical, dispatch,
}
use music_p2p.Scheduler.Requests.Candidates.{Ordered}

module _ {ℓ} {P : Type ℓ} (best_peers : BestPeers P) where
  -- The request for a candidate and its best peer, and the state after it.
  abbrev pub request : String → Candidate P → P → ChunkRequest P
  request cid c p = record { cid = cid; index = c.index; peer = p; priority = c.priority }

  abbrev pub started : Scheduler P → Candidate P → Scheduler P
  started s c = record s { inflight = add ℕ_discrete c.index s.inflight }

  -- The candidate is not critical, and the limit is reached.
  abbrev pub stops : ℕ → Candidate P → List (ChunkRequest P) → Bool
  stops available c requests =
      not (c.priority == priority_critical) && leb available (length requests)

  -- One round of the loop.
  pub dispatch_cases {κ} :
      (Q : Scheduler P × List (ChunkRequest P) → Type κ) (available : ℕ) (c : Candidate P)
      (cs : List (Candidate P)) (requests : List (ChunkRequest P)) (s : Scheduler P)
      → (stops available c requests ≡ true → Q (s, requests))
      → (stops available c requests ≡ false
          → best_peers 1 c.peers ≡ []
          → Q (dispatch best_peers available cs requests s))
      → ((p : P) (ps : List P)
          → stops available c requests ≡ false
          → best_peers 1 c.peers ≡ p ∷ ps
          → Q (dispatch best_peers available cs (requests ++ request s.cid c p ∷ []) (started s c)))
      → Q (dispatch best_peers available (c ∷ cs) requests s)
  unfolding dispatch
  dispatch_cases Q available c cs requests s stop skip go =
      elim (Bool-cases (stops available c requests)) [
        | inl e ↦ rw (e, dispatch) (stop e)
        | inr e ↦ elim (List-cases (best_peers 1 c.peers)) [
          | inl f ↦ rw (e, f, dispatch) (skip e f)
          | inr (p, ps, f) ↦ rw (e, f, dispatch) (go p ps e f)
        ]
      ]

  admitted_next :
      (available : ℕ) (c : Candidate P) (requests : List (ChunkRequest P)) {more : ℕ}
      → length requests ≤ c.distance
      → c.priority ≡ chunk_priority c.distance
      → stops available c requests ≡ false
      → length requests ≤ max available 5
      → more ≡ length requests + 1
      → more ≤ max available 5
  unfolding chunk_priority
  admitted_next available c requests h p e k n = ground arith

  -- At most `available` requests, or the five of the critical zone.
  pub length-dispatch :
      (available d : ℕ) (cs : List (Candidate P)) (requests : List (ChunkRequest P))
      (s : Scheduler P)
      → Ordered d cs
      → length requests ≤ d
      → length requests ≤ max available 5
      → length (dispatch best_peers available cs requests s).1 ≤ max available 5
  unfolding dispatch
  length-dispatch available d [] requests s o h k = k
  length-dispatch available d (c ∷ cs) requests s o h k =
      dispatch_cases (λ r. length r.1 ≤ max available 5) available c cs requests s (λ e. k)
        (λ e f. length-dispatch available (suc c.distance) cs requests s o.2 (omega arith) k)
        (λ p ps e f.
          let n = length-append requests (request s.cid c p ∷ []) in
          length-dispatch available (suc c.distance) cs _ _ o.2 (omega (arith, n))
            (admitted_next available c requests (omega arith) o.1 e k n))
