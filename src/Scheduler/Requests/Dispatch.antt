-- ===== src/Scheduler/Requests/Dispatch.antt =====
-- internal/scheduler/scheduler.go: which requests the loop over the candidates makes.
use music_p2p.Prelude.{
  ℕ, suc, ◌+◌, ◌≤◌, ◌<◌, ◌≡◌, refl, true, List, [], ◌∷◌, ◌++◌, arith, length, All, All-imp,
  All-append, ℕ_discrete, map, length-append,
}
use music_p2p.Prelude.Assoc.{contains, length-add, contains-add}
use music_p2p.Ranking.{BestPeers}
use music_p2p.Scheduler.Congestion.{Scheduler}
use music_p2p.Scheduler.Requests.{Candidate, ChunkRequest, dispatch}
use music_p2p.Scheduler.Requests.Candidates.{Ordered}
use music_p2p.Scheduler.Requests.Limit.{request, started, dispatch_cases}

abbrev pub requested {ℓ} : {P : Type ℓ} → List (ChunkRequest P) → List ℕ
requested = map (λ r. r.index)

module _ {ℓ} {P : Type ℓ} (best_peers : BestPeers P) where
  -- A property of the requests, from one of the candidates and their best peers.
  pub dispatch-All {κ} :
      (Q : ChunkRequest P → Type κ) (available : ℕ) (cs : List (Candidate P))
      (requests : List (ChunkRequest P)) (s : Scheduler P)
      → All
          (λ c.
            (p : P) (ps : List P)
            → best_peers 1 c.peers ≡ p ∷ ps
            → Q (request best_peers s.cid c p))
          cs
      → All Q requests
      → All Q (dispatch best_peers available cs requests s).1
  unfolding dispatch
  dispatch-All Q available [] requests s h k = k
  dispatch-All Q available (c ∷ cs) requests s h k =
      dispatch_cases best_peers (λ r. All Q r.1) available c cs requests s (λ e. k)
        (λ e f. dispatch-All Q available cs requests s h.1 k)
        (λ p ps e f.
          dispatch-All Q available cs _ (started best_peers s c) h.1
            (All-append Q requests (request best_peers s.cid c p ∷ []) k (h.0 p ps f, tt)))

  -- The loop changes nothing but the chunks in flight.
  pub dispatch-same :
      (available : ℕ) (cs : List (Candidate P)) (requests : List (ChunkRequest P)) (s : Scheduler P)
      → (dispatch best_peers available cs requests s).0
        ≡ record s { inflight = (dispatch best_peers available cs requests s).0.inflight }
  unfolding dispatch
  dispatch-same available [] requests s = refl
  dispatch-same available (c ∷ cs) requests s =
      dispatch_cases best_peers (λ r. r.0 ≡ record s { inflight = r.0.inflight }) available c cs
        requests s (λ e. refl) (λ e f. dispatch-same available cs requests s)
        (λ p ps e f. dispatch-same available cs _ (started best_peers s c))

  -- As many chunks are put in flight as requests are made, at most.
  pub length-inflight :
      (available : ℕ) (cs : List (Candidate P)) (requests : List (ChunkRequest P)) (s : Scheduler P)
      → length (dispatch best_peers available cs requests s).0.inflight + length requests
        ≤ length s.inflight + length (dispatch best_peers available cs requests s).1
  unfolding dispatch
  length-inflight available [] requests s = omega arith
  length-inflight available (c ∷ cs) requests s =
      dispatch_cases best_peers
        (λ r. length r.0.inflight + length requests ≤ length s.inflight + length r.1) available c cs
        requests s (λ e. omega arith) (λ e f. length-inflight available cs requests s)
        (λ p ps e f. omega (
          arith,
          length-inflight available cs (requests ++ request best_peers s.cid c p ∷ [])
              (started best_peers s c),
          length-append requests (request best_peers s.cid c p ∷ []),
          length-add ℕ_discrete c.index s.inflight,
        ))

  -- What is in flight stays so.
  pub contains-inflight :
      (available : ℕ) (cs : List (Candidate P)) (requests : List (ChunkRequest P)) (s : Scheduler P)
      (j : ℕ)
      → contains ℕ_discrete j s.inflight ≡ true
      → contains ℕ_discrete j (dispatch best_peers available cs requests s).0.inflight ≡ true
  unfolding dispatch
  contains-inflight available [] requests s j h = h
  contains-inflight available (c ∷ cs) requests s j h =
      dispatch_cases best_peers (λ r. contains ℕ_discrete j r.0.inflight ≡ true) available c cs
        requests s (λ e. h) (λ e f. contains-inflight available cs requests s j h)
        (λ p ps e f.
          contains-inflight available cs _ (started best_peers s c) j
            (ground (arith, contains-add ℕ_discrete c.index j s.inflight)))

  contains-append :
      (j : ℕ) (xs ys : List (ChunkRequest P))
      → contains ℕ_discrete j (requested xs) ≡ true
      → contains ℕ_discrete j (requested (xs ++ ys)) ≡ true
  unfolding contains
  contains-append j [] ys h = cc
  contains-append j (x ∷ xs) ys h = ground (arith, contains-append j xs ys)

  pub contains-append_last :
      (j : ℕ) (xs : List (ChunkRequest P)) (r : ChunkRequest P)
      → r.index ≡ j
      → contains ℕ_discrete j (requested (xs ++ r ∷ [])) ≡ true
  unfolding contains
  contains-append_last j [] r h = ground arith
  contains-append_last j (x ∷ xs) r h = ground (arith, contains-append_last j xs r h)

  -- What was requested stays so.
  pub dispatch-requested :
      (available : ℕ) (cs : List (Candidate P)) (requests : List (ChunkRequest P)) (s : Scheduler P)
      (j : ℕ)
      → contains ℕ_discrete j (requested requests) ≡ true
      → contains ℕ_discrete j (requested (dispatch best_peers available cs requests s).1) ≡ true
  unfolding dispatch
  dispatch-requested available [] requests s j h = h
  dispatch-requested available (c ∷ cs) requests s j h =
      dispatch_cases best_peers (λ r. contains ℕ_discrete j (requested r.1) ≡ true) available c cs
        requests s (λ e. h) (λ e f. dispatch-requested available cs requests s j h)
        (λ p ps e f.
          dispatch-requested available cs _ (started best_peers s c) j
            (contains-append j requests (request best_peers s.cid c p ∷ []) h))

  -- Some peer is chosen for the candidate.
  abbrev pub HasBest : Candidate P → Type ℓ
  HasBest c = (p : P) × (ps : List P) × (best_peers 1 c.peers ≡ p ∷ ps)

  -- The indices of the requests rise, all below `n`.
  abbrev pub IsRising : List (ChunkRequest P) → Type 0
  IsRising [] = Unit {0}
  IsRising (r ∷ rs) = All (λ q. r.index < q.index) rs × IsRising rs

  IsRising-append :
      (rs : List (ChunkRequest P)) (r : ChunkRequest P)
      → IsRising rs
      → All (λ q. q.index < r.index) rs
      → IsRising (rs ++ r ∷ [])
  IsRising-append [] r v h = (tt, tt)
  IsRising-append (q ∷ rs) r v h =
      (All-append (λ x. q.index < x.index) rs (r ∷ []) v.0 (h.0, tt), IsRising-append rs r v.1 h.1)

  -- No chunk is requested twice.
  pub dispatch-IsRising :
      (at available d : ℕ) (cs : List (Candidate P)) (requests : List (ChunkRequest P))
      (s : Scheduler P)
      → Ordered d cs
      → All (λ c. c.index ≡ at + c.distance) cs
      → IsRising requests
      → All (λ q. q.index < at + d) requests
      → IsRising (dispatch best_peers available cs requests s).1
  unfolding dispatch
  dispatch-IsRising at available d [] requests s o v h k = h
  dispatch-IsRising at available d (c ∷ cs) requests s o v h k =
      let below =
        All-imp (λ q. q.index < at + d) (λ q. q.index < at + suc c.distance) requests
          (λ q e. omega (arith, o.0)) k in
      dispatch_cases best_peers (λ r. IsRising r.1) available c cs requests s (λ e. h)
        (λ e f. dispatch-IsRising at available (suc c.distance) cs requests s o.2 v.1 h below)
        (λ p ps e f.
          let r = request best_peers s.cid c p in
          dispatch-IsRising at available (suc c.distance) cs (requests ++ r ∷ [])
            (started best_peers s c) o.2 v.1
            (IsRising-append requests r h (
              All-imp (λ q. q.index < at + d) (λ q. q.index < c.index) requests
                (λ q e. omega (arith, o.0, v.0)) k))
            (All-append (λ q. q.index < at + suc c.distance) requests (r ∷ []) below
              (omega (arith, v.0), tt)))
