-- ===== src/Scheduler/Requests/Next.antt =====
-- internal/scheduler/scheduler.go: the properties of `NextRequests`.
use mathlib.Core.HLevel.{hedberg}
use music_p2p.Prelude.{
  String, subst, List-cases, ℕ, ◌+◌, ◌-◌, ◌≤◌, ◌<◌, ◌≡◌, refl, sym, ap, ◌∙◌, ◌⊎◌, inl, inr, true,
  false, List, [], ◌∷◌, arith, length, max, All, All-imp, ℕ_discrete,
}
use music_p2p.Prelude.Assoc.{contains, All-contains}
use music_p2p.Prelude.Sorting.{SliceSort, sort-increasing}
use music_p2p.Ranking.{BestPeers, Ranks}
use music_p2p.Scheduler.Congestion.{Scheduler}
use music_p2p.Scheduler.Requests.{
  Candidate, ChunkRequest, chunk_priority, collect, more_urgent, dispatch, window_end,
  next_requests, zone_critical_end,
}
use music_p2p.Scheduler.Requests.Window.{IsCandidate, more_urgent-StrictWeak}
use music_p2p.Scheduler.Requests.Candidates.{
  Collected, Ordered, Ordered-mono, IsOpen, collect-Collected, collect-same, collect_complete,
}
use music_p2p.Scheduler.Requests.Limit.{request, length-dispatch}
use music_p2p.Scheduler.Requests.Dispatch.{
  dispatch-All, dispatch-same, length-inflight, requested, HasBest, IsRising, dispatch-IsRising,
}
use music_p2p.Scheduler.Requests.Critical.{dispatch-critical}

Candidate-set {ℓ} : {P : Type ℓ} → IsSet P → IsSet (Candidate P)
Candidate-set h = hlevel h

-- What a request of `NextRequests` promises, for the scheduler as it was: the chunk is of the
-- track, in the window, neither completed nor in flight; the priority is that of its distance;
-- the peer holds the chunk, and did not fail it unless all peers that hold it did.
pub record IsRequest {ℓ} {P : Type ℓ} (dec : Discrete P) (s : Scheduler P) (r : ChunkRequest P)
    : Type ℓ where
  pub track : r.cid ≡ s.cid
  pub from : s.current_pos ≤ r.index
  pub to : r.index < window_end s
  pub open_chunk : contains ℕ_discrete r.index s.completed ≡ false
  pub not_flying : contains ℕ_discrete r.index s.inflight ≡ false
  pub urgency : r.priority ≡ chunk_priority (r.index - s.current_pos)
  pub holder : contains dec r.peer (s.chunk_peers r.index) ≡ true
  pub fresh :
      (contains dec r.peer (s.failed r.index) ≡ false)
      ⊎ All (λ p. contains dec p (s.failed r.index) ≡ true) (s.chunk_peers r.index)

module _ {ℓ} {P : Type ℓ} (dec : Discrete P) (best_peers : BestPeers P)
    (ranks : Ranks dec best_peers) where
  best_fresh :
      (s : Scheduler P) (c : Candidate P) (p : P)
      → contains dec p c.peers ≡ true
      → (All (λ p'. contains dec p' (s.failed c.index) ≡ false) c.peers
          ⊎ All (λ p'. contains dec p' (s.failed c.index) ≡ true) (s.chunk_peers c.index))
      → (contains dec p (s.failed c.index) ≡ false)
        ⊎ All (λ p'. contains dec p' (s.failed c.index) ≡ true) (s.chunk_peers c.index)
  best_fresh s c p m (inl h) =
      inl (All-contains dec (λ p'. contains dec p' (s.failed c.index) ≡ false) p c.peers h m)
  best_fresh s c p m (inr h) = inr h

  request-IsRequest :
      (s : Scheduler P) (cid : String) (c : Candidate P)
      → cid ≡ s.cid
      → IsCandidate dec s c
        × (s.current_pos ≤ c.index)
        × (c.index < s.current_pos + (window_end s - s.current_pos))
      → (p : P) (ps : List P) → best_peers 1 c.peers ≡ p ∷ ps
      → IsRequest dec s (request best_peers cid c p)
  request-IsRequest s cid c track (v, low, high) p ps e =
      let all : All (λ p'. contains dec p' c.peers ≡ true) (p ∷ ps) =
        subst (All (λ p'. contains dec p' c.peers ≡ true)) e (ranks.member 1 c.peers) in
      record {
        track = track;
        from = low;
        to = omega arith;
        open_chunk = v.open_chunk;
        not_flying = v.not_flying;
        urgency = v.urgency ∙ ap chunk_priority (omega (arith, v.ahead));
        holder =
            All-contains dec (λ p'. contains dec p' (s.chunk_peers c.index) ≡ true) p c.peers
              v.holders all.0;
        fresh = best_fresh s c p all.0 v.fresh;
      }

  has_best : (s : Scheduler P) (c : Candidate P) → IsCandidate dec s c → HasBest best_peers c
  has_best s c v = elim (List-cases (best_peers 1 c.peers)) [
    | inl e ↦ absurd (omega (arith, ap length e, ranks.some_best c.peers v.some_holder))
    | inr (p, ps, e) ↦ (p, ps, e)
  ]

module _ {ℓ} {P : Type ℓ} (dec : Discrete P) (sorter : SliceSort (Candidate P))
    (best_peers : BestPeers P) where
  -- The candidates, before they are sorted.
  abbrev pub candidates : Scheduler P → List (Candidate P)
  candidates s = (collect dec (window_end s - s.current_pos) s.current_pos s).1

  start-Collected :
      (s : Scheduler P)
      → Collected dec s.current_pos (window_end s - s.current_pos) s (candidates s)
  start-Collected s =
      collect-Collected dec (window_end s - s.current_pos) s.current_pos s s
        (record { same = refl; later = λ j h. refl }) (omega arith)

  -- The loop over the window collects the candidates in the order by priority, then distance, then
  -- rarity, so that `sort.Slice` returns them as they are; whichever way it orders elements that
  -- the comparison does not separate, and whatever the rarity of the chunks.
  pub sort-candidates : (s : Scheduler P) → sorter.sort more_urgent (candidates s) ≡ candidates s
  sort-candidates s =
      sort-increasing (Candidate-set (hedberg dec)) more_urgent sorter (candidates s)
        more_urgent-StrictWeak (start-Collected s).increasing

  start-Ordered : (s : Scheduler P) → Ordered 0 (candidates s)
  start-Ordered s =
      Ordered-mono 0 (s.current_pos - s.current_pos) (candidates s) (omega arith)
        (start-Collected s).ordered

  -- `NextRequests` makes at most as many requests as the concurrency limit has room for, or the
  -- five of the critical zone if that is more; so afterwards at most the limit is in flight, or
  -- five more than before.
  pub next_requests-limit :
      (s : Scheduler P)
      → (length (next_requests dec sorter best_peers s).1
          ≤ max (s.max_inflight - length s.inflight) 5)
        × (length (next_requests dec sorter best_peers s).0.inflight
            ≤ max s.max_inflight (length s.inflight + 5))
  unfolding next_requests
  next_requests-limit s =
      let n = window_end s - s.current_pos in
      let available = s.max_inflight - length s.inflight in
      let t = (collect dec n s.current_pos s).0 in
      let same = ap length (ap (λ r. r.inflight) (collect-same dec n s.current_pos s)) in
      rw (sort-candidates s) (
        let bound : length (dispatch best_peers available (candidates s) [] t).1 ≤ max available 5 =
          length-dispatch best_peers available 0 (candidates s) [] t (start-Ordered s) (omega arith)
            (omega arith) in
        let grown = length-inflight best_peers available (candidates s) [] t in
        (bound, omega (arith, bound, grown, same)))

  -- Every request that `NextRequests` makes is for a chunk of the window that is neither completed
  -- nor in flight, at the priority of its distance, from a peer that holds the chunk and did not
  -- fail it, unless all that hold it did; and no chunk is requested twice. `BestPeers` chooses
  -- among the peers that it is given.
  pub next_requests-IsRequest :
      (s : Scheduler P)
      → Ranks dec best_peers
      → All (IsRequest dec s) (next_requests dec sorter best_peers s).1
        × IsRising best_peers (next_requests dec sorter best_peers s).1
  unfolding next_requests
  next_requests-IsRequest s ranks =
      let n = window_end s - s.current_pos in
      let available = s.max_inflight - length s.inflight in
      let t = (collect dec n s.current_pos s).0 in
      let track = ap (λ r. r.cid) (collect-same dec n s.current_pos s) in
      let right = (start-Collected s).right in
      rw (sort-candidates s) (
        dispatch-All best_peers (IsRequest dec s) available (candidates s) [] t
            (All-imp _ _ (candidates s)
              (λ c h. request-IsRequest dec best_peers ranks s t.cid c track h) right)
            tt,
        dispatch-IsRising best_peers s.current_pos available 0 (candidates s) [] t (start-Ordered s)
            (All-imp _ _ (candidates s) (λ c h. h.0.ahead) right) tt tt,
      )

  -- Every chunk of the critical zone, the next five of the window, that some peer holds and that is
  -- neither completed nor in flight is requested, whatever the concurrency limit and however many
  -- of its peers failed it. `BestPeers` chooses some peer of those that it is given.
  pub next_requests-critical :
      (s : Scheduler P) (j : ℕ)
      → Ranks dec best_peers
      → IsOpen s j
      → s.current_pos ≤ j
      → j < s.current_pos + zone_critical_end
      → j < window_end s
      → contains ℕ_discrete j (requested (next_requests dec sorter best_peers s).1) ≡ true
  unfolding next_requests
  next_requests-critical s j ranks v low near high =
      let n = window_end s - s.current_pos in
      rw (sort-candidates s) (
        dispatch-critical best_peers s.current_pos (s.max_inflight - length s.inflight) 0 j
          (candidates s) [] (collect dec n s.current_pos s).0 (start-Ordered s)
          (All-imp _ _ (candidates s) (λ c h. (h.0.ahead, has_best dec best_peers ranks s c h.0))
            (start-Collected s).right)
          (collect_complete dec n s.current_pos j s v low (omega arith)) near)

  -- `NextRequests` changes nothing but the chunks in flight and the failures.
  pub next_requests-same :
      (s : Scheduler P)
      → (next_requests dec sorter best_peers s).0 ≡ record s {
        inflight = (next_requests dec sorter best_peers s).0.inflight;
        failed = (next_requests dec sorter best_peers s).0.failed;
      }
  unfolding next_requests
  next_requests-same s =
      let n = window_end s - s.current_pos in
      let available = s.max_inflight - length s.inflight in
      let cs = sorter.sort more_urgent (candidates s) in
      let t = (collect dec n s.current_pos s).0 in
      let r = (dispatch best_peers available cs [] t).0 in
      let same = dispatch-same best_peers available cs [] t in
      same
      ∙ ap {A = Scheduler P} (λ q. record q { inflight = r.inflight })
          (collect-same dec n s.current_pos s)
      ∙ ap {B = Scheduler P} (λ f. record s { inflight = r.inflight; failed = f })
          (sym (ap (λ q. q.failed) same))
