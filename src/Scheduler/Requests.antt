-- ===== src/Scheduler/Requests.antt =====
-- internal/scheduler/scheduler.go: `NextRequests`. `sort.Slice` and `BestPeers` of
-- internal/scoring/scoring.go are interfaces.
pub mod Window
pub mod Candidates
pub mod Limit
pub mod Dispatch
pub mod Critical
pub mod Next
use music_p2p.Prelude.{
  ℕ, zero, suc, ◌+◌, ◌-◌, Bool, true, false, not, ◌&&◌, String, List, [], ◌∷◌, ◌++◌, Option, none,
  some, length, ltb, leb, ◌==◌, if◌then◌else◌, ℕ_discrete,
}
use music_p2p.Prelude.Assoc.{contains, add}
use music_p2p.Prelude.Sorting.{SliceSort}
use music_p2p.Ranking.{BestPeers}
use music_p2p.Scheduler.Congestion.{Scheduler, update}

abbrev pub lookahead : ℕ
lookahead = 50

abbrev pub zone_critical_end : ℕ
zone_critical_end = 5

abbrev pub zone_high_end : ℕ
zone_high_end = 20

abbrev pub priority_critical : ℕ
priority_critical = 0

abbrev pub priority_high : ℕ
priority_high = 1

abbrev pub priority_prefetch : ℕ
priority_prefetch = 2

pub record ChunkRequest {ℓ} (P : Type ℓ) : Type ℓ where
  pub cid : String
  pub index : ℕ
  pub peer : P
  pub priority : ℕ

pub record Candidate {ℓ} (P : Type ℓ) : Type ℓ where
  pub index : ℕ
  pub peers : List P
  pub distance : ℕ
  pub priority : ℕ

unfoldable pub chunk_priority : ℕ → ℕ
chunk_priority d =
    if ltb d zone_critical_end
    then priority_critical
    else if ltb d zone_high_end
    then priority_high
    else priority_prefetch

abbrev pub push {ℓ} : {P : Type ℓ} → Option (Candidate P) → List (Candidate P) → List (Candidate P)
push none cs = cs
push (some c) cs = c ∷ cs

module _ {ℓ} {P : Type ℓ} (dec : Discrete P) where
  -- The peers that have not failed the chunk.
  unfoldable pub not_failed : List P → List P → List P
  not_failed failed [] = []
  not_failed failed (p ∷ ps) =
      if contains dec p failed then not_failed failed ps else p ∷ not_failed failed ps

  -- The candidate for one index, from its viable peers. With none left the failures of the chunk
  -- are forgotten, and all its peers are tried again.
  unfoldable pub candidate : ℕ → List P → List P → Scheduler P → Scheduler P × Option (Candidate P)
  unfolding chunk_priority update
  candidate idx peers viable s =
      let dist = idx - s.current_pos in
      elim viable [
        | [] ↦ (
          record s { failed = update s.failed idx [] },
          some (record {
            index = idx;
            peers = peers;
            distance = dist;
            priority = chunk_priority dist;
          }),
        )
        | p ∷ ps ↦ (
          s,
          some (record {
            index = idx;
            peers = p ∷ ps;
            distance = dist;
            priority = chunk_priority dist;
          }),
        )
      ]

  -- The body of the loop over the window.
  unfoldable pub visit : ℕ → Scheduler P → Scheduler P × Option (Candidate P)
  unfolding candidate not_failed
  visit idx s =
      if contains ℕ_discrete idx s.completed
      then (s, none)
      else if contains ℕ_discrete idx s.inflight
      then (s, none)
      else elim (s.chunk_peers idx) [
        | [] ↦ (s, none)
        | p ∷ ps ↦ candidate idx (p ∷ ps) (not_failed (s.failed idx) (p ∷ ps)) s
      ]

  -- `for idx := s.currentPos; idx < end; idx++`, with the rounds that are left.
  unfoldable pub collect : ℕ → ℕ → Scheduler P → Scheduler P × List (Candidate P)
  collect zero idx s = (s, [])
  collect (suc n) idx s =
      let here = visit idx s in
      let later = collect n (suc idx) here.0 in (later.0, push here.1 later.1)

unfoldable pub window_end {ℓ} : {P : Type ℓ} → Scheduler P → ℕ
window_end s =
    let end = s.current_pos + lookahead in
    if ltb 0 s.total_chunks && ltb s.total_chunks end then s.total_chunks else end

-- The order of the candidates: priority, then distance, then rarity.
unfoldable pub more_urgent {ℓ} : {P : Type ℓ} → Candidate P → Candidate P → Bool
more_urgent ci cj =
    if not (ci.priority == cj.priority)
    then ltb ci.priority cj.priority
    else if not (ci.distance == cj.distance)
    then ltb ci.distance cj.distance
    else ltb (length ci.peers) (length cj.peers)

module _ {ℓ} {P : Type ℓ} (best_peers : BestPeers P) where
  -- The loop over the sorted candidates. Critical chunks pass the limit `available`.
  unfoldable pub dispatch :
      ℕ
      → List (Candidate P)
      → List (ChunkRequest P)
      → Scheduler P
      → Scheduler P × List (ChunkRequest P)
  dispatch available [] requests s = (s, requests)
  dispatch available (c ∷ cs) requests s =
      elim (not (c.priority == priority_critical) && leb available (length requests)) [
        | true ↦ (s, requests)
        | false ↦ elim (best_peers 1 c.peers) [
          | [] ↦ dispatch available cs requests s
          | best ∷ _ ↦
              dispatch available cs
                (requests
                  ++ record { cid = s.cid; index = c.index; peer = best; priority = c.priority }
                    ∷ [])
                (record s { inflight = add ℕ_discrete c.index s.inflight })
        ]
      ]

module _ {ℓ} {P : Type ℓ} (dec : Discrete P) (sorter : SliceSort (Candidate P))
    (best_peers : BestPeers P) where
  -- On ℕ the subtraction stops at 0, as `available` does.
  unfoldable pub next_requests : Scheduler P → Scheduler P × List (ChunkRequest P)
  next_requests s =
      let available = s.max_inflight - length s.inflight in
      let collected = collect dec (window_end s - s.current_pos) s.current_pos s in
      dispatch best_peers available (sorter.sort more_urgent collected.1) [] collected.0
