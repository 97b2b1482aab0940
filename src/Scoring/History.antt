-- ===== src/Scoring/History.antt =====
-- internal/scoring/scoring.go: the score of a peer by the outcomes that were recorded of it, and
-- `BestPeers` by these.
use mathlib.Core.List.{Perm}
use music_p2p.Prelude.{
  ℕ, ◌+◌, ◌≡◌, refl, ◌∙◌, subst, Bool, true, false, List, [], ◌∷◌, ◌++◌, none, some, arith, length,
  Bool-cases, inl, inr, All, ite, ltb, min, if◌then◌else◌,
}
use music_p2p.Prelude.Assoc.{lookup, insert, lookup-insert}
use music_p2p.Prelude.Sorting.{SliceSort, StrictWeak, IsSorted}
use music_p2p.Scoring.{
  Floats, PeerStats, Stats, no_stats, get_or_create, record_success, record_failure, score,
  success_rate, latency_score, throughput_score, best_peers,
}
use music_p2p.Scoring.Counts.{
  Outcome, success, failure, record_outcome, record_all, successes_of, failures_of, bytes_of,
  get_or_create-insert,
}
use music_p2p.Scoring.Best.{best_peers-best}

module _ (fl : Floats) {P : Type 0} (dec : Discrete P) where
  open fl use {Float, of_int, decimal, add, mul, div, minimum, less}

  -- The milliseconds of the successes of a peer, added up in their order; the last outcome comes first.
  abbrev pub time_of : P → List (P × Outcome) → Float
  time_of p [] = of_int 0
  time_of p ((q, success ms bytes) ∷ es) =
      ite (dec q p) (add (time_of p es) (of_int ms)) (time_of p es)
  time_of p ((q, failure) ∷ es) = time_of p es

  abbrev pub is_known : P → List (P × Outcome) → Bool
  is_known p [] = false
  is_known p ((q, o) ∷ es) = ite (dec q p) true (is_known p es)

  -- The formula of `Score` on the outcomes of a peer: 0.4 parts of its successes among all, 0.3 of its
  -- bytes for each second in megabytes, at most 1, and 0.3 of 1 / (1 + mean milliseconds / 100); a term
  -- with nothing to divide by is 0, and an unknown peer has 0.5.
  abbrev pub rated : List (P × Outcome) → P → Float
  rated es p =
      let wins = successes_of fl dec p es in
      let tries = wins + failures_of fl dec p es in
      let time = time_of p es in
      let rate = if ltb 0 tries then div (of_int wins) (of_int tries) else of_int 0 in
      let speed =
        if less (of_int 0) time
        then minimum (decimal 1 0) (
            div (div (of_int (bytes_of fl dec p es)) (div time (decimal 1000 0)))
              (decimal 1000000 0))
        else of_int 0 in
      let promptness =
        if ltb 0 wins
        then div (decimal 1 0) (add (decimal 1 0) (div (div time (of_int wins)) (decimal 100 0)))
        else of_int 0 in
      if is_known p es
      then add (add (mul rate (decimal 4 1)) (mul speed (decimal 3 1)))
          (mul promptness (decimal 3 1))
      else decimal 5 1

  abbrev summary : P → List (P × Outcome) → PeerStats fl
  summary p es = record {
    successes = successes_of fl dec p es;
    failures = failures_of fl dec p es;
    total_bytes = bytes_of fl dec p es;
    total_time_ms = time_of p es;
  }

  -- The entry of a peer after one more outcome.
  get_or_create-record_all :
      (p : P) (es : List (P × Outcome))
      → get_or_create fl dec p (record_all fl dec es) ≡ summary p es
  unfolding record_all record_outcome record_success record_failure no_stats get_or_create lookup
  get_or_create-record_all p [] = refl
  get_or_create-record_all p ((q, success ms bytes) ∷ es) =
      get_or_create-insert fl dec q p _ (record_all fl dec es) ∙ (elim (dec q p) [
        | yes e ↦ ground (arith, e, get_or_create-record_all q es)
        | no e ↦ ground (arith, e, get_or_create-record_all p es)
      ])
  get_or_create-record_all p ((q, failure) ∷ es) =
      get_or_create-insert fl dec q p _ (record_all fl dec es) ∙ (elim (dec q p) [
        | yes e ↦ ground (arith, e, get_or_create-record_all q es)
        | no e ↦ ground (arith, e, get_or_create-record_all p es)
      ])

  -- A lookup after an insertion, with the entry as `getOrCreate` gives it.
  lookup-record_insert :
      (q p : P) (v : PeerStats fl) (stats : Stats fl dec) (known : Bool)
      → lookup dec p stats ≡ (if known then some (get_or_create fl dec p stats) else none)
      → lookup dec p (insert dec q v stats) ≡ (
          if ite (dec q p) true known
          then some (get_or_create fl dec p (insert dec q v stats))
          else none)
  lookup-record_insert q p v stats known h =
      ground (arith, lookup-insert dec q p v stats, get_or_create-insert fl dec q p v stats, h)

  lookup-record_all :
      (p : P) (es : List (P × Outcome))
      → lookup dec p (record_all fl dec es)
        ≡ (if is_known p es then some (get_or_create fl dec p (record_all fl dec es)) else none)
  unfolding record_all record_outcome record_success record_failure lookup
  lookup-record_all p [] = refl
  lookup-record_all p ((q, success ms bytes) ∷ es) =
      lookup-record_insert q p _ (record_all fl dec es) (is_known p es) (lookup-record_all p es)
  lookup-record_all p ((q, failure) ∷ es) =
      lookup-record_insert q p _ (record_all fl dec es) (is_known p es) (lookup-record_all p es)

  score-rated :
      (p : P) (es : List (P × Outcome)) → score fl dec (record_all fl dec es) p ≡ rated es p
  unfolding score success_rate latency_score throughput_score
  score-rated p es =
      let found = lookup-record_all p es in
      elim (Bool-cases (is_known p es)) [
        | inl e ↦ rw (found, e, get_or_create-record_all p es, score)
        | inr e ↦ rw (found, e, score)
      ]

  abbrev pub ahead : (P → Float) → P → P → Bool
  ahead r a b = less (r b) (r a)

  -- What `BestPeers` is to return if `r` rates the peers.
  abbrev pub IsBest : (P → Float) → ℕ → List P → List P → Type 0
  IsBest r n cs best =
      (rest : List P) × Perm (best ++ rest) cs
      × All (λ a. All (λ b. less (r a) (r b) ≡ false) rest) best
      × IsSorted (ahead r) best
      × (length best ≡ min n (length cs))

  -- After any recorded outcomes, `BestPeers` splits the candidates in `n` that it returns, or all if there
  -- are fewer, and the rest. By the formula of `Score` on the outcomes of each peer, no peer of the rest
  -- is rated higher than one that it returns, and these stand in descending order. The ratings are
  -- compared by a strict weak order, as float64 is where none is NaN.
  pub best_peers-rated :
      (sorter : SliceSort P) (es : List (P × Outcome)) (n : ℕ) (cs : List P)
      → StrictWeak (ahead (rated es))
      → IsBest (rated es) n cs (best_peers fl dec sorter (record_all fl dec es) n cs)
  best_peers-rated sorter es n cs =
      let same : score fl dec (record_all fl dec es) ≡ rated es = λ i p. score-rated p es i in
      subst
        (λ r.
          StrictWeak (ahead r)
          → IsBest r n cs (best_peers fl dec sorter (record_all fl dec es) n cs))
        same (best_peers-best fl dec sorter (record_all fl dec es) n cs)
