-- ===== src/Scoring/Counts.antt =====
-- internal/scoring/scoring.go: what the recorded statistics hold.
use music_p2p.Prelude.{ℕ, ◌+◌, ◌≡◌, ◌≢◌, refl, List, [], ◌∷◌, arith, ite}
use music_p2p.Prelude.Assoc.{lookup, insert, lookup-insert, lookup-insert_ne}
use music_p2p.Scoring.{
  Floats, PeerStats, Stats, no_stats, get_or_create, record_success, record_failure, score,
}

pub data Outcome : Type 0 where
  success : ℕ → ℕ → Outcome
  failure : Outcome

module _ (fl : Floats) {P : Type 0} (dec : Discrete P) where
  unfoldable pub record_outcome : P × Outcome → Stats fl dec → Stats fl dec
  record_outcome (p, success latency_ms bytes) stats =
      record_success fl dec p latency_ms bytes stats
  record_outcome (p, failure) stats = record_failure fl dec p stats

  -- The outcomes of a run, the last one first.
  unfoldable pub record_all : List (P × Outcome) → Stats fl dec
  record_all [] = []
  record_all (e ∷ es) = record_outcome e (record_all es)

  abbrev pub successes_of : P → List (P × Outcome) → ℕ
  successes_of p [] = 0
  successes_of p ((q, success ms bytes) ∷ es) = ite (dec q p) 1 0 + successes_of p es
  successes_of p ((q, failure) ∷ es) = successes_of p es

  abbrev pub failures_of : P → List (P × Outcome) → ℕ
  failures_of p [] = 0
  failures_of p ((q, success ms bytes) ∷ es) = failures_of p es
  failures_of p ((q, failure) ∷ es) = ite (dec q p) 1 0 + failures_of p es

  abbrev pub bytes_of : P → List (P × Outcome) → ℕ
  bytes_of p [] = 0
  bytes_of p ((q, success ms bytes) ∷ es) = ite (dec q p) bytes 0 + bytes_of p es
  bytes_of p ((q, failure) ∷ es) = bytes_of p es

  pub get_or_create-insert :
      (q p : P) (v : PeerStats fl) (stats : Stats fl dec)
      → get_or_create fl dec p (insert dec q v stats)
        ≡ ite (dec q p) v (get_or_create fl dec p stats)
  unfolding get_or_create
  get_or_create-insert q p v stats = ground (arith, lookup-insert dec q p v stats)

  get_or_create-nil : (p : P) → get_or_create fl dec p [] ≡ no_stats fl
  unfolding get_or_create lookup
  get_or_create-nil p = refl

  -- After any series of recorded outcomes the statistics of a peer hold exactly its number of
  -- successes and of failures, and the bytes of its successes.
  pub record_all-counts :
      (p : P) (es : List (P × Outcome))
      → ((get_or_create fl dec p (record_all es)).successes ≡ successes_of p es)
        × ((get_or_create fl dec p (record_all es)).failures ≡ failures_of p es)
        × ((get_or_create fl dec p (record_all es)).total_bytes ≡ bytes_of p es)
  unfolding record_all record_outcome record_success record_failure no_stats
  record_all-counts p [] = ground (arith, get_or_create-nil p)
  record_all-counts p ((q, success ms bytes) ∷ es) =
      let old = get_or_create fl dec q (record_all es) in
      ground (
        arith,
        get_or_create-insert q p
            (record old {
              successes = old.successes + 1;
              total_bytes = old.total_bytes + bytes;
              total_time_ms = fl.add old.total_time_ms (fl.of_int ms);
            })
            (record_all es),
        record_all-counts p es,
      )
  record_all-counts p ((q, failure) ∷ es) =
      let old = get_or_create fl dec q (record_all es) in
      ground (
        arith,
        get_or_create-insert q p (record old { failures = old.failures + 1 }) (record_all es),
        record_all-counts p es,
      )

  -- Recording an outcome of one peer changes the score of no other.
  pub score-record_outcome :
      (p q : P) (o : Outcome) (stats : Stats fl dec)
      → q ≢ p
      → score fl dec (record_outcome (q, o) stats) p ≡ score fl dec stats p
  unfolding record_outcome record_success record_failure score
  score-record_outcome p q (success ms bytes) stats h =
      rw (lookup-insert_ne dec q p _ stats h, score)
  score-record_outcome p q failure stats h = rw (lookup-insert_ne dec q p _ stats h, score)
