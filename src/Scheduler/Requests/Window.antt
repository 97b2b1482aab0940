-- ===== src/Scheduler/Requests/Window.antt =====
-- internal/scheduler/scheduler.go: the candidates that the loop over the window collects.
use music_p2p.Prelude.{
  ℕ, suc, ◌+◌, ◌≤◌, ◌<◌, ◌≡◌, refl, sym, ◌⊎◌, inl, inr, true, false, List, [], ◌∷◌, Option, none,
  some, arith, length, All, Bool-cases, List-cases, subst, ℕ_discrete,
}
use music_p2p.Prelude.Assoc.{contains, All-contains_self}
use music_p2p.Prelude.Sorting.{StrictWeak}
use music_p2p.Scheduler.Congestion.{Scheduler, update}
use music_p2p.Scheduler.Requests.{
  Candidate, chunk_priority, not_failed, candidate, visit, more_urgent,
}

pub more_urgent-StrictWeak {ℓ} : {P : Type ℓ} → StrictWeak (more_urgent {P = P})
unfolding more_urgent
more_urgent-StrictWeak = record {
  irreflexive = λ a. ground arith;
  transitive = λ a b c p q. ground arith;
  cotransitive = λ a b c p. ground arith;
}

module _ {ℓ} {P : Type ℓ} (dec : Discrete P) where
  All-not_failed {κ} : (Q : P → Type κ) (bad xs : List P) → All Q xs → All Q (not_failed dec bad xs)
  unfolding not_failed
  All-not_failed Q bad [] h = tt
  All-not_failed Q bad (x ∷ xs) h = elim (Bool-cases (contains dec x bad)) [
    | inl e ↦ rw e (All-not_failed Q bad xs h.1)
    | inr e ↦ rw e (h.0, All-not_failed Q bad xs h.1)
  ]

  not_failed-All : (bad xs : List P) → All (λ p. contains dec p bad ≡ false) (not_failed dec bad xs)
  unfolding not_failed
  not_failed-All bad [] = tt
  not_failed-All bad (x ∷ xs) = elim (Bool-cases (contains dec x bad)) [
    | inl e ↦ rw e (not_failed-All bad xs)
    | inr e ↦ rw e (e, not_failed-All bad xs)
  ]

  not_failed-nil :
      (bad xs : List P) → not_failed dec bad xs ≡ [] → All (λ p. contains dec p bad ≡ true) xs
  unfolding not_failed
  not_failed-nil bad [] e = tt
  not_failed-nil bad (x ∷ xs) e = elim (Bool-cases (contains dec x bad)) [
    | inl t ↦ (t, not_failed-nil bad xs (rw t at e))
    | inr f ↦ cc (rw f at e)
  ]

-- What holds of the candidate `c` for the scheduler `s`: its chunk is neither completed nor in
-- flight, it is ahead of the position, its priority is that of its distance, its peers hold the
-- chunk, there is at least one, and none of them failed the chunk unless all that hold it did.
pub record IsCandidate {ℓ} {P : Type ℓ} (dec : Discrete P) (s : Scheduler P) (c : Candidate P)
    : Type ℓ where
  pub open_chunk : contains ℕ_discrete c.index s.completed ≡ false
  pub not_flying : contains ℕ_discrete c.index s.inflight ≡ false
  pub ahead : c.index ≡ s.current_pos + c.distance
  pub urgency : c.priority ≡ chunk_priority c.distance
  pub holders : All (λ p. contains dec p (s.chunk_peers c.index) ≡ true) c.peers
  pub some_holder : 0 < length c.peers
  pub fresh :
      All (λ p. contains dec p (s.failed c.index) ≡ false) c.peers
      ⊎ All (λ p. contains dec p (s.failed c.index) ≡ true) (s.chunk_peers c.index)

-- The loop changes nothing but the failures, and those only of the indices before `i`.
pub record Agrees {ℓ} {P : Type ℓ} (i : ℕ) (s t : Scheduler P) : Type ℓ where
  pub same : t ≡ record s { failed = t.failed }
  pub later : (j : ℕ) → i ≤ j → t.failed j ≡ s.failed j

module _ {ℓ} {P : Type ℓ} (dec : Discrete P) where
  candidate_lem :
      (idx : ℕ) (peers viable : List P) (s : Scheduler P)
      → Agrees (suc idx) s (candidate dec idx peers viable s).0
  unfolding candidate update
  candidate_lem idx peers [] s = record { same = refl; later = λ j h. ground arith }
  candidate_lem idx peers (p ∷ ps) s = record { same = refl; later = λ j h. refl }

  pub visit_cases {κ} :
      (Q : Scheduler P × Option (Candidate P) → Type κ) (idx : ℕ) (s : Scheduler P)
      → Q (s, none)
      → ((p : P) (ps : List P)
          → contains ℕ_discrete idx s.completed ≡ false
          → contains ℕ_discrete idx s.inflight ≡ false
          → s.chunk_peers idx ≡ p ∷ ps
          → Q (candidate dec idx (p ∷ ps) (not_failed dec (s.failed idx) (p ∷ ps)) s))
      → Q (visit dec idx s)
  unfolding visit
  visit_cases Q idx s skip found = elim (Bool-cases (contains ℕ_discrete idx s.completed)) [
    | inl e ↦ rw (e, visit) skip
    | inr e ↦ elim (Bool-cases (contains ℕ_discrete idx s.inflight)) [
      | inl f ↦ rw (e, f, visit) skip
      | inr f ↦ elim (List-cases (s.chunk_peers idx)) [
        | inl g ↦ rw (e, f, g, visit) skip
        | inr (p, ps, g) ↦ rw (e, f, g, visit) (found p ps e f g)
      ]
    ]
  ]

  pub visit-Agrees : (idx : ℕ) (s : Scheduler P) → Agrees (suc idx) s (visit dec idx s).0
  visit-Agrees idx s =
      visit_cases (λ r. Agrees (suc idx) s r.0) idx s (record { same = refl; later = λ j h. refl })
        (λ p ps e f g. candidate_lem idx (p ∷ ps) (not_failed dec (s.failed idx) (p ∷ ps)) s)

  -- A candidate of an index, from what its peers are known to be.
  abbrev pub Finds : ℕ → Scheduler P → Option (Candidate P) → Type ℓ
  Finds idx s none = Unit
  Finds idx s (some c) = IsCandidate dec s c × (c.index ≡ idx)

  candidate-Finds :
      (idx : ℕ) (s : Scheduler P) (p : P) (ps viable : List P)
      → not_failed dec (s.failed idx) (p ∷ ps) ≡ viable
      → s.current_pos ≤ idx
      → contains ℕ_discrete idx s.completed ≡ false
      → contains ℕ_discrete idx s.inflight ≡ false
      → s.chunk_peers idx ≡ p ∷ ps
      → Finds idx s (candidate dec idx (p ∷ ps) viable s).1
  unfolding candidate
  candidate-Finds idx s p ps [] v h e f g = (
    record {
      open_chunk = e;
      not_flying = f;
      ahead = omega arith;
      urgency = refl;
      holders =
          subst (λ xs. All (λ q. contains dec q xs ≡ true) (p ∷ ps)) (sym g)
            (All-contains_self dec (p ∷ ps));
      some_holder = omega arith;
      fresh = inr (rw g (not_failed-nil dec (s.failed idx) (p ∷ ps) v));
    },
    refl,
  )
  candidate-Finds idx s p ps (q ∷ qs) v h e f g = (
    record {
      open_chunk = e;
      not_flying = f;
      ahead = omega arith;
      urgency = refl;
      holders =
          subst (λ xs. All (λ q'. contains dec q' xs ≡ true) (q ∷ qs)) (sym g)
            (rw v at (
              All-not_failed dec (λ p'. contains dec p' (p ∷ ps) ≡ true) (s.failed idx) (p ∷ ps)
                (All-contains_self dec (p ∷ ps))));
      some_holder = omega arith;
      fresh = inl (rw v at (not_failed-All dec (s.failed idx) (p ∷ ps)));
    },
    refl,
  )

  pub visit-Finds :
      (idx : ℕ) (s : Scheduler P) → s.current_pos ≤ idx → Finds idx s (visit dec idx s).1
  visit-Finds idx s h =
      visit_cases (λ r. Finds idx s r.1) idx s tt
        (λ p ps e f g. candidate-Finds idx s p ps _ refl h e f g)
