-- ===== src/Scheduler/Requests/Candidates.antt =====
-- internal/scheduler/scheduler.go: the list of candidates of `NextRequests`, in order.
use music_p2p.Prelude.{
  ℕ, zero, suc, ◌+◌, ◌-◌, ◌≤◌, ◌<◌, ◌≡◌, refl, ap, ◌∙◌, inl, inr, true, false, List, [], ◌∷◌,
  Option, none, some, arith, length, All, All-imp, List-cases, map, ℕ_discrete,
}
use music_p2p.Prelude.Assoc.{contains}
use music_p2p.Prelude.Sorting.{IsIncreasing}
use music_p2p.Scheduler.Congestion.{Scheduler}
use music_p2p.Scheduler.Requests.{
  Candidate, chunk_priority, candidate, visit, push, collect, more_urgent,
}
use music_p2p.Scheduler.Requests.Window.{IsCandidate, Agrees, Finds, visit-Agrees, visit-Finds}

-- The distances grow along the list, from `d` on, and the priorities are those of the distances.
abbrev pub Ordered {ℓ} : {P : Type ℓ} → ℕ → List (Candidate P) → Type 0
Ordered d [] = Unit {0}
Ordered d (c ∷ cs) =
    (d ≤ c.distance) × (c.priority ≡ chunk_priority c.distance) × Ordered (suc c.distance) cs

pub Ordered-mono {ℓ} :
    {P : Type ℓ} (d e : ℕ) (cs : List (Candidate P)) → d ≤ e → Ordered e cs → Ordered d cs
Ordered-mono d e [] h v = tt
Ordered-mono d e (c ∷ cs) h v = (omega arith, v.1, v.2)

abbrev pub indices {ℓ} : {P : Type ℓ} → List (Candidate P) → List ℕ
indices = map (λ c. c.index)

-- The chunk of index `j` can be fetched.
pub record IsOpen {ℓ} {P : Type ℓ} (s : Scheduler P) (j : ℕ) : Type ℓ where
  pub open_chunk : contains ℕ_discrete j s.completed ≡ false
  pub not_flying : contains ℕ_discrete j s.inflight ≡ false
  pub some_holder : 0 < length (s.chunk_peers j)

module _ {ℓ} {P : Type ℓ} (dec : Discrete P) where
  -- What was found for a scheduler that agrees is right for the one at the start.
  Agrees-IsCandidate :
      (i : ℕ) (s t : Scheduler P) (c : Candidate P)
      → Agrees i s t
      → i ≤ c.index
      → IsCandidate dec t c
      → IsCandidate dec s c
  Agrees-IsCandidate i s t c a h v =
      let v' : IsCandidate dec (record s { failed = t.failed }) c = rw a.same at v in
      record {
        open_chunk = v'.open_chunk;
        not_flying = v'.not_flying;
        ahead = v'.ahead;
        urgency = v'.urgency;
        holders = v'.holders;
        some_holder = v'.some_holder;
        fresh = rw (a.later c.index h) at v'.fresh;
      }

  Agrees-trans :
      (i : ℕ) (s t u : Scheduler P) → Agrees i s t → Agrees (suc i) t u → Agrees (suc i) s u
  Agrees-trans i s t u a b = record {
    same = b.same ∙ ap {A = Scheduler P} (λ r. record r { failed = u.failed }) a.same;
    later = λ j h. b.later j h ∙ a.later j (omega arith);
  }

  -- The candidates from `i` on: right for `s`, in the window and in increasing order.
  pub record Collected (i n : ℕ) (s : Scheduler P) (cs : List (Candidate P)) : Type ℓ where
    pub right : All (λ c. IsCandidate dec s c × (i ≤ c.index) × (c.index < i + n)) cs
    pub increasing : IsIncreasing more_urgent cs
    pub ordered : Ordered (i - s.current_pos) cs

  more_urgent-IsCandidate :
      (s : Scheduler P) (c d : Candidate P)
      → IsCandidate dec s c
      → IsCandidate dec s d
      → c.index < d.index
      → more_urgent c d ≡ true
  unfolding more_urgent chunk_priority
  more_urgent-IsCandidate s c d v w h = ordered v.ahead w.ahead v.urgency w.urgency
    where
      ordered :
          c.index ≡ s.current_pos + c.distance
          → d.index ≡ s.current_pos + d.distance
          → c.priority ≡ chunk_priority c.distance
          → d.priority ≡ chunk_priority d.distance
          → more_urgent c d ≡ true
      ordered e f g k = ground (arith, h)

  push-Collected :
      (i n : ℕ) (s : Scheduler P) (found : Option (Candidate P)) (cs : List (Candidate P))
      → Finds dec i s found
      → s.current_pos ≤ i
      → Collected (suc i) n s cs
      → Collected i (suc n) s (push found cs)
  push-Collected i n s none cs f le v = record {
    right = All-imp _ _ cs (λ c h. (h.0, omega arith, omega arith)) v.right;
    increasing = v.increasing;
    ordered = Ordered-mono (i - s.current_pos) (suc i - s.current_pos) cs (omega arith) v.ordered;
  }
  push-Collected i n s (some c) cs f le v = record {
    right = (
      (f.0, omega arith, omega arith),
      All-imp _ _ cs (λ d h. (h.0, omega arith, omega arith)) v.right,
    );
    increasing = (
      All-imp _ _ cs (λ d h. more_urgent-IsCandidate s c d f.0 h.0 (omega arith)) v.right,
      v.increasing,
    );
    ordered =
        let d : suc c.distance ≡ suc i - s.current_pos = omega (arith, f.0.ahead) in
        (omega (arith, f.0.ahead), f.0.urgency, rw d v.ordered);
  }

  Agrees-Finds :
      (i : ℕ) (s t : Scheduler P) (found : Option (Candidate P))
      → Agrees i s t
      → Finds dec i t found
      → Finds dec i s found
  Agrees-Finds i s t none a f = tt
  Agrees-Finds i s t (some c) a f = (Agrees-IsCandidate i s t c a (omega arith) f.0, f.1)

  pub collect-Collected :
      (n i : ℕ) (s t : Scheduler P)
      → Agrees i s t
      → s.current_pos ≤ i
      → Collected i n s (collect dec n i t).1
  unfolding collect
  collect-Collected zero i s t a h = record { right = tt; increasing = tt; ordered = tt }
  collect-Collected (suc n) i s t a h =
      let at : t.current_pos ≤ i = omega (arith, ap (λ r. r.current_pos) a.same) in
      push-Collected i n s (visit dec i t).1 _ (Agrees-Finds i s t _ a (visit-Finds dec i t at)) h (
        collect-Collected n (suc i) s (visit dec i t).0
          (Agrees-trans i s t _ a (visit-Agrees dec i t)) (omega arith))

  -- The loop over the window keeps all but the failures.
  pub collect-same :
      (n i : ℕ) (t : Scheduler P)
      → (collect dec n i t).0 ≡ record t { failed = (collect dec n i t).0.failed }
  unfolding collect
  collect-same zero i t = refl
  collect-same (suc n) i t =
      let u = (visit dec i t).0 in
      collect-same n (suc i) u
      ∙ ap {A = Scheduler P} (λ r. record r { failed = (collect dec n (suc i) u).0.failed })
          (visit-Agrees dec i t).same

  candidate-some :
      (j : ℕ) (peers viable : List P) (t : Scheduler P)
      → (c : Candidate P) × ((candidate dec j peers viable t).1 ≡ some c) × (c.index ≡ j)
  unfolding candidate
  candidate-some j peers [] t = (_, refl, refl)
  candidate-some j peers (q ∷ qs) t = (_, refl, refl)

  visit-some :
      (j : ℕ) (t : Scheduler P)
      → IsOpen t j
      → (c : Candidate P) × ((visit dec j t).1 ≡ some c) × (c.index ≡ j)
  unfolding visit
  visit-some j t v = elim (List-cases (t.chunk_peers j)) [
    | inl e ↦ absurd (omega (arith, ap length e, v.some_holder))
    | inr (p, ps, e) ↦ rw (v.open_chunk, v.not_flying, e, visit) (candidate-some j (p ∷ ps) _ t)
  ]

  contains-push :
      (j : ℕ) (found : Option (Candidate P)) (cs : List (Candidate P))
      → contains ℕ_discrete j (indices cs) ≡ true
      → contains ℕ_discrete j (indices (push found cs)) ≡ true
  unfolding contains
  contains-push j none cs h = h
  contains-push j (some c) cs h = ground arith

  contains-push_here :
      (j : ℕ) (found : Option (Candidate P)) (c : Candidate P) (cs : List (Candidate P))
      → found ≡ some c
      → c.index ≡ j
      → contains ℕ_discrete j (indices (push found cs)) ≡ true
  unfolding contains
  contains-push_here j none c cs f g = cc
  contains-push_here j (some d) c cs f g = ground arith

  Agrees-IsOpen : (i j : ℕ) (s t : Scheduler P) → Agrees i s t → IsOpen s j → IsOpen t j
  Agrees-IsOpen i j s t a v =
      rw a.same (record {
        open_chunk = v.open_chunk;
        not_flying = v.not_flying;
        some_holder = v.some_holder;
      })

  -- Every chunk of the window that can be fetched is among the candidates.
  pub collect_complete :
      (n i j : ℕ) (t : Scheduler P)
      → IsOpen t j
      → i ≤ j
      → j < i + n
      → contains ℕ_discrete j (indices (collect dec n i t).1) ≡ true
  unfolding collect
  collect_complete zero i j t v h k = absurd (omega arith)
  collect_complete (suc n) i j t v h k = elim (ℕ_discrete i j) [
    | yes e ↦
        let (c, f, g) = visit-some j t v in rw e (contains-push_here j (visit dec j t).1 c _ f g)
    | no e ↦ contains-push j (visit dec i t).1 _ (
        collect_complete n (suc i) j (visit dec i t).0
          (Agrees-IsOpen (suc i) j t _ (visit-Agrees dec i t) v) (omega arith) (omega arith))
  ]
