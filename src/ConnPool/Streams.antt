-- ===== src/ConnPool/Streams.antt =====
-- internal/connpool/pool.go: which streams are handed out, kept and closed.
use music_p2p.Prelude.{
  ℕ, ◌≤◌, ◌≡◌, inl, inr, Bool, ◌||◌, List, [], ◌∷◌, Option, none, some, length, leb, arith, All,
  Bool-cases, Option-cases, if_pos, if_neg,
}
use music_p2p.Prelude.Assoc.{lookup, insert}
use music_p2p.ConnPool.{
  IdleStream, PeerPool, Pool, new, close, take_idle, reap_idle, reap_all, reap, get_or_create,
  settle, acquire, release, max_streams_per_peer,
}

module _ {S : Type 0} where
  take_idle-length :
      (now : ℕ) (is : List (IdleStream S)) → length (take_idle now is).1.1 ≤ length is
  unfolding take_idle
  take_idle-length now [] = omega arith
  take_idle-length now (i ∷ is) = ground (arith, take_idle-length now is)

  reap_idle-length : (now : ℕ) (is : List (IdleStream S)) → length (reap_idle now is).1 ≤ length is
  unfolding reap_idle
  reap_idle-length now [] = omega arith
  reap_idle-length now (i ∷ is) = ground (arith, reap_idle-length now is)

module _ {P S : Type 0} where
  abbrev pub IsBounded : List (P × PeerPool S) → Type 0
  IsBounded = All (λ e. length e.1.idle ≤ max_streams_per_peer)

  reap_all-IsBounded :
      (now : ℕ) (m : List (P × PeerPool S)) → IsBounded m → IsBounded (reap_all now m).1
  unfolding reap_all
  reap_all-IsBounded now [] b = tt
  reap_all-IsBounded now ((p, pp) ∷ m) b =
      (omega (arith, b.0, reap_idle-length now pp.idle), reap_all-IsBounded now m b.1)

module _ {P S : Type 0} (dec : Discrete P) where
  insert-IsBounded :
      (p : P) (pp : PeerPool S) (m : List (P × PeerPool S))
      → length pp.idle ≤ max_streams_per_peer
      → IsBounded m
      → IsBounded (insert dec p pp m)
  unfolding insert
  insert-IsBounded p pp [] h b = (h, tt)
  insert-IsBounded p pp ((j, w) ∷ m) h b = elim (dec j p) [
    | yes e ↦ rw (if_pos _ e) (h, b.1)
    | no e ↦ rw (if_neg _ e) (b.0, insert-IsBounded p pp m h b.1)
  ]

  lookup-IsBounded :
      (p : P) {pp : PeerPool S} (m : List (P × PeerPool S))
      → IsBounded m
      → lookup dec p m ≡ some pp
      → length pp.idle ≤ max_streams_per_peer
  unfolding lookup
  lookup-IsBounded p {pp} [] b e = cc
  lookup-IsBounded p {pp} ((j, w) ∷ m) b e = elim (dec j p) [
    | yes f ↦ ground (arith, b.0, e)
    | no f ↦ lookup-IsBounded p {pp = pp} m b.1 (ground (arith, e))
  ]

  get_or_create-IsBounded :
      (p : P) (pool : Pool P S)
      → IsBounded pool.peers
      → length (get_or_create dec p pool).idle ≤ max_streams_per_peer
  unfolding get_or_create
  get_or_create-IsBounded p pool b = elim (Option-cases (lookup dec p pool.peers)) [
    | inl e ↦ rw (get_or_create, e) (omega arith)
    | inr (pp, e) ↦ rw (get_or_create, e) (lookup-IsBounded p pool.peers b e)
  ]

  settle-IsBounded :
      (opened : Option S) (p : P) (pp : PeerPool S)
      (found : List S × (Option S × List (IdleStream S))) (pool : Pool P S)
      → length found.1.1 ≤ max_streams_per_peer
      → IsBounded pool.peers
      → IsBounded (settle dec opened p pp found pool).0.peers
  unfolding settle
  settle-IsBounded opened p pp (shut, (some s, rest)) pool h b = insert-IsBounded p _ pool.peers h b
  settle-IsBounded none p pp (shut, (none, rest)) pool h b = insert-IsBounded p _ pool.peers h b
  settle-IsBounded (some s) p pp (shut, (none, rest)) pool h b = insert-IsBounded p _ pool.peers h b

  acquire-IsBounded :
      (opened : Option S) (now : ℕ) (p : P) (pool : Pool P S)
      → IsBounded pool.peers
      → IsBounded (acquire dec opened now p pool).0.peers
  unfolding acquire
  acquire-IsBounded opened now p pool b =
      let pp = get_or_create dec p pool in
      settle-IsBounded opened p pp (take_idle now pp.idle) pool
        (omega (arith, take_idle-length now pp.idle, get_or_create-IsBounded p pool b)) b

  release-IsBounded :
      (now : ℕ) (p : P) (s : S) (had_error : Bool) (pool : Pool P S)
      → IsBounded pool.peers
      → IsBounded (release dec now p s had_error pool).peers
  unfolding release
  release-IsBounded now p s had_error pool b =
      let pp = get_or_create dec p pool in
      let old = get_or_create-IsBounded p pool b in
      elim (Bool-cases (had_error || leb max_streams_per_peer (length pp.idle))) [
        | inl e ↦ rw (release, e) (insert-IsBounded p _ pool.peers old b)
        | inr e ↦ rw (release, e) (insert-IsBounded p _ pool.peers (ground (arith, e)) b)
      ]

  reap-IsBounded :
      (now : ℕ) (pool : Pool P S) → IsBounded pool.peers → IsBounded (reap now pool).peers
  unfolding reap
  reap-IsBounded now pool b = elim (Bool-cases pool.done) [
    | inl e ↦ rw (reap, e) b
    | inr e ↦ rw (reap, e) (reap_all-IsBounded now pool.peers b)
  ]

pub data Call (P S : Type 0) : Type 0 where
  acquires : Option S → ℕ → P → Call P S
  releases : ℕ → P → S → Bool → Call P S
  reaps : ℕ → Call P S
  closes : Call P S

module _ {P S : Type 0} (dec : Discrete P) where
  pub step : Pool P S → Call P S → Pool P S
  step pool (acquires opened now p) = (acquire dec opened now p pool).0
  step pool (releases now p s had_error) = release dec now p s had_error pool
  step pool (reaps now) = reap now pool
  step pool closes = close pool

  pub run : Pool P S → List (Call P S) → Pool P S
  run pool [] = pool
  run pool (c ∷ cs) = run (step pool c) cs

  step-IsBounded :
      (pool : Pool P S) (c : Call P S) → IsBounded pool.peers → IsBounded (step pool c).peers
  unfolding step close
  step-IsBounded pool (acquires opened now p) b = acquire-IsBounded dec opened now p pool b
  step-IsBounded pool (releases now p s e) b = release-IsBounded dec now p s e pool b
  step-IsBounded pool (reaps now) b = reap-IsBounded dec now pool b
  step-IsBounded pool closes b = b

  run_from-IsBounded :
      (pool : Pool P S) (cs : List (Call P S))
      → IsBounded pool.peers
      → IsBounded (run pool cs).peers
  unfolding run
  run_from-IsBounded pool [] b = b
  run_from-IsBounded pool (c ∷ cs) b = run_from-IsBounded (step pool c) cs (step-IsBounded pool c b)

  -- After any sequence of `Acquire`, `Release`, `Close` and ticks of the reaper on a new pool, at
  -- most eight idle streams are kept for each peer, whatever the streams and the times are.
  pub run-IsBounded : (cs : List (Call P S)) → IsBounded (run new cs).peers
  unfolding new
  run-IsBounded cs = run_from-IsBounded new cs tt
