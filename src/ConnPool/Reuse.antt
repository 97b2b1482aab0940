-- ===== src/ConnPool/Reuse.antt =====
-- internal/connpool/pool.go: a returned stream is reused, and the counts of the streams in use.
use music_p2p.Prelude.{
  ℕ, ◌+◌, ◌-◌, ◌≤◌, ◌<◌, ◌≡◌, refl, sym, ap, subst, inl, inr, Bool, true, false, List, [], ◌∷◌,
  ◌++◌, Option, none, some, length, ltb, arith, All, Bool-cases,
}
use music_p2p.Prelude.Assoc.{insert, lookup-insert, lookup-insert_self, contains}
use music_p2p.ConnPool.{
  IdleStream, PeerPool, Pool, fresh, take_idle, get_or_create, settle, acquire, release,
  active_count, least_from, least_loaded_peer, max_idle_timeout, max_streams_per_peer,
}

module _ {P : Type 0} (dec : Discrete P) where
  contains-skip :
      (r best p : P) (ps : List P)
      → contains dec r (best ∷ ps) ≡ true
      → contains dec r (best ∷ p ∷ ps) ≡ true
  unfolding contains
  contains-skip r best p ps h = ground (arith, h)

  contains-further :
      (r best : P) (ps : List P) → contains dec r ps ≡ true → contains dec r (best ∷ ps) ≡ true
  unfolding contains
  contains-further r best ps h = ground (arith, h)

  contains-here : (r : P) (ps : List P) → contains dec r (r ∷ ps) ≡ true
  unfolding contains
  contains-here r ps = ground arith

module _ {P S : Type 0} (dec : Discrete P) where
  get_or_create-insert :
      (p : P) (pp : PeerPool S) (m : List (P × PeerPool S)) (closed : List S) (done : Bool)
      → get_or_create dec p (record { peers = insert dec p pp m; closed = closed; done = done })
        ≡ pp
  unfolding get_or_create
  get_or_create-insert p pp m closed done = rw (lookup-insert_self dec p pp m, get_or_create) refl

  release-keep :
      (now : ℕ) (p : P) (s : S) (pool : Pool P S)
      → length (get_or_create dec p pool).idle < max_streams_per_peer
      → let pp = get_or_create dec p pool in
        release dec now p s false pool ≡ record pool {
          peers =
              insert dec p
                (record {
                  idle = record { stream = s; idle_since = now } ∷ pp.idle;
                  active = pp.active - 1;
                })
                pool.peers;
        }
  unfolding release
  release-keep now p s pool h = ground arith

  fresh-lt :
      (now t : ℕ) (s : S)
      → now < t + max_idle_timeout
      → fresh now (record { stream = s; idle_since = t }) ≡ true
  unfolding fresh
  fresh-lt now t s h = ground arith

  acquire-fresh :
      (opened : Option S) (now : ℕ) (p : P) (s : S) (t : ℕ) (is : List (IdleStream S)) (n : ℕ)
      (pool : Pool P S)
      → get_or_create dec p pool
        ≡ record { idle = record { stream = s; idle_since = t } ∷ is; active = n }
      → now < t + max_idle_timeout
      → acquire dec opened now p pool ≡ (
        record pool { peers = insert dec p (record { idle = is; active = n + 1 }) pool.peers },
        some s,
      )
  unfolding acquire take_idle settle
  acquire-fresh opened now p s t is n pool e h =
      let f : fresh now (record { stream = s; idle_since = t }) ≡ true = fresh-lt now t s h in
      rw (acquire, e, f) refl

  -- A stream that is returned without an error, to a peer with fewer than eight idle streams, is
  -- the one that the next `Acquire` for the peer within 30 seconds gets, whatever `NewStream` would
  -- return; no stream is closed, and the idle streams of the peer are those from before.
  pub acquire-release :
      (opened : Option S) (now later : ℕ) (p : P) (s : S) (pool : Pool P S)
      → length (get_or_create dec p pool).idle < max_streams_per_peer
      → later < now + max_idle_timeout
      → ((acquire dec opened later p (release dec now p s false pool)).1 ≡ some s)
        × ((acquire dec opened later p (release dec now p s false pool)).0.closed ≡ pool.closed)
        × ((get_or_create dec p
              (acquire dec opened later p (release dec now p s false pool)).0).idle
            ≡ (get_or_create dec p pool).idle)
  acquire-release opened now later p s pool h k =
      let pp = get_or_create dec p pool in
      let keep = release-keep now p s pool h in
      let returned : PeerPool S = record {
        idle = record { stream = s; idle_since = now } ∷ pp.idle;
        active = pp.active - 1;
      } in
      let e : get_or_create dec p (release dec now p s false pool) ≡ returned =
        rw keep (get_or_create-insert p returned pool.peers pool.closed pool.done) in
      let r =
        acquire-fresh opened later p s now pp.idle (pp.active - 1) (release dec now p s false pool)
          e k in
      rw r (
        refl,
        ap (λ q. q.closed) keep,
        ap (λ q. q.idle)
            (get_or_create-insert p (record { idle = pp.idle; active = pp.active - 1 + 1 })
              (release dec now p s false pool).peers (release dec now p s false pool).closed
              (release dec now p s false pool).done),
      )

  active_count-get_or_create :
      (p : P) (pool : Pool P S) → active_count dec p pool ≡ (get_or_create dec p pool).active
  unfolding active_count get_or_create
  active_count-get_or_create p pool = ground arith

  active_count-insert :
      (p q : P) (pp : PeerPool S) (pool : Pool P S) (shut : List S)
      → active_count dec q (record pool { peers = insert dec p pp pool.peers; closed = shut })
        ≡ (elim (dec p q) [ yes _ ↦ pp.active | no _ ↦ active_count dec q pool ])
  unfolding active_count
  active_count-insert p q pp pool shut = ground (arith, lookup-insert dec p q pp pool.peers)

  -- The streams that an `Acquire` adds to the count: one if it returns a stream, none if it fails.
  abbrev pub gained : Option S → ℕ
  gained none = 0
  gained (some s) = 1

  settle-active_count :
      (opened : Option S) (p q : P) (pp : PeerPool S)
      (found : List S × (Option S × List (IdleStream S))) (pool : Pool P S)
      → pp.active ≡ active_count dec p pool
      → active_count dec q (settle dec opened p pp found pool).0 ≡ (elim (dec p q) [
        | yes _ ↦ active_count dec q pool + gained (settle dec opened p pp found pool).1
        | no _ ↦ active_count dec q pool
      ])
  unfolding settle
  settle-active_count opened p q pp (shut, (some s, rest)) pool e = ground (
    arith,
    active_count-insert p q (record { idle = rest; active = pp.active + 1 }) pool
        (shut ++ pool.closed),
  )
  settle-active_count none p q pp (shut, (none, rest)) pool e =
      ground (arith, active_count-insert p q (record pp { idle = rest }) pool (shut ++ pool.closed))
  settle-active_count (some s) p q pp (shut, (none, rest)) pool e = ground (
    arith,
    active_count-insert p q (record { idle = rest; active = pp.active + 1 }) pool
        (shut ++ pool.closed),
  )

  -- `Acquire` adds one to the number of streams in use of its peer if it returns a stream, reused
  -- or new, and leaves it if opening one fails; the numbers of the other peers stay.
  pub acquire-active_count :
      (opened : Option S) (now : ℕ) (p q : P) (pool : Pool P S)
      → active_count dec q (acquire dec opened now p pool).0 ≡ (elim (dec p q) [
        | yes _ ↦ active_count dec q pool + gained (acquire dec opened now p pool).1
        | no _ ↦ active_count dec q pool
      ])
  unfolding acquire
  acquire-active_count opened now p q pool =
      let pp = get_or_create dec p pool in
      settle-active_count opened p q pp (take_idle now pp.idle) pool
        (sym (active_count-get_or_create p pool))

  -- `r` is among `best` and `ps`, and none of them has fewer streams in use.
  abbrev IsLeast : Pool P S → P → List P → P → Type 0
  IsLeast pool best ps r =
      (contains dec r (best ∷ ps) ≡ true)
      × (active_count dec r pool ≤ active_count dec best pool)
      × All (λ p. active_count dec r pool ≤ active_count dec p pool) ps

  least_from-IsLeast :
      (pool : Pool P S) (best : P) (ps : List P)
      → IsLeast pool best ps (least_from dec pool best (active_count dec best pool) ps)
  unfolding least_from
  least_from-IsLeast pool best [] = (contains-here dec best [], omega arith, tt)
  least_from-IsLeast pool best (p ∷ ps) =
      let n = active_count dec best pool in
      let c = active_count dec p pool in
      elim (Bool-cases (ltb c n)) [
        | inl e ↦
            let same : least_from dec pool best n (p ∷ ps) ≡ least_from dec pool p c ps =
              rw e refl in
            let (m, a, b) = least_from-IsLeast pool p ps in
            subst (IsLeast pool best (p ∷ ps)) (sym same)
              (contains-further dec _ best (p ∷ ps) m, ground arith, (a, b))
        | inr e ↦
            let same : least_from dec pool best n (p ∷ ps) ≡ least_from dec pool best n ps =
              rw e refl in
            let (m, a, b) = least_from-IsLeast pool best ps in
            subst (IsLeast pool best (p ∷ ps)) (sym same)
              (contains-skip dec _ best p ps m, a, (ground arith, b))
      ]

  -- `LeastLoadedPeer` returns one of the candidates, if there are any, and no candidate has fewer
  -- streams in use.
  pub least_loaded_peer-least :
      (pool : Pool P S) (p : P) (ps : List P)
      → (best : P) × (least_loaded_peer dec pool (p ∷ ps) ≡ some best)
        × (contains dec best (p ∷ ps) ≡ true)
        × All (λ q. active_count dec best pool ≤ active_count dec q pool) (p ∷ ps)
  unfolding least_loaded_peer
  least_loaded_peer-least pool p ps =
      let (m, a, b) = least_from-IsLeast pool p ps in
      (least_from dec pool p (active_count dec p pool) ps, refl, m, (a, b))
