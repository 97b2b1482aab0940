-- ===== src/ConnPool.antt =====
-- internal/connpool/pool.go: the pool of open streams to each peer. Every critical section is one
-- atomic step; the time is an argument, in nanoseconds. A slice of idle streams is the list from its
-- last element, which is the one taken first. `NewStream` of the host is an argument.
pub mod Streams
pub mod Reuse
mod Tests
use music_p2p.Prelude.{
  ℕ, suc, ◌+◌, ◌-◌, ◌*◌, ◌^◌, Bool, true, false, ◌||◌, List, [], ◌∷◌, ◌++◌, map, Option, none, some,
  length, ltb, leb, if◌then◌else◌,
}
use music_p2p.Prelude.Assoc.{lookup, insert}

-- `30 * time.Second`
abbrev pub max_idle_timeout : ℕ
max_idle_timeout = 30 * 10 ^ 9

abbrev pub max_streams_per_peer : ℕ
max_streams_per_peer = 8

pub record IdleStream (S : Type 0) : Type 0 where
  pub stream : S
  pub idle_since : ℕ

pub record PeerPool (S : Type 0) : Type 0 where
  pub idle : List (IdleStream S)
  pub active : ℕ

-- The streams that the pool has closed are a field of their own.
pub record Pool (P S : Type 0) : Type 0 where
  pub peers : List (P × PeerPool S)
  pub closed : List S
  pub done : Bool

module _ {S : Type 0} where
  unfoldable pub fresh : ℕ → IdleStream S → Bool
  fresh now i = ltb (now - i.idle_since) max_idle_timeout

  -- The loop of `Acquire`: the streams that it closes, the one that it finds, and what is left.
  unfoldable pub take_idle : ℕ → List (IdleStream S) → List S × (Option S × List (IdleStream S))
  take_idle now [] = ([], (none, []))
  take_idle now (i ∷ rest) =
      let more = take_idle now rest in
      if fresh now i then ([], (some i.stream, rest)) else (i.stream ∷ more.0, more.1)

  -- The loop of `reapLoop` over the streams of one peer: what it closes, and what it keeps.
  unfoldable pub reap_idle : ℕ → List (IdleStream S) → List S × List (IdleStream S)
  reap_idle now [] = ([], [])
  reap_idle now (i ∷ rest) =
      let more = reap_idle now rest in
      if fresh now i then (more.0, i ∷ more.1) else (i.stream ∷ more.0, more.1)

module _ {P S : Type 0} where
  unfoldable pub new : Pool P S
  new = record { peers = []; closed = []; done = false }

  unfoldable pub close : Pool P S → Pool P S
  close pool = record pool { done = true }

  -- One tick of `reapLoop`, over all peers.
  unfoldable pub reap_all : ℕ → List (P × PeerPool S) → List S × List (P × PeerPool S)
  reap_all now [] = ([], [])
  reap_all now ((p, pp) ∷ rest) =
      let here = reap_idle now pp.idle in
      let more = reap_all now rest in (here.0 ++ more.0, (p, record pp { idle = here.1 }) ∷ more.1)

  unfoldable pub reap : ℕ → Pool P S → Pool P S
  reap now pool =
      if pool.done
      then pool
      else let r = reap_all now pool.peers in
        record pool { peers = r.1; closed = r.0 ++ pool.closed }

module _ {P S : Type 0} (dec : Discrete P) where
  unfoldable pub get_or_create : P → Pool P S → PeerPool S
  get_or_create p pool = elim (lookup dec p pool.peers) [
    | none ↦ record { idle = []; active = 0 }
    | some pp ↦ pp
  ]

  -- The end of `Acquire`, from the result of its loop; `opened` is that of `NewStream`.
  unfoldable pub settle :
      Option S
      → P
      → PeerPool S
      → List S × (Option S × List (IdleStream S))
      → Pool P S
      → Pool P S × Option S
  settle opened p pp (shut, (some s, rest)) pool = (
    record pool {
      peers = insert dec p (record { idle = rest; active = pp.active + 1 }) pool.peers;
      closed = shut ++ pool.closed;
    },
    some s,
  )
  settle none p pp (shut, (none, rest)) pool = (
    record pool {
      peers = insert dec p (record pp { idle = rest }) pool.peers;
      closed = shut ++ pool.closed;
    },
    none,
  )
  settle (some s) p pp (shut, (none, rest)) pool = (
    record pool {
      peers = insert dec p (record { idle = rest; active = pp.active + 1 }) pool.peers;
      closed = shut ++ pool.closed;
    },
    some s,
  )

  -- As one step: the source gives up its lock around `NewStream`, whose result is `opened`, and takes it
  -- again to count the stream.
  unfoldable pub acquire : Option S → ℕ → P → Pool P S → Pool P S × Option S
  acquire opened now p pool =
      let pp = get_or_create p pool in settle opened p pp (take_idle now pp.idle) pool

  unfoldable pub release : ℕ → P → S → Bool → Pool P S → Pool P S
  release now p s had_error pool =
      let pp = get_or_create p pool in
      if had_error || leb max_streams_per_peer (length pp.idle)
      then record pool {
        peers = insert dec p (record pp { active = pp.active - 1 }) pool.peers;
        closed = s ∷ pool.closed;
      }
      else record pool {
        peers =
            insert dec p
              (record {
                idle = record { stream = s; idle_since = now } ∷ pp.idle;
                active = pp.active - 1;
              })
              pool.peers;
      }

  unfoldable pub active_count : P → Pool P S → ℕ
  active_count p pool = elim (lookup dec p pool.peers) [ none ↦ 0 | some pp ↦ pp.active ]

  -- The loop of `LeastLoadedPeer`, with `best` so far and its count.
  unfoldable pub least_from : Pool P S → P → ℕ → List P → P
  least_from pool best count [] = best
  least_from pool best count (p ∷ ps) =
      let c = active_count p pool in
      let lower = least_from pool p c ps in
      let same = least_from pool best count ps in if ltb c count then lower else same

  -- For no candidates the code returns the empty id; here it is `none`.
  unfoldable pub least_loaded_peer : Pool P S → List P → Option P
  least_loaded_peer pool [] = none
  least_loaded_peer pool (p ∷ ps) = some (least_from pool p (active_count p pool) ps)
