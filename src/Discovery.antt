-- ===== src/Discovery.antt =====
-- internal/discovery: `Bootstrap`, the notifee of mDNS and one round of the DHT discovery, by the peers
-- that they dial. The host, and the parsers of addresses, are parameters.
use music_p2p.Prelude.{
  subst, inr, inl, ℕ, suc, ◌≤◌, ◌≡◌, ◌≢◌, Bool, true, false, ◌||◌, String, List, [], ◌∷◌, ◌++◌,
  Option, none, some, if◌then◌else◌, length, All, All-append, arith, Option-cases, Bool-cases,
}
use music_p2p.Metadata.{is_empty}

pub record Host (PeerId AddrInfo : Type 0) : Type 0 where
  pub self : PeerId
  pub peer_discrete : Discrete PeerId
  pub id_of : AddrInfo → PeerId
  -- The empty id.
  pub no_id : PeerId
  -- `NewMultiaddr` and `AddrInfoFromP2pAddr`.
  pub parse : String → Option AddrInfo
  -- Whether `Connect` succeeds.
  pub connects : AddrInfo → Bool

module _ {PeerId AddrInfo : Type 0} (h : Host PeerId AddrInfo) where
  unfoldable pub is_self : AddrInfo → Bool
  is_self info = elim (h.peer_discrete (h.id_of info) h.self) [ yes _ ↦ true | no _ ↦ false ]

  -- The goroutine of one address: the peer that it dials, if it does.
  unfoldable pub dial_addr : String → Option AddrInfo
  dial_addr addr = elim (h.parse addr) [
    | none ↦ none
    | some info ↦ if is_self info then none else some info
  ]

  -- `Bootstrap`: the peers that are dialled, and the number of connections. The goroutines only share
  -- the counter, under its lock, so their order does not matter to it.
  unfoldable pub bootstrap : List String → List AddrInfo × ℕ
  bootstrap [] = ([], 0)
  bootstrap (addr ∷ addrs) =
      let (dialled, connected) = bootstrap addrs in
      if is_empty addr then (dialled, connected) else elim (dial_addr addr) [
        | none ↦ (dialled, connected)
        | some info ↦ (info ∷ dialled, if h.connects info then suc connected else connected)
      ]

  -- `HandlePeerFound`: the peer that is dialled, if one is.
  unfoldable pub handle_peer_found : AddrInfo → List AddrInfo
  handle_peer_found info = if is_self info then [] else info ∷ []

  unfoldable pub is_nobody : AddrInfo → Bool
  is_nobody info = elim (h.peer_discrete (h.id_of info) h.no_id) [ yes _ ↦ true | no _ ↦ false ]

  -- The loop over the peers that `FindPeers` gives. Whether one is connected is asked before it is
  -- dialled; a peer that was dialled in this round may be connected then, so this is asked anew.
  unfoldable pub discover :
      (List AddrInfo → PeerId → Bool) → List AddrInfo → List AddrInfo → List AddrInfo
  discover connected dialled [] = dialled
  discover connected dialled (info ∷ infos) =
      let skipped = discover connected dialled infos in
      let dials = discover connected (dialled ++ info ∷ []) infos in
      if is_self info || is_nobody info
      then skipped
      else if connected dialled (h.id_of info)
      then skipped
      else dials

  abbrev pub IsOther : AddrInfo → Type 0
  IsOther info = h.id_of info ≢ h.self

  is_self-IsOther : (info : AddrInfo) → is_self info ≡ false → IsOther info
  unfolding is_self
  is_self-IsOther info e = ground (arith, e)

  dial_addr-IsOther : (addr : String) (info : AddrInfo) → dial_addr addr ≡ some info → IsOther info
  unfolding dial_addr
  dial_addr-IsOther addr info e = elim (Option-cases (h.parse addr)) [
    | inl f ↦ absurd (ground (arith, e, f))
    | inr (found, f) ↦ elim (Bool-cases (is_self found)) [
      | inl g ↦ absurd (ground (arith, e, f, g))
      | inr g ↦
          let same : found ≡ info = ground (arith, e, f, g) in
          subst IsOther same (is_self-IsOther found g)
    ]
  ]

  -- What `Bootstrap` reports: at most as many connections as peers were dialled, and these are at most
  -- one for each address and never the node itself.
  abbrev pub IsReport : List String → List AddrInfo × ℕ → Type 0
  IsReport addrs (dialled, connected) =
      All IsOther dialled × (connected ≤ length dialled) × (length dialled ≤ length addrs)

  pub bootstrap-IsReport : (addrs : List String) → IsReport addrs (bootstrap addrs)
  unfolding bootstrap
  bootstrap-IsReport [] = (tt, omega arith, omega arith)
  bootstrap-IsReport (addr ∷ addrs) = elim (Bool-cases (is_empty addr)) [
    | inl e ↦
        let (others, some_of, fit) = bootstrap-IsReport addrs in
        rw (e, bootstrap) (others, some_of, omega (arith, fit))
    | inr e ↦ elim (Option-cases (dial_addr addr)) [
      | inl f ↦
          let (others, some_of, fit) = bootstrap-IsReport addrs in
          rw (e, f, bootstrap) (others, some_of, omega (arith, fit))
      | inr (info, f) ↦
          let (others, some_of, fit) = bootstrap-IsReport addrs in
          rw (e, f, bootstrap)
            ((dial_addr-IsOther addr info f, others), ground (arith, some_of), omega (arith, fit))
    ]
  ]

  -- A round of the DHT discovery dials only other nodes, whatever it finds.
  pub discover-IsOther :
      (connected : List AddrInfo → PeerId → Bool) (dialled infos : List AddrInfo)
      → All IsOther dialled
      → All IsOther (discover connected dialled infos)
  unfolding discover
  discover-IsOther connected dialled [] d = d
  discover-IsOther connected dialled (info ∷ infos) d =
      elim (Bool-cases (is_self info || is_nobody info)) [
        | inl e ↦ rw (e, discover) (discover-IsOther connected dialled infos d)
        | inr e ↦ elim (Bool-cases (connected dialled (h.id_of info))) [
          | inl f ↦ rw (e, f, discover) (discover-IsOther connected dialled infos d)
          | inr f ↦
              let other : IsOther info = is_self-IsOther info (ground (arith, e)) in
              rw (e, f, discover)
                (discover-IsOther connected (dialled ++ info ∷ []) infos
                  (All-append IsOther dialled (info ∷ []) d (other, tt)))
        ]
      ]
