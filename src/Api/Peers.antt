-- ===== src/Api/Peers.antt =====
-- internal/api/handlers.go: the handlers of the routes under /peers, /dht, /status and /engine.
use Prim.Native.String.{◌++◌}
use music_p2p.Prelude.{
  ℕ, ◌+◌, Bool, true, false, String, [], map, length, none, some, if◌then◌else◌,
}
use music_p2p.Bitrate.{current_bandwidth}
use music_p2p.Scoring.{Floats, score}
use music_p2p.Metadata.{is_empty}
use music_p2p.Api.Models as Models
use music_p2p.Api.Models.{
  ConnectRequest, JoinRequest, PeerInfo, StatusResponse, EngineStatus, InviteResponse, JoinResponse,
  fail,
}
use music_p2p.Api.Server.{
  Outcome, value, error, Host, invalid_invite, other, Joined, joined, refused, Backends, Server,
  Reply, looks_up, provides, connects, joins, called, write_status, write_json,
}

module _ (fl : Floats) (bk : Backends fl) where
  open fl use {Float, of_int, decimal}

  -- `uptime` is the time since the start, in seconds.
  unfoldable pub handle_get_status : Float → Server fl bk → Server fl bk × Reply fl bk
  handle_get_status uptime s = elim bk.host [
    | none ↦ (
      s,
      write_json fl bk (
          Models.ok (
            Models.status
              (record { peer_id = ""; addrs = []; peer_count = 0; uptime_secs = uptime }))),
    )
    | some host ↦ (
      s,
      write_json fl bk (
          Models.ok (
            Models.status (record {
              peer_id = bk.peer_string host.id;
              addrs = host.addrs;
              peer_count = length host.connected;
              uptime_secs = uptime;
            }))),
    )
  ]

  -- `score := 0.5`, replaced if there is a scorer.
  unfoldable pub score_of : Server fl bk → bk.PeerId → Float
  score_of s id = elim s.scorer [
    | none ↦ decimal 5 1
    | some stats ↦ score fl bk.peer_discrete stats id
  ]

  unfoldable pub handle_get_peers : Server fl bk → Server fl bk × Reply fl bk
  handle_get_peers s = elim bk.host [
    | none ↦ (s, write_json fl bk (Models.ok (Models.peers [])))
    | some host ↦ (
      s,
      write_json fl bk (
          Models.ok (
            Models.peers (
              map (λ id. record { id = bk.peer_string id; score = score_of s id })
                host.connected))),
    )
  ]

  -- From the parsed address on.
  unfoldable pub connect_to :
      String → Host bk.PeerId bk.AddrInfo → bk.AddrInfo → Server fl bk → Server fl bk × Reply fl bk
  connect_to multiaddr host info s = elim (host.connect info) [
    | some e ↦
        (called fl bk (connects multiaddr) s, write_status fl bk 500 (fail ("connect: " ++ e)))
    | none ↦ (called fl bk (connects multiaddr) s, write_json fl bk (Models.ok Models.nothing))
  ]

  unfoldable pub connect_addr :
      String → Host bk.PeerId bk.AddrInfo → Server fl bk → Server fl bk × Reply fl bk
  connect_addr multiaddr host s = elim (bk.new_multiaddr multiaddr) [
    | error e ↦ (s, write_status fl bk 400 (fail ("invalid multiaddr: " ++ e)))
    | value maddr ↦ elim (bk.addr_info maddr) [
      | error e ↦ (s, write_status fl bk 400 (fail ("parse peer addr: " ++ e)))
      | value info ↦ connect_to multiaddr host info s
    ]
  ]

  unfoldable pub handle_connect_peer :
      Outcome ConnectRequest → Server fl bk → Server fl bk × Reply fl bk
  handle_connect_peer (error e) s = (s, write_status fl bk 400 (fail ("invalid request: " ++ e)))
  handle_connect_peer (value req) s =
      if is_empty req.multiaddr
      then (s, write_status fl bk 400 (fail "multiaddr is required"))
      else elim bk.host [
        | none ↦ (s, write_status fl bk 503 (fail "host not available"))
        | some host ↦ connect_addr req.multiaddr host s
      ]

  unfoldable pub handle_get_invite : Server fl bk → Server fl bk × Reply fl bk
  handle_get_invite s = elim bk.invite [
    | none ↦ (s, write_status fl bk 503 (fail "invite not available"))
    | some i ↦ (
      s,
      write_json fl bk (
          Models.ok (
            Models.invite (record {
              invite = i.code;
              peer_id = i.peer_id;
              reachable = i.reachable;
              note = i.note;
            }))),
    )
  ]

  unfoldable pub count_join : Bool → Server fl bk → Server fl bk
  count_join success s =
      let m = s.metrics in
      if success
      then record s { metrics = record m { joins_succeeded = m.joins_succeeded + 1 } }
      else record s { metrics = record m { joins_failed = m.joins_failed + 1 } }

  -- From the result of `s.joiner` on.
  unfoldable pub reply_joined : Joined → Server fl bk → Server fl bk × Reply fl bk
  reply_joined (refused (invalid_invite e)) s =
      (count_join false s, write_status fl bk 400 (fail e))
  reply_joined (refused (other e)) s =
      (count_join false s, write_status fl bk 504 (fail ("could not connect to peer: " ++ e)))
  reply_joined (joined id) s = (
    count_join true s,
    write_json fl bk (Models.ok (Models.join (record { peer_id = id; connected = true }))),
  )

  unfoldable pub handle_join : Outcome JoinRequest → Server fl bk → Server fl bk × Reply fl bk
  handle_join (error e) s = (s, write_status fl bk 400 (fail ("invalid request: " ++ e)))
  handle_join (value req) s =
      if is_empty req.invite
      then (s, write_status fl bk 400 (fail "invite is required"))
      else elim bk.joiner [
        | none ↦ (s, write_status fl bk 503 (fail "join not available"))
        | some joiner ↦ reply_joined (joiner req.invite) (called fl bk (joins req.invite) s)
      ]

  unfoldable pub handle_get_peer_score : String → Server fl bk → Server fl bk × Reply fl bk
  handle_get_peer_score peer_id s = elim (bk.decode_peer peer_id) [
    | error e ↦ (s, write_status fl bk 400 (fail ("invalid peer ID: " ++ e)))
    | value id ↦ (
      s,
      write_json fl bk (Models.ok (Models.peer (record { id = peer_id; score = score_of s id }))),
    )
  ]

  unfoldable pub handle_dht_provide : String → Server fl bk → Server fl bk × Reply fl bk
  handle_dht_provide cid s = elim bk.dht [
    | none ↦ (s, write_status fl bk 503 (fail "DHT not available"))
    | some dht ↦ elim (dht.provide cid) [
      | some e ↦ (called fl bk (provides cid) s, write_status fl bk 500 (fail ("provide: " ++ e)))
      | none ↦ (called fl bk (provides cid) s, write_json fl bk (Models.ok Models.nothing))
    ]
  ]

  unfoldable pub handle_dht_providers : String → Server fl bk → Server fl bk × Reply fl bk
  handle_dht_providers cid s = elim bk.dht [
    | none ↦ (s, write_json fl bk (Models.ok (Models.peers [])))
    | some dht ↦ elim (dht.find_providers cid) [
      | error e ↦
          (called fl bk (looks_up cid) s, write_status fl bk 500 (fail ("find providers: " ++ e)))
      | value ids ↦ (
        called fl bk (looks_up cid) s,
        write_json fl bk (
            Models.ok
              (Models.peers (map (λ id. record { id = bk.peer_string id; score = of_int 0 }) ids))),
      )
    ]
  ]

  unfoldable pub handle_engine_status : Server fl bk → Server fl bk × Reply fl bk
  handle_engine_status s =
      let bandwidth : ℕ = elim s.engine [ none ↦ 0 | some abr ↦ current_bandwidth abr ] in
      let status : EngineStatus = record { active_streams = 0; bandwidth_bps = bandwidth } in
      (s, write_json fl bk (Models.ok (Models.engine status)))
