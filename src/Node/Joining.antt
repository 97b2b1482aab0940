-- ===== src/Node/Joining.antt =====
-- cmd/node/main.go: `buildInvite` and `joinByCode`, which the API gets as `Invite` and `Joiner`.
use Prim.Native.String.{◌++◌}
use music_p2p.Prelude.{
  inl, inr, refl, ◌⊎◌, ◌∙◌, ◌≡◌, true, false, String, List, Option, none, some, arith,
  if◌then◌else◌,
}
use music_p2p.Invite as Invite
use music_p2p.Scoring.{Floats}
use music_p2p.Metadata.{is_empty}
use music_p2p.Invite.{Info, Externals, ok, err, encode, decode, is_public}
use music_p2p.Invite.RoundTrip.{IsLawful, dialable, decode-encode}
use music_p2p.Api.Models as Models
use music_p2p.Api.Server.{
  joins, value, Backends, Server, Reply, json, Invitation, invalid_invite, other, Joined, joined,
  refused, write_status, write_json, called,
}
use music_p2p.Api.Models.{JoinRequest, fail}
use music_p2p.Api.Peers.{handle_join, reply_joined}

Result-cases :
    {A : Type 0} (r : Invite.Result A) → ((a : A) × (r ≡ ok a)) ⊎ ((e : Invite.Error) × (r ≡ err e))
Result-cases (ok a) = inl (a, refl)
Result-cases (err e) = inr (e, refl)

module _ (io : Externals) where
  -- The host of a node, with the texts of ids, codes and errors.
  pub record Node : Type 0 where
    pub id : io.PeerId
    pub addrs : List (Option io.Addr)
    pub peer_discrete : Discrete io.PeerId
    -- `Connect`: the text of its error, if it fails.
    pub connect : io.PeerId → List io.Addr → Option String
    pub shown_text : io.Text → String
    pub read_text : String → io.Text
    pub error_text : Invite.Error → String
    pub port_text : String

  unfoldable pub unreachable_note : Node → String
  unreachable_note n =
      "Only local addresses are known — peers on other networks may not be able to connect. Enable UPnP on your router or forward TCP port "
      ++ (n.port_text ++ ".")

  unfoldable pub build_invite : Node → Invitation
  build_invite n =
      let reachable = is_public io n.addrs in
      record {
        code = n.shown_text (encode io n.id n.addrs);
        peer_id = n.shown_text (io.peer_string n.id);
        reachable = reachable;
        note = if reachable then "" else unreachable_note n;
      }

  unfoldable pub join_info : Node → Info io.PeerId io.Addr → Joined
  join_info n info = elim (n.peer_discrete info.id n.id) [
    | yes _ ↦ refused (invalid_invite "invalid invite: cannot join your own node")
    | no _ ↦ elim (n.connect info.id info.addrs) [
      | some e ↦ refused (other e)
      | none ↦ joined (n.shown_text (io.peer_string info.id))
    ]
  ]

  unfoldable pub join_by_code : Node → String → Joined
  unfolding join_info
  join_by_code n code = elim (decode io (n.read_text code)) [
    | err e ↦ refused (invalid_invite ("invalid invite: " ++ n.error_text e))
    | ok info ↦ join_info n info
  ]

  -- If the texts of codes, ids and addresses read back as they were written, a node that reads
  -- another one's code dials exactly that node, at the addresses that it announced without those
  -- that are nil or loopback, and reports its id if the connection is made. A node that reads its
  -- own code refuses it as invalid.
  pub join_by_code-build_invite :
      (n m : Node)
      → IsLawful io
      → ((t : io.Text) → n.read_text (m.shown_text t) ≡ t)
      → join_by_code n (build_invite m).code ≡ (elim (n.peer_discrete m.id n.id) [
        | yes _ ↦ refused (invalid_invite "invalid invite: cannot join your own node")
        | no _ ↦ elim (n.connect m.id (dialable io m.addrs)) [
          | some e ↦ refused (other e)
          | none ↦ joined (n.shown_text (io.peer_string m.id))
        ]
      ])
  unfolding join_by_code build_invite join_info
  join_by_code-build_invite n m l back =
      let read : decode io (n.read_text (build_invite m).code)
          ≡ ok (record { id = m.id; addrs = dialable io m.addrs }) =
        rw (back (encode io m.id m.addrs)) (decode-encode io m.id m.addrs l) in
      rw (read, join_by_code)

  handle_join-reply_joined :
      (joiner : String → Joined) (fl : Floats) (bk : Backends fl) (req : JoinRequest)
      (s : Server fl bk)
      → bk.joiner ≡ some joiner
      → is_empty req.invite ≡ false
      → (handle_join fl bk (value req) s).1
        ≡ (reply_joined fl bk (joiner req.invite) (called fl bk (joins req.invite) s)).1
  unfolding handle_join
  handle_join-reply_joined joiner fl bk req s j nonempty = ground (arith, j, nonempty)

  -- The reply to a join that ended so.
  reply_of : (fl : Floats) (bk : Backends fl) → Joined → Reply fl bk
  reply_of fl bk (refused (invalid_invite e)) = json 400 (fail e)
  reply_of fl bk (refused (other e)) = json 504 (fail ("could not connect to peer: " ++ e))
  reply_of fl bk (joined id) =
      json 200 (Models.ok (Models.join (record { peer_id = id; connected = true })))

  reply_joined-reply_of :
      (fl : Floats) (bk : Backends fl) (x : Joined) (s : Server fl bk)
      → (reply_joined fl bk x s).1 ≡ reply_of fl bk x
  unfolding reply_joined write_status write_json reply_of
  reply_joined-reply_of fl bk (refused (invalid_invite e)) s = refl
  reply_joined-reply_of fl bk (refused (other e)) s = refl
  reply_joined-reply_of fl bk (joined id) s = refl

  reply_of-join_info :
      (n : Node) (fl : Floats) (bk : Backends fl) (info : Info io.PeerId io.Addr)
      → reply_of fl bk (join_info n info) ≡ (elim (n.peer_discrete info.id n.id) [
        | yes _ ↦ json 400 (fail "invalid invite: cannot join your own node")
        | no _ ↦ elim (n.connect info.id info.addrs) [
          | some e ↦ json 504 (fail ("could not connect to peer: " ++ e))
          | none ↦ json 200 (
              Models.ok (
                Models.join
                  (record { peer_id = n.shown_text (io.peer_string info.id); connected = true })))
        ]
      ])
  unfolding join_info reply_of
  reply_of-join_info n fl bk info = elim (n.peer_discrete info.id n.id) [
    | yes p ↦ ground arith
    | no p ↦ ground arith
  ]

  -- `POST /peers/join` with a code: 400 if the code does not decode or is this node's own, 504 if the
  -- connection to the node that it describes fails, and otherwise 200 with the id of that node; for a
  -- node that has a joiner, and a code that is not empty.
  pub handle_join-join_by_code :
      (n : Node) (fl : Floats) (bk : Backends fl) (req : JoinRequest) (s : Server fl bk)
      → bk.joiner ≡ some (join_by_code n)
      → is_empty req.invite ≡ false
      → (handle_join fl bk (value req) s).1 ≡ (elim (decode io (n.read_text req.invite)) [
        | err e ↦ json 400 (fail ("invalid invite: " ++ n.error_text e))
        | ok info ↦ elim (n.peer_discrete info.id n.id) [
          | yes _ ↦ json 400 (fail "invalid invite: cannot join your own node")
          | no _ ↦ elim (n.connect info.id info.addrs) [
            | some e ↦ json 504 (fail ("could not connect to peer: " ++ e))
            | none ↦ json 200 (
                Models.ok (
                  Models.join
                    (record { peer_id = n.shown_text (io.peer_string info.id); connected = true })))
          ]
        ]
      ])
  unfolding join_by_code reply_of
  handle_join-join_by_code n fl bk req s j nonempty =
      handle_join-reply_joined (join_by_code n) fl bk req s j nonempty
      ∙ reply_joined-reply_of fl bk (join_by_code n req.invite) (called fl bk (joins req.invite) s)
      ∙ (elim (Result-cases (decode io (n.read_text req.invite))) [
        | inl (info, e) ↦ rw (e, join_by_code) (reply_of-join_info n fl bk info)
        | inr (e, f) ↦ rw (f, join_by_code)
      ])
