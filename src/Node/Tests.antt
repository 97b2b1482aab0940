-- ===== src/Node/Tests.antt =====
-- cmd/node/main.go: a code that is read, a queue that is played, and a track that is not gapless.
use music_p2p.Prelude.{
  ℕ, ℕ_discrete, zero, suc, ◌≡◌, refl, true, String, List, [], ◌∷◌, none, some, arith,
}
use music_p2p.Prelude.Text.{String_discrete}
use music_p2p.Invite as Invite
use music_p2p.Audio.{
  Player, play, new_player, pull_session, stream, stream_from, switch, set_following,
}
use music_p2p.Metadata.{is_empty}
use music_p2p.Invite.{Info, decode}
use music_p2p.Invite.Trees.{leaf, trees, trees-IsLawful, shown, read, read-shown}
use music_p2p.Scoring.Fixed.{thousandths}
use music_p2p.Queue.{Item, Queue, peek}
use music_p2p.Audio.Examples.{one_sample}
use music_p2p.Node.Joining.{
  Node, build_invite, join_by_code, join_by_code-build_invite, handle_join-join_by_code,
}
use music_p2p.Node.Loop.{Turn, not_started, finished, play_rounds}
use music_p2p.Node.Loop.Plays.{GoesOn, IsPlayed, play_rounds-IsPlayed}
use music_p2p.Node.Preload.{
  Step, pulls, plays, stops, returns, advances, preload_next, spawned, heard, step, pulled, advance,
  await_done, peek_next, start_next, set_next_of, session_of, update_session, pull_id,
}
use music_p2p.Node.Preload.Stages.{pulls_of}
use music_p2p.Node.Preload.Pulls.{alone}
use music_p2p.Node.Preload.Unheard.{heard-alone}
use music_p2p.Api.Models as Models
use music_p2p.Api.Examples.{parts, server}
use music_p2p.Api.Models.{JoinRequest, fail}
use music_p2p.Api.Server.{Backends, invalid_invite, joined, refused, json, value}
use music_p2p.Api.Peers.{handle_join}

abbrev node_with : ℕ → Node trees
node_with id = record {
  id = id;
  addrs = some 8 ∷ none ∷ [];
  peer_discrete = ℕ_discrete;
  connect = λ p addrs. none;
  shown_text = shown;
  read_text = read;
  error_text = λ e. "bad code";
  port_text = "4001";
}

join_by_code-build_invite_example :
    join_by_code trees (node_with 5) (build_invite trees (node_with 6)).code
    ≡ (elim (ℕ_discrete 6 5) [
      | yes _ ↦ refused (invalid_invite "invalid invite: cannot join your own node")
      | no _ ↦ joined (shown (leaf 6))
    ])
join_by_code-build_invite_example =
    join_by_code-build_invite trees (node_with 5) (node_with 6) trees-IsLawful read-shown

abbrev backends : Backends thousandths
backends = record parts { joiner = some (join_by_code trees (node_with 5)) }

abbrev request : JoinRequest
request = record { invite = "LSS" }

handle_join-join_by_code_example :
    (handle_join thousandths backends (value request) (server backends)).1
    ≡ (elim (decode trees (read "LSS")) [
      | Invite.err e ↦ json 400 (fail "invalid invite: bad code")
      | Invite.ok info ↦ elim (ℕ_discrete info.id 5) [
        | yes _ ↦ json 400 (fail "invalid invite: cannot join your own node")
        | no _ ↦
            json 200 (
              Models.ok (Models.join (record { peer_id = shown (leaf info.id); connected = true })))
      ]
    ])
unfolding is_empty String_discrete
handle_join-join_by_code_example =
    handle_join-join_by_code trees (node_with 5) thousandths backends request (server backends) refl
      refl

abbrev item : String → Item
item cid = record { cid = cid; title = cid; artist = "" }

abbrev queue : Queue
queue = record { items = item "a" ∷ item "b" ∷ []; history = []; current = none }

-- The second stream does not start.
abbrev turns : ℕ → Turn
turns (suc zero) = not_started
turns n = finished

turns-GoesOn : (n : ℕ) → GoesOn (turns n)
turns-GoesOn zero = tt
turns-GoesOn (suc zero) = tt
turns-GoesOn (suc (suc n)) = tt

play_rounds-IsPlayed_example : IsPlayed queue (play_rounds 3 0 turns queue)
play_rounds-IsPlayed_example = play_rounds-IsPlayed 3 0 turns queue (omega arith) turns-GoesOn

-- The goroutine peeks, starts and sets the next track after the end of the first, and then another track
-- is played.
abbrev steps : List (Step (List ℕ))
steps =
    pulls 0 1
    ∷ advances queue true (some (3 ∷ []))
    ∷ advances queue true (some (3 ∷ []))
    ∷ pulls 0 1
    ∷ pulls 0 1
    ∷ advances queue true (some (3 ∷ []))
    ∷ advances queue true (some (3 ∷ []))
    ∷ advances queue true (some (3 ∷ []))
    ∷ pulls 0 1
    ∷ plays (some (4 ∷ []))
    ∷ pulls 1 1
    ∷ stops
    ∷ returns 0
    ∷ []

heard-alone_example :
    let q : Player (List ℕ) = play (some (1 ∷ 2 ∷ [])) new_player in
    heard one_sample 0 steps (spawned, q) ≡ alone one_sample (pulls_of 0 steps) (1 ∷ 2 ∷ [])
unfolding new_player
heard-alone_example = heard-alone one_sample steps (1 ∷ 2 ∷ []) new_player

-- A goroutine that was late: the track that it peeked at is played by then, and is set to follow itself.
abbrev late : List (Step (List ℕ))
late =
    pulls 0 1
    ∷ advances queue true (some (3 ∷ []))
    ∷ advances queue true (some (3 ∷ []))
    ∷ plays (some (3 ∷ []))
    ∷ advances queue true (some (3 ∷ []))
    ∷ advances queue true (some (3 ∷ []))
    ∷ pulls 1 1
    ∷ pulls 1 1
    ∷ pulls 1 1
    ∷ []

late_test :
    let q : Player (List ℕ) = play (some []) new_player in
    heard one_sample 1 late (spawned, q) ≡ 3 ∷ 3 ∷ []
unfolding new_player play preload_next heard step pulled advance await_done peek_next start_next
    set_next_of session_of update_session pull_id pull_session stream stream_from switch
    set_following peek ℕ_discrete
late_test = refl
