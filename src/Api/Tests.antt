-- ===== src/Api/Tests.antt =====
-- internal/api: requests to a server that holds a store and a queue.
use music_p2p.Prelude.{
  zero, suc, subst, Option, get_elem?, ℕ, ◌≡◌, ◌≢◌, refl, String, List, [], ◌∷◌, ◌++◌, concat,
  arith, some, none, true, false,
}
use music_p2p.Prelude.Text.{String_discrete}
use music_p2p.Prelude.Int.{pos}
use music_p2p.Metadata as Meta
use music_p2p.Queue as Queue
use music_p2p.Storage.Tracks as Tracks
use music_p2p.Metadata.Examples.{plain}
use music_p2p.Storage.Frames.Examples.{whole, whole-IsFrame}
use music_p2p.Storage.Tracks.Laws.{load_track-read_track}
use music_p2p.Scoring.Fixed.{thousandths}
use music_p2p.Api.Models as Models
use music_p2p.Api.Routes.{
  routes, Route, Target, Entry, api, swagger, entries, template_of, Mux, serve_http, IsMux,
  IsServed, serve_http-IsServed,
}
use music_p2p.Api.Server.{Reply, Server, value, error, json, panicked, new}
use music_p2p.Api.Examples.{parts, server, files_with}
use music_p2p.Api.Models.{QueueItemRequest, PlayRequest, SeekRequest, TrackInfo}
use music_p2p.Api.Tracks.{upload, handle_get_tracks, handle_share_track, handle_delete_track}
use music_p2p.Api.Tracks.Shared.{shown_count, handle_share_track-shown}
use music_p2p.Api.Library.{handle_get_metadata}
use music_p2p.Api.Playback.{playback_status}
use music_p2p.Api.Requests.{Request, handle, run}
use music_p2p.Api.Requests.Kept.{IsSound, handle-IsSound}
use music_p2p.Api.Requests.Queueing.{queue_calls, run-queue_calls}
use music_p2p.Api.Requests.Playing.{last_position, run-playback_status}
use music_p2p.Api.Middleware.{Incoming, chain, perform, script}
use music_p2p.Api.Middleware.Served.{fresh, IsAnswer, chain-IsAnswer}

abbrev first : Server thousandths parts
first = server parts

handle-IsSound_example :
    IsSound thousandths parts first (handle thousandths parts (Request.delete_track "ab12") first)
handle-IsSound_example = handle-IsSound thousandths parts (Request.delete_track "ab12") first

abbrev item : String → QueueItemRequest
item cid = record { cid = cid; title = "One"; artist = "A"; position = none }

abbrev queueing : List (Request ℕ)
queueing =
    Request.enqueue (value (item "c1"))
    ∷ Request.enqueue (value (item ""))
    ∷ Request.insert_queue (value (item "c2"))
    ∷ []

run-queue_calls_example :
    (run thousandths parts queueing first).q ≡ some (Queue.run Queue.new (queue_calls queueing))
unfolding new
run-queue_calls_example = run-queue_calls thousandths parts queueing first Queue.new refl

abbrev later : List (Request ℕ)
later = Request.seek (value (record { chunk_index = pos 7 })) ∷ Request.play (error "EOF") ∷ []

run-playback_status_example :
    playback_status thousandths parts (
      run thousandths parts
        ((Request.stop ∷ []) ++ Request.play (value (record { cid = "c1" })) ∷ later)
        first)
    ≡ record { playing = true; cid = "c1"; chunk_index = pos 7; buffer_level = 0 }
unfolding last_position Meta.is_empty String_discrete
run-playback_status_example =
    run-playback_status thousandths parts (Request.stop ∷ []) later (record { cid = "c1" }) first
      refl (tt, (tt, tt))

abbrev contents : List ℕ
contents = (1 ∷ 2 ∷ []) ++ (concat (whole ∷ whole ∷ []) ++ 3 ∷ [])

loaded :
    (Tracks.load_track (files_with "t.mp3" contents) "t.mp3" (Tracks.new "")).1 ≡ Tracks.ok "ab12"
loaded =
    (load_track-read_track (files_with "t.mp3" contents) "t.mp3" (Tracks.new "") (1 ∷ 2 ∷ [])
      (3 ∷ []) whole (whole ∷ []) (ground arith, (ground arith, tt)) (ground arith, tt)
      (whole-IsFrame, (whole-IsFrame, tt)) refl).0

handle_share_track-shown_example :
    let form = upload "one.mp3" true "t.mp3" contents in
    let (t, reply) = handle_share_track thousandths parts form first in
    let (u, deleted) = handle_delete_track thousandths parts "ab12" t in
    (n : ℕ) × (reply
      ≡ json 201 (Models.ok (Models.track (record { cid = "ab12"; chunk_count = n }))))
    × (shown_count thousandths parts "ab12" (handle_get_tracks thousandths parts t).1 ≡ some n)
    × ((handle_get_metadata thousandths parts "ab12" t).1
        ≡ json 200 (
            Models.ok (
              Models.metadata (record {
                cid = "ab12";
                meta_id = Meta.compute_meta_id plain "one" "Unknown" (pos 0);
                title = "one";
                artist = "Unknown";
                duration = pos 0;
                variants = [];
              }))))
    × (deleted ≡ json 200 (Models.ok Models.nothing))
    × (shown_count thousandths parts "ab12" (handle_get_tracks thousandths parts u).1 ≡ none)
unfolding new Meta.is_empty String_discrete
handle_share_track-shown_example =
    handle_share_track-shown thousandths parts "one" "mp3" "t.mp3" "ab12" true contents first
      (Tracks.new "") Meta.new_local_store (refl, refl, (refl, refl, (refl, refl, tt))) refl refl
      refl loaded

abbrev status_request : Incoming
status_request = record { method = "GET"; template = some "/api/v1/status" }

not_options : ◌≢◌ {A = String} "GET" "OPTIONS"
not_options = λ p. cc

chain-IsAnswer_example :
    let (x, failed) =
      chain (perform (script thousandths parts panicked)) status_request false (fresh []) in
    (failed ≡ false) × IsAnswer thousandths parts status_request [] panicked x
chain-IsAnswer_example = chain-IsAnswer thousandths parts panicked status_request [] not_options

-- A router that compares whole paths, for paths with no variables.
abbrev pick : List Entry → String → String → Option Entry
pick [] method path = none
pick (swagger ∷ es) method path = elim (String_discrete "/swagger/" path) [
  | yes _ ↦ some swagger
  | no _ ↦ pick es method path
]
pick (api r ∷ es) method path = elim (String_discrete r.method method) [
  | no _ ↦ pick es method path
  | yes _ ↦ elim (String_discrete (template_of r) path) [
    | yes _ ↦ some (api r)
    | no _ ↦ pick es method path
  ]
]

abbrev mux : Mux ℕ
mux = record { pick = pick; unmatched = λ x. (x, false) }

IsPicked : List Entry → String → Entry → Type 0
IsPicked es method e =
    (i : ℕ) × (get_elem? es i ≡ some e)
    × (elim e [ api r ↦ r.method ≡ method | swagger ↦ Unit {0} ])

IsPicked-later :
    (other e : Entry) (es : List Entry) (method : String)
    → IsPicked es method e
    → IsPicked (other ∷ es) method e
unfolding IsPicked
IsPicked-later other e es method (i, at, same) = (suc i, at, same)

swagger-IsPicked :
    (es : List Entry) (method : String) (e : Entry) → swagger ≡ e → IsPicked (swagger ∷ es) method e
unfolding IsPicked
swagger-IsPicked es method e h = subst (IsPicked (swagger ∷ es) method) h (zero, refl, tt)

api-IsPicked :
    (r : Route) (es : List Entry) (method : String) (e : Entry)
    → r.method ≡ method
    → api r ≡ e
    → IsPicked (api r ∷ es) method e
unfolding IsPicked
api-IsPicked r es method e same h = subst (IsPicked (api r ∷ es) method) h (zero, refl, same)

pick-IsPicked :
    (es : List Entry) (method path : String) (e : Entry)
    → pick es method path ≡ some e
    → IsPicked es method e
pick-IsPicked [] method path e h = cc
pick-IsPicked (swagger ∷ es) method path e h = elim (String_discrete "/swagger/" path) [
  | yes p ↦ swagger-IsPicked es method e (ground (arith, h, p))
  | no p ↦
      IsPicked-later swagger e es method (pick-IsPicked es method path e (ground (arith, h, p)))
]
pick-IsPicked (api r ∷ es) method path e h = elim (String_discrete r.method method) [
  | no p ↦
      IsPicked-later (api r) e es method (pick-IsPicked es method path e (ground (arith, h, p)))
  | yes p ↦ elim (String_discrete (template_of r) path) [
    | yes q ↦ api-IsPicked r es method e p (ground (arith, h, p, q))
    | no q ↦
        IsPicked-later (api r) e es method
          (pick-IsPicked es method path e (ground (arith, h, p, q)))
  ]
]

mux-IsMux : IsMux mux
unfolding IsPicked
mux-IsMux = pick-IsPicked

status_test :
    pick entries "GET" "/api/v1/status"
    ≡ some (api (record { method = "GET"; path = "/status"; handler = Target.get_status }))
unfolding entries routes String_discrete
status_test = refl

abbrev replies : Target → Reply thousandths parts
replies target = json 200 (Models.ok Models.nothing)

serve_http-IsServed_example :
    IsServed thousandths parts mux
      (perform [])
      replies
      "GET"
      []
      (pick entries "GET" "/api/v1/status")
      (serve_http mux
        (perform [])
        (λ target. perform (script thousandths parts (replies target)))
        "GET"
        "/api/v1/status"
        (fresh []))
serve_http-IsServed_example =
    serve_http-IsServed thousandths parts mux (perform []) replies "GET" "/api/v1/status" []
      mux-IsMux
