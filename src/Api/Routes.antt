-- ===== src/Api/Routes.antt =====
-- internal/api/server.go: `routes` and `ServeHTTP`. The router is gorilla/mux, so which entry it picks
-- and what it answers itself are parameters, and so is the handler of the Swagger UI.
use Prim.Native.String as Text
use music_p2p.Prelude.{
  ℕ, ◌≡◌, ◌≢◌, refl, ◌∙◌, Bool, true, false, String, List, [], ◌∷◌, ◌++◌, map, Option, none, some,
  arith, All, get_elem?, All-get_elem?,
}
use music_p2p.Prelude.Text.{String_discrete}
use music_p2p.Scoring.{Floats}
use music_p2p.Api.Server.{Backends, Reply}
use music_p2p.Api.Middleware.{Labels, Exchange, Handler, chain, perform, script}
use music_p2p.Api.Middleware.Served.{fresh, IsAnswer, chain-IsAnswer}

-- The handlers by name.
pub data Target : Type 0 where
  clear_queue connect_peer delete_track dht_provide dht_providers engine_status enqueue
        get_all_metadata get_history get_invite get_metadata get_peer_score get_peers get_queue
        get_status get_tracks insert_queue join play playback_status publish_metadata
        search_metadata seek share_track stop stream_track :
      Target

pub record Route : Type 0 where
  pub method : String
  pub path : String
  pub handler : Target

abbrev route : String → String → Target → Route
route method path handler = record { method = method; path = path; handler = handler }

unfoldable pub routes : List Route
routes =
    route "GET" "/status" get_status
    ∷ route "GET" "/tracks" get_tracks
    ∷ route "POST" "/tracks/share" share_track
    ∷ route "GET" "/tracks/{cid}/stream" stream_track
    ∷ route "DELETE" "/tracks/{cid}" delete_track
    ∷ route "GET" "/metadata" get_all_metadata
    ∷ route "GET" "/metadata/search" search_metadata
    ∷ route "GET" "/metadata/{cid}" get_metadata
    ∷ route "POST" "/metadata" publish_metadata
    ∷ route "POST" "/playback/play" play
    ∷ route "POST" "/playback/stop" stop
    ∷ route "POST" "/playback/seek" seek
    ∷ route "GET" "/playback/status" playback_status
    ∷ route "GET" "/queue" get_queue
    ∷ route "POST" "/queue" enqueue
    ∷ route "POST" "/queue/insert" insert_queue
    ∷ route "DELETE" "/queue" clear_queue
    ∷ route "GET" "/queue/history" get_history
    ∷ route "GET" "/peers" get_peers
    ∷ route "POST" "/peers/connect" connect_peer
    ∷ route "GET" "/peers/invite" get_invite
    ∷ route "POST" "/peers/join" join
    ∷ route "GET" "/peers/{peerID}/score" get_peer_score
    ∷ route "POST" "/dht/provide/{cid}" dht_provide
    ∷ route "GET" "/dht/providers/{cid}" dht_providers
    ∷ route "GET" "/engine/status" engine_status
    ∷ []

-- What the router chooses from: the routes of the subrouter `/api/v1`, each for one method, and the
-- prefix `/swagger/`, which is for any method and stands outside the subrouter.
pub data Entry : Type 0 where
  api : Route → Entry
  swagger : Entry

unfoldable pub entries : List Entry
entries = map api routes ++ swagger ∷ []

-- The router: the entry that it picks for a method and a path, and its own answer when it picks none.
pub record Mux (Float : Type 0) : Type 0 where
  pub pick : List Entry → String → String → Option Entry
  pub unmatched : Exchange Float → Exchange Float × Bool

-- The path as `GetPathTemplate` gives it.
abbrev pub template_of : Route → String
template_of r = Text.◌++◌ "/api/v1" r.path

-- The middlewares of the subrouter stand around its own routes only.
unfoldable pub serve_http :
    {Float : Type 0}
    → Mux Float
    → Handler Float
    → (Target → Handler Float)
    → String
    → String
    → Exchange Float
    → Exchange Float × Bool
serve_http mux swagger_ui handler method path x = elim (mux.pick entries method path) [
  | none ↦ mux.unmatched x
  | some swagger ↦ swagger_ui (record { method = method; template = none }) false x
  | some (api r) ↦
      chain (handler r.handler) (record { method = method; template = some (template_of r) }) false
        x
]

-- gorilla/mux: an entry that is picked is one of the table, and a route that is picked was registered
-- for the method of the request.
abbrev pub IsMux : {Float : Type 0} → Mux Float → Type 0
IsMux mux =
    (es : List Entry) (method path : String) (e : Entry)
    → mux.pick es method path ≡ some e
    → (i : ℕ) × (get_elem? es i ≡ some e)
      × (elim e [ api r ↦ r.method ≡ method | swagger ↦ Unit {0} ])

abbrev IsOther : Entry → Type 0
IsOther (api r) = r.method ≢ "OPTIONS"
IsOther swagger = Unit {0}

none_is : List Entry → Bool
none_is [] = true
none_is (swagger ∷ es) = none_is es
none_is (api r ∷ es) = elim (String_discrete r.method "OPTIONS") [
  | yes _ ↦ false
  | no _ ↦ none_is es
]

none_is-IsOther : (es : List Entry) → none_is es ≡ true → All IsOther es
unfolding none_is
none_is-IsOther [] h = tt
none_is-IsOther (swagger ∷ es) h = (tt, none_is-IsOther es h)
none_is-IsOther (api r ∷ es) h = elim (String_discrete r.method "OPTIONS") [
  | yes p ↦ absurd (ground arith)
  | no p ↦ (p, none_is-IsOther es (ground (arith, h)))
]

entries-IsOther : All IsOther entries
unfolding entries routes none_is String_discrete
entries-IsOther = none_is-IsOther entries refl

module _ (fl : Floats) (bk : Backends fl) where
  open fl use {Float}

  -- What a client gets of a request, by the entry that was picked.
  abbrev pub IsServed :
      Mux Float
      → Handler Float
      → (Target → Reply fl bk)
      → String
      → List Labels
      → Option Entry
      → Exchange Float × Bool
      → Type 0
  IsServed mux swagger_ui replies method counted none p = p ≡ mux.unmatched (fresh counted)
  IsServed mux swagger_ui replies method counted (some swagger) p =
      p ≡ swagger_ui (record { method = method; template = none }) false (fresh counted)
  IsServed mux swagger_ui replies method counted (some (api r)) p =
      (method ≢ "OPTIONS")
      × (p.1 ≡ false)
      × IsAnswer fl bk (record { method = method; template = some (template_of r) }) counted
          (replies r.handler) p.0

  serve_http_picked :
      (mux : Mux Float) (swagger_ui : Handler Float) (replies : Target → Reply fl bk)
      (method path : String) (counted : List Labels) (found : Option Entry)
      → IsMux mux
      → mux.pick entries method path ≡ found
      → IsServed mux swagger_ui replies method counted found (
          serve_http mux swagger_ui
            (λ target. perform (script fl bk (replies target)))
            method
            path
            (fresh counted))
  unfolding serve_http
  serve_http_picked mux swagger_ui replies method path counted none h e = rw (e, serve_http)
  serve_http_picked mux swagger_ui replies method path counted (some swagger) h e =
      rw (e, serve_http)
  serve_http_picked mux swagger_ui replies method path counted (some (api r)) h e =
      let (i, at, same) = h entries method path (api r) e in
      let other : method ≢ "OPTIONS" =
        λ p. All-get_elem? IsOther entries i entries-IsOther at (same ∙ p) in
      let answer =
        chain-IsAnswer fl bk (replies r.handler)
          (record { method = method; template = some (template_of r) }) counted other in
      rw (e, serve_http) (other, answer.0, answer.1)

  -- With a router that picks entries of the table, and routes for their method: a request for which a
  -- route of the API is picked gets the reply of the route's handler, with its status, its content type
  -- and the CORS header, and is counted under the path of the route; and it is never one with the method
  -- OPTIONS, so `corsMiddleware` never answers a preflight. For the Swagger UI and for no entry the
  -- answer is that of the UI and of the router alone, without the middlewares.
  pub serve_http-IsServed :
      (mux : Mux Float) (swagger_ui : Handler Float) (replies : Target → Reply fl bk)
      (method path : String) (counted : List Labels)
      → IsMux mux
      → IsServed mux swagger_ui replies method counted (mux.pick entries method path) (
          serve_http mux swagger_ui
            (λ target. perform (script fl bk (replies target)))
            method
            path
            (fresh counted))
  serve_http-IsServed mux swagger_ui replies method path counted h =
      serve_http_picked mux swagger_ui replies method path counted (mux.pick entries method path) h
        refl
