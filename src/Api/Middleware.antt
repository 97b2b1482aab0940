-- ===== src/Api/Middleware.antt =====
-- internal/api/middleware.go: what stands around every handler, and `routes` of server.go. A handler
-- is the sequence of its writes; the writer of net/http keeps the first status, and the headers as they
-- were when it was written.
pub mod Served
use music_p2p.Prelude.{
  ℕ, Bool, true, false, String, List, [], ◌∷◌, ◌++◌, Option, none, some, ◌==◌, if◌then◌else◌,
}
use music_p2p.Prelude.Assoc.{insert}
use music_p2p.Prelude.Text.{String_discrete}
use music_p2p.Scoring.{Floats}
use music_p2p.Api.Models.{Response, fail}
use music_p2p.Api.Server.{Backends, Server, Reply, json, audio, panicked}

abbrev pub Header : Type 0
Header = List (String × String)

-- `w.Header().Set(k, v)`
unfoldable pub set : String → String → Header → Header
set k v h = insert String_discrete k v h

-- What is written as a body.
pub data Body (Float : Type 0) : Type 0 where
  text : Response Float → Body Float
  bytes : List ℕ → Body Float

pub data Op (Float : Type 0) : Type 0 where
  set_header : String → String → Op Float
  write_header : ℕ → Op Float
  write : Body Float → Op Float
  panics : Op Float

-- The labels of one `Inc` of `HTTPRequestsTotal`.
pub record Labels : Type 0 where
  pub method : String
  pub path : String
  pub status : ℕ

-- One request: the headers to send; the status and the headers that were sent with it; the bodies; the
-- status in the `statusRecorder`; and the labels of all requests that were counted.
pub record Exchange (Float : Type 0) : Type 0 where
  pub header : Header
  pub sent : Option (ℕ × Header)
  pub bodies : List (Body Float)
  pub recorded : ℕ
  pub counted : List Labels

-- A request as the middlewares read it; `template` is that of the matched route, if there is one.
pub record Incoming : Type 0 where
  pub method : String
  pub template : Option String

unfoldable pub route_template : Incoming → String
route_template r = elim r.template [ none ↦ "unknown" | some t ↦ t ]

-- A handler gets a writer and the exchange so far; `true` as the result tells of a panic.
abbrev pub Handler : Type 0 → Type 0
Handler Float = Incoming → Bool → Exchange Float → Exchange Float × Bool

unfoldable pub cors_header : Header → Header
cors_header h = set "Access-Control-Allow-Headers" "Content-Type, Authorization" (
    set "Access-Control-Allow-Methods" "GET, POST, DELETE, OPTIONS"
      (set "Access-Control-Allow-Origin" "*" h))

module _ {Float : Type 0} where
  -- `WriteHeader` of net/http: a second one has no effect.
  unfoldable pub send : ℕ → Exchange Float → Exchange Float
  send code x = elim x.sent [ none ↦ record x { sent = some (code, x.header) } | some _ ↦ x ]

  -- `WriteHeader` of the writer that the handler was given: a `statusRecorder`, or not.
  unfoldable pub send_to : Bool → ℕ → Exchange Float → Exchange Float
  send_to true code x = send code (record x { recorded = code })
  send_to false code x = send code x

  -- `Write` of net/http sends status 200 first if none was sent; the `statusRecorder` is passed by.
  unfoldable pub write_body : Body Float → Exchange Float → Exchange Float
  unfolding send
  write_body b x = let y : Exchange Float = send 200 x in record y { bodies = y.bodies ++ b ∷ [] }

  unfoldable pub perform : List (Op Float) → Handler Float
  unfolding send_to write_body
  perform [] r rec x = (x, false)
  perform (set_header k v ∷ ops) r rec x =
      perform ops r rec (record x { header = set k v x.header })
  perform (write_header code ∷ ops) r rec x = perform ops r rec (send_to rec code x)
  perform (write b ∷ ops) r rec x = perform ops r rec (write_body b x)
  perform (panics ∷ ops) r rec x = (x, true)

  unfoldable pub cors_middleware : Handler Float → Handler Float
  cors_middleware next r rec x =
      let y : Exchange Float = record x { header = cors_header x.header } in
      elim (String_discrete r.method "OPTIONS") [
        | yes _ ↦ (send_to rec 204 y, false)
        | no _ ↦ next r rec y
      ]

  unfoldable pub json_middleware : Handler Float → Handler Float
  json_middleware next r rec x =
      next r rec (record x { header = set "Content-Type" "application/json" x.header })

  -- The log is not modelled.
  unfoldable pub logging_middleware : Handler Float → Handler Float
  logging_middleware next r rec x = next r rec x

  unfoldable pub recover : Bool → Exchange Float × Bool → Exchange Float × Bool
  recover rec (x, false) = (x, false)
  recover rec (x, true) =
      let y : Exchange Float = record x {
        header = set "Content-Type" "application/json" x.header;
      } in
      (write_body (text (fail "internal server error")) (send_to rec 500 y), false)

  unfoldable pub recovery_middleware : Handler Float → Handler Float
  recovery_middleware next r rec x = recover rec (next r rec x)

  -- After a panic the lines behind `next.ServeHTTP` are not reached.
  unfoldable pub count : Incoming → Exchange Float × Bool → Exchange Float × Bool
  count r (x, true) = (x, true)
  count r (x, false) =
      let labels : Labels = record {
        method = r.method;
        path = route_template r;
        status = x.recorded;
      } in
      (record x { counted = x.counted ++ labels ∷ [] }, false)

  unfoldable pub metrics_middleware : Handler Float → Handler Float
  metrics_middleware next r rec x = count r (next r true (record x { recorded = 200 }))

  -- `api.Use` of `routes`: the first one is the outermost.
  unfoldable pub chain : Handler Float → Handler Float
  chain h =
      cors_middleware
        (json_middleware (logging_middleware (recovery_middleware (metrics_middleware h))))

-- The writes of a handler that replies: `writeJSON` leaves the status to the first `Write`.
module _ (fl : Floats) (bk : Backends fl) where
  open fl use {Float}

  unfoldable pub script : Reply fl bk → List (Op Float)
  script (json code response) =
      if code == 200
      then write (text response) ∷ []
      else write_header code ∷ write (text response) ∷ []
  script (audio content) =
      set_header "Content-Type" "audio/mpeg"
      ∷ set_header "Cache-Control" "no-store"
      ∷ write (bytes content)
      ∷ []
  script panicked = panics ∷ []
