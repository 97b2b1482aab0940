-- ===== src/Api/Middleware/Served.antt =====
-- internal/api/middleware.go: what a client gets for each reply of a handler, and what is counted.
use music_p2p.Prelude.{
  Bool, ℕ, ◌≡◌, ◌≢◌, refl, String, List, [], ◌∷◌, ◌++◌, Option, none, some, true, false, arith,
  ◌==◌,
}
use music_p2p.Prelude.Assoc.{lookup, insert}
use music_p2p.Prelude.Text.{String_discrete}
use music_p2p.Scoring.{Floats}
use music_p2p.Api.Middleware.{
  Handler, Header, Body, text, bytes, Labels, Exchange, Incoming, route_template, chain, perform,
  script, cors_middleware, json_middleware, logging_middleware, recovery_middleware,
  metrics_middleware, count, recover, send, send_to, write_body, set, cors_header,
}
use music_p2p.Api.Models.{Response, fail}
use music_p2p.Api.Server.{Backends, Reply, json, audio, panicked}

-- Before anything is written.
abbrev pub fresh : {Float : Type 0} → List Labels → Exchange Float
fresh counted = record { header = []; sent = none; bodies = []; recorded = 0; counted = counted }

-- The status and the headers that were sent.
abbrev pub IsSent : ℕ → String → Option (ℕ × Header) → Type 0
IsSent code content_type none = ⊥
IsSent code content_type (some (sent, h)) =
    (sent ≡ code)
    × (lookup String_discrete "Content-Type" h ≡ some content_type)
    × (lookup String_discrete "Access-Control-Allow-Origin" h ≡ some "*")

module _ {Float : Type 0} (next : Handler Float) (r : Incoming) (rec : Bool)
    (x : Exchange Float) where
  cors_middleware-next :
      r.method ≢ "OPTIONS"
      → cors_middleware next r rec x ≡ next r rec (record x { header = cors_header x.header })
  unfolding cors_middleware
  cors_middleware-next h = ground arith

module _ (fl : Floats) (bk : Backends fl) where
  open fl use {Float}

  abbrev pub IsServed : Exchange Float → ℕ → String → List (Body Float) → Type 0
  IsServed x code content_type content = IsSent code content_type x.sent × (x.bodies ≡ content)

  abbrev pub IsAnswer : Incoming → List Labels → Reply fl bk → Exchange Float → Type 0
  IsAnswer r counted (json code response) x =
      IsServed x code "application/json" (text response ∷ [])
      × (x.counted
          ≡ counted ++ record { method = r.method; path = route_template r; status = code } ∷ [])
  IsAnswer r counted (audio content) x =
      IsServed x 200 "audio/mpeg" (bytes content ∷ [])
      × (x.counted
          ≡ counted ++ record { method = r.method; path = route_template r; status = 200 } ∷ [])
  IsAnswer r counted panicked x =
      IsServed x 500 "application/json" (text (fail "internal server error") ∷ [])
      × (x.counted ≡ counted)

  json-IsAnswer :
      (code : ℕ) (response : Response Float) (r : Incoming) (counted : List Labels) (default : Bool)
      → (code == 200) ≡ default
      → r.method ≢ "OPTIONS"
      → let (x, failed) =
          chain (perform (script fl bk (json code response))) r false (fresh counted) in
        (failed ≡ false) × IsAnswer r counted (json code response) x
  unfolding chain script perform json_middleware logging_middleware recovery_middleware
      metrics_middleware count recover send send_to write_body set cors_header lookup insert
      String_discrete
  json-IsAnswer code response r counted true e h =
      rw (cors_middleware-next, h, e) (ground (arith, e))
  json-IsAnswer code response r counted false e h =
      rw (cors_middleware-next, h, e) (ground (arith, e))

  -- A request with any method but OPTIONS is answered whatever the handler does: a JSON reply with its
  -- status and the JSON content type, audio with status 200 and its own content type, a panic with
  -- status 500 and a JSON error; all with the CORS header. A reply is counted once, under the status that
  -- the client gets; a panic is not counted.
  pub chain-IsAnswer :
      (reply : Reply fl bk) (r : Incoming) (counted : List Labels)
      → r.method ≢ "OPTIONS"
      → let (x, failed) = chain (perform (script fl bk reply)) r false (fresh counted) in
        (failed ≡ false) × IsAnswer r counted reply x
  unfolding chain script perform json_middleware logging_middleware recovery_middleware
      metrics_middleware count recover send send_to write_body set cors_header lookup insert
      String_discrete
  chain-IsAnswer (json code response) r counted h =
      json-IsAnswer code response r counted (code == 200) refl h
  chain-IsAnswer (audio content) r counted h =
      rw (cors_middleware-next, h) (refl, (((refl, refl, refl), refl), refl))
  chain-IsAnswer panicked r counted h =
      rw (cors_middleware-next, h) (refl, (((refl, refl, refl), refl), refl))
