-- ===== src/Node/Preload.antt =====
-- cmd/node/main.go: `preloadNext`, which is to make the change to the next track gapless. Its goroutine
-- runs beside the speaker, the loop of main and the goroutines of the player, so it is a stage that
-- moves in single steps. A session of the player is named by the number of the sessions before it.
pub mod Harmless
pub mod Pulls
pub mod Sessions
pub mod Stages
pub mod Unheard
use music_p2p.Prelude.{
  ℕ, Bool, true, false, List, [], ◌∷◌, ◌++◌, Option, none, some, length, if◌then◌else◌, ℕ_discrete,
}
use music_p2p.Queue.{Item, Queue, peek}
use music_p2p.Audio.{Decoder, Session, Player, play, stop, finish, set_following, pull_session}

-- The session with `n` sessions before it; the newest stands first.
unfoldable pub session_of : {Stream : Type 0} → ℕ → List (Session Stream) → Option (Session Stream)
session_of n [] = none
session_of n (x ∷ xs) = elim (ℕ_discrete (length xs) n) [ yes _ ↦ some x | no _ ↦ session_of n xs ]

unfoldable pub update_session :
    {Stream : Type 0}
    → ℕ
    → (Session Stream → Session Stream)
    → List (Session Stream)
    → List (Session Stream)
update_session n f [] = []
update_session n f (x ∷ xs) = elim (ℕ_discrete (length xs) n) [
  | yes _ ↦ f x ∷ xs
  | no _ ↦ x ∷ update_session n f xs
]

-- Where the goroutine stands: `go` has made it, and it has not run yet; it waits for the `doneCh` of a session that it read first; `Peek` gave
-- it an item; `SetNext` has read the streamer of a session and is to set the track of the item there;
-- it has returned.
pub data Stage : Type 0 where
  spawned : Stage
  waiting : ℕ → Stage
  starting : Item → Stage
  setting : ℕ → Item → Stage
  returned : Stage

-- What the goroutine does first: `CurrentTrackDone`, and the test for nil.
unfoldable pub preload_next : {Stream : Type 0} → Player Stream → Stage
preload_next p = elim p.sessions [ [] ↦ returned | x ∷ xs ↦ waiting (length xs) ]

-- `<-ctx.Done()` of the select.
unfoldable pub cancel : Stage → Stage
cancel (waiting n) = returned
cancel g = g

unfoldable pub peek_next : Queue → Stage
peek_next q = let (item, found) = peek q in if found then starting item else returned

-- The wait ends when the channel is closed.
unfoldable pub await_done : {Stream : Type 0} → Queue → ℕ → Player Stream → Stage
unfolding peek_next
await_done q n p = elim (session_of n p.sessions) [
  | none ↦ waiting n
  | some x ↦ if x.streamer.done then peek_next q else waiting n
]

-- `StartStreaming`, which may fail, and the read of `p.streamer` in `SetNext`.
unfoldable pub start_next : {Stream : Type 0} → Bool → Item → Player Stream → Stage
start_next started item p =
    if started
    then elim p.sessions [ [] ↦ returned | x ∷ xs ↦ setting (length xs) item ]
    else returned

abbrev pub follow : {Stream : Type 0} → Stream → Session Stream → Session Stream
follow s x = record x { streamer = set_following s x.streamer }

-- The rest of `SetNext`, on the streamer that it read; the track may fail to decode.
unfoldable pub set_next_of : {Stream : Type 0} → Option Stream → ℕ → Player Stream → Player Stream
set_next_of decoded n p = elim decoded [
  | none ↦ p
  | some s ↦ record p { sessions = update_session n (follow s) p.sessions }
]

-- The next step of the goroutine, with the queue as it is then, whether the stream of the next track
-- starts, and that track as it decodes.
unfoldable pub advance :
    {Stream : Type 0} → Queue → Bool → Option Stream → Stage → Player Stream → Stage × Player Stream
unfolding preload_next await_done start_next set_next_of
advance q started decoded spawned p = (preload_next p, p)
advance q started decoded (waiting n) p = (await_done q n p, p)
advance q started decoded (starting item) p = (start_next started item p, p)
advance q started decoded (setting n item) p = (returned, set_next_of decoded n p)
advance q started decoded returned p = (returned, p)

-- What happens to the player: the speaker pulls from a session, calls of `Play` and `Stop`, a goroutine
-- of the player returns, and steps and the end of `preloadNext`.
pub data Step (Stream : Type 0) : Type 0 where
  pulls : ℕ → ℕ → Step Stream
  plays : Option Stream → Step Stream
  stops cancels : Step Stream
  returns : ℕ → Step Stream
  advances : Queue → Bool → Option Stream → Step Stream

module _ {Stream Sample : Type 0} (d : Decoder Stream Sample) where
  unfoldable pub pull_id : ℕ → ℕ → Player Stream → Player Stream
  pull_id m k p = record p { sessions = update_session m (λ x. (pull_session d k x).0) p.sessions }

  unfoldable pub step : Step Stream → Stage × Player Stream → Stage × Player Stream
  unfolding advance pull_id
  step (pulls m k) (g, p) = (g, pull_id m k p)
  step (plays s) (g, p) = (g, play s p)
  step stops (g, p) = (g, stop p)
  step cancels (g, p) = (cancel g, p)
  step (returns i) (g, p) = (g, finish i p)
  step (advances q started decoded) (g, p) = advance q started decoded g p

  -- The samples that a step pulls from a session.
  unfoldable pub pulled : ℕ → Step Stream → Player Stream → List Sample
  pulled n (pulls m k) p = elim (ℕ_discrete m n) [
    | no _ ↦ []
    | yes _ ↦ elim (session_of n p.sessions) [ none ↦ [] | some x ↦ (pull_session d k x).1 ]
  ]
  pulled n _ p = []

  -- All samples that the speaker gets from a session.
  unfoldable pub heard : ℕ → List (Step Stream) → Stage × Player Stream → List Sample
  heard n [] s = []
  heard n (c ∷ cs) (g, p) = pulled n c p ++ heard n cs (step c (g, p))
