-- ===== src/Audio.antt =====
-- internal/audio/player.go: the gapless streamer and the player. The decoder of MP3 and the speaker are
-- third-party: a decoded stream is an abstract state that is pulled from.
pub mod Examples
pub mod Gapless
pub mod Sessions
mod Tests
use music_p2p.Prelude.{
  ltb, suc, ◌||◌, ◌+◌, ℕ, zero, Bool, true, false, ◌&&◌, not, List, [], ◌∷◌, ◌++◌, map, Option,
  none, some, if◌then◌else◌,
}

-- `Stream(samples)` for a buffer of the given length: the samples, and whether the stream goes on.
pub record Decoder (Stream Sample : Type 0) : Type 0 where
  pub pull : ℕ → Stream → Stream × (List Sample × Bool)

-- `done` tells whether `doneCh` is closed.
pub record GaplessStreamer (Stream : Type 0) : Type 0 where
  pub current : Option Stream
  pub following : Option Stream
  pub done : Bool

module _ {Stream Sample : Type 0} (d : Decoder Stream Sample) where
  -- The current stream is exhausted: switch to the next one, if there is one.
  unfoldable pub switch : ℕ → GaplessStreamer Stream → GaplessStreamer Stream × (List Sample × Bool)
  switch k g = elim g.following [
    | none ↦ (record { current = none; following = none; done = true }, ([], false))
    | some nxt ↦
        let (nxt', (xs, more)) = d.pull k nxt in
        (record { current = some nxt'; following = none; done = true }, (xs, true))
  ]

  unfoldable pub stream_from :
      ℕ → Stream → GaplessStreamer Stream → GaplessStreamer Stream × (List Sample × Bool)
  stream_from k cur g =
      let (cur', (xs, ok)) = d.pull k cur in
      if ok then (record g { current = some cur' }, (xs, true)) else switch k g

  unfoldable pub stream : ℕ → GaplessStreamer Stream → GaplessStreamer Stream × (List Sample × Bool)
  unfolding stream_from switch
  stream k g = elim g.current [ none ↦ (g, ([], false)) | some cur ↦ stream_from k cur g ]

-- `gs.next = nextStream`; one that was there is closed first.
unfoldable pub set_following :
    {Stream : Type 0} → Stream → GaplessStreamer Stream → GaplessStreamer Stream
set_following s g = record g { following = some s }

-- One `Play` that succeeded: its streamer, and whether its `stopCh` and `allDoneCh` are closed, its
-- goroutine has returned, and how often `stopCh` was closed.
pub record Session (Stream : Type 0) : Type 0 where
  pub streamer : GaplessStreamer Stream
  pub closed_stop : ℕ
  pub all_done : Bool
  pub returned : Bool

-- The player; the newest session first. `stop_done` tells whether `stopOnce` was used.
pub record Player (Stream : Type 0) : Type 0 where
  pub playing : Bool
  pub stop_done : Bool
  pub sessions : List (Session Stream)

unfoldable pub new_player : {Stream : Type 0} → Player Stream
new_player = record { playing = false; stop_done = false; sessions = [] }

-- `Play` from the decoded stream on; `Play` that fails to decode or to set up the speaker changes nothing.
unfoldable pub play : {Stream : Type 0} → Option Stream → Player Stream → Player Stream
play none p = p
play (some s) p = record {
  playing = true;
  stop_done = false;
  sessions =
      record {
        streamer = record { current = some s; following = none; done = false };
        closed_stop = 0;
        all_done = false;
        returned = false;
      }
      ∷ p.sessions;
}

unfoldable pub set_next : {Stream : Type 0} → Option Stream → Player Stream → Player Stream
set_next none p = p
set_next (some s) p = elim p.sessions [
  | [] ↦ p
  | x ∷ xs ↦ record p { sessions = record x { streamer = set_following s x.streamer } ∷ xs }
]

-- The channel `stopCh` is that of the newest session, since `playing` is set with it.
unfoldable pub stop : {Stream : Type 0} → Player Stream → Player Stream
stop p =
    if p.playing && not p.stop_done
    then elim p.sessions [
      | [] ↦ record p { stop_done = true }
      | x ∷ xs ↦ record p {
        stop_done = true;
        sessions = record x { closed_stop = x.closed_stop + 1 } ∷ xs;
      }
    ]
    else p

unfoldable pub is_playing : {Stream : Type 0} → Player Stream → Bool
is_playing p = p.playing

-- `none` is the nil channel; otherwise whether the channel is closed.
unfoldable pub current_track_done : {Stream : Type 0} → Player Stream → Option Bool
current_track_done p = elim p.sessions [ [] ↦ none | x ∷ xs ↦ some x.streamer.done ]

-- The speaker pulls from the streamer of a session; when the streamer ends, `beep.Seq` goes on to the
-- callback, which closes `allDoneCh`.
unfoldable pub pull_session :
    {Stream Sample : Type 0}
    → Decoder Stream Sample
    → ℕ
    → Session Stream
    → Session Stream × List Sample
pull_session d k x =
    let (g, (xs, ok)) = stream d k x.streamer in
    (if ok then record x { streamer = g } else record x { streamer = g; all_done = true }, xs)

unfoldable pub pull_newest :
    {Stream Sample : Type 0}
    → Decoder Stream Sample
    → ℕ
    → Player Stream
    → Player Stream × List Sample
unfolding pull_session
pull_newest d k p = elim p.sessions [
  | [] ↦ (p, [])
  | x ∷ xs ↦ let (x', out) = pull_session d k x in (record p { sessions = x' ∷ xs }, out)
]

-- The speaker mixes all sessions that have not ended; one pull is from one of them.
unfoldable pub pull_at :
    {Stream Sample : Type 0}
    → Decoder Stream Sample
    → ℕ
    → ℕ
    → List (Session Stream)
    → List (Session Stream)
pull_at d i k [] = []
pull_at d zero k (x ∷ xs) = (pull_session d k x).0 ∷ xs
pull_at d (suc i) k (x ∷ xs) = x ∷ pull_at d i k xs

unfoldable pub pull_from :
    {Stream Sample : Type 0} → Decoder Stream Sample → ℕ → ℕ → Player Stream → Player Stream
pull_from d i k p = record p { sessions = pull_at d i k p.sessions }

-- The goroutine of a session waits for `allDoneCh` or `stopCh`; then it sets `playing` to false.
unfoldable pub can_return : {Stream : Type 0} → Session Stream → Bool
can_return x = not x.returned && (x.all_done || ltb 0 x.closed_stop)

-- The sessions after the one at an index returned, if it is there and can return.
unfoldable pub return_at :
    {Stream : Type 0} → ℕ → List (Session Stream) → Option (List (Session Stream))
return_at i [] = none
return_at zero (x ∷ xs) = if can_return x then some (record x { returned = true } ∷ xs) else none
return_at (suc i) (x ∷ xs) = elim (return_at i xs) [ none ↦ none | some ys ↦ some (x ∷ ys) ]

unfoldable pub finish : {Stream : Type 0} → ℕ → Player Stream → Player Stream
finish i p = elim (return_at i p.sessions) [
  | none ↦ p
  | some xs ↦ record p { playing = false; sessions = xs }
]
