-- ===== src/Node/Loop.antt =====
-- cmd/node/main.go: the loop that plays the queue of `--play` and `--queue`.
pub mod Plays
use music_p2p.Prelude.{ℕ, zero, suc, Bool, true, false, String, List, [], ◌∷◌, ◌++◌, if◌then◌else◌}
use music_p2p.Queue.{Item, Queue, next}

-- What happens to the stream of one item: an error of `StartStreaming`, of `waitForBuffer` or of `Play`;
-- playing to the end; or a signal while it plays.
pub data Turn : Type 0 where
  not_started cancelled not_played finished interrupted : Turn

-- The calls of `engine.StartStreaming`, `player.Play`, `player.Stop` and `engine.Stop`.
pub data Event : Type 0 where
  starts plays : String → Event
  halts stops : Event

pub data Ending : Type 0 where
  queue_empty wait_cancelled signalled out_of_fuel : Ending

pub record Played : Type 0 where
  pub queue : Queue
  pub events : List Event
  pub ending : Ending

abbrev pub ended : Queue → List Event → Ending → Played
ended q events ending = record { queue = q; events = events; ending = ending }

abbrev pub before : List Event → Played → Played
before events p = record p { events = events ++ p.events }

-- The rest of a round that got an item, with the run of the later rounds.
unfoldable pub take_turn : Turn → Item → Queue → Played → Played
take_turn not_started item q rest = before (starts item.cid ∷ []) rest
take_turn cancelled item q rest = ended q (starts item.cid ∷ []) wait_cancelled
take_turn not_played item q rest = before (starts item.cid ∷ stops ∷ []) rest
take_turn finished item q rest = before (starts item.cid ∷ plays item.cid ∷ stops ∷ []) rest
take_turn interrupted item q rest =
    ended q (starts item.cid ∷ plays item.cid ∷ halts ∷ stops ∷ []) signalled

-- The loop, with what happens in each round; with fuel.
unfoldable pub play_rounds : ℕ → ℕ → (ℕ → Turn) → Queue → Played
unfolding take_turn
play_rounds zero round turn q = ended q [] out_of_fuel
play_rounds (suc fuel) round turn q =
    let (q', (item, found)) = next q in
    let rest = play_rounds fuel (suc round) turn q' in
    if found then take_turn (turn round) item q' rest else ended q' [] queue_empty
