-- ===== src/Scheduler/Congestion/Bounds.antt =====
-- internal/scheduler/scheduler.go: the limits that the congestion control keeps.
use music_p2p.Prelude.{
  ℕ, ◌/◌, ◌≤◌, ◌<◌, ◌≡◌, max, Bool, true, false, List, [], ◌∷◌, ◌++◌, arith, length, length-append,
  length-drop,
}
use music_p2p.Scheduler.Congestion.{
  Scheduler, new, min_max_inflight, max_max_inflight, congestion_window, slide, back_off, ramp_up,
  record_outcome, mark_completed, mark_failed, reset_to, set_current_position,
}

-- The concurrency limit, the window and the run of failures are in range.
pub record InBounds {ℓ} {P : Type ℓ} (s : Scheduler P) : Type 0 where
  pub floor : min_max_inflight ≤ s.max_inflight
  pub ceiling : s.max_inflight ≤ max_max_inflight
  pub window : length s.recent_outcomes ≤ congestion_window
  pub run : s.consecutive_fail < 3

pub data Call {ℓ} (P : Type ℓ) : Type ℓ where
  completes : ℕ → Call P
  fails : ℕ → P → Call P
  moves resets : ℕ → Call P

module _ {ℓ} {P : Type ℓ} where
  new-InBounds : InBounds (new {P = P})
  unfolding new
  new-InBounds = omega arith

  slide-InBounds : (b : Bool) (s : Scheduler P) → InBounds s → InBounds (slide b s)
  unfolding slide
  slide-InBounds b s v = record {
    floor = v.floor;
    ceiling = v.ceiling;
    window = ground (
      arith,
      length-append s.recent_outcomes (b ∷ []),
      length-drop 1 (s.recent_outcomes ++ b ∷ []),
    );
    run = v.run;
  }

  back_off-InBounds : (s : Scheduler P) → InBounds s → InBounds (back_off s)
  unfolding back_off
  back_off-InBounds s v = ground arith

  ramp_up-InBounds : (s : Scheduler P) → InBounds s → InBounds (ramp_up s)
  unfolding ramp_up
  ramp_up-InBounds s v = ground arith

  record_outcome-InBounds :
      (b : Bool) (s : Scheduler P) → InBounds s → InBounds (record_outcome b s)
  unfolding record_outcome
  record_outcome-InBounds true s v = ramp_up-InBounds (slide true s) (slide-InBounds true s v)
  record_outcome-InBounds false s v = back_off-InBounds (slide false s) (slide-InBounds false s v)

  mark_completed-InBounds :
      (index : ℕ) (s : Scheduler P) → InBounds s → InBounds (mark_completed index s)
  unfolding mark_completed
  mark_completed-InBounds index s v =
      record_outcome-InBounds true _
        (record { floor = v.floor; ceiling = v.ceiling; window = v.window; run = v.run })

  mark_failed-InBounds :
      (dec : Discrete P) (index : ℕ) (p : P) (s : Scheduler P)
      → InBounds s
      → InBounds (mark_failed dec index p s)
  unfolding mark_failed
  mark_failed-InBounds dec index p s v =
      record_outcome-InBounds false _
        (record { floor = v.floor; ceiling = v.ceiling; window = v.window; run = v.run })

  reset_to-InBounds : (at : ℕ) (s : Scheduler P) → InBounds s → InBounds (reset_to at s)
  unfolding reset_to
  reset_to-InBounds at s v = record {
    floor = v.floor;
    ceiling = v.ceiling;
    window = v.window;
    run = v.run;
  }

  set_current_position-InBounds :
      (at : ℕ) (s : Scheduler P) → InBounds s → InBounds (set_current_position at s)
  unfolding set_current_position
  set_current_position-InBounds at s v = record {
    floor = v.floor;
    ceiling = v.ceiling;
    window = v.window;
    run = v.run;
  }

  pub step : Discrete P → Call P → Scheduler P → Scheduler P
  step dec (completes index) s = mark_completed index s
  step dec (fails index p) s = mark_failed dec index p s
  step dec (moves at) s = set_current_position at s
  step dec (resets at) s = reset_to at s

  -- The calls, from the last one to the first.
  pub run : Discrete P → List (Call P) → Scheduler P → Scheduler P
  run dec [] s = s
  run dec (c ∷ cs) s = step dec c (run dec cs s)

  step-InBounds :
      (dec : Discrete P) (c : Call P) (s : Scheduler P) → InBounds s → InBounds (step dec c s)
  unfolding step
  step-InBounds dec (completes index) s v = mark_completed-InBounds index s v
  step-InBounds dec (fails index p) s v = mark_failed-InBounds dec index p s v
  step-InBounds dec (moves at) s v = set_current_position-InBounds at s v
  step-InBounds dec (resets at) s v = reset_to-InBounds at s v

  -- From a new scheduler, after any sequence of `MarkCompleted`, `MarkFailed`, `SetCurrentPosition`
  -- and `ResetTo`, the concurrency limit is from 2 to 32, at most 20 outcomes are kept, and fewer
  -- than three failures are pending.
  pub run-InBounds : (dec : Discrete P) (cs : List (Call P)) → InBounds (run dec cs new)
  unfolding run
  run-InBounds dec [] = new-InBounds
  run-InBounds dec (c ∷ cs) = step-InBounds dec c (run dec cs new) (run-InBounds dec cs)

  -- The outcomes of a series of fetches, recorded one after the other.
  pub record_all : List Bool → Scheduler P → Scheduler P
  record_all [] s = s
  record_all (b ∷ bs) s = record_all bs (record_outcome b s)

  -- In a state within its bounds and with no failure pending, three failures in a row halve the
  -- concurrency limit, but not below 2, and two leave it as it is.
  pub record_all-failures :
      (s : Scheduler P)
      → s.consecutive_fail ≡ 0
      → InBounds s
      → ((record_all (false ∷ false ∷ false ∷ []) s).max_inflight ≡ max 2 (s.max_inflight / 2))
        × ((record_all (false ∷ false ∷ []) s).max_inflight ≡ s.max_inflight)
  unfolding record_all record_outcome slide back_off
  record_all-failures s e v = ground arith
