-- ===== src/Scheduler/Congestion.antt =====
-- internal/scheduler/scheduler.go: the state, the setters, and the congestion control.
pub mod Bounds
use music_p2p.Prelude.{
  ℕ, suc, ◌+◌, ◌*◌, ◌/◌, Bool, true, false, not, String, List, [], ◌∷◌, ◌++◌, length, drop, ltb,
  leb, if◌then◌else◌, ℕ_discrete,
}
use music_p2p.Prelude.Assoc.{contains, add, remove}

abbrev pub initial_max_inflight : ℕ
initial_max_inflight = 8

abbrev pub min_max_inflight : ℕ
min_max_inflight = 2

abbrev pub max_max_inflight : ℕ
max_max_inflight = 32

abbrev pub congestion_window : ℕ
congestion_window = 20

-- `chunk_peers` and `failed` are read only by index: a missing key reads as the empty list.
pub record Scheduler {ℓ} (P : Type ℓ) : Type ℓ where
  pub cid : String
  pub total_chunks : ℕ
  pub current_pos : ℕ
  pub chunk_peers : ℕ → List P
  pub inflight : List ℕ
  pub completed : List ℕ
  pub failed : ℕ → List P
  pub max_inflight : ℕ
  pub recent_outcomes : List Bool
  pub consecutive_fail : ℕ

-- `m[k] = v`, or `delete(m, k)` where `v` is the empty list.
unfoldable pub update {ℓ} : {V : Type ℓ} → (ℕ → V) → ℕ → V → ℕ → V
unfolding ℕ_discrete
update f k v j = elim (ℕ_discrete k j) [ yes _ ↦ v | no _ ↦ f j ]

unfoldable pub count_true : List Bool → ℕ
count_true [] = 0
count_true (b ∷ bs) = (if b then 1 else 0) + count_true bs

module _ {ℓ} {P : Type ℓ} where
  unfoldable pub new : Scheduler P
  new = record {
    cid = "";
    total_chunks = 0;
    current_pos = 0;
    chunk_peers = λ i. [];
    inflight = [];
    completed = [];
    failed = λ i. [];
    max_inflight = initial_max_inflight;
    recent_outcomes = [];
    consecutive_fail = 0;
  }

  unfoldable pub set_cid : String → Scheduler P → Scheduler P
  set_cid cid s = record s { cid = cid }

  unfoldable pub set_total_chunks : ℕ → Scheduler P → Scheduler P
  set_total_chunks n s = record s { total_chunks = n }

  unfoldable pub set_current_position : ℕ → Scheduler P → Scheduler P
  set_current_position at s = record s { current_pos = at }

  unfoldable pub set_available_chunks : (ℕ → List P) → Scheduler P → Scheduler P
  set_available_chunks chunk_peers s = record s { chunk_peers = chunk_peers }

  -- The first lines of `recordOutcome`: the sliding window.
  unfoldable pub slide : Bool → Scheduler P → Scheduler P
  slide success s =
      let appended = s.recent_outcomes ++ success ∷ [] in
      record s {
        recent_outcomes =
            if ltb congestion_window (length appended) then drop 1 appended else appended;
      }

  -- The branch `!success`.
  unfoldable pub back_off : Scheduler P → Scheduler P
  back_off s =
      let halved = s.max_inflight / 2 in
      if leb 3 (s.consecutive_fail + 1)
      then record s {
        max_inflight = if ltb halved min_max_inflight then min_max_inflight else halved;
        consecutive_fail = 0;
      }
      else record s { consecutive_fail = s.consecutive_fail + 1 }

  -- The rest. `float64(successCount)/20 >= 0.9` holds exactly from 18 of 20 on.
  unfoldable pub ramp_up : Scheduler P → Scheduler P
  unfolding count_true
  ramp_up s =
      let calm = record s { consecutive_fail = 0 } in
      if leb congestion_window (length s.recent_outcomes)
      then (if leb (9 * congestion_window) (10 * count_true s.recent_outcomes)
          then (if ltb s.max_inflight max_max_inflight
              then record calm { max_inflight = s.max_inflight + 1 }
              else calm)
          else calm)
      else calm

  unfoldable pub record_outcome : Bool → Scheduler P → Scheduler P
  unfolding slide back_off ramp_up
  record_outcome success s =
      let windowed = slide success s in if success then ramp_up windowed else back_off windowed

  unfoldable pub mark_completed : ℕ → Scheduler P → Scheduler P
  unfolding record_outcome
  mark_completed index s = record_outcome true (record s {
    inflight = remove ℕ_discrete index s.inflight;
    completed = add ℕ_discrete index s.completed;
  })

  unfoldable pub mark_failed : Discrete P → ℕ → P → Scheduler P → Scheduler P
  unfolding record_outcome update
  mark_failed dec index p s = record_outcome false (record s {
    inflight = remove ℕ_discrete index s.inflight;
    failed = update s.failed index (add dec p (s.failed index));
  })

  unfoldable pub is_completed : ℕ → Scheduler P → Bool
  is_completed index s = contains ℕ_discrete index s.completed

  unfoldable pub reset_to : ℕ → Scheduler P → Scheduler P
  reset_to at s = record s { current_pos = at; inflight = [] }
