-- ===== src/Streaming/Session/Kept.antt =====
-- internal/streaming/engine.go: what the steps of a session do to one chunk that is complete and not
-- buffered.
use music_p2p.Prelude.{
  All-take, All-drop, leb, ℕ, suc, ◌≡◌, ◌≢◌, Bool, true, false, ◌&&◌, List, none, take, drop, All,
  All-append, arith, ℕ_discrete,
}
use music_p2p.Prelude.Assoc.{contains, add, remove, contains-add, lookup, lookup-insert}
use music_p2p.Scheduler.Congestion.{
  Scheduler, mark_completed, mark_failed, record_outcome, slide, ramp_up, back_off,
}
use music_p2p.Scheduler.Requests.{ChunkRequest}
use music_p2p.Streaming.Engine.{Engine, accept_chunk, check_done, finish, read, idle, bytes}
use music_p2p.Streaming.Engine.Run.{idle_same}
use music_p2p.Streaming.Session.{without}

pub record_outcome-completed {ℓ} :
    {P : Type ℓ} (b : Bool) (s : Scheduler P) → (record_outcome b s).completed ≡ s.completed
unfolding record_outcome slide ramp_up back_off
record_outcome-completed true s = ground arith
record_outcome-completed false s = ground arith

pub mark_failed-completed {ℓ} :
    {P : Type ℓ} (dec : Discrete P) (i : ℕ) (p : P) (s : Scheduler P)
    → (mark_failed dec i p s).completed ≡ s.completed
unfolding mark_failed
mark_failed-completed dec i p s = record_outcome-completed false _

pub mark_completed-completed {ℓ} :
    {P : Type ℓ} (k i : ℕ) (s : Scheduler P)
    → contains ℕ_discrete k s.completed ≡ true
    → contains ℕ_discrete k (mark_completed i s).completed ≡ true
unfolding mark_completed
mark_completed-completed k i s h =
    let marked = record s {
      inflight = remove ℕ_discrete i s.inflight;
      completed = add ℕ_discrete i s.completed;
    } in
    rw (record_outcome-completed true marked)
      (ground (arith, contains-add ℕ_discrete i k s.completed))

pub accept_chunk-absent :
    (i k : ℕ) (found : List ℕ) (now : ℕ) (e : Engine)
    → i ≢ k
    → (e.next_read ≡ k) × (lookup ℕ_discrete k e.chunks ≡ none)
    → ((accept_chunk i found now e).0.next_read ≡ k)
      × (lookup ℕ_discrete k (accept_chunk i found now e).0.chunks ≡ none)
unfolding accept_chunk
accept_chunk-absent i k found now e n (p, h) =
    ground (arith, lookup-insert ℕ_discrete i k found e.chunks)

pub read-absent :
    (room : ℕ) (e : Engine) → lookup ℕ_discrete e.next_read e.chunks ≡ none → (read room e).0 ≡ e
unfolding read
read-absent room e h = rw (read, h) (idle_same (e.done && leb e.total_chunks e.next_read) e.done e)

pub idle-bytes :
    (at_end done : Bool) (found : List ℕ) (e : Engine) → (idle at_end done e).1 ≢ bytes found
unfolding idle
idle-bytes true done found e h = cc
idle-bytes false true found e h = cc
idle-bytes false false found e h = cc

pub read-bytes :
    (room : ℕ) (found : List ℕ) (e : Engine)
    → lookup ℕ_discrete e.next_read e.chunks ≡ none
    → (read room e).1 ≢ bytes found
unfolding read
read-bytes room found e h =
    rw (read, h) (idle-bytes (e.done && leb e.total_chunks e.next_read) e.done found e)

pub check_done-IsLost :
    (total k : ℕ) (e : Engine)
    → (e.next_read ≡ k) × (lookup ℕ_discrete k e.chunks ≡ none)
    → ((check_done total e).next_read ≡ k)
      × (lookup ℕ_discrete k (check_done total e).chunks ≡ none)
unfolding check_done finish
check_done-IsLost total k e h = ground (arith, h)

pub without-not_pending {ℓ} :
    {P : Type ℓ} (k n : ℕ) (rs : List (ChunkRequest P))
    → All (λ r. r.index ≢ k) rs
    → All (λ r. r.index ≢ k) (without n rs)
without-not_pending k n rs h =
    All-append (λ q. q.index ≢ k) (take n rs) (drop (suc n) rs) (All-take _ n rs h)
      (All-drop _ (suc n) rs h)
