-- ===== src/Streaming/Engine/Run.antt =====
-- internal/streaming/engine.go: a whole stream, as the sequence of the critical sections that the
-- download goroutines, the download loop and the reader enter. `Seek` is not among them.
pub mod Arrivals
pub mod Reads
use music_p2p.Prelude.{
  ◌-◌, ℕ, zero, suc, ◌+◌, ◌≤◌, ◌<◌, ◌≡◌, ◌≢◌, refl, sym, ap, ◌∙◌, Bool, true, false, ◌&&◌, String,
  List, [], ◌∷◌, ◌++◌, none, some, length, append_assoc, append-nil, arith, All, ℕ_discrete, ltb,
  leb, Bool-cases, Option-cases, inl, inr,
}
use music_p2p.Prelude.Assoc.{lookup}
use music_p2p.Prelude.Keys.{length-le, length-lt}
use music_p2p.Streaming.Engine.{
  Engine, start, accept_chunk, check_done, finish, read, idle, read_chunk, delivered, ReadResult,
  bytes, eof, missing, waits,
}
use music_p2p.Streaming.Engine.Buffer.{bytes_upto, IsBuffer}
use music_p2p.Streaming.Engine.Buffer.Steps.{
  start-IsBuffer, accept_chunk-IsBuffer, check_done-IsBuffer, read-IsBuffer,
}

pub data Call : Type 0 where
  accepts : ℕ → List ℕ → ℕ → Call
  checks : Call
  reads : ℕ → Call

-- One critical section, with the bytes that the reader has by then.
unfoldable pub step : ℕ → Engine × List ℕ → Call → Engine × List ℕ
step total (e, out) (accepts index found now) = ((accept_chunk index found now e).0, out)
step total (e, out) checks = (check_done total e, out)
step total (e, out) (reads room) = ((read room e).0, out ++ delivered (read room e).1)

unfoldable pub run : ℕ → Engine × List ℕ → List Call → Engine × List ℕ
run total s [] = s
run total s (c ∷ cs) = run total (step total s c) cs

-- The chunks that arrive are those of `track`.
abbrev pub IsFrom : (ℕ → List ℕ) → ℕ → Call → Type 0
IsFrom track total (accepts index found now) = (index < total) × (found ≡ track index)
IsFrom track total checks = Unit {0}
IsFrom track total (reads room) = Unit {0}

-- The stream of `track` after `cs`.
abbrev pub stream : String → ℕ → ℕ → Engine → List Call → Engine × List ℕ
stream cid total now e cs = run total (start cid total now e, []) cs

accept_chunk-total_chunks :
    (i : ℕ) (found : List ℕ) (now : ℕ) (e : Engine)
    → (accept_chunk i found now e).0.total_chunks ≡ e.total_chunks
unfolding accept_chunk
accept_chunk-total_chunks i found now e = ground arith

check_done-total_chunks :
    (total : ℕ) (e : Engine) → (check_done total e).total_chunks ≡ e.total_chunks
unfolding check_done finish
check_done-total_chunks total e = ground arith

read_chunk-total_chunks :
    (room : ℕ) (found : List ℕ) (e : Engine)
    → (read_chunk room found e).0.total_chunks ≡ e.total_chunks
unfolding read_chunk
read_chunk-total_chunks room found e = ground arith

pub idle_same : (at_end done : Bool) (e : Engine) → (idle at_end done e).0 ≡ e
unfolding idle
idle_same true done e = refl
idle_same false true e = refl
idle_same false false e = refl

read-total_chunks : (room : ℕ) (e : Engine) → (read room e).0.total_chunks ≡ e.total_chunks
unfolding read
read-total_chunks room e = elim (Option-cases (lookup ℕ_discrete e.next_read e.chunks)) [
  | inr (found, h) ↦ rw (read, h) (read_chunk-total_chunks room found e)
  | inl h ↦
      rw (read, h)
        (ap (λ r. r.total_chunks) (idle_same (e.done && leb e.total_chunks e.next_read) e.done e))
]

module _ (track : ℕ → List ℕ) (total : ℕ) where
  -- The buffer is right for what was read, and for this total.
  abbrev pub IsStream : Engine × List ℕ → Type 0
  IsStream s = IsBuffer track s.1 s.0 × (s.0.total_chunks ≡ total)

  step-IsStream :
      (s : Engine × List ℕ) (c : Call)
      → IsStream s
      → IsFrom track total c
      → IsStream (step total s c)
  unfolding step
  step-IsStream (e, out) (accepts i found now) (b, p) (q, r) = (
    rw r (accept_chunk-IsBuffer track out i now e b (rw p q)),
    accept_chunk-total_chunks i found now e ∙ p,
  )
  step-IsStream (e, out) checks (b, p) u =
      (rw (← p) (check_done-IsBuffer track out e b), check_done-total_chunks total e ∙ p)
  step-IsStream (e, out) (reads room) (b, p) u =
      (read-IsBuffer track out room e b, read-total_chunks room e ∙ p)

  run-IsStream :
      (s : Engine × List ℕ) (cs : List Call)
      → IsStream s
      → All (IsFrom track total) cs
      → IsStream (run total s cs)
  unfolding run
  run-IsStream s [] i h = i
  run-IsStream s (c ∷ cs) i h = run-IsStream (step total s c) cs (step-IsStream s c i h.0) h.1

  pub stream-IsStream :
      (cid : String) (now : ℕ) (e : Engine) (cs : List Call)
      → All (IsFrom track total) cs
      → IsStream (stream cid total now e cs)
  unfolding start
  stream-IsStream cid now e cs h =
      run-IsStream (start cid total now e, []) cs (start-IsBuffer track cid total now e, refl) h

  -- The pigeonhole: when every chunk has been counted, the one at the read pointer is there.
  pub IsBuffer-at_gap :
      (out : List ℕ) (e : Engine)
      → IsBuffer track out e
      → e.total_chunks ≤ e.received
      → lookup ℕ_discrete e.next_read e.chunks ≡ none
      → e.next_read ≡ e.total_chunks
  IsBuffer-at_gap out e b p h = elim (ℕ_discrete e.next_read e.total_chunks) [
    | yes q ↦ q
    | no q ↦ absurd (
        omega (
          arith,
          b.counted,
          b.within,
          length-lt (e.total_chunks - e.next_read) e.next_read e.total_chunks e.next_read e.chunks
              (omega (arith, b.within)) b.range b.distinct h (omega arith)
              (omega (arith, b.within)),
        ))
  ]
