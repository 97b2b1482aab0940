-- ===== src/Audio/Sessions.antt =====
-- internal/audio/player.go: no channel is closed twice, and `Stop` ends what plays.
use music_p2p.Prelude.{
  ◌∙◌, ℕ, zero, suc, ◌≤◌, ◌≡◌, refl, inl, inr, Bool, true, false, List, [], ◌∷◌, Option, none, some,
  arith, All, Option-cases,
}
use music_p2p.Audio.{
  Decoder, Session, Player, new_player, play, set_next, stop, pull_session, pull_at, pull_from,
  finish, return_at,
}

-- What the players' users, the speaker and the goroutines do, in any order.
pub data Call (Stream : Type 0) : Type 0 where
  plays sets : Option Stream → Call Stream
  pulls : ℕ → ℕ → Call Stream
  returns : ℕ → Call Stream
  stops : Call Stream

module _ {Stream Sample : Type 0} (d : Decoder Stream Sample) where
  unfoldable pub step : Call Stream → Player Stream → Player Stream
  step (plays s) p = play s p
  step (sets s) p = set_next s p
  step (pulls i k) p = pull_from d i k p
  step (returns i) p = finish i p
  step stops p = stop p

  pub run : List (Call Stream) → Player Stream → Player Stream
  run [] p = p
  run (c ∷ cs) p = run cs (step c p)

module _ {Stream : Type 0} where
  abbrev pub ClosedOnce : Session Stream → Type 0
  ClosedOnce x = x.closed_stop ≤ 1

  -- Unless `stopOnce` was used, the channel of the newest session, which `Stop` closes, is open.
  abbrev pub IsOpen : Bool → List (Session Stream) → Type 0
  IsOpen stop_done [] = Unit {0}
  IsOpen stop_done (x ∷ xs) = stop_done ≡ false → x.closed_stop ≡ 0

  abbrev pub IsValid : Bool → List (Session Stream) → Type 0
  IsValid stop_done xs = All ClosedOnce xs × IsOpen stop_done xs

  return_at-ClosedOnce :
      (i : ℕ) (xs ys : List (Session Stream))
      → return_at i xs ≡ some ys
      → All ClosedOnce xs
      → All ClosedOnce ys
  unfolding return_at
  return_at-ClosedOnce i [] ys e h = cc
  return_at-ClosedOnce zero (x ∷ xs) ys e h = ground (arith, e, h)
  return_at-ClosedOnce (suc i) (x ∷ xs) ys e h = elim (Option-cases (return_at i xs)) [
    | inl f ↦ ground (arith, e, f)
    | inr (zs, f) ↦ ground (arith, e, f, h, return_at-ClosedOnce i xs zs f h.1)
  ]

  return_at-IsOpen :
      (i : ℕ) (o : Bool) (xs ys : List (Session Stream))
      → return_at i xs ≡ some ys
      → IsOpen o xs
      → IsOpen o ys
  unfolding return_at
  return_at-IsOpen i o [] ys e h = cc
  return_at-IsOpen zero o (x ∷ xs) ys e h = ground (arith, e, h)
  return_at-IsOpen (suc i) o (x ∷ xs) ys e h = ground (arith, e, h)

module _ {Stream Sample : Type 0} (d : Decoder Stream Sample) where
  abbrev player : Bool → Bool → List (Session Stream) → Player Stream
  player playing stop_done xs = record { playing = playing; stop_done = stop_done; sessions = xs }

  pull_session-closed_stop :
      (k : ℕ) (x : Session Stream) → (pull_session d k x).0.closed_stop ≡ x.closed_stop
  unfolding pull_session
  pull_session-closed_stop k x = ground arith

  pull_at-ClosedOnce :
      (i k : ℕ) (xs : List (Session Stream)) → All ClosedOnce xs → All ClosedOnce (pull_at d i k xs)
  unfolding pull_at
  pull_at-ClosedOnce i k [] h = h
  pull_at-ClosedOnce zero k (x ∷ xs) h = (omega (arith, h.0, pull_session-closed_stop k x), h.1)
  pull_at-ClosedOnce (suc i) k (x ∷ xs) h = (h.0, pull_at-ClosedOnce i k xs h.1)

  pull_at-IsOpen :
      (i k : ℕ) (o : Bool) (xs : List (Session Stream)) → IsOpen o xs → IsOpen o (pull_at d i k xs)
  unfolding pull_at
  pull_at-IsOpen i k o [] h = h
  pull_at-IsOpen zero k o (x ∷ xs) h = λ e. pull_session-closed_stop k x ∙ h e
  pull_at-IsOpen (suc i) k o (x ∷ xs) h = h

  step-IsValid :
      (c : Call Stream) (b o : Bool) (xs : List (Session Stream))
      → IsValid o xs
      → let p = step d c (player b o xs) in IsValid p.stop_done p.sessions
  unfolding step play set_next stop pull_from finish
  step-IsValid (plays none) b o xs h = h
  step-IsValid (plays (some s)) b o xs h = ((omega arith, h.0), λ e. refl)
  step-IsValid (sets none) b o xs h = h
  step-IsValid (sets (some s)) b o [] h = h
  step-IsValid (sets (some s)) b o (x ∷ xs) h = h
  step-IsValid (pulls i k) b o xs h = (pull_at-ClosedOnce i k xs h.0, pull_at-IsOpen i k o xs h.1)
  step-IsValid (returns i) b o xs h = elim (Option-cases (return_at i xs)) [
    | inl e ↦ rw (e, finish) h
    | inr (ys, e) ↦
        rw (e, finish) (return_at-ClosedOnce i xs ys e h.0, return_at-IsOpen i o xs ys e h.1)
  ]
  step-IsValid stops true false [] h = (tt, tt)
  step-IsValid stops true false (x ∷ xs) h = ((omega (arith, h.1 refl), h.0.1), λ e. cc)
  step-IsValid stops true true xs h = h
  step-IsValid stops false o xs h = h

  run-IsValid :
      (cs : List (Call Stream)) (p : Player Stream)
      → IsValid p.stop_done p.sessions
      → IsValid (run d cs p).stop_done (run d cs p).sessions
  unfolding run
  run-IsValid [] p h = h
  run-IsValid (c ∷ cs) p h =
      run-IsValid cs (step d c p) (step-IsValid c p.playing p.stop_done p.sessions h)

  -- After any calls of the player, pulls of the speaker and returns of its goroutines, in any order, no
  -- `stopCh` was closed more than once: `Stop` can be called at any time and any number of times.
  pub run-ClosedOnce : (cs : List (Call Stream)) → All ClosedOnce (run d cs new_player).sessions
  unfolding new_player
  run-ClosedOnce cs = (run-IsValid cs new_player (tt, tt)).0
