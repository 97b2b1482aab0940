-- ===== src/Node/Preload/Stages.antt =====
-- cmd/node/main.go: a session and the goroutine that waits for its end, as the player goes on.
use music_p2p.Prelude.{
  ℕ, ◌≡◌, ◌≢◌, refl, ap, ◌∙◌, ◌⊎◌, inl, inr, Bool, false, List, [], ◌∷◌, Option, none, some,
  ℕ_discrete, arith,
}
use music_p2p.Queue.{Queue}
use music_p2p.Audio.{GaplessStreamer, Session, Player, set_following}
use music_p2p.Node.Preload.Sessions.{session_of-update_session, Keeps}
use music_p2p.Node.Preload.{
  session_of, Stage, spawned, waiting, starting, setting, returned, cancel, await_done, follow,
  set_next_of, advance, Step, pulls,
}

-- The goroutine waits for the session, or it was cancelled.
abbrev pub Waits : ℕ → Stage → Type 0
Waits n g = (g ≡ waiting n) ⊎ (g ≡ returned)

pub cancel-Waits : (n : ℕ) (g : Stage) → Waits n g → Waits n (cancel g)
unfolding cancel
cancel-Waits n g (inl w) = rw w (inr refl)
cancel-Waits n g (inr w) = rw w (inr refl)

-- The pulls from a session, in order.
unfoldable pub pulls_of : {Stream : Type 0} → ℕ → List (Step Stream) → List ℕ
pulls_of n [] = []
pulls_of n (pulls m k ∷ cs) = elim (ℕ_discrete m n) [
  | yes _ ↦ k ∷ pulls_of n cs
  | no _ ↦ pulls_of n cs
]
pulls_of n (_ ∷ cs) = pulls_of n cs

module _ {Stream : Type 0} where
  pub pulls_of-other :
      (n m k : ℕ) (cs : List (Step Stream)) → m ≢ n → pulls_of n (pulls m k ∷ cs) ≡ pulls_of n cs
  unfolding pulls_of
  pulls_of-other n m k cs h = ground arith

  pub pulls_of_self :
      (n k : ℕ) (cs : List (Step Stream)) → pulls_of n (pulls n k ∷ cs) ≡ k ∷ pulls_of n cs
  unfolding pulls_of
  pulls_of_self n k cs = ground arith

  -- The session has nothing left to play.
  abbrev pub IsOver : ℕ → Player Stream → Type 0
  IsOver n p =
      (x : Session Stream) × (session_of n p.sessions ≡ some x) × (x.streamer.current ≡ none)

  -- The session plays `cur`, and nothing is set to follow.
  abbrev pub IsFirst : ℕ → Stream → Player Stream → Type 0
  IsFirst n cur p =
      (x : Session Stream) × (session_of n p.sessions ≡ some x)
      × (x.streamer ≡ record { current = some cur; following = none; done = false })

  pub Keeps-IsOver :
      (n : ℕ) (p r : Player Stream) → Keeps n p.sessions r.sessions → IsOver n p → IsOver n r
  Keeps-IsOver n p r k (x, e, o) =
      let (y, f, same) = k x e in (y, f, ap (λ (g : GaplessStreamer Stream). g.current) same ∙ o)

  pub Keeps-IsFirst :
      (n : ℕ) (cur : Stream) (p r : Player Stream)
      → Keeps n p.sessions r.sessions
      → IsFirst n cur p
      → IsFirst n cur r
  Keeps-IsFirst n cur p r k (x, e, o) = let (y, f, same) = k x e in (y, f, same ∙ o)

  -- `SetNext` on a session that is over leaves it over.
  set_next_of-IsOver :
      (n m : ℕ) (decoded : Option Stream) (p : Player Stream)
      → IsOver n p
      → IsOver n (set_next_of decoded m p)
  unfolding set_next_of set_following
  set_next_of-IsOver n m none p o = o
  set_next_of-IsOver n m (some s) p (x, e, o) = elim (ℕ_discrete m n) [
    | yes q ↦ (
      follow s x,
      ground (arith, q, session_of-update_session n m (follow s) p.sessions {x = x} e),
      o,
    )
    | no q ↦
        (x, ground (arith, q, session_of-update_session n m (follow s) p.sessions {x = x} e), o)
  ]

  pub advance-IsOver :
      (n : ℕ) (q : Queue) (started : Bool) (decoded : Option Stream) (g : Stage) (p : Player Stream)
      → IsOver n p
      → IsOver n (advance q started decoded g p).1
  unfolding advance
  advance-IsOver n q started decoded spawned p o = o
  advance-IsOver n q started decoded (waiting m) p o = o
  advance-IsOver n q started decoded (starting item) p o = o
  advance-IsOver n q started decoded (setting m item) p o = set_next_of-IsOver n m decoded p o
  advance-IsOver n q started decoded returned p o = o

  await_done-IsFirst :
      (n : ℕ) (cur : Stream) (q : Queue) (p : Player Stream)
      → IsFirst n cur p
      → await_done q n p ≡ waiting n
  unfolding await_done
  await_done-IsFirst n cur q p (x, e, o) =
      rw (e, await_done, ap (λ (g : GaplessStreamer Stream). g.done) o)

  pub advance-Waits :
      (n : ℕ) (cur : Stream) (q : Queue) (started : Bool) (decoded : Option Stream) (g : Stage)
      (p : Player Stream)
      → IsFirst n cur p
      → Waits n g
      → Waits n (advance q started decoded g p).0 × ((advance q started decoded g p).1 ≡ p)
  unfolding advance
  advance-Waits n cur q started decoded g p o (inl w) =
      rw w (inl (await_done-IsFirst n cur q p o), refl)
  advance-Waits n cur q started decoded g p o (inr w) = rw w (inr refl, refl)
