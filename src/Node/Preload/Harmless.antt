-- ===== src/Node/Preload/Harmless.antt =====
-- cmd/node/main.go: where the goroutine can stand while a session plays, so that it does not reach it.
use music_p2p.Prelude.{
  ℕ, ◌<◌, ◌≡◌, ◌≢◌, refl, sym, ap, ◌⊎◌, inl, inr, Bool, true, false, List, [], ◌∷◌, Option, none,
  some, length, ℕ_discrete, arith, Bool-cases, Option-cases, subst,
}
use music_p2p.Queue.{Item, Queue, peek}
use music_p2p.Audio.{Session, Player}
use music_p2p.Node.Preload.Sessions.{Keeps, session_of-lt, session_of-update_session}
use music_p2p.Node.Preload.Stages.{Waits, cancel-Waits, IsFirst, advance-Waits}
use music_p2p.Node.Preload.{
  session_of, Stage, spawned, waiting, starting, setting, returned, preload_next, cancel, peek_next,
  await_done, start_next, follow, set_next_of, advance,
}

-- The goroutine is not about to set a next track in the session.
abbrev pub IsElsewhere : ℕ → Stage → Type 0
IsElsewhere n (setting m item) = m ≢ n
IsElsewhere n _ = Unit {0}

cancel-IsElsewhere : (n : ℕ) (g : Stage) → IsElsewhere n g → IsElsewhere n (cancel g)
unfolding cancel
cancel-IsElsewhere n spawned h = tt
cancel-IsElsewhere n (waiting m) h = tt
cancel-IsElsewhere n (starting item) h = tt
cancel-IsElsewhere n (setting m item) h = h
cancel-IsElsewhere n returned h = tt

peek_next-IsElsewhere : (n : ℕ) (q : Queue) → IsElsewhere n (peek_next q)
unfolding peek_next
peek_next-IsElsewhere n q = elim (Bool-cases (peek q).1) [
  | inl e ↦ rw (e, peek_next) tt
  | inr e ↦ rw (e, peek_next) tt
]

module _ {Stream : Type 0} where
  -- There is a session after the one.
  abbrev pub IsFollowed : ℕ → Player Stream → Type 0
  IsFollowed n p = (m : ℕ) × (x : Session Stream) × (n < m) × (session_of m p.sessions ≡ some x)

  abbrev pub IsHarmless : ℕ → Player Stream → Stage → Type 0
  IsHarmless n p g = (g ≡ spawned) ⊎ (Waits n g ⊎ (IsFollowed n p × IsElsewhere n g))

  -- No session goes away.
  abbrev pub Stays : Player Stream → Player Stream → Type 0
  Stays p r =
      (m : ℕ) (x : Session Stream)
      → session_of m p.sessions ≡ some x
      → (y : Session Stream) × (session_of m r.sessions ≡ some y)

  pub Keeps-Stays : (p r : Player Stream) → ((m : ℕ) → Keeps m p.sessions r.sessions) → Stays p r
  Keeps-Stays p r k m x e = let (y, f, _) = k m x e in (y, f)

  pub Stays-IsHarmless :
      (n : ℕ) (p r : Player Stream) (g : Stage) → Stays p r → IsHarmless n p g → IsHarmless n r g
  Stays-IsHarmless n p r g k (inl w) = inl w
  Stays-IsHarmless n p r g k (inr (inl w)) = inr (inl w)
  Stays-IsHarmless n p r g k (inr (inr ((m, x, l, e), safe))) =
      let (y, f) = k m x e in inr (inr ((m, y, l, f), safe))

  pub cancel-IsHarmless :
      (n : ℕ) (p : Player Stream) (g : Stage) → IsHarmless n p g → IsHarmless n p (cancel g)
  unfolding cancel
  cancel-IsHarmless n p g (inl w) = rw w (inl refl)
  cancel-IsHarmless n p g (inr (inl w)) = inr (inl (cancel-Waits n g w))
  cancel-IsHarmless n p g (inr (inr (later, safe))) = inr (inr (later, cancel-IsElsewhere n g safe))

  -- It reads the `doneCh` of the session or of a later one.
  preload_next-IsHarmless :
      (n : ℕ) (b o : Bool) (xs : List (Session Stream)) {x : Session Stream}
      → session_of n xs ≡ some x
      → let p : Player Stream = record { playing = b; stop_done = o; sessions = xs } in
        IsHarmless n p (preload_next p)
  unfolding preload_next session_of
  preload_next-IsHarmless n b o [] e = inr (inl (inr refl))
  preload_next-IsHarmless n b o (y ∷ xs) {x} e = elim (ℕ_discrete (length xs) n) [
    | yes q ↦ inr (inl (inl (ap waiting q)))
    | no q ↦ inr (
        inr
          ((length xs, y, omega (arith, q, session_of-lt n (y ∷ xs) {x = x} e), ground arith), tt))
  ]

  await_done-IsElsewhere :
      (n m : ℕ) (q : Queue) (p : Player Stream) → IsElsewhere n (await_done q m p)
  unfolding await_done
  await_done-IsElsewhere n m q p = elim (Option-cases (session_of m p.sessions)) [
    | inl e ↦ rw (e, await_done) tt
    | inr (x, e) ↦ elim (Bool-cases x.streamer.done) [
      | inl f ↦ rw (e, f, await_done) (peek_next-IsElsewhere n q)
      | inr f ↦ rw (e, f, await_done) tt
    ]
  ]

  start_next-IsElsewhere :
      (n : ℕ) (started : Bool) (item : Item) (b o : Bool) (xs : List (Session Stream))
      → let p : Player Stream = record { playing = b; stop_done = o; sessions = xs } in
        IsFollowed n p → IsElsewhere n (start_next started item p)
  unfolding start_next
  start_next-IsElsewhere n false item b o xs f = tt
  start_next-IsElsewhere n true item b o [] f = tt
  start_next-IsElsewhere n true item b o (y ∷ xs) (m, x, l, e) =
      λ q. omega (arith, q, l, session_of-lt m (y ∷ xs) {x = x} e)

  set_next_of-Stays :
      (m : ℕ) (decoded : Option Stream) (p : Player Stream) → Stays p (set_next_of decoded m p)
  unfolding set_next_of
  set_next_of-Stays m none p j x e = (x, e)
  set_next_of-Stays m (some s) p j x e =
      (_, session_of-update_session j m (follow s) p.sessions {x = x} e)

  set_next_of-IsFirst :
      (n m : ℕ) (cur : Stream) (decoded : Option Stream) (p : Player Stream)
      → m ≢ n
      → IsFirst n cur p
      → IsFirst n cur (set_next_of decoded m p)
  unfolding set_next_of
  set_next_of-IsFirst n m cur none p h o = o
  set_next_of-IsFirst n m cur (some s) p h (x, e, o) =
      (x, ground (arith, h, session_of-update_session n m (follow s) p.sessions {x = x} e), o)

  advance-IsFollowed :
      (n : ℕ) (cur : Stream) (q : Queue) (started : Bool) (decoded : Option Stream) (g : Stage)
      (p : Player Stream)
      → IsFirst n cur p
      → IsFollowed n p
      → IsElsewhere n g
      → IsHarmless n (advance q started decoded g p).1 (advance q started decoded g p).0
        × IsFirst n cur (advance q started decoded g p).1
  unfolding advance
  advance-IsFollowed n cur q started decoded spawned p (x, e, o) f h =
      (preload_next-IsHarmless n p.playing p.stop_done p.sessions {x = x} e, (x, e, o))
  advance-IsFollowed n cur q started decoded (waiting m) p o f h =
      (inr (inr (f, await_done-IsElsewhere n m q p)), o)
  advance-IsFollowed n cur q started decoded (starting item) p o f h =
      (inr (inr (f, start_next-IsElsewhere n started item p.playing p.stop_done p.sessions f)), o)
  advance-IsFollowed n cur q started decoded (setting m item) p o f h =
      (inr (inl (inr refl)), set_next_of-IsFirst n m cur decoded p h o)
  advance-IsFollowed n cur q started decoded returned p o f h = (inr (inl (inr refl)), o)

  -- A step of the goroutine leaves a session that plays as it is.
  pub advance-IsHarmless :
      (n : ℕ) (cur : Stream) (q : Queue) (started : Bool) (decoded : Option Stream) (g : Stage)
      (p : Player Stream)
      → IsFirst n cur p
      → IsHarmless n p g
      → IsHarmless n (advance q started decoded g p).1 (advance q started decoded g p).0
        × IsFirst n cur (advance q started decoded g p).1
  unfolding advance
  advance-IsHarmless n cur q started decoded g p (x, e, o) (inl w) =
      rw w (preload_next-IsHarmless n p.playing p.stop_done p.sessions {x = x} e, (x, e, o))
  advance-IsHarmless n cur q started decoded g p o (inr (inl w)) =
      let (w', same) = advance-Waits n cur q started decoded g p o w in
      (inr (inl w'), subst (IsFirst n cur) (sym same) o)
  advance-IsHarmless n cur q started decoded g p o (inr (inr (f, h))) =
      advance-IsFollowed n cur q started decoded g p o f h
