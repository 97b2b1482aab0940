-- ===== src/Node/Preload/Sessions.antt =====
-- internal/audio/player.go: the sessions by their number, and what leaves the streamer of one as it was.
use music_p2p.Prelude.{
  ℕ, zero, suc, ◌<◌, ◌≡◌, refl, ap, ◌∙◌, inl, inr, Bool, true, false, List, [], ◌∷◌, Option, none,
  some, length, ℕ_discrete, arith, Option-cases, subst,
}
use music_p2p.Audio.{Session, Player, play, stop, finish, return_at}
use music_p2p.Node.Preload.{session_of, update_session}

some_injective : {A : Type 0} {a b : A} → some a ≡ some b → a ≡ b
some_injective e = cc

module _ {Stream : Type 0} where
  pub session_of-lt :
      (n : ℕ) (xs : List (Session Stream)) {x : Session Stream}
      → session_of n xs ≡ some x
      → n < length xs
  unfolding session_of
  session_of-lt n [] e = cc
  session_of-lt n (y ∷ xs) {x} e = elim (ℕ_discrete (length xs) n) [
    | yes p ↦ omega (arith, p)
    | no p ↦ omega (arith, session_of-lt n xs {x = x} (ground (arith, e, p)))
  ]

  length-update_session :
      (n : ℕ) (f : Session Stream → Session Stream) (xs : List (Session Stream))
      → length (update_session n f xs) ≡ length xs
  unfolding update_session
  length-update_session n f [] = refl
  length-update_session n f (x ∷ xs) = ground (arith, length-update_session n f xs)

  -- A session after the update of one.
  pub session_of-update_session :
      (n m : ℕ) (f : Session Stream → Session Stream) (xs : List (Session Stream))
      {x : Session Stream}
      → session_of n xs ≡ some x
      → session_of n (update_session m f xs)
        ≡ some (elim (ℕ_discrete m n) [ yes _ ↦ f x | no _ ↦ x ])
  unfolding session_of update_session
  session_of-update_session n m f [] e = cc
  session_of-update_session n m f (y ∷ xs) {x} e = elim (ℕ_discrete (length xs) n) [
    | yes p ↦
        let same : y ≡ x = some_injective (ground (arith, e, p)) in
        ground (arith, p, ap f same, same, length-update_session m f xs)
    | no p ↦
        let found : session_of n xs ≡ some x = ground (arith, e, p) in
        ground (
          arith,
          p,
          found,
          session_of-update_session n m f xs {x = x} found,
          length-update_session m f xs,
        )
  ]

  -- The streamer of a session is left as it was.
  abbrev pub Keeps : ℕ → List (Session Stream) → List (Session Stream) → Type 0
  Keeps n xs ys =
      (x : Session Stream)
      → session_of n xs ≡ some x
      → (y : Session Stream) × (session_of n ys ≡ some y) × (y.streamer ≡ x.streamer)

  cons-Keeps : (n : ℕ) (y : Session Stream) (xs : List (Session Stream)) → Keeps n xs (y ∷ xs)
  unfolding session_of
  cons-Keeps n y xs x e = (x, ground (arith, e, session_of-lt n xs {x = x} e), refl)

  pub play-Keeps :
      (n : ℕ) (s : Option Stream) (p : Player Stream) → Keeps n p.sessions (play s p).sessions
  unfolding play
  play-Keeps n none p x e = (x, e, refl)
  play-Keeps n (some s) p x e = cons-Keeps n _ p.sessions x e

  head-Keeps :
      (n : ℕ) (y z : Session Stream) (xs : List (Session Stream))
      → z.streamer ≡ y.streamer
      → Keeps n (y ∷ xs) (z ∷ xs)
  unfolding session_of
  head-Keeps n y z xs h x e = elim (ℕ_discrete (length xs) n) [
    | yes p ↦
        let same : y ≡ x = some_injective (ground (arith, e, p)) in
        (z, ground (arith, p), h ∙ ap (λ (w : Session Stream). w.streamer) same)
    | no p ↦ (x, ground (arith, e, p), refl)
  ]

  -- The sessions behind the first one, if their number stays.
  tail-Keeps :
      (n : ℕ) (y : Session Stream) (xs zs : List (Session Stream))
      → length zs ≡ length xs
      → Keeps n xs zs
      → Keeps n (y ∷ xs) (y ∷ zs)
  unfolding session_of
  tail-Keeps n y xs zs l k x e = elim (ℕ_discrete (length xs) n) [
    | yes p ↦ (x, ground (arith, e, p, l), refl)
    | no p ↦ let (z, f, same) = k x (ground (arith, e, p)) in (z, ground (arith, f, p, l), same)
  ]

  pub stop-Keeps :
      (n : ℕ) (b o : Bool) (xs : List (Session Stream))
      → Keeps n xs (stop (record { playing = b; stop_done = o; sessions = xs })).sessions
  unfolding stop
  stop-Keeps n true false [] x e = (x, e, refl)
  stop-Keeps n true false (y ∷ xs) x e = head-Keeps n y _ xs refl x e
  stop-Keeps n true true xs x e = (x, e, refl)
  stop-Keeps n false o xs x e = (x, e, refl)

  length-return_at :
      (i : ℕ) (xs ys : List (Session Stream)) → return_at i xs ≡ some ys → length ys ≡ length xs
  unfolding return_at
  length-return_at i [] ys e = cc
  length-return_at zero (x ∷ xs) ys e = ground (arith, e)
  length-return_at (suc i) (x ∷ xs) ys e = elim (Option-cases (return_at i xs)) [
    | inl f ↦ absurd (ground (arith, e, f))
    | inr (zs, f) ↦ ground (arith, e, f, length-return_at i xs zs f)
  ]

  return_at-Keeps :
      (n i : ℕ) (xs ys : List (Session Stream)) → return_at i xs ≡ some ys → Keeps n xs ys
  unfolding return_at
  return_at-Keeps n i [] ys e = cc
  return_at-Keeps n zero (x ∷ xs) ys e =
      let same : record x { returned = true } ∷ xs ≡ ys = ground (arith, e) in
      subst (Keeps n (x ∷ xs)) same (head-Keeps n x (record x { returned = true }) xs refl)
  return_at-Keeps n (suc i) (x ∷ xs) ys e = elim (Option-cases (return_at i xs)) [
    | inl f ↦ absurd (ground (arith, e, f))
    | inr (zs, f) ↦
        let same : x ∷ zs ≡ ys = ground (arith, e, f) in
        subst (Keeps n (x ∷ xs)) same
          (tail-Keeps n x xs zs (length-return_at i xs zs f) (return_at-Keeps n i xs zs f))
  ]

  pub finish-Keeps : (n i : ℕ) (p : Player Stream) → Keeps n p.sessions (finish i p).sessions
  unfolding finish
  finish-Keeps n i p = elim (Option-cases (return_at i p.sessions)) [
    | inl e ↦ rw (e, finish) (λ x f. (x, f, refl))
    | inr (ys, e) ↦ rw (e, finish) (return_at-Keeps n i p.sessions ys e)
  ]
