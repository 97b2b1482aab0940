-- ===== src/Node/Preload/Pulls.antt =====
-- cmd/node/main.go: the pulls from a session that plays one track, or is over.
use music_p2p.Prelude.{
  ℕ, ◌≡◌, ◌≢◌, refl, ap, ◌∙◌, ◌⊎◌, inl, inr, true, false, List, [], ◌∷◌, ◌++◌, none, some,
  if◌then◌else◌, arith, Bool-cases,
}
use music_p2p.Audio.{
  Decoder, GaplessStreamer, Session, Player, pull_session, stream, stream_from, switch,
}
use music_p2p.Node.Preload.Sessions.{session_of-update_session, Keeps}
use music_p2p.Node.Preload.Stages.{IsOver, IsFirst}
use music_p2p.Node.Preload.{session_of, pulls, pull_id, pulled}

module _ {Stream Sample : Type 0} (d : Decoder Stream Sample) where
  abbrev pub pulled_session : ℕ → Session Stream → Session Stream
  pulled_session k x = (pull_session d k x).0

  pub pull_id-other :
      (n m k : ℕ) (p : Player Stream) → m ≢ n → Keeps n p.sessions (pull_id d m k p).sessions
  unfolding pull_id
  pull_id-other n m k p h x e = (
    x,
    ground (arith, h, session_of-update_session n m (pulled_session k) p.sessions {x = x} e),
    refl,
  )

  pull_id_self :
      (n k : ℕ) (p : Player Stream) (x : Session Stream)
      → session_of n p.sessions ≡ some x
      → session_of n (pull_id d n k p).sessions ≡ some (pulled_session k x)
  unfolding pull_id
  pull_id_self n k p x e =
      ground (arith, session_of-update_session n n (pulled_session k) p.sessions {x = x} e)

  pulled_session-streamer :
      (k : ℕ) (x : Session Stream) → (pulled_session k x).streamer ≡ (stream d k x.streamer).0
  unfolding pull_session
  pulled_session-streamer k x = ground arith

  pull_session-samples :
      (k : ℕ) (x : Session Stream) → (pull_session d k x).1 ≡ (stream d k x.streamer).1.0
  unfolding pull_session
  pull_session-samples k x = ground arith

  -- The samples of a stream that is played alone, by the lengths of the pulls, up to its end.
  abbrev pub alone : List ℕ → Stream → List Sample
  alone [] cur = []
  alone (k ∷ ks) cur =
      let (cur', (xs, more)) = d.pull k cur in
      let later = alone ks cur' in if more then xs ++ later else []

  abbrev pub first : Stream → GaplessStreamer Stream
  first cur = record { current = some cur; following = none; done = false }

  stream-first :
      (k : ℕ) (cur : Stream)
      → ((d.pull k cur).1.1 ≡ true)
          × (stream d k (first cur) ≡ (first (d.pull k cur).0, ((d.pull k cur).1.0, true)))
        ⊎ ((d.pull k cur).1.1 ≡ false)
          × (stream d k (first cur)
              ≡ (record { current = none; following = none; done = true }, ([], false)))
  unfolding stream stream_from switch
  stream-first k cur = elim (Bool-cases (d.pull k cur).1.1) [
    | inl e ↦ inl (e, rw (e, stream_from))
    | inr e ↦ inr (e, rw (e, stream_from))
  ]

  stream-none :
      (k : ℕ) (g : GaplessStreamer Stream) → g.current ≡ none → stream d k g ≡ (g, ([], false))
  unfolding stream
  stream-none k g h = ground (arith, h)

  pub pulled-other : (n m k : ℕ) (p : Player Stream) → m ≢ n → pulled d n (pulls m k) p ≡ []
  unfolding pulled
  pulled-other n m k p h = ground arith

  pulled_self :
      (n k : ℕ) (p : Player Stream) (x : Session Stream)
      → session_of n p.sessions ≡ some x
      → pulled d n (pulls n k) p ≡ (stream d k x.streamer).1.0
  unfolding pulled
  pulled_self n k p x e = ground (arith, e, pull_session-samples k x)

  -- A session that is over gives no sample.
  pub pulled-IsOver :
      (n k : ℕ) (p : Player Stream)
      → IsOver n p
      → (pulled d n (pulls n k) p ≡ []) × IsOver n (pull_id d n k p)
  pulled-IsOver n k p (x, e, o) =
      let out = stream-none k x.streamer o in
      (
        pulled_self n k p x e ∙ ap (λ r. r.1.0) out,
        (
          pulled_session k x,
          pull_id_self n k p x e,
          ap (λ (g : GaplessStreamer Stream). g.current)
                (pulled_session-streamer k x ∙ ap (λ r. r.0) out)
              ∙ o,
        ),
      )

  -- One pull from a session that plays `cur`: it goes on, or it is over.
  pub pulled-IsFirst :
      (n k : ℕ) (cur : Stream) (p : Player Stream)
      → IsFirst n cur p
      → ((d.pull k cur).1.1 ≡ true)
          × (pulled d n (pulls n k) p ≡ (d.pull k cur).1.0)
          × IsFirst n (d.pull k cur).0 (pull_id d n k p)
        ⊎ ((d.pull k cur).1.1 ≡ false)
          × (pulled d n (pulls n k) p ≡ [])
          × IsOver n (pull_id d n k p)
  pulled-IsFirst n k cur p (x, e, o) = elim (stream-first k cur) [
    | inl (more, out) ↦
        let out' = ap (stream d k) o ∙ out in
        inl (
          more,
          pulled_self n k p x e ∙ ap (λ r. r.1.0) out',
          (
            pulled_session k x,
            pull_id_self n k p x e,
            pulled_session-streamer k x ∙ ap (λ r. r.0) out',
          ),
        )
    | inr (ends, out) ↦
        let out' = ap (stream d k) o ∙ out in
        inr (
          ends,
          pulled_self n k p x e ∙ ap (λ r. r.1.0) out',
          (
            pulled_session k x,
            pull_id_self n k p x e,
            ap (λ (g : GaplessStreamer Stream). g.current)
                (pulled_session-streamer k x ∙ ap (λ r. r.0) out'),
          ),
        )
  ]

  pub alone-more :
      (k : ℕ) (ks : List ℕ) (cur : Stream)
      → (d.pull k cur).1.1 ≡ true
      → alone (k ∷ ks) cur ≡ (d.pull k cur).1.0 ++ alone ks (d.pull k cur).0
  alone-more k ks cur e = rw e refl

  pub alone-ends :
      (k : ℕ) (ks : List ℕ) (cur : Stream) → (d.pull k cur).1.1 ≡ false → alone (k ∷ ks) cur ≡ []
  alone-ends k ks cur e = rw e refl
