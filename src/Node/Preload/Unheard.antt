-- ===== src/Node/Preload/Unheard.antt =====
-- cmd/node/main.go: what `preloadNext` does to the track that it was started for.
use music_p2p.Prelude.{
  ℕ, ◌≡◌, refl, sym, ap, ◌∙◌, inl, inr, false, List, [], ◌∷◌, ◌++◌, some, length, ℕ_discrete, arith,
  subst,
}
use music_p2p.Audio.{Decoder, Session, Player, play, stop, finish}
use music_p2p.Node.Preload.Sessions.{
  session_of-update_session, play-Keeps, stop-Keeps, finish-Keeps,
}
use music_p2p.Node.Preload.Stages.{
  pulls_of, pulls_of-other, pulls_of_self, IsOver, IsFirst, Keeps-IsOver, Keeps-IsFirst,
  advance-IsOver,
}
use music_p2p.Node.Preload.Harmless.{
  IsHarmless, Stays, Keeps-Stays, Stays-IsHarmless, cancel-IsHarmless, advance-IsHarmless,
}
use music_p2p.Node.Preload.{
  session_of, Stage, spawned, cancel, advance, Step, pulls, plays, stops, cancels, returns,
  advances, pull_id, step, pulled, heard,
}
use music_p2p.Node.Preload.Pulls.{
  pulled_session, pull_id-other, pulled-other, pulled-IsOver, pulled-IsFirst, alone-more,
  alone-ends, alone, first,
}

module _ {Stream Sample : Type 0} (d : Decoder Stream Sample) where
  heard-over :
      (n : ℕ) (cs : List (Step Stream)) (g : Stage) (p : Player Stream)
      → IsOver n p
      → heard d n cs (g, p) ≡ []
  unfolding heard pulled step
  heard-over n [] g p o = refl
  heard-over n (pulls m k ∷ cs) g p o = elim (ℕ_discrete m n) [
    | yes q ↦
        let (silent, over) = pulled-IsOver d n k p o in
        subst (λ j. pulled d n (pulls j k) p ++ heard d n cs (g, pull_id d j k p) ≡ []) (sym q)
          (ap (λ ys. ys ++ heard d n cs (g, pull_id d n k p)) silent
            ∙ heard-over n cs g (pull_id d n k p) over)
    | no q ↦
        ap (λ ys. ys ++ heard d n cs (g, pull_id d m k p)) (pulled-other d n m k p q)
        ∙ heard-over n cs g (pull_id d m k p)
            (Keeps-IsOver n p (pull_id d m k p) (pull_id-other d n m k p q) o)
  ]
  heard-over n (plays s ∷ cs) g p o =
      heard-over n cs g (play s p) (Keeps-IsOver n p (play s p) (play-Keeps n s p) o)
  heard-over n (stops ∷ cs) g p o =
      heard-over n cs g (stop p)
        (Keeps-IsOver n p (stop p) (stop-Keeps n p.playing p.stop_done p.sessions) o)
  heard-over n (cancels ∷ cs) g p o = heard-over n cs (cancel g) p o
  heard-over n (returns i ∷ cs) g p o =
      heard-over n cs g (finish i p) (Keeps-IsOver n p (finish i p) (finish-Keeps n i p) o)
  heard-over n (advances q started decoded ∷ cs) g p o =
      heard-over n cs (advance q started decoded g p).0 (advance q started decoded g p).1
        (advance-IsOver n q started decoded g p o)

  pull_id-Stays : (m k : ℕ) (p : Player Stream) → Stays p (pull_id d m k p)
  unfolding pull_id
  pull_id-Stays m k p j x e =
      (_, session_of-update_session j m (pulled_session d k) p.sessions {x = x} e)

  heard-first :
      (n : ℕ) (cs : List (Step Stream)) (cur : Stream) (g : Stage) (p : Player Stream)
      → IsFirst n cur p
      → IsHarmless n p g
      → heard d n cs (g, p) ≡ alone d (pulls_of n cs) cur
  unfolding heard step pulls_of pulled
  heard-first n [] cur g p o w = refl
  heard-first n (pulls m k ∷ cs) cur g p o w = elim (ℕ_discrete m n) [
    | yes q ↦
        subst
          (λ j.
            pulled d n (pulls j k) p ++ heard d n cs (g, pull_id d j k p)
            ≡ alone d (pulls_of n (pulls j k ∷ cs)) cur)
          (sym q)
          (elim (pulled-IsFirst d n k cur p o) [
            | inl (more, out, goes_on) ↦
                ap (λ ys. ys ++ heard d n cs (g, pull_id d n k p)) out
                ∙ ap (λ ys. (d.pull k cur).1.0 ++ ys)
                    (heard-first n cs (d.pull k cur).0 g (pull_id d n k p) goes_on
                      (Stays-IsHarmless n p (pull_id d n k p) g (pull_id-Stays n k p) w))
                ∙ sym (alone-more d k (pulls_of n cs) cur more)
                ∙ ap (λ ks. alone d ks cur) (sym (pulls_of_self n k cs))
            | inr (ends, out, over) ↦
                ap (λ ys. ys ++ heard d n cs (g, pull_id d n k p)) out
                ∙ heard-over n cs g (pull_id d n k p) over
                ∙ sym (alone-ends d k (pulls_of n cs) cur ends)
                ∙ ap (λ ks. alone d ks cur) (sym (pulls_of_self n k cs))
          ])
    | no q ↦
        ap (λ ys. ys ++ heard d n cs (g, pull_id d m k p)) (pulled-other d n m k p q)
        ∙ heard-first n cs cur g (pull_id d m k p)
            (Keeps-IsFirst n cur p (pull_id d m k p) (pull_id-other d n m k p q) o)
            (Stays-IsHarmless n p (pull_id d m k p) g (pull_id-Stays m k p) w)
        ∙ ap (λ ks. alone d ks cur) (sym (pulls_of-other n m k cs q))
  ]
  heard-first n (plays s ∷ cs) cur g p o w =
      heard-first n cs cur g (play s p) (Keeps-IsFirst n cur p (play s p) (play-Keeps n s p) o)
        (Stays-IsHarmless n p (play s p) g (Keeps-Stays p (play s p) (λ j. play-Keeps j s p)) w)
  heard-first n (stops ∷ cs) cur g p o w =
      heard-first n cs cur g (stop p)
        (Keeps-IsFirst n cur p (stop p) (stop-Keeps n p.playing p.stop_done p.sessions) o)
        (Stays-IsHarmless n p (stop p) g
          (Keeps-Stays p (stop p) (λ j. stop-Keeps j p.playing p.stop_done p.sessions)) w)
  heard-first n (cancels ∷ cs) cur g p o w =
      heard-first n cs cur (cancel g) p o (cancel-IsHarmless n p g w)
  heard-first n (returns i ∷ cs) cur g p o w =
      heard-first n cs cur g (finish i p)
        (Keeps-IsFirst n cur p (finish i p) (finish-Keeps n i p) o)
        (Stays-IsHarmless n p (finish i p) g (Keeps-Stays p (finish i p) (λ j. finish-Keeps j i p))
          w)
  heard-first n (advances q started decoded ∷ cs) cur g p o w =
      let (w', o') = advance-IsHarmless n cur q started decoded g p o w in
      heard-first n cs cur (advance q started decoded g p).0 (advance q started decoded g p).1 o' w'

  -- What the speaker gets from a `Play` is what it gets of its track alone d, pull by pull up to the end of the
  -- track, whatever the goroutine of `preloadNext` that is made after it does, and when, its first step
  -- included: it waits until the track, or one of a later `Play`, has ended, so it never sets a next
  -- track in time. Besides, the speaker pulls from other sessions, `Play` and `Stop` are called, and
  -- goroutines of the player return; no other `preloadNext` runs.
  pub heard-alone :
      (cs : List (Step Stream)) (s : Stream) (p : Player Stream)
      → let q : Player Stream = play (some s) p in
        let n = length p.sessions in heard d n cs (spawned, q) ≡ alone d (pulls_of n cs) s
  unfolding play session_of
  heard-alone cs s p =
      let x : Session Stream = record {
        streamer = first d s;
        closed_stop = 0;
        all_done = false;
        returned = false;
      } in
      heard-first (length p.sessions) cs s _ (play (some s) p) (x, ground arith, refl) (inl refl)
