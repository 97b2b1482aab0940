-- ===== src/Audio/Gapless.antt =====
-- internal/audio/player.go: `gaplessStreamer` plays two tracks without a gap.
use music_p2p.Prelude.{
  List-cases, ℕ, zero, suc, ◌+◌, ◌≤◌, ◌<◌, ◌≡◌, sym, ap, ◌∙◌, inl, inr, Bool, true, false, List, [],
  ◌∷◌, ◌++◌, Option, none, some, if◌then◌else◌, arith, length, append_assoc, length-append,
}
use music_p2p.Audio.{Decoder, GaplessStreamer, stream, stream_from, switch}

module _ {Stream Sample : Type 0} (d : Decoder Stream Sample) where
  -- The contract of beep: with the samples that a stream has left, a pull into a buffer that is not empty
  -- takes some of them off the front, or tells that there is none.
  pub record IsDecoder (left : Stream → List Sample) (k : ℕ) : Type 0 where
    pub ends :
        (s : Stream)
        → left s ≡ []
        → ((d.pull k s).1.0 ≡ []) × ((d.pull k s).1.1 ≡ false) × (left (d.pull k s).0 ≡ [])
    pub goes_on :
        (s : Stream) (x : Sample) (xs : List Sample)
        → left s ≡ x ∷ xs
        → ((d.pull k s).1.1 ≡ true)
          × (0 < length (d.pull k s).1.0)
          × (left s ≡ (d.pull k s).1.0 ++ left (d.pull k s).0)

  -- The speaker pulls until `Stream` returns false: all samples, and whether the end was reached.
  pub drain : ℕ → ℕ → GaplessStreamer Stream → List Sample × Bool
  drain zero k g = ([], false)
  drain (suc fuel) k g =
      let (g', (xs, ok)) = stream d k g in
      let (ys, ended) = drain fuel k g' in if ok then (xs ++ ys, ended) else ([], true)

  stream-goes_on :
      (k : ℕ) (cur : Stream) (f : Option Stream) (b : Bool)
      → (d.pull k cur).1.1 ≡ true
      → stream d k (record { current = some cur; following = f; done = b }) ≡ (
        record { current = some (d.pull k cur).0; following = f; done = b },
        ((d.pull k cur).1.0, true),
      )
  unfolding stream stream_from
  stream-goes_on k cur f b e = rw (e, stream_from)

  stream-switch :
      (k : ℕ) (cur : Stream) (f : Option Stream) (b : Bool)
      → (d.pull k cur).1.1 ≡ false
      → stream d k (record { current = some cur; following = f; done = b })
        ≡ switch d k (record { current = some cur; following = f; done = b })
  unfolding stream stream_from
  stream-switch k cur f b e = rw (e, stream_from)

  drain-true :
      (fuel k : ℕ) (g g' : GaplessStreamer Stream) (xs : List Sample)
      → stream d k g ≡ (g', (xs, true))
      → drain (suc fuel) k g ≡ (xs ++ (drain fuel k g').0, (drain fuel k g').1)
  unfolding drain
  drain-true fuel k g g' xs e = rw (e, drain)

  drain-false :
      (fuel k : ℕ) (g g' : GaplessStreamer Stream) (xs : List Sample)
      → stream d k g ≡ (g', (xs, false))
      → drain (suc fuel) k g ≡ ([], true)
  unfolding drain
  drain-false fuel k g g' xs e = rw (e, drain)

  module _ (left : Stream → List Sample) (k : ℕ) (l : IsDecoder left k) where
    abbrev pulled : Stream → List Sample
    pulled s = (d.pull k s).1.0

    abbrev pulled_from : Stream → Stream
    pulled_from s = (d.pull k s).0

    left_shorter :
        (s : Stream) (x : Sample) (xs : List Sample)
        → left s ≡ x ∷ xs
        → suc (length (left (pulled_from s))) ≤ length (left s)
    left_shorter s x xs e =
        let (more, some_out, parts) = l.goes_on s x xs e in
        omega (arith, some_out, ap length parts, length-append (pulled s) (left (pulled_from s)))

    -- What is delivered before the rest of a drain.
    drain-append :
        (fuel : ℕ) (g g' : GaplessStreamer Stream) (out rest all : List Sample)
        → stream d k g ≡ (g', (out, true))
        → drain fuel k g' ≡ (rest, true)
        → out ++ rest ≡ all
        → drain (suc fuel) k g ≡ (all, true)
    drain-append fuel g g' out rest all e f p =
        drain-true fuel k g g' out e ∙ ap (λ r. (out ++ r.0, r.1)) f ∙ ap (λ ys. (ys, true)) p

    drain_last :
        (fuel : ℕ) (cur : Stream) (b : Bool)
        → length (left cur) < fuel
        → drain fuel k (record { current = some cur; following = none; done = b })
          ≡ (left cur, true)
    unfolding switch
    drain_last zero cur b h = absurd (omega arith)
    drain_last (suc fuel) cur b h = elim (List-cases (left cur)) [
      | inl e ↦
          drain-false fuel k _ _ _ (stream-switch k cur none b (l.ends cur e).1)
          ∙ ap (λ ys. (ys, true)) (sym e)
      | inr (x, xs, e) ↦
          let (more, some_out, parts) = l.goes_on cur x xs e in
          drain-append fuel _ _ (pulled cur) (left (pulled_from cur)) (left cur)
            (stream-goes_on k cur none b more)
            (drain_last fuel (pulled_from cur) b (omega (arith, h, left_shorter cur x xs e)))
            (sym parts)
    ]

    -- The pull from the next stream at the switch.
    left_pulled : (s : Stream) → pulled s ++ left (pulled_from s) ≡ left s
    left_pulled s = elim (List-cases (left s)) [
      | inl e ↦ let (out, over, nothing) = l.ends s e in rw (out, nothing, e)
      | inr (x, xs, e) ↦ sym (l.goes_on s x xs e).2
    ]

    length-left_pulled : (s : Stream) → length (left (pulled_from s)) ≤ length (left s)
    length-left_pulled s =
        omega (arith, ap length (left_pulled s), length-append (pulled s) (left (pulled_from s)))

    -- With a decoder that keeps the contract, and a next track set before the current one ends, the
    -- speaker gets all samples of the current track and then all samples of the next one, with
    -- nothing between them and none lost, and then the end; two pulls more than there are samples
    -- are enough.
    pub drain-append_left :
        (fuel : ℕ) (cur nxt : Stream) (b : Bool)
        → length (left cur) + length (left nxt) + 1 < fuel
        → drain fuel k (record { current = some cur; following = some nxt; done = b })
          ≡ (left cur ++ left nxt, true)
    unfolding switch
    drain-append_left zero cur nxt b h = absurd (omega arith)
    drain-append_left (suc fuel) cur nxt b h = elim (List-cases (left cur)) [
      | inl e ↦
          drain-append fuel _ _ (pulled nxt) (left (pulled_from nxt)) (left cur ++ left nxt)
            (stream-switch k cur (some nxt) b (l.ends cur e).1)
            (drain_last fuel (pulled_from nxt) true (omega (arith, h, length-left_pulled nxt)))
            (left_pulled nxt ∙ rw e)
      | inr (x, xs, e) ↦
          let (more, some_out, parts) = l.goes_on cur x xs e in
          drain-append fuel _ _ (pulled cur) (left (pulled_from cur) ++ left nxt)
            (left cur ++ left nxt) (stream-goes_on k cur (some nxt) b more)
            (drain-append_left fuel (pulled_from cur) nxt b
              (omega (arith, h, left_shorter cur x xs e)))
            (sym (append_assoc (pulled cur) (left (pulled_from cur)) (left nxt))
              ∙ ap (λ ys. ys ++ left nxt) (sym parts))
    ]
