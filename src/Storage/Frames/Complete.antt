-- ===== src/Storage/Frames/Complete.antt =====
-- internal/storage/storage.go: `extractMP3Frames` passes over no frame.
use music_p2p.Prelude.{
  ℕ, zero, suc, ◌≤◌, ◌<◌, ◌≡◌, sym, ap, ◌⊎◌, inl, inr, true, List, [], ◌∷◌, ◌++◌, arith, length,
  take, drop, ltb, length-drop, length-append, take-append-drop, if◌then◌else◌, lt→ltb, Bool-cases,
}
use music_p2p.Storage.Frames.{frame_length, scan, extract_mp3_frames}
use music_p2p.Storage.Frames.Headers.{IsFrame, frame_length_cases, frame_length-append}
use music_p2p.Storage.Frames.Embedding.{taken-IsFrame}

-- Data that begins with a whole frame.
abbrev pub Begins : List ℕ → List ℕ → Type 0
Begins f xs = IsFrame f × ((rest : List ℕ) × (xs ≡ f ++ rest))

-- The data from the first byte on: where a whole frame begins it is taken and the data behind it is
-- next, and a byte is passed over only where none begins.
pub data Scanned : List (List ℕ) → List ℕ → Type 0 where
  ended : Scanned [] []
  passed :
      {fs : List (List ℕ)} {xs : List ℕ} (x : ℕ)
      → ((f : List ℕ) → ¬ Begins f (x ∷ xs))
      → Scanned fs xs
      → Scanned fs (x ∷ xs)
  taken :
      {fs : List (List ℕ)} {xs rest : List ℕ} (f : List ℕ)
      → IsFrame f
      → xs ≡ f ++ rest
      → Scanned fs rest
      → Scanned (f ∷ fs) xs

frame_length-Begins : (f xs : List ℕ) → Begins f xs → 32 ≤ frame_length xs
frame_length-Begins f xs (v, (rest, e)) =
    omega (arith, ap frame_length e, (frame_length-append f rest v).0, v.filled)

too_short : (f xs : List ℕ) → length xs < 32 → ¬ Begins f xs
too_short f xs h (v, (rest, e)) = omega (arith, h, v.filled, ap length e, length-append f rest)

short-Scanned : (xs : List ℕ) → length xs < 32 → Scanned [] xs
short-Scanned [] h = ended
short-Scanned (x ∷ xs) h =
    passed x (λ f. too_short f (x ∷ xs) h) (short-Scanned xs (omega (arith, h)))

-- What the loop body finds at the start of `xs`.
abbrev Found : ℕ → List ℕ → Type 0
Found n xs =
    ((n ≡ 0) × ((f : List ℕ) → ¬ Begins f xs)) ⊎ ((0 < n) × IsFrame (take n xs) × (n ≤ length xs))

frame_length-Found : (xs : List ℕ) → Found (frame_length xs) xs
frame_length-Found xs = elim (frame_length_cases xs) [
  | inl none ↦ inl (none, λ f b. omega (arith, none, frame_length-Begins f xs b))
  | inr (s, m, l, u) ↦ inr (omega (arith, l), taken-IsFrame (frame_length xs) xs s m l u, u)
]

round-Scanned :
    (n : ℕ) (xs : List ℕ) {later : List (List ℕ)}
    → Found n xs
    → 0 < length xs
    → Scanned later (drop (if ltb 0 n then n else 1) xs)
    → Scanned (if ltb 0 n then take n xs ∷ later else later) xs
round-Scanned n [] found h e = absurd (omega (arith, h))
round-Scanned n (x ∷ xs) (inl (none, never)) h e = rw none (passed x never (rw none at e))
round-Scanned n (x ∷ xs) (inr (p, v, u)) h e =
    let pos : ltb 0 n ≡ true = lt→ltb 0 n p in
    rw pos (taken (take n (x ∷ xs)) v (sym (take-append-drop n (x ∷ xs))) (rw pos at e))

scan-Scanned : (fuel : ℕ) (xs : List ℕ) → length xs ≤ fuel → Scanned (scan fuel xs) xs
unfolding scan
scan-Scanned zero xs h = short-Scanned xs (omega (arith, h))
scan-Scanned (suc fuel) xs h = elim (Bool-cases (ltb 3 (length xs))) [
  | inl more ↦
      let n = if ltb 0 (frame_length xs) then frame_length xs else 1 in
      let left : length (drop n xs) ≤ fuel = ground (arith, length-drop n xs, h, more) in
      rw more (
        round-Scanned (frame_length xs) xs (frame_length-Found xs) (ground (arith, more))
          (scan-Scanned fuel (drop n xs) left))
  | inr short ↦ let few : length xs < 32 = ground (arith, short) in rw short (short-Scanned xs few)
]

-- The scan reaches the end of the data and is complete: each byte of the data is part of a frame that
-- `extractMP3Frames` returns, or no whole frame begins at it. So no whole frame is missed, unless it
-- begins within one that was taken.
pub extract_mp3_frames-Scanned : (xs : List ℕ) → Scanned (extract_mp3_frames xs) xs
unfolding extract_mp3_frames
extract_mp3_frames-Scanned xs = scan-Scanned (length xs) xs (omega arith)
