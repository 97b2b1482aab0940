-- ===== src/Storage/Frames/Embedding.antt =====
-- internal/storage/storage.go: every result of `extractMP3Frames` is made of whole frames of the
-- data, and the fuel of the loop is enough.
use music_p2p.Prelude.{
  ℕ, zero, suc, ◌≤◌, ◌≡◌, refl, sym, ◌∙◌, ◌⊎◌, inl, inr, true, List, [], ◌∷◌, ◌++◌, arith, length,
  take, drop, ltb, length-take, length-drop, take-append-drop, if◌then◌else◌, lt→ltb, Bool-cases,
}
use music_p2p.Storage.Mp3.{is_sync, mp3_frame_size}
use music_p2p.Storage.Frames.{frame_length, scan, extract_mp3_frames}
use music_p2p.Storage.Frames.Headers.{
  IsFrame, mp3_frame_size-take, is_sync-take, frame_length_cases,
}

-- `Embeds fs xs`: the frames `fs` are disjoint slices of `xs`, in this order.
pub data Embeds : List (List ℕ) → List ℕ → Type 0 where
  end : (xs : List ℕ) → Embeds [] xs
  skip : {fs : List (List ℕ)} {xs : List ℕ} (x : ℕ) → Embeds fs xs → Embeds fs (x ∷ xs)
  frame :
      {fs : List (List ℕ)} {xs ys : List ℕ} (f : List ℕ)
      → IsFrame f
      → xs ≡ f ++ ys
      → Embeds fs ys
      → Embeds (f ∷ fs) xs

pub taken-IsFrame :
    (n : ℕ) (xs : List ℕ)
    → is_sync xs ≡ true
    → mp3_frame_size xs ≡ n
    → 32 ≤ n
    → n ≤ length xs
    → IsFrame (take n xs)
taken-IsFrame n xs s m l u = record {
  synced = is_sync-take n xs (omega arith) ∙ s;
  sized = omega (arith, mp3_frame_size-take n xs, length-take n xs);
  filled = omega (arith, length-take n xs);
}

-- What the loop body takes at the start of `xs`.
abbrev Taken : ℕ → List ℕ → Type 0
Taken n xs = (n ≡ 0) ⊎ ((is_sync xs ≡ true) × (mp3_frame_size xs ≡ n) × (32 ≤ n) × (n ≤ length xs))

-- One round of the loop.
round_Embeds :
    (n : ℕ) (xs : List ℕ) {later : List (List ℕ)}
    → Taken n xs
    → Embeds later (drop (if ltb 0 n then n else 1) xs)
    → Embeds (if ltb 0 n then take n xs ∷ later else later) xs
round_Embeds n [] (inl none) e = rw none (rw none at e)
round_Embeds n (x ∷ xs) (inl none) e = rw none (skip x (rw none at e))
round_Embeds n xs (inr (s, m, l, u)) e =
    let pos : ltb 0 n ≡ true = lt→ltb 0 n (omega arith) in
    rw pos
      (frame (take n xs) (taken-IsFrame n xs s m l u) (sym (take-append-drop n xs)) (rw pos at e))

scan-Embeds : (fuel : ℕ) (xs : List ℕ) → Embeds (scan fuel xs) xs
unfolding scan
scan-Embeds zero xs = end xs
scan-Embeds (suc fuel) xs = elim (Bool-cases (ltb 3 (length xs))) [
  | inl more ↦
      rw more (round_Embeds (frame_length xs) xs (frame_length_cases xs) (scan-Embeds fuel _))
  | inr short ↦ rw short (end xs)
]

-- Each frame that `extractMP3Frames` returns is a whole MP3 frame, with its sync word and the
-- length that its header gives, and the frames are disjoint slices of the data in their order.
pub extract_mp3_frames-Embeds : (xs : List ℕ) → Embeds (extract_mp3_frames xs) xs
unfolding extract_mp3_frames
extract_mp3_frames-Embeds xs = scan-Embeds (length xs) xs

scan_fuel : (f g : ℕ) (xs : List ℕ) → length xs ≤ f → length xs ≤ g → scan f xs ≡ scan g xs
unfolding scan
scan_fuel zero zero xs p q = refl
scan_fuel zero (suc g) xs p q = ground arith
scan_fuel (suc f) zero xs p q = ground arith
scan_fuel (suc f) (suc g) xs p q =
    let n = if ltb 0 (frame_length xs) then frame_length xs else 1 in
    ground (arith, length-drop n xs, scan_fuel f g (drop n xs))

-- The fuel of `extractMP3Frames` is enough: on all data its result meets the equation of the loop
-- without fuel, one round at the start of the data and the rest by `extractMP3Frames` again.
pub extract_mp3_frames_lem :
    (xs : List ℕ)
    → extract_mp3_frames xs ≡ (
        if ltb 3 (length xs)
        then (if ltb 0 (frame_length xs)
            then take (frame_length xs) xs ∷ extract_mp3_frames (drop (frame_length xs) xs)
            else extract_mp3_frames (drop 1 xs))
        else [])
unfolding extract_mp3_frames scan
extract_mp3_frames_lem [] = refl
extract_mp3_frames_lem (x ∷ xs) =
    let n = if ltb 0 (frame_length (x ∷ xs)) then frame_length (x ∷ xs) else 1 in
    ground (
      arith,
      length-drop n (x ∷ xs),
      scan_fuel (length xs) (length (drop n (x ∷ xs))) (drop n (x ∷ xs)),
    )
