-- ===== src/Storage/Frames/RoundTrip.antt =====
-- internal/storage/storage.go: `extractMP3Frames` recovers the frames that a file is made of.
use music_p2p.Prelude.{
  true, ℕ, ◌≡◌, ◌≢◌, refl, ap, ◌∙◌, List, [], ◌∷◌, ◌++◌, arith, length, ltb, All, concat,
  length-append, lt→ltb, append_assoc,
}
use music_p2p.Storage.Mp3.{is_sync}
use music_p2p.Storage.Frames.{frame_length, extract_mp3_frames}
use music_p2p.Storage.Frames.Headers.{IsFrame, frame_length-append}
use music_p2p.Storage.Frames.Embedding.{extract_mp3_frames_lem}

-- Bytes with no sync byte, as in a tag before or after the audio.
abbrev pub IsQuiet : List ℕ → Type 0
IsQuiet = All (λ b. b ≢ 0xFF)

frame_length-quiet : (b : ℕ) (xs : List ℕ) → b ≢ 0xFF → frame_length (b ∷ xs) ≡ 0
unfolding frame_length is_sync
frame_length-quiet b [] h = ground arith
frame_length-quiet b (c ∷ xs) h = ground arith

extract-quiet_cons :
    (b : ℕ) (xs : List ℕ) → b ≢ 0xFF → extract_mp3_frames (b ∷ xs) ≡ extract_mp3_frames xs
extract-quiet_cons b xs h =
    ground
      (arith, extract_mp3_frames_lem (b ∷ xs), extract_mp3_frames_lem xs, frame_length-quiet b xs h)

extract-quiet_append :
    (junk xs : List ℕ) → IsQuiet junk → extract_mp3_frames (junk ++ xs) ≡ extract_mp3_frames xs
extract-quiet_append [] xs h = refl
extract-quiet_append (b ∷ junk) xs h =
    extract-quiet_cons b (junk ++ xs) h.0 ∙ extract-quiet_append junk xs h.1

extract-quiet : (junk : List ℕ) → IsQuiet junk → extract_mp3_frames junk ≡ []
extract-quiet [] h = extract_mp3_frames_lem []
extract-quiet (b ∷ junk) h = extract-quiet_cons b junk h.0 ∙ extract-quiet junk h.1

extract-frame :
    (f rest : List ℕ) → IsFrame f → extract_mp3_frames (f ++ rest) ≡ f ∷ extract_mp3_frames rest
extract-frame f rest v =
    let (n, t, d) = frame_length-append f rest v in
    let long : ltb 3 (length (f ++ rest)) ≡ true =
      lt→ltb 3 _ (omega (arith, length-append f rest, v.filled)) in
    let pos : ltb 0 (length f) ≡ true = lt→ltb 0 _ (omega (arith, v.filled)) in
    extract_mp3_frames_lem (f ++ rest) ∙ rw (long, n, pos, t, d)

extract-frames :
    (fs : List (List ℕ)) (tail : List ℕ)
    → All IsFrame fs
    → IsQuiet tail
    → extract_mp3_frames (concat fs ++ tail) ≡ fs
extract-frames [] tail v h = extract-quiet tail h
extract-frames (f ∷ fs) tail v h =
    ap extract_mp3_frames (append_assoc f (concat fs) tail)
    ∙ extract-frame f (concat fs ++ tail) v.0
    ∙ ap (◌∷◌ f) (extract-frames fs tail v.1 h)

-- From a file of whole frames, with bytes before and after them that hold no 0xFF,
-- `extractMP3Frames` returns exactly those frames, in order.
pub extract_mp3_frames-concat :
    (junk tail : List ℕ) (fs : List (List ℕ))
    → IsQuiet junk
    → IsQuiet tail
    → All IsFrame fs
    → extract_mp3_frames (junk ++ (concat fs ++ tail)) ≡ fs
extract_mp3_frames-concat junk tail fs hj ht v =
    extract-quiet_append junk (concat fs ++ tail) hj ∙ extract-frames fs tail v ht
