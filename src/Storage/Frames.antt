-- ===== src/Storage/Frames.antt =====
-- internal/storage/storage.go: `extractMP3Frames`. The loop index stands for the rest of the data
-- that begins there.
pub mod Headers
pub mod Complete
pub mod Embedding
pub mod Examples
pub mod RoundTrip
use music_p2p.Prelude.{
  ℕ, zero, suc, ◌≤◌, ◌<◌, ◌≡◌, refl, Bool, true, false, ◌&&◌, List, [], ◌∷◌, arith, length, take,
  drop, if◌then◌else◌, ltb, leb,
}
use music_p2p.Storage.Mp3.{is_sync, mp3_frame_size}

-- The length of the frame that the loop body takes at the start of the rest, or 0 if it takes none.
unfoldable pub frame_length : List ℕ → ℕ
frame_length rest =
    let size = mp3_frame_size rest in
    if is_sync rest && (ltb 0 size && leb size (length rest)) then size else 0

-- `for i < len(data)-3`, with fuel; `extract_mp3_frames` gives enough.
unfoldable pub scan : ℕ → List ℕ → List (List ℕ)
scan zero rest = []
scan (suc fuel) rest =
    let size = frame_length rest in
    let later = scan fuel (drop (if ltb 0 size then size else 1) rest) in
    if ltb 3 (length rest) then (if ltb 0 size then take size rest ∷ later else later) else []

unfoldable pub extract_mp3_frames : List ℕ → List (List ℕ)
extract_mp3_frames data_bytes = scan (length data_bytes) data_bytes
