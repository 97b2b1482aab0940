-- ===== src/Storage/Frames/Examples.antt =====
-- internal/storage/storage.go: a frame for runs.
use music_p2p.Prelude.{ℕ, zero, suc, refl, List, [], ◌∷◌, arith}
use music_p2p.Storage.Mp3.{mp3_frame_size, is_sync, size_of_fields}
use music_p2p.Storage.Frames.Headers.{IsFrame}

abbrev pub zeros : ℕ → List ℕ
zeros zero = []
zeros (suc n) = 0 ∷ zeros n

-- An MPEG-1 layer I frame of 32 kbit/s at 48 kHz: 32 bytes.
abbrev pub whole : List ℕ
whole = 0xFF ∷ 0xFF ∷ 0x14 ∷ 0 ∷ zeros 28

pub whole-IsFrame : IsFrame whole
unfolding is_sync mp3_frame_size size_of_fields
whole-IsFrame = record { synced = refl; sized = refl; filled = omega arith }
