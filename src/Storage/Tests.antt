-- ===== src/Storage/Tests.antt =====
-- internal/storage/storage.go: runs on concrete files.
use music_p2p.Prelude.{ℕ, ◌≤◌, ◌<◌, ◌≡◌, refl, ◌⊎◌, List, [], ◌∷◌, ◌++◌, some, arith, concat}
use music_p2p.Prelude.Int.{pos, negsuc}
use music_p2p.Storage.Tracks.Laws.{
  IsChunk, refusal, get_chunk-get_total_chunks, read_track, load_track-read_track,
}
use music_p2p.Storage.Mp3.{field, mp3_frame_size}
use music_p2p.Storage.Mp3.Bounds.{mp3_frame_size-bounds}
use music_p2p.Storage.Frames.{extract_mp3_frames}
use music_p2p.Storage.Frames.Examples.{zeros, whole, whole-IsFrame}
use music_p2p.Storage.Frames.Embedding.{Embeds, extract_mp3_frames-Embeds}
use music_p2p.Storage.Frames.Complete.{Scanned, extract_mp3_frames-Scanned}
use music_p2p.Storage.Chunks.{Chunk}
use music_p2p.Storage.Tracks.{Storage, Files, ok, err, new, load_track, get_chunk, get_total_chunks}
use music_p2p.Storage.Tracks.Invariant.{IsValid, run, loads, removes, run-IsValid}

abbrev contents : List ℕ
contents = (1 ∷ 2 ∷ []) ++ (concat (whole ∷ whole ∷ []) ++ 3 ∷ [])

abbrev files : Files
files = record { clean = λ p. p; read_file = λ p. some contents; sha256_hex = λ b. "ab12" }

abbrev stored : Storage
stored = record {
  base_dir = "";
  tracks = ("ab12", record { index = 0; frames = whole ∷ [] } ∷ []) ∷ [];
}

mp3_frame_size-bounds_example :
    (mp3_frame_size whole ≡ 0)
    ⊎ ((32 ≤ mp3_frame_size whole) × (mp3_frame_size whole ≤ 1729) × (field 0xFF 3 2 ≡ 3))
mp3_frame_size-bounds_example = mp3_frame_size-bounds 0xFF 0xFF 0x14 0 (zeros 28)

extract_mp3_frames-Scanned_example : Scanned (extract_mp3_frames contents) contents
extract_mp3_frames-Scanned_example = extract_mp3_frames-Scanned contents

extract_mp3_frames-Embeds_example : Embeds (extract_mp3_frames contents) contents
extract_mp3_frames-Embeds_example = extract_mp3_frames-Embeds contents

run-IsValid_example : IsValid (run files (new "") (loads "a.mp3" ∷ removes "x" ∷ []))
run-IsValid_example = run-IsValid files "" (loads "a.mp3" ∷ removes "x" ∷ [])

get_chunk-get_total_chunks_example :
    (((0 < get_total_chunks "ab12" stored)
        × ((c : Chunk) × IsChunk "ab12" 0 c stored × (get_chunk "ab12" (pos 0) stored ≡ ok c)))
      ⊎ ((get_total_chunks "ab12" stored ≤ 0)
          × (get_chunk "ab12" (pos 0) stored ≡ err (refusal "ab12" stored))))
    × (get_chunk "ab12" (negsuc 0) stored ≡ err (refusal "ab12" stored))
get_chunk-get_total_chunks_example = get_chunk-get_total_chunks "ab12" stored 0

load_track-read_track_example :
    ((load_track files "a.mp3" (new "")).1 ≡ ok "ab12")
    × (read_track "ab12" (load_track files "a.mp3" (new "")).0 ≡ concat (whole ∷ whole ∷ []))
load_track-read_track_example =
    load_track-read_track files "a.mp3" (new "") (1 ∷ 2 ∷ []) (3 ∷ []) whole (whole ∷ [])
      (ground arith, (ground arith, tt)) (ground arith, tt) (whole-IsFrame, (whole-IsFrame, tt))
      refl
