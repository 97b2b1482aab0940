-- ===== src/Storage/Chunks.antt =====
-- internal/storage/storage.go: `Chunk` and `groupFrames`; internal/streaming/engine.go: `ChunkBytes`.
pub mod Grouping
use music_p2p.Prelude.{ℕ, zero, suc, ◌+◌, ◌*◌, ◌<◌, List, [], ◌∷◌, length, take, drop, concat}

abbrev pub frames_per_chunk : ℕ
frames_per_chunk = 32

pub record Chunk : Type 0 where
  pub index : ℕ
  pub frames : List (List ℕ)

-- The loop of `groupFrames`, on the frames from `i` on; `made` is `len(chunks)`. The slice up to
-- `min(i + framesPerChunk, len(frames))` is `take`. With fuel; `group_frames` gives enough.
unfoldable pub group_from : ℕ → ℕ → List (List ℕ) → List Chunk
group_from zero made frames = []
group_from (suc fuel) made [] = []
group_from (suc fuel) made (f ∷ frames) =
    record { index = made; frames = take frames_per_chunk (f ∷ frames) }
    ∷ group_from fuel (suc made) (drop frames_per_chunk (f ∷ frames))

unfoldable pub group_frames : List (List ℕ) → List Chunk
unfolding group_from
group_frames frames = group_from (length frames) 0 frames

-- `ChunkBytes`: the frames of a chunk, one after the other.
unfoldable pub chunk_bytes : Chunk → List ℕ
chunk_bytes c = concat c.frames
