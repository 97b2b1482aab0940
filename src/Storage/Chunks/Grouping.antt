-- ===== src/Storage/Chunks/Grouping.antt =====
-- internal/storage/storage.go: what `groupFrames` makes of the frames.
use music_p2p.Prelude.{
  ℕ, zero, suc, ◌≤◌, ◌<◌, ◌≡◌, refl, ap, sym, ◌∙◌, ◌⊎◌, inl, inr, List, [], ◌∷◌, ◌++◌, map, arith,
  length, take, drop, concat, length-take, length-drop, take-append-drop, concat-append, dec_le,
  drop_of_length-le,
}
use music_p2p.Storage.Chunks.{Chunk, frames_per_chunk, group_from, group_frames, chunk_bytes}

-- The frames of the chunks, in order.
abbrev pub all_frames : List Chunk → List (List ℕ)
all_frames [] = []
all_frames (c ∷ cs) = c.frames ++ all_frames cs

group_from-all_frames :
    (fuel made : ℕ) (frames : List (List ℕ))
    → length frames ≤ fuel
    → all_frames (group_from fuel made frames) ≡ frames
unfolding group_from
group_from-all_frames zero made [] h = refl
group_from-all_frames zero made (f ∷ frames) h = absurd (omega arith)
group_from-all_frames (suc fuel) made [] h = refl
group_from-all_frames (suc fuel) made (f ∷ frames) h =
    ap (λ rest. take 32 (f ∷ frames) ++ rest)
      (group_from-all_frames fuel (suc made) (drop 31 frames)
        (omega (arith, length-drop 31 frames)))
    ∙ take-append-drop 32 (f ∷ frames)

-- Every chunk but the last holds exactly `frames_per_chunk` frames, and the last 1 to that many;
-- the chunks are numbered from `made` on.
abbrev pub WellGrouped : ℕ → List Chunk → Type 0
WellGrouped made [] = Unit {0}
WellGrouped made (c ∷ []) =
    (c.index ≡ made) × (0 < length c.frames) × (length c.frames ≤ frames_per_chunk)
WellGrouped made (c ∷ d ∷ cs) =
    (c.index ≡ made) × (length c.frames ≡ frames_per_chunk) × WellGrouped (suc made) (d ∷ cs)

WellGrouped-cons :
    (made : ℕ) (c : Chunk) (cs : List Chunk)
    → c.index ≡ made
    → 0 < length c.frames
    → length c.frames ≤ frames_per_chunk
    → (cs ≡ []) ⊎ (length c.frames ≡ frames_per_chunk)
    → WellGrouped (suc made) cs
    → WellGrouped made (c ∷ cs)
WellGrouped-cons made c [] i p q full w = (i, p, q)
WellGrouped-cons made c (d ∷ cs) i p q full w = (i, ground arith, w)

group_from-nil : (fuel made : ℕ) → group_from fuel made [] ≡ []
unfolding group_from
group_from-nil zero made = refl
group_from-nil (suc fuel) made = refl

last_or_full :
    (fuel made : ℕ) (f : List ℕ) (frames : List (List ℕ))
    → (group_from fuel made (drop 31 frames) ≡ [])
      ⊎ (length (take frames_per_chunk (f ∷ frames)) ≡ frames_per_chunk)
last_or_full fuel made f frames = elim (dec_le (length frames) 31) [
  | yes p ↦
      inl (ap (group_from fuel made) (drop_of_length-le 31 frames p) ∙ group_from-nil fuel made)
  | no p ↦ inr (omega (arith, length-take 32 (f ∷ frames)))
]

group_from-WellGrouped :
    (fuel made : ℕ) (frames : List (List ℕ))
    → length frames ≤ fuel
    → WellGrouped made (group_from fuel made frames)
unfolding group_from
group_from-WellGrouped zero made frames h = tt
group_from-WellGrouped (suc fuel) made [] h = tt
group_from-WellGrouped (suc fuel) made (f ∷ frames) h =
    WellGrouped-cons made (record { index = made; frames = take 32 (f ∷ frames) })
      (group_from fuel (suc made) (drop 31 frames)) refl
      (omega (arith, length-take 32 (f ∷ frames))) (omega (arith, length-take 32 (f ∷ frames)))
      (last_or_full fuel (suc made) f frames)
      (group_from-WellGrouped fuel (suc made) (drop 31 frames)
        (omega (arith, length-drop 31 frames)))

-- `groupFrames` loses, repeats and reorders no frame.
pub all_frames-group_frames : (frames : List (List ℕ)) → all_frames (group_frames frames) ≡ frames
unfolding group_frames
all_frames-group_frames frames = group_from-all_frames (length frames) 0 frames (omega arith)

-- The chunks that `groupFrames` returns are numbered from 0 in order; all but the last hold exactly
-- 32 frames, and the last 1 to 32.
pub group_frames-WellGrouped : (frames : List (List ℕ)) → WellGrouped 0 (group_frames frames)
unfolding group_frames
group_frames-WellGrouped frames = group_from-WellGrouped (length frames) 0 frames (omega arith)

pub chunk_bytes-all_frames :
    (cs : List Chunk) → concat (map chunk_bytes cs) ≡ concat (all_frames cs)
unfolding chunk_bytes
chunk_bytes-all_frames [] = refl
chunk_bytes-all_frames (c ∷ cs) =
    ap (λ rest. concat c.frames ++ rest) (chunk_bytes-all_frames cs)
    ∙ sym (concat-append c.frames (all_frames cs))
