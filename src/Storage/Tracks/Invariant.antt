-- ===== src/Storage/Tracks/Invariant.antt =====
-- internal/storage/storage.go: the invariant of the loaded tracks.
use music_p2p.Prelude.{
  ℕ, ◌<◌, String, List, [], ◌∷◌, arith, length, All, Option-cases, inl, inr, if_pos, if_neg,
}
use music_p2p.Prelude.Assoc.{lookup, insert, delete}
use music_p2p.Prelude.Text.{String_discrete}
use music_p2p.Storage.Frames.{extract_mp3_frames}
use music_p2p.Storage.Chunks.{Chunk, group_from, group_frames}
use music_p2p.Storage.Chunks.Grouping.{WellGrouped, group_frames-WellGrouped}
use music_p2p.Storage.Tracks.{Storage, Files, new, store_frames, load_track, remove_track}

-- A track has at least one chunk, and its chunks are well grouped.
abbrev pub IsTrack : String × List Chunk → Type 0
IsTrack e = (0 < length e.1) × WellGrouped 0 e.1

abbrev pub IsValid : Storage → Type 0
IsValid s = All IsTrack s.tracks

group_frames-IsTrack :
    (cid : String) (f : List ℕ) (fs : List (List ℕ)) → IsTrack (cid, group_frames (f ∷ fs))
unfolding group_frames group_from
group_frames-IsTrack cid f fs = (omega arith, group_frames-WellGrouped (f ∷ fs))

insert-IsValid :
    (cid : String) (cs : List Chunk) (m : List (String × List Chunk))
    → IsTrack (cid, cs)
    → All IsTrack m
    → All IsTrack (insert String_discrete cid cs m)
unfolding insert
insert-IsValid cid cs [] t v = (t, tt)
insert-IsValid cid cs ((j, ds) ∷ m) t v = elim (String_discrete j cid) [
  | yes p ↦ rw (if_pos _ p) (t, v.1)
  | no p ↦ rw (if_neg _ p) (v.0, insert-IsValid cid cs m t v.1)
]

delete-IsValid :
    (cid : String) (m : List (String × List Chunk))
    → All IsTrack m
    → All IsTrack (delete String_discrete cid m)
unfolding delete
delete-IsValid cid [] v = tt
delete-IsValid cid ((j, ds) ∷ m) v = elim (String_discrete j cid) [
  | yes p ↦ rw (if_pos _ p) (delete-IsValid cid m v.1)
  | no p ↦ rw (if_neg _ p) (v.0, delete-IsValid cid m v.1)
]

store_frames-IsValid :
    (cid : String) (fs : List (List ℕ)) (s : Storage)
    → IsValid s
    → IsValid (store_frames cid fs s).0
unfolding store_frames
store_frames-IsValid cid [] s v = v
store_frames-IsValid cid (f ∷ fs) s v =
    insert-IsValid cid (group_frames (f ∷ fs)) s.tracks (group_frames-IsTrack cid f fs) v

pub load_track-IsValid :
    (io : Files) (path : String) (s : Storage) → IsValid s → IsValid (load_track io path s).0
unfolding load_track
load_track-IsValid io path s v = elim (Option-cases (io.read_file (io.clean path))) [
  | inl e ↦ rw (e, load_track) v
  | inr (contents, e) ↦
      rw (e, load_track)
        (store_frames-IsValid (io.sha256_hex contents) (extract_mp3_frames contents) s v)
]

pub remove_track-IsValid : (cid : String) (s : Storage) → IsValid s → IsValid (remove_track cid s).0
unfolding remove_track
remove_track-IsValid cid s v = elim (Option-cases (lookup String_discrete cid s.tracks)) [
  | inl e ↦ rw (e, remove_track) v
  | inr (cs, e) ↦ rw (e, remove_track) (delete-IsValid cid s.tracks v)
]

pub data Call : Type 0 where
  loads removes : String → Call

pub step : Files → Storage → Call → Storage
step io s (loads path) = (load_track io path s).0
step io s (removes cid) = (remove_track cid s).0

pub run : Files → Storage → List Call → Storage
run io s [] = s
run io s (c ∷ cs) = run io (step io s c) cs

run_from-IsValid : (io : Files) (s : Storage) (cs : List Call) → IsValid s → IsValid (run io s cs)
unfolding run step
run_from-IsValid io s [] v = v
run_from-IsValid io s (loads path ∷ cs) v =
    run_from-IsValid io (load_track io path s).0 cs (load_track-IsValid io path s v)
run_from-IsValid io s (removes cid ∷ cs) v =
    run_from-IsValid io (remove_track cid s).0 cs (remove_track-IsValid cid s v)

-- After any sequence of `LoadTrack` and `RemoveTrack` calls on a new storage, whatever the files
-- hold, each stored track has at least one chunk, its chunks are numbered from 0 in order, and all
-- but the last hold exactly 32 frames, the last 1 to 32.
pub run-IsValid :
    (io : Files) (base_dir : String) (cs : List Call) → IsValid (run io (new base_dir) cs)
unfolding new
run-IsValid io base_dir cs = run_from-IsValid io (new base_dir) cs tt
