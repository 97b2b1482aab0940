-- ===== src/Storage/Tracks.antt =====
-- internal/storage/storage.go: `Storage`, the loaded tracks. The lock makes each method one atomic
-- step. `filepath.Clean`, `os.ReadFile` and the hex of SHA-256 are parameters.
pub mod Laws
pub mod Invariant
use music_p2p.Prelude.{
  zero, suc, inr, inl, ltb, Bool-cases, arith, ◌<◌, ℕ, ◌≡◌, Bool, true, false, ◌||◌, String, List,
  [], ◌∷◌, map, Option, none, some, length, get_elem?, if◌then◌else◌,
}
use music_p2p.Prelude.Int.{negsuc, ℤ, pos, pos_part, ltb_ℤ, leb_ℤ}
use music_p2p.Prelude.Assoc.{lookup, insert, delete}
use music_p2p.Prelude.Text.{String_discrete}
use music_p2p.Storage.Frames.{extract_mp3_frames}
use music_p2p.Storage.Chunks.{Chunk, group_frames}

pub record Storage : Type 0 where
  pub base_dir : String
  pub tracks : List (String × List Chunk)

pub data Error : Type 0 where
  read_failed no_frames track_not_found index_out_of_range : Error

pub data Result {ℓ} (A : Type ℓ) : Type ℓ where
  ok : A → Result A
  err : Error → Result A

unfoldable pub new : String → Storage
new base_dir = record { base_dir = base_dir; tracks = [] }

-- What `LoadTrack` uses of the operating system and of the hash library.
pub record Files : Type 0 where
  pub clean : String → String
  pub read_file : String → Option (List ℕ)
  pub sha256_hex : List ℕ → String

unfoldable pub store_frames : String → List (List ℕ) → Storage → Storage × Result String
store_frames cid [] s = (s, err no_frames)
store_frames cid (f ∷ frames) s =
    (record s { tracks = insert String_discrete cid (group_frames (f ∷ frames)) s.tracks }, ok cid)

unfoldable pub load_track : Files → String → Storage → Storage × Result String
unfolding store_frames
load_track io path s = elim (io.read_file (io.clean path)) [
  | none ↦ (s, err read_failed)
  | some contents ↦ store_frames (io.sha256_hex contents) (extract_mp3_frames contents) s
]

-- `chunks[index]`, which panics out of range: it can only be written with a proof that the index is
-- within the slice.
unfoldable pub nth : {A : Type 0} (xs : List A) (n : ℕ) → n < length xs → A
nth [] n h = absurd (omega (arith, h))
nth (x ∷ xs) zero h = x
nth (x ∷ xs) (suc n) h = nth xs n (omega (arith, h))

unfoldable pub is_below : (m n : ℕ) → Dec (m < n)
is_below m zero = no (λ h. omega (arith, h))
is_below zero (suc n) = yes (omega arith)
is_below (suc m) (suc n) = elim (is_below m n) [
  | yes h ↦ yes (omega (arith, h))
  | no g ↦ no (λ h. g (omega (arith, h)))
]

-- The two tests `index < 0` and `index >= len(chunks)`, and what is behind them.
unfoldable pub chunk_at : ℤ → List Chunk → Result Chunk
chunk_at (negsuc n) chunks = err index_out_of_range
chunk_at (pos n) chunks = elim (is_below n (length chunks)) [
  | yes h ↦ ok (nth chunks n h)
  | no _ ↦ err index_out_of_range
]

unfoldable pub get_chunk : String → ℤ → Storage → Result Chunk
unfolding chunk_at
get_chunk cid index s = elim (lookup String_discrete cid s.tracks) [
  | none ↦ err track_not_found
  | some chunks ↦ chunk_at index chunks
]

unfoldable pub get_total_chunks : String → Storage → ℕ
get_total_chunks cid s = elim (lookup String_discrete cid s.tracks) [
  | none ↦ 0
  | some chunks ↦ length chunks
]

unfoldable pub remove_track : String → Storage → Storage × Result (Unit {0})
remove_track cid s = elim (lookup String_discrete cid s.tracks) [
  | none ↦ (s, err track_not_found)
  | some chunks ↦ (record s { tracks = delete String_discrete cid s.tracks }, ok tt)
]

-- Go visits a map in any order; this is the list in the order of insertion.
unfoldable pub list_tracks : Storage → List String
list_tracks s = map (λ e. e.0) s.tracks
