-- ===== src/Storage/Tracks/Laws.antt =====
-- internal/storage/storage.go: what the calls return, and what later calls see.
use music_p2p.Prelude.{
  ℕ, zero, suc, ◌≤◌, ◌<◌, ◌≡◌, ◌≢◌, refl, sym, ap, ◌∙◌, ◌⊎◌, inl, inr, String, List, [], ◌∷◌, ◌++◌,
  map, none, some, arith, length, All, concat, Option-cases, get_elem?, append_assoc, length-append,
  if_neg, ite, true, false,
}
use music_p2p.Prelude.Assoc.{
  lookup, delete, lookup-delete, lookup-insert_self, lookup-insert_ne, lookup-delete_self, contains,
}
use music_p2p.Prelude.Int.{ℤ, pos, negsuc}
use music_p2p.Prelude.Text.{String_discrete}
use music_p2p.Storage.Tracks.{
  is_below, nth, index_out_of_range, Error, Storage, Files, ok, err, track_not_found, store_frames,
  load_track, chunk_at, get_chunk, get_total_chunks, remove_track, list_tracks,
}
use music_p2p.Storage.Frames.{extract_mp3_frames}
use music_p2p.Storage.Frames.Headers.{IsFrame}
use music_p2p.Storage.Frames.RoundTrip.{IsQuiet, extract_mp3_frames-concat}
use music_p2p.Storage.Chunks.{Chunk, group_frames, chunk_bytes}
use music_p2p.Storage.Chunks.Grouping.{all_frames-group_frames, chunk_bytes-all_frames}

get_elem?-lt : (cs : List Chunk) (n : ℕ) {c : Chunk} → get_elem? cs n ≡ some c → n < length cs
get_elem?-lt [] n e = cc
get_elem?-lt (d ∷ cs) zero e = omega arith
get_elem?-lt (d ∷ cs) (suc n) e = omega (arith, get_elem?-lt cs n e)

nth-get_elem? :
    (cs : List Chunk) (n : ℕ) (c : Chunk) (h : n < length cs)
    → get_elem? cs n ≡ some c
    → nth cs n h ≡ c
unfolding nth
nth-get_elem? [] n c h e = absurd (omega (arith, h))
nth-get_elem? (d ∷ cs) zero c h e = cc
nth-get_elem? (d ∷ cs) (suc n) c h e = nth-get_elem? cs n c (omega (arith, h)) e

chunk_at-ok :
    (n : ℕ) (c : Chunk) (cs : List Chunk) → get_elem? cs n ≡ some c → chunk_at (pos n) cs ≡ ok c
unfolding chunk_at
chunk_at-ok n c cs e =
    elim (is_below n (length cs))
      as (λ d. (elim d [ yes h ↦ ok (nth cs n h) | no _ ↦ err index_out_of_range ]) ≡ ok c) [
        | yes h ↦ ap ok (nth-get_elem? cs n c h e)
        | no g ↦ absurd (g (get_elem?-lt cs n e))
      ]

-- The error of `GetChunk` at an index that is not of the track.
abbrev pub refusal : String → Storage → Error
refusal cid s = elim (lookup String_discrete cid s.tracks) [
  | none ↦ track_not_found
  | some _ ↦ index_out_of_range
]

chunk_at-out :
    (n : ℕ) (cs : List Chunk) → length cs ≤ n → chunk_at (pos n) cs ≡ err index_out_of_range
unfolding chunk_at
chunk_at-out n cs h =
    elim (is_below n (length cs))
      as (λ d.
        elim d [ yes g ↦ ok (nth cs n g) | no _ ↦ err index_out_of_range ]
        ≡ err index_out_of_range) [ yes g ↦ absurd (omega (arith, h, g)) | no g ↦ refl ]

-- A chunk that stands behind others is at the index that is their number.
get_elem?-append :
    (before : List Chunk) (c : Chunk) (after : List Chunk)
    → get_elem? (before ++ c ∷ after) (length before) ≡ some c
get_elem?-append [] c after = refl
get_elem?-append (b ∷ before) c after = get_elem?-append before c after

parts :
    (cs : List Chunk) (n : ℕ)
    → n < length cs
    → (before : List Chunk) × (c : Chunk) × (after : List Chunk) × (cs ≡ before ++ c ∷ after)
      × (length before ≡ n)
parts [] n h = absurd (omega (arith, h))
parts (c ∷ cs) zero h = ([], c, cs, refl, refl)
parts (d ∷ cs) (suc n) h =
    let (before, c, after, e, l) = parts cs n (omega (arith, h)) in
    (d ∷ before, c, after, ap (λ xs. d ∷ xs) e, omega (arith, l))

-- The chunk of a track with `n` chunks before it.
abbrev pub IsChunk : String → ℕ → Chunk → Storage → Type 0
IsChunk cid n c s =
    (before : List Chunk) × (after : List Chunk) × (lookup String_discrete cid s.tracks
      ≡ some (before ++ c ∷ after))
    × (length before ≡ n)

get_chunk-within :
    (cid : String) (s : Storage) (n : ℕ) (cs : List Chunk)
    → lookup String_discrete cid s.tracks ≡ some cs
    → n < length cs
    → (c : Chunk) × IsChunk cid n c s × (get_chunk cid (pos n) s ≡ ok c)
unfolding get_chunk
get_chunk-within cid s n cs e h =
    let (before, c, after, p, l) = parts cs n h in
    let found : get_elem? cs n ≡ some c = rw (p, ← l) (get_elem?-append before c after) in
    (c, (before, after, e ∙ ap some p, l), rw (e, get_chunk) (chunk_at-ok n c cs found))

-- `GetChunk` returns the chunk with `n` chunks of the track before it at every index `n` from 0 to below
-- `GetTotalChunks`, and fails with the error for the range at every other index, a negative one
-- included; of a track that is not loaded it fails with the error for that at every index.
pub get_chunk-get_total_chunks :
    (cid : String) (s : Storage) (n : ℕ)
    → (((n < get_total_chunks cid s)
          × ((c : Chunk) × IsChunk cid n c s × (get_chunk cid (pos n) s ≡ ok c)))
        ⊎ ((get_total_chunks cid s ≤ n) × (get_chunk cid (pos n) s ≡ err (refusal cid s))))
      × (get_chunk cid (negsuc n) s ≡ err (refusal cid s))
unfolding get_chunk get_total_chunks chunk_at
get_chunk-get_total_chunks cid s n = elim (Option-cases (lookup String_discrete cid s.tracks)) [
  | inl e ↦ rw (e, get_total_chunks, get_chunk, refusal) (inr (omega arith, refl), refl)
  | inr (cs, e) ↦ elim (is_below n (length cs)) [
    | yes h ↦ (
      inl (rw (e, get_total_chunks) h, get_chunk-within cid s n cs e h),
      rw (e, get_chunk, refusal) refl,
    )
    | no g ↦
        let out : length cs ≤ n = omega (arith, g) in
        (
          inr (rw (e, get_total_chunks) out, rw (e, get_chunk, refusal) (chunk_at-out n cs out)),
          rw (e, get_chunk, refusal) refl,
        )
  ]
]

get_chunk-ok :
    (cid : String) (s : Storage) (n : ℕ) (c : Chunk) (cs : List Chunk)
    → lookup String_discrete cid s.tracks ≡ some cs
    → get_elem? cs n ≡ some c
    → get_chunk cid (pos n) s ≡ ok c
unfolding get_chunk
get_chunk-ok cid s n c cs e f = rw (e, get_chunk) (chunk_at-ok n c cs f)

-- The bytes of `n` chunks from index `i` on, as a caller of `GetChunk` and `ChunkBytes` gets them.
pub read_from : ℕ → ℕ → String → Storage → List ℕ
read_from zero i cid s = []
read_from (suc n) i cid s = elim (get_chunk cid (pos i) s) [
  | err e ↦ []
  | ok c ↦ chunk_bytes c ++ read_from n (suc i) cid s
]

abbrev pub read_track : String → Storage → List ℕ
read_track cid s = read_from (get_total_chunks cid s) 0 cid s

read_from-chunks :
    (cid : String) (s : Storage) (before after : List Chunk) (i : ℕ)
    → i ≡ length before
    → lookup String_discrete cid s.tracks ≡ some (before ++ after)
    → read_from (length after) i cid s ≡ concat (map chunk_bytes after)
unfolding read_from
read_from-chunks cid s before [] i p e = refl
read_from-chunks cid s before (c ∷ after) i p e =
    let found : get_elem? (before ++ c ∷ after) i ≡ some c =
      rw p (get_elem?-append before c after) in
    let e' : lookup String_discrete cid s.tracks ≡ some ((before ++ c ∷ []) ++ after) =
      e ∙ ap some (sym (append_assoc before (c ∷ []) after)) in
    let rest =
      read_from-chunks cid s (before ++ c ∷ []) after (suc i)
        (omega (arith, length-append before (c ∷ []))) e' in
    rw (get_chunk-ok cid s i c _ e found, read_from) (ap (λ r. chunk_bytes c ++ r) rest)

read_track-chunks :
    (cid : String) (s : Storage) (cs : List Chunk)
    → lookup String_discrete cid s.tracks ≡ some cs
    → read_track cid s ≡ concat (map chunk_bytes cs)
unfolding get_total_chunks
read_track-chunks cid s cs e = rw (e, get_total_chunks) (read_from-chunks cid s [] cs 0 refl e)

store_frames-read_track :
    (cid : String) (f : List ℕ) (fs : List (List ℕ)) (s : Storage)
    → read_track cid (store_frames cid (f ∷ fs) s).0 ≡ concat (f ∷ fs)
unfolding store_frames
store_frames-read_track cid f fs s =
    read_track-chunks cid _ (group_frames (f ∷ fs))
      (lookup-insert_self String_discrete cid _ s.tracks)
    ∙ chunk_bytes-all_frames (group_frames (f ∷ fs))
    ∙ ap concat (all_frames-group_frames (f ∷ fs))

store_frames-ok :
    (cid : String) (f : List ℕ) (fs : List (List ℕ)) (s : Storage)
    → (store_frames cid (f ∷ fs) s).1 ≡ ok cid
unfolding store_frames
store_frames-ok cid f fs s = refl

load_track-store_frames :
    (io : Files) (path : String) (s : Storage) {contents : List ℕ}
    → io.read_file (io.clean path) ≡ some contents
    → load_track io path s ≡ store_frames (io.sha256_hex contents) (extract_mp3_frames contents) s
unfolding load_track
load_track-store_frames io path s e = rw (e, load_track)

-- A file of whole MP3 frames, at least one, with bytes before and after them that hold no 0xFF,
-- loads under the hash of its contents; the bytes of its chunks, read one after the other up to
-- `GetTotalChunks`, are then exactly the bytes of its frames.
pub load_track-read_track :
    (io : Files) (path : String) (s : Storage) (junk tail f : List ℕ) (fs : List (List ℕ))
    → IsQuiet junk
    → IsQuiet tail
    → All IsFrame (f ∷ fs)
    → io.read_file (io.clean path) ≡ some (junk ++ (concat (f ∷ fs) ++ tail))
    → ((load_track io path s).1 ≡ ok (io.sha256_hex (junk ++ (concat (f ∷ fs) ++ tail))))
      × (read_track (io.sha256_hex (junk ++ (concat (f ∷ fs) ++ tail))) (load_track io path s).0
          ≡ concat (f ∷ fs))
load_track-read_track io path s junk tail f fs hj ht v e =
    let frames = extract_mp3_frames-concat junk tail (f ∷ fs) hj ht v in
    rw (load_track-store_frames io path s e, frames)
      (store_frames-ok _ f fs s, store_frames-read_track _ f fs s)

store_frames-other :
    (cid other : String) (fs : List (List ℕ)) (s : Storage)
    → (store_frames cid fs s).1 ≢ ok other
    → lookup String_discrete other (store_frames cid fs s).0.tracks
      ≡ lookup String_discrete other s.tracks
unfolding store_frames
store_frames-other cid other [] s h = refl
store_frames-other cid other (f ∷ fs) s h =
    lookup-insert_ne String_discrete cid other (group_frames (f ∷ fs)) s.tracks (λ e. h (ap ok e))

load_track-other :
    (io : Files) (path other : String) (s : Storage)
    → (load_track io path s).1 ≢ ok other
    → lookup String_discrete other (load_track io path s).0.tracks
      ≡ lookup String_discrete other s.tracks
unfolding load_track
load_track-other io path other s h = elim (Option-cases (io.read_file (io.clean path))) [
  | inl e ↦ rw (e, load_track)
  | inr (contents, e) ↦
      rw (e, load_track)
        (store_frames-other (io.sha256_hex contents) other (extract_mp3_frames contents) s
          (rw (e, load_track) at h))
]

remove_track-lookup :
    (cid other : String) (s : Storage)
    → lookup String_discrete other (remove_track cid s).0.tracks
      ≡ ite (String_discrete cid other) none (lookup String_discrete other s.tracks)
unfolding remove_track
remove_track-lookup cid other s = ground (arith, lookup-delete String_discrete cid other s.tracks)

get_chunk-lookup :
    (cid : String) (index : ℤ) (s t : Storage)
    → lookup String_discrete cid s.tracks ≡ lookup String_discrete cid t.tracks
    → get_chunk cid index s ≡ get_chunk cid index t
unfolding get_chunk
get_chunk-lookup cid index s t e =
    ap (λ found. elim found [ none ↦ err track_not_found | some chunks ↦ chunk_at index chunks ]) e

-- `LoadTrack` and `RemoveTrack` change what `GetChunk` returns for no other track than the one
-- that they store or name.
pub get_chunk-other :
    (io : Files) (path cid other : String) (index : ℤ) (s : Storage)
    → ((load_track io path s).1 ≢ ok other
        → get_chunk other index (load_track io path s).0 ≡ get_chunk other index s)
      × (cid ≢ other → get_chunk other index (remove_track cid s).0 ≡ get_chunk other index s)
get_chunk-other io path cid other index s = (
  λ h. get_chunk-lookup other index _ s (load_track-other io path other s h),
  λ h.
      get_chunk-lookup other index _ s
        (remove_track-lookup cid other s ∙ if_neg (String_discrete cid other) h none _),
)

listed :
    (cid : String) (m : List (String × List Chunk))
    → ((lookup String_discrete cid m ≡ none)
        × (contains String_discrete cid (map (λ e. e.0) m) ≡ false))
      ⊎ ((cs : List Chunk) × (lookup String_discrete cid m ≡ some cs)
          × (contains String_discrete cid (map (λ e. e.0) m) ≡ true))
unfolding lookup contains
listed cid [] = inl (refl, refl)
listed cid ((j, cs) ∷ m) = ground (arith, listed cid m)

-- `RemoveTrack` succeeds on a track that `ListTracks` lists, and fails and changes nothing on any
-- other; afterwards the track is not listed and has no chunks.
pub remove_track-list_tracks :
    (cid : String) (s : Storage)
    → (contains String_discrete cid (list_tracks s) ≡ true → (remove_track cid s).1 ≡ ok tt)
      × (contains String_discrete cid (list_tracks s) ≡ false
          → remove_track cid s ≡ (s, err track_not_found))
      × (contains String_discrete cid (list_tracks (remove_track cid s).0) ≡ false)
      × (get_total_chunks cid (remove_track cid s).0 ≡ 0)
unfolding remove_track list_tracks get_total_chunks
remove_track-list_tracks cid s = ground (
  arith,
  listed cid s.tracks,
  listed cid (delete String_discrete cid s.tracks),
  lookup-delete_self String_discrete cid s.tracks,
)
