-- ===== src/Api/Tracks/Shared.antt =====
-- internal/api/handlers.go: a shared track in later requests, and a deleted one.
use music_p2p.Prelude.{false}
use Prim.Native.String.{◌++◌}
use music_p2p.Prelude.{
  ℕ, ◌≡◌, refl, ◌∙◌, ◌⊎◌, inl, inr, Bool, String, List, [], ◌∷◌, map, Option, none, some, arith,
  Option-cases, List-cases,
}
use music_p2p.Prelude.Assoc.{lookup, delete, lookup-insert_self, lookup-delete_self}
use music_p2p.Prelude.Text.{String_discrete}
use music_p2p.Metadata as Meta
use music_p2p.Scoring.{Floats}
use music_p2p.Metadata.{TrackMetadata, add_local, fill_meta_id, compute_meta_id, is_empty}
use music_p2p.Prelude.Int.{pos}
use music_p2p.Api.Names.Titles.{IsPlain, trim_ext-append}
use music_p2p.Storage.Chunks.{Chunk}
use music_p2p.Storage.Frames.{extract_mp3_frames}
use music_p2p.Storage.Tracks.{
  Storage, Error, ok, err, load_track, remove_track, list_tracks, get_total_chunks, Files,
  store_frames,
}
use music_p2p.Api.Models as Models
use music_p2p.Api.Models.{TrackInfo, Response, fail}
use music_p2p.Api.Server.{Backends, Server, Reply, json, called, write_status, write_json}
use music_p2p.Api.Tracks.{
  upload, track_info, share_title, share_metadata, handle_get_tracks, handle_share_track,
  handle_delete_track, share_form, share_upload, share_described, share_loaded, save_metadata,
  announce_track, delete_stored,
}
use music_p2p.Api.Library.{handle_get_metadata}

-- The chunk count that a list of tracks shows for a CID.
pub count_of : String → List TrackInfo → Option ℕ
count_of cid [] = none
count_of cid (t ∷ ts) = elim (String_discrete t.cid cid) [
  | yes _ ↦ some t.chunk_count
  | no _ ↦ count_of cid ts
]

count_of-map :
    (cid : String) (stor : Storage) (m : List (String × List Chunk))
    → count_of cid (map (track_info stor) (map (λ e. e.0) m))
      ≡ (elim (lookup String_discrete cid m) [
        | none ↦ none
        | some cs ↦ some (get_total_chunks cid stor)
      ])
unfolding count_of lookup track_info
count_of-map cid stor [] = refl
count_of-map cid stor ((j, cs) ∷ m) = ground (arith, count_of-map cid stor m)

module _ (fl : Floats) (bk : Backends fl) where
  open fl use {Float}

  -- The chunk count that the reply to `GET /tracks` shows for a CID.
  abbrev pub shown_count : String → Reply fl bk → Option ℕ
  shown_count cid (json code response) = elim response.content [
    | Models.tracks infos ↦ count_of cid infos
    | _ ↦ none
  ]
  shown_count cid reply = none

  get_tracks-count :
      (cid : String) (s : Server fl bk) (stor : Storage)
      → s.stor ≡ some stor
      → shown_count cid (handle_get_tracks fl bk s).1
        ≡ (elim (lookup String_discrete cid stor.tracks) [
          | none ↦ none
          | some cs ↦ some (get_total_chunks cid stor)
        ])
  unfolding handle_get_tracks write_json Models.ok list_tracks
  get_tracks-count cid s stor e = rw (e, handle_get_tracks) (count_of-map cid stor stor.tracks)

-- `LoadTrack` fails, or it returns the CID under which it stored chunks.
load_track_cases :
    (io : Files) (path : String) (stor : Storage)
    → ((e : Error) × ((load_track io path stor).1 ≡ err e))
      ⊎ ((cid : String) × (cs : List Chunk) × ((load_track io path stor).1 ≡ ok cid)
          × (lookup String_discrete cid (load_track io path stor).0.tracks ≡ some cs))
unfolding load_track store_frames
load_track_cases io path stor = elim (Option-cases (io.read_file (io.clean path))) [
  | inl e ↦ rw (e, load_track) (inl (_, refl))
  | inr (contents, e) ↦ elim (List-cases (extract_mp3_frames contents)) [
    | inl f ↦ rw (e, f, load_track) (inl (_, refl))
    | inr (x, xs, f) ↦
        rw (e, f, load_track)
          (inr
            (_, _, refl, lookup-insert_self String_discrete (io.sha256_hex contents) _ stor.tracks))
  ]
]

load_track-found :
    (io : Files) (path : String) (stor : Storage) (cid : String)
    → (load_track io path stor).1 ≡ ok cid
    → (cs : List Chunk) × (lookup String_discrete cid (load_track io path stor).0.tracks ≡ some cs)
load_track-found io path stor cid h = elim (load_track_cases io path stor) [
  | inl (e, f) ↦ absurd (cc)
  | inr (other, cs, f, found) ↦ (cs, let same : other ≡ cid = cc in rw (← same) found)
]

get-add_local :
    (io : Meta.Externals) (m : TrackMetadata) (store : Meta.Store)
    → Meta.get m.cid (add_local io m store) ≡ some (fill_meta_id io m)
unfolding Meta.get add_local Meta.upsert fill_meta_id
get-add_local io m store =
    ground (arith, lookup-insert_self String_discrete m.cid (fill_meta_id io m) store.index)

-- The metadata that an upload with this title is stored with.
abbrev pub described : Meta.Externals → String → String → TrackMetadata
described io cid title = record {
  cid = cid;
  meta_id = compute_meta_id io title "Unknown" (pos 0);
  title = title;
  artist = "Unknown";
  duration = pos 0;
  variants = [];
}

get-share_metadata :
    (io : Meta.Externals) (cid title : String) (store : Meta.Store)
    → Meta.get cid (add_local io (share_metadata title cid) store) ≡ some (described io cid title)
unfolding share_metadata fill_meta_id is_empty String_discrete
get-share_metadata io cid title store = get-add_local io (share_metadata title cid) store

share_title-append :
    (name ext cid : String)
    → IsPlain ext
    → is_empty name ≡ false
    → share_title (name ++ ("." ++ ext)) cid ≡ some name
unfolding share_title
share_title-append name ext cid h nonempty =
    rw ((trim_ext-append name ext h).0, share_title, nonempty)

module _ (fl : Floats) (bk : Backends fl) where
  open fl use {Float}

  share_track-created :
      (filename temp cid title : String) (announce : Bool) (contents : List ℕ) (s : Server fl bk)
      (stor : Storage) (store : Meta.Store)
      → s.stor ≡ some stor
      → s.meta ≡ some store
      → (load_track (bk.files_with temp contents) temp stor).1 ≡ ok cid
      → share_title filename cid ≡ some title
      → let stor' = (load_track (bk.files_with temp contents) temp stor).0 in
        let (t, reply) = handle_share_track fl bk (upload filename announce temp contents) s in
        (reply ≡ json 201 (Models.ok (Models.track (track_info stor' cid))))
        × (t.stor ≡ some stor')
        × (t.meta ≡ some (add_local bk.meta_io (share_metadata title cid) store))
  unfolding handle_share_track share_form share_upload share_described share_loaded save_metadata
      announce_track called write_status
  share_track-created filename temp cid title announce contents s stor store e f g h =
      ground (arith, e, f, g, h)

  get_tracks-found :
      (cid : String) (t : Server fl bk) (st : Storage) (cs : List Chunk)
      → t.stor ≡ some st
      → lookup String_discrete cid st.tracks ≡ some cs
      → shown_count fl bk cid (handle_get_tracks fl bk t).1 ≡ some (get_total_chunks cid st)
  get_tracks-found cid t st cs e f = get_tracks-count fl bk cid t st e ∙ rw f

  get_metadata-found :
      (cid title : String) (t : Server fl bk) (store : Meta.Store)
      → t.meta ≡ some (add_local bk.meta_io (share_metadata title cid) store)
      → (handle_get_metadata fl bk cid t).1
        ≡ json 200 (Models.ok (Models.metadata (described bk.meta_io cid title)))
  unfolding handle_get_metadata write_json
  get_metadata-found cid title t store e =
      rw (e, handle_get_metadata, get-share_metadata bk.meta_io cid title store)

  delete_track-found :
      (cid : String) (t : Server fl bk) (st : Storage) (cs : List Chunk)
      → t.stor ≡ some st
      → lookup String_discrete cid st.tracks ≡ some cs
      → let (u, reply) = handle_delete_track fl bk cid t in
        (reply ≡ json 200 (Models.ok Models.nothing))
        × (u.stor ≡ some (record st { tracks = delete String_discrete cid st.tracks }))
  unfolding handle_delete_track delete_stored remove_track write_json
  delete_track-found cid t st cs e f = ground (arith, e, f)

  get_tracks-deleted :
      (cid : String) (u : Server fl bk) (st : Storage)
      → u.stor ≡ some (record st { tracks = delete String_discrete cid st.tracks })
      → shown_count fl bk cid (handle_get_tracks fl bk u).1 ≡ none
  get_tracks-deleted cid u st e =
      get_tracks-count fl bk cid u (record st { tracks = delete String_discrete cid st.tracks }) e
      ∙ rw (lookup-delete_self String_discrete cid st.tracks)

  -- An upload of a file `name.ext` that is accepted, with a store of metadata, is answered with 201 and its
  -- CID. After that `GET /tracks` shows the CID with the chunk count of the reply, `GET /metadata/{cid}`
  -- shows the title `name`, the artist "Unknown", no duration and the MetaID that these have; and
  -- `DELETE /tracks/{cid}` is answered with 200, after which `GET /tracks` does not show the CID. The
  -- extension has no dot and no slash, and the name is not empty.
  pub handle_share_track-shown :
      (name ext temp cid : String) (announce : Bool) (contents : List ℕ) (s : Server fl bk)
      (stor : Storage) (store : Meta.Store)
      → IsPlain ext
      → is_empty name ≡ false
      → s.stor ≡ some stor
      → s.meta ≡ some store
      → (load_track (bk.files_with temp contents) temp stor).1 ≡ ok cid
      → let form = upload (name ++ ("." ++ ext)) announce temp contents in
        let (t, reply) = handle_share_track fl bk form s in
        let (u, deleted) = handle_delete_track fl bk cid t in
        (n : ℕ) × (reply
          ≡ json 201 (Models.ok (Models.track (record { cid = cid; chunk_count = n }))))
        × (shown_count fl bk cid (handle_get_tracks fl bk t).1 ≡ some n)
        × ((handle_get_metadata fl bk cid t).1
            ≡ json 200 (
                Models.ok (
                  Models.metadata (record {
                    cid = cid;
                    meta_id = compute_meta_id bk.meta_io name "Unknown" (pos 0);
                    title = name;
                    artist = "Unknown";
                    duration = pos 0;
                    variants = [];
                  }))))
        × (deleted ≡ json 200 (Models.ok Models.nothing))
        × (shown_count fl bk cid (handle_get_tracks fl bk u).1 ≡ none)
  unfolding track_info
  handle_share_track-shown name ext temp cid announce contents s stor store plain nonempty e f g =
      let (created, stor_eq, meta_eq) =
        share_track-created (name ++ ("." ++ ext)) temp cid name announce contents s stor store e f
          g (share_title-append name ext cid plain nonempty) in
      let (cs, found) = load_track-found (bk.files_with temp contents) temp stor cid g in
      let (deleted, left) = delete_track-found cid _ _ cs stor_eq found in
      (
        get_total_chunks cid (load_track (bk.files_with temp contents) temp stor).0,
        created,
        get_tracks-found cid _ _ cs stor_eq found,
        get_metadata-found cid name _ store meta_eq,
        deleted,
        get_tracks-deleted cid _ _ left,
      )
