-- ===== src/Metadata.antt =====
-- internal/metadata/metadata.go: the store of track metadata. The lock makes each method one atomic
-- step. Hashes, JSON, base64, keys and signatures are parameters.
pub mod Examples
pub mod Index
pub mod Publishing
mod Tests
use Prim.Native.String.{◌++◌}
use music_p2p.Prelude.{
  ℕ, zero, suc, ◌+◌, Bool, true, false, not, ◌||◌, String, List, [], ◌∷◌, map, Option, none, some,
  ltb, if◌then◌else◌,
}
use music_p2p.Prelude.Assoc.{lookup, insert}
use music_p2p.Prelude.Int.{ℤ, pos, negsuc}
use music_p2p.Prelude.Text.{String_discrete}
use music_p2p.Bitrate.{Variant}

pub record TrackMetadata : Type 0 where
  pub cid : String
  pub meta_id : String
  pub title : String
  pub artist : String
  pub duration : ℤ
  pub variants : List Variant

pub record SignedEnvelope : Type 0 where
  pub metadata : TrackMetadata
  pub signature : String
  pub peer_id : String

-- What the code uses of other packages; `none` is an error.
pub record Externals : Type 1 where
  pub PeerId : Type 0
  pub Key : Type 0
  pub sha256_hex : String → String
  pub duration_string : ℤ → String
  pub to_lower : String → String
  pub has_substring : String → String → Bool
  pub decode_peer : String → Option PeerId
  pub extract_key : PeerId → Option Key
  pub marshal : TrackMetadata → Option (List ℕ)
  pub decode_base64 : String → Option (List ℕ)
  pub verify_with : Key → List ℕ → List ℕ → Option Bool

pub record Store : Type 0 where
  pub index : List (String × TrackMetadata)
  pub by_meta : List (String × TrackMetadata)

unfoldable pub new_local_store : Store
new_local_store = record { index = []; by_meta = [] }

-- `s == ""`
unfoldable pub is_empty : String → Bool
is_empty s = elim (String_discrete s "") [ yes _ ↦ true | no _ ↦ false ]

unfoldable pub is_zero : ℤ → Bool
is_zero (pos zero) = true
is_zero (pos (suc n)) = false
is_zero (negsuc n) = false

unfoldable pub has_some {ℓ} : {A : Type ℓ} → List A → Bool
has_some [] = false
has_some (x ∷ xs) = true

unfoldable pub completeness : TrackMetadata → ℕ
completeness m =
    (if not (is_empty m.title) then 1 else 0)
    + (if not (is_empty m.artist) then 1 else 0)
    + (if not (is_zero m.duration) then 1 else 0)
    + (if has_some m.variants then 1 else 0)

-- The write to `byMeta` at the end of `upsert`.
unfoldable pub keep_best :
    TrackMetadata → List (String × TrackMetadata) → List (String × TrackMetadata)
keep_best meta by_meta = elim (lookup String_discrete meta.meta_id by_meta) [
  | none ↦ insert String_discrete meta.meta_id meta by_meta
  | some existing ↦
      if ltb (completeness existing) (completeness meta)
      then insert String_discrete meta.meta_id meta by_meta
      else by_meta
]

unfoldable pub upsert : TrackMetadata → Store → Store
upsert meta s = record {
  index = insert String_discrete meta.cid meta s.index;
  by_meta = if is_empty meta.meta_id then s.by_meta else keep_best meta s.by_meta;
}

unfoldable pub get : String → Store → Option TrackMetadata
get cid s = lookup String_discrete cid s.index

unfoldable pub get_by_meta_id : String → Store → Option TrackMetadata
get_by_meta_id meta_id s = lookup String_discrete meta_id s.by_meta

unfoldable pub all : Store → List TrackMetadata
all s = map (λ e. e.1) s.index

module _ (io : Externals) where
  unfoldable pub compute_meta_id : String → String → ℤ → String
  compute_meta_id title artist duration =
      io.sha256_hex ((title ++ artist) ++ io.duration_string duration)

  -- `if meta.MetaID == ""`
  unfoldable pub fill_meta_id : TrackMetadata → TrackMetadata
  fill_meta_id meta =
      if is_empty meta.meta_id
      then record meta { meta_id = compute_meta_id meta.title meta.artist meta.duration }
      else meta

  unfoldable pub add_local : TrackMetadata → Store → Store
  add_local meta s = upsert (fill_meta_id meta) s

  -- The last steps of `verify`, from the key and the payload on.
  unfoldable pub verify_payload : io.Key → List ℕ → String → Bool
  verify_payload key payload signature = elim (io.decode_base64 signature) [
    | none ↦ false
    | some sig ↦ elim (io.verify_with key payload sig) [ none ↦ false | some valid ↦ valid ]
  ]

  unfoldable pub verify_from : io.PeerId → SignedEnvelope → Bool
  verify_from sender env = elim (io.extract_key sender) [
    | none ↦ false
    | some key ↦ elim (io.marshal env.metadata) [
      | none ↦ false
      | some payload ↦ verify_payload key payload env.signature
    ]
  ]

  -- `verify(env) == nil`
  unfoldable pub verify : SignedEnvelope → Bool
  verify env = elim (io.decode_peer env.peer_id) [
    | none ↦ false
    | some sender ↦ verify_from sender env
  ]

  -- One round of `receiveLoop`; `decoded` is the result of `json.Unmarshal`.
  unfoldable pub receive : Option SignedEnvelope → Store → Store
  receive none s = s
  receive (some env) s =
      if is_empty env.signature || is_empty env.peer_id
      then s
      else if verify env
      then upsert (fill_meta_id env.metadata) s
      else s

  -- The loop of `Search`.
  unfoldable pub matching : String → List TrackMetadata → List TrackMetadata
  matching q [] = []
  matching q (m ∷ ms) =
      if io.has_substring (io.to_lower m.title) q || io.has_substring (io.to_lower m.artist) q
      then m ∷ matching q ms
      else matching q ms

  unfoldable pub search : String → Store → List TrackMetadata
  search query s = matching (io.to_lower query) (all s)
