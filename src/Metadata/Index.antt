-- ===== src/Metadata/Index.antt =====
-- internal/metadata/metadata.go: what the store holds.
use Prim.Native.String.{◌++◌}
use text.Mathlib.TextLemmas as Text
use music_p2p.Prelude.{
  ◌≤◌, ◌≡◌, ◌≢◌, refl, sym, ap, subst, ◌∙◌, ◌⊎◌, inl, inr, Bool, true, false, ◌||◌, String, List,
  [], ◌∷◌, Option, none, some, ltb, if◌then◌else◌, arith, All, All-imp, Bool-cases, Option-cases,
}
use music_p2p.Prelude.Assoc.{lookup, lookup-insert_self, lookup-insert_ne}
use music_p2p.Prelude.Int.{ℤ}
use music_p2p.Prelude.Text.{String_discrete}
use music_p2p.Metadata.{
  TrackMetadata, SignedEnvelope, Externals, Store, new_local_store, is_empty, completeness,
  keep_best, upsert, get_by_meta_id, compute_meta_id, add_local, verify, receive,
}

-- Titles and artists that are cut apart elsewhere give the same MetaID: the hash does not separate
-- the title from the artist.
pub compute_meta_id-append :
    (io : Externals) (title middle artist : String) (duration : ℤ)
    → compute_meta_id io (title ++ middle) artist duration
      ≡ compute_meta_id io title (middle ++ artist) duration
unfolding compute_meta_id
compute_meta_id-append io title middle artist duration =
    ap (λ t. io.sha256_hex (t ++ io.duration_string duration))
      (Text.append_assoc title middle artist)

or_left : (a b : Bool) → (a || b) ≡ false → a ≡ false
or_left true b h = cc
or_left false b h = refl

-- A message of another peer changes the store only if it is a signed envelope that passes
-- `verify`; then its metadata is stored as by `AddLocal`.
pub receive-verify :
    (io : Externals) (decoded : Option SignedEnvelope) (s : Store)
    → (receive io decoded s ≡ s)
      ⊎ ((env : SignedEnvelope) × (decoded ≡ some env)
          × (verify io env ≡ true)
          × (is_empty env.signature ≡ false)
          × (receive io decoded s ≡ add_local io env.metadata s))
unfolding receive add_local
receive-verify io none s = inl refl
receive-verify io (some env) s =
    elim (Bool-cases (is_empty env.signature || is_empty env.peer_id)) [
      | inl e ↦ rw (receive, e) (inl refl)
      | inr e ↦ elim (Bool-cases (verify io env)) [
        | inl v ↦ inr (
          env,
          refl,
          v,
          or_left (is_empty env.signature) (is_empty env.peer_id) e,
          rw (receive, e, v) refl,
        )
        | inr v ↦ inl (rw (receive, e, v) refl)
      ]
    ]

-- The metadata that were stored one after the other, the last one first.
pub upsert_all : List TrackMetadata → Store
upsert_all [] = new_local_store
upsert_all (m ∷ ms) = upsert m (upsert_all ms)

-- What the store has for a MetaID is at least as complete as all that was stored for it.
abbrev pub IsBest : String → List TrackMetadata → Option TrackMetadata → Type 0
IsBest id ms none = All (λ m. m.meta_id ≢ id) ms
IsBest id ms (some best) =
    (best.meta_id ≡ id) × All (λ m. (m.meta_id ≢ id) ⊎ (completeness m ≤ completeness best)) ms

-- The better of the entry so far and a new one.
abbrev better : TrackMetadata → Option TrackMetadata → Option TrackMetadata
better m none = some m
better m (some e) = some (if ltb (completeness e) (completeness m) then m else e)

IsBest-other :
    (id : String) (m : TrackMetadata) (ms : List TrackMetadata) (o : Option TrackMetadata)
    → m.meta_id ≢ id
    → IsBest id ms o
    → IsBest id (m ∷ ms) o
IsBest-other id m ms none h b = (h, b)
IsBest-other id m ms (some e) h b = (b.0, (inl h, b.1))

raise :
    (id : String) (m e : TrackMetadata) (ms : List TrackMetadata)
    → completeness e ≤ completeness m
    → All (λ q. (q.meta_id ≢ id) ⊎ (completeness q ≤ completeness e)) ms
    → All (λ q. (q.meta_id ≢ id) ⊎ (completeness q ≤ completeness m)) ms
raise id m e ms h b =
    All-imp _ _ ms (λ q c. elim c [ inl n ↦ inl n | inr l ↦ inr (omega (arith, l)) ]) b

IsBest-pick :
    (id : String) (m e : TrackMetadata) (ms : List TrackMetadata) (higher : Bool)
    → ltb (completeness e) (completeness m) ≡ higher
    → m.meta_id ≡ id
    → IsBest id ms (some e)
    → IsBest id (m ∷ ms) (some (if higher then m else e))
IsBest-pick id m e ms true f h b = (h, (inr (omega arith), raise id m e ms (ground arith) b.1))
IsBest-pick id m e ms false f h b = (b.0, (inr (ground arith), b.1))

IsBest-same :
    (id : String) (m : TrackMetadata) (ms : List TrackMetadata) (o : Option TrackMetadata)
    → m.meta_id ≡ id
    → IsBest id ms o
    → IsBest id (m ∷ ms) (better m o)
IsBest-same id m ms none h b =
    (h, (inr (omega arith), All-imp (λ q. q.meta_id ≢ id) _ ms (λ q n. inl n) b))
IsBest-same id m ms (some e) h b =
    IsBest-pick id m e ms (ltb (completeness e) (completeness m)) refl h b

keep_best-other :
    (m : TrackMetadata) (id : String) (bm : List (String × TrackMetadata))
    → m.meta_id ≢ id
    → lookup String_discrete id (keep_best m bm) ≡ lookup String_discrete id bm
unfolding keep_best
keep_best-other m id bm h = elim (Option-cases (lookup String_discrete m.meta_id bm)) [
  | inl e ↦ rw (keep_best, e) (lookup-insert_ne String_discrete m.meta_id id m bm h)
  | inr (x, e) ↦ elim (Bool-cases (ltb (completeness x) (completeness m))) [
    | inl f ↦ rw (keep_best, e, f) (lookup-insert_ne String_discrete m.meta_id id m bm h)
    | inr f ↦ rw (keep_best, e, f) refl
  ]
]

keep_best_self :
    (m : TrackMetadata) (bm : List (String × TrackMetadata))
    → lookup String_discrete m.meta_id (keep_best m bm)
      ≡ better m (lookup String_discrete m.meta_id bm)
unfolding keep_best
keep_best_self m bm = elim (Option-cases (lookup String_discrete m.meta_id bm)) [
  | inl e ↦ rw (keep_best, e) (lookup-insert_self String_discrete m.meta_id m bm)
  | inr (x, e) ↦ elim (Bool-cases (ltb (completeness x) (completeness m))) [
    | inl f ↦ rw (keep_best, e, f) (lookup-insert_self String_discrete m.meta_id m bm)
    | inr f ↦ rw (keep_best, e, f) e
  ]
]

keep_best-id :
    (id : String) (m : TrackMetadata) (bm : List (String × TrackMetadata))
    → m.meta_id ≡ id
    → lookup String_discrete id (keep_best m bm) ≡ better m (lookup String_discrete id bm)
keep_best-id id m bm p = rw (← p) (keep_best_self m bm)

is_empty-empty : (s : String) → is_empty s ≡ true → s ≡ ""
unfolding is_empty
is_empty-empty s h = ground (arith, h)

upsert-IsBest :
    (id : String) (m : TrackMetadata) (ms : List TrackMetadata) (s : Store)
    → id ≢ ""
    → IsBest id ms (get_by_meta_id id s)
    → IsBest id (m ∷ ms) (get_by_meta_id id (upsert m s))
unfolding get_by_meta_id upsert
upsert-IsBest id m ms s n b = elim (Bool-cases (is_empty m.meta_id)) [
  | inl e ↦ rw e (IsBest-other id m ms _ (λ p. n (sym p ∙ is_empty-empty m.meta_id e)) b)
  | inr e ↦ elim (String_discrete m.meta_id id) [
    | yes p ↦
        let same : get_by_meta_id id (upsert m s) ≡ better m (get_by_meta_id id s) =
          rw e (keep_best-id id m s.by_meta p) in
        subst (IsBest id (m ∷ ms)) (sym same) (IsBest-same id m ms (get_by_meta_id id s) p b)
    | no p ↦ rw (e, keep_best-other m id s.by_meta p) (IsBest-other id m ms _ p b)
  ]
]

empty-IsBest : (id : String) → IsBest id [] (get_by_meta_id id new_local_store)
unfolding get_by_meta_id new_local_store lookup
empty-IsBest id = tt

-- For every MetaID, after any metadata were stored, `GetByMetaID` returns an entry with this MetaID
-- that is at least as complete as each that was stored for it; and it returns nothing only if none
-- was.
pub upsert_all-IsBest :
    (id : String) (ms : List TrackMetadata)
    → id ≢ ""
    → IsBest id ms (get_by_meta_id id (upsert_all ms))
unfolding upsert_all
upsert_all-IsBest id [] n = empty-IsBest id
upsert_all-IsBest id (m ∷ ms) n =
    upsert-IsBest id m ms (upsert_all ms) n (upsert_all-IsBest id ms n)
