-- ===== src/Metadata/Publishing.antt =====
-- internal/metadata/metadata.go: `Publish` and `sign`, and a published entry at another node. The host's
-- key, base64, JSON and the topic are parameters.
use music_p2p.Prelude.{
  inr, inl, ℕ, ◌≡◌, ap, ◌∙◌, Bool, true, false, String, List, Option, none, some, arith,
  Option-cases, if◌then◌else◌,
}
use music_p2p.Metadata.{
  TrackMetadata, SignedEnvelope, Externals, Store, is_empty, compute_meta_id, fill_meta_id,
  add_local, upsert, verify, verify_from, verify_payload, receive,
}

-- What `Publish` did: nothing, since there is no topic or host; an error; or the data for the topic.
pub data Published : Type 0 where
  skipped failed : Published
  sent : List ℕ → Published

-- The host of the store and its topic. `priv_key` signs; `none` is a missing key or an error.
pub record Publisher : Type 0 where
  pub has_topic : Bool
  pub peer_id : String
  pub priv_key : Option (List ℕ → Option (List ℕ))
  pub encode_base64 : List ℕ → String
  pub marshal_envelope : SignedEnvelope → Option (List ℕ)
  pub unmarshal_envelope : List ℕ → Option SignedEnvelope
  pub topic_accepts : List ℕ → Bool

module _ (io : Externals) (pb : Publisher) where
  unfoldable pub signed : TrackMetadata → List ℕ → SignedEnvelope
  signed meta sig = record {
    metadata = meta;
    signature = pb.encode_base64 sig;
    peer_id = pb.peer_id;
  }

  unfoldable pub sign : TrackMetadata → Option SignedEnvelope
  sign meta = elim pb.priv_key [
    | none ↦ none
    | some key ↦ elim (io.marshal meta) [
      | none ↦ none
      | some payload ↦ elim (key payload) [ none ↦ none | some sig ↦ some (signed meta sig) ]
    ]
  ]

  unfoldable pub publish_envelope : SignedEnvelope → Published
  publish_envelope env = elim (pb.marshal_envelope env) [
    | none ↦ failed
    | some bytes ↦ if pb.topic_accepts bytes then sent bytes else failed
  ]

  unfoldable pub publish : TrackMetadata → Published
  unfolding sign publish_envelope
  publish meta =
      if pb.has_topic
      then elim (sign (fill_meta_id io meta)) [ none ↦ failed | some env ↦ publish_envelope env ]
      else skipped

  -- What the packages document: texts of ids and of base64 read back, a signature by the host's key is
  -- valid for its peer id, and JSON of an envelope reads back.
  pub record IsLawful (id : io.PeerId) (public : io.Key) : Type 0 where
    pub decode_peer : io.decode_peer pb.peer_id ≡ some id
    pub extract_key : io.extract_key id ≡ some public
    pub base64 : (sig : List ℕ) → io.decode_base64 (pb.encode_base64 sig) ≡ some sig
    pub signature :
        (key : List ℕ → Option (List ℕ)) (payload sig : List ℕ)
        → pb.priv_key ≡ some key
        → key payload ≡ some sig
        → io.verify_with public payload sig ≡ some true
    pub json :
        (env : SignedEnvelope) (bytes : List ℕ)
        → pb.marshal_envelope env ≡ some bytes
        → pb.unmarshal_envelope bytes ≡ some env
    pub shown_id : is_empty pb.peer_id ≡ false
    pub shown_sig : (sig : List ℕ) → is_empty (pb.encode_base64 sig) ≡ false

  sign-some :
      (meta : TrackMetadata) {env : SignedEnvelope}
      → sign meta ≡ some env
      → (key : List ℕ → Option (List ℕ)) × (payload : List ℕ) × (sig : List ℕ) × (pb.priv_key
          ≡ some key)
        × (io.marshal meta ≡ some payload)
        × (key payload ≡ some sig)
        × (env ≡ signed meta sig)
  unfolding sign
  sign-some meta e = elim (Option-cases pb.priv_key) [
    | inl f ↦ absurd (ground (arith, e, f))
    | inr (key, f) ↦ elim (Option-cases (io.marshal meta)) [
      | inl g ↦ absurd (ground (arith, e, f, g))
      | inr (payload, g) ↦ elim (Option-cases (key payload)) [
        | inl h ↦ absurd (ground (arith, e, f, g, h))
        | inr (sig, h) ↦ (key, payload, sig, f, g, h, ground (arith, e, f, g, h))
      ]
    ]
  ]

  verify-signed :
      (id : io.PeerId) (public : io.Key) (meta : TrackMetadata) (key : List ℕ → Option (List ℕ))
      (payload sig : List ℕ)
      → IsLawful id public
      → pb.priv_key ≡ some key
      → io.marshal meta ≡ some payload
      → key payload ≡ some sig
      → verify io (signed meta sig) ≡ true
  unfolding signed verify verify_from verify_payload
  verify-signed id public meta key payload sig l f g h = rw (
    verify,
    l.decode_peer,
    verify_from,
    l.extract_key,
    g,
    verify_payload,
    l.base64 sig,
    l.signature key payload sig f h,
  )

  receive-signed :
      (meta : TrackMetadata) (sig : List ℕ) (s : Store) (id : io.PeerId) (public : io.Key)
      → IsLawful id public
      → verify io (signed meta sig) ≡ true
      → receive io (some (signed meta sig)) s ≡ upsert (fill_meta_id io meta) s
  unfolding receive signed
  receive-signed meta sig s id public l v = rw (receive, l.shown_id, l.shown_sig sig, v)

  -- `Publish` fills in the MetaID that `AddLocal` would.
  fill_meta_id_twice :
      (meta : TrackMetadata)
      → is_empty (compute_meta_id io meta.title meta.artist meta.duration) ≡ false
      → fill_meta_id io (fill_meta_id io meta) ≡ fill_meta_id io meta
  unfolding fill_meta_id
  fill_meta_id_twice meta h = ground (arith, h)

  publish-sent :
      (meta : TrackMetadata) (bytes : List ℕ)
      → publish meta ≡ sent bytes
      → (env : SignedEnvelope) × (sign (fill_meta_id io meta) ≡ some env)
        × (pb.marshal_envelope env ≡ some bytes)
  unfolding publish publish_envelope
  publish-sent meta bytes e = elim (Option-cases (sign (fill_meta_id io meta))) [
    | inl f ↦ absurd (ground (arith, e, f))
    | inr (env, f) ↦ (env, f, ground (arith, e, f))
  ]

  -- What a node publishes is stored by a node that receives it as if it had been added there: the
  -- envelope passes `verify`, and the MetaID is the one that `AddLocal` computes. This holds if
  -- signatures, ids, base64 and JSON read back as documented, the computed MetaID is not empty, and
  -- the topic took the data.
  pub receive-publish :
      (id : io.PeerId) (public : io.Key) (meta : TrackMetadata) (bytes : List ℕ) (s : Store)
      → IsLawful id public
      → is_empty (compute_meta_id io meta.title meta.artist meta.duration) ≡ false
      → publish meta ≡ sent bytes
      → receive io (pb.unmarshal_envelope bytes) s ≡ add_local io meta s
  unfolding add_local
  receive-publish id public meta bytes s l filled e =
      let (env, signs, writes) = publish-sent meta bytes e in
      let (key, payload, sig, f, g, h, same) = sign-some (fill_meta_id io meta) signs in
      let v = verify-signed id public (fill_meta_id io meta) key payload sig l f g h in
      ap (λ o. receive io o s) (l.json env bytes writes ∙ ap some same)
      ∙ receive-signed (fill_meta_id io meta) sig s id public l v
      ∙ ap (λ m. upsert m s) (fill_meta_id_twice meta filled)
