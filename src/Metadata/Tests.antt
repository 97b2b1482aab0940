-- ===== src/Metadata/Tests.antt =====
-- internal/metadata/metadata.go: two entries for one track.
use Prim.Native.Char.{code}
use Prim.Native.String.{String}
use music_p2p.Prelude.{
  zero, suc, ◌==◌, if◌then◌else◌, ◌∙◌, arith, refl, ap, ℕ, ℕ_discrete, none, List, ◌≡◌, ◌⊎◌, ◌≢◌,
  String, [], ◌∷◌, true, false, Option, some,
}
use music_p2p.Prelude.Int.{ℤ, pos, negsuc}
use music_p2p.Prelude.Text.{String_discrete}
use music_p2p.Metadata.{
  TrackMetadata, SignedEnvelope, Externals, new_local_store, get_by_meta_id, compute_meta_id,
  is_empty, verify, receive, add_local, fill_meta_id,
}
use music_p2p.Bitrate.{Variant}
use music_p2p.Metadata.Publishing.{signed, Publisher, IsLawful, publish, sent, receive-publish}
use music_p2p.Metadata.Examples.{plain}
use music_p2p.Metadata.Index.{IsBest, upsert_all, receive-verify, upsert_all-IsBest}

abbrev full : TrackMetadata
full = record {
  cid = "c1";
  meta_id = "m1";
  title = "One";
  artist = "A";
  duration = pos 180;
  variants = [];
}

abbrev sparse : TrackMetadata
sparse = record full { cid = "c2"; artist = "" }

abbrev envelope : SignedEnvelope
envelope = record { metadata = full; signature = "L"; peer_id = "p1" }

receive-verify_example :
    (receive plain (some envelope) new_local_store ≡ new_local_store)
    ⊎ ((env : SignedEnvelope) × (◌≡◌ {A = Option SignedEnvelope} (some envelope) (some env))
        × (verify plain env ≡ true)
        × (is_empty env.signature ≡ false)
        × (receive plain (some envelope) new_local_store
            ≡ add_local plain env.metadata new_local_store))
receive-verify_example = receive-verify plain (some envelope) new_local_store

not_empty : ◌≢◌ {A = String} "m1" ""
not_empty = λ p. cc

upsert_all-IsBest_example :
    IsBest "m1" (sparse ∷ full ∷ []) (get_by_meta_id "m1" (upsert_all (sparse ∷ full ∷ [])))
upsert_all-IsBest_example = upsert_all-IsBest "m1" (sparse ∷ full ∷ []) not_empty

-- Whether an envelope is that one.
both : {A B : Type 0} → Dec A → Dec B → Dec (A × B)
both (yes a) (yes b) = yes (a, b)
both (no f) _ = no (λ p. f p.0)
both (yes a) (no g) = no (λ p. g p.1)

is_three_minutes : (d : ℤ) → Dec (d ≡ pos 180)
is_three_minutes (pos n) = elim (ℕ_discrete n 180) [
  | yes p ↦ yes (ap pos p)
  | no f ↦ no (λ p. f (cc))
]
is_three_minutes (negsuc n) = no (λ p. cc)

is_nil : (vs : List Variant) → Dec (vs ≡ [])
is_nil [] = yes refl
is_nil (v ∷ vs) = no (λ p. cc)

abbrev Same : SignedEnvelope → Type 0
Same env =
    (env.peer_id ≡ "p1")
    × ((env.signature ≡ "L")
        × ((env.metadata.cid ≡ "c1")
            × ((env.metadata.meta_id ≡ "m1")
                × ((env.metadata.title ≡ "One")
                    × ((env.metadata.artist ≡ "A")
                        × ((env.metadata.duration ≡ pos 180) × (env.metadata.variants ≡ [])))))))

same : (env : SignedEnvelope) → Dec (Same env)
same env = both (String_discrete env.peer_id "p1") (
    both (String_discrete env.signature "L") (
      both (String_discrete env.metadata.cid "c1") (
        both (String_discrete env.metadata.meta_id "m1") (
          both (String_discrete env.metadata.title "One") (
            both (String_discrete env.metadata.artist "A")
              (both (is_three_minutes env.metadata.duration) (is_nil env.metadata.variants)))))))

Same-envelope : (env : SignedEnvelope) → Same env → envelope ≡ env
Same-envelope env h = cc

-- Bytes as a text, in unary.
abbrev unary : ℕ → String → String
unary zero rest = String.◌∷◌ "N" rest
unary (suc n) rest = String.◌∷◌ "S" (unary n rest)

abbrev as_text : List ℕ → String
as_text [] = ""
as_text (b ∷ bs) = unary b (as_text bs)

abbrev one_more : List ℕ → List ℕ
one_more [] = []
one_more (n ∷ ns) = suc n ∷ ns

abbrev from_text : String → List ℕ
from_text String.[] = []
from_text (String.◌∷◌ c s) = if code c == b'S' then one_more (from_text s) else 0 ∷ from_text s

from_text-unary : (n : ℕ) (rest : String) → from_text (unary n rest) ≡ n ∷ from_text rest
from_text-unary zero rest = refl
from_text-unary (suc n) rest = ap one_more (from_text-unary n rest)

from_text-as_text : (bs : List ℕ) → from_text (as_text bs) ≡ bs
from_text-as_text [] = refl
from_text-as_text (b ∷ bs) =
    from_text-unary b (as_text bs) ∙ ap (λ rest. b ∷ rest) (from_text-as_text bs)

abbrev decode_text : String → Option (List ℕ)
decode_text String.[] = none
decode_text (String.◌∷◌ c s) = some (from_text s)

abbrev lettered : Externals
lettered = record plain { decode_base64 = decode_text }

-- A key that signs with no bytes, and JSON that writes one envelope only.
abbrev publisher : Publisher
publisher = record {
  has_topic = true;
  peer_id = "p1";
  priv_key = some (λ payload. some []);
  encode_base64 = λ sig. String.◌∷◌ "L" (as_text sig);
  marshal_envelope = λ env. elim (same env) [ yes _ ↦ some [] | no _ ↦ none ];
  unmarshal_envelope = λ bytes. some envelope;
  topic_accepts = λ bytes. true;
}

written :
    (env : SignedEnvelope) (bytes : List ℕ)
    → publisher.marshal_envelope env ≡ some bytes
    → ◌≡◌ {A = Option SignedEnvelope} (some envelope) (some env)
written env bytes e = elim (same env) [
  | yes h ↦ ap some (Same-envelope env h)
  | no f ↦ absurd (ground arith)
]

is_empty-cons : (rest : String) → is_empty (String.◌∷◌ "L" rest) ≡ false
unfolding is_empty
is_empty-cons rest = elim (String_discrete (String.◌∷◌ "L" rest) "") [
  | yes p ↦ absurd (cc)
  | no p ↦ ground arith
]

publisher-IsLawful : IsLawful lettered publisher "p1" "p1"
unfolding is_empty String_discrete
publisher-IsLawful = record {
  decode_peer = refl;
  extract_key = refl;
  base64 = λ sig. ap some (from_text-as_text sig);
  signature = λ key payload sig e f. refl;
  json = written;
  shown_id = refl;
  shown_sig = λ sig. is_empty-cons (as_text sig);
}

published : publish lettered publisher full ≡ sent []
unfolding publish same both String_discrete signed fill_meta_id is_empty is_three_minutes ℕ_discrete
    is_nil
published = refl

receive-publish_example :
    receive lettered (publisher.unmarshal_envelope []) new_local_store
    ≡ add_local lettered full new_local_store
unfolding is_empty String_discrete compute_meta_id
receive-publish_example =
    receive-publish lettered publisher "p1" "p1" full [] new_local_store publisher-IsLawful refl
      published
