-- ===== src/Metadata/Examples.antt =====
-- internal/metadata/metadata.go: the packages that the store uses, for runs.
use music_p2p.Prelude.{String, [], true, some}
use music_p2p.Metadata.{Externals}

-- A hash that shows its input, and signatures that are all valid.
abbrev pub plain : Externals
plain = record {
  PeerId = String;
  Key = String;
  sha256_hex = λ s. s;
  duration_string = λ d. "3m0s";
  to_lower = λ s. s;
  has_substring = λ s t. true;
  decode_peer = λ s. some s;
  extract_key = λ p. some p;
  marshal = λ m. some [];
  decode_base64 = λ s. some [];
  verify_with = λ k b s. some true;
}
