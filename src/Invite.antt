-- ===== src/Invite.antt =====
-- internal/invite/invite.go: the invite codes. Texts, bytes, peer ids, addresses, JSON and base64 are
-- those of other packages, so they are parameters; a parse that fails is `none`.
pub mod RoundTrip
pub mod Trees
mod Tests
use music_p2p.Prelude.{
  ℕ, Bool, true, false, ◌||◌, not, List, [], ◌∷◌, Option, none, some, ◌==◌, if◌then◌else◌,
}

abbrev pub version : ℕ
version = 1

pub record Payload (Text : Type 0) : Type 0 where
  pub v : ℕ
  pub id : Text
  pub addrs : List Text

pub record Info (PeerId Addr : Type 0) : Type 0 where
  pub id : PeerId
  pub addrs : List Addr

pub data Error : Type 0 where
  no_prefix malformed unsupported_version invalid_peer_id : Error

pub data Result (A : Type 0) : Type 0 where
  ok : A → Result A
  err : Error → Result A

-- A nil address is `none` of `Option Addr`.
pub record Externals : Type 1 where
  pub Text : Type 0
  pub Bytes : Type 0
  pub PeerId : Type 0
  pub Addr : Type 0
  pub prefix : Text
  pub append : Text → Text → Text
  pub trim_space : Text → Text
  pub has_prefix : Text → Text → Bool
  pub trim_prefix : Text → Text → Text
  pub encode_base64 : Bytes → Text
  pub decode_base64 : Text → Option Bytes
  pub marshal : Payload Text → Bytes
  pub unmarshal : Bytes → Option (Payload Text)
  pub peer_string : PeerId → Text
  pub decode_peer : Text → Option PeerId
  pub addr_string : Addr → Text
  pub new_multiaddr : Text → Option Addr
  pub is_loopback : Addr → Bool
  pub is_public_addr : Addr → Bool

module _ (io : Externals) where
  -- The loop of `Encode`.
  unfoldable pub shown : List (Option io.Addr) → List io.Text
  shown [] = []
  shown (none ∷ addrs) = shown addrs
  shown (some a ∷ addrs) = if io.is_loopback a then shown addrs else io.addr_string a ∷ shown addrs

  unfoldable pub encode : io.PeerId → List (Option io.Addr) → io.Text
  encode id addrs = io.append io.prefix (
      io.encode_base64
        (io.marshal (record { v = version; id = io.peer_string id; addrs = shown addrs })))

  -- The loop of `Decode`.
  unfoldable pub parsed : List io.Text → List io.Addr
  parsed [] = []
  parsed (s ∷ ss) = elim (io.new_multiaddr s) [ none ↦ parsed ss | some a ↦ a ∷ parsed ss ]

  unfoldable pub decode_payload : Payload io.Text → Result (Info io.PeerId io.Addr)
  decode_payload p =
      if not (p.v == version) then err unsupported_version else elim (io.decode_peer p.id) [
        | none ↦ err invalid_peer_id
        | some id ↦ ok (record { id = id; addrs = parsed p.addrs })
      ]

  unfoldable pub decode_body : io.Text → Result (Info io.PeerId io.Addr)
  decode_body body = elim (io.decode_base64 body) [
    | none ↦ err malformed
    | some raw ↦ elim (io.unmarshal raw) [ none ↦ err malformed | some p ↦ decode_payload p ]
  ]

  unfoldable pub decode : io.Text → Result (Info io.PeerId io.Addr)
  decode code =
      let trimmed = io.trim_space code in
      if not (io.has_prefix trimmed io.prefix)
      then err no_prefix
      else decode_body (io.trim_prefix trimmed io.prefix)

  unfoldable pub is_public : List (Option io.Addr) → Bool
  is_public [] = false
  is_public (none ∷ addrs) = is_public addrs
  is_public (some a ∷ addrs) = if io.is_public_addr a then true else is_public addrs
