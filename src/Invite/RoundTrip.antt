-- ===== src/Invite/RoundTrip.antt =====
-- internal/invite/invite.go: `Decode` reads what `Encode` writes.
use music_p2p.Prelude.{
  ◌≡◌, refl, ap, true, List, [], ◌∷◌, Option, none, some, if◌then◌else◌, Bool-cases, inl, inr,
}
use music_p2p.Invite.{
  Payload, ok, Externals, shown, encode, parsed, decode_payload, decode_body, decode,
}

-- What the packages document: what they print they parse again, and a code has no space around it.
pub record IsLawful (io : Externals) : Type 0 where
  pub trim_space :
      (raw : io.Bytes)
      → io.trim_space (io.append io.prefix (io.encode_base64 raw))
        ≡ io.append io.prefix (io.encode_base64 raw)
  pub has_prefix : (t : io.Text) → io.has_prefix (io.append io.prefix t) io.prefix ≡ true
  pub trim_prefix :
      (raw : io.Bytes)
      → io.trim_prefix (io.append io.prefix (io.encode_base64 raw)) io.prefix ≡ io.encode_base64 raw
  pub base64 : (raw : io.Bytes) → io.decode_base64 (io.encode_base64 raw) ≡ some raw
  pub json : (p : Payload io.Text) → io.unmarshal (io.marshal p) ≡ some p
  pub peers : (id : io.PeerId) → io.decode_peer (io.peer_string id) ≡ some id
  pub addrs : (a : io.Addr) → io.new_multiaddr (io.addr_string a) ≡ some a

module _ (io : Externals) where
  -- The addresses that another node can dial.
  abbrev pub dialable : List (Option io.Addr) → List io.Addr
  dialable [] = []
  dialable (none ∷ addrs) = dialable addrs
  dialable (some a ∷ addrs) = if io.is_loopback a then dialable addrs else a ∷ dialable addrs

  parsed-shown :
      (addrs : List (Option io.Addr)) → IsLawful io → parsed io (shown io addrs) ≡ dialable addrs
  unfolding parsed shown
  parsed-shown [] l = refl
  parsed-shown (none ∷ addrs) l = parsed-shown addrs l
  parsed-shown (some a ∷ addrs) l = elim (Bool-cases (io.is_loopback a)) [
    | inl e ↦ rw e (parsed-shown addrs l)
    | inr e ↦ rw (e, l.addrs a) (ap (λ found. a ∷ found) (parsed-shown addrs l))
  ]

  -- `Decode` of the code that `Encode` makes gives back the peer id and the addresses in their
  -- order, without those that are nil or loopback, where the packages parse what they print.
  pub decode-encode :
      (id : io.PeerId) (addrs : List (Option io.Addr))
      → IsLawful io
      → decode io (encode io id addrs) ≡ ok (record { id = id; addrs = dialable addrs })
  unfolding decode encode decode_body decode_payload
  decode-encode id addrs l =
      let p : Payload io.Text = record { v = 1; id = io.peer_string id; addrs = shown io addrs } in
      rw
        (
          decode_body,
          decode_payload,
          l.trim_space (io.marshal p),
          l.has_prefix (io.encode_base64 (io.marshal p)),
          l.trim_prefix (io.marshal p),
          l.base64 (io.marshal p),
          l.json p,
          l.peers id,
          parsed-shown addrs l,
        )
        refl
