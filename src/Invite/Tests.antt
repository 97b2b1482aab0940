-- ===== src/Invite/Tests.antt =====
-- internal/invite/invite.go: a code with one address that is kept.
use music_p2p.Prelude.{◌≡◌, [], ◌∷◌, none, some}
use music_p2p.Invite.{ok, encode, decode}
use music_p2p.Invite.RoundTrip.{decode-encode}
use music_p2p.Invite.Trees.{trees, trees-IsLawful}

decode-encode_example :
    decode trees (encode trees 5 (some 127 ∷ none ∷ some 8 ∷ []))
    ≡ ok (record { id = 5; addrs = 8 ∷ [] })
decode-encode_example = decode-encode trees 5 (some 127 ∷ none ∷ some 8 ∷ []) trees-IsLawful
