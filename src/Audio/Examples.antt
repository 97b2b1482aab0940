-- ===== src/Audio/Examples.antt =====
-- internal/audio/player.go: a decoder for runs.
use music_p2p.Prelude.{Bool}
use music_p2p.Prelude.{ℕ, true, false, List, [], ◌∷◌}
use music_p2p.Audio.{Decoder}

-- A stream is the list of its samples, and each pull takes one.
abbrev pub take_one : List ℕ → List ℕ × (List ℕ × Bool)
take_one [] = ([], ([], false))
take_one (x ∷ xs) = (xs, (x ∷ [], true))

abbrev pub one_sample : Decoder (List ℕ) ℕ
one_sample = record { pull = λ k s. take_one s }
