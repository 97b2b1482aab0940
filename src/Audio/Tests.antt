-- ===== src/Audio/Tests.antt =====
-- internal/audio/player.go: two short tracks, and a `Stop` more than there is to stop.
use music_p2p.Prelude.{ℕ, ◌≡◌, refl, true, false, List, [], ◌∷◌, some, arith, All}
use music_p2p.Audio.{new_player}
use music_p2p.Audio.Examples.{one_sample}
use music_p2p.Audio.Gapless.{IsDecoder, drain, drain-append_left}
use music_p2p.Audio.Sessions.{Call, plays, pulls, returns, stops, ClosedOnce, run, run-ClosedOnce}

one_sample-IsDecoder : IsDecoder one_sample (λ s. s) 1
one_sample-IsDecoder = record {
  ends = λ s e. rw e (refl, refl, refl);
  goes_on = λ s x xs e. rw e (refl, omega arith, refl);
}

drain-append_left_example :
    drain one_sample 5 1
      (record { current = some (1 ∷ 2 ∷ []); following = some (3 ∷ []); done = false })
    ≡ (1 ∷ 2 ∷ 3 ∷ [], true)
drain-append_left_example =
    drain-append_left one_sample (λ s. s) 1 one_sample-IsDecoder 5 (1 ∷ 2 ∷ []) (3 ∷ []) false
      (omega arith)

abbrev calls : List (Call (List ℕ))
calls = plays (some (1 ∷ [])) ∷ plays (some (2 ∷ [])) ∷ stops ∷ pulls 1 1 ∷ stops ∷ returns 0 ∷ []

run-ClosedOnce_example : All ClosedOnce (run one_sample calls new_player).sessions
run-ClosedOnce_example = run-ClosedOnce one_sample calls
