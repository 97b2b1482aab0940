-- ===== src/Bitrate/Tests.antt =====
-- internal/bitrate/adaptive.go: a track with two variants.
use music_p2p.Prelude.{◌+◌, ◌*◌, ◌/◌, ◌≡◌, refl, [], ◌∷◌, some}
use music_p2p.Prelude.Assoc.{lookup}
use music_p2p.Prelude.Int.{pos_part}
use music_p2p.Prelude.Text.{String_discrete}
use music_p2p.Bitrate.{
  Variant, TrackVariants, AdaptiveBitrate, Roundings, ok, select_variant, select_from, best_fit,
  improves,
}
use music_p2p.Bitrate.Choice.{IsSelected, select_variant-IsSelected}

-- Exact arithmetic, cut down.
abbrev exact : Roundings
exact = record {
  bits_per_second = λ bytes duration. bytes * 8 / pos_part duration;
  blend = λ a b. (a * 7 + b * 3) / 10;
  required = λ b. b * 12 / 10;
}

abbrev low : Variant
low = record { quality = "128kbps"; cid = "c1"; bitrate = 128000 }

abbrev high : Variant
high = record { quality = "320kbps"; cid = "c2"; bitrate = 320000 }

abbrev track : TrackVariants
track = record { track_id = "t1"; variants = low ∷ high ∷ [] }

abbrev measured : AdaptiveBitrate
measured = record { tracks = ("t1", track) ∷ []; bandwidth_bits = 380000 }

select_variant_test : select_variant exact "t1" measured ≡ ok low
unfolding select_variant select_from best_fit improves lookup String_discrete
select_variant_test = refl

select_variant-IsSelected_example : IsSelected exact "t1" measured (some track)
unfolding lookup String_discrete
select_variant-IsSelected_example = select_variant-IsSelected exact "t1" measured
