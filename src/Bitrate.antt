-- ===== src/Bitrate.antt =====
-- internal/bitrate/adaptive.go: the quality variants of the tracks and the measured bandwidth. The
-- lock makes each method one atomic step; the roundings of float64 are parameters.
pub mod Choice
mod Tests
use music_p2p.Prelude.{
  ℕ, Bool, String, List, [], ◌∷◌, Option, none, some, ltb, leb, ◌==◌, if◌then◌else◌, ◌||◌, true,
  false,
}
use music_p2p.Prelude.Assoc.{lookup, insert}
use music_p2p.Prelude.Int.{ℤ, pos, leb_ℤ}
use music_p2p.Prelude.Text.{String_discrete}

pub record Variant : Type 0 where
  pub quality : String
  pub cid : String
  pub bitrate : ℕ

pub record TrackVariants : Type 0 where
  pub track_id : String
  pub variants : List Variant

pub record AdaptiveBitrate : Type 0 where
  pub tracks : List (String × TrackVariants)
  pub bandwidth_bits : ℕ

pub data Error : Type 0 where
  not_registered no_variants : Error

pub data Result : Type 0 where
  ok : Variant → Result
  err : Error → Result

-- The three expressions that go through float64 and are cut to an integer.
pub record Roundings : Type 0 where
  -- `int(float64(bytes*8) / duration.Seconds())`
  pub bits_per_second : ℕ → ℤ → ℕ
  -- `int(float64(old)*0.7 + float64(new)*0.3)`
  pub blend : ℕ → ℕ → ℕ
  -- `int(float64(bitrate) * 1.2)`
  pub required : ℕ → ℕ

unfoldable pub new : AdaptiveBitrate
new = record { tracks = []; bandwidth_bits = 0 }

unfoldable pub register_track : TrackVariants → AdaptiveBitrate → AdaptiveBitrate
register_track tv ab = record ab { tracks = insert String_discrete tv.track_id tv ab.tracks }

unfoldable pub current_bandwidth : AdaptiveBitrate → ℕ
current_bandwidth ab = ab.bandwidth_bits

module _ (fl : Roundings) where
  unfoldable pub measure_bandwidth : ℕ → ℤ → AdaptiveBitrate → AdaptiveBitrate
  measure_bandwidth bytes_received duration ab =
      if leb_ℤ duration (pos 0)
      then ab
      else let measured = fl.bits_per_second bytes_received duration in
        if ab.bandwidth_bits == 0
        then record ab { bandwidth_bits = measured }
        else record ab { bandwidth_bits = fl.blend ab.bandwidth_bits measured }

  abbrev pub fits : ℕ → Variant → Bool
  fits bandwidth v = leb (fl.required v.bitrate) bandwidth

  -- `best == nil || v.Bitrate > best.Bitrate`
  unfoldable pub improves : Option Variant → Variant → Bool
  improves none v = true
  improves (some best) v = ltb best.bitrate v.bitrate

  -- The loop over the variants, with `best` so far.
  unfoldable pub best_fit : ℕ → Option Variant → List Variant → Option Variant
  best_fit bandwidth best [] = best
  best_fit bandwidth best (v ∷ vs) =
      let better = best_fit bandwidth (some v) vs in
      let same = best_fit bandwidth best vs in
      if fits bandwidth v then (if improves best v then better else same) else same

  -- The loop of the fallback, with `lowest` so far.
  unfoldable pub lowest_of : Variant → List Variant → Variant
  lowest_of lowest [] = lowest
  lowest_of lowest (v ∷ vs) = lowest_of (if ltb v.bitrate lowest.bitrate then v else lowest) vs

  unfoldable pub fall_back : List Variant → Result
  fall_back [] = err no_variants
  fall_back (v ∷ vs) = ok (lowest_of v vs)

  unfoldable pub select_from : ℕ → List Variant → Result
  select_from bandwidth vs = elim (best_fit bandwidth none vs) [
    | some best ↦ ok best
    | none ↦ fall_back vs
  ]

  unfoldable pub select_variant : String → AdaptiveBitrate → Result
  select_variant track_id ab = elim (lookup String_discrete track_id ab.tracks) [
    | none ↦ err not_registered
    | some tv ↦ select_from ab.bandwidth_bits tv.variants
  ]
