-- ===== src/Storage/Mp3/Bounds.antt =====
-- internal/storage/storage.go: what `mp3FrameSize` can return, by its table over all headers.
use music_p2p.Prelude.{
  false, if◌then◌else◌, ℕ, zero, suc, ◌≤◌, ◌<◌, ◌≡◌, refl, ◌⊎◌, Bool, true, ◌&&◌, ◌||◌, List, ◌∷◌,
  arith, leb, ◌==◌,
}
use music_p2p.Storage.Mp3.{field, size_of_fields, mp3_frame_size}

-- A test on every number below a bound.
every : (ℕ → Bool) → ℕ → Bool
every test zero = true
every test (suc bound) = if test bound then every test bound else false

every-lt :
    (test : ℕ → Bool) (bound : ℕ) {k : ℕ} → k < bound → every test bound ≡ true → test k ≡ true
unfolding every
every-lt test zero p e = absurd (omega arith)
every-lt test (suc bound) {k} p e = ground (arith, every-lt test bound {k = k})

-- Either no frame, or an MPEG-1 frame of 32 to 1729 bytes.
abbrev in_range : ℕ → ℕ → Bool
in_range version size = size == 0 || (leb 32 size && (leb size 1729 && version == 3))

abbrev table_at : ℕ → ℕ → ℕ → ℕ → ℕ → Bool
table_at v l i s p = in_range v (size_of_fields v l i s p)

-- The test of all headers, field by field.
abbrev paddings : ℕ → ℕ → ℕ → ℕ → Bool
paddings v l i s = every (table_at v l i s) 2

abbrev samples : ℕ → ℕ → ℕ → Bool
samples v l i = every (paddings v l i) 4

abbrev rates : ℕ → ℕ → Bool
rates v l = every (samples v l) 16

abbrev layers : ℕ → Bool
layers v = every (rates v) 4

table : every layers 4 ≡ true
unfolding every size_of_fields
table = refl

size_of_fields-in_range :
    (v l i s p : ℕ) → v < 4 → l < 4 → i < 16 → s < 4 → p < 2 → table_at v l i s p ≡ true
size_of_fields-in_range v l i s p hv hl hi hs hp = every-lt (table_at v l i s) 2 hp (
    every-lt (paddings v l i) 4 hs
      (every-lt (samples v l) 16 hi (every-lt (rates v) 4 hl (every-lt layers 4 hv table))))

in_range_cases : (v n : ℕ) → in_range v n ≡ true → (n ≡ 0) ⊎ ((32 ≤ n) × (n ≤ 1729) × (v ≡ 3))
in_range_cases v n h = ground arith

-- `mp3FrameSize` returns 0, or a length of 32 to 1729 bytes of a header whose version bits are 3,
-- MPEG-1; so it accepts no MPEG-2 or MPEG-2.5 frame, though it has sampling rates for them.
pub mp3_frame_size-bounds :
    (b0 b1 b2 b3 : ℕ) (rest : List ℕ)
    → (mp3_frame_size (b0 ∷ b1 ∷ b2 ∷ b3 ∷ rest) ≡ 0)
      ⊎ ((32 ≤ mp3_frame_size (b0 ∷ b1 ∷ b2 ∷ b3 ∷ rest))
          × (mp3_frame_size (b0 ∷ b1 ∷ b2 ∷ b3 ∷ rest) ≤ 1729)
          × (field b1 3 2 ≡ 3))
unfolding mp3_frame_size
mp3_frame_size-bounds b0 b1 b2 b3 rest = in_range_cases _ _ (
    size_of_fields-in_range (field b1 3 2) (field b1 1 2) (field b2 4 4) (field b2 2 2)
      (field b2 1 1) (omega arith) (omega arith) (omega arith) (omega arith) (omega arith))
