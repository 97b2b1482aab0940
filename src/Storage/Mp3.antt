-- ===== src/Storage/Mp3.antt =====
-- internal/storage/storage.go: the length of an MP3 frame, `mp3FrameSize`. A byte is a number below
-- 256; `(b >> s) & (2^w - 1)` is `field b s w`.
pub mod Bounds
use Prim.Native.Nat.{bit_and}
use music_p2p.Prelude.{
  ℕ, ◌+◌, ◌*◌, ◌/◌, ◌%◌, ◌^◌, Bool, ◌&&◌, ◌||◌, List, [], ◌∷◌, Option, none, some, get_elem?,
  if◌then◌else◌, ◌==◌,
}

abbrev pub field : ℕ → ℕ → ℕ → ℕ
field b shift width = b / 2 ^ shift % 2 ^ width

abbrev kbps_layer_3 : List ℕ
kbps_layer_3 =
    0 ∷ 32 ∷ 40 ∷ 48 ∷ 56 ∷ 64 ∷ 80 ∷ 96 ∷ 112 ∷ 128 ∷ 160 ∷ 192 ∷ 224 ∷ 256 ∷ 320 ∷ 0 ∷ []

abbrev kbps_layer_2 : List ℕ
kbps_layer_2 =
    0 ∷ 32 ∷ 48 ∷ 56 ∷ 64 ∷ 80 ∷ 96 ∷ 112 ∷ 128 ∷ 160 ∷ 192 ∷ 224 ∷ 256 ∷ 320 ∷ 384 ∷ 0 ∷ []

abbrev kbps_layer_1 : List ℕ
kbps_layer_1 =
    0 ∷ 32 ∷ 64 ∷ 96 ∷ 128 ∷ 160 ∷ 192 ∷ 224 ∷ 256 ∷ 288 ∷ 320 ∷ 352 ∷ 384 ∷ 416 ∷ 448 ∷ 0 ∷ []

-- The table `bitrates`: by version, then by layer. The header codes layer III as 1 and I as 3.
unfoldable pub bitrates : ℕ → ℕ → Option (List ℕ)
bitrates version layer =
    if version == 3
    then (if layer == 1
        then some kbps_layer_3
        else if layer == 2
        then some kbps_layer_2
        else if layer == 3
        then some kbps_layer_1
        else none)
    else none

unfoldable pub sample_rates : ℕ → Option (List ℕ)
sample_rates version =
    if version == 3
    then some (44100 ∷ 48000 ∷ 32000 ∷ [])
    else if version == 2
    then some (22050 ∷ 24000 ∷ 16000 ∷ [])
    else if version == 0
    then some (11025 ∷ 12000 ∷ 8000 ∷ [])
    else none

-- An index that the tests of `mp3FrameSize` keep within the table, so the 0 is never read; out of range
-- Go panics.
abbrev at : List ℕ → ℕ → ℕ
at xs i = elim (get_elem? xs i) [ none ↦ 0 | some x ↦ x ]

-- The last lines of `mp3FrameSize`, from the two rates.
unfoldable pub size_at : ℕ → ℕ → ℕ → ℕ → ℕ
size_at layer bitrate sample_rate padding =
    if bitrate == 0 || sample_rate == 0
    then 0
    else if layer == 3
    then (12 * bitrate / sample_rate + padding) * 4
    else 144 * bitrate / sample_rate + padding

-- The body from the fields of the header on.
unfoldable pub size_of_fields : ℕ → ℕ → ℕ → ℕ → ℕ → ℕ
unfolding bitrates sample_rates size_at
size_of_fields version layer bitrate_idx sample_idx padding =
    if bitrate_idx == 0 || bitrate_idx == 15
    then 0
    else if sample_idx == 3
    then 0
    else elim (bitrates version layer) [
      | none ↦ 0
      | some brl ↦ elim (sample_rates version) [
        | none ↦ 0
        | some sr ↦ size_at layer (at brl bitrate_idx * 1000) (at sr sample_idx) padding
      ]
    ]

unfoldable pub mp3_frame_size : List ℕ → ℕ
mp3_frame_size (b0 ∷ b1 ∷ b2 ∷ b3 ∷ rest) =
    size_of_fields (field b1 3 2) (field b1 1 2) (field b2 4 4) (field b2 2 2) (field b2 1 1)
mp3_frame_size _ = 0

-- `data[i] == 0xFF && (data[i+1] & 0xE0) == 0xE0`, at the start of the list.
unfoldable pub is_sync : List ℕ → Bool
is_sync (b0 ∷ b1 ∷ rest) = b0 == 0xFF && bit_and b1 0xE0 == 0xE0
is_sync _ = Bool.false
