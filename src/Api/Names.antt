-- ===== src/Api/Names.antt =====
-- internal/api/handlers.go: the texts that the handlers take apart: the CID in a path, and the name of
-- an uploaded file.
pub mod Titles
use Prim.Native.Char.{code}
use Prim.Native.String.{String}
use music_p2p.Prelude.{
  ℕ, zero, suc, Bool, true, false, ◌&&◌, ◌||◌, Option, none, some, ltb, ◌==◌, if◌then◌else◌,
}
use music_p2p.Metadata.{is_empty}

-- `for _, c := range s`, with the early return.
unfoldable pub all_hex : String → Bool
all_hex String.[] = true
all_hex (String.◌∷◌ c s) =
    if (ltb (code c) b'0' || ltb b'9' (code c)) && (ltb (code c) b'a' || ltb b'f' (code c))
    then false
    else all_hex s

unfoldable pub is_hex_cid : String → Bool
unfolding all_hex
is_hex_cid s = if is_empty s then false else all_hex s

-- `cid[:n]`: it panics, which is `none`, if the text is shorter.
unfoldable pub slice_to : ℕ → String → Option String
slice_to zero s = some ""
slice_to (suc n) String.[] = none
slice_to (suc n) (String.◌∷◌ c s) = elim (slice_to n s) [
  | none ↦ none
  | some t ↦ some (String.◌∷◌ c t)
]

unfoldable pub has_slash : String → Bool
has_slash String.[] = false
has_slash (String.◌∷◌ c s) = if code c == b'/' then true else has_slash s

-- The text before the last dot of its last path element, if there is a dot: what is cut off is
-- `filepath.Ext`.
unfoldable pub before_ext : String → Option String
before_ext String.[] = none
before_ext (String.◌∷◌ c s) = elim (before_ext s) [
  | some t ↦ some (String.◌∷◌ c t)
  | none ↦ if has_slash s then none else if code c == b'.' then some "" else none
]

-- `strings.TrimSuffix(name, filepath.Ext(name))`
unfoldable pub trim_ext : String → String
trim_ext name = elim (before_ext name) [ none ↦ name | some t ↦ t ]
