-- ===== src/Api/Names/Titles.antt =====
-- internal/api/handlers.go: the title that an uploaded file gives its track.
use Prim.Native.Char.{Char, code}
use Prim.Native.String.{String, ◌++◌}
use text.Mathlib.TextLemmas as Text
use music_p2p.Prelude.{◌∙◌, ap, true, ◌≡◌, refl, false, none, some, arith, ◌==◌}
use music_p2p.Api.Names.{has_slash, before_ext, trim_ext}

-- Neither a dot nor a slash.
abbrev pub IsPlain : String → Type 0
IsPlain String.[] = Unit {0}
IsPlain (String.◌∷◌ c s) = ((code c == b'.') ≡ false) × ((code c == b'/') ≡ false) × IsPlain s

has_slash-plain : (s : String) → IsPlain s → has_slash s ≡ false
unfolding has_slash
has_slash-plain String.[] h = refl
has_slash-plain (String.◌∷◌ c s) (p, q, h) = ground (arith, q, has_slash-plain s h)

before_ext-plain : (s : String) → IsPlain s → before_ext s ≡ none
unfolding before_ext
before_ext-plain String.[] h = refl
before_ext-plain (String.◌∷◌ c s) (p, q, h) = rw (before_ext-plain s h, has_slash-plain s h, p) refl

before_ext_dot :
    (c : Char) (ext : String)
    → (code c == b'.') ≡ true
    → IsPlain ext
    → before_ext (String.◌∷◌ c ext) ≡ some ""
unfolding before_ext
before_ext_dot c ext e h = rw (before_ext-plain ext h, has_slash-plain ext h, e) refl

dot_ext : (ext : String) → ◌≡◌ {A = String} ("" ++ ("." ++ ext)) (String.◌∷◌ "." ext)
dot_ext ext =
    Text.nil-append ("." ++ ext)
    ∙ Text.cons-append "." "" ext
    ∙ ap (λ t. String.◌∷◌ "." t) (Text.nil-append ext)

before_ext-append :
    (name ext : String) → IsPlain ext → before_ext (name ++ ("." ++ ext)) ≡ some name
unfolding before_ext
before_ext-append String.[] ext h = ap before_ext (dot_ext ext) ∙ before_ext_dot "." ext refl h
before_ext-append (String.◌∷◌ c s) ext h =
    ap before_ext (Text.cons-append c s ("." ++ ext))
    ∙ rw (before_ext-append s ext h, before_ext) refl

-- The extension behind the last dot is cut off, whatever dots and slashes the name before it has; a
-- name with no dot in it and no slash is kept whole.
pub trim_ext-append :
    (name ext : String)
    → IsPlain ext
    → (trim_ext (name ++ ("." ++ ext)) ≡ name) × (trim_ext ext ≡ ext)
unfolding trim_ext
trim_ext-append name ext h =
    (rw (before_ext-append name ext h, trim_ext), rw (before_ext-plain ext h, trim_ext))
