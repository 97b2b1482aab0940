-- ===== src/Node/Commas.antt =====
-- cmd/node/main.go: `splitCSV` takes apart what commas join.
use Prim.Native.Char.{Char, code}
use Prim.Native.String.{String, ◌++◌}
use text.Mathlib.TextLemmas as Text
use music_p2p.Prelude.{◌≡◌, sym, ap, ◌∙◌, false, List, [], ◌∷◌, map, ◌==◌, All}
use music_p2p.Node.Flags.{split_from, split_csv, join_csv, HasNoComma}

split_from-cons :
    (token s : String) (c : Char)
    → (code c == b',') ≡ false
    → split_from token (String.◌∷◌ c s) ≡ split_from (token ++ String.◌∷◌ c "") s
unfolding split_from
split_from-cons token s c e = rw (e, split_from)

append_one :
    (token s : String) (c : Char) → (token ++ String.◌∷◌ c "") ++ s ≡ token ++ String.◌∷◌ c s
append_one token s c =
    Text.append_assoc token (String.◌∷◌ c "") s
    ∙ ap (λ t. token ++ t) (Text.cons-append c "" s ∙ ap (λ t. String.◌∷◌ c t) (Text.nil-append s))

-- A part with no comma is moved over to the token.
split_from-append :
    (token s rest : String)
    → HasNoComma s
    → split_from token (s ++ rest) ≡ split_from (token ++ s) rest
split_from-append token String.[] rest h =
    ap (split_from token) (Text.nil-append rest)
    ∙ ap (λ t. split_from t rest) (sym (Text.append-nil token))
split_from-append token (String.◌∷◌ c s) rest (p, h) =
    ap (split_from token) (Text.cons-append c s rest)
    ∙ split_from-cons token (s ++ rest) c p
    ∙ split_from-append (token ++ String.◌∷◌ c "") s rest h
    ∙ ap (λ t. split_from t rest) (append_one token s c)

split_from_comma :
    (token rest : String) → split_from token ("," ++ rest) ≡ token ∷ split_from "" rest
unfolding split_from
split_from_comma token rest =
    ap (split_from token)
      (Text.cons-append "," "" rest ∙ ap (λ t. String.◌∷◌ "," t) (Text.nil-append rest))

split_from-join_csv :
    (s : String) (ts : List String)
    → HasNoComma s
    → All HasNoComma ts
    → split_from "" (join_csv s ts) ≡ s ∷ ts
unfolding split_from
split_from-join_csv s [] h hs =
    ap (split_from "") (sym (Text.append-nil s))
    ∙ split_from-append "" s "" h
    ∙ ap (λ t. t ∷ []) (Text.nil-append s)
split_from-join_csv s (t ∷ ts) h hs =
    split_from-append "" s ("," ++ join_csv t ts) h
    ∙ split_from_comma ("" ++ s) (join_csv t ts)
    ∙ ap (λ x. x ∷ split_from "" (join_csv t ts)) (Text.nil-append s)
    ∙ ap (λ xs. s ∷ xs) (split_from-join_csv t ts hs.0 hs.1)

-- `splitCSV` of texts joined by commas gives the texts back, in order and trimmed, empty ones included,
-- as long as no text has a comma itself.
pub split_csv-join_csv :
    (trim : String → String) (s : String) (ts : List String)
    → HasNoComma s
    → All HasNoComma ts
    → split_csv trim (join_csv s ts) ≡ map trim (s ∷ ts)
unfolding split_csv
split_csv-join_csv trim s ts h hs = ap (map trim) (split_from-join_csv s ts h hs)
