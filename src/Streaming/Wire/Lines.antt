-- ===== src/Streaming/Wire/Lines.antt =====
-- internal/streaming/engine.go: lines and fields of what was written.
use music_p2p.Prelude.{
  suc, All-imp, ℕ, ◌≡◌, refl, sym, ap, ◌∙◌, true, false, List, [], ◌∷◌, ◌++◌, some, arith, All,
  append-nil, append_assoc, ◌==◌,
}
use music_p2p.Streaming.Wire.{
  newline, is_space, trim_left, trim_right, trim_space, fields_from, fields, read_string, itoa,
  digits,
}
use music_p2p.Streaming.Wire.Decimal.{IsDigit, digits-IsDigit}

-- No white space, so no newline either.
abbrev pub IsSolid : ℕ → Type 0
IsSolid c = is_space c ≡ false

abbrev pub IsOneLine : ℕ → Type 0
IsOneLine c = (c == newline) ≡ false

pub IsSolid-IsOneLine : (c : ℕ) → IsSolid c → IsOneLine c
unfolding is_space
IsSolid-IsOneLine c h = ground (arith, h)

IsDigit-IsSolid : (c : ℕ) → IsDigit c → IsSolid c
unfolding is_space
IsDigit-IsSolid c h = ground (arith, h)

pub itoa-IsSolid : (n : ℕ) → All IsSolid (itoa n)
unfolding itoa
itoa-IsSolid n =
    All-imp IsDigit IsSolid (digits (suc n) n) IsDigit-IsSolid (digits-IsDigit (suc n) n)

-- A line is read up to its newline, and what follows is left.
pub read_string-append :
    (line rest : List ℕ)
    → All IsOneLine line
    → read_string (line ++ newline ∷ rest) ≡ some (line ++ newline ∷ [], rest)
unfolding read_string
read_string-append [] rest h = refl
read_string-append (c ∷ cs) rest h = rw (read_string-append cs rest h.1, h.0) refl

trim_left-solid : (c : ℕ) (cs : List ℕ) → IsSolid c → trim_left (c ∷ cs) ≡ c ∷ cs
unfolding trim_left
trim_left-solid c cs h = rw h refl

is_space-newline : is_space newline ≡ true
unfolding is_space
is_space-newline = refl

trim_right-cons :
    (x : ℕ) (cs : List ℕ) (y : ℕ) (ys : List ℕ)
    → trim_right cs ≡ y ∷ ys
    → trim_right (x ∷ cs) ≡ x ∷ y ∷ ys
unfolding trim_right
trim_right-cons x cs y ys e = rw (e, trim_right)

-- Trimming cuts off the newline behind a character that is no white space.
trim_right-newline :
    (cs : List ℕ) (c : ℕ) → IsSolid c → trim_right (cs ++ c ∷ newline ∷ []) ≡ cs ++ c ∷ []
unfolding trim_right
trim_right-newline [] c h = rw (is_space-newline, trim_right, h)
trim_right-newline (x ∷ []) c h =
    trim_right-cons x (c ∷ newline ∷ []) c [] (trim_right-newline [] c h)
trim_right-newline (x ∷ y ∷ ys) c h =
    trim_right-cons x (y ∷ ys ++ c ∷ newline ∷ []) y (ys ++ c ∷ [])
      (trim_right-newline (y ∷ ys) c h)

-- The last character of a word.
word_last :
    (c : ℕ) (cs : List ℕ)
    → All IsSolid (c ∷ cs)
    → (xs : List ℕ) × (x : ℕ) × IsSolid x × (c ∷ cs ≡ xs ++ x ∷ [])
word_last c [] h = ([], c, h.0, refl)
word_last c (d ∷ ds) h =
    let (xs, x, solid, e) = word_last d ds h.1 in (c ∷ xs, x, solid, ap (λ r. c ∷ r) e)

-- A line of one word is trimmed of its newline.
pub trim_space_word :
    (c : ℕ) (cs : List ℕ) → All IsSolid (c ∷ cs) → trim_space ((c ∷ cs) ++ newline ∷ []) ≡ c ∷ cs
unfolding trim_space
trim_space_word c cs h =
    let (xs, x, solid, e) = word_last c cs h in
    ap trim_right (trim_left-solid c (cs ++ newline ∷ []) h.0)
    ∙ ap (λ w. trim_right (w ++ newline ∷ [])) e
    ∙ ap trim_right (append_assoc xs (x ∷ []) (newline ∷ []))
    ∙ trim_right-newline xs x solid
    ∙ sym e

-- A line that starts and ends with a word is trimmed of its newline.
pub trim_space-newline :
    (a : ℕ) (mid : List ℕ) (c : ℕ) (cs : List ℕ)
    → IsSolid a
    → All IsSolid (c ∷ cs)
    → trim_space ((a ∷ mid ++ c ∷ cs) ++ newline ∷ []) ≡ a ∷ mid ++ c ∷ cs
unfolding trim_space
trim_space-newline a mid c cs h hs =
    let (xs, x, solid, e) = word_last c cs hs in
    let whole : (mid ++ c ∷ cs) ++ newline ∷ [] ≡ (mid ++ xs) ++ x ∷ newline ∷ [] =
      ap (λ w. (mid ++ w) ++ newline ∷ []) e
      ∙ ap (λ w. w ++ newline ∷ []) (sym (append_assoc mid xs (x ∷ [])))
      ∙ append_assoc (mid ++ xs) (x ∷ []) (newline ∷ []) in
    ap trim_right (trim_left-solid a ((mid ++ c ∷ cs) ++ newline ∷ []) h)
    ∙ ap (λ w. trim_right (a ∷ w)) whole
    ∙ trim_right-newline (a ∷ mid ++ xs) x solid
    ∙ ap (λ w. a ∷ w) (append_assoc mid xs (x ∷ []) ∙ ap (λ w. mid ++ w) (sym e))

-- A field that is complete.
fields_from-solid :
    (field word rest : List ℕ)
    → All IsSolid word
    → fields_from field (word ++ rest) ≡ fields_from (field ++ word) rest
unfolding fields_from
fields_from-solid field [] rest h = rw append-nil
fields_from-solid field (c ∷ cs) rest h = rw h.0 (
    fields_from-solid (field ++ c ∷ []) cs rest h.1
    ∙ ap (λ f. fields_from f rest) (append_assoc field (c ∷ []) cs))

fields_from-space :
    (a : ℕ) (word rest : List ℕ)
    → fields_from (a ∷ word) (b' ' ∷ rest) ≡ (a ∷ word) ∷ fields_from [] rest
unfolding fields_from is_space
fields_from-space a word rest = refl

-- A word and a space in front of other text.
pub fields-cons :
    (a : ℕ) (word rest : List ℕ)
    → All IsSolid (a ∷ word)
    → fields ((a ∷ word) ++ b' ' ∷ rest) ≡ (a ∷ word) ∷ fields rest
unfolding fields
fields-cons a word rest h =
    fields_from-solid [] (a ∷ word) (b' ' ∷ rest) h ∙ fields_from-space a word rest

-- One word alone.
pub fields-word :
    (a : ℕ) (word : List ℕ) → All IsSolid (a ∷ word) → fields (a ∷ word) ≡ (a ∷ word) ∷ []
unfolding fields fields_from
fields-word a word h =
    ap (fields_from []) (sym (append-nil (a ∷ word))) ∙ fields_from-solid [] (a ∷ word) [] h
