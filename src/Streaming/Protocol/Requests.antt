-- ===== src/Streaming/Protocol/Requests.antt =====
-- internal/streaming/engine.go: how the server reads the requests that the client writes.
use music_p2p.Prelude.{
  ℕ, suc, ◌≡◌, refl, sym, ap, ◌∙◌, subst, List, [], ◌∷◌, ◌++◌, some, arith, All, All-append,
  All-imp, append_assoc,
}
use music_p2p.Streaming.Wire.{is_space, newline, itoa, trim_space, fields, read_string}
use music_p2p.Streaming.Wire.Decimal.{digits_nonempty}
use music_p2p.Streaming.Wire.Lines.{
  IsSolid, IsOneLine, IsSolid-IsOneLine, itoa-IsSolid, read_string-append, trim_space-newline,
  fields-cons, fields-word,
}
use music_p2p.Streaming.Protocol.{get_word, total_word, get_request, total_request}

pub itoa_nonempty : (n : ℕ) → (c : ℕ) × (cs : List ℕ) × (itoa n ≡ c ∷ cs)
unfolding itoa
itoa_nonempty n = digits_nonempty (suc n) n (omega arith)

-- What is written before the last word of a request, and the word.
abbrev before_index : List ℕ → List ℕ
before_index cid = get_word ++ b' ' ∷ (cid ++ b' ' ∷ [])

pub one_line : (ws : List ℕ) → All IsSolid ws → All IsOneLine ws
one_line ws h = All-imp IsSolid IsOneLine ws IsSolid-IsOneLine h

get_word-IsSolid : All IsSolid get_word
unfolding is_space
get_word-IsSolid = (refl, (refl, (refl, tt)))

total_word-IsSolid : All IsSolid total_word
unfolding is_space
total_word-IsSolid = (refl, (refl, (refl, (refl, (refl, tt)))))

get_body-IsOneLine :
    (cid : List ℕ) (n : ℕ) → All IsSolid cid → All IsOneLine (before_index cid ++ itoa n)
get_body-IsOneLine cid n h =
    All-append IsOneLine (before_index cid) (itoa n)
      (
        refl,
        (refl, (refl, (refl, All-append IsOneLine cid (b' ' ∷ []) (one_line cid h) (refl, tt)))),
      )
      (one_line (itoa n) (itoa-IsSolid n))

-- A request whose last word ends its line is read as one line, trimmed and split.
abbrev pub IsRead : List ℕ → List ℕ → List (List ℕ) → Type 0
IsRead request more words =
    (line : List ℕ) × (read_string (request ++ more) ≡ some (line, more))
    × (fields (trim_space line) ≡ words)

get_trimmed :
    (cid : List ℕ) (n : ℕ)
    → trim_space ((before_index cid ++ itoa n) ++ newline ∷ []) ≡ before_index cid ++ itoa n
get_trimmed cid n =
    let (c, cs, e) = itoa_nonempty n in
    let solid = subst (All IsSolid) e (itoa-IsSolid n) in
    ap (λ w. trim_space ((before_index cid ++ w) ++ newline ∷ [])) e
    ∙ trim_space-newline b'G' (b'E' ∷ b'T' ∷ b' ' ∷ (cid ++ b' ' ∷ [])) c cs get_word-IsSolid.0
        solid
    ∙ ap (λ w. before_index cid ++ w) (sym e)

fields-itoa : (n : ℕ) → fields (itoa n) ≡ itoa n ∷ []
fields-itoa n =
    let (c, cs, e) = itoa_nonempty n in
    let solid = subst (All IsSolid) e (itoa-IsSolid n) in
    ap fields e ∙ fields-word c cs solid ∙ ap (λ w. w ∷ []) (sym e)

get_fields :
    (a : ℕ) (word : List ℕ) (n : ℕ)
    → All IsSolid (a ∷ word)
    → fields (before_index (a ∷ word) ++ itoa n) ≡ get_word ∷ (a ∷ word) ∷ itoa n ∷ []
get_fields a word n h =
    fields-cons b'G' (b'E' ∷ b'T' ∷ []) (((a ∷ word) ++ b' ' ∷ []) ++ itoa n) get_word-IsSolid
    ∙ ap (λ fs. get_word ∷ fs)
        (ap fields (append_assoc (a ∷ word) (b' ' ∷ []) (itoa n))
          ∙ fields-cons a word (itoa n) h
          ∙ ap (λ fs. (a ∷ word) ∷ fs) (fields-itoa n))

pub get_request-IsRead :
    (a : ℕ) (word more : List ℕ) (n : ℕ)
    → All IsSolid (a ∷ word)
    → IsRead (get_request (a ∷ word) n) more (get_word ∷ (a ∷ word) ∷ itoa n ∷ [])
unfolding get_request
get_request-IsRead a word more n h =
    let cid = a ∷ word in
    (
      (before_index cid ++ itoa n) ++ newline ∷ [],
      ap read_string (append_assoc (before_index cid ++ itoa n) (newline ∷ []) more)
          ∙ read_string-append (before_index cid ++ itoa n) more (get_body-IsOneLine cid n h),
      ap fields (get_trimmed cid n) ∙ get_fields a word n h,
    )

pub total_request-IsRead :
    (a : ℕ) (word more : List ℕ)
    → All IsSolid (a ∷ word)
    → IsRead (total_request (a ∷ word)) more (total_word ∷ (a ∷ word) ∷ [])
unfolding total_request
total_request-IsRead a word more h =
    let body = (total_word ++ b' ' ∷ []) ++ a ∷ word in
    (
      body ++ newline ∷ [],
      ap read_string (append_assoc body (newline ∷ []) more)
          ∙ read_string-append body more
              (refl, (refl, (refl, (refl, (refl, (refl, one_line (a ∷ word) h)))))),
      ap fields (
            trim_space-newline b'T' (b'O' ∷ b'T' ∷ b'A' ∷ b'L' ∷ b' ' ∷ []) a word
              total_word-IsSolid.0 h)
          ∙ fields-cons b'T' (b'O' ∷ b'T' ∷ b'A' ∷ b'L' ∷ []) (a ∷ word) total_word-IsSolid
          ∙ ap (λ fs. total_word ∷ fs) (fields-word a word h),
    )
