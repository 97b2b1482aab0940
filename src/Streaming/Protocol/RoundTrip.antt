-- ===== src/Streaming/Protocol/RoundTrip.antt =====
-- internal/streaming/engine.go: what a client reads of what a peer serves.
use music_p2p.Prelude.{
  inl, inr, ◌⊎◌, ℕ_discrete, length-append, ℕ, suc, ◌^◌, ◌<◌, ◌≡◌, refl, sym, ap, ◌∙◌, subst, true,
  String, List, [], ◌∷◌, ◌++◌, some, arith, All, append_assoc, length, take, drop,
}
use music_p2p.Prelude.Int.{pos}
use music_p2p.Storage.Chunks.{Chunk, chunk_bytes}
use music_p2p.Storage.Tracks.{Result, Storage, Error, ok, err, get_chunk, get_total_chunks}
use music_p2p.Streaming.Wire.{
  is_space, signed_value, digits_value, value_from, is_digit, negative, trim_left, trim_right,
  newline, itoa, atoi, trim_space, read_string,
}
use music_p2p.Streaming.Wire.Decimal.{atoi-itoa}
use music_p2p.Streaming.Wire.Lines.{trim_space_word, IsSolid, itoa-IsSolid, read_string-append}
use music_p2p.Streaming.Protocol.Requests.{
  IsRead, itoa_nonempty, one_line, get_request-IsRead, total_request-IsRead,
}
use music_p2p.Streaming.Protocol.{
  get_word, total_word, is_word, minus_one, number_line, get_request, total_request, reply_get,
  reply, serve_stream, fetched, broken, read_full, read_framed, read_total,
}

-- A number on a line of its own is read back.
read_number :
    (n : ℕ) (rest : List ℕ)
    → n < 2 ^ 63
    → (line : List ℕ) × (read_string (number_line n ++ rest) ≡ some (line, rest))
      × (atoi (trim_space line) ≡ some (pos n))
read_number n rest h =
    let (c, cs, e) = itoa_nonempty n in
    let solid = subst (All IsSolid) e (itoa-IsSolid n) in
    (
      itoa n ++ newline ∷ [],
      ap read_string (append_assoc (itoa n) (newline ∷ []) rest)
          ∙ read_string-append (itoa n) rest (one_line (itoa n) (itoa-IsSolid n)),
      ap (λ w. atoi (trim_space (w ++ newline ∷ []))) e
          ∙ ap atoi (trim_space_word c cs solid ∙ sym e)
          ∙ atoi-itoa n h,
    )

serve_stream-reply :
    (name : List ℕ → String) (fuel : ℕ) (s : Storage) (request more : List ℕ)
    (words : List (List ℕ))
    → IsRead request more words
    → serve_stream name (suc fuel) s (request ++ more)
      ≡ reply name words s ++ serve_stream name fuel s more
unfolding serve_stream
serve_stream-reply name fuel s request more words (line, e, f) = rw (e, serve_stream, f)

take-length : (xs ys : List ℕ) → take (length xs) (xs ++ ys) ≡ xs
take-length [] ys = refl
take-length (x ∷ xs) ys = ap (λ zs. x ∷ zs) (take-length xs ys)

drop-length : (xs ys : List ℕ) → drop (length xs) (xs ++ ys) ≡ ys
drop-length [] ys = refl
drop-length (x ∷ xs) ys = drop-length xs ys

read_full-append : (xs ys : List ℕ) → read_full (length xs) (xs ++ ys) ≡ (fetched xs, ys)
unfolding read_full
read_full-append xs ys = ground (arith, length-append xs ys, take-length xs ys, drop-length xs ys)

read_framed-number :
    (xs rest : List ℕ)
    → length xs < 2 ^ 63
    → read_framed ((number_line (length xs) ++ xs) ++ rest) ≡ (fetched xs, rest)
unfolding read_framed
read_framed-number xs rest h =
    let (line, e, f) = read_number (length xs) (xs ++ rest) h in
    ap read_framed (append_assoc (number_line (length xs)) xs rest)
    ∙ rw (e, read_framed, f) (read_full-append xs rest)

read_framed-minus_one : (rest : List ℕ) → read_framed (minus_one ++ rest) ≡ (broken, rest)
unfolding read_framed read_string atoi signed_value digits_value value_from is_digit negative
    trim_space trim_left trim_right is_space
read_framed-minus_one rest = refl

is_word-get_word : is_word get_word get_word ≡ true
unfolding is_word ℕ_discrete
is_word-get_word = refl

is_word-total_word : is_word total_word total_word ≡ true
unfolding is_word ℕ_discrete
is_word-total_word = refl

reply_total :
    (name : List ℕ → String) (s : Storage) (cid : List ℕ)
    → reply name (total_word ∷ cid ∷ []) s ≡ number_line (get_total_chunks (name cid) s)
unfolding reply
reply_total name s cid = rw (is_word-total_word, reply)

pub Result-cases :
    {A : Type 0} (r : Result A) → ((a : A) × (r ≡ ok a)) ⊎ ((e : Error) × (r ≡ err e))
Result-cases (ok a) = inl (a, refl)
Result-cases (err e) = inr (e, refl)

module _ (name : List ℕ → String) (fuel : ℕ) (s : Storage) (a : ℕ) (word more : List ℕ) where
  abbrev cid : List ℕ
  cid = a ∷ word

  served_get :
      (n : ℕ)
      → All IsSolid cid
      → n < 2 ^ 63
      → serve_stream name (suc fuel) s (get_request cid n ++ more)
        ≡ (elim (get_chunk (name cid) (pos n) s) [
          | err e ↦ minus_one
          | ok c ↦ number_line (length (chunk_bytes c)) ++ chunk_bytes c
        ])
          ++ serve_stream name fuel s more
  unfolding reply reply_get
  served_get n h small =
      serve_stream-reply name fuel s (get_request cid n) more _ (get_request-IsRead a word more n h)
      ∙ rw (reply, is_word-get_word, reply_get, atoi-itoa n small)

  -- A client that asks for a chunk reads exactly the bytes of the chunk that the serving node has, or finds
  -- the request refused if it has none; and the reply to the next request on the same stream begins where
  -- this one ends. The CID is a word with no white space, and the index and the size of the chunk fit an
  -- `int`.
  pub read_framed-serve_stream :
      (n : ℕ)
      → All IsSolid cid
      → n < 2 ^ 63
      → ((c : Chunk) → get_chunk (name cid) (pos n) s ≡ ok c → length (chunk_bytes c) < 2 ^ 63)
      → read_framed (serve_stream name (suc fuel) s (get_request cid n ++ more)) ≡ (
        elim (get_chunk (name cid) (pos n) s) [ err e ↦ broken | ok c ↦ fetched (chunk_bytes c) ],
        serve_stream name fuel s more,
      )
  read_framed-serve_stream n h small fits =
      ap read_framed (served_get n h small)
      ∙ (elim (Result-cases (get_chunk (name cid) (pos n) s)) [
        | inl (c, e) ↦
            rw e (read_framed-number (chunk_bytes c) (serve_stream name fuel s more) (fits c e))
        | inr (x, e) ↦ rw e (read_framed-minus_one (serve_stream name fuel s more))
      ])

  -- A client that asks for the number of chunks reads the number that the serving node has.
  pub read_total-serve_stream :
      All IsSolid cid
      → get_total_chunks (name cid) s < 2 ^ 63
      → read_total (serve_stream name (suc fuel) s (total_request cid ++ more))
        ≡ some (pos (get_total_chunks (name cid) s))
  unfolding read_total
  read_total-serve_stream h small =
      let (line, e, f) =
        read_number (get_total_chunks (name cid) s) (serve_stream name fuel s more) small in
      ap read_total (
        serve_stream-reply name fuel s (total_request cid) more _
          (total_request-IsRead a word more h)
        ∙ ap (λ w. w ++ serve_stream name fuel s more) (reply_total name s cid))
      ∙ rw (e, read_total, f)
