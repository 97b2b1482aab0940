-- ===== src/Streaming/Protocol.antt =====
-- internal/streaming/engine.go: `ServeStream` and its client side, on the bytes of a stream. A CID is
-- its bytes on the wire and a text in the store; `name` turns the one into the other.
pub mod Fetch
pub mod Requests
pub mod RoundTrip
mod Tests
use music_p2p.Prelude.{
  ℕ, zero, suc, Bool, true, false, String, List, [], ◌∷◌, ◌++◌, Option, none, some, length, take,
  drop, ltb, if◌then◌else◌, ℕ_discrete,
}
use music_p2p.Prelude.Int.{ℤ, pos, negsuc}
use music_p2p.Storage.Chunks.{Chunk, chunk_bytes}
use music_p2p.Storage.Tracks.{Storage, Result, ok, err, get_chunk, get_total_chunks}
use music_p2p.ConnPool.{Pool, acquire, release}
use music_p2p.Streaming.Wire.{newline, itoa, atoi, trim_space, fields, read_string}

-- The words GET and TOTAL.
abbrev pub get_word : List ℕ
get_word = b'G' ∷ b'E' ∷ b'T' ∷ []

abbrev pub total_word : List ℕ
total_word = b'T' ∷ b'O' ∷ b'T' ∷ b'A' ∷ b'L' ∷ []

unfoldable pub is_word : List ℕ → List ℕ → Bool
is_word [] [] = true
is_word (a ∷ rest) (b ∷ bs) = elim (ℕ_discrete a b) [ yes _ ↦ is_word rest bs | no _ ↦ false ]
is_word _ _ = false

-- "-1\n"
abbrev pub minus_one : List ℕ
minus_one = b'-' ∷ b'1' ∷ newline ∷ []

-- "%d\n"
abbrev pub number_line : ℕ → List ℕ
number_line n = itoa n ++ newline ∷ []

-- `fmt.Fprintf(ps, "GET %s %d\n", cid, index)`
unfoldable pub get_request : List ℕ → ℕ → List ℕ
get_request cid index = ((get_word ++ b' ' ∷ (cid ++ b' ' ∷ [])) ++ itoa index) ++ newline ∷ []

-- `fmt.Fprintf(s, "TOTAL %s\n", cid)`
unfoldable pub total_request : List ℕ → List ℕ
total_request cid = ((total_word ++ b' ' ∷ []) ++ cid) ++ newline ∷ []

module _ (name : List ℕ → String) where
  -- The reply of `GET`, with the index as it was written.
  unfoldable pub reply_get : List ℕ → List ℕ → Storage → List ℕ
  reply_get cid written s = elim (atoi written) [
    | none ↦ minus_one
    | some index ↦ elim (get_chunk (name cid) index s) [
      | err e ↦ minus_one
      | ok c ↦ number_line (length (chunk_bytes c)) ++ chunk_bytes c
    ]
  ]

  -- The switch of `ServeStream`; an empty line has no reply.
  unfoldable pub reply : List (List ℕ) → Storage → List ℕ
  reply [] s = []
  reply (word ∷ cid ∷ []) s =
      if is_word word total_word then number_line (get_total_chunks (name cid) s) else minus_one
  reply (word ∷ cid ∷ written ∷ []) s =
      if is_word word get_word then reply_get cid written s else minus_one
  reply _ s = minus_one

  -- The loop of `ServeStream`: all that it writes for all that it reads. With fuel for each line.
  unfoldable pub serve_stream : ℕ → Storage → List ℕ → List ℕ
  serve_stream zero s input = []
  serve_stream (suc fuel) s input = elim (read_string input) [
    | none ↦ []
    | some (line, rest) ↦ reply (fields (trim_space line)) s ++ serve_stream fuel s rest
  ]

-- The answer of a peer as the client reads it.
pub data Fetched : Type 0 where
  fetched : List ℕ → Fetched
  broken : Fetched

-- `io.ReadFull` of a buffer with `n` bytes.
unfoldable pub read_full : ℕ → List ℕ → Fetched × List ℕ
read_full n input =
    if ltb (length input) n then (broken, []) else (fetched (take n input), drop n input)

-- The part of `fetchChunk` that reads: the result, and what is left in the reader.
unfoldable pub read_framed : List ℕ → Fetched × List ℕ
read_framed input = elim (read_string input) [
  | none ↦ (broken, [])
  | some (line, rest) ↦ elim (atoi (trim_space line)) [
    | none ↦ (broken, rest)
    | some (negsuc n) ↦ (broken, rest)
    | some (pos n) ↦ read_full n rest
  ]
]

-- The part of `queryTotalFromPeer` that reads.
unfoldable pub read_total : List ℕ → Option ℤ
read_total input = elim (read_string input) [
  | none ↦ none
  | some (line, rest) ↦ atoi (trim_space line)
]

module _ {P S : Type 0} (dec : Discrete P) (exchange : S → List ℕ → Option (List ℕ)) where
  -- `fetchChunk` with a stream: `exchange` writes the request and gives what can be read then, or fails
  -- to write. The stream goes back to the pool, with an error if there was one.
  unfoldable pub fetch_on : ℕ → P → List ℕ → ℕ → S → Pool P S → Pool P S × Fetched
  fetch_on now p cid index s pool = elim (exchange s (get_request cid index)) [
    | none ↦ (release dec now p s true pool, broken)
    | some input ↦
        let (result, rest) = read_framed input in
        elim result [
          | fetched bytes ↦ (release dec now p s false pool, fetched bytes)
          | broken ↦ (release dec now p s true pool, broken)
        ]
  ]

  unfoldable pub fetch_chunk : Option S → ℕ → P → List ℕ → ℕ → Pool P S → Pool P S × Fetched
  unfolding fetch_on
  fetch_chunk opened now p cid index pool =
      let (pool', got) = acquire dec opened now p pool in
      elim got [ none ↦ (pool', broken) | some s ↦ fetch_on now p cid index s pool' ]

-- `queryTotalFromPeer` on a new stream.
unfoldable pub query_total_from_peer :
    {S : Type 0} → (S → List ℕ → Option (List ℕ)) → Option S → List ℕ → Option ℤ
query_total_from_peer exchange opened cid = elim opened [
  | none ↦ none
  | some s ↦ elim (exchange s (total_request cid)) [ none ↦ none | some input ↦ read_total input ]
]
