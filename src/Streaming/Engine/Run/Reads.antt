-- ===== src/Streaming/Engine/Run/Reads.antt =====
-- internal/streaming/engine.go: what the reader of a stream gets.
use music_p2p.Prelude.{
  ℕ, zero, suc, ◌≤◌, ◌≡◌, ◌≢◌, refl, ap, ◌∙◌, Bool, true, false, ◌&&◌, String, List, [], ◌++◌, none,
  append_assoc, append-nil, arith, All, ℕ_discrete, leb, Option-cases, inl, inr,
}
use music_p2p.Prelude.Assoc.{lookup}
use music_p2p.Prelude.Keys.{lookup-InRange}
use music_p2p.Streaming.Engine.{Engine, read, idle, read_chunk, ReadResult, eof, missing}
use music_p2p.Streaming.Engine.Buffer.{bytes_upto}
use music_p2p.Streaming.Engine.Run.{Call, IsFrom, stream, stream-IsStream, IsBuffer-at_gap}

read_chunk-missing :
    (room i : ℕ) (found : List ℕ) (e : Engine) → (read_chunk room found e).1 ≢ missing i
unfolding read_chunk
read_chunk-missing room i found e h = ground (arith, h)

read_chunk-eof : (room : ℕ) (found : List ℕ) (e : Engine) → (read_chunk room found e).1 ≢ eof
unfolding read_chunk
read_chunk-eof room found e h = ground (arith, h)

bytes_upto-prefix :
    (track : ℕ → List ℕ) (n total : ℕ)
    → n ≤ total
    → (rest : List ℕ) × (bytes_upto track n ++ rest ≡ bytes_upto track total)
bytes_upto-prefix track zero zero h = ([], refl)
bytes_upto-prefix track (suc n) zero h = absurd (omega arith)
bytes_upto-prefix track n (suc total) h = elim (ℕ_discrete n (suc total)) [
  | yes p ↦ ([], rw (append-nil (bytes_upto track n), p) refl)
  | no p ↦
      let (rest, r) = bytes_upto-prefix track n total (omega arith) in
      (rest ++ track total, rw (← append_assoc (bytes_upto track n) rest (track total), r) refl)
]

-- The two branches of a read.
pub read_cases {ℓ} :
    (Q : Engine × ReadResult → Type ℓ) (room : ℕ) (e : Engine)
    → ((found : List ℕ) → Q (read_chunk room found e))
    → (lookup ℕ_discrete e.next_read e.chunks ≡ none
        → Q (idle (e.done && leb e.total_chunks e.next_read) e.done e))
    → Q (read room e)
unfolding read
read_cases Q room e f g = elim (Option-cases (lookup ℕ_discrete e.next_read e.chunks)) [
  | inr (found, h) ↦ rw (read, h) (f found)
  | inl h ↦ rw (read, h) (g h)
]

module _ (e : Engine) where
  idle-missing : (a d : Bool) (i : ℕ) → (idle (d && a) d e).1 ≡ missing i → (d ≡ true) × (a ≡ false)
  unfolding idle
  idle-missing true true i h = cc
  idle-missing false true i h = (refl, refl)
  idle-missing true false i h = cc
  idle-missing false false i h = cc

  idle-eof : (a d : Bool) → (idle (d && a) d e).1 ≡ eof → a ≡ true
  unfolding idle
  idle-eof true d h = refl
  idle-eof false true h = cc
  idle-eof false false h = cc

module _ (track : ℕ → List ℕ) (total : ℕ) (cid : String) (now : ℕ) (e : Engine) (cs : List Call)
    (froms : All (IsFrom track total) cs) where
  -- From the start of a stream, after any sequence of reads, end tests and arrivals of chunks of
  -- the track, repeated ones included, and without `Seek`, no read fails with the error that a
  -- chunk is missing after the download.
  pub stream-read_missing : (room i : ℕ) → (read room (stream cid total now e cs).0).1 ≢ missing i
  stream-read_missing room i =
      let (b, p) = stream-IsStream track total cid now e cs froms in
      let s = (stream cid total now e cs).0 in
      read_cases (λ r. r.1 ≢ missing i) room s (λ found h. read_chunk-missing room i found s h)
        (λ g h.
          let (d, f) = idle-missing s (leb s.total_chunks s.next_read) s.done i h in
          ground (arith, f, IsBuffer-at_gap track total _ s b (b.finished d) g))

  -- From the start of a stream, after any sequence of reads, end tests and arrivals of chunks of
  -- the track, repeated ones included, and without `Seek`: if a read reports the end of the
  -- stream, then exactly the bytes of the whole track, in order, have been read.
  pub stream-read_eof :
      (room : ℕ)
      → (read room (stream cid total now e cs).0).1 ≡ eof
      → (stream cid total now e cs).1 ≡ bytes_upto track total
  stream-read_eof room =
      let (b, p) = stream-IsStream track total cid now e cs froms in
      let s = (stream cid total now e cs).0 in
      read_cases (λ r. r.1 ≡ eof → (stream cid total now e cs).1 ≡ bytes_upto track total) room s
        (λ found h. absurd (read_chunk-eof room found s h))
        (λ g h.
          let f = idle-eof s (leb s.total_chunks s.next_read) s.done h in
          let same : s.next_read ≡ total = ground (arith, f, p, b.within) in
          b.at_gap g ∙ ap (bytes_upto track) same)

  -- From the start of a stream, after any sequence of reads, end tests and arrivals of chunks of
  -- the track, in any order and repeated, and without `Seek`, the bytes that were read are a
  -- prefix of those of the track.
  pub stream-prefix :
      (rest : List ℕ) × ((stream cid total now e cs).1 ++ rest ≡ bytes_upto track total)
  stream-prefix =
      let (b, p) = stream-IsStream track total cid now e cs froms in
      let s = (stream cid total now e cs).0 in
      let out = (stream cid total now e cs).1 in
      elim (Option-cases (lookup ℕ_discrete s.next_read s.chunks)) [
        | inr (found, h) ↦
            let q =
              lookup-InRange s.next_read s.total_chunks s.next_read {v = found} s.chunks b.range
                h in
            let (rest, r) =
              bytes_upto-prefix track (suc s.next_read) total (ground (arith, p, q.1)) in
            (found ++ rest, rw (← append_assoc out found rest, b.at_chunk found h) r)
        | inl h ↦
            let (rest, r) =
              bytes_upto-prefix track s.next_read total (ground (arith, p, b.within)) in
            (rest, rw (b.at_gap h) r)
      ]
