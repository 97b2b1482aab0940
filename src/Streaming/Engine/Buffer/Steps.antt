-- ===== src/Streaming/Engine/Buffer/Steps.antt =====
-- internal/streaming/engine.go: the operations of `Engine` keep the invariant of the read buffer.
use music_p2p.Prelude.{
  ℕ, suc, ◌+◌, ◌≤◌, ◌<◌, ◌≡◌, refl, Bool, true, false, ◌&&◌, String, List, [], ◌++◌, none, some,
  length, take, drop, take-append-drop, append_assoc, append-nil, arith, ℕ_discrete, ltb, leb,
  Bool-cases, Option-cases, inl, inr, take_of_length-le,
}
use music_p2p.Prelude.Assoc.{
  lookup, insert, delete, lookup-insert, lookup-insert_self, lookup-delete,
}
use music_p2p.Prelude.Keys.{
  insert-InRange, insert-IsDistinct, length-insert_new, length-insert_old, length-delete,
  delete-InRange, delete-IsDistinct, lookup-InRange,
}
use music_p2p.Streaming.Engine.{
  Engine, start, accept_chunk, check_done, finish, read, idle, read_chunk, delivered,
}
use music_p2p.Streaming.Engine.Buffer.{IsBuffer}

ltb_irrefl : (n : ℕ) → ltb n n ≡ false
ltb_irrefl n = ground arith

module _ (track : ℕ → List ℕ) where
  -- A fresh stream satisfies the invariant, with nothing read.
  pub start-IsBuffer :
      (cid : String) (n now : ℕ) (e : Engine) → IsBuffer track [] (start cid n now e)
  unfolding start lookup
  start-IsBuffer cid n now e = record {
    range = tt;
    distinct = tt;
    within = omega arith;
    counted = refl;
    finished = λ h. cc;
    whole = λ i found p h. cc;
    at_chunk = λ found h. cc;
    at_gap = λ h. refl;
  }

  -- The first delivery of a chunk that lies ahead.
  inserted-IsBuffer :
      (out : List ℕ) (i now : ℕ) (e : Engine)
      → IsBuffer track out e
      → i < e.total_chunks
      → e.next_read ≤ i
      → lookup ℕ_discrete i e.chunks ≡ none
      → IsBuffer track out (record e {
        chunks = insert ℕ_discrete i (track i) e.chunks;
        received = e.received + 1;
        last_chunk_time = now;
      })
  inserted-IsBuffer out i now e b p q h = record {
    range = insert-InRange e.next_read e.total_chunks i (track i) e.chunks b.range q p;
    distinct = insert-IsDistinct i (track i) e.chunks b.distinct;
    within = b.within;
    counted = omega (arith, b.counted, length-insert_new i (track i) e.chunks h);
    finished = λ d. ground (arith, b.finished d);
    whole = λ j found r g. elim (ℕ_discrete i j) [
      | yes s ↦ ground (arith, lookup-insert ℕ_discrete i j (track i) e.chunks)
      | no s ↦ b.whole j found r (ground (arith, lookup-insert ℕ_discrete i j (track i) e.chunks))
    ];
    at_chunk = λ found g. elim (ℕ_discrete i e.next_read) [
      | yes s ↦
          let same : found ≡ track e.next_read =
            ground (arith, lookup-insert ℕ_discrete i e.next_read (track i) e.chunks) in
          rw (same, b.at_gap (ground arith)) refl
      | no s ↦
          b.at_chunk found
            (ground (arith, lookup-insert ℕ_discrete i e.next_read (track i) e.chunks))
    ];
    at_gap =
        λ g. b.at_gap (ground (arith, lookup-insert ℕ_discrete i e.next_read (track i) e.chunks));
  }

  pub accept_chunk-IsBuffer :
      (out : List ℕ) (i now : ℕ) (e : Engine)
      → IsBuffer track out e
      → i < e.total_chunks
      → IsBuffer track out (accept_chunk i (track i) now e).0
  unfolding accept_chunk
  accept_chunk-IsBuffer out i now e b p = elim (Bool-cases (ltb i e.next_read)) [
    | inl f ↦ rw f b
    | inr f ↦ elim (Option-cases (lookup ℕ_discrete i e.chunks)) [
      | inl h ↦ rw (f, h) (inserted-IsBuffer out i now e b p (ground arith) h)
      | inr (found, h) ↦ rw (f, h) b
    ]
  ]

  finish-IsBuffer :
      (out : List ℕ) (e : Engine)
      → IsBuffer track out e
      → e.total_chunks ≤ e.received
      → IsBuffer track out (finish e)
  unfolding finish
  finish-IsBuffer out e b p = record {
    range = b.range;
    distinct = b.distinct;
    within = b.within;
    counted = b.counted;
    finished = λ d. p;
    whole = b.whole;
    at_chunk = b.at_chunk;
    at_gap = b.at_gap;
  }

  pub check_done-IsBuffer :
      (out : List ℕ) (e : Engine)
      → IsBuffer track out e
      → IsBuffer track out (check_done e.total_chunks e)
  unfolding check_done
  check_done-IsBuffer out e b = elim (Bool-cases (leb e.total_chunks e.received)) [
    | inl f ↦ rw f (finish-IsBuffer out e b (ground (arith, f)))
    | inr f ↦ rw f b
  ]

  read_range :
      (out : List ℕ) {found : List ℕ} (e : Engine)
      → IsBuffer track out e
      → lookup ℕ_discrete e.next_read e.chunks ≡ some found
      → e.next_read < e.total_chunks
  read_range out {found} e b h =
      (lookup-InRange e.next_read e.total_chunks e.next_read {v = found} e.chunks b.range h).1

  -- A read that leaves a rest of the chunk.
  partial-IsBuffer :
      (out : List ℕ) (room : ℕ) (found : List ℕ) (e : Engine)
      → IsBuffer track out e
      → lookup ℕ_discrete e.next_read e.chunks ≡ some found
      → IsBuffer track
          (out ++ take room found)
          (record e { chunks = insert ℕ_discrete e.next_read (drop room found) e.chunks })
  partial-IsBuffer out room found e b h = record {
    range =
        insert-InRange e.next_read e.total_chunks e.next_read (drop room found) e.chunks b.range
          (omega arith) (read_range out {found = found} e b h);
    distinct = insert-IsDistinct e.next_read (drop room found) e.chunks b.distinct;
    within = b.within;
    counted =
        omega (
          arith,
          b.counted,
          length-insert_old e.next_read (drop room found) {w = found} e.chunks h,
        );
    finished = b.finished;
    whole = λ i rest q g.
        b.whole i rest q
          (ground (arith, lookup-insert ℕ_discrete e.next_read i (drop room found) e.chunks));
    at_chunk = λ rest g.
        let same : rest ≡ drop room found =
          ground (arith, lookup-insert_self ℕ_discrete e.next_read (drop room found) e.chunks) in
        rw (same, append_assoc out (take room found) (drop room found), take-append-drop room found)
          (b.at_chunk found h);
    at_gap = λ g.
        absurd
          (ground (arith, lookup-insert_self ℕ_discrete e.next_read (drop room found) e.chunks));
  }

  -- A read that uses the chunk up.
  consumed-IsBuffer :
      (out found : List ℕ) (e : Engine)
      → IsBuffer track out e
      → lookup ℕ_discrete e.next_read e.chunks ≡ some found
      → IsBuffer track (out ++ found) (record e {
        chunks = delete ℕ_discrete e.next_read e.chunks;
        next_read = suc e.next_read;
      })
  consumed-IsBuffer out found e b h = record {
    range = delete-InRange e.next_read e.total_chunks e.chunks b.range;
    distinct = delete-IsDistinct e.next_read e.chunks b.distinct;
    within = omega (arith, read_range out {found = found} e b h);
    counted = omega (arith, b.counted, length-delete e.next_read {v = found} e.chunks b.distinct h);
    finished = b.finished;
    whole = λ i rest q g.
        b.whole i rest (omega arith)
          (ground (arith, lookup-delete ℕ_discrete e.next_read i e.chunks));
    at_chunk = λ rest g.
        rw
          (
            b.whole (suc e.next_read) rest (omega arith)
                (ground (arith, lookup-delete ℕ_discrete e.next_read (suc e.next_read) e.chunks)),
            b.at_chunk found h,
          )
          refl;
    at_gap = λ g. b.at_chunk found h;
  }

  read_chunk-IsBuffer :
      (out : List ℕ) (room : ℕ) (found : List ℕ) (e : Engine)
      → IsBuffer track out e
      → lookup ℕ_discrete e.next_read e.chunks ≡ some found
      → IsBuffer track (out ++ delivered (read_chunk room found e).1) (read_chunk room found e).0
  unfolding read_chunk
  read_chunk-IsBuffer out room found e b h = elim (Bool-cases (ltb room (length found))) [
    | inl f ↦ rw (f, f) (partial-IsBuffer out room found e b h)
    | inr f ↦
        let next : suc e.next_read ≡ e.next_read + 1 = omega arith in
        rw
          (
            f,
            ltb_irrefl (length found),
            take_of_length-le (length found) found (omega arith),
            ← next,
          )
          (consumed-IsBuffer out found e b h)
  ]

  idle-IsBuffer :
      (out : List ℕ) (at_end done : Bool) (e : Engine)
      → IsBuffer track out e
      → IsBuffer track (out ++ delivered (idle at_end done e).1) (idle at_end done e).0
  unfolding idle
  idle-IsBuffer out true done e b = rw (append-nil out) b
  idle-IsBuffer out false true e b = rw (append-nil out) b
  idle-IsBuffer out false false e b = rw (append-nil out) b

  pub read-IsBuffer :
      (out : List ℕ) (room : ℕ) (e : Engine)
      → IsBuffer track out e
      → IsBuffer track (out ++ delivered (read room e).1) (read room e).0
  unfolding read
  read-IsBuffer out room e b = elim (Option-cases (lookup ℕ_discrete e.next_read e.chunks)) [
    | inr (found, h) ↦ rw (read, h) (read_chunk-IsBuffer out room found e b h)
    | inl h ↦ rw (read, h) (idle-IsBuffer out (e.done && leb e.total_chunks e.next_read) e.done e b)
  ]
