-- ===== src/Streaming/Engine/Run/Arrivals.antt =====
-- internal/streaming/engine.go: a stream all of whose chunks arrived.
use music_p2p.Prelude.{
  take, if◌then◌else◌, sym, subst, ◌-◌, ℕ, suc, ◌+◌, ◌≤◌, ◌<◌, ◌≡◌, refl, ap, ◌∙◌, ◌⊎◌, inl, inr,
  Bool, true, false, ◌&&◌, String, List, [], ◌∷◌, some, arith, All, ℕ_discrete, leb, ltb,
  Option-cases, Bool-cases, length, ite, drop,
}
use music_p2p.Prelude.Assoc.{
  lookup, insert, delete, lookup-insert, lookup-insert_self, lookup-insert_ne, lookup-delete_ne,
}
use music_p2p.Prelude.Keys.{length-ge}
use music_p2p.Streaming.Engine.{
  Engine, accept_chunk, check_done, finish, read, idle, read_chunk, ReadResult, bytes, eof,
}
use music_p2p.Streaming.Engine.Buffer.{bytes_upto, IsBuffer}
use music_p2p.Streaming.Engine.Buffer.Steps.{check_done-IsBuffer}
use music_p2p.Streaming.Engine.Run.{
  Call, accepts, checks, reads, step, run, IsFrom, stream, stream-IsStream, IsBuffer-at_gap,
  idle_same,
}
use music_p2p.Streaming.Engine.Run.Reads.{read_cases}

-- Whether a chunk arrives in a run.
unfoldable pub arrives : ℕ → List Call → Bool
arrives i [] = false
arrives i (accepts j found now ∷ cs) = ite (ℕ_discrete j i) true (arrives i cs)
arrives i (checks ∷ cs) = arrives i cs
arrives i (reads room ∷ cs) = arrives i cs

-- The chunk was read or is in the buffer.
abbrev Has : ℕ → Engine → Type 0
Has i e = (i < e.next_read) ⊎ ((found : List ℕ) × (lookup ℕ_discrete i e.chunks ≡ some found))

insert-Has :
    (i j : ℕ) (v : List ℕ) (m : List (ℕ × List ℕ))
    → ((found : List ℕ) × (lookup ℕ_discrete i m ≡ some found))
    → (found : List ℕ) × (lookup ℕ_discrete i (insert ℕ_discrete j v m) ≡ some found)
insert-Has i j v m (found, e) = elim (ℕ_discrete j i) [
  | yes p ↦ (v, ground (arith, lookup-insert ℕ_discrete j i v m, p))
  | no p ↦ (found, lookup-insert_ne ℕ_discrete j i v m p ∙ e)
]

accept_chunk-Has :
    (i j : ℕ) (found : List ℕ) (now : ℕ) (e : Engine)
    → Has i e
    → Has i (accept_chunk j found now e).0
unfolding accept_chunk
accept_chunk-Has i j found now e h = elim (Bool-cases (ltb j e.next_read)) [
  | inl p ↦ rw p h
  | inr p ↦ elim (Option-cases (lookup ℕ_discrete j e.chunks)) [
    | inr (old, q) ↦ rw (p, q) h
    | inl q ↦ rw (p, q) (elim h [ inl b ↦ inl b | inr x ↦ inr (insert-Has i j found e.chunks x) ])
  ]
]

accept_chunk-arrived :
    (i : ℕ) (found : List ℕ) (now : ℕ) (e : Engine) → Has i (accept_chunk i found now e).0
unfolding accept_chunk
accept_chunk-arrived i found now e = elim (Bool-cases (ltb i e.next_read)) [
  | inl p ↦ rw p (inl (ground (arith, p)))
  | inr p ↦ elim (Option-cases (lookup ℕ_discrete i e.chunks)) [
    | inr (old, q) ↦ rw (p, q) (inr (old, q))
    | inl q ↦ rw (p, q) (inr (found, lookup-insert_self ℕ_discrete i found e.chunks))
  ]
]

delete-Has :
    (i : ℕ) (e : Engine)
    → Has i e
    → (i < suc e.next_read)
      ⊎ ((found : List ℕ) × (lookup ℕ_discrete i (delete ℕ_discrete e.next_read e.chunks)
            ≡ some found))
delete-Has i e (inl b) = inl (omega (arith, b))
delete-Has i e (inr (found, p)) = elim (ℕ_discrete e.next_read i) [
  | yes q ↦ inl (omega (arith, q))
  | no q ↦ inr (found, lookup-delete_ne ℕ_discrete e.next_read i e.chunks q ∙ p)
]

read_chunk-Has :
    (i room : ℕ) (found : List ℕ) (e : Engine) → Has i e → Has i (read_chunk room found e).0
unfolding read_chunk
read_chunk-Has i room found e h =
    let n = if ltb room (length found) then room else length found in
    elim (Bool-cases (ltb n (length found))) [
      | inl p ↦ rw p (elim h [
        | inl b ↦ inl b
        | inr x ↦ inr (insert-Has i e.next_read (drop n found) e.chunks x)
      ])
      | inr p ↦ rw p (elim (delete-Has i e h) [ inl b ↦ inl (omega (arith, b)) | inr x ↦ inr x ])
    ]

read-Has : (i room : ℕ) (e : Engine) → Has i e → Has i (read room e).0
read-Has i room e h =
    read_cases (λ r. Has i r.0) room e (λ found. read_chunk-Has i room found e h)
      (λ g. subst (Has i) (sym (idle_same (e.done && leb e.total_chunks e.next_read) e.done e)) h)

check_done-Has : (i total : ℕ) (e : Engine) → Has i e → Has i (check_done total e)
unfolding check_done finish
check_done-Has i total e h = elim (Bool-cases (leb total e.received)) [
  | inl p ↦ rw p h
  | inr p ↦ rw p h
]

step-Has : (i total : ℕ) (s : Engine × List ℕ) (c : Call) → Has i s.0 → Has i (step total s c).0
unfolding step
step-Has i total (e, out) (accepts j found now) h = accept_chunk-Has i j found now e h
step-Has i total (e, out) checks h = check_done-Has i total e h
step-Has i total (e, out) (reads room) h = read-Has i room e h

run-Has :
    (i total : ℕ) (s : Engine × List ℕ) (cs : List Call) → Has i s.0 → Has i (run total s cs).0
unfolding run
run-Has i total s [] h = h
run-Has i total s (c ∷ cs) h = run-Has i total (step total s c) cs (step-Has i total s c h)

run-arrives :
    (i total : ℕ) (s : Engine × List ℕ) (cs : List Call)
    → arrives i cs ≡ true
    → Has i (run total s cs).0
unfolding run arrives step
run-arrives i total s [] h = cc
run-arrives i total (e, out) (accepts j found now ∷ cs) h = elim (ℕ_discrete j i) [
  | yes p ↦
      run-Has i total (step total (e, out) (accepts j found now)) cs
        (subst (λ k. Has k (accept_chunk j found now e).0) p (accept_chunk-arrived j found now e))
  | no p ↦ run-arrives i total (step total (e, out) (accepts j found now)) cs (ground (arith, h, p))
]
run-arrives i total s (checks ∷ cs) h = run-arrives i total (step total s checks) cs h
run-arrives i total s (reads room ∷ cs) h = run-arrives i total (step total s (reads room)) cs h

check_done-done : (total : ℕ) (e : Engine) → total ≤ e.received → (check_done total e).done ≡ true
unfolding check_done finish
check_done-done total e h = ground (arith, h)

check_done-total_chunks :
    (total : ℕ) (e : Engine) → (check_done total e).total_chunks ≡ e.total_chunks
unfolding check_done finish
check_done-total_chunks total e = ground arith

-- A buffer that has every chunk has counted them all.
all-counted :
    (track : ℕ → List ℕ) (out : List ℕ) (e : Engine)
    → IsBuffer track out e
    → ((i : ℕ) → i < e.total_chunks → Has i e)
    → e.total_chunks ≤ e.received
all-counted track out e b h =
    let ahead : (k : ℕ)
        → e.next_read ≤ k
        → k < e.next_read + (e.total_chunks - e.next_read)
        → (v : List ℕ) × (lookup ℕ_discrete k e.chunks ≡ some v) =
      λ k p q. elim (h k (omega (arith, p, q, b.within))) [
        | inl r ↦ absurd (omega (arith, p, r))
        | inr x ↦ x
      ] in
    omega (
      arith,
      b.counted,
      b.within,
      length-ge (e.total_chunks - e.next_read) e.next_read e.chunks b.distinct ahead,
    )

-- What a read that does not wait and does not fail gives.
abbrev pub IsServed : List ℕ → List ℕ → ReadResult → Type 0
IsServed whole out r = ((xs : List ℕ) × (r ≡ bytes xs)) ⊎ ((r ≡ eof) × (out ≡ whole))

read_chunk-bytes :
    (room : ℕ) (found : List ℕ) (e : Engine)
    → (xs : List ℕ) × ((read_chunk room found e).1 ≡ bytes xs)
unfolding read_chunk
read_chunk-bytes room found e =
    let n = if ltb room (length found) then room else length found in
    elim (Bool-cases (ltb n (length found))) [
      | inl p ↦ rw p (take n found, refl)
      | inr p ↦ rw p (take n found, refl)
    ]

idle-eof : (e : Engine) (a d : Bool) → d ≡ true → a ≡ true → (idle (d && a) d e).1 ≡ eof
unfolding idle
idle-eof e a d p q = rw (p, q)

-- From the start of a stream, after any sequence of reads, end tests and arrivals of chunks of the track,
-- in any order and repeated, and without `Seek`: if each chunk of the track arrived at least once, then
-- after the end test of the download loop a read neither waits nor fails. It gives bytes, or it reports
-- the end, and then exactly the bytes of the whole track have been read.
pub stream-read_arrived :
    (track : ℕ → List ℕ) (total : ℕ) (cid : String) (now : ℕ) (e : Engine) (cs : List Call)
    (room : ℕ)
    → All (IsFrom track total) cs
    → ((i : ℕ) → i < total → arrives i cs ≡ true)
    → IsServed
        (bytes_upto track total)
        (stream cid total now e cs).1
        (read room (check_done total (stream cid total now e cs).0)).1
stream-read_arrived track total cid now e cs room froms arrived =
    let (b, p) = stream-IsStream track total cid now e cs froms in
    let s = (stream cid total now e cs).0 in
    let out = (stream cid total now e cs).1 in
    let t = check_done total s in
    let counted : total ≤ s.received = omega (
      arith,
      p,
      all-counted track out s b (λ i h. run-arrives i total _ cs (arrived i (omega (arith, p, h)))),
    ) in
    let b' : IsBuffer track out t =
      subst (λ n. IsBuffer track out (check_done n s)) p (check_done-IsBuffer track out s b) in
    let done : t.done ≡ true = check_done-done total s counted in
    let same : t.total_chunks ≡ total = check_done-total_chunks total s ∙ p in
    read_cases (λ r. IsServed (bytes_upto track total) out r.1) room t
      (λ found. inl (read_chunk-bytes room found t))
      (λ g.
        let at_end : t.next_read ≡ t.total_chunks =
          IsBuffer-at_gap track total out t b' (b'.finished done) g in
        inr (
          idle-eof t (leb t.total_chunks t.next_read) t.done done (ground (arith, at_end)),
          b'.at_gap g ∙ ap (bytes_upto track) (at_end ∙ same),
        ))
