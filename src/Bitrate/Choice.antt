-- ===== src/Bitrate/Choice.antt =====
-- internal/bitrate/adaptive.go: `SelectVariant`.
use music_p2p.Prelude.{
  ℕ, zero, suc, get_elem?, ◌≤◌, ◌<◌, ◌≡◌, refl, sym, subst, ◌⊎◌, inl, inr, true, false, String,
  List, [], ◌∷◌, Option, none, some, ltb, arith, All, Bool-cases, length,
}
use music_p2p.Prelude.Assoc.{lookup}
use music_p2p.Prelude.Text.{String_discrete}
use music_p2p.Bitrate.{
  Variant, TrackVariants, AdaptiveBitrate, ok, err, not_registered, no_variants, Roundings, fits,
  improves, best_fit, lowest_of, fall_back, select_from, select_variant,
}

-- Some element of the list.
abbrev pub Among : Variant → List Variant → Type 0
Among v vs = (i : ℕ) × (get_elem? vs i ≡ some v)

further : {v : Variant} (w : Variant) (vs : List Variant) → Among v vs → Among v (w ∷ vs)
further w vs (i, e) = (suc i, e)

skip : {u : Variant} (v w : Variant) (vs : List Variant) → Among u (v ∷ vs) → Among u (v ∷ w ∷ vs)
skip v w vs (zero, e) = (zero, e)
skip v w vs (suc i, e) = (suc (suc i), e)

-- `u` is among `v` and `vs`, and none of them has a lower bit rate.
abbrev IsLeast : Variant → List Variant → Variant → Type 0
IsLeast v vs u = Among u (v ∷ vs) × (u.bitrate ≤ v.bitrate) × All (λ w. u.bitrate ≤ w.bitrate) vs

module _ (fl : Roundings) (bandwidth : ℕ) where
  -- The best of the variants that fit; or none fits, and it is the lowest of all.
  pub record IsChoice (vs : List Variant) (v : Variant) : Type 0 where
    pub member : Among v vs
    pub best :
        ((fits fl bandwidth v ≡ true)
          × All (λ w. (fits fl bandwidth w ≡ false) ⊎ (w.bitrate ≤ v.bitrate)) vs)
        ⊎ All (λ w. (fits fl bandwidth w ≡ false) × (v.bitrate ≤ w.bitrate)) vs

  later :
      {v b : Variant} (w : Variant) (vs : List Variant)
      → (v ≡ b) ⊎ (Among v vs × (fits fl bandwidth v ≡ true))
      → (v ≡ b) ⊎ (Among v (w ∷ vs) × (fits fl bandwidth v ≡ true))
  later w vs (inl p) = inl p
  later w vs (inr (m, f)) = inr (further w vs m, f)

  here :
      {v : Variant} (w : Variant) (vs : List Variant)
      → fits fl bandwidth w ≡ true
      → (v ≡ w) ⊎ (Among v vs × (fits fl bandwidth v ≡ true))
      → Among v (w ∷ vs) × (fits fl bandwidth v ≡ true)
  here w vs f (inl p) = rw p ((zero, refl), f)
  here w vs f (inr (m, g)) = (further w vs m, g)

  -- With `b` the best so far, the loop ends with a variant that is at least as good.
  best_fit-some :
      (b : Variant) (vs : List Variant)
      → (v : Variant) × (best_fit fl bandwidth (some b) vs ≡ some v)
        × (b.bitrate ≤ v.bitrate)
        × ((v ≡ b) ⊎ (Among v vs × (fits fl bandwidth v ≡ true)))
        × All (λ w. (fits fl bandwidth w ≡ false) ⊎ (w.bitrate ≤ v.bitrate)) vs
  unfolding best_fit improves
  best_fit-some b [] = (b, refl, omega arith, inl refl, tt)
  best_fit-some b (w ∷ vs) = elim (Bool-cases (fits fl bandwidth w)) [
    | inr f ↦
        let (v, e, p, m, a) = best_fit-some b vs in rw f (v, e, p, later w vs m, (inl refl, a))
    | inl f ↦ elim (Bool-cases (ltb b.bitrate w.bitrate)) [
      | inl g ↦
          let (v, e, p, m, a) = best_fit-some w vs in
          rw (f, g) (v, e, ground arith, inr (here w vs f m), (inr p, a))
      | inr g ↦
          let (v, e, p, m, a) = best_fit-some b vs in
          rw (f, g) (v, e, p, later w vs m, (inr (ground arith), a))
    ]
  ]

  best_fit-none :
      (vs : List Variant)
      → ((best_fit fl bandwidth none vs ≡ none) × All (λ w. fits fl bandwidth w ≡ false) vs)
        ⊎ ((v : Variant) × (best_fit fl bandwidth none vs ≡ some v)
            × Among v vs
            × (fits fl bandwidth v ≡ true)
            × All (λ w. (fits fl bandwidth w ≡ false) ⊎ (w.bitrate ≤ v.bitrate)) vs)
  unfolding best_fit improves
  best_fit-none [] = inl (refl, tt)
  best_fit-none (w ∷ vs) = elim (Bool-cases (fits fl bandwidth w)) [
    | inl f ↦
        let (v, e, p, m, a) = best_fit-some w vs in
        let (n, g) = here w vs f m in rw f (inr (v, e, n, g, (inr p, a)))
    | inr f ↦ elim (best_fit-none vs) [
      | inl (e, a) ↦ rw f (inl (e, (refl, a)))
      | inr (v, e, m, g, a) ↦ rw f (inr (v, e, further w vs m, g, (inl refl, a)))
    ]
  ]

  lowest_of-IsLeast : (v : Variant) (vs : List Variant) → IsLeast v vs (lowest_of fl v vs)
  unfolding lowest_of
  lowest_of-IsLeast v [] = ((zero, refl), omega arith, tt)
  lowest_of-IsLeast v (w ∷ vs) = elim (Bool-cases (ltb w.bitrate v.bitrate)) [
    | inl e ↦
        let same : lowest_of fl v (w ∷ vs) ≡ lowest_of fl w vs = rw e refl in
        let (m, p, q) = lowest_of-IsLeast w vs in
        subst (IsLeast v (w ∷ vs)) (sym same) (further v (w ∷ vs) m, ground arith, (p, q))
    | inr e ↦
        let same : lowest_of fl v (w ∷ vs) ≡ lowest_of fl v vs = rw e refl in
        let (m, p, q) = lowest_of-IsLeast v vs in
        subst (IsLeast v (w ∷ vs)) (sym same) (skip v w vs m, p, (ground arith, q))
  ]

  both :
      (n : ℕ) (vs : List Variant)
      → All (λ w. fits fl bandwidth w ≡ false) vs
      → All (λ w. n ≤ w.bitrate) vs
      → All (λ w. (fits fl bandwidth w ≡ false) × (n ≤ w.bitrate)) vs
  both n [] a b = tt
  both n (v ∷ vs) a b = ((a.0, b.0), both n vs a.1 b.1)

  select_from-IsChoice :
      (vs : List Variant)
      → 0 < length vs
      → (v : Variant) × (select_from fl bandwidth vs ≡ ok v) × IsChoice vs v
  unfolding select_from fall_back
  select_from-IsChoice [] h = absurd (omega arith)
  select_from-IsChoice (w ∷ vs) h = elim (best_fit-none (w ∷ vs)) [
    | inr (v, e, m, g, a) ↦ rw (select_from, e) (v, refl, record { member = m; best = inl (g, a) })
    | inl (e, a) ↦
        let (m, p, q) = lowest_of-IsLeast w vs in
        rw (select_from, e)
          (
            lowest_of fl w vs,
            refl,
            record { member = m; best = inr (both (lowest_of fl w vs).bitrate (w ∷ vs) a (p, q)) },
          )
  ]

  select_from-cases :
      (vs : List Variant)
      → ((vs ≡ []) × (select_from fl bandwidth vs ≡ err no_variants))
        ⊎ ((v : Variant) × (select_from fl bandwidth vs ≡ ok v) × IsChoice vs v)
  unfolding select_from best_fit fall_back
  select_from-cases [] = inl (refl, refl)
  select_from-cases (w ∷ vs) = inr (select_from-IsChoice (w ∷ vs) (omega arith))

module _ (fl : Roundings) where
  -- What `SelectVariant` returns, by what is registered for the track.
  pub IsSelected : String → AdaptiveBitrate → Option TrackVariants → Type 0
  IsSelected track_id ab none = select_variant fl track_id ab ≡ err not_registered
  IsSelected track_id ab (some tv) =
      ((tv.variants ≡ []) × (select_variant fl track_id ab ≡ err no_variants))
      ⊎ ((v : Variant) × (select_variant fl track_id ab ≡ ok v)
          × IsChoice fl ab.bandwidth_bits tv.variants v)

  select_variant-found :
      (track_id : String) (ab : AdaptiveBitrate) (found : Option TrackVariants)
      → lookup String_discrete track_id ab.tracks ≡ found
      → IsSelected track_id ab found
  unfolding select_variant IsSelected
  select_variant-found track_id ab none e = rw (select_variant, e) (refl)
  select_variant-found track_id ab (some tv) e =
      rw (select_variant, e) (select_from-cases fl ab.bandwidth_bits tv.variants)

  -- `SelectVariant` fails on a track that is not registered, and on one with no variants; on any
  -- other it returns one of the variants of the track: one whose required bandwidth is at hand, and
  -- then no variant that also fits has a higher bit rate; or none fits, and no variant of the track
  -- has a lower one.
  pub select_variant-IsSelected :
      (track_id : String) (ab : AdaptiveBitrate)
      → IsSelected track_id ab (lookup String_discrete track_id ab.tracks)
  select_variant-IsSelected track_id ab =
      select_variant-found track_id ab (lookup String_discrete track_id ab.tracks) refl
