-- ===== src/Storage/Frames/Headers.antt =====
-- internal/storage/storage.go: a frame is recognised by its first four bytes alone.
use music_p2p.Prelude.{
  ℕ, suc, ◌≤◌, ◌≡◌, refl, ap, sym, ◌∙◌, ◌⊎◌, inl, true, List, [], ◌∷◌, ◌++◌, arith, length, take,
  drop, length-append,
}
use music_p2p.Storage.Mp3.{is_sync, mp3_frame_size}
use music_p2p.Storage.Mp3.Bounds.{mp3_frame_size-bounds}
use music_p2p.Storage.Frames.{frame_length}

-- A whole frame: a sync word, and a header that gives the length.
pub record IsFrame (f : List ℕ) : Type 0 where
  pub synced : is_sync f ≡ true
  pub sized : mp3_frame_size f ≡ length f
  pub filled : 32 ≤ length f

pub mp3_frame_size-take :
    (n : ℕ) (xs : List ℕ) → 4 ≤ n → mp3_frame_size (take n xs) ≡ mp3_frame_size xs
unfolding mp3_frame_size
mp3_frame_size-take (suc (suc (suc (suc n)))) (a ∷ b ∷ c ∷ d ∷ xs) h = refl
mp3_frame_size-take (suc (suc (suc (suc n)))) (a ∷ b ∷ c ∷ []) h = refl
mp3_frame_size-take (suc (suc (suc (suc n)))) (a ∷ b ∷ []) h = refl
mp3_frame_size-take (suc (suc (suc (suc n)))) (a ∷ []) h = refl
mp3_frame_size-take (suc (suc (suc (suc n)))) [] h = refl
mp3_frame_size-take n xs h = absurd (omega arith)

pub is_sync-take : (n : ℕ) (xs : List ℕ) → 4 ≤ n → is_sync (take n xs) ≡ is_sync xs
unfolding is_sync
is_sync-take (suc (suc n)) (a ∷ b ∷ xs) h = refl
is_sync-take (suc (suc n)) (a ∷ []) h = refl
is_sync-take (suc (suc n)) [] h = refl
is_sync-take n xs h = absurd (omega arith)

-- `mp3FrameSize` gives 0 or at least 32.
pub mp3_frame_size-ge : (xs : List ℕ) → (mp3_frame_size xs ≡ 0) ⊎ (32 ≤ mp3_frame_size xs)
unfolding mp3_frame_size
mp3_frame_size-ge (a ∷ b ∷ c ∷ d ∷ xs) = ground (arith, mp3_frame_size-bounds a b c d xs)
mp3_frame_size-ge (a ∷ b ∷ c ∷ []) = inl refl
mp3_frame_size-ge (a ∷ b ∷ []) = inl refl
mp3_frame_size-ge (a ∷ []) = inl refl
mp3_frame_size-ge [] = inl refl

pub frame_length_cases :
    (xs : List ℕ)
    → (frame_length xs ≡ 0)
      ⊎ ((is_sync xs ≡ true)
          × (mp3_frame_size xs ≡ frame_length xs)
          × (32 ≤ frame_length xs)
          × (frame_length xs ≤ length xs))
unfolding frame_length
frame_length_cases xs = ground (arith, mp3_frame_size-ge xs)

pub frame_length-frame :
    (xs : List ℕ)
    → is_sync xs ≡ true
    → 32 ≤ mp3_frame_size xs
    → mp3_frame_size xs ≤ length xs
    → frame_length xs ≡ mp3_frame_size xs
unfolding frame_length
frame_length-frame xs s p q = ground arith

take-length : (xs ys : List ℕ) → take (length xs) (xs ++ ys) ≡ xs
take-length [] ys = refl
take-length (x ∷ xs) ys = ap (◌∷◌ x) (take-length xs ys)

drop-length : (xs ys : List ℕ) → drop (length xs) (xs ++ ys) ≡ ys
drop-length [] ys = refl
drop-length (x ∷ xs) ys = drop-length xs ys

-- The loop body takes a whole frame that stands at the start of the rest.
pub frame_length-append :
    (f rest : List ℕ)
    → IsFrame f
    → (frame_length (f ++ rest) ≡ length f)
      × (take (length f) (f ++ rest) ≡ f)
      × (drop (length f) (f ++ rest) ≡ rest)
frame_length-append f rest v = (
  let t = take-length f rest in
      let h : 4 ≤ length f = omega (arith, v.filled) in
      let s : is_sync (f ++ rest) ≡ true =
        sym (is_sync-take (length f) (f ++ rest) h) ∙ ap is_sync t ∙ v.synced in
      let m : mp3_frame_size (f ++ rest) ≡ length f =
        sym (mp3_frame_size-take (length f) (f ++ rest) h) ∙ ap mp3_frame_size t ∙ v.sized in
      frame_length-frame (f ++ rest) s (omega (arith, v.filled))
        (omega (arith, length-append f rest))
      ∙ m,
  take-length f rest,
  drop-length f rest,
)
