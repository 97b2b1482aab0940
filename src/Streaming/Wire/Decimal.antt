-- ===== src/Streaming/Wire/Decimal.antt =====
-- internal/streaming/engine.go: `strconv.Atoi` reads what `%d` writes.
use music_p2p.Prelude.{
  lt→ltb, ◌==◌, subst, inr, inl, ℕ, zero, suc, ◌+◌, ◌-◌, ◌*◌, ◌/◌, ◌%◌, ◌^◌, ◌≤◌, ◌<◌, ◌≡◌, refl,
  sym, ap, ◌∙◌, false, List, [], ◌∷◌, ◌++◌, some, arith, ltb, All, All-append, Bool-cases,
}
use music_p2p.Prelude.Int.{pos}
use music_p2p.Streaming.Wire.{is_digit, digits, itoa, value_from, digits_value, signed_value, atoi}

-- A digit of `%d`.
abbrev pub IsDigit : ℕ → Type 0
IsDigit c = (48 ≤ c) × (c ≤ 57)

pub digits-IsDigit : (fuel n : ℕ) → All IsDigit (digits fuel n)
unfolding digits
digits-IsDigit zero n = tt
digits-IsDigit (suc fuel) n = elim (Bool-cases (ltb n 10)) [
  | inl e ↦ rw (e, digits) ((omega arith, ground (arith, e)), tt)
  | inr e ↦
      rw (e, digits)
        (All-append IsDigit (digits fuel (n / 10)) _ (digits-IsDigit fuel (n / 10))
          ((omega arith, omega arith), tt))
]

value_from-append :
    (acc : ℕ) (xs : List ℕ) (c : ℕ) {n : ℕ}
    → value_from acc xs ≡ some n
    → IsDigit c
    → value_from acc (xs ++ c ∷ []) ≡ some (n * 10 + (c - 48))
unfolding value_from is_digit
value_from-append acc [] c e h = ground (arith, e, h)
value_from-append acc (x ∷ xs) c e h = elim (Bool-cases (is_digit x)) [
  | inl d ↦ rw d (value_from-append (acc * 10 + (x - 48)) xs c (rw d at e) h)
  | inr d ↦ ground (arith, e, d)
]

value_from-digits : (fuel n : ℕ) → n < fuel → value_from 0 (digits fuel n) ≡ some n
unfolding digits value_from is_digit
value_from-digits zero n h = absurd (omega arith)
value_from-digits (suc fuel) n h = elim (Bool-cases (ltb n 10)) [
  | inl e ↦ rw (e, digits) (ground (arith, e))
  | inr e ↦
      rw (e, digits)
        (value_from-append 0 (digits fuel (n / 10)) (n % 10 + 48)
            (value_from-digits fuel (n / 10) (ground (arith, h, e))) (omega arith, omega arith)
          ∙ ap some (omega arith))
]

pub digits_nonempty : (fuel n : ℕ) → n < fuel → (c : ℕ) × (cs : List ℕ) × (digits fuel n ≡ c ∷ cs)
unfolding digits
digits_nonempty zero n h = absurd (omega arith)
digits_nonempty (suc fuel) n h = elim (Bool-cases (ltb n 10)) [
  | inl e ↦ rw (e, digits) (_, _, refl)
  | inr e ↦
      let (c, cs, p) = digits_nonempty fuel (n / 10) (ground (arith, h, e)) in
      rw (e, p, digits) (c, cs ++ (n % 10 + 48) ∷ [], refl)
]

atoi_digits :
    (c : ℕ) (cs : List ℕ) {n : ℕ}
    → IsDigit c
    → value_from 0 (c ∷ cs) ≡ some n
    → n < 2 ^ 63
    → atoi (c ∷ cs) ≡ some (pos n)
unfolding atoi signed_value digits_value
atoi_digits c cs h e small =
    let not_minus : (c == b'-') ≡ false = ground (arith, h) in
    let not_plus : (c == b'+') ≡ false = ground (arith, h) in
    rw (not_minus, not_plus, signed_value, digits_value, e, lt→ltb _ _ small)

-- `Atoi` gives back every number that an `int` holds and that is not negative.
pub atoi-itoa : (n : ℕ) → n < 2 ^ 63 → atoi (itoa n) ≡ some (pos n)
unfolding itoa
atoi-itoa n h =
    let (c, cs, p) = digits_nonempty (suc n) n (omega arith) in
    let all = subst (All IsDigit) p (digits-IsDigit (suc n) n) in
    let v = ap (value_from 0) (sym p) ∙ value_from-digits (suc n) n (omega arith) in
    ap atoi p ∙ atoi_digits c cs all.0 v h
