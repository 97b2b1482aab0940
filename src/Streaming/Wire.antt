-- ===== src/Streaming/Wire.antt =====
-- internal/streaming/engine.go: what the protocol uses of strconv, strings, fmt and bufio, on bytes.
-- White space is that of ASCII; an `int` has 64 bits.
pub mod Decimal
pub mod Lines
use music_p2p.Prelude.{
  ℕ, zero, suc, ◌+◌, ◌-◌, ◌*◌, ◌/◌, ◌%◌, ◌^◌, Bool, true, false, ◌&&◌, ◌||◌, List, [], ◌∷◌, ◌++◌,
  Option, none, some, ltb, leb, ◌==◌, if◌then◌else◌,
}
use music_p2p.Prelude.Int.{ℤ, pos, negsuc}

abbrev pub newline : ℕ
newline = 10

-- Space, and tab to carriage return.
unfoldable pub is_space : ℕ → Bool
is_space c = c == 32 || (leb 9 c && leb c 13)

unfoldable pub is_digit : ℕ → Bool
is_digit c = leb b'0' c && leb c b'9'

-- The digits of `%d`, with fuel; `itoa` gives enough.
unfoldable pub digits : ℕ → ℕ → List ℕ
digits zero n = []
digits (suc fuel) n =
    let higher = digits fuel (n / 10) in
    if ltb n 10 then (n + b'0') ∷ [] else higher ++ (n % 10 + b'0') ∷ []

unfoldable pub itoa : ℕ → List ℕ
unfolding digits
itoa n = digits (suc n) n

-- The number of some digits, after `acc`.
unfoldable pub value_from : ℕ → List ℕ → Option ℕ
value_from acc [] = some acc
value_from acc (c ∷ cs) =
    let rest = value_from (acc * 10 + (c - b'0')) cs in if is_digit c then rest else none

unfoldable pub digits_value : List ℕ → Option ℕ
digits_value [] = none
digits_value (c ∷ cs) = value_from 0 (c ∷ cs)

-- -n
unfoldable pub negative : ℕ → ℤ
negative zero = pos zero
negative (suc n) = negsuc n

-- `strconv.Atoi`, which fails on what is no number and outside the range of an `int`.
unfoldable pub signed_value : Bool → List ℕ → Option ℤ
signed_value minus cs = elim (digits_value cs) [
  | none ↦ none
  | some n ↦
      if minus
      then (if leb n (2 ^ 63) then some (negative n) else none)
      else if ltb n (2 ^ 63)
      then some (pos n)
      else none
]

unfoldable pub atoi : List ℕ → Option ℤ
atoi [] = none
atoi (c ∷ cs) =
    if c == b'-'
    then signed_value true cs
    else if c == b'+'
    then signed_value false cs
    else signed_value false (c ∷ cs)

unfoldable pub trim_left : List ℕ → List ℕ
trim_left [] = []
trim_left (c ∷ cs) = let rest = trim_left cs in if is_space c then rest else c ∷ cs

unfoldable pub trim_right : List ℕ → List ℕ
trim_right [] = []
trim_right (c ∷ cs) = elim (trim_right cs) [
  | [] ↦ if is_space c then [] else c ∷ []
  | x ∷ xs ↦ c ∷ x ∷ xs
]

-- `strings.TrimSpace`
unfoldable pub trim_space : List ℕ → List ℕ
trim_space s = trim_right (trim_left s)

abbrev pub add_field : List ℕ → List (List ℕ) → List (List ℕ)
add_field [] fs = fs
add_field (c ∷ cs) fs = (c ∷ cs) ∷ fs

-- `strings.Fields`, with the field so far.
unfoldable pub fields_from : List ℕ → List ℕ → List (List ℕ)
fields_from field [] = add_field field []
fields_from field (c ∷ cs) =
    let next = fields_from [] cs in
    let longer = fields_from (field ++ c ∷ []) cs in
    if is_space c then add_field field next else longer

unfoldable pub fields : List ℕ → List (List ℕ)
fields s = fields_from [] s

-- `ReadString('\n')`: the line with its newline, and what is left; `none` at the end of the input.
unfoldable pub read_string : List ℕ → Option (List ℕ × List ℕ)
read_string [] = none
read_string (c ∷ cs) =
    let more = read_string cs in
    if c == newline
    then some (c ∷ [], cs)
    else elim more [ none ↦ none | some (line, rest) ↦ some (c ∷ line, rest) ]
