-- ===== src/Scoring/Fixed.antt =====
-- Fixed-point numbers for float64, in thousandths, for runs on concrete peers.
use music_p2p.Prelude.{◌+◌, ◌*◌, ◌/◌, ◌^◌, ℕ, min, ltb}
use music_p2p.Scoring.{Floats}

abbrev pub thousandths : Floats
thousandths = record {
  Float = ℕ;
  of_int = λ n. n * 1000;
  decimal = λ m k. m * 1000 / 10 ^ k;
  add = λ a b. a + b;
  mul = λ a b. a * b / 1000;
  div = λ a b. a * 1000 / b;
  minimum = λ a b. min a b;
  less = λ a b. ltb a b;
}
