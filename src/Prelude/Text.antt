-- ===== src/Prelude/Text.antt =====
-- A decidable equality of texts, which computes at literals: the keys of maps are texts.
use Prim.Native.String.{String}
use mathlib.Core.Path.{◌≡◌, refl}
use mathlib.Core.Logic.{◌↔◌}
use mathlib.Core.Bool.{Bool, true, false}
use text.Mathlib.Text.{◌==◌}
use text.Mathlib.TextEquality.{eq_iff}

unfoldable pub dec_of_Bool : {P : Type 0} (b : Bool) → ((b ≡ true) ↔ P) → Dec P
dec_of_Bool true e = yes (e.0 refl)
dec_of_Bool false e = no (λ p. let f : false ≡ true = e.1 p in cc)

unfoldable pub String_discrete : Discrete String
unfolding dec_of_Bool
String_discrete a b = dec_of_Bool (a == b) (eq_iff a b)
