-- ===== src/Base/Floats.antt =====
-- The float64 of a weight, by the operations that the program uses. The values are quotients of
-- counts that are not negative, so there is no NaN and no negative zero among them, and `==` and
-- `<` are those of a linear order.
use Prim.Native.Nat.{ℕ}
use mathlib.Core.Bool.{Bool, true, false}
use mathlib.Core.Logic.{◌↔◌}
use mathlib.Core.Path.{◌≡◌}

pub record Floats (F : Type 0) : Type 0 where
  pub zero : F
  -- float64(a) / float64(b), for b other than 0
  pub quot : ℕ → ℕ → F
  pub ltb : F → F → Bool
  pub eqb : F → F → Bool
  pub eqb_iff : (a b : F) → (eqb a b ≡ true) ↔ (a ≡ b)
  pub irreflexive : (a : F) → ltb a a ≡ false
  -- If c is not below b, nor b below a, then c is not below a.
  pub transitive : (a b c : F) → ltb b a ≡ false → ltb c b ≡ false → ltb c a ≡ false
