-- ===== src/Base/Text/Decimal.antt =====
-- "%s:%d" can be read back: the last colon separates the text from the number.
use Prim.Native.Nat.{ℕ, zero, suc, ◌+◌, ◌-◌, ◌*◌, ◌/◌, ◌%◌, ◌<◌, ◌≤◌}
use mathlib.Core.Path.{◌≡◌, refl, ap, sym, ◌∙◌}
use mathlib.Core.Logic.{◌≢◌, inl, inr}
use mathlib.Core.List.{[], ◌∷◌, ◌++◌}
use native.Mathlib.Omega.{arith}
use funkyd.Base.Tests.{ltb, Bool-cases, ltb→lt}
use funkyd.Base.Lists.{All, All-append, All-map}
use funkyd.Base.Int.{ℤ, pos, negsuc}
use funkyd.Base.Text.{Text, decimal_fuel, decimal, decimal_int, sprintf_pair}

-- The number that a text of digits stands for.
read : ℕ → Text → ℕ
read acc [] = acc
read acc (c ∷ cs) = read (acc * 10 + (c - b'0')) cs

read-snoc : (acc : ℕ) (xs : Text) (c : ℕ) → read acc (xs ++ c ∷ []) ≡ read acc xs * 10 + (c - b'0')
unfolding read
read-snoc acc [] c = refl
read-snoc acc (x ∷ xs) c = read-snoc (acc * 10 + (x - b'0')) xs c

read-decimal_fuel : (f n : ℕ) → n < f → read 0 (decimal_fuel f n) ≡ n
unfolding decimal_fuel
read-decimal_fuel zero n h = absurd (omega arith)
read-decimal_fuel (suc f) n h = elim (Bool-cases (ltb n 10)) [
  | inl small ↦ rw small (unfold read in omega arith)
  | inr large ↦
      rw (large, read-snoc 0 (decimal_fuel f (n / 10)) (b'0' + n % 10))
        (ground (arith, read-decimal_fuel f (n / 10)))
]

abbrev IsDigit : ℕ → Type 0
IsDigit c = (b'0' ≤ c) × (c < b':')

decimal_fuel-IsDigit : (f n : ℕ) → All IsDigit (decimal_fuel f n)
unfolding decimal_fuel
decimal_fuel-IsDigit zero n = tt
decimal_fuel-IsDigit (suc f) n = elim (Bool-cases (ltb n 10)) [
  | inl small ↦ rw small ((omega arith, let h : n < 10 = ltb→lt n 10 small in omega arith), tt)
  | inr large ↦ rw large (
      All-append IsDigit (decimal_fuel f (n / 10)) ((b'0' + n % 10) ∷ [])
        (decimal_fuel-IsDigit f (n / 10)) ((omega arith, omega arith), tt))
]

decimal-injective : (m n : ℕ) → decimal m ≡ decimal n → m ≡ n
unfolding decimal
decimal-injective m n e =
    sym (read-decimal_fuel (suc m) m (omega arith))
    ∙ ap (read 0) e
    ∙ read-decimal_fuel (suc n) n (omega arith)

not-IsDigit_minus : (s t : Text) → All IsDigit s → s ≡ b'-' ∷ t → ⊥
not-IsDigit_minus [] t h e = cc
not-IsDigit_minus (c ∷ s) t h e = ground (arith, h)

decimal-ne-minus : (n : ℕ) (t : Text) → decimal n ≢ b'-' ∷ t
unfolding decimal
decimal-ne-minus n t = not-IsDigit_minus (decimal n) t (decimal_fuel-IsDigit (suc n) n)

-- `%d` loses nothing.
pub decimal_int-injective : (i j : ℤ) → decimal_int i ≡ decimal_int j → i ≡ j
unfolding decimal_int
decimal_int-injective (pos m) (pos n) e = ap pos (decimal-injective m n e)
decimal_int-injective (pos m) (negsuc n) e = absurd (decimal-ne-minus m (decimal (suc n)) e)
decimal_int-injective (negsuc m) (pos n) e = absurd (decimal-ne-minus n (decimal (suc m)) (sym e))
decimal_int-injective (negsuc m) (negsuc n) e =
    ground (arith, decimal-injective (suc m) (suc n) (cc))

abbrev NotColon : ℕ → Type 0
NotColon c = c ≢ b':'

decimal-NotColon : (n : ℕ) → All NotColon (decimal n)
unfolding decimal
decimal-NotColon n = All-map (λ c d. omega arith) (decimal n) (decimal_fuel-IsDigit (suc n) n)

decimal_int-NotColon : (i : ℤ) → All NotColon (decimal_int i)
unfolding decimal_int
decimal_int-NotColon (pos n) = decimal-NotColon n
decimal_int-NotColon (negsuc n) = (omega arith, decimal-NotColon (suc n))

no_colon : (s t : Text) → All NotColon (s ++ b':' ∷ t) → ⊥
no_colon [] t h = h.0 refl
no_colon (c ∷ s) t h = no_colon s t h.1

split_last :
    (s t d e : Text)
    → All NotColon d
    → All NotColon e
    → s ++ b':' ∷ d ≡ t ++ b':' ∷ e
    → (s ≡ t) × (d ≡ e)
split_last [] [] d e hd he p = (refl, cc)
split_last [] (c ∷ t) d e hd he p =
    let q : d ≡ t ++ b':' ∷ e = cc in absurd (no_colon t e (rw q at hd))
split_last (c ∷ s) [] d e hd he p =
    let q : e ≡ s ++ b':' ∷ d = cc in absurd (no_colon s d (rw q at he))
split_last (c ∷ s) (c' ∷ t) d e hd he p = let (l, r) = split_last s t d e hd he (cc) in (cc, r)

-- "%s:%d" determines the text and the number, whatever colons the text holds.
pub sprintf_pair-injective :
    (s t : Text) (i j : ℤ) → sprintf_pair s i ≡ sprintf_pair t j → (s ≡ t) × (i ≡ j)
unfolding sprintf_pair
sprintf_pair-injective s t i j p =
    let (l, r) =
      split_last s t (decimal_int i) (decimal_int j) (decimal_int-NotColon i)
        (decimal_int-NotColon j) p in
    (l, decimal_int-injective i j r)
