-- ===== src/Base/Perms.antt =====
-- What a permutation keeps.
use mathlib.Core.Path.{◌≡◌, refl}
use mathlib.Core.Logic.{inl, inr}
use mathlib.Core.Bool.{Bool, true, false}
use mathlib.Core.Option.{none, some}
use mathlib.Core.List.{List, [], ◌∷◌, ◌++◌, Perm, perm_middle, filter_map}
use mathlib.Core.List.Perm
use funkyd.Base.Tests.{Bool-cases, if◌then◌else◌}
use funkyd.Base.Lists.{All}

module _ {ℓ} {A : Type ℓ} where
  -- The elements that fail a test.
  abbrev failing : (A → Bool) → List A → List A
  failing f = filter_map (λ x. if f x then none else some x)

  failing-All : (f : A → Bool) (xs : List A) → All (λ x. f x ≡ true) xs → failing f xs ≡ []
  unfolding filter_map
  failing-All f [] h = refl
  failing-All f (x ∷ xs) h = rw (h.0, failing-All f xs h.1) refl

  All-failing : (f : A → Bool) (xs : List A) → failing f xs ≡ [] → All (λ x. f x ≡ true) xs
  unfolding filter_map
  All-failing f [] e = tt
  All-failing f (x ∷ xs) e = elim (Bool-cases (f x)) [
    | inl passes ↦ (passes, All-failing f xs (rw passes at e))
    | inr fails ↦ cc (rw fails at e)
  ]

  pub All-perm :
      (f : A → Bool) {xs ys : List A}
      → Perm xs ys
      → All (λ x. f x ≡ true) xs
      → All (λ x. f x ≡ true) ys
  All-perm f {xs} {ys} p h = All-failing f ys (
      Perm.eq-nil (
        Perm.symm
          (rw (failing-All f xs h) at (Perm.filter_map (λ x. if f x then none else some x) p))))

  abbrev pub is_cons : List A → Bool
  is_cons [] = false
  is_cons (x ∷ xs) = true

  pub is_cons-perm : (xs ys : List A) → Perm xs ys → is_cons xs ≡ true → is_cons ys ≡ true
  is_cons-perm xs [] p e = cc (Perm.eq-nil p)
  is_cons-perm xs (y ∷ ys) p e = refl

pub append_left_comm {ℓ} :
    {A : Type ℓ} (xs ys zs : List A) → Perm (xs ++ (ys ++ zs)) (ys ++ (xs ++ zs))
append_left_comm [] ys zs = Perm.refl (ys ++ zs)
append_left_comm (x ∷ xs) ys zs =
    Perm.trans (Perm.cons x (append_left_comm xs ys zs)) (Perm.symm (perm_middle ys (xs ++ zs)))

-- A list that stands behind another comes to the front.
pub append_behind {ℓ} :
    {A : Type ℓ} (xs front zs : List A) {ys : List A}
    → Perm ys (front ++ zs)
    → Perm (xs ++ ys) (front ++ (xs ++ zs))
append_behind xs front zs p = Perm.trans (Perm.append_left xs p) (append_left_comm xs front zs)
